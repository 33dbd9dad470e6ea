-- ===== src/TokensDelta/Exact.antt =====
-- src/semantic_tokens_delta.c: the round that finds the end stops exactly there, although rounds may
-- run past the end of one of the two sequences.
use taskjuggler_lsp.Base.{
  ℕ, suc, ◌+◌, ◌-◌, ◌*◌, ◌≤◌, ◌<◌, ◌≡◌, ◌⊎◌, List, length, arith, inl, inr, dec_lt,
}
use taskjuggler_lsp.TokensDelta.{SemToken, slide}
use taskjuggler_lsp.TokensDelta.Rows.{Ends, IsRow, Point, Point-in_grid, slide-le}

module _ (a b : List SemToken) where
  not-past_a :
      {r : ℕ → ℕ} {d i x : ℕ}
      → IsRow a b d r
      → i ≤ suc d
      → Point a b r d i x
      → Ends a b x (x + suc d - 2 * i)
      → x ≤ length a
  not-past_a {r} {d} {i} {x} row h p ends = elim (dec_lt (length a) x) [
    | no fine ↦ omega arith
    | yes past ↦ elim p.is_edge.from [
      | inr (pos, right) ↦ absurd (
          row.goes_on (i - 1) (omega arith)
            (omega (arith, p.reaches, p.below_a), omega (arith, p.reaches, p.below_a)))
      | inl (low, down) ↦
          let same : x ≡ r i = omega (arith, p.reaches, p.below_a) in
          let (pos, near) = row.past_a i low (omega arith) in
          elim (dec_lt (r i + d - 2 * i) (length b)) [
            | no over ↦ absurd (row.goes_on i low (omega arith, omega arith))
            | yes under ↦ absurd (row.goes_on (i - 1) (omega arith) (omega arith, omega arith))
          ]
    ]
  ]

  not-past_b :
      {r : ℕ → ℕ} {d i x : ℕ}
      → IsRow a b d r
      → i ≤ suc d
      → Point a b r d i x
      → Ends a b x (x + suc d - 2 * i)
      → x + suc d - 2 * i ≤ length b
  not-past_b {r} {d} {i} {x} row h p ends = elim (dec_lt (length b) (x + suc d - 2 * i)) [
    | no fine ↦ omega arith
    | yes past ↦ elim p.is_edge.from [
      | inl (low, down) ↦ absurd (
          row.goes_on i low
            (omega (arith, p.reaches, p.below_b), omega (arith, p.reaches, p.below_b)))
      | inr (pos, right) ↦
          let same : x ≡ r (i - 1) + 1 = omega (arith, p.reaches, p.below_b) in
          let (low, near) = row.past_b (i - 1) (omega arith) (omega arith) in
          let back : i - 1 + 1 ≡ i = omega arith in
          let near' : r (i - 1) + 1 ≤ r i = rw back at near in
          elim (dec_lt (r (i - 1)) (length a)) [
            | no over ↦ absurd (row.goes_on (i - 1) (omega arith) (omega arith, omega arith))
            | yes under ↦ absurd (row.goes_on i (omega arith) (omega arith, omega arith))
          ]
    ]
  ]

  -- A round that finds the end stops at the end of both sequences.
  pub stops_exactly :
      {r : ℕ → ℕ} {d i x : ℕ}
      → IsRow a b d r
      → i ≤ suc d
      → Point a b r d i x
      → Ends a b x (x + suc d - 2 * i)
      → (x ≡ length a) × (x + suc d - 2 * i ≡ length b)
  stops_exactly row h p ends = omega (arith, not-past_a row h p ends, not-past_b row h p ends, ends)

  module _ {r : ℕ → ℕ} {d : ℕ} (row : IsRow a b d r) {s : ℕ → ℕ}
      (points : (i : ℕ) → i ≤ suc d → Point a b r d i (s i)) where
    keeps_past_a : (i : ℕ) → i ≤ suc d → length a < s i → (0 < i) × (s i ≤ s (i - 1) + 1)
    keeps_past_a i h past =
        let p = points i h in
        elim p.is_edge.from [
          | inl (low, down) ↦
              let (pos, near) = row.past_a i low (omega (arith, p.reaches, p.below_a)) in
              let q = points (i - 1) (omega arith) in
              (pos, omega (arith, p.reaches, p.below_a, q.is_edge.past_down, q.reaches))
          | inr (pos, right) ↦
              let q = points (i - 1) (omega arith) in
              (pos, omega (arith, p.reaches, p.below_a, q.is_edge.past_down, q.reaches))
        ]

    ahead : (i : ℕ) → i < suc d → r i + 1 ≤ s (i + 1)
    ahead i h =
        let q = points (i + 1) (omega arith) in
        let back : i + 1 - 1 ≡ i = omega arith in
        let right : (i + 1 ≡ 0) ⊎ (r i + 1 ≤ q.start) = rw back at q.is_edge.past_right in
        omega (arith, right, q.reaches)

    keeps_past_b :
        (i : ℕ) → i ≤ suc d → length b < s i + suc d - 2 * i → (i < suc d) × (s i + 1 ≤ s (i + 1))
    keeps_past_b i h past =
        let p = points i h in
        elim p.is_edge.from [
          | inl (low, down) ↦
              (omega arith, omega (arith, p.reaches, p.below_b, ahead i (omega arith)))
          | inr (pos, right) ↦
              let (low, near) =
                row.past_b (i - 1) (omega arith) (omega (arith, p.reaches, p.below_b)) in
              let back : i - 1 + 1 ≡ i = omega arith in
              let near' : r (i - 1) + 1 ≤ r i = rw back at near in
              (omega arith, omega (arith, p.reaches, p.below_b, ahead i (omega arith)))
        ]

    -- A round that does not find the end leaves a row for the next one.
    pub next-IsRow :
        ((i : ℕ) → i ≤ suc d → ¬ Ends a b (s i) (s i + suc d - 2 * i)) → IsRow a b (suc d) s
    next-IsRow open_ends = record {
      in_grid = λ i h. (Point-in_grid a b row h (points i h)).0;
      far = λ i h. (Point-in_grid a b row h (points i h)).1;
      goes_on = open_ends;
      past_a = keeps_past_a;
      past_b = keeps_past_b;
    }

  -- Round 0 slides from the start and has passed neither end.
  pub first-IsRow : (s : ℕ → ℕ) → s 0 ≡ slide a b 0 0 → ¬ Ends a b (s 0) (s 0) → IsRow a b 0 s
  first-IsRow s e open_ends = record {
    in_grid = λ i h. omega arith;
    far = λ i h. omega arith;
    goes_on = λ i h.
        let z : i ≡ 0 = omega arith in rw z (λ ends. open_ends (ends.0, omega (arith, ends.1)));
    past_a = λ i h past.
        let z : i ≡ 0 = omega arith in absurd (omega (arith, e, slide-le a b 0 0, rw z at past));
    past_b = λ i h past.
        let z : i ≡ 0 = omega arith in absurd (omega (arith, e, slide-le a b 0 0, rw z at past));
  }
