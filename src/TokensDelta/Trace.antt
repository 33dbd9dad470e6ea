-- ===== src/TokensDelta/Trace.antt =====
-- src/semantic_tokens_delta.c: the array `v` holds the rows of the rounds, and the loop over the
-- rounds reaches the end with the snapshots of all rounds before.
use taskjuggler_lsp.Base.{
  ℕ, zero, suc, ◌+◌, ◌-◌, ◌*◌, ◌≤◌, ◌<◌, ◌≡◌, ◌⊎◌, List, length, arith, inl, inr, dec_lt, refl, ◌∙◌,
  true, false, Bool-cases, leb, ◌&&◌, ap₂, fun_ext,
}
use taskjuggler_lsp.TokensDelta.{SemToken, slide, update, edge_of, Search, not_found, found, round}
use taskjuggler_lsp.TokensDelta.Rows.{Ends}

edge_of-update :
    (v : ℕ → ℕ) (m d i j x : ℕ)
    → d ≤ m
    → i ≤ d
    → j ≤ d
    → edge_of (update v (m + 2 * i - d) x) (m + 2 * j - d) d j ≡ edge_of v (m + 2 * j - d) d j
unfolding edge_of
edge_of-update v m d i j x h hi hj = ground arith

module _ (a b : List SemToken) where
  module _ (m d : ℕ) (low : d ≤ m) (e : ℕ → ℕ) where
    -- The point of a diagonal at the end of the round.
    abbrev pub point : ℕ → ℕ
    point i = e i + slide a b (e i) (e i + d - 2 * i)

    abbrev pub Starts : (ℕ → ℕ) → Type 0
    Starts v = (i : ℕ) → i ≤ d → edge_of v (m + 2 * i - d) d i ≡ e i

    pub record AtEnd (res : Search) : Type 0 where
      pub diag : ℕ
      pub in_round : diag ≤ d
      pub result : res ≡ found (point diag) (point diag + d - 2 * diag)
      pub at_end : Ends a b (point diag) (point diag + d - 2 * diag)

    abbrev pub Done : ℕ → (ℕ → ℕ) → Type 0
    Done i v =
        (j : ℕ)
        → j < i
        → (v (m + 2 * j - d) ≡ point j) × (¬ Ends a b (point j) (point j + d - 2 * j))

    pub record Kept (res : Search) : Type 0 where
      pub row : ℕ → ℕ
      pub result : res ≡ not_found row
      pub done : Done (suc d) row

    offset : (x i : ℕ) → i ≤ d → x + m - (m + 2 * i - d) ≡ x + d - 2 * i
    offset x i h = omega arith

    -- A round's work on a diagonal, from its starting point and its offset from the other side.
    unfoldable settle : ℕ → ℕ → (ℕ → ℕ) → ℕ → (ℕ → ℕ) → Search
    settle n i v x₀ off =
        let x = x₀ + slide a b x₀ (off x₀) in
        elim (leb (length a) x && leb (length b) (off x)) [
          | true ↦ found x (off x)
          | false ↦ round a b m d n (i + 1) (update v (m + 2 * i - d) x)
        ]

    round-step :
        (n i : ℕ) (v : ℕ → ℕ)
        → i ≤ d
        → Starts v
        → round a b m d (suc n) i v
          ≡ elim (leb (length a) (point i) && leb (length b) (point i + d - 2 * i)) [
            | true ↦ found (point i) (point i + d - 2 * i)
            | false ↦ round a b m d n (i + 1) (update v (m + 2 * i - d) (point i))
          ]
    unfolding round settle
    round-step n i v h st = ap₂ (settle n i v) (st i h) (fun_ext (λ x. offset x i h))

    Done-next :
        (i : ℕ) (v : ℕ → ℕ)
        → i ≤ d
        → Done i v
        → ¬ Ends a b (point i) (point i + d - 2 * i)
        → Done (i + 1) (update v (m + 2 * i - d) (point i))
    Done-next i v h dn open_end j lt = elim (dec_lt j i) [
      | yes before ↦ (ground (arith, (dn j before).0), (dn j before).1)
      | no last ↦ let same : j ≡ i = omega arith in rw same (ground arith, open_end)
    ]

    pub round_lem :
        (n i : ℕ) (v : ℕ → ℕ)
        → n + i ≡ suc d
        → Starts v
        → Done i v
        → AtEnd (round a b m d n i v) ⊎ Kept (round a b m d n i v)
    unfolding round
    round_lem zero i v h st dn =
        inr record { row = v; result = refl; done = λ j lt. dn j (omega arith) }
    round_lem (suc n) i v h st dn =
        let here : i ≤ d = omega arith in
        let test = leb (length a) (point i) && leb (length b) (point i + d - 2 * i) in
        elim (Bool-cases test) [
          | inl yes_end ↦ inl record {
            diag = i;
            in_round = here;
            result = round-step n i v here st ∙ rw yes_end refl;
            at_end = ground (arith, yes_end);
          }
          | inr no_end ↦
              let more =
                round_lem n (i + 1) (update v (m + 2 * i - d) (point i)) (omega arith)
                  (λ j hj. edge_of-update v m d i j (point i) low here hj ∙ st j hj)
                  (Done-next i v here dn (ground (arith, no_end))) in
              let eq : round a b m d (suc n) i v
                  ≡ round a b m d n (i + 1) (update v (m + 2 * i - d) (point i)) =
                round-step n i v here st ∙ rw no_end refl in
              rw eq more
        ]
