-- ===== src/TokensDelta/Backtrace.antt =====
-- src/semantic_tokens_delta.c: the trace back through the snapshots lists kinds that lead from the
-- old tokens to the new ones.
use taskjuggler_lsp.Base.{
  ℕ, zero, suc, ◌+◌, ◌-◌, ◌*◌, ◌/◌, ◌≤◌, ◌<◌, ◌≡◌, List, ◌∷◌, length, arith, inl, inr, refl, ◌∙◌,
  Bool, true, false, ap, ◌==◌, if◌then◌else◌, not, ltb, ◌||◌, ◌&&◌, drop, min, Bool-cases,
}
use taskjuggler_lsp.TokensDelta.{SemToken, Kind, delete, insert, slide, backtrace, push_snakes}
use taskjuggler_lsp.TokensDelta.Rows.{next, edge, goes_down, edge-Edge, slide-equal}
use taskjuggler_lsp.TokensDelta.Rounds.{reach, Saved}
use taskjuggler_lsp.TokensDelta.Script.{Transforms, drop-lt, Transforms-push_snakes}

-- A round of the trace on its `i`-th diagonal, for the two ways it can have come.
unfoldable view : (ℕ → ℕ → ℕ) → ℕ → ℕ → ℕ → List Kind → ℕ → Bool → List Kind
view snap d x y raw i down =
    let x_prev = if down then snap d i else snap d (i - 1) in
    let y_prev = if down then x_prev + y - x - 1 else x_prev + y + 1 - x in
    let x_edge = if down then x_prev else x_prev + 1 in
    let y_edge = if down then y_prev + 1 else y_prev in
    let n = min (x - x_edge) (y - y_edge) in
    let raw' = push_snakes n raw in
    elim down [
      | true ↦ backtrace snap d (x - n) (y - n - 1) (insert ∷ raw')
      | false ↦ backtrace snap d (x - n - 1) (y - n) (delete ∷ raw')
    ]

view-down :
    (snap : ℕ → ℕ → ℕ) (d x y : ℕ) (raw : List Kind) (i p q n : ℕ)
    → snap d i ≡ p
    → x ≡ p + n
    → y ≡ q + 1 + n
    → view snap d x y raw i true ≡ backtrace snap d p q (insert ∷ push_snakes n raw)
unfolding view
view-down snap d x y raw i p q n hp hx hy =
    let len : min (x - snap d i) (y - (snap d i + y - x - 1 + 1)) ≡ n = omega (arith, hp) in
    let px : x - n ≡ p = omega arith in
    let py : y - n - 1 ≡ q = omega arith in rw (len, px, py) refl

view-right :
    (snap : ℕ → ℕ → ℕ) (d x y : ℕ) (raw : List Kind) (i p q n : ℕ)
    → snap d (i - 1) ≡ p
    → x ≡ p + 1 + n
    → y ≡ q + n
    → view snap d x y raw i false ≡ backtrace snap d p q (delete ∷ push_snakes n raw)
unfolding view
view-right snap d x y raw i p q n hp hx hy =
    let len : min (x - (snap d (i - 1) + 1)) (y - (snap d (i - 1) + y + 1 - x)) ≡ n =
      omega (arith, hp) in
    let px : x - n - 1 ≡ p = omega arith in
    let py : y - n ≡ q = omega arith in rw (len, px, py) refl

pub backtrace-zero :
    (snap : ℕ → ℕ → ℕ) (x y : ℕ) (raw : List Kind)
    → backtrace snap zero x y raw ≡ push_snakes (min x y) raw
unfolding backtrace
backtrace-zero snap x y raw = refl

edge-down :
    (r : ℕ → ℕ) (d i : ℕ)
    → goes_down r (suc d) i ≡ true
    → i ≤ suc d
    → (i ≤ d) × (r i ≡ edge r (suc d) i)
unfolding edge goes_down
edge-down r d i down h = ground (arith, down)

edge-right :
    (r : ℕ → ℕ) (d i : ℕ)
    → goes_down r (suc d) i ≡ false
    → (0 < i) × (r (i - 1) + 1 ≡ edge r (suc d) i)
unfolding edge goes_down
edge-right r d i right = ground (arith, right)

module _ (a b : List SemToken) where
  pub reach-in_grid : (d i : ℕ) → i ≤ d → 2 * i ≤ reach a b d i + d
  unfolding reach next
  reach-in_grid zero i h = omega arith
  reach-in_grid (suc d) i h = elim (edge-Edge (reach a b d) d i h).from [
    | inl down ↦ omega (arith, reach-in_grid d i down.0)
    | inr right ↦ omega (arith, reach-in_grid d (i - 1) (omega arith))
  ]

  -- The test of the trace is the test of the round.
  back_down :
      (snap : ℕ → ℕ → ℕ) (d x y i : ℕ)
      → Saved a b (suc d) snap
      → i ≤ suc d
      → 2 * i ≤ x + suc d
      → y ≡ x + suc d - 2 * i
      → (x + suc d == y || not (x == y + suc d) && ltb (snap d (i - 1)) (snap d i))
        ≡ goes_down (reach a b d) (suc d) i
  unfolding goes_down
  back_down snap d x y i saved h grid hy =
      ground (arith, saved d i (omega arith), saved d (i - 1) (omega arith))

  backtrace-view :
      (snap : ℕ → ℕ → ℕ) (d x y i : ℕ) (raw : List Kind)
      → Saved a b (suc d) snap
      → i ≤ suc d
      → 2 * i ≤ x + suc d
      → y ≡ x + suc d - 2 * i
      → backtrace snap (suc d) x y raw ≡ view snap d x y raw i (goes_down (reach a b d) (suc d) i)
  unfolding backtrace view
  backtrace-view snap d x y i raw saved h grid hy =
      let diag : (x + suc d - y) / 2 ≡ i = omega arith in
      ap
        (λ (j : ℕ).
          view snap d x y raw j
            (x + suc d == y || not (x == y + suc d) && ltb (snap d (j - 1)) (snap d j)))
        diag
      ∙ ap (view snap d x y raw i) (back_down snap d x y i saved h grid hy)

  -- The snake of a round, from its edge on.
  snake-Transforms :
      (x y e n : ℕ) (f : ℕ) (raw : List Kind)
      → n ≡ slide a b e f
      → x ≡ e + n
      → y ≡ f + n
      → Transforms raw (drop x a) (drop y b)
      → Transforms (push_snakes n raw) (drop e a) (drop f b)
  snake-Transforms x y e n f raw hn hx hy behind =
      Transforms-push_snakes a b e f n raw (λ t lt. slide-equal a b e f t (rw hn at lt))
        (rw (hx, hy) at behind)

  same_place :
      (raw : List Kind) {x x' y y' : ℕ}
      → x ≡ x'
      → y ≡ y'
      → Transforms raw (drop x' a) (drop y' b)
      → Transforms raw (drop x a) (drop y b)
  same_place raw ex ey h = rw (ex, ey) h

  -- The trace from a point of round `d` back to the start.
  pub backtrace-Transforms :
      (snap : ℕ → ℕ → ℕ) (d i x y : ℕ) (raw : List Kind)
      → i ≤ d
      → x ≡ reach a b d i
      → y ≡ x + d - 2 * i
      → x ≤ length a
      → y ≤ length b
      → Saved a b d snap
      → Transforms raw (drop x a) (drop y b)
      → Transforms (backtrace snap d x y raw) a b
  unfolding reach next
  backtrace-Transforms snap zero i x y raw h hx hy la lb saved behind =
      let short : min x y ≡ x = omega arith in
      rw (backtrace-zero snap x y raw, short)
        (snake-Transforms x y 0 x 0 raw hx (omega arith) (omega arith) behind)
  backtrace-Transforms snap (suc d) i x y raw h hx hy la lb saved behind =
      let grid : 2 * i ≤ x + suc d = omega (arith, reach-in_grid (suc d) i h) in
      let e = edge (reach a b d) (suc d) i in
      let n = slide a b e (e + suc d - 2 * i) in
      let before : Saved a b d snap = λ k j lt le. saved k j (omega arith) le in
      let opened = backtrace-view snap d x y i raw saved h grid hy in
      elim (Bool-cases (goes_down (reach a b d) (suc d) i)) [
        | inl down ↦
            let (low, here) = edge-down (reach a b d) d i down h in
            let q = reach a b d i + d - 2 * i in
            let in_grid = reach-in_grid d i low in
            let start : q + 1 ≡ e + suc d - 2 * i = omega arith in
            let (t, next_b) = drop-lt b q (omega arith) in
            let snakes =
              snake-Transforms x y e n (e + suc d - 2 * i) raw refl hx (omega arith) behind in
            let back =
              view-down snap d x y raw i (reach a b d i) q n (saved d i (omega arith) low)
                (omega arith) (omega arith) in
            rw (opened, down, back)
              (backtrace-Transforms snap d i (reach a b d i) q (insert ∷ push_snakes n raw) low refl
                refl (omega arith) (omega arith) before
                (t, drop (q + 1) b, next_b, same_place (push_snakes n raw) here start snakes))
        | inr right ↦
            let (pos, here) = edge-right (reach a b d) d i right in
            let p = reach a b d (i - 1) in
            let q = p + d - 2 * (i - 1) in
            let in_grid = reach-in_grid d (i - 1) (omega arith) in
            let start : q ≡ e + suc d - 2 * i = omega arith in
            let (t, next_a) = drop-lt a p (omega arith) in
            let snakes =
              snake-Transforms x y e n (e + suc d - 2 * i) raw refl hx (omega arith) behind in
            let back =
              view-right snap d x y raw i p q n (saved d (i - 1) (omega arith) (omega arith))
                (omega arith) (omega arith) in
            rw (opened, right, back)
              (backtrace-Transforms snap d (i - 1) p q (delete ∷ push_snakes n raw) (omega arith)
                refl refl (omega arith) (omega arith) before
                (t, drop (p + 1) a, next_a, same_place (push_snakes n raw) here start snakes))
      ]
