-- ===== src/TokensDelta/Rounds.antt =====
-- src/semantic_tokens_delta.c: the loop over the rounds finds the end of both sequences, within as
-- many rounds as they have tokens together.
use taskjuggler_lsp.Base.{
  ℕ, zero, suc, ◌+◌, ◌-◌, ◌*◌, ◌≤◌, ◌<◌, ◌≡◌, ◌≢◌, List, length, arith, inl, inr, dec_lt, refl, ◌∙◌,
  Option, some, ap, ap₂,
}
use taskjuggler_lsp.TokensDelta.{SemToken, slide, update, edge_of, rounds, save}
use taskjuggler_lsp.TokensDelta.Rows.{IsRow, next, edge, goes_down, next-Point, slide-le}
use taskjuggler_lsp.TokensDelta.Exact.{stops_exactly, next-IsRow, first-IsRow}
use taskjuggler_lsp.TokensDelta.Trace.{Starts, round_lem}

update_self {ℓ} : {A : Type ℓ} (f : ℕ → A) (i : ℕ) (x : A) → update f i x i ≡ x
update_self f i x = ground arith

update_ne {ℓ} : {A : Type ℓ} (f : ℕ → A) {i j : ℕ} (x : A) → i ≢ j → update f i x j ≡ f j
update_ne f x h = ground arith

module _ (a b : List SemToken) where
  -- How far round `d` reaches on its diagonals.
  unfoldable pub reach : ℕ → ℕ → ℕ
  reach zero i = slide a b 0 0
  reach (suc d) i = next a b (reach d) d i

  abbrev Reads : ℕ → ℕ → (ℕ → ℕ) → (ℕ → ℕ) → Type 0
  Reads m d r v = (i : ℕ) → i ≤ d → v (m + 2 * i - d) ≡ r i

  Reads-Starts :
      (m d : ℕ) (low : suc d ≤ m) (r v : ℕ → ℕ)
      → Reads m d r v
      → Starts a b m (suc d) low (edge r (suc d)) v
  unfolding edge_of edge goes_down
  Reads-Starts m d low r v h i hi =
      let up : m + 2 * i - suc d + 1 ≡ m + 2 * i - d = omega arith in
      let down : 0 < i → m + 2 * i - suc d - 1 ≡ m + 2 * (i - 1) - d = λ pos. omega arith in
      ground (arith, up, down, h i, h (i - 1))

  abbrev pub Saved : ℕ → (ℕ → ℕ → ℕ) → Type 0
  Saved d snap = (e i : ℕ) → e < d → i ≤ e → snap e i ≡ reach e i

  Saved-save :
      (m d : ℕ) (v : ℕ → ℕ) (snap : ℕ → ℕ → ℕ)
      → Reads m d (reach d) v
      → Saved d snap
      → Saved (suc d) (save a b m d v snap)
  unfolding save
  Saved-save m d v snap reads saved e i h hi = elim (dec_lt e d) [
    | yes before ↦
        ap (λ (f : ℕ → ℕ). f i)
          (update_ne snap {i = d} {j = e} (λ i. v (m + 2 * i - d)) (omega arith))
        ∙ saved e i before hi
    | no last ↦
        let same : e ≡ d = omega arith in
        let low : i ≤ d = omega arith in
        rw same
          (ap (λ (f : ℕ → ℕ). f i) (update_self snap d (λ i. v (m + 2 * i - d))) ∙ reads i low)
  ]

  -- The end is found on a diagonal of round `dist`, with the rounds before in the snapshots.
  pub record Found (res : Option (ℕ × ℕ × ℕ × (ℕ → ℕ → ℕ))) : Type 0 where
    pub dist : ℕ
    pub diag : ℕ
    pub snap : ℕ → ℕ → ℕ
    pub result : res ≡ some (dist, length a, length b, snap)
    pub in_round : diag ≤ dist
    pub ends_a : reach dist diag ≡ length a
    pub ends_b : length b ≡ length a + dist - 2 * diag
    pub saved : Saved dist snap

  -- The diagonal of the end has not run out by the last round.
  last_round : (m : ℕ) → m ≡ length a + length b → ¬ IsRow a b m (reach m)
  last_round m e row =
      let h : length a ≤ m = omega arith in
      row.goes_on (length a) h (
        omega (arith, row.in_grid (length a) h, row.far (length a) h),
        omega (arith, row.in_grid (length a) h, row.far (length a) h),
      )

  rounds_lem :
      (m left d : ℕ) (v : ℕ → ℕ) (snap : ℕ → ℕ → ℕ)
      → left + d ≡ m
      → m ≡ length a + length b
      → Reads m d (reach d) v
      → IsRow a b d (reach d)
      → Saved (suc d) snap
      → Found (rounds a b m left (suc d) v snap)
  unfolding rounds next reach
  rounds_lem m zero d v snap h e reads row saved =
      let last : d ≡ m = omega arith in absurd (last_round m e (rw last at row))
  rounds_lem m (suc left) d v snap h e reads row saved =
      let low : suc d ≤ m = omega arith in
      let starts = Reads-Starts m d low (reach d) v reads in
      elim (round_lem a b m (suc d) low (edge (reach d) (suc d)) (suc (suc d)) 0 v (omega arith)
        starts (λ j lt. absurd (omega arith))) [
          | inl p ↦
              let exact =
                stops_exactly a b row p.in_round (next-Point a b (reach d) d p.diag p.in_round)
                  p.at_end in
              record {
                dist = suc d;
                diag = p.diag;
                snap = snap;
                result = rw (rounds, p.result, exact.1, exact.0) refl;
                in_round = p.in_round;
                ends_a = exact.0;
                ends_b = omega (arith, exact.0, exact.1);
                saved = saved;
              }
          | inr k ↦
              let reads' : Reads m (suc d) (reach (suc d)) k.row =
                λ i hi. (k.done i (omega arith)).0 in
              let row' =
                next-IsRow a b row {s = reach (suc d)} (λ i hi. next-Point a b (reach d) d i hi)
                  (λ i hi. (k.done i (omega arith)).1) in
              let rest =
                rounds_lem m left (suc d) k.row (save a b m (suc d) k.row snap) (omega arith) e
                  reads' row' (Saved-save m (suc d) k.row snap reads' saved) in
              rw (rounds, k.result) rest
        ]

  start_slide : (i : ℕ) → i ≤ 0 → 0 + slide a b 0 (0 + 0 - 2 * i) ≡ slide a b 0 0
  start_slide i h =
      let none_left : 0 + 0 - 2 * i ≡ 0 = omega arith in
      let same : slide a b 0 (0 + 0 - 2 * i) ≡ slide a b 0 0 = ap (slide a b 0) none_left in
      omega (arith, same)

  first_start : (m i : ℕ) → i ≤ 0 → edge_of (λ _. 0) (m + 2 * i - 0) 0 i ≡ 0
  unfolding edge_of
  first_start m i h = ground arith

  -- The loop over the rounds ends exactly at the end of both sequences.
  pub rounds-Found :
      (m : ℕ) → m ≡ length a + length b → Found (rounds a b m (suc m) 0 (λ _. 0) (λ _ _. 0))
  unfolding rounds reach edge_of
  rounds-Found m e =
      let low : 0 ≤ m = omega arith in
      elim (round_lem a b m 0 low (λ _. 0) 1 0 (λ _. 0) (omega arith) (λ i hi. first_start m i hi)
        (λ j lt. absurd (omega arith))) [
          | inl p ↦
              let z : p.diag ≡ 0 = omega (arith, p.in_round) in
              let at_end = rw z at p.at_end in
              let exact : (slide a b 0 0 ≡ length a) × (slide a b 0 0 ≡ length b) =
                omega (arith, at_end.0, at_end.1, slide-le a b 0 0) in
              record {
                dist = 0;
                diag = 0;
                snap = λ _ _. 0;
                result =
                    rw (rounds, p.result)
                      (ap₂ (λ (x y : ℕ). some (0, x, y, λ (d i : ℕ). 0))
                        (start_slide p.diag p.in_round ∙ exact.0)
                        (omega (arith, z, start_slide p.diag p.in_round, exact.1)));
                in_round = omega arith;
                ends_a = exact.0;
                ends_b = omega (arith, exact.0, exact.1);
                saved = λ e i h hi. absurd (omega arith);
              }
          | inr k ↦
              let row = first-IsRow a b (reach 0) refl (λ ends.
                (k.done 0 (omega arith)).1 (omega (arith, ends.0), omega (arith, ends.1))) in
              let reads : Reads m 0 (reach 0) k.row =
                λ i hi. (k.done i (omega arith)).0 ∙ start_slide i hi in
              rw (rounds, k.result)
                (rounds_lem m m 0 k.row (save a b m 0 k.row (λ _ _. 0)) (omega arith) e reads row
                  (Saved-save m 0 k.row (λ _ _. 0) reads (λ e i h hi. absurd (omega arith))))
        ]

-- Some round, of those up to the two lengths together, finds the end, and it finds exactly the end of
-- both sequences, past neither.
pub rounds-exact :
    (a b : List SemToken)
    → (d : ℕ) × (snap : ℕ → ℕ → ℕ) × (rounds a b
          (length a + length b)
          (suc (length a + length b))
          0
          (λ _. 0)
          (λ _ _. 0)
        ≡ some (d, length a, length b, snap))
rounds-exact a b = let f = rounds-Found a b (length a + length b) refl in (f.dist, f.snap, f.result)
