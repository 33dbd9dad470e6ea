-- ===== src/TokensDelta/Bounds.antt =====
-- src/semantic_tokens_delta.c: the edits stand in the order of the old data, do not overlap, do
-- something, and name places inside both data.
use taskjuggler_lsp.Base.{
  ℕ, zero, suc, ◌+◌, ◌-◌, ◌≤◌, ◌<◌, ◌≡◌, List, [], ◌∷◌, length, arith, refl, ◌∙◌, ap, take, drop,
  length-append, length-take, Bool, true, false, ◌==◌, ltb, ◌&&◌, ◌||◌, if◌then◌else◌, some,
}
use taskjuggler_lsp.TokensDelta.{
  SemToken, Kind, snake, delete, insert, EditOp, EditRun, take_run, coalesce_edit_ops, rounds,
  backtrace, replace_all, edits_of, d_bound, myers_diff_run, common_prefix, common_suffix,
  delta_ops,
}
use taskjuggler_lsp.TokensDelta.Rounds.{rounds-Found}
use taskjuggler_lsp.TokensDelta.Script.{Transforms}
use taskjuggler_lsp.TokensDelta.Runs.{
  Run, take_run-Run, take_run-Takes_delete, take_run-Takes_insert,
}
use taskjuggler_lsp.TokensDelta.Delta.{trace-Transforms, prefix-le}

-- From `low` on, in old data of `old` tokens and new data of `new` tokens.
abbrev pub InOrder : ℕ → ℕ → ℕ → List EditOp → Type 0
InOrder low old new [] = low ≤ old
InOrder low old new (op ∷ ops) =
    (low ≤ op.start_tok)
    × (op.insert_b_start + op.insert_tok ≤ new)
    × (0 < op.delete_tok + op.insert_tok)
    × InOrder (op.start_tok + op.delete_tok) old new ops

InOrder-low :
    (old new : ℕ) {low low' : ℕ} (ops : List EditOp)
    → low ≤ low'
    → InOrder low' old new ops
    → InOrder low old new ops
InOrder-low old new [] hl h = omega arith
InOrder-low old new (op ∷ ops) hl (h₁, h₂, h₃, h) = (omega arith, h₂, h₃, h)

InOrder-ends :
    {old old' new new' : ℕ} (ops : List EditOp) (low : ℕ)
    → old' ≤ old
    → new' ≤ new
    → InOrder low old' new' ops
    → InOrder low old new ops
InOrder-ends [] low ho hn h = omega arith
InOrder-ends (op ∷ ops) low ho hn (h₁, h₂, h₃, h) =
    (h₁, omega arith, h₃, InOrder-ends ops (op.start_tok + op.delete_tok) ho hn h)

InOrder-at :
    {low low' old old' new new' : ℕ} (ops : List EditOp)
    → low ≤ low'
    → old' ≤ old
    → new' ≤ new
    → InOrder low' old' new' ops
    → InOrder low old new ops
InOrder-at ops hl ho hn h = InOrder-ends ops _ ho hn (InOrder-low _ _ ops hl h)

module _ (a_offset b_offset : ℕ) where
  grouped-InOrder :
      (run : EditRun) (ops : List EditOp) (x y : ℕ) (xs ys : List SemToken) (p : Run run 0 0 xs ys)
      → 0 < run.del + run.ins
      → InOrder
          (a_offset + (x + run.del))
          (a_offset + (x + run.del) + length p.xs')
          (b_offset + (y + run.ins) + length p.ys')
          ops
      → InOrder (a_offset + x) (a_offset + x + length xs) (b_offset + y + length ys) (
          record {
            start_tok = a_offset + x;
            delete_tok = run.del;
            insert_b_start = b_offset + y;
            insert_tok = run.ins;
          }
          ∷ ops)
  grouped-InOrder run ops x y xs ys p pos h =
      let lx : length xs ≡ length p.dels + length p.xs' =
        ap length p.old_side ∙ length-append p.dels p.xs' in
      let ly : length ys ≡ length p.inss + length p.ys' =
        ap length p.new_side ∙ length-append p.inss p.ys' in
      (
        omega arith,
        omega (arith, p.inserted),
        pos,
        InOrder-at ops (omega arith) (omega (arith, p.deleted)) (omega (arith, p.inserted)) h,
      )

  coalesce-InOrder :
      (fuel : ℕ) (raw : List Kind) (x y : ℕ) (xs ys : List SemToken)
      → length raw ≤ fuel
      → Transforms raw xs ys
      → InOrder
          (a_offset + x)
          (a_offset + x + length xs)
          (b_offset + y + length ys)
          (coalesce_edit_ops a_offset b_offset fuel raw x y)
  unfolding coalesce_edit_ops
  coalesce-InOrder fuel [] x y xs ys h (ex, ey) = omega arith
  coalesce-InOrder zero (k ∷ r) x y xs ys h t = absurd (omega arith)
  coalesce-InOrder (suc fuel) (snake ∷ r) x y xs ys h (s, xs', ys', ex, ey, t) =
      InOrder-at (coalesce_edit_ops a_offset b_offset fuel r (x + 1) (y + 1)) (omega arith)
        (omega (arith, ap length ex)) (omega (arith, ap length ey))
        (coalesce-InOrder fuel r (x + 1) (y + 1) xs' ys' (omega arith) t)
  coalesce-InOrder (suc fuel) (delete ∷ r) x y xs ys h t =
      let run = take_run (delete ∷ r) 0 0 in
      let p = take_run-Run (delete ∷ r) 0 0 xs ys t in
      grouped-InOrder run
        (coalesce_edit_ops a_offset b_offset fuel run.rest (x + run.del) (y + run.ins)) x y xs ys p
        (take_run-Takes_delete r).1
        (coalesce-InOrder fuel run.rest (x + run.del) (y + run.ins) p.xs' p.ys'
          (omega (arith, (take_run-Takes_delete r).0)) p.behind)
  coalesce-InOrder (suc fuel) (insert ∷ r) x y xs ys h t =
      let run = take_run (insert ∷ r) 0 0 in
      let p = take_run-Run (insert ∷ r) 0 0 xs ys t in
      grouped-InOrder run
        (coalesce_edit_ops a_offset b_offset fuel run.rest (x + run.del) (y + run.ins)) x y xs ys p
        (take_run-Takes_insert r).1
        (coalesce-InOrder fuel run.rest (x + run.del) (y + run.ins) p.xs' p.ys'
          (omega (arith, (take_run-Takes_insert r).0)) p.behind)

InOrder-if :
    (low old new : ℕ) (c : Bool) (ops ops' : List EditOp)
    → (c ≡ true → InOrder low old new ops)
    → (c ≡ false → InOrder low old new ops')
    → InOrder low old new (if c then ops else ops')
InOrder-if low old new true ops ops' h h' = h refl
InOrder-if low old new false ops ops' h h' = h' refl

module _ (a b : List SemToken) where
  edits_of-InOrder :
      (x y d : ℕ) (snap : ℕ → ℕ → ℕ)
      → Transforms (backtrace snap d (length a) (length b) []) a b
      → InOrder x (x + length a) (y + length b) (edits_of x y (some (d, length a, length b, snap)))
  edits_of-InOrder x y zero snap t = omega arith
  edits_of-InOrder x y (suc d) snap t =
      let raw = backtrace snap (suc d) (length a) (length b) [] in
      InOrder-at (coalesce_edit_ops x y (length raw) raw 0 0) (omega arith) (omega arith)
        (omega arith) (coalesce-InOrder x y (length raw) raw 0 0 a b (omega arith) t)

  myers_diff_grouped-InOrder :
      (x y : ℕ) → InOrder x (x + length a) (y + length b) (myers_diff_run a b x y)
  unfolding myers_diff_run
  myers_diff_grouped-InOrder x y =
      let f = rounds-Found a b (length a + length b) refl in
      let trace : InOrder x (x + length a) (y + length b) (
          edits_of x y
            (rounds a b (length a + length b) (suc (length a + length b)) 0 (λ _. 0) (λ _ _. 0))) =
        rw f.result
          (edits_of-InOrder x y f.dist f.snap (trace-Transforms a b (length a + length b) f)) in
      InOrder-if x _ _ (length a == 0 && length b == 0) [] _ (λ _. omega arith)
        (λ some_left.
          InOrder-if x _ _ (length a == 0 || length b == 0 || ltb d_bound (length a + length b))
            (replace_all (length a) (length b) x y) _
            (λ _. (omega arith, omega arith, ground (arith, some_left), omega arith)) (λ _. trace))

-- The edits of the delta stand in ascending order and do not overlap, each one does something, and they
-- name places inside both data.
pub delta_ops-InOrder :
    (prev new : List SemToken) → InOrder 0 (length prev) (length new) (delta_ops prev new)
unfolding delta_ops
delta_ops-InOrder prev new =
    let p = common_prefix prev new in
    let s = common_suffix prev new p in
    let a = take (length prev - p - s) (drop p prev) in
    let b = take (length new - p - s) (drop p new) in
    let la : p + length a ≤ length prev =
      omega (arith, length-take {0} (length prev - p - s) (drop p prev), prefix-le prev new) in
    let lb : p + length b ≤ length new =
      omega (arith, length-take {0} (length new - p - s) (drop p new), prefix-le prev new) in
    InOrder-at (myers_diff_run a b p p) (omega arith) la lb (myers_diff_grouped-InOrder a b p p)
