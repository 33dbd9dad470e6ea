-- ===== src/TokensDelta/Apply.antt =====
-- src/semantic_tokens_delta.c: what a client does with the edits, and that the grouped edits do what
-- the kinds say.
use taskjuggler_lsp.Base.{
  ℕ, zero, suc, ◌+◌, ◌≤◌, ◌≡◌, List, [], ◌∷◌, ◌++◌, length, arith, refl, ◌∙◌, ap, ap₂, sym, take,
  drop, take-append_length, drop-append_length, length-append, append_assoc,
}
use taskjuggler_lsp.TokensDelta.{
  SemToken, Kind, snake, delete, insert, EditOp, EditRun, take_run, coalesce_edit_ops,
}
use taskjuggler_lsp.TokensDelta.Script.{Transforms}
use taskjuggler_lsp.TokensDelta.Runs.{
  Run, take_run-Run, take_run-Takes_delete, take_run-Takes_insert,
}

-- One edit of the protocol: the tokens from `start_tok` on are replaced.
abbrev pub splice : List SemToken → EditOp → List SemToken → List SemToken
splice new op xs =
    take op.start_tok xs
    ++ (take op.insert_tok (drop op.insert_b_start new) ++ drop (op.start_tok + op.delete_tok) xs)

-- The edits name places in the old data, so the last is made first.
abbrev pub apply : List SemToken → List EditOp → List SemToken → List SemToken
apply new [] old = old
apply new (op ∷ ops) old = splice new op (apply new ops old)

-- A splice at known places.
splice-places :
    (pre dels rest pre' inss rest' : List SemToken) (op : EditOp)
    → op.start_tok ≡ length pre
    → op.delete_tok ≡ length dels
    → op.insert_b_start ≡ length pre'
    → op.insert_tok ≡ length inss
    → splice (pre' ++ (inss ++ rest')) op (pre ++ (dels ++ rest)) ≡ pre ++ (inss ++ rest)
splice-places pre dels rest pre' inss rest' op es ed eb ei =
    let both : op.start_tok + op.delete_tok ≡ length (pre ++ dels) =
      omega (arith, length-append {0} pre dels) in
    let front : take op.start_tok (pre ++ (dels ++ rest)) ≡ pre =
      rw es (take-append_length pre (dels ++ rest)) in
    let middle : take op.insert_tok (drop op.insert_b_start (pre' ++ (inss ++ rest'))) ≡ inss =
      rw (eb, ei, drop-append_length pre' (inss ++ rest')) (take-append_length inss rest') in
    let back : drop (op.start_tok + op.delete_tok) (pre ++ (dels ++ rest)) ≡ rest =
      rw (both, sym (append_assoc pre dels rest)) (drop-append_length (pre ++ dels) rest) in
    rw (front, middle, back) refl

-- The edits of `ops`, from the places behind `pre` in the old tokens and behind `pre'` in the new
-- ones, turn `xs` into `ys` and leave the rest.
abbrev pub Turns : List EditOp → ℕ → ℕ → List SemToken → List SemToken → Type 0
Turns ops x y xs ys =
    (pre suf pre' suf' : List SemToken)
    → length pre ≡ x
    → length pre' ≡ y
    → apply (pre' ++ (ys ++ suf')) ops (pre ++ (xs ++ suf)) ≡ pre ++ (ys ++ suf)

Turns-snake :
    (ops : List EditOp) (x y : ℕ) (s : SemToken) (xs ys : List SemToken)
    → Turns ops (x + 1) (y + 1) xs ys
    → Turns ops x y (s ∷ xs) (s ∷ ys)
Turns-snake ops x y s xs ys h pre suf pre' suf' hx hy =
    let one : (p q : List SemToken) → p ++ (s ∷ q) ≡ (p ++ (s ∷ [])) ++ q =
      λ p q. sym (append_assoc p (s ∷ []) q) in
    rw (one pre (xs ++ suf), one pre (ys ++ suf), one pre' (ys ++ suf'))
      (h (pre ++ (s ∷ [])) suf (pre' ++ (s ∷ [])) suf'
        (omega (arith, length-append {0} pre (s ∷ [])))
        (omega (arith, length-append {0} pre' (s ∷ []))))

pub Turns-edit :
    (op : EditOp) (ops : List EditOp) (x y : ℕ) (dels inss xs ys : List SemToken)
    → op.start_tok ≡ x
    → op.delete_tok ≡ length dels
    → op.insert_b_start ≡ y
    → op.insert_tok ≡ length inss
    → Turns ops (x + length dels) (y + length inss) xs ys
    → Turns (op ∷ ops) x y (dels ++ xs) (inss ++ ys)
Turns-edit op ops x y dels inss xs ys ex ed ey ei h pre suf pre' suf' hx hy =
    let later =
      rw
        (
          append_assoc pre' inss (ys ++ suf'),
          append_assoc pre dels (xs ++ suf),
          append_assoc pre dels (ys ++ suf),
        )
        at
        (h (pre ++ dels) suf (pre' ++ inss) suf' (omega (arith, length-append {0} pre dels))
          (omega (arith, length-append {0} pre' inss))) in
    ap₂ (λ (new old : List SemToken). splice new op (apply new ops old))
      (ap (λ (l : List SemToken). pre' ++ l) (append_assoc inss ys suf'))
      (ap (λ (l : List SemToken). pre ++ l) (append_assoc dels xs suf))
    ∙ ap (splice (pre' ++ (inss ++ (ys ++ suf'))) op) later
    ∙ splice-places pre dels (ys ++ suf) pre' inss (ys ++ suf') op (ex ∙ sym hx) ed (ey ∙ sym hy) ei
    ∙ ap (λ (l : List SemToken). pre ++ l) (sym (append_assoc inss ys suf))

pub Turns-at :
    (ops : List EditOp) {x x' y y' : ℕ} {xs xs' ys ys' : List SemToken}
    → x ≡ x'
    → y ≡ y'
    → xs ≡ xs'
    → ys ≡ ys'
    → Turns ops x' y' xs' ys'
    → Turns ops x y xs ys
Turns-at ops ex ey exs eys h = rw (ex, ey, exs, eys) h

-- A run of edits grouped into one, and the edits that follow.
edit_of : ℕ → ℕ → EditRun → EditOp
edit_of x y run = record {
  start_tok = x;
  delete_tok = run.del;
  insert_b_start = y;
  insert_tok = run.ins;
}

Turns-edit_of :
    (run : EditRun) (ops : List EditOp) (x y : ℕ) (xs ys : List SemToken)
    (parts : Run run 0 0 xs ys)
    → Turns ops (x + run.del) (y + run.ins) parts.xs' parts.ys'
    → Turns (edit_of x y run ∷ ops) x y xs ys
unfolding edit_of
Turns-edit_of run ops x y xs ys parts rest =
    Turns-at (edit_of x y run ∷ ops) refl refl parts.old_side parts.new_side (
      Turns-edit (edit_of x y run) ops x y parts.dels parts.inss parts.xs' parts.ys' refl
        (omega (arith, parts.deleted)) refl (omega (arith, parts.inserted))
        (Turns-at ops (omega (arith, parts.deleted)) (omega (arith, parts.inserted)) refl refl
          rest))

-- What is left out of a run of edits is turned by the edits that follow it.
module _ (a_offset b_offset : ℕ) where
  pub coalesce-Turns :
      (fuel : ℕ) (raw : List Kind) (x y : ℕ) (xs ys : List SemToken)
      → length raw ≤ fuel
      → Transforms raw xs ys
      → Turns (coalesce_edit_ops a_offset b_offset fuel raw x y) (a_offset + x) (b_offset + y) xs ys
  unfolding coalesce_edit_ops edit_of
  coalesce-Turns fuel [] x y xs ys h (ex, ey) = λ pre suf pre' suf' _ _. rw (ex, ey) refl
  coalesce-Turns zero (k ∷ r) x y xs ys h t = absurd (omega arith)
  coalesce-Turns (suc fuel) (snake ∷ r) x y xs ys h (s, xs', ys', ex, ey, t) =
      let rest = coalesce-Turns fuel r (x + 1) (y + 1) xs' ys' (omega arith) t in
      Turns-at (coalesce_edit_ops a_offset b_offset fuel r (x + 1) (y + 1)) refl refl ex ey (
        Turns-snake (coalesce_edit_ops a_offset b_offset fuel r (x + 1) (y + 1)) (a_offset + x)
          (b_offset + y) s xs' ys'
          (Turns-at (coalesce_edit_ops a_offset b_offset fuel r (x + 1) (y + 1)) (omega arith)
            (omega arith) refl refl rest))
  coalesce-Turns (suc fuel) (delete ∷ r) x y xs ys h t =
      let run = take_run (delete ∷ r) 0 0 in
      let parts = take_run-Run (delete ∷ r) 0 0 xs ys t in
      let ops = coalesce_edit_ops a_offset b_offset fuel run.rest (x + run.del) (y + run.ins) in
      Turns-edit_of run ops (a_offset + x) (b_offset + y) xs ys parts (
        Turns-at ops (omega arith) (omega arith) refl refl (
          coalesce-Turns fuel run.rest (x + run.del) (y + run.ins) parts.xs' parts.ys'
            (omega (arith, take_run-Takes_delete r)) parts.behind))
  coalesce-Turns (suc fuel) (insert ∷ r) x y xs ys h t =
      let run = take_run (insert ∷ r) 0 0 in
      let parts = take_run-Run (insert ∷ r) 0 0 xs ys t in
      let ops = coalesce_edit_ops a_offset b_offset fuel run.rest (x + run.del) (y + run.ins) in
      Turns-edit_of run ops (a_offset + x) (b_offset + y) xs ys parts (
        Turns-at ops (omega arith) (omega arith) refl refl (
          coalesce-Turns fuel run.rest (x + run.del) (y + run.ins) parts.xs' parts.ys'
            (omega (arith, take_run-Takes_insert r)) parts.behind))
