-- ===== src/TokensDelta/Runs.antt =====
-- src/semantic_tokens_delta.c: what the grouping of edits takes off the stack of kinds in one run.
use taskjuggler_lsp.Base.{ℕ, ◌+◌, ◌≤◌, ◌<◌, ◌≡◌, List, [], ◌∷◌, ◌++◌, length, arith, refl, ◌∙◌, ap}
use taskjuggler_lsp.TokensDelta.{SemToken, Kind, snake, delete, insert, EditRun, take_run}
use taskjuggler_lsp.TokensDelta.Script.{Transforms}

-- What a run of edits takes from both sides.
pub record Run (run : EditRun) (del ins : ℕ) (xs ys : List SemToken) : Type 0 where
  pub dels : List SemToken
  pub inss : List SemToken
  pub xs' : List SemToken
  pub ys' : List SemToken
  pub old_side : xs ≡ dels ++ xs'
  pub new_side : ys ≡ inss ++ ys'
  pub deleted : run.del ≡ del + length dels
  pub inserted : run.ins ≡ ins + length inss
  pub behind : Transforms run.rest xs' ys'

pub take_run-Run :
    (r : List Kind) (del ins : ℕ) (xs ys : List SemToken)
    → Transforms r xs ys
    → Run (take_run r del ins) del ins xs ys
unfolding take_run
take_run-Run [] del ins xs ys t = record {
  dels = [];
  inss = [];
  xs' = xs;
  ys' = ys;
  old_side = refl;
  new_side = refl;
  deleted = omega arith;
  inserted = omega arith;
  behind = t;
}
take_run-Run (snake ∷ r) del ins xs ys t = record {
  dels = [];
  inss = [];
  xs' = xs;
  ys' = ys;
  old_side = refl;
  new_side = refl;
  deleted = omega arith;
  inserted = omega arith;
  behind = t;
}
take_run-Run (delete ∷ r) del ins xs ys (s, xs₁, e, t) =
    let rest = take_run-Run r (del + 1) ins xs₁ ys t in
    record {
      dels = s ∷ rest.dels;
      inss = rest.inss;
      xs' = rest.xs';
      ys' = rest.ys';
      old_side = e ∙ ap (λ (l : List SemToken). s ∷ l) rest.old_side;
      new_side = rest.new_side;
      deleted = omega (arith, rest.deleted);
      inserted = rest.inserted;
      behind = rest.behind;
    }
take_run-Run (insert ∷ r) del ins xs ys (s, ys₁, e, t) =
    let rest = take_run-Run r del (ins + 1) xs ys₁ t in
    record {
      dels = rest.dels;
      inss = s ∷ rest.inss;
      xs' = rest.xs';
      ys' = rest.ys';
      old_side = rest.old_side;
      new_side = e ∙ ap (λ (l : List SemToken). s ∷ l) rest.new_side;
      deleted = rest.deleted;
      inserted = omega (arith, rest.inserted);
      behind = rest.behind;
    }

take_run-shorter : (r : List Kind) (del ins : ℕ) → length (take_run r del ins).rest ≤ length r
unfolding take_run
take_run-shorter [] del ins = omega arith
take_run-shorter (snake ∷ r) del ins = omega arith
take_run-shorter (delete ∷ r) del ins = omega (arith, take_run-shorter r (del + 1) ins)
take_run-shorter (insert ∷ r) del ins = omega (arith, take_run-shorter r del (ins + 1))

take_run-grows :
    (r : List Kind) (del ins : ℕ) → del + ins ≤ (take_run r del ins).del + (take_run r del ins).ins
unfolding take_run
take_run-grows [] del ins = omega arith
take_run-grows (snake ∷ r) del ins = omega arith
take_run-grows (delete ∷ r) del ins = omega (arith, take_run-grows r (del + 1) ins)
take_run-grows (insert ∷ r) del ins = omega (arith, take_run-grows r del (ins + 1))

-- A run takes an entry at least, and is an edit that does something.
abbrev pub Takes : Kind → List Kind → Type 0
Takes k r =
    (length (take_run (k ∷ r) 0 0).rest ≤ length r)
    × (0 < (take_run (k ∷ r) 0 0).del + (take_run (k ∷ r) 0 0).ins)

pub take_run-Takes_delete : (r : List Kind) → Takes delete r
unfolding take_run
take_run-Takes_delete r = (take_run-shorter r 1 0, take_run-grows r 1 0)

pub take_run-Takes_insert : (r : List Kind) → Takes insert r
unfolding take_run
take_run-Takes_insert r = (take_run-shorter r 0 1, take_run-grows r 0 1)
