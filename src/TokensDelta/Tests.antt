-- ===== src/TokensDelta/Tests.antt =====
-- src/semantic_tokens_delta.c on two short sequences of tokens.
use taskjuggler_lsp.Base.{ℕ, ◌≡◌, refl, List, [], ◌∷◌, some}
use taskjuggler_lsp.TokensDelta.{
  SemToken, EditOp, tokens_equal, equal_at, count_while, edge_of, slide, round, save, rounds,
  push_snakes, backtrace, take_run, coalesce_edit_ops, myers_diff_run, common_prefix, common_suffix,
  delta_ops,
}
use taskjuggler_lsp.TokensDelta.Rounds.{rounds-exact}
use taskjuggler_lsp.TokensDelta.Apply.{apply}
use taskjuggler_lsp.TokensDelta.Delta.{apply-delta_ops}
use taskjuggler_lsp.TokensDelta.Bounds.{InOrder, delta_ops-InOrder}

program : Unit {0}
unfolding tokens_equal equal_at count_while edge_of slide round save rounds push_snakes backtrace
    take_run coalesce_edit_ops myers_diff_run common_prefix common_suffix delta_ops
program = tt

abbrev tok : ℕ → SemToken
tok n = record { delta_line = n; delta_start = 0; len = 1; token_type = 0; modifiers = 0 }

abbrev op : ℕ → ℕ → ℕ → ℕ → EditOp
op s d b i = record { start_tok = s; delete_tok = d; insert_b_start = b; insert_tok = i }

abbrev prev : List SemToken
prev = tok 1 ∷ tok 2 ∷ tok 3 ∷ tok 1 ∷ tok 2 ∷ tok 2 ∷ tok 1 ∷ []

abbrev new : List SemToken
new = tok 3 ∷ tok 2 ∷ tok 1 ∷ tok 2 ∷ tok 1 ∷ tok 3 ∷ []

ops : delta_ops prev new ≡ op 0 2 0 0 ∷ op 3 0 1 1 ∷ op 5 1 4 0 ∷ op 7 0 5 1 ∷ []
unfolding program
ops = refl

same : delta_ops prev prev ≡ []
unfolding program
same = refl

one_changed : delta_ops (tok 1 ∷ tok 2 ∷ tok 3 ∷ []) (tok 1 ∷ tok 4 ∷ tok 3 ∷ []) ≡ op 1 1 1 1 ∷ []
unfolding program
one_changed = refl

apply-delta_ops_example : apply new (delta_ops prev new) prev ≡ new
apply-delta_ops_example = apply-delta_ops prev new

delta_ops-InOrder_example : InOrder 0 7 6 (delta_ops prev new)
delta_ops-InOrder_example = delta_ops-InOrder prev new

rounds-exact_example :
    (d : ℕ) × (snap : ℕ → ℕ → ℕ) × (rounds prev new 13 14 0 (λ _. 0) (λ _ _. 0)
      ≡ some (d, 7, 6, snap))
rounds-exact_example = rounds-exact prev new
