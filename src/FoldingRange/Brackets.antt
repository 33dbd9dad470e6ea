-- ===== src/FoldingRange/Brackets.antt =====
-- src/folding_range.c: bracketed tokens fold as they nest.
use taskjuggler_lsp.Base.{
  ℕ, suc, ◌+◌, ◌<◌, ◌≤◌, max, ◌≡◌, ◌≢◌, refl, ◌∙◌, sym, ap, lt→ltb, List, [], ◌∷◌, ◌++◌,
  append_assoc, append-nil, length, arith,
}
use taskjuggler_lsp.Syntax.{TokenKind, TokenSpan}
use taskjuggler_lsp.FoldingRange.{
  FoldKind, FoldRange, max_bracket_depth, push_if_lines, stack_after, range_of, emit_from,
  emit_token_ranges,
}

-- Tokens with their brackets matched.
pub data Nest : Type 0 where
  done : Nest
  plain : TokenSpan → Nest → Nest
  group : TokenSpan → Nest → TokenSpan → Nest → Nest

abbrev pub tokens : Nest → List TokenSpan
tokens done = []
tokens (plain s rest) = s ∷ tokens rest
tokens (group o body c rest) = o ∷ (tokens body ++ (c ∷ tokens rest))

abbrev pub depth : Nest → ℕ
depth done = 0
depth (plain s rest) = depth rest
depth (group o body c rest) = max (suc (depth body)) (depth rest)

-- The tokens are what their places say.
abbrev pub Matched : Nest → Type 0
Matched done = Unit
Matched (plain s rest) =
    (s.token_kind ≢ TokenKind.lbracket) × (s.token_kind ≢ TokenKind.rbracket) × Matched rest
Matched (group o body c rest) =
    (o.token_kind ≡ TokenKind.lbracket)
    × (c.token_kind ≡ TokenKind.rbracket)
    × Matched body
    × Matched rest

-- The ranges of block comments and groups that span lines, in the order of their ends.
abbrev pub comment_range : TokenSpan → List FoldRange
comment_range s = elim s.token_kind [
  | TokenKind.block_comment ↦ push_if_lines s.start.line s.end.line FoldKind.comment
  | _ ↦ []
]

abbrev pub folds : Nest → List FoldRange
folds done = []
folds (plain s rest) = comment_range s ++ folds rest
folds (group o body c rest) =
    folds body ++ (push_if_lines o.start.line c.start.line FoldKind.region ++ folds rest)

plain-steps :
    (stack : List ℕ) (s : TokenSpan)
    → s.token_kind ≢ TokenKind.lbracket
    → s.token_kind ≢ TokenKind.rbracket
    → (range_of stack s ≡ comment_range s) × (stack_after stack s ≡ stack)
unfolding range_of stack_after
plain-steps stack s nl nr = ground (arith, nl, nr)

open-steps :
    (stack : List ℕ) (o : TokenSpan)
    → o.token_kind ≡ TokenKind.lbracket
    → length stack < max_bracket_depth
    → (range_of stack o ≡ []) × (stack_after stack o ≡ o.start.line ∷ stack)
unfolding range_of stack_after
open-steps stack o k room = ground (arith, k, lt→ltb (length stack) max_bracket_depth room)

close-steps :
    (stack : List ℕ) (line : ℕ) (c : TokenSpan)
    → c.token_kind ≡ TokenKind.rbracket
    → (range_of (line ∷ stack) c ≡ push_if_lines line c.start.line FoldKind.region)
      × (stack_after (line ∷ stack) c ≡ stack)
unfolding range_of stack_after
close-steps stack line c k = ground (arith, k)

-- In front of any further tokens.
emit_from-folds :
    (n : Nest) (stack : List ℕ) (rest : List TokenSpan)
    → Matched n
    → length stack + depth n ≤ max_bracket_depth
    → emit_from stack (tokens n ++ rest) ≡ folds n ++ emit_from stack rest
unfolding emit_from
emit_from-folds done stack rest m h = refl
emit_from-folds (plain s n) stack rest (nl, nr, m) h =
    let (er, es) = plain-steps stack s nl nr in
    let ih = emit_from-folds n stack rest m h in
    rw (er, es, ih, append_assoc (comment_range s) (folds n) (emit_from stack rest)) refl
emit_from-folds (group o body c n) stack rest (ko, kc, mb, mn) h =
    let (eo, so) = open-steps stack o ko (omega arith) in
    let (ec, sc) = close-steps stack o.start.line c kc in
    let inner =
      emit_from-folds body (o.start.line ∷ stack) (c ∷ (tokens n ++ rest)) mb (omega arith) in
    let outer = emit_from-folds n stack rest mn (omega arith) in
    let shape : (tokens body ++ (c ∷ tokens n)) ++ rest ≡ tokens body ++ (c ∷ (tokens n ++ rest)) =
      append_assoc (tokens body) (c ∷ tokens n) rest in
    let close : emit_from (o.start.line ∷ stack) (c ∷ (tokens n ++ rest))
        ≡ push_if_lines o.start.line c.start.line FoldKind.region
          ++ (folds n ++ emit_from stack rest) =
      rw (ec, sc, outer) refl in
    let region = push_if_lines o.start.line c.start.line FoldKind.region in
    let below = emit_from stack rest in
    rw (eo, so, shape, inner, close)
      (sym (
        append_assoc (folds body) (region ++ folds n) below
        ∙ ap (λ (l : List FoldRange). folds body ++ l) (append_assoc region (folds n) below)))

-- For tokens whose brackets match and nest no deeper than the stack, the ranges are those of the
-- block comments and of the bracket pairs that span lines.
pub emit_token_ranges-folds :
    (n : Nest) → Matched n → depth n ≤ max_bracket_depth → emit_token_ranges (tokens n) ≡ folds n
unfolding emit_from
emit_token_ranges-folds n m h =
    sym (ap (emit_from []) (append-nil (tokens n)))
    ∙ emit_from-folds n [] [] m (omega arith)
    ∙ append-nil (folds n)
