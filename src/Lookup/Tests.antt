-- ===== src/Lookup/Tests.antt =====
-- src/document_symbol.c and src/dependency.c on the tokens of `task a { depends !b }`.
use taskjuggler_lsp.Base.{ℕ, ◌≡◌, refl, some, none, Option, List, [], ◌∷◌, arith, length, codes}
use taskjuggler_lsp.Syntax.{
  LspPos, LspRange, pos_cmp, pos_lt, pos_le, TokenKind, TokenSpan, DepKind, TjInfo, TjNodePtr,
}
use taskjuggler_lsp.Lookup.{
  search, climb, tj_node_at, pos_in_range, find_dependency, dependency_from, dependency_at_cursor,
  task_decl_from, task_decl_at_cursor,
}
use taskjuggler_lsp.Lookup.Search.{IsSorted, IsLast, search_lem}
use taskjuggler_lsp.Lookup.Cursor.{
  Skips, IsPassed, EndsAfter, owner_of, tj_node_at_lem, IsNearest, dependency_at_cursor_lem,
}

program : Unit {0}
unfolding search climb tj_node_at pos_in_range find_dependency dependency_from dependency_at_cursor
    task_decl_from task_decl_at_cursor pos_cmp pos_lt pos_le
program = tt

abbrev at : ℕ → LspPos
at c = record { line = 0; character = c }

abbrev span : ℕ → ℕ → LspRange
span a b = record { start = at a; end = at b }

abbrev token : TokenKind → ℕ → ℕ → TokenSpan
token k a b = record { token_kind = k; start = at a; end = at b; text = none }

abbrev task_a : TjInfo
task_a = record {
  keyword = some TokenKind.kw_task;
  id = some (codes "a");
  name = some (codes "a");
  range = span 0 20;
  selection_range = span 5 6;
  dependencies =
      record { kind = DepKind.depends; bang_count = 1; path = codes "b"; source_range = span 17 19 }
      ∷ [];
}

abbrev tokens : List TokenSpan
tokens =
    token TokenKind.kw_task 0 4
    ∷ token TokenKind.ident 5 6
    ∷ token TokenKind.lbrace 7 8
    ∷ token (TokenKind.keyword 20) 9 16
    ∷ token TokenKind.bang 17 18
    ∷ token TokenKind.ident 18 19
    ∷ token TokenKind.rbrace 19 20
    ∷ token TokenKind.eof 20 20
    ∷ []

abbrev owner : TjNodePtr
owner = task_a ∷ []

abbrev owners : List TjNodePtr
owners = owner ∷ owner ∷ owner ∷ owner ∷ owner ∷ owner ∷ owner ∷ [] ∷ []

tokens-IsSorted : IsSorted tokens
unfolding program
tokens-IsSorted = ground arith

finds_bang : search tokens (at 17) 8 0 8 none ≡ some 4
unfolding program
finds_bang = refl

no_node_behind_the_end : tj_node_at tokens owners (at 20) ≡ []
unfolding program
no_node_behind_the_end = refl

finds_dependency : dependency_at_cursor tokens owners (at 19) ≡ some (owner, 0)
unfolding program
finds_dependency = refl

finds_declaration : task_decl_at_cursor tokens owners (at 6) ≡ owner
unfolding program
finds_declaration = refl

search_lem_example :
    IsLast tokens (at 17) (search tokens (at 17) (length tokens) 0 (length tokens) none)
search_lem_example = search_lem tokens (at 17) tokens-IsSorted

tj_node_at_lem_example :
    (k : Option ℕ) × IsLast tokens (at 17) k
    × Skips (IsPassed (at 17)) (owner_of owners k) (tj_node_at tokens owners (at 17))
    × EndsAfter (at 17) (tj_node_at tokens owners (at 17))
tj_node_at_lem_example = tj_node_at_lem tokens owners (at 17) tokens-IsSorted

dependency_at_cursor_lem_example :
    IsNearest
      (at 18)
      (tj_node_at tokens owners (at 18))
      (dependency_at_cursor tokens owners (at 18))
dependency_at_cursor_lem_example = dependency_at_cursor_lem tokens owners (at 18)
