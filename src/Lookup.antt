-- ===== src/Lookup.antt =====
-- src/document_symbol.c (`tj_node_at`) and src/dependency.c: what stands at a cursor.
pub mod Search
pub mod Cursor
mod Tests
use taskjuggler_lsp.Base.{
  ℕ, zero, suc, ◌+◌, ◌-◌, ◌/◌, Bool, true, false, Option, none, some, List, [], ◌∷◌, ◌&&◌, ◌||◌,
  ◌==◌, ltb, leb, not, if◌then◌else◌, length, get_elem?, get_or,
}
use taskjuggler_lsp.Syntax.{
  LspPos, LspRange, pos_lt, pos_le, TokenKind, TokenSpan, Dependency, TjInfo, TjNodePtr,
}

abbrev pub is_eof : TokenKind → Bool
is_eof TokenKind.eof = true
is_eof _ = false

-- One round of the loop of `tj_node_at` at `tokens[mid]`, with `end` for `hi + 1`.
abbrev pub probe :
    (ℕ → ℕ → Option ℕ → Option ℕ) → LspPos → ℕ → ℕ → Option ℕ → ℕ → Option TokenSpan → Option ℕ
probe loop pos lo end found mid none = none
probe loop pos lo end found mid (some t) = elim (is_eof t.token_kind) [
  | true ↦ loop lo mid found
  | false ↦ elim (pos_le t.start pos) [
    | true ↦ loop (mid + 1) end (some mid)
    | false ↦ loop lo mid found
  ]
]

-- The binary search, which runs while `lo < end`. A round shortens the interval, so its length is
-- fuel enough. `found` is -1 as `none`. No read is past the array: `mid` is below `end`.
pub search : List TokenSpan → LspPos → ℕ → ℕ → ℕ → Option ℕ → Option ℕ
search tokens pos zero lo end found = found
search tokens pos (suc fuel) lo end found = elim (ltb lo end) [
  | false ↦ found
  | true ↦
      let mid = lo + (end - 1 - lo) / 2 in
      probe (search tokens pos fuel) pos lo end found mid (get_elem? tokens mid)
]

-- `while (s && pos_cmp (pos, s->range.end) >= 0) s = s->parent_node`
pub climb : TjNodePtr → LspPos → TjNodePtr
climb [] pos = []
climb (s ∷ parents) pos =
    let up = climb parents pos in if pos_le s.range.end pos then up else s ∷ parents

-- `owners` runs parallel to `tokens`; NULL owners are the empty list.
pub tj_node_at : List TokenSpan → List TjNodePtr → LspPos → TjNodePtr
tj_node_at tokens owners pos = elim (search tokens pos (length tokens) 0 (length tokens) none) [
  | none ↦ []
  | some found ↦ climb (get_or owners found []) pos
]

-- Both ends count as inside.
pub pos_in_range : LspPos → LspRange → Bool
pos_in_range p r =
    (ltb r.start.line p.line || p.line == r.start.line && leb r.start.character p.character)
    && (ltb p.line r.end.line || p.line == r.end.line && leb p.character r.end.character)

-- The inner loop of `dependency_at_cursor`: the first dependency whose range holds the cursor.
pub find_dependency : List Dependency → LspPos → ℕ → Option ℕ
find_dependency [] cursor i = none
find_dependency (d ∷ ds) cursor i =
    let later = find_dependency ds cursor (i + 1) in
    if pos_in_range cursor d.source_range then some i else later

-- The outer loop: the owner and the index of the dependency in it.
pub dependency_from : TjNodePtr → LspPos → Option (TjNodePtr × ℕ)
dependency_from [] cursor = none
dependency_from (n ∷ parents) cursor =
    let up = dependency_from parents cursor in
    elim (find_dependency n.dependencies cursor 0) [ some i ↦ some (n ∷ parents, i) | none ↦ up ]

pub dependency_at_cursor : List TokenSpan → List TjNodePtr → LspPos → Option (TjNodePtr × ℕ)
dependency_at_cursor tokens owners cursor = dependency_from (tj_node_at tokens owners cursor) cursor

abbrev pub is_task : Option TokenKind → Bool
is_task (some TokenKind.kw_task) = true
is_task _ = false

pub task_decl_from : TjNodePtr → LspPos → TjNodePtr
task_decl_from [] cursor = []
task_decl_from (n ∷ parents) cursor =
    let up = task_decl_from parents cursor in
    if is_task n.keyword && pos_in_range cursor n.selection_range then n ∷ parents else up

pub task_decl_at_cursor : List TokenSpan → List TjNodePtr → LspPos → TjNodePtr
task_decl_at_cursor tokens owners cursor = task_decl_from (tj_node_at tokens owners cursor) cursor
