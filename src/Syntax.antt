-- ===== src/Syntax.antt =====
-- src/parser.h: positions, ranges, tokens and declarations, and the order of positions.
pub mod Order
use Prim.Native.Nat.{Ordering}
use taskjuggler_lsp.Base.{
  ℕ, Bool, true, false, Option, List, ◌&&◌, ◌||◌, ◌==◌, ltb, not, if◌then◌else◌, Bytes,
}

pub record LspPos : Type 0 where
  pub line : ℕ
  pub character : ℕ

pub record LspRange : Type 0 where
  pub start : LspPos
  pub end : LspPos

-- `pos_cmp`, with `lt`, `eq` and `gt` for -1, 0 and 1
unfoldable pub pos_cmp : LspPos → LspPos → Ordering
pos_cmp a b =
    if not (a.line == b.line)
    then (if ltb a.line b.line then Ordering.lt else Ordering.gt)
    else if not (a.character == b.character)
    then (if ltb a.character b.character then Ordering.lt else Ordering.gt)
    else Ordering.eq

-- `pos_cmp (a, b) < 0`
unfoldable pub pos_lt : LspPos → LspPos → Bool
unfolding pos_cmp
pos_lt a b = elim (pos_cmp a b) [ Ordering.lt ↦ true | _ ↦ false ]

-- `pos_cmp (a, b) <= 0`
unfoldable pub pos_le : LspPos → LspPos → Bool
unfolding pos_cmp
pos_le a b = elim (pos_cmp a b) [ Ordering.gt ↦ false | _ ↦ true ]

-- The `TK_*` and `KW_*` constants that the code tells apart. `keyword n` is any other `KW_*`
-- constant, by its place in the list of `%token` lines in src/grammar.y.
pub data TokenKind : Type 0 where
  eof ident str multi_line_str integer float date duration : TokenKind
  lbrace rbrace lbracket rbracket : TokenKind
  bang plus minus dot colon comma percent dollar error line_comment block_comment eol : TokenKind
  kw_project kw_task kw_resource kw_account kw_shift kw_include : TokenKind
  keyword : ℕ → TokenKind

pub record TokenSpan : Type 0 where
  pub token_kind : TokenKind
  pub start : LspPos
  pub end : LspPos
  pub text : Option Bytes

pub data DepKind : Type 0 where
  depends precedes : DepKind

pub record Dependency : Type 0 where
  pub kind : DepKind
  pub bang_count : ℕ
  pub path : Bytes
  pub source_range : LspRange

-- The fields of a `tj_node` but its links. The synthetic root has no keyword (0 in the source).
pub record TjInfo : Type 0 where
  pub keyword : Option TokenKind
  pub id : Option Bytes
  pub name : Option Bytes
  pub range : LspRange
  pub selection_range : LspRange
  pub dependencies : List Dependency

-- A node with the nodes below it, in source order.
mutual
  pub data TjNode : Type 0 where
    node : TjInfo → TjNodes → TjNode

  pub data TjNodes : Type 0 where
    nil : TjNodes
    cons : TjNode → TjNodes → TjNodes

-- A `tj_node *` as code that follows only `parent_node` sees it: the node, then its ancestors up to
-- the root. The empty chain is NULL.
abbrev pub TjNodePtr : Type 0
TjNodePtr = List TjInfo
