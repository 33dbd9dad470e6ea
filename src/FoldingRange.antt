-- ===== src/FoldingRange.antt =====
-- src/folding_range.c: the foldable ranges of a document, from its declarations and its tokens.
-- `bracket_stack` is a list with its top first, and `bracket_depth` its length.
pub mod Brackets
pub mod Regions
mod Tests
use taskjuggler_lsp.Base.{ℕ, ltb, List, [], ◌∷◌, ◌++◌, if◌then◌else◌, length}
use taskjuggler_lsp.Syntax.{LspPos, LspRange, TokenKind, TokenSpan, TjInfo, TjNode, TjNodes}

pub data FoldKind : Type 0 where
  region comment : FoldKind

pub record FoldRange : Type 0 where
  pub start_line : ℕ
  pub end_line : ℕ
  pub kind : FoldKind

abbrev pub max_bracket_depth : ℕ
max_bracket_depth = 256

-- `if (end_line > start_line) push_range (…)`
pub push_if_lines : ℕ → ℕ → FoldKind → List FoldRange
push_if_lines start_line end_line kind =
    if ltb start_line end_line
    then record { start_line = start_line; end_line = end_line; kind = kind } ∷ []
    else []

unfoldable mutual
  pub emit_symbol_range : TjNode → List FoldRange
  emit_symbol_range (TjNode.node info children) =
      push_if_lines info.range.start.line info.range.end.line FoldKind.region
      ++ emit_symbol_ranges children

  pub emit_symbol_ranges : TjNodes → List FoldRange
  emit_symbol_ranges TjNodes.nil = []
  emit_symbol_ranges (TjNodes.cons n ns) = emit_symbol_range n ++ emit_symbol_ranges ns

-- What a token does to the stack of open brackets, and the range it ends.
pub stack_after : List ℕ → TokenSpan → List ℕ
stack_after stack s = elim s.token_kind [
  | TokenKind.lbracket ↦
      if ltb (length stack) max_bracket_depth then s.start.line ∷ stack else stack
  | TokenKind.rbracket ↦ elim stack [ [] ↦ [] | line ∷ below ↦ below ]
  | _ ↦ stack
]

pub range_of : List ℕ → TokenSpan → List FoldRange
range_of stack s = elim s.token_kind [
  | TokenKind.rbracket ↦ elim stack [
    | [] ↦ []
    | line ∷ below ↦ push_if_lines line s.start.line FoldKind.region
  ]
  | TokenKind.block_comment ↦ push_if_lines s.start.line s.end.line FoldKind.comment
  | _ ↦ []
]

pub emit_from : List ℕ → List TokenSpan → List FoldRange
emit_from stack [] = []
emit_from stack (s ∷ spans) = range_of stack s ++ emit_from (stack_after stack s) spans

abbrev pub emit_token_ranges : List TokenSpan → List FoldRange
emit_token_ranges spans = emit_from [] spans

abbrev pub build_folding_ranges_json : List TokenSpan → TjNodes → List FoldRange
build_folding_ranges_json spans symbols = emit_symbol_ranges symbols ++ emit_token_ranges spans
