-- ===== src/FoldingRange/Tests.antt =====
-- src/folding_range.c on nested brackets, a comment and two declarations.
use taskjuggler_lsp.Base.{ℕ, ◌≡◌, refl, arith, none, some, [], ◌∷◌, Each}
use taskjuggler_lsp.Syntax.{LspPos, TokenKind, TokenSpan, TjInfo, TjNode, TjNodes}
use taskjuggler_lsp.FoldingRange.{
  FoldKind, FoldRange, push_if_lines, emit_symbol_ranges, stack_after, range_of, emit_from,
  emit_token_ranges, build_folding_ranges_json,
}
use taskjuggler_lsp.FoldingRange.Brackets.{Nest, Matched, tokens, folds, emit_token_ranges-folds}
use taskjuggler_lsp.FoldingRange.Regions.{
  preorder, regions, emit_symbol_ranges-regions, SpansLines, build_folding_ranges_json-SpansLines,
}

abbrev at : ℕ → LspPos
at l = record { line = l; character = 0 }

abbrev token : TokenKind → ℕ → ℕ → TokenSpan
token k a b = record { token_kind = k; start = at a; end = at b; text = none }

-- Lines 0 to 5 and 2 to 3 in brackets, a comment on the lines 6 and 7.
abbrev nested : Nest
nested =
    Nest.group (token TokenKind.lbracket 0 0)
      (Nest.plain (token TokenKind.ident 1 1) (
        Nest.group (token TokenKind.lbracket 2 2) Nest.done (token TokenKind.rbracket 3 3)
          Nest.done))
      (token TokenKind.rbracket 5 5) (Nest.plain (token TokenKind.block_comment 6 7) Nest.done)

abbrev fold : ℕ → ℕ → FoldKind → FoldRange
fold a b k = record { start_line = a; end_line = b; kind = k }

folds_of_nested :
    emit_token_ranges (tokens nested)
    ≡ fold 2 3 FoldKind.region ∷ fold 0 5 FoldKind.region ∷ fold 6 7 FoldKind.comment ∷ []
unfolding emit_from range_of stack_after push_if_lines
folds_of_nested = refl

stray : emit_token_ranges (token TokenKind.rbracket 1 1 ∷ token TokenKind.lbracket 2 2 ∷ []) ≡ []
unfolding emit_from range_of stack_after push_if_lines
stray = refl

nested-Matched : Matched nested
nested-Matched = ground arith

emit_token_ranges-folds_example : emit_token_ranges (tokens nested) ≡ folds nested
emit_token_ranges-folds_example = emit_token_ranges-folds nested nested-Matched (omega arith)

abbrev info : ℕ → ℕ → TjInfo
info a b = record {
  keyword = some TokenKind.kw_task;
  id = none;
  name = none;
  range = record { start = at a; end = at b };
  selection_range = record { start = at a; end = at a };
  dependencies = [];
}

abbrev tree : TjNodes
tree =
    TjNodes.cons
      (TjNode.node (info 0 9) (
        TjNodes.cons (TjNode.node (info 3 3) TjNodes.nil)
          (TjNodes.cons (TjNode.node (info 4 8) TjNodes.nil) TjNodes.nil)))
      TjNodes.nil

regions_of_tree : emit_symbol_ranges tree ≡ fold 0 9 FoldKind.region ∷ fold 4 8 FoldKind.region ∷ []
unfolding emit_symbol_ranges push_if_lines
regions_of_tree = refl

emit_symbol_ranges-regions_example : emit_symbol_ranges tree ≡ regions (preorder tree)
emit_symbol_ranges-regions_example = emit_symbol_ranges-regions tree

build_folding_ranges_json-SpansLines_example :
    Each SpansLines (build_folding_ranges_json (tokens nested) tree)
build_folding_ranges_json-SpansLines_example =
    build_folding_ranges_json-SpansLines (tokens nested) tree
