-- ===== src/FoldingRange/Regions.antt =====
-- src/folding_range.c: the ranges of declarations, and what holds of every range.
use taskjuggler_lsp.Base.{
  ℕ, ◌<◌, ◌≡◌, refl, sym, subst, arith, dec_lt, ltb, List, [], ◌∷◌, ◌++◌, append_assoc, Each,
  Each-append, Bool-cases, inl, inr, ltb→lt,
}
use taskjuggler_lsp.Syntax.{TokenKind, TokenSpan, TjInfo, TjNode, TjNodes}
use taskjuggler_lsp.FoldingRange.{
  FoldKind, FoldRange, push_if_lines, emit_symbol_range, emit_symbol_ranges, stack_after, range_of,
  emit_from, build_folding_ranges_json,
}

-- The declarations of a tree, each before those inside it.
mutual
  pub preorder_node : TjNode → List TjInfo
  preorder_node (TjNode.node info children) = info ∷ preorder children

  pub preorder : TjNodes → List TjInfo
  preorder TjNodes.nil = []
  preorder (TjNodes.cons n ns) = preorder_node n ++ preorder ns

-- The lines of a declaration that ends on a later line than it starts.
abbrev pub region_of : TjInfo → List FoldRange
region_of i = elim (dec_lt i.range.start.line i.range.end.line) [
  | yes later ↦
      record {
        start_line = i.range.start.line;
        end_line = i.range.end.line;
        kind = FoldKind.region;
      }
      ∷ []
  | no same ↦ []
]

abbrev pub regions : List TjInfo → List FoldRange
regions [] = []
regions (i ∷ is) = region_of i ++ regions is

push_if_lines-region_of :
    (i : TjInfo) → push_if_lines i.range.start.line i.range.end.line FoldKind.region ≡ region_of i
unfolding push_if_lines
push_if_lines-region_of i = elim (dec_lt i.range.start.line i.range.end.line) [
  | yes later ↦ ground (arith, later)
  | no same ↦ ground (arith, same)
]

regions-append : (is js : List TjInfo) → regions (is ++ js) ≡ regions is ++ regions js
regions-append [] js = refl
regions-append (i ∷ is) js =
    rw (regions-append is js) (sym (append_assoc (region_of i) (regions is) (regions js)))

mutual
  unfolding emit_symbol_ranges preorder

  node-regions : (n : TjNode) → emit_symbol_range n ≡ regions (preorder_node n)
  node-regions (TjNode.node info children) =
      rw (nodes-regions children, push_if_lines-region_of info) refl

  nodes-regions : (ns : TjNodes) → emit_symbol_ranges ns ≡ regions (preorder ns)
  nodes-regions TjNodes.nil = refl
  nodes-regions (TjNodes.cons n ns) =
      rw (regions-append (preorder_node n) (preorder ns), node-regions n, nodes-regions ns) refl

-- Every declaration that spans lines has its range, each before those of the declarations inside it,
-- and no other has.
pub emit_symbol_ranges-regions : (ns : TjNodes) → emit_symbol_ranges ns ≡ regions (preorder ns)
emit_symbol_ranges-regions ns = nodes-regions ns

abbrev pub SpansLines : FoldRange → Type 0
SpansLines r = r.start_line < r.end_line

push_if_lines-SpansLines : (a b : ℕ) (k : FoldKind) → Each SpansLines (push_if_lines a b k)
unfolding push_if_lines
push_if_lines-SpansLines a b k = elim (Bool-cases (ltb a b)) [
  | inl e ↦ rw e (ltb→lt a b e, tt)
  | inr e ↦ rw e tt
]

kind-SpansLines :
    (k : TokenKind) (stack : List ℕ) (s : TokenSpan)
    → s.token_kind ≡ k
    → Each SpansLines (range_of stack s)
unfolding range_of
kind-SpansLines TokenKind.rbracket [] s e = rw (range_of, e) tt
kind-SpansLines TokenKind.rbracket (line ∷ stack) s e =
    rw (range_of, e) (push_if_lines-SpansLines line s.start.line FoldKind.region)
kind-SpansLines TokenKind.block_comment stack s e =
    rw (range_of, e) (push_if_lines-SpansLines s.start.line s.end.line FoldKind.comment)
kind-SpansLines TokenKind.eof stack s e = rw (range_of, e) tt
kind-SpansLines _ stack s e = rw (range_of, e) tt

range_of-SpansLines : (stack : List ℕ) (s : TokenSpan) → Each SpansLines (range_of stack s)
range_of-SpansLines stack s = kind-SpansLines s.token_kind stack s refl

emit_from-SpansLines :
    (stack : List ℕ) (spans : List TokenSpan) → Each SpansLines (emit_from stack spans)
unfolding emit_from
emit_from-SpansLines stack [] = tt
emit_from-SpansLines stack (s ∷ spans) =
    Each-append SpansLines (range_of stack s) (emit_from (stack_after stack s) spans)
      (range_of-SpansLines stack s) (emit_from-SpansLines (stack_after stack s) spans)

regions-SpansLines : (is : List TjInfo) → Each SpansLines (regions is)
regions-SpansLines [] = tt
regions-SpansLines (i ∷ is) =
    Each-append SpansLines (region_of i) (regions is)
      (subst (Each SpansLines) (push_if_lines-region_of i)
        (push_if_lines-SpansLines i.range.start.line i.range.end.line FoldKind.region))
      (regions-SpansLines is)

-- Whatever the tokens and the declarations are, every range ends on a later line than it starts.
pub build_folding_ranges_json-SpansLines :
    (spans : List TokenSpan) (symbols : TjNodes)
    → Each SpansLines (build_folding_ranges_json spans symbols)
build_folding_ranges_json-SpansLines spans symbols =
    Each-append SpansLines (emit_symbol_ranges symbols) (emit_from [] spans)
      (rw (emit_symbol_ranges-regions symbols) (regions-SpansLines (preorder symbols)))
      (emit_from-SpansLines [] spans)
