-- ===== src/SemanticTokens/Layout.antt =====
-- src/semantic_tokens.c: the stretches of the source that a token covers, line by line, and what a
-- client decodes of the data of a whole document.
use taskjuggler_lsp.Base.{
  ℕ, zero, suc, ◌+◌, ◌-◌, ◌^◌, ◌<◌, ◌≡◌, ◌⊎◌, refl, ◌∙◌, sym, ap, false, none, some, List, [], ◌∷◌,
  ◌++◌, ◌==◌, ltb, if◌then◌else◌, Bytes, length, arith, Bool-cases, Option-cases, inl, inr,
}
use taskjuggler_lsp.Syntax.{LspPos, TokenSpan}
use taskjuggler_lsp.Syntax.Order.{Le}
use taskjuggler_lsp.SemanticTokens.{
  classify, sub_u32, Emitter, emit_segment, cut_line, next_line, emit_lines, text_or_empty,
  emit_token, emit_span, emit_spans,
}
use taskjuggler_lsp.SemanticTokens.Encode.{Piece, push_all, push_all-append}

abbrev pub at : ℕ → ℕ → LspPos
at line character = record { line = line; character = character }

abbrev pub piece : ℕ → ℕ → ℕ → ℕ → ℕ → Piece
piece line character len ty mods = record {
  at = at line character;
  len = len;
  token_type = ty;
  modifiers = mods;
}

abbrev pub at_least_one : Piece → List Piece
at_least_one p = if ltb 0 p.len then p ∷ [] else []

-- The lines of a token before its last one: a line without text has no piece.
unfoldable pub line_pieces : ℕ → Bytes → ℕ → ℕ → ℕ → ℕ → List Piece
line_pieces zero text line ch ty mods = []
line_pieces (suc n) text line ch ty mods =
    let (seg, rest) = cut_line text in
    at_least_one (piece line ch (length seg) ty mods)
    ++ line_pieces n (next_line text rest) (line + 1) 0 ty mods

unfoldable pub token_pieces : TokenSpan → ℕ → ℕ → List Piece
token_pieces s ty mods =
    if s.start.line == s.end.line
    then piece s.start.line s.start.character (s.end.character - s.start.character) ty mods ∷ []
    else line_pieces (s.end.line - s.start.line) (text_or_empty s.text) s.start.line
        s.start.character ty mods
      ++ piece s.end.line 0 s.end.character ty mods ∷ []

unfoldable pub span_pieces : TokenSpan → List Piece
span_pieces s = elim (classify s.token_kind) [
  | none ↦ []
  | some (ty, mods) ↦ token_pieces s ty mods
]

unfoldable pub pieces : List TokenSpan → List Piece
pieces [] = []
pieces (s ∷ ss) = span_pieces s ++ pieces ss

-- A token that is not empty, with the positions of its ends in 32 bits.
pub record IsShown (s : TokenSpan) : Type 0 where
  pub extent :
      ((s.start.line ≡ s.end.line) × (s.start.character < s.end.character))
      ⊎ ((s.start.line < s.end.line) × (0 < s.end.character))
  pub line_fits : s.end.line < 2 ^ 32
  pub start_fits : s.start.character < 2 ^ 32
  pub end_fits : s.end.character < 2 ^ 32

-- Tokens as the lexer meets them: each begins where the one before ends, or behind.
abbrev pub Laid : LspPos → List TokenSpan → Type 0
Laid a [] = Unit
Laid a (s ∷ ss) = Le a s.start × IsShown s × Laid s.end ss

emit_segment-piece :
    (c : Emitter) (line ch len ty mods : ℕ)
    → emit_segment c line ch len ty mods ≡ push_all c (at_least_one (piece line ch len ty mods))
unfolding emit_segment push_all
emit_segment-piece c line ch len ty mods = elim (Bool-cases (ltb 0 len)) [
  | inl e ↦ rw e
  | inr e ↦ rw e
]

emit_lines-pieces :
    (n : ℕ) (c : Emitter) (text : Bytes) (line ch ty mods : ℕ)
    → (emit_lines n c text line ch ty mods).0 ≡ push_all c (line_pieces n text line ch ty mods)
unfolding emit_lines line_pieces
emit_lines-pieces zero c text line ch ty mods = unfold push_all in refl
emit_lines-pieces (suc n) c text line ch ty mods =
    let (seg, rest) = cut_line text in
    emit_lines-pieces n _ (next_line text rest) (line + 1) 0 ty mods
    ∙ ap (λ d. push_all d (line_pieces n (next_line text rest) (line + 1) 0 ty mods))
        (emit_segment-piece c line ch (length seg) ty mods)
    ∙ sym (push_all-append c (at_least_one (piece line ch (length seg) ty mods)) _)

emit_lines-end :
    (n : ℕ) (c : Emitter) (text : Bytes) (line ch ty mods : ℕ)
    → ((emit_lines n c text line ch ty mods).1 ≡ line + n)
      × ((emit_lines n c text line ch ty mods).2 ≡ (if n == 0 then ch else 0))
unfolding emit_lines
emit_lines-end zero c text line ch ty mods = (omega arith, refl)
emit_lines-end (suc n) c text line ch ty mods = ground (
  arith,
  emit_lines-end n (emit_segment c line ch (length (cut_line text).0) ty mods)
      (next_line text (cut_line text).1) (line + 1) 0 ty mods,
)

-- What the code writes for a token is its pieces, one after the other.
emit_token-pieces :
    (c : Emitter) (s : TokenSpan) (ty mods : ℕ)
    → IsShown s
    → emit_token c s ty mods ≡ push_all c (token_pieces s ty mods)
unfolding emit_token token_pieces
emit_token-pieces c s ty mods h = elim (Bool-cases (s.start.line == s.end.line)) [
  | inl e ↦
      let same : sub_u32 s.end.character s.start.character ≡ s.end.character - s.start.character =
        ground (arith, h.extent, h.end_fits) in
      rw (e, same) (unfold push_all in refl)
  | inr e ↦
      let n = s.end.line - s.start.line in
      let text = text_or_empty s.text in
      let (lines, chars) = emit_lines-end n c text s.start.line s.start.character ty mods in
      let last_line : s.start.line + n ≡ s.end.line = ground (arith, h.extent) in
      let some_line : (n == 0) ≡ false = ground (arith, h.extent) in
      rw
        (
          e,
          lines ∙ last_line,
          chars ∙ ap (λ b. if b then s.start.character else 0) some_line,
          emit_lines-pieces n c text s.start.line s.start.character ty mods,
          push_all-append c (line_pieces n text s.start.line s.start.character ty mods) _,
        )
        (unfold push_all in refl)
]

emit_span-pieces :
    (c : Emitter) (s : TokenSpan) → IsShown s → emit_span c s ≡ push_all c (span_pieces s)
unfolding emit_span span_pieces
emit_span-pieces c s h = elim (Option-cases (classify s.token_kind)) [
  | inl e ↦ rw (e, emit_span, span_pieces) (unfold push_all in refl)
  | inr ((ty, mods), e) ↦ rw (e, emit_span, span_pieces) (emit_token-pieces c s ty mods h)
]

pub emit_spans-pieces :
    (ss : List TokenSpan) (a : LspPos) (c : Emitter)
    → Laid a ss
    → emit_spans c ss ≡ push_all c (pieces ss)
unfolding emit_spans pieces
emit_spans-pieces [] a c h = unfold push_all in refl
emit_spans-pieces (s ∷ ss) a c h =
    rw (emit_span-pieces c s h.1, push_all-append c (span_pieces s) (pieces ss))
      (emit_spans-pieces ss s.end (push_all c (span_pieces s)) h.2)
