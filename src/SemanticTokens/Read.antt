-- ===== src/SemanticTokens/Read.antt =====
-- src/semantic_tokens.c: a client reads from the data where the highlighted tokens stand.
use taskjuggler_lsp.Base.{
  ℕ, zero, suc, ◌+◌, ◌-◌, ◌^◌, ◌<◌, ◌≡◌, ◌∙◌, ap, List, [], ◌∷◌, ◌++◌, ◌==◌, ltb, Bytes, length,
  arith, Bool-cases, Option-cases, inl, inr, Each, Each-append,
}
use taskjuggler_lsp.Syntax.{LspPos, TokenSpan}
use taskjuggler_lsp.Syntax.Order.{Le}
use taskjuggler_lsp.SemanticTokens.{
  classify, cut_line, next_line, text_or_empty, compute_semantic_tokens_data, Emitter,
}
use taskjuggler_lsp.SemanticTokens.Encode.{Piece, decode, Ordered, decode-push_all}
use taskjuggler_lsp.SemanticTokens.Layout.{
  at, piece, at_least_one, line_pieces, token_pieces, span_pieces, pieces, IsShown, Laid,
  emit_spans-pieces,
}

Le_trans : (a b c : LspPos) → Le a b → Le b c → Le a c
Le_trans a b c h k = ground arith

abbrev EndsBy : LspPos → List Piece → Type 0
EndsBy b = Each (λ (p : Piece). Le p.at b)

Ordered-mono : (a b : LspPos) (ps : List Piece) → Le a b → Ordered b ps → Ordered a ps
Ordered-mono a b [] h k = tt
Ordered-mono a b (p ∷ ps) h k = (Le_trans a b p.at h k.0, k.1, k.2, k.3, k.4)

Ordered-append :
    (a b : LspPos) (ps qs : List Piece)
    → Le a b
    → Ordered a ps
    → EndsBy b ps
    → Ordered b qs
    → Ordered a (ps ++ qs)
Ordered-append a b [] qs h o e k = Ordered-mono a b qs h k
Ordered-append a b (p ∷ ps) qs h o e k =
    (o.0, o.1, o.2, o.3, Ordered-append p.at b ps qs e.0 o.4 e.1 k)

EndsBy-mono : (b c : LspPos) (ps : List Piece) → Le b c → EndsBy b ps → EndsBy c ps
EndsBy-mono b c [] h e = tt
EndsBy-mono b c (p ∷ ps) h e = (Le_trans p.at b c e.0 h, EndsBy-mono b c ps h e.1)

at_least_one-Ordered :
    (p : Piece) (b : LspPos)
    → p.at.line < 2 ^ 32
    → p.at.character < 2 ^ 32
    → Le p.at b
    → Ordered p.at (at_least_one p) × EndsBy b (at_least_one p)
at_least_one-Ordered p b l c h = elim (Bool-cases (ltb 0 p.len)) [
  | inl e ↦ rw e ((ground arith, ground arith, l, c, tt), (h, tt))
  | inr e ↦ rw e (tt, tt)
]

line_pieces-Ordered :
    (n : ℕ) (text : Bytes) (line ch ty mods : ℕ)
    → line + n < 2 ^ 32
    → ch < 2 ^ 32
    → Ordered (at line ch) (line_pieces n text line ch ty mods)
      × EndsBy (at (line + n) 0) (line_pieces n text line ch ty mods)
unfolding line_pieces
line_pieces-Ordered zero text line ch ty mods l c = (tt, tt)
line_pieces-Ordered (suc n) text line ch ty mods l c =
    let (seg, rest) = cut_line text in
    let next = at (line + 1) 0 in
    let (o, e) =
      at_least_one-Ordered (piece line ch (length seg) ty mods) next (omega arith) c
        (omega arith) in
    let (o', e') =
      line_pieces-Ordered n (next_line text rest) (line + 1) 0 ty mods (omega arith)
        (omega arith) in
    let end = at (line + suc n) 0 in
    (
      Ordered-append (at line ch) next _ _ (omega arith) o e o',
      Each-append _ _ _ (EndsBy-mono next end _ (ground arith) e)
          (EndsBy-mono (at (line + 1 + n) 0) end _ (ground arith) e'),
    )

token_pieces-Ordered :
    (s : TokenSpan) (ty mods : ℕ)
    → IsShown s
    → Ordered s.start (token_pieces s ty mods) × EndsBy s.end (token_pieces s ty mods)
unfolding token_pieces
token_pieces-Ordered s ty mods h = elim (Bool-cases (s.start.line == s.end.line)) [
  | inl e ↦ rw e (
    (ground arith, ground (arith, h.extent), ground (arith, h.extent), h.start_fits, tt),
    (ground (arith, h.extent), tt),
  )
  | inr e ↦
      let n = s.end.line - s.start.line in
      let text = text_or_empty s.text in
      let sum : s.start.line + n ≡ s.end.line = ground (arith, h.extent) in
      let (o, f) =
        line_pieces-Ordered n text s.start.line s.start.character ty mods (rw sum h.line_fits)
          h.start_fits in
      let last = at s.end.line 0 in
      let f' : EndsBy last (line_pieces n text s.start.line s.start.character ty mods) =
        rw sum at f in
      rw e (
        Ordered-append s.start last _ _ (ground (arith, h.extent)) o f'
            (omega arith, ground (arith, h.extent), h.line_fits, omega arith, tt),
        Each-append _ _ _ (EndsBy-mono last s.end _ (ground arith) f') (ground arith, tt),
      )
]

span_pieces-Ordered :
    (s : TokenSpan) → IsShown s → Ordered s.start (span_pieces s) × EndsBy s.end (span_pieces s)
unfolding span_pieces
span_pieces-Ordered s h = elim (Option-cases (classify s.token_kind)) [
  | inl e ↦ rw (e, span_pieces) (tt, tt)
  | inr ((ty, mods), e) ↦ rw (e, span_pieces) (token_pieces-Ordered s ty mods h)
]

pieces-Ordered : (ss : List TokenSpan) (a : LspPos) → Laid a ss → Ordered a (pieces ss)
unfolding pieces
pieces-Ordered [] a h = tt
pieces-Ordered (s ∷ ss) a h =
    let (o, e) = span_pieces-Ordered s h.1 in
    Ordered-append a s.end _ _ (Le_trans a s.start s.end h.0 (ground (arith, h.1.extent)))
      (Ordered-mono a s.start _ h.0 o) e (pieces-Ordered ss s.end h.2)

-- For tokens as the lexer meets them, a client of the protocol decodes from the data exactly the
-- stretches of the highlighted tokens, line by line and in order, with their types: no delta wraps,
-- and no entry is lost or misplaced.
pub decode-compute_semantic_tokens_data :
    (spans : List TokenSpan)
    → Laid (at 0 0) spans
    → decode (at 0 0) (compute_semantic_tokens_data spans) ≡ pieces spans
unfolding compute_semantic_tokens_data
decode-compute_semantic_tokens_data spans h =
    let start : Emitter = record { buf = []; prev_line = 0; prev_char = 0 } in
    let (out, written, read) =
      decode-push_all (pieces spans) start (pieces-Ordered spans (at 0 0) h) in
    ap (λ (c : Emitter). decode (at 0 0) c.buf) (emit_spans-pieces spans (at 0 0) start h)
    ∙ ap (decode (at 0 0)) written
    ∙ read
