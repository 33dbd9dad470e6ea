-- ===== src/SemanticTokens/Room.antt =====
-- src/semantic_tokens.c and src/parser.c: the buffer that is sized while lexing has room for all the
-- entries that are written to it.
use taskjuggler_lsp.Base.{
  ℕ, zero, suc, ◌+◌, ◌-◌, ◌*◌, ◌^◌, ◌≤◌, ◌<◌, ◌≡◌, true, some, List, [], ◌∷◌, ◌==◌, Bytes, length,
  length-append, arith, Bool-cases, Option-cases, inl, inr, Each,
}
use taskjuggler_lsp.Syntax.{TokenKind, TokenSpan}
use taskjuggler_lsp.SemanticTokens.{
  classify, sub_u32, push_entry, Emitter, push_relative_entry, emit_segment, cut_line, next_line,
  emit_lines, text_or_empty, emit_token, emit_span, emit_spans, compute_semantic_tokens_data,
  is_sem_highlighted, Recorded, push_tok_span,
}

-- What the lexer has recorded after a list of tokens.
pub record_all : Recorded → List TokenSpan → Recorded
record_all g [] = g
record_all g (s ∷ ss) = record_all (push_tok_span g s) ss

abbrev pub nothing : Recorded
nothing = record { tok_spans = []; num_sem_entries = 0 }

-- Lines of a token, in order and below the largest line number.
abbrev pub HasLines : TokenSpan → Type 0
HasLines s = (s.start.line ≤ s.end.line) × (s.end.line + 1 < 2 ^ 32)

push_relative_entry-room :
    (c : Emitter) (line ch len ty mods : ℕ)
    → length (push_relative_entry c line ch len ty mods).buf ≤ length c.buf + 5
unfolding push_relative_entry push_entry
push_relative_entry-room c line ch len ty mods = elim (Bool-cases (len == 0)) [
  | inl e ↦ rw e (omega arith)
  | inr e ↦ rw (e, length-append) (omega arith)
]

emit_segment-room :
    (c : Emitter) (line ch len ty mods : ℕ)
    → length (emit_segment c line ch len ty mods).buf ≤ length c.buf + 5
unfolding emit_segment
emit_segment-room c line ch len ty mods =
    ground (arith, push_relative_entry-room c line ch len ty mods)

emit_lines-room :
    (rounds : ℕ) (c : Emitter) (p : Bytes) (line ch ty mods : ℕ)
    → length (emit_lines rounds c p line ch ty mods).0.buf ≤ length c.buf + 5 * rounds
unfolding emit_lines
emit_lines-room zero c p line ch ty mods = omega arith
emit_lines-room (suc rounds) c p line ch ty mods =
    let (seg, rest) = cut_line p in
    omega (
      arith,
      emit_lines-room rounds (emit_segment c line ch (length seg) ty mods) (next_line p rest)
          (line + 1) 0 ty mods,
      emit_segment-room c line ch (length seg) ty mods,
    )

emit_token-room :
    (c : Emitter) (s : TokenSpan) (ty mods : ℕ)
    → length (emit_token c s ty mods).buf ≤ length c.buf + 5 * (s.end.line - s.start.line + 1)
unfolding emit_token
emit_token-room c s ty mods = elim (Bool-cases (s.start.line == s.end.line)) [
  | inl e ↦ rw e (
      omega (
        arith,
        push_relative_entry-room c s.start.line s.start.character
            (sub_u32 s.end.character s.start.character) ty mods,
      ))
  | inr e ↦
      let out =
        emit_lines (s.end.line - s.start.line) c (text_or_empty s.text) s.start.line
          s.start.character ty mods in
      rw e (
        omega (
          arith,
          push_relative_entry-room out.0 out.1 out.2 s.end.character ty mods,
          emit_lines-room (s.end.line - s.start.line) c (text_or_empty s.text) s.start.line
              s.start.character ty mods,
        ))
]

-- Every token that is classified has been counted.
classify-counted : (k : TokenKind) (p : ℕ × ℕ) → classify k ≡ some p → is_sem_highlighted k ≡ true
unfolding classify is_sem_highlighted
classify-counted k p e = ground arith

emit_span-room :
    (c : Emitter) (s : TokenSpan) (g : Recorded)
    → HasLines s
    → length c.buf ≤ 5 * g.num_sem_entries
    → length (emit_span c s).buf ≤ 5 * (push_tok_span g s).num_sem_entries
unfolding emit_span push_tok_span
emit_span-room c s g h room = elim (Option-cases (classify s.token_kind)) [
  | inl e ↦ rw (e, emit_span) (ground arith)
  | inr ((ty, mods), e) ↦
      rw (e, emit_span, classify-counted s.token_kind (ty, mods) e)
        (omega (arith, emit_token-room c s ty mods))
]

emit_spans-room :
    (ss : List TokenSpan) (c : Emitter) (g : Recorded)
    → Each HasLines ss
    → length c.buf ≤ 5 * g.num_sem_entries
    → length (emit_spans c ss).buf ≤ 5 * (record_all g ss).num_sem_entries
unfolding emit_spans record_all
emit_spans-room [] c g h room = room
emit_spans-room (s ∷ ss) c g h room =
    emit_spans-room ss (emit_span c s) (push_tok_span g s) h.1 (emit_span-room c s g h.0 room)

-- The numbers written for the tokens of a parse fit the buffer, which is five times as long as the
-- count of entries that the lexer kept while it recorded these tokens.
pub compute_semantic_tokens_data-room :
    (spans : List TokenSpan)
    → Each HasLines spans
    → length (compute_semantic_tokens_data spans) ≤ 5 * (record_all nothing spans).num_sem_entries
unfolding compute_semantic_tokens_data
compute_semantic_tokens_data-room spans h = emit_spans-room spans _ nothing h (omega arith)
