-- ===== src/SemanticTokens/Tests.antt =====
-- src/semantic_tokens.c on a keyword, a comment of three lines and an identifier.
use taskjuggler_lsp.Base.{◌*◌, ◌≤◌, ◌≡◌, refl, some, [], ◌∷◌, List, arith, length, Bytes, codes}
use taskjuggler_lsp.Syntax.{LspPos, TokenKind, TokenSpan}
use taskjuggler_lsp.SemanticTokens.{
  classify, push_entry, push_relative_entry, emit_segment, cut_line, emit_lines, emit_token,
  emit_span, emit_spans, compute_semantic_tokens_data, is_sem_highlighted, push_tok_span,
}
use taskjuggler_lsp.SemanticTokens.Room.{record_all, nothing, compute_semantic_tokens_data-room}
use taskjuggler_lsp.SemanticTokens.Encode.{decode}
use taskjuggler_lsp.SemanticTokens.Layout.{
  at, piece, line_pieces, token_pieces, span_pieces, pieces, Laid,
}
use taskjuggler_lsp.SemanticTokens.Read.{decode-compute_semantic_tokens_data}

program : Unit {0}
unfolding classify push_entry push_relative_entry emit_segment cut_line emit_lines emit_token
    emit_span emit_spans compute_semantic_tokens_data is_sem_highlighted push_tok_span
program = tt

abbrev token : TokenKind → LspPos → LspPos → Bytes → TokenSpan
token k a b t = record { token_kind = k; start = a; end = b; text = some t }

abbrev spans : List TokenSpan
spans =
    token TokenKind.kw_task (at 0 0) (at 0 4) (codes "task")
    ∷ token TokenKind.block_comment (at 0 5) (at 2 4) (codes "/*x\n\n  */")
    ∷ token TokenKind.ident (at 2 5) (at 2 6) (codes "a")
    ∷ token TokenKind.lbrace (at 2 7) (at 2 8) []
    ∷ []

data_of_spans :
    compute_semantic_tokens_data spans
    ≡ 0 ∷ 0 ∷ 4 ∷ 0 ∷ 0 ∷ 0 ∷ 5 ∷ 3 ∷ 1 ∷ 0 ∷ 2 ∷ 0 ∷ 4 ∷ 1 ∷ 0 ∷ 0 ∷ 5 ∷ 1 ∷ 4 ∷ 0 ∷ []
unfolding program
data_of_spans = refl

pieces_of_spans :
    pieces spans ≡ piece 0 0 4 0 0 ∷ piece 0 5 3 1 0 ∷ piece 2 0 4 1 0 ∷ piece 2 5 1 4 0 ∷ []
unfolding program pieces span_pieces token_pieces line_pieces
pieces_of_spans = refl

compute_semantic_tokens_data-room_example :
    length (compute_semantic_tokens_data spans) ≤ 5 * (record_all nothing spans).num_sem_entries
compute_semantic_tokens_data-room_example = compute_semantic_tokens_data-room spans (omega arith)

spans-Laid : Laid (at 0 0) spans
spans-Laid = ground arith

decode-compute_semantic_tokens_data_example :
    decode (at 0 0) (compute_semantic_tokens_data spans) ≡ pieces spans
decode-compute_semantic_tokens_data_example = decode-compute_semantic_tokens_data spans spans-Laid
