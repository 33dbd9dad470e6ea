-- ===== src/SemanticTokens.antt =====
-- src/semantic_tokens.c: classification and the delta-encoded data of semantic tokens, with the
-- count of entries that src/parser.c keeps while the lexer records tokens.
-- The buffer of `uint32_t` is the list of the numbers written so far; arithmetic on positions wraps
-- at 2^32.
pub mod Room
pub mod Layout
pub mod Encode
pub mod Read
mod Tests
use taskjuggler_lsp.Base.{
  ℕ, zero, suc, ◌+◌, ◌-◌, ◌%◌, ◌^◌, Bool, true, false, Option, none, some, List, [], ◌∷◌, ◌++◌,
  ◌==◌, ltb, if◌then◌else◌, Bytes, length,
}
use taskjuggler_lsp.Syntax.{LspPos, TokenKind, TokenSpan}

-- `SEMTOK_TYPE_*`
abbrev pub type_keyword : ℕ
type_keyword = 0

abbrev pub type_comment : ℕ
type_comment = 1

abbrev pub type_string : ℕ
type_string = 2

abbrev pub type_number : ℕ
type_number = 3

abbrev pub type_variable : ℕ
type_variable = 4

abbrev pub type_function : ℕ
type_function = 5

-- The type and the modifiers of a highlighted token, or `none` for a token that is skipped. The
-- `KW_*` constants stand in one run, from `KW_PROJECT` to `KW_YEARLYWORKINGDAYS`.
pub classify : TokenKind → Option (ℕ × ℕ)
classify TokenKind.lbrace = none
classify TokenKind.rbrace = none
classify TokenKind.bang = none
classify TokenKind.dot = none
classify TokenKind.comma = none
classify TokenKind.line_comment = some (type_comment, 0)
classify TokenKind.block_comment = some (type_comment, 0)
classify TokenKind.str = some (type_string, 0)
classify TokenKind.multi_line_str = some (type_string, 0)
classify TokenKind.date = some (type_number, 0)
classify TokenKind.duration = some (type_number, 0)
classify TokenKind.ident = some (type_variable, 0)
classify TokenKind.kw_project = some (type_keyword, 0)
classify TokenKind.kw_task = some (type_keyword, 0)
classify TokenKind.kw_resource = some (type_keyword, 0)
classify TokenKind.kw_account = some (type_keyword, 0)
classify TokenKind.kw_shift = some (type_keyword, 0)
classify TokenKind.kw_include = some (type_function, 0)
classify (TokenKind.keyword n) = some (type_function, 0)
classify _ = none

abbrev pub sub_u32 : ℕ → ℕ → ℕ
sub_u32 a b = (a + 2 ^ 32 - b) % 2 ^ 32

pub push_entry : List ℕ → ℕ → ℕ → ℕ → ℕ → ℕ → List ℕ
push_entry buf delta_line delta_start len token_type modifiers =
    if len == 0 then buf else buf ++ (delta_line ∷ delta_start ∷ len ∷ token_type ∷ modifiers ∷ [])

-- The buffer, and the position of the entry before.
pub record Emitter : Type 0 where
  pub buf : List ℕ
  pub prev_line : ℕ
  pub prev_char : ℕ

pub push_relative_entry : Emitter → ℕ → ℕ → ℕ → ℕ → ℕ → Emitter
push_relative_entry c line character len token_type modifiers =
    let delta_line = sub_u32 line c.prev_line in
    let delta_start = if delta_line == 0 then sub_u32 character c.prev_char else character in
    record {
      buf = push_entry c.buf delta_line delta_start len token_type modifiers;
      prev_line = line;
      prev_char = character;
    }

-- What stands before the first newline of a text, and what follows that newline, if there is one.
pub cut_line : Bytes → Bytes × Option Bytes
cut_line [] = ([], none)
cut_line (c ∷ cs) =
    let (seg, rest) = cut_line cs in if c == b'\n' then ([], some cs) else (c ∷ seg, rest)

-- The text after a line: `if (nl) p = nl + 1`.
abbrev pub next_line : Bytes → Option Bytes → Bytes
next_line p none = p
next_line p (some rest) = rest

-- One line of a token: an empty one gives no entry.
pub emit_segment : Emitter → ℕ → ℕ → ℕ → ℕ → ℕ → Emitter
emit_segment c line character seg_len token_type modifiers =
    if ltb 0 seg_len then push_relative_entry c line character seg_len token_type modifiers else c

-- `while (current_line < end_line)`, over the rounds left.
pub emit_lines : ℕ → Emitter → Bytes → ℕ → ℕ → ℕ → ℕ → Emitter × ℕ × ℕ
emit_lines zero c p current_line current_char token_type modifiers = (c, current_line, current_char)
emit_lines (suc rounds) c p current_line current_char token_type modifiers =
    let (seg, rest) = cut_line p in
    let c' = emit_segment c current_line current_char (length seg) token_type modifiers in
    emit_lines rounds c' (next_line p rest) (current_line + 1) 0 token_type modifiers

abbrev pub text_or_empty : Option Bytes → Bytes
text_or_empty none = []
text_or_empty (some text) = text

pub emit_token : Emitter → TokenSpan → ℕ → ℕ → Emitter
emit_token c s token_type modifiers =
    if s.start.line == s.end.line
    then push_relative_entry c s.start.line s.start.character
        (sub_u32 s.end.character s.start.character) token_type modifiers
    else let (c', current_line, current_char) =
        emit_lines (s.end.line - s.start.line) c (text_or_empty s.text) s.start.line
          s.start.character token_type modifiers in
      push_relative_entry c' current_line current_char s.end.character token_type modifiers

-- The body of the loop of `compute_semantic_tokens_data`.
pub emit_span : Emitter → TokenSpan → Emitter
emit_span c s = elim (classify s.token_kind) [
  | none ↦ c
  | some (token_type, modifiers) ↦ emit_token c s token_type modifiers
]

pub emit_spans : Emitter → List TokenSpan → Emitter
emit_spans c [] = c
emit_spans c (s ∷ ss) = emit_spans (emit_span c s) ss

pub compute_semantic_tokens_data : List TokenSpan → List ℕ
compute_semantic_tokens_data spans =
    (emit_spans (record { buf = []; prev_line = 0; prev_char = 0 }) spans).buf

-- src/parser.c: the kinds that count towards the size of the buffer
pub is_sem_highlighted : TokenKind → Bool
is_sem_highlighted TokenKind.lbrace = false
is_sem_highlighted TokenKind.rbrace = false
is_sem_highlighted TokenKind.bang = false
is_sem_highlighted TokenKind.dot = false
is_sem_highlighted TokenKind.comma = false
is_sem_highlighted _ = true

-- src/parser.c: what the lexer has recorded, and the bound on the entries it will give
pub record Recorded : Type 0 where
  pub tok_spans : List TokenSpan
  pub num_sem_entries : ℕ

pub push_tok_span : Recorded → TokenSpan → Recorded
push_tok_span g s = record {
  tok_spans = g.tok_spans ++ s ∷ [];
  num_sem_entries =
      if is_sem_highlighted s.token_kind
      then g.num_sem_entries + sub_u32 (s.end.line + 1) s.start.line
      else g.num_sem_entries;
}
