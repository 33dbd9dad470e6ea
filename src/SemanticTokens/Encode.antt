-- ===== src/SemanticTokens/Encode.antt =====
-- src/semantic_tokens.c: delta encoding against the decoder of a client of the protocol.
use taskjuggler_lsp.Base.{
  ℕ, ◌+◌, ◌-◌, ◌^◌, ◌<◌, ◌≡◌, refl, ◌∙◌, sym, ap, List, [], ◌∷◌, ◌++◌, ◌==◌, if◌then◌else◌,
  append_assoc, append-nil, arith,
}
use taskjuggler_lsp.Syntax.{LspPos}
use taskjuggler_lsp.Syntax.Order.{Le}
use taskjuggler_lsp.SemanticTokens.{push_entry, Emitter, push_relative_entry}

-- A stretch of one line, with its highlighting.
pub record Piece : Type 0 where
  pub at : LspPos
  pub len : ℕ
  pub token_type : ℕ
  pub modifiers : ℕ

-- What a client reads of the data, from the position of the entry before. Numbers that make up no
-- whole entry are dropped.
unfoldable pub decode : LspPos → List ℕ → List Piece
decode prev (delta_line ∷ delta_start ∷ len ∷ token_type ∷ modifiers ∷ rest) =
    let at : LspPos = record {
      line = prev.line + delta_line;
      character = if delta_line == 0 then prev.character + delta_start else delta_start;
    } in
    record { at = at; len = len; token_type = token_type; modifiers = modifiers } ∷ decode at rest
decode prev _ = []

abbrev pub push : Emitter → Piece → Emitter
push c p = push_relative_entry c p.at.line p.at.character p.len p.token_type p.modifiers

unfoldable pub push_all : Emitter → List Piece → Emitter
push_all c [] = c
push_all c (p ∷ ps) = push_all (push c p) ps

pub push_all-append :
    (c : Emitter) (ps qs : List Piece) → push_all c (ps ++ qs) ≡ push_all (push_all c ps) qs
unfolding push_all
push_all-append c [] qs = refl
push_all-append c (p ∷ ps) qs = push_all-append (push c p) ps qs

-- Pieces in reading order behind a position, none of them empty, within the numbers of 32 bits.
abbrev pub Ordered : LspPos → List Piece → Type 0
Ordered a [] = Unit
Ordered a (p ∷ ps) =
    Le a p.at × (0 < p.len) × (p.at.line < 2 ^ 32) × (p.at.character < 2 ^ 32) × Ordered p.at ps

abbrev pub position : Emitter → LspPos
position c = record { line = c.prev_line; character = c.prev_char }

position-push : (c : Emitter) (p : Piece) → position (push c p) ≡ p.at
unfolding push_relative_entry
position-push c p = refl

delta : LspPos → LspPos → ℕ
delta a b = if a.line == b.line then b.character - a.character else b.character

push-buf :
    (c : Emitter) (p : Piece)
    → Le (position c) p.at
    → 0 < p.len
    → p.at.line < 2 ^ 32
    → p.at.character < 2 ^ 32
    → (push c p).buf
      ≡ c.buf
        ++ ((p.at.line - c.prev_line)
            ∷ delta (position c) p.at
            ∷ p.len
            ∷ p.token_type
            ∷ p.modifiers
            ∷ [])
unfolding push_relative_entry push_entry delta
push-buf c p le pos l ch = ground arith

-- A client that adds the deltas stands where the piece does.
landed :
    (a b : LspPos)
    → Le a b
    → ◌≡◌ {A = LspPos}
        (record {
          line = a.line + (b.line - a.line);
          character = if b.line - a.line == 0 then a.character + delta a b else delta a b;
        })
        b
unfolding delta
landed a b le = ground arith

decode-cons :
    (a : LspPos) (p : Piece) (rest : List ℕ)
    → Le a p.at
    → decode a ((p.at.line - a.line) ∷ delta a p.at ∷ p.len ∷ p.token_type ∷ p.modifiers ∷ rest)
      ≡ p ∷ decode p.at rest
unfolding decode delta
decode-cons a p rest le =
    ap (λ (b : LspPos). record p { at = b } ∷ decode b rest) (landed a p.at le)

pub decode-push_all :
    (ps : List Piece) (c : Emitter)
    → Ordered (position c) ps
    → (out : List ℕ) × ((push_all c ps).buf ≡ c.buf ++ out) × (decode (position c) out ≡ ps)
unfolding push_all
decode-push_all [] c h = ([], sym (append-nil c.buf), unfold decode in refl)
decode-push_all (p ∷ ps) c h =
    let (out, written, read) = decode-push_all ps (push c p) (rw (position-push c p) h.4) in
    (
      (p.at.line - c.prev_line)
          ∷ delta (position c) p.at
          ∷ p.len
          ∷ p.token_type
          ∷ p.modifiers
          ∷ out,
      written ∙ ap (λ b. b ++ out) (push-buf c p h.0 h.1 h.2 h.3) ∙ append_assoc c.buf _ out,
      decode-cons (position c) p out h.0 ∙ ap (λ l. p ∷ l) (rw (position-push c p) at read),
    )
