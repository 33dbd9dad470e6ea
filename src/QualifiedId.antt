-- ===== src/QualifiedId.antt =====
-- src/hover.c: `sym_qualified_id`, the dotted path of a declaration inside its document.
use taskjuggler_lsp.Base.{
  ℕ, zero, suc, ◌+◌, ◌==◌, Bool, true, false, Option, none, some, List, [], ◌∷◌, ◌++◌, Bytes,
}
use taskjuggler_lsp.Syntax.{TokenKind, TjNodePtr}

-- The number of a kind, in the order of its constructors.
abbrev pub kind_number : TokenKind → ℕ
kind_number k = elim k [
  | TokenKind.eof ↦ 0
  | TokenKind.ident ↦ 1
  | TokenKind.str ↦ 2
  | TokenKind.multi_line_str ↦ 3
  | TokenKind.integer ↦ 4
  | TokenKind.float ↦ 5
  | TokenKind.date ↦ 6
  | TokenKind.duration ↦ 7
  | TokenKind.lbrace ↦ 8
  | TokenKind.rbrace ↦ 9
  | TokenKind.lbracket ↦ 10
  | TokenKind.rbracket ↦ 11
  | TokenKind.bang ↦ 12
  | TokenKind.plus ↦ 13
  | TokenKind.minus ↦ 14
  | TokenKind.dot ↦ 15
  | TokenKind.colon ↦ 16
  | TokenKind.comma ↦ 17
  | TokenKind.percent ↦ 18
  | TokenKind.dollar ↦ 19
  | TokenKind.error ↦ 20
  | TokenKind.line_comment ↦ 21
  | TokenKind.block_comment ↦ 22
  | TokenKind.eol ↦ 23
  | TokenKind.kw_project ↦ 24
  | TokenKind.kw_task ↦ 25
  | TokenKind.kw_resource ↦ 26
  | TokenKind.kw_account ↦ 27
  | TokenKind.kw_shift ↦ 28
  | TokenKind.kw_include ↦ 29
  | TokenKind.keyword n ↦ 30 + n
]

-- `s->keyword == sym->keyword`
abbrev pub same_keyword : Option TokenKind → Option TokenKind → Bool
same_keyword none none = true
same_keyword none (some k) = false
same_keyword (some k) none = false
same_keyword (some k) (some l) = kind_number k == kind_number l

-- The ids of `chain`, the nearest first: those of the node and its ancestors that have the keyword
-- and an id that is not empty, `room` at most.
unfoldable pub id_chain : Option TokenKind → ℕ → TjNodePtr → List Bytes
id_chain keyword room [] = []
id_chain keyword zero (s ∷ up) = []
id_chain keyword (suc room) (s ∷ up) = elim s.id [
  | none ↦ id_chain keyword (suc room) up
  | some id ↦ elim id [
    | [] ↦ id_chain keyword (suc room) up
    | c ∷ cs ↦ elim (same_keyword s.keyword keyword) [
      | true ↦ (c ∷ cs) ∷ id_chain keyword room up
      | false ↦ id_chain keyword (suc room) up
    ]
  ]
]

-- The loop that writes the ids from the last of the chain to the first, with dots between them, in
-- front of what is written already.
unfoldable pub write_ids : List Bytes → Bytes → Bytes
write_ids [] out = out
write_ids (id ∷ ids) out = write_ids ids (id ++ (b'.' ∷ out))

abbrev pub chain_size : ℕ
chain_size = 64

unfoldable pub sym_qualified_id : TjNodePtr → Bytes
unfolding id_chain write_ids
sym_qualified_id [] = []
sym_qualified_id (sym ∷ up) = elim sym.id [
  | none ↦ []
  | some own ↦ elim (id_chain sym.keyword chain_size (sym ∷ up)) [
    | [] ↦ own
    | id ∷ ids ↦ write_ids ids id
  ]
]
