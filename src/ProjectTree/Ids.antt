-- ===== src/ProjectTree/Ids.antt =====
-- src/hover.c: the ids that the dotted path of a declaration is made of.
use taskjuggler_lsp.Base.{
  ℕ, zero, suc, ◌+◌, ◌≡◌, ◌≢◌, refl, ◌∙◌, sym, ap, ◌==◌, true, false, Bool-cases, Option, none,
  some, Option-cases, subst, List, [], ◌∷◌, Bytes, arith, inl, inr, length, take,
}
use taskjuggler_lsp.QualifiedId.{kind_number, same_keyword, id_chain}
use taskjuggler_lsp.Syntax.{TokenKind, TjInfo, TjNodePtr}

-- The ids that are not empty of a declaration of the keyword and of those around it, the nearest first.
pub data IdsOf (keyword : Option TokenKind) : TjNodePtr → List Bytes → Type 0 where
  top : IdsOf keyword [] []
  counts :
      {s : TjInfo} {up : TjNodePtr} {ids : List Bytes}
      → (c : ℕ) (cs : Bytes) → s.keyword ≡ keyword
      → s.id ≡ some (c ∷ cs)
      → IdsOf keyword up ids
      → IdsOf keyword (s ∷ up) ((c ∷ cs) ∷ ids)
  other :
      {s : TjInfo} {up : TjNodePtr} {ids : List Bytes}
      → s.keyword ≢ keyword
      → IdsOf keyword up ids
      → IdsOf keyword (s ∷ up) ids
  nameless :
      {s : TjInfo} {up : TjNodePtr} {ids : List Bytes}
      → s.id ≡ none
      → IdsOf keyword up ids
      → IdsOf keyword (s ∷ up) ids
  empty :
      {s : TjInfo} {up : TjNodePtr} {ids : List Bytes}
      → s.id ≡ some []
      → IdsOf keyword up ids
      → IdsOf keyword (s ∷ up) ids

abbrev kind_at : List TokenKind → ℕ → TokenKind
kind_at [] n = TokenKind.keyword n
kind_at (k ∷ ks) zero = k
kind_at (k ∷ ks) (suc n) = kind_at ks n

abbrev all_kinds : List TokenKind
all_kinds =
    TokenKind.eof ∷ TokenKind.ident ∷ TokenKind.str ∷ TokenKind.multi_line_str ∷ TokenKind.integer
    ∷ TokenKind.float ∷ TokenKind.date ∷ TokenKind.duration ∷ TokenKind.lbrace ∷ TokenKind.rbrace
    ∷ TokenKind.lbracket ∷ TokenKind.rbracket ∷ TokenKind.bang ∷ TokenKind.plus ∷ TokenKind.minus
    ∷ TokenKind.dot ∷ TokenKind.colon ∷ TokenKind.comma ∷ TokenKind.percent ∷ TokenKind.dollar
    ∷ TokenKind.error ∷ TokenKind.line_comment ∷ TokenKind.block_comment ∷ TokenKind.eol
    ∷ TokenKind.kw_project ∷ TokenKind.kw_task ∷ TokenKind.kw_resource ∷ TokenKind.kw_account
    ∷ TokenKind.kw_shift ∷ TokenKind.kw_include ∷ []

kind_at-behind :
    (ks : List TokenKind) (n m : ℕ) → m ≡ length ks + n → kind_at ks m ≡ TokenKind.keyword n
kind_at-behind [] n m e = ap TokenKind.keyword (omega (arith, e))
kind_at-behind (k ∷ ks) n zero e = absurd (omega (arith, e))
kind_at-behind (k ∷ ks) n (suc m) e = kind_at-behind ks n m (omega (arith, e))

kind_at-kind_number : (k : TokenKind) → kind_at all_kinds (kind_number k) ≡ k
kind_at-kind_number (TokenKind.keyword n) = kind_at-behind all_kinds n (30 + n) refl
kind_at-kind_number TokenKind.eof = refl
kind_at-kind_number TokenKind.ident = refl
kind_at-kind_number _ = refl

same_keyword-eq : (k l : Option TokenKind) → same_keyword k l ≡ true → k ≡ l
same_keyword-eq none none e = refl
same_keyword-eq none (some l) e = absurd (ground (arith, e))
same_keyword-eq (some k) none e = absurd (ground (arith, e))
same_keyword-eq (some k) (some l) e =
    let numbers : kind_number k ≡ kind_number l = ground (arith, e) in
    ap some (
      sym (kind_at-kind_number k)
      ∙ ap (λ (n : ℕ). kind_at all_kinds n) numbers
      ∙ kind_at-kind_number l)

same_keyword-other : (k l : Option TokenKind) → k ≢ l → same_keyword k l ≡ false
same_keyword-other k l ne = elim (Bool-cases (same_keyword k l)) [
  | inl same ↦ absurd (ne (same_keyword-eq k l same))
  | inr differs ↦ differs
]

pub same_keyword_refl : (k : Option TokenKind) → same_keyword k k ≡ true
same_keyword_refl none = refl
same_keyword_refl (some k) = same_number (kind_number k)
  where
    same_number : (n : ℕ) → (n == n) ≡ true
    same_number n = ground arith

same_keyword-equal : (k l : Option TokenKind) → k ≡ l → same_keyword k l ≡ true
same_keyword-equal k l e =
    subst (λ (x : Option TokenKind). same_keyword k x ≡ true) e (same_keyword_refl k)

id_chain-other :
    (keyword : Option TokenKind) (room : ℕ) (s : TjInfo) (up : TjNodePtr)
    → s.keyword ≢ keyword
    → id_chain keyword (suc room) (s ∷ up) ≡ id_chain keyword (suc room) up
unfolding id_chain
id_chain-other keyword room s up ne = elim (Option-cases s.id) [
  | inl e ↦ rw (id_chain, e) refl
  | inr ([], e) ↦ rw (id_chain, e) refl
  | inr (c ∷ cs, e) ↦ rw (id_chain, e, same_keyword-other s.keyword keyword ne) refl
]

-- The chain is the nearest of these ids, as many as there is room for.
pub id_chain-IdsOf :
    (keyword : Option TokenKind) (room : ℕ) (p : TjNodePtr) (ids : List Bytes)
    → IdsOf keyword p ids
    → id_chain keyword room p ≡ take room ids
unfolding id_chain
id_chain-IdsOf keyword zero [] ids h = refl
id_chain-IdsOf keyword zero (s ∷ up) ids h = refl
id_chain-IdsOf keyword (suc room) _ _ IdsOf.top = refl
id_chain-IdsOf keyword (suc room) _ _ (IdsOf.counts {s} {up} {ids} c cs same e h) =
    rw (id_chain, e, same_keyword-equal s.keyword keyword same)
      (ap (λ (l : List Bytes). (c ∷ cs) ∷ l) (id_chain-IdsOf keyword room up ids h))
id_chain-IdsOf keyword (suc room) _ _ (IdsOf.other {s} {up} {ids} ne h) =
    id_chain-other keyword room s up ne ∙ id_chain-IdsOf keyword (suc room) up ids h
id_chain-IdsOf keyword (suc room) _ _ (IdsOf.nameless {s} {up} {ids} e h) =
    rw (id_chain, e) (id_chain-IdsOf keyword (suc room) up ids h)
id_chain-IdsOf keyword (suc room) _ _ (IdsOf.empty {s} {up} {ids} e h) =
    rw (id_chain, e) (id_chain-IdsOf keyword (suc room) up ids h)
