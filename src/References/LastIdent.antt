-- ===== src/References/LastIdent.antt =====
-- src/document_highlight.c: the last identifier in a range.
use taskjuggler_lsp.Base.{
  ◌<◌, ◌≤◌, ◌≡◌, ◌⊎◌, inl, inr, refl, sym, subst, true, false, Bool-cases, Option, none, some, List,
  [], ◌∷◌, ◌++◌, append_assoc, append-nil, arith, Each, Each-append, if◌then◌else◌,
}
use taskjuggler_lsp.Syntax.{LspPos, LspRange, pos_lt, pos_cmp, TokenKind, TokenSpan}
use taskjuggler_lsp.References.{is_ident, last_ident_in_range}

abbrev AtOrAfter : LspPos → LspPos → Type 0
AtOrAfter a b = (b.line < a.line) ⊎ ((a.line ≡ b.line) × (b.character ≤ a.character))

-- An identifier that starts in the range, its end included.
abbrev IsIdentIn : LspRange → TokenSpan → Type 0
IsIdentIn range t =
    (t.token_kind ≡ TokenKind.ident) × (AtOrAfter t.start range.start × AtOrAfter range.end t.start)

-- The range of the last identifier in a range, if there is one.
pub data LastIdent (range : LspRange) : List TokenSpan → Option LspRange → Type 0 where
  missing :
      {tokens : List TokenSpan}
      → Each (λ (t : TokenSpan). IsIdentIn range t → ⊥) tokens
      → LastIdent range tokens none
  last :
      (front : List TokenSpan) (t : TokenSpan) (behind : List TokenSpan)
      → IsIdentIn range t
      → Each (λ (s : TokenSpan). IsIdentIn range s → ⊥) behind
      → LastIdent range (front ++ (t ∷ behind)) (some (record { start = t.start; end = t.end }))

is_ident-eq : (k : TokenKind) → is_ident k ≡ true → k ≡ TokenKind.ident
is_ident-eq TokenKind.ident e = refl
is_ident-eq _ e = absurd (ground (arith, e))

not_ident : (k : TokenKind) → is_ident k ≡ false → k ≡ TokenKind.ident → ⊥
not_ident k e same = absurd (ground (arith, e, same))

at_or_after : (a b : LspPos) → pos_lt a b ≡ false → AtOrAfter a b
unfolding pos_lt pos_cmp
at_or_after a b e = ground (arith, e)

before : (a b : LspPos) → pos_lt a b ≡ true → AtOrAfter a b → ⊥
unfolding pos_lt pos_cmp
before a b e late = ground (arith, e, late)

-- What the loop keeps after one more token.
abbrev step : LspRange → TokenSpan → Option LspRange → Option LspRange
step range t out =
    if is_ident t.token_kind
    then (if pos_lt t.start range.start
        then out
        else if pos_lt range.end t.start
        then out
        else some (record { start = t.start; end = t.end }))
    else out

step-cases :
    (range : LspRange) (t : TokenSpan) (out : Option LspRange)
    → (IsIdentIn range t × (step range t out ≡ some (record { start = t.start; end = t.end })))
      ⊎ ((IsIdentIn range t → ⊥) × (step range t out ≡ out))
step-cases range t out = elim (Bool-cases (is_ident t.token_kind)) [
  | inr other ↦ inr (λ x. not_ident t.token_kind other x.0, rw other refl)
  | inl ident ↦ elim (Bool-cases (pos_lt t.start range.start)) [
    | inl early ↦ inr (λ x. before t.start range.start early x.1.0, rw (ident, early) refl)
    | inr from ↦ elim (Bool-cases (pos_lt range.end t.start)) [
      | inl late ↦ inr (λ x. before range.end t.start late x.1.1, rw (ident, from, late) refl)
      | inr to ↦ inl (
        (
          is_ident-eq t.token_kind ident,
          (at_or_after t.start range.start from, at_or_after range.end t.start to),
        ),
        rw (ident, from, to) refl,
      )
    ]
  ]
]

LastIdent-skip :
    (range : LspRange) (t : TokenSpan) {front : List TokenSpan} {out : Option LspRange}
    → (IsIdentIn range t → ⊥)
    → LastIdent range front out
    → LastIdent range (front ++ (t ∷ [])) out
LastIdent-skip range t not_in (LastIdent.missing all) =
    LastIdent.missing (Each-append _ _ (t ∷ []) all (not_in, tt))
LastIdent-skip range t not_in (LastIdent.last front s behind is all) =
    subst
      (λ (l : List TokenSpan). LastIdent range l (some (record { start = s.start; end = s.end })))
      (sym (append_assoc front (s ∷ behind) (t ∷ [])))
      (LastIdent.last front s (behind ++ (t ∷ [])) is
        (Each-append _ behind (t ∷ []) all (not_in, tt)))

last_ident-from :
    (range : LspRange) (front ts : List TokenSpan) (out : Option LspRange)
    → LastIdent range front out
    → LastIdent range (front ++ ts) (last_ident_in_range ts range out)
unfolding last_ident_in_range
last_ident-from range front [] out so_far =
    subst (λ (l : List TokenSpan). LastIdent range l out) (sym (append-nil front)) so_far
last_ident-from range front (t ∷ ts) out so_far =
    let next : LastIdent range (front ++ (t ∷ [])) (step range t out) =
      elim (step-cases range t out) [
        | inl (is, e) ↦ rw e (LastIdent.last front t [] is tt)
        | inr (not_in, e) ↦ rw e (LastIdent-skip range t not_in so_far)
      ] in
    subst (λ (l : List TokenSpan). LastIdent range l (last_ident_in_range (t ∷ ts) range out))
      (append_assoc front (t ∷ []) ts)
      (last_ident-from range (front ++ (t ∷ [])) ts (step range t out) next)

pub last_ident_in_range-LastIdent :
    (range : LspRange) (tokens : List TokenSpan)
    → LastIdent range tokens (last_ident_in_range tokens range none)
last_ident_in_range-LastIdent range tokens =
    last_ident-from range [] tokens none (LastIdent.missing tt)
