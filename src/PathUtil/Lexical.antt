-- ===== src/PathUtil/Lexical.antt =====
-- src/pathutil.c: the lexical normal form of a path is its own lexical normal form.
use taskjuggler_lsp.Base.{
  ℕ, Bool, true, false, ◌≡◌, refl, ap, [], ◌∷◌, ◌++◌, List, append-nil, inl, inr, ◌==◌,
  if◌then◌else◌, Bool-cases, Each, Bytes,
}
use taskjuggler_lsp.PathUtil.{is_absolute, lexical_normalize_path}
use taskjuggler_lsp.PathUtil.Normalize.{
  push, split, names, render, is_skipped, normal_form, lexical_normalize_path-eq-normal_form,
}

abbrev HasNoSlash : Bytes → Type 0
HasNoSlash = Each (λ c. (c == b'/') ≡ false)

-- What `names` keeps: a segment that names a file.
abbrev IsName : Bytes → Type 0
IsName s = (is_skipped s ≡ false) × HasNoSlash s

push-Each {κ} :
    (P : ℕ → Type κ) (c : ℕ) (ss : List Bytes) → P c → Each (Each P) ss → Each (Each P) (push c ss)
unfolding push
push-Each P c [] h hs = ((h, tt), tt)
push-Each P c (s ∷ ss) h hs = ((h, hs.0), hs.1)

pub split-Each {κ} : (P : ℕ → Type κ) (p : Bytes) → Each P p → Each (Each P) (split p)
unfolding split
split-Each P [] h = (tt, tt)
split-Each P (c ∷ cs) h = elim (Bool-cases (c == b'/')) [
  | inl e ↦ rw e (tt, split-Each P cs h.1)
  | inr e ↦ rw e (push-Each P c (split cs) h.0 (split-Each P cs h.1))
]

split-HasNoSlash : (p : Bytes) → Each HasNoSlash (split p)
unfolding split
split-HasNoSlash [] = (tt, tt)
split-HasNoSlash (c ∷ cs) = elim (Bool-cases (c == b'/')) [
  | inl e ↦ rw e (tt, split-HasNoSlash cs)
  | inr e ↦ rw e (push-Each _ c (split cs) e (split-HasNoSlash cs))
]

pub names-Each {κ} : (P : Bytes → Type κ) (ss : List Bytes) → Each P ss → Each P (names ss)
unfolding names
names-Each P [] h = tt
names-Each P (s ∷ ss) h = elim (Bool-cases (is_skipped s)) [
  | inl e ↦ rw e (names-Each P ss h.1)
  | inr e ↦ rw e (h.0, names-Each P ss h.1)
]

names-IsName : (ss : List Bytes) → Each HasNoSlash ss → Each IsName (names ss)
unfolding names
names-IsName [] h = tt
names-IsName (s ∷ ss) h = elim (Bool-cases (is_skipped s)) [
  | inl e ↦ rw e (names-IsName ss h.1)
  | inr e ↦ rw e ((e, h.0), names-IsName ss h.1)
]

split-slash : (s r : Bytes) → HasNoSlash s → split (s ++ b'/' ∷ r) ≡ s ∷ split r
unfolding split push
split-slash [] r h = refl
split-slash (c ∷ s) r h = rw (h.0, split-slash s r h.1)

split-HasNoSlash_self : (s : Bytes) → HasNoSlash s → split s ≡ s ∷ []
unfolding split push
split-HasNoSlash_self [] h = refl
split-HasNoSlash_self (c ∷ s) h = rw (h.0, split-HasNoSlash_self s h.1)

names-split-render :
    (s : Bytes) (ss : List Bytes)
    → IsName s
    → Each IsName ss
    → names (split (s ++ render true ss)) ≡ s ∷ ss
unfolding names render
names-split-render s [] h hs = rw (append-nil s, split-HasNoSlash_self s h.1, h.0)
names-split-render s (t ∷ ts) h hs =
    rw (split-slash s (t ++ render true ts) h.1, h.0)
      (ap (λ r. s ∷ r) (names-split-render t ts hs.0 hs.1))

names-split-relative : (ss : List Bytes) → Each IsName ss → names (split (render false ss)) ≡ ss
unfolding render
names-split-relative [] h = unfold names split is_skipped in refl
names-split-relative (s ∷ ss) h = names-split-render s ss h.0 h.1

is_absolute-render : (ss : List Bytes) → Each IsName ss → is_absolute (render false ss) ≡ false
unfolding render is_absolute is_skipped
is_absolute-render [] h = refl
is_absolute-render ([] ∷ ss) h = cc (h.0.0)
is_absolute-render ((c ∷ s) ∷ ss) h = h.0.1.0

normal_form-absolute :
    (ss : List Bytes)
    → Each IsName ss
    → normal_form (b'/' ∷ render false ss) ≡ b'/' ∷ render false ss
unfolding normal_form is_absolute split names is_skipped
normal_form-absolute ss h = ap (λ ts. b'/' ∷ render false ts) (names-split-relative ss h)

normal_form-relative :
    (ss : List Bytes) → Each IsName ss → normal_form (render false ss) ≡ render false ss
unfolding normal_form
normal_form-relative ss h =
    rw (is_absolute-render ss h) (ap (render false) (names-split-relative ss h))

normal_form_idem : (p : Bytes) → normal_form (normal_form p) ≡ normal_form p
normal_form_idem p =
    let named : Each IsName (names (split p)) = names-IsName (split p) (split-HasNoSlash p) in
    elim (Bool-cases (is_absolute p)) [
      | inl e ↦ rw (shape p true e) (normal_form-absolute (names (split p)) named)
      | inr e ↦ rw (shape p false e) (normal_form-relative (names (split p)) named)
    ]
  where
    shape :
        (q : Bytes) (b : Bool)
        → is_absolute q ≡ b
        → normal_form q ≡ (if b then b'/' ∷ [] else []) ++ render false (names (split q))
    shape q b e = unfold normal_form in rw e

-- Lexical normalisation is idempotent.
pub lexical_normalize_path_idem :
    (path : Bytes)
    → lexical_normalize_path (lexical_normalize_path path) ≡ lexical_normalize_path path
lexical_normalize_path_idem path =
    rw
      (
        lexical_normalize_path-eq-normal_form path,
        lexical_normalize_path-eq-normal_form (normal_form path),
      )
      (normal_form_idem path)
