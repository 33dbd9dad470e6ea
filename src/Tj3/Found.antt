-- ===== src/Tj3/Found.antt =====
-- src/tj3.c: what is found where, told without the search.
use taskjuggler_lsp.Base.{
  ℕ, ◌≡◌, ◌≢◌, ◌&&◌, refl, sym, ◌∙◌, ap, Option, none, some, Option-cases, inl, inr, List, [], ◌∷◌,
  ◌++◌, append_assoc, Bytes, ◌==◌, arith, str_eq, str_eq_iff, Bool-cases, true, false,
}
use taskjuggler_lsp.PathUtil.{strip_prefix}
use taskjuggler_lsp.Tj3.{Member, after_byte, strstr, below, find_relpath, skip_dot_slash, is_rooted}

-- The first member with the relative path has the URI.
pub data Staged (rel uri : Bytes) : List Member → Type 0 where
  here : (m : Member) (ms : List Member) → m.relpath ≡ rel → m.uri ≡ uri → Staged rel uri (m ∷ ms)
  later :
      (m : Member) {ms : List Member}
      → m.relpath ≢ rel
      → Staged rel uri ms
      → Staged rel uri (m ∷ ms)

differ : (s t : Bytes) → s ≢ t → str_eq s t ≡ false
differ s t ne = elim (Bool-cases (str_eq s t)) [
  | inl e ↦ absurd (ne ((str_eq_iff s t).0 e))
  | inr e ↦ e
]

pub find_relpath-Staged :
    (rel uri : Bytes) (ms : List Member) → Staged rel uri ms → find_relpath ms rel ≡ some uri
unfolding find_relpath
find_relpath-Staged rel uri _ (Staged.here m ms path is) =
    rw (find_relpath, (str_eq_iff m.relpath rel).1 path) (ap some is)
find_relpath-Staged rel uri _ (Staged.later m {ms} ne s) =
    rw (find_relpath, differ m.relpath rel ne) (find_relpath-Staged rel uri ms s)

-- A text does not occur in another.
abbrev pub IsAbsent : Bytes → Bytes → Type 0
IsAbsent needle s = (before behind : Bytes) → s ≢ before ++ (needle ++ behind)

strip_prefix-some : (p s r : Bytes) → strip_prefix p s ≡ some r → s ≡ p ++ r
unfolding strip_prefix
strip_prefix-some [] s r e = ground (arith, e)
strip_prefix-some (c ∷ p) [] r e = absurd (ground (arith, e))
strip_prefix-some (c ∷ p) (d ∷ s) r e = elim (Bool-cases (c == d)) [
  | inl same ↦
      let rest = strip_prefix-some p s r (rw same at e) in
      let heads : d ≡ c = ground (arith, same) in
      ap (λ (l : Bytes). d ∷ l) rest ∙ ap (λ (x : ℕ). x ∷ (p ++ r)) heads
  | inr ne ↦ absurd (ground (arith, e, ne))
]

after_byte-some :
    (c : ℕ) (o : Option (Bytes × Bytes)) (before behind : Bytes)
    → after_byte c o ≡ some (before, behind)
    → (b : Bytes) × (before ≡ c ∷ b) × (o ≡ some (b, behind))
after_byte-some c none before behind e = absurd (ground (arith, e))
after_byte-some c (some (b, rest)) before behind e = (b, ground (arith, e), ground (arith, e))

at_front :
    (s needle r before behind : Bytes)
    → strip_prefix needle s ≡ some r
    → ◌≡◌ {A = Option (Bytes × Bytes)} (some ([], r)) (some (before, behind))
    → s ≡ before ++ (needle ++ behind)
at_front s needle r before behind found e =
    let fronts : [] ≡ before = ground (arith, e) in
    let rests : r ≡ behind = ground (arith, e) in
    strip_prefix-some needle s r found
    ∙ ap (λ (l : Bytes). needle ++ l) rests
    ∙ ap (λ (l : Bytes). l ++ (needle ++ behind)) fronts

strstr-some :
    (s needle before behind : Bytes)
    → strstr s needle ≡ some (before, behind)
    → s ≡ before ++ (needle ++ behind)
unfolding strstr
strstr-some [] needle before behind e = elim (Option-cases (strip_prefix needle [])) [
  | inl gone ↦ absurd (ground (arith, e, gone))
  | inr (r, found) ↦ at_front [] needle r before behind found (rw (strstr, found) at e)
]
strstr-some (c ∷ cs) needle before behind e = elim (Option-cases (strip_prefix needle (c ∷ cs))) [
  | inl gone ↦
      let (b, front, rest) =
        after_byte-some c (strstr cs needle) before behind (rw (strstr, gone) at e) in
      ap (λ (l : Bytes). c ∷ l) (strstr-some cs needle b behind rest)
      ∙ ap (λ (l : Bytes). l ++ (needle ++ behind)) (sym front)
  | inr (r, found) ↦ at_front (c ∷ cs) needle r before behind found (rw (strstr, found) at e)
]

pub strstr-IsAbsent : (s needle : Bytes) → IsAbsent needle s → strstr s needle ≡ none
strstr-IsAbsent s needle absent = elim (Option-cases (strstr s needle)) [
  | inl e ↦ e
  | inr ((before, behind), e) ↦ absurd (absent before behind (strstr-some s needle before behind e))
]

pub below-outside : (dir p : Bytes) → ((rel : Bytes) → p ≢ dir ++ (47 ∷ rel)) → below dir p ≡ none
below-outside dir p outside = elim (Option-cases (below dir p)) [
  | inl e ↦ e
  | inr (rel, e) ↦
      absurd (
        outside rel (strip_prefix-some (dir ++ (47 ∷ [])) p rel e ∙ append_assoc dir (47 ∷ []) rel))
]

-- A path below a directory, with no "./" in front.
abbrev pub IsBelow : Bytes → Type 0
IsBelow rel = ((r : Bytes) → rel ≢ 46 ∷ 47 ∷ r) × ((r : Bytes) → rel ≢ 47 ∷ r)

pub skip_dot_slash-IsBelow : (rel : Bytes) → IsBelow rel → skip_dot_slash rel ≡ rel
unfolding skip_dot_slash
skip_dot_slash-IsBelow [] h = refl
skip_dot_slash-IsBelow (c ∷ []) h = refl
skip_dot_slash-IsBelow (c ∷ d ∷ cs) h = elim (Bool-cases (c == 46 && d == 47)) [
  | inl e ↦ absurd (h.0 cs (ground (arith, e)))
  | inr e ↦ rw e refl
]

pub is_rooted-IsBelow : (rel : Bytes) → IsBelow rel → is_rooted rel ≡ false
is_rooted-IsBelow [] h = refl
is_rooted-IsBelow (c ∷ cs) h = elim (Bool-cases (c == 47)) [
  | inl e ↦ absurd (h.1 cs (ground (arith, e)))
  | inr e ↦ e
]

abbrev pub IsRooted : Bytes → Type 0
IsRooted p = (rest : Bytes) × (p ≡ 47 ∷ rest)

pub is_rooted-IsRooted : (p : Bytes) → IsRooted p → is_rooted p ≡ true
is_rooted-IsRooted p (rest, e) = ap is_rooted e
