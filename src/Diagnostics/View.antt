-- ===== src/Diagnostics/View.antt =====
-- src/diagnostics.c: what the editor shows after the messages.
use taskjuggler_lsp.Base.{
  ◌≡◌, refl, ◌∙◌, sym, ap, false, ◌&&◌, ◌||◌, not, if◌then◌else◌, Bool-cases, inl, inr, List, [],
  ◌∷◌, ◌++◌, Bytes, str_eq, str_eq_iff, arith, subst,
}
use taskjuggler_lsp.Diagnostics.{
  Diagnostic, DiagSet, diag_set_add, diag_set_has, Message, publish_current, publish_cleared,
  diag_set_publish, publish_diagnostics,
}

-- The diagnostics that a set holds for a URI.
unfoldable pub items_of : DiagSet → Bytes → List Diagnostic
items_of [] uri = []
items_of (f ∷ fs) uri = if str_eq f.uri uri then f.items else items_of fs uri

-- An editor shows for a URI what was published for it last.
abbrev pub Editor : Type 0
Editor = Bytes → List Diagnostic

abbrev pub receive : Editor → Message → Editor
receive e m uri = if str_eq m.uri uri then m.diagnostics else e uri

abbrev pub receive_all : Editor → List Message → Editor
receive_all e [] = e
receive_all e (m ∷ ms) = receive_all (receive e m) ms

-- No URI has two buckets.
abbrev pub OneBucket : DiagSet → Type 0
OneBucket [] = Unit
OneBucket (f ∷ fs) = (diag_set_has fs f.uri ≡ false) × OneBucket fs

receive_all-append :
    (ms ns : List Message) (e : Editor)
    → receive_all e (ms ++ ns) ≡ receive_all (receive_all e ms) ns
receive_all-append [] ns e = refl
receive_all-append (m ∷ ms) ns e = receive_all-append ms ns (receive e m)

after_current :
    (fs : DiagSet) (e : Editor) (uri : Bytes)
    → OneBucket fs
    → receive_all e (publish_current fs) uri
      ≡ (if diag_set_has fs uri then items_of fs uri else e uri)
unfolding publish_current diag_set_has items_of
after_current [] e uri _ = refl
after_current (f ∷ fs) e uri (one, rest) =
    let ih = after_current fs (receive e record { uri = f.uri; diagnostics = f.items }) uri rest in
    elim (Bool-cases (str_eq f.uri uri)) [
      | inl here ↦
          let gone : diag_set_has fs uri ≡ false =
            subst (λ (u : Bytes). diag_set_has fs u ≡ false) ((str_eq_iff f.uri uri).0 here) one in
          ground (arith, ih, here, gone)
      | inr other ↦ ground (arith, ih, other)
    ]

after_cleared :
    (current fs : DiagSet) (e : Editor) (uri : Bytes)
    → receive_all e (publish_cleared current fs) uri
      ≡ (if diag_set_has fs uri && not (diag_set_has current uri) then [] else e uri)
unfolding publish_cleared diag_set_has
after_cleared current [] e uri = refl
after_cleared current (f ∷ fs) e uri =
    let kept = after_cleared current fs e uri in
    let cleared = after_cleared current fs (receive e (publish_diagnostics f.uri)) uri in
    elim (Bool-cases (str_eq f.uri uri)) [
      | inl here ↦
          let same : diag_set_has current f.uri ≡ diag_set_has current uri =
            ap (diag_set_has current) ((str_eq_iff f.uri uri).0 here) in
          elim (Bool-cases (diag_set_has current f.uri)) [
            | inl has ↦ rw has (ground (arith, kept, here, has, same))
            | inr has ↦ rw has (ground (arith, cleared, here, has, same))
          ]
      | inr other ↦ elim (Bool-cases (diag_set_has current f.uri)) [
        | inl has ↦ rw has (ground (arith, kept, other))
        | inr has ↦ rw has (ground (arith, cleared, other))
      ]
    ]

str_eq_comm : (s t : Bytes) → str_eq s t ≡ str_eq t s
unfolding str_eq
str_eq_comm [] [] = refl
str_eq_comm [] (d ∷ ds) = refl
str_eq_comm (c ∷ cs) [] = refl
str_eq_comm (c ∷ cs) (d ∷ ds) = ground (arith, str_eq_comm cs ds)

items_of-has : (fs : DiagSet) (uri : Bytes) → diag_set_has fs uri ≡ false → items_of fs uri ≡ []
unfolding diag_set_has items_of
items_of-has [] uri h = refl
items_of-has (f ∷ fs) uri h = ground (arith, items_of-has fs uri, h)

-- If the editor shows what `previous` holds, and no URI has two buckets in `current`, then after the
-- messages it shows what `current` holds, for every URI.
pub receive_all-diag_set_publish :
    (current previous : DiagSet) (e : Editor)
    → OneBucket current
    → ((uri : Bytes) → e uri ≡ items_of previous uri)
    → (uri : Bytes) → receive_all e (diag_set_publish current previous) uri ≡ items_of current uri
receive_all-diag_set_publish current previous e one shows uri =
    let mid = receive_all e (publish_current current) in
    let first = after_current current e uri one in
    let all =
      ap (λ (k : Editor). k uri)
        (receive_all-append (publish_current current) (publish_cleared current previous) e)
      ∙ after_cleared current previous mid uri in
    let was = shows uri in
    elim (Bool-cases (diag_set_has current uri)) [
      | inl now ↦ ground (arith, all, first, now)
      | inr now ↦
          let nothing = items_of-has current uri now in
          elim (Bool-cases (diag_set_has previous uri)) [
            | inl before ↦ ground (arith, all, now, before, nothing)
            | inr before ↦
                ground
                  (arith, all, first, now, before, nothing, was, items_of-has previous uri before)
          ]
    ]

-- Adding a diagnostic appends it to the list of its URI and leaves the others.
pub items_of-diag_set_add :
    (s : DiagSet) (uri : Bytes) (d : Diagnostic) (u : Bytes)
    → items_of (diag_set_add s uri d) u
      ≡ (if str_eq uri u then items_of s u ++ (d ∷ []) else items_of s u)
unfolding items_of diag_set_add
items_of-diag_set_add [] uri d u = ground arith
items_of-diag_set_add (f ∷ fs) uri d u =
    let ih = items_of-diag_set_add fs uri d u in
    elim (Bool-cases (str_eq f.uri uri)) [
      | inl here ↦
          let same : str_eq f.uri u ≡ str_eq uri u =
            ap (λ (k : Bytes). str_eq k u) ((str_eq_iff f.uri uri).0 here) in
          rw here (ground (arith, same))
      | inr other ↦ elim (Bool-cases (str_eq uri u)) [
        | inl asked ↦
            let apart : str_eq f.uri u ≡ false =
              ap (str_eq f.uri) (sym ((str_eq_iff uri u).0 asked)) ∙ other in
            rw other (ground (arith, ih, asked, apart))
        | inr elsewhere ↦ rw other (ground (arith, ih, elsewhere))
      ]
    ]

diag_set_has-diag_set_add :
    (s : DiagSet) (uri : Bytes) (d : Diagnostic) (u : Bytes)
    → diag_set_has (diag_set_add s uri d) u ≡ (str_eq uri u || diag_set_has s u)
unfolding diag_set_has diag_set_add
diag_set_has-diag_set_add [] uri d u = refl
diag_set_has-diag_set_add (f ∷ fs) uri d u =
    let ih = diag_set_has-diag_set_add fs uri d u in
    elim (Bool-cases (str_eq f.uri uri)) [
      | inl here ↦
          let same : str_eq f.uri u ≡ str_eq uri u =
            ap (λ (k : Bytes). str_eq k u) ((str_eq_iff f.uri uri).0 here) in
          rw here (ground (arith, same))
      | inr other ↦ rw other (ground (arith, ih))
    ]

-- Adding a diagnostic keeps one bucket for each URI.
pub diag_set_add-OneBucket :
    (s : DiagSet) (uri : Bytes) (d : Diagnostic) → OneBucket s → OneBucket (diag_set_add s uri d)
unfolding diag_set_add diag_set_has
diag_set_add-OneBucket [] uri d one = (refl, tt)
diag_set_add-OneBucket (f ∷ fs) uri d (one, rest) = elim (Bool-cases (str_eq f.uri uri)) [
  | inl here ↦ rw here (one, rest)
  | inr other ↦
      let back : str_eq uri f.uri ≡ false = str_eq_comm uri f.uri ∙ other in
      rw other (
        diag_set_has-diag_set_add fs uri d f.uri ∙ ground (arith, back, one),
        diag_set_add-OneBucket fs uri d rest,
      )
]
