-- ===== src/PathUtil/Canonical.antt =====
-- src/pathutil.c: what becomes of a URI that is normalised again.
use taskjuggler_lsp.Base.{
  ℕ, ◌<◌, Bool, true, false, ◌&&◌, ◌≡◌, ◌⊎◌, sym, ◌∙◌, ap, some, none, Option, [], ◌∷◌, List, inl,
  inr, arith, ◌==◌, Bool-cases, Option-cases, Each, Each-append, Bytes, AreBytes, IsByte, c_string,
}
use taskjuggler_lsp.PathUtil.{
  is_xdigit, hex_value, decode, is_absolute, lexical_normalize_path, canonical_path, normalize_uri,
  uri_to_path, path_to_uri, percent_decode, scheme, strip_prefix,
}
use taskjuggler_lsp.PathUtil.Percent.{uri_to_path-path_to_uri}
use taskjuggler_lsp.PathUtil.Normalize.{
  split, names, render, normal_form, lexical_normalize_path-eq-normal_form,
}
use taskjuggler_lsp.PathUtil.Lexical.{split-Each, names-Each, lexical_normalize_path_idem}

render-AreBytes : (wrote : Bool) (ss : List Bytes) → Each AreBytes ss → AreBytes (render wrote ss)
unfolding render
render-AreBytes wrote [] h = tt
render-AreBytes true (s ∷ ss) h =
    (omega arith, Each-append IsByte s _ h.0 (render-AreBytes true ss h.1))
render-AreBytes false (s ∷ ss) h = Each-append IsByte s _ h.0 (render-AreBytes true ss h.1)

lexical-AreBytes : (p : Bytes) → AreBytes p → AreBytes (lexical_normalize_path p)
lexical-AreBytes p h = rw (lexical_normalize_path-eq-normal_form p) (
    unfold normal_form in
    let body =
      render-AreBytes false (names (split p))
        (names-Each AreBytes (split p) (split-Each IsByte p h)) in
    elim (Bool-cases (is_absolute p)) [ inl e ↦ rw e (omega arith, body) | inr e ↦ rw e body ])

hex_value-lt : (c : ℕ) → is_xdigit c ≡ true → hex_value c < 16
unfolding is_xdigit hex_value
hex_value-lt c h = ground arith

decode-lt : (p : Bytes) → AreBytes p → Each (λ c. c < 256) (decode p)
unfolding decode
decode-lt [] h = tt
decode-lt (c ∷ []) h = (h.0.1, tt)
decode-lt (c ∷ a ∷ []) h = (h.0.1, (h.1.0.1, tt))
decode-lt (c ∷ a ∷ b ∷ r) h =
    let plain = decode-lt (a ∷ b ∷ r) h.1 in
    let rest = decode-lt r h.1.1.1 in
    elim (Bool-cases (c == b'%' && (is_xdigit a && is_xdigit b))) [
      | inl e ↦
          rw (e, decode)
            (omega (arith, hex_value-lt a (ground arith), hex_value-lt b (ground arith)), rest)
      | inr e ↦ rw (e, decode) (h.0.1, plain)
    ]

c_string-IsByte : (p : Bytes) → Each (λ c. c < 256) p → AreBytes (c_string p)
unfolding c_string
c_string-IsByte [] h = tt
c_string-IsByte (c ∷ cs) h = elim (Bool-cases (c == 0)) [
  | inl e ↦ rw e tt
  | inr e ↦ rw e ((ground arith, h.0), c_string-IsByte cs h.1)
]

strip_prefix-AreBytes : (p s r : Bytes) → AreBytes s → strip_prefix p s ≡ some r → AreBytes r
unfolding strip_prefix
strip_prefix-AreBytes [] s r h e = let same : s ≡ r = cc in rw same at h
strip_prefix-AreBytes (c ∷ p) [] r h e = cc
strip_prefix-AreBytes (c ∷ p) (d ∷ s) r h e = strip_prefix-AreBytes p s r h.1 (ground arith)

uri_to_path-AreBytes :
    (uri path : Bytes) → AreBytes uri → uri_to_path (some uri) ≡ some path → AreBytes path
unfolding uri_to_path percent_decode
uri_to_path-AreBytes uri path h e = elim (Option-cases (strip_prefix scheme uri)) [
  | inl missing ↦ cc (rw (missing, uri_to_path) at e)
  | inr (rest, found) ↦
      let same : c_string (decode rest) ≡ path = ground arith in
      rw same at (
        c_string-IsByte (decode rest)
          (decode-lt rest (strip_prefix-AreBytes scheme uri rest h found)))
]

-- The path does not resolve, but its lexical form does.
abbrev pub LexicallyResolves : (Bytes → Option Bytes) → Bytes → Bytes → Type 0
LexicallyResolves realpath path canon =
    (realpath path ≡ none) × (realpath (lexical_normalize_path path) ≡ some canon)

-- `realpath` returns C strings, and resolves what it returned to itself.
module _ (realpath : Bytes → Option Bytes)
    (resolves : (path canon : Bytes)
      → realpath path ≡ some canon
      → AreBytes canon × (realpath canon ≡ some canon)) where
  canonical_path-some :
      (path canon : Bytes) → realpath path ≡ some canon → canonical_path realpath path ≡ canon
  unfolding canonical_path
  canonical_path-some path canon e = rw (e, canonical_path)

  canonical_path-none :
      (path : Bytes)
      → realpath path ≡ none
      → canonical_path realpath path ≡ lexical_normalize_path path
  unfolding canonical_path
  canonical_path-none path e = rw (e, canonical_path)

  canonical_path-AreBytes : (path : Bytes) → AreBytes path → AreBytes (canonical_path realpath path)
  canonical_path-AreBytes path h = elim (Option-cases (realpath path)) [
    | inl e ↦ rw (canonical_path-none path e) (lexical-AreBytes path h)
    | inr (canon, e) ↦ rw (canonical_path-some path canon e) (resolves path canon e).0
  ]

  canonical_path-again :
      (path : Bytes)
      → (canonical_path realpath (canonical_path realpath path) ≡ canonical_path realpath path)
        ⊎ ((canon : Bytes) × LexicallyResolves realpath path canon
            × (canonical_path realpath (canonical_path realpath path) ≡ canon))
  canonical_path-again path = elim (Option-cases (realpath path)) [
    | inr (canon, e) ↦ inl (
        rw (canonical_path-some path canon e)
          (canonical_path-some canon canon (resolves path canon e).1))
    | inl e ↦ elim (Option-cases (realpath (lexical_normalize_path path))) [
      | inl gone ↦ inl (
          rw (canonical_path-none path e, canonical_path-none _ gone)
            (lexical_normalize_path_idem path))
      | inr (canon, found) ↦
          inr
            (canon, (e, found), rw (canonical_path-none path e) (canonical_path-some _ canon found))
    ]
  ]

  normalize_uri-file :
      (uri path : Bytes)
      → uri_to_path (some uri) ≡ some path
      → normalize_uri realpath uri ≡ path_to_uri (canonical_path realpath path)
  unfolding normalize_uri
  normalize_uri-file uri path e = rw (e, normalize_uri)

  normalize_uri-other :
      (uri : Bytes) → uri_to_path (some uri) ≡ none → normalize_uri realpath uri ≡ uri
  unfolding normalize_uri
  normalize_uri-other uri e = rw (e, normalize_uri)

  normalize_uri-twice :
      (uri path : Bytes)
      → AreBytes path
      → uri_to_path (some uri) ≡ some path
      → normalize_uri realpath (normalize_uri realpath uri)
        ≡ path_to_uri (canonical_path realpath (canonical_path realpath path))
  normalize_uri-twice uri path h e =
      let canon = canonical_path realpath path in
      ap (normalize_uri realpath) (normalize_uri-file uri path e)
      ∙ normalize_uri-file (path_to_uri canon) canon
          (uri_to_path-path_to_uri canon (canonical_path-AreBytes path h))

  -- The canonical form of a URI is its own canonical form, unless the URI is that of a path that
  -- `realpath` does not resolve although it resolves the path's lexical form: then the second
  -- normalisation gives the URI of what that resolves to, which is its own canonical form.
  pub normalize_uri_settles :
      (uri : Bytes)
      → AreBytes uri
      → (normalize_uri realpath (normalize_uri realpath uri) ≡ normalize_uri realpath uri)
        ⊎ ((path : Bytes) × (canon : Bytes) × (uri_to_path (some uri) ≡ some path)
            × LexicallyResolves realpath path canon
            × (normalize_uri realpath (normalize_uri realpath uri) ≡ path_to_uri canon)
            × (normalize_uri realpath (path_to_uri canon) ≡ path_to_uri canon))
  normalize_uri_settles uri h = elim (Option-cases (uri_to_path (some uri))) [
    | inl e ↦ inl (ap (normalize_uri realpath) (normalize_uri-other uri e))
    | inr (path, e) ↦
        let bytes = uri_to_path-AreBytes uri path h e in
        let twice = normalize_uri-twice uri path bytes e in
        elim (canonical_path-again path) [
          | inl same ↦ inl (twice ∙ ap path_to_uri same ∙ sym (normalize_uri-file uri path e))
          | inr (canon, found, again) ↦
              let (canon_bytes, fixed) = resolves (lexical_normalize_path path) canon found.1 in
              inr (
                path,
                canon,
                e,
                found,
                twice ∙ ap path_to_uri again,
                normalize_uri-file (path_to_uri canon) canon
                      (uri_to_path-path_to_uri canon canon_bytes)
                    ∙ ap path_to_uri (canonical_path-some canon canon fixed),
              )
        ]
  ]
