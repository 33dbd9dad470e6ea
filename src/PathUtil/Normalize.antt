-- ===== src/PathUtil/Normalize.antt =====
-- src/pathutil.c: the lexical normal form against splitting at '/', and the canonical URI.
use taskjuggler_lsp.Base.{
  ℕ, zero, suc, ◌+◌, ◌≤◌, Bool, true, false, ◌&&◌, ◌≡◌, refl, sym, ◌∙◌, ap, [], ◌∷◌, ◌++◌, List,
  append-nil, append_assoc, inl, inr, arith, length, ◌==◌, if◌then◌else◌, Bool-cases, Bytes,
}
use taskjuggler_lsp.PathUtil.{
  skip_slashes, span_segment, normalize_loop, is_absolute, lexical_normalize_path,
}

-- The pieces of a path between its slashes.
unfoldable pub push : ℕ → List Bytes → List Bytes
push c [] = (c ∷ []) ∷ []
push c (s ∷ ss) = (c ∷ s) ∷ ss

unfoldable pub split : Bytes → List Bytes
split [] = [] ∷ []
split (c ∷ cs) = let rest = split cs in if c == b'/' then [] ∷ rest else push c rest

-- The pieces that name something: neither empty nor ".".
unfoldable pub is_skipped : Bytes → Bool
is_skipped [] = true
is_skipped (c ∷ []) = c == b'.'
is_skipped (c ∷ d ∷ s) = false

unfoldable pub names : List Bytes → List Bytes
names [] = []
names (s ∷ ss) = if is_skipped s then names ss else s ∷ names ss

-- The segments joined by slashes, with one in front where a segment stands before them.
unfoldable pub render : Bool → List Bytes → Bytes
render wrote [] = []
render wrote (s ∷ ss) = (if wrote then b'/' ∷ [] else []) ++ (s ++ render true ss)

unfoldable pub normal_form : Bytes → Bytes
unfolding split names render is_skipped push
normal_form path = (if is_absolute path then b'/' ∷ [] else []) ++ render false (names (split path))

rests : Bytes → List Bytes
rests [] = []
rests (c ∷ r) = split r

split-span : (cs : Bytes) → split cs ≡ (span_segment cs).0 ∷ rests (span_segment cs).1
unfolding split span_segment rests push
split-span [] = refl
split-span (c ∷ cs) = ground (arith, split-span cs)

names-rest : (cs : Bytes) → names (split (span_segment cs).1) ≡ names (rests (span_segment cs).1)
unfolding split span_segment rests names is_skipped
names-rest [] = refl
names-rest (c ∷ cs) = ground (arith, names-rest cs)

length-span : (cs : Bytes) → length (span_segment cs).0 + length (span_segment cs).1 ≡ length cs
unfolding span_segment
length-span [] = omega arith
length-span (c ∷ cs) = ground (arith, length-span cs)

names-skip : (cs : Bytes) → names (split (skip_slashes cs)) ≡ names (split cs)
unfolding skip_slashes split names is_skipped
names-skip [] = refl
names-skip (c ∷ cs) = ground (arith, names-skip cs)

length-skip : (cs : Bytes) → length (skip_slashes cs) ≤ length cs
unfolding skip_slashes
length-skip [] = omega arith
length-skip (c ∷ cs) = ground (arith, length-skip cs)

skip-head : (cs : Bytes) (c : ℕ) (r : Bytes) → skip_slashes cs ≡ c ∷ r → (c == b'/') ≡ false
unfolding skip_slashes
skip-head [] c r h = ground arith
skip-head (d ∷ cs) c r h = ground (arith, skip-head cs c r)

dot-test : (c : ℕ) (s : Bytes) → (length (c ∷ s) == 1 && c == b'.') ≡ is_skipped (c ∷ s)
unfolding is_skipped
dot-test c [] = ground arith
dot-test c (d ∷ s) = ground arith

-- What the loop adds to `out` from `rest` on.
abbrev Renders : ℕ → Type 0
Renders fuel =
    (rest : Bytes) (wrote : Bool) (out : Bytes)
    → length rest ≤ fuel
    → normalize_loop fuel rest wrote out ≡ out ++ render wrote (names (split rest))

span-cons :
    (c : ℕ) (cs : Bytes)
    → (c == b'/') ≡ false
    → span_segment (c ∷ cs) ≡ (c ∷ (span_segment cs).0, (span_segment cs).1)
unfolding span_segment
span-cons c cs h = rw h

-- The segment in front, as `names` sees it.
names-cons :
    (c : ℕ) (cs : Bytes)
    → (c == b'/') ≡ false
    → names (split (c ∷ cs)) ≡ (
        if length (c ∷ (span_segment cs).0) == 1 && c == b'.'
        then names (split (span_segment cs).1)
        else (c ∷ (span_segment cs).0) ∷ names (split (span_segment cs).1))
unfolding split names push
names-cons c cs h = rw (h, split-span cs, dot-test c (span_segment cs).0, names-rest cs)

names-of-skip : (rest t : Bytes) → skip_slashes rest ≡ t → names (split rest) ≡ names (split t)
names-of-skip rest t e = sym (names-skip rest) ∙ ap (λ u. names (split u)) e

-- One round of the loop at a segment.
normalize_loop-segment :
    (fuel : ℕ) (rest : Bytes) (wrote : Bool) (out : Bytes) (c : ℕ) (cs : Bytes)
    → skip_slashes rest ≡ c ∷ cs
    → (c == b'/') ≡ false
    → normalize_loop (suc fuel) rest wrote out ≡ (
        if length (c ∷ (span_segment cs).0) == 1 && c == b'.'
        then normalize_loop fuel (span_segment cs).1 wrote out
        else normalize_loop fuel
            (span_segment cs).1
            true
            (out ++ ((if wrote then b'/' ∷ [] else []) ++ (c ∷ (span_segment cs).0))))
unfolding normalize_loop
normalize_loop-segment fuel rest wrote out c cs e plain =
    rw (e, normalize_loop, span-cons c cs plain) (ground arith)

normalize_loop-round :
    (fuel : ℕ)
    → Renders fuel
    → (rest : Bytes) (wrote : Bool) (out : Bytes) (t : Bytes) → skip_slashes rest ≡ t
    → length rest ≤ suc fuel
    → normalize_loop (suc fuel) rest wrote out ≡ out ++ render wrote (names (split rest))
unfolding render
normalize_loop-round fuel ih rest wrote out [] e h =
    rw (names-of-skip rest [] e) (
      unfold normalize_loop split names is_skipped in rw (e, normalize_loop) (sym (append-nil out)))
normalize_loop-round fuel ih rest wrote out (c ∷ cs) e h =
    let plain = skip-head rest c cs e in
    let short : length (span_segment cs).1 ≤ fuel =
      omega (arith, length-span cs, length-skip rest, ap length e) in
    rw
      (
        normalize_loop-segment fuel rest wrote out c cs e plain,
        names-of-skip rest (c ∷ cs) e,
        names-cons c cs plain,
      )
      (elim (Bool-cases (length (c ∷ (span_segment cs).0) == 1 && c == b'.')) [
        | inl dot ↦ rw dot (ih (span_segment cs).1 wrote out short)
        | inr name ↦ rw name (ih (span_segment cs).1 true _ short ∙ simp append_assoc)
      ])

normalize_loop-render : (fuel : ℕ) → Renders fuel
unfolding normalize_loop split names is_skipped render
normalize_loop-render zero [] wrote out h = sym (append-nil out)
normalize_loop-render zero (c ∷ cs) wrote out h = absurd (omega arith)
normalize_loop-render (suc fuel) rest wrote out h =
    normalize_loop-round fuel (normalize_loop-render fuel) rest wrote out (skip_slashes rest) refl h

-- The lexical normal form is the segments that are neither empty nor ".", joined by single slashes
-- behind the leading slash of an absolute path: the loop ends with its bytes all read.
pub lexical_normalize_path-eq-normal_form :
    (path : Bytes) → lexical_normalize_path path ≡ normal_form path
unfolding lexical_normalize_path normal_form
lexical_normalize_path-eq-normal_form path =
    normalize_loop-render (length path) path false (if is_absolute path then b'/' ∷ [] else [])
      (omega arith)
