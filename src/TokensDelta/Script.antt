-- ===== src/TokensDelta/Script.antt =====
-- src/semantic_tokens_delta.c: what a list of kinds means, and the tokens behind equal places.
use taskjuggler_lsp.Base.{
  ℕ, zero, suc, ◌+◌, ◌<◌, ◌≡◌, List, [], ◌∷◌, length, arith, refl, ◌∙◌, true, some, ap, sym,
  get_elem?, drop, Option-cases, inl, inr,
}
use taskjuggler_lsp.TokensDelta.{
  SemToken, Kind, snake, delete, insert, tokens_equal, equal_at, push_snakes,
}

-- `ks` leads from the tokens `xs` to the tokens `ys`.
abbrev pub Transforms : List Kind → List SemToken → List SemToken → Type 0
Transforms [] xs ys = (xs ≡ []) × (ys ≡ [])
Transforms (snake ∷ r) xs ys =
    (s : SemToken) × (xs' : List SemToken) × (ys' : List SemToken) × (xs ≡ s ∷ xs')
    × (ys ≡ s ∷ ys')
    × Transforms r xs' ys'
Transforms (delete ∷ r) xs ys =
    (s : SemToken) × (xs' : List SemToken) × (xs ≡ s ∷ xs') × Transforms r xs' ys
Transforms (insert ∷ r) xs ys =
    (s : SemToken) × (ys' : List SemToken) × (ys ≡ s ∷ ys') × Transforms r xs ys'

pub tokens_equal-eq : (s t : SemToken) → tokens_equal s t ≡ true → s ≡ t
unfolding tokens_equal
tokens_equal-eq s t h = ground arith

-- A token and what is behind it.
pub drop-get_elem? {ℓ} :
    {A : Type ℓ} (xs : List A) (i : ℕ) (x : A)
    → get_elem? xs i ≡ some x
    → drop i xs ≡ x ∷ drop (i + 1) xs
drop-get_elem? [] i x h = ground arith
drop-get_elem? (y ∷ ys) zero x h = ground arith
drop-get_elem? (y ∷ ys) (suc i) x h = ground (arith, drop-get_elem? ys i x h)

pub drop-lt {ℓ} :
    {A : Type ℓ} (xs : List A) (i : ℕ) → i < length xs → (x : A) × (drop i xs ≡ x ∷ drop (i + 1) xs)
drop-lt [] i h = absurd (omega arith)
drop-lt (y ∷ ys) zero h = (y, refl)
drop-lt (y ∷ ys) (suc i) h = let (x, e) = drop-lt ys i (omega arith) in (x, ground (arith, e))

pub equal_at-drop :
    (a : List SemToken) (i : ℕ) (b : List SemToken) (j : ℕ)
    → equal_at a i b j ≡ true
    → (s : SemToken) × (drop i a ≡ s ∷ drop (i + 1) a) × (drop j b ≡ s ∷ drop (j + 1) b)
unfolding equal_at
equal_at-drop a i b j h = elim (Option-cases (get_elem? a i)) [
  | inl e ↦ absurd (ground (arith, e, h))
  | inr (s, e) ↦ elim (Option-cases (get_elem? b j)) [
    | inl e' ↦ absurd (ground (arith, e, e', h))
    | inr (t, e') ↦
        let same : s ≡ t = tokens_equal-eq s t (rw (equal_at, e, e') at h) in
        (s, drop-get_elem? a i s e, drop-get_elem? b j s (e' ∙ ap some (sym same)))
  ]
]

add_zero : (x : ℕ) → x + 0 ≡ x
add_zero x = omega arith

add-suc : (x n : ℕ) → x + suc n ≡ x + n + 1
add-suc x n = omega arith

pub Transforms-push_snakes :
    (a b : List SemToken) (x y n : ℕ) (raw : List Kind)
    → ((t : ℕ) → t < n → equal_at a (x + t) b (y + t) ≡ true)
    → Transforms raw (drop (x + n) a) (drop (y + n) b)
    → Transforms (push_snakes n raw) (drop x a) (drop y b)
unfolding push_snakes
Transforms-push_snakes a b x y zero raw h behind = rw (add_zero x, add_zero y) at behind
Transforms-push_snakes a b x y (suc n) raw h behind =
    let (s, ea, eb) = equal_at-drop a (x + n) b (y + n) (h n (omega arith)) in
    Transforms-push_snakes a b x y n (snake ∷ raw) (λ t lt. h t (omega arith))
      (s, drop (x + n + 1) a, drop (y + n + 1) b, ea, eb, rw (add-suc x n, add-suc y n) at behind)
