-- ===== src/TokensDelta/Rows.antt =====
-- src/semantic_tokens_delta.c: how far the diff reaches in a round, in terms of the round before.
use taskjuggler_lsp.Base.{
  ℕ, zero, suc, ◌+◌, ◌-◌, ◌*◌, ◌≤◌, ◌<◌, ◌≡◌, ◌⊎◌, refl, min, Bool, true, false, List, ◌&&◌, ◌||◌,
  ◌==◌, ltb, not, if◌then◌else◌, length, arith, Bool-cases, inl, inr, dec_lt,
}
use taskjuggler_lsp.TokensDelta.{SemToken, equal_at, count_while, slide}

count_while_bounds :
    (test : ℕ → Bool) (rounds n : ℕ)
    → (n ≤ count_while test rounds n) × (count_while test rounds n ≤ n + rounds)
unfolding count_while
count_while_bounds test zero n = omega arith
count_while_bounds test (suc rounds) n = ground (arith, count_while_bounds test rounds (n + 1))

pub count_while-true :
    (test : ℕ → Bool) (rounds n k : ℕ) → n ≤ k → k < count_while test rounds n → test k ≡ true
unfolding count_while
count_while-true test zero n k h lt = absurd (omega arith)
count_while-true test (suc rounds) n k h lt = elim (Bool-cases (test n)) [
  | inr e ↦ absurd (omega (arith, stops e))
  | inl e ↦ elim (dec_lt n k) [
    | yes more ↦ count_while-true test rounds (n + 1) k (omega arith) (goes e)
    | no here ↦ let same : k ≡ n = omega arith in rw same e
  ]
]
  where
    stops : test n ≡ false → k < n
    stops e = rw (e, count_while) at lt

    goes : test n ≡ true → k < count_while test rounds (n + 1)
    goes e = rw (e, count_while) at lt

pub count_while-le : (test : ℕ → Bool) (rounds : ℕ) → count_while test rounds 0 ≤ rounds
count_while-le test rounds = omega (arith, count_while_bounds test rounds 0)

-- The choice between down and right, made on the row of the round before.
unfoldable pub goes_down : (ℕ → ℕ) → ℕ → ℕ → Bool
goes_down r d i = i == 0 || not (i == d) && ltb (r (i - 1)) (r i)

unfoldable pub edge : (ℕ → ℕ) → ℕ → ℕ → ℕ
unfolding goes_down
edge r d i = if goes_down r d i then r i else r (i - 1) + 1

-- Where an edge comes from, and that it is the further one of the two.
pub record Edge (r : ℕ → ℕ) (d i e : ℕ) : Type 0 where
  pub from : ((i ≤ d) × (e ≡ r i)) ⊎ ((0 < i) × (e ≡ r (i - 1) + 1))
  pub past_down : (d < i) ⊎ (r i ≤ e)
  pub past_right : (i ≡ 0) ⊎ (r (i - 1) + 1 ≤ e)

pub edge-Edge : (r : ℕ → ℕ) (d i : ℕ) → i ≤ suc d → Edge r d i (edge r (suc d) i)
unfolding edge
edge-Edge r d i h = record {
  from = ground arith;
  past_down = ground arith;
  past_right = ground arith;
}

module _ (a b : List SemToken) where
  pub slide-le : (x y : ℕ) → (slide a b x y ≤ length a - x) × (slide a b x y ≤ length b - y)
  unfolding slide
  slide-le x y = omega (
    arith,
    count_while-le (λ n. equal_at a (x + n) b (y + n)) (min (length a - x) (length b - y)),
  )

  pub slide-equal : (x y t : ℕ) → t < slide a b x y → equal_at a (x + t) b (y + t) ≡ true
  unfolding slide
  slide-equal x y t h =
      count_while-true (λ n. equal_at a (x + n) b (y + n)) (min (length a - x) (length b - y)) 0 t
        (omega arith) h

  -- How far round `suc d` reaches on its `i`-th diagonal.
  unfoldable pub next : (ℕ → ℕ) → ℕ → ℕ → ℕ
  next r d i = let e = edge r (suc d) i in e + slide a b e (e + suc d - 2 * i)

  abbrev pub Ends : ℕ → ℕ → Type 0
  Ends x y = (length a ≤ x) × (length b ≤ y)

  -- What holds of the row of a round that does not find the end. The second coordinate on the `i`-th
  -- diagonal is `r i + d - 2 * i`. Where a diagonal has run past an end, the next one is not far
  -- behind.
  pub record IsRow (d : ℕ) (r : ℕ → ℕ) : Type 0 where
    pub in_grid : (i : ℕ) → i ≤ d → 2 * i ≤ r i + d
    pub far : (i : ℕ) → i ≤ d → d ≤ r i + (r i + d - 2 * i)
    pub goes_on : (i : ℕ) → i ≤ d → ¬ Ends (r i) (r i + d - 2 * i)
    pub past_a : (i : ℕ) → i ≤ d → length a < r i → (0 < i) × (r i ≤ r (i - 1) + 1)
    pub past_b : (i : ℕ) → i ≤ d → length b < r i + d - 2 * i → (i < d) × (r i + 1 ≤ r (i + 1))

  -- A point that a round reaches from a row: an edge, and a slide from it.
  pub record Point (r : ℕ → ℕ) (d i x : ℕ) : Type 0 where
    pub start : ℕ
    pub steps : ℕ
    pub is_edge : Edge r d i start
    pub reaches : x ≡ start + steps
    pub below_a : steps ≤ length a - start
    pub below_b : steps ≤ length b - (start + suc d - 2 * i)

  pub next-Point : (r : ℕ → ℕ) (d i : ℕ) → i ≤ suc d → Point r d i (next r d i)
  unfolding next
  next-Point r d i h =
      let e = edge r (suc d) i in
      record {
        start = e;
        steps = slide a b e (e + suc d - 2 * i);
        is_edge = edge-Edge r d i h;
        reaches = refl;
        below_a = (slide-le e _).0;
        below_b = (slide-le e _).1;
      }

  pub Point-in_grid :
      {r : ℕ → ℕ} {d i x : ℕ}
      → IsRow d r
      → i ≤ suc d
      → Point r d i x
      → (2 * i ≤ x + suc d) × (suc d ≤ x + (x + suc d - 2 * i))
  Point-in_grid {r} {d} {i} {x} row h p = elim p.is_edge.from [
    | inl down ↦ omega (arith, p.reaches, row.in_grid i down.0, row.far i down.0)
    | inr right ↦
        omega (arith, p.reaches, row.in_grid (i - 1) (omega arith), row.far (i - 1) (omega arith))
  ]
