-- ===== src/Snapshots/Balance.antt =====
-- src/query_context.c: each acquire and release keeps the counts equal to the references.
use taskjuggler_lsp.Base.{
  ℕ, zero, suc, ◌+◌, ◌-◌, ◌==◌, ◌≤◌, ◌<◌, ◌≡◌, refl, Bool, true, false, Option, none, some, List,
  [], ◌∷◌, ◌++◌, length, get_elem?, set, if◌then◌else◌, arith,
}
use taskjuggler_lsp.Snapshots.{
  ok, Counts, put, docsnap_new, docsnap_acquire, docsnap_release, WsCell,
}

abbrev pub total {ℓ} : {A : Type ℓ} → (A → ℕ) → List A → ℕ
total f [] = 0
total f (x ∷ xs) = f x + total f xs

pub total-set {ℓ} :
    {A : Type ℓ} (f : A → ℕ) (xs : List A) (i : ℕ) (x y : A)
    → get_elem? xs i ≡ some x
    → total f (set xs i y) + f x ≡ total f xs + f y
total-set f [] i x y e = absurd (ground (arith, e))
total-set f (z ∷ xs) zero x y e = let same : z ≡ x = ground (arith, e) in rw same (omega arith)
total-set f (z ∷ xs) (suc i) x y e = omega (arith, total-set f xs i x y e)

pub total-append {ℓ} :
    {A : Type ℓ} (f : A → ℕ) (xs : List A) (y : A) → total f (xs ++ (y ∷ [])) ≡ total f xs + f y
total-append f [] y = omega arith
total-append f (x ∷ xs) y = omega (arith, total-append f xs y)

pub total-le {ℓ} :
    {A : Type ℓ} (f : A → ℕ) (xs : List A) (i : ℕ) (x : A)
    → get_elem? xs i ≡ some x
    → f x ≤ total f xs
total-le f [] i x e = absurd (ground (arith, e))
total-le f (z ∷ xs) zero x e = let same : z ≡ x = ground (arith, e) in rw (← same) (omega arith)
total-le f (z ∷ xs) (suc i) x e = omega (arith, total-le f xs i x e)

-- 1 if the pointer is to the object.
abbrev pub points : Option ℕ → ℕ → ℕ
points none a = 0
points (some b) a = if b == a then 1 else 0

abbrev pub occurs : List ℕ → ℕ → ℕ
occurs [] a = 0
occurs (b ∷ bs) a = points (some b) a + occurs bs a

abbrev pub cell_refs : WsCell → ℕ → ℕ
cell_refs c a = if c.refcount == 0 then 0 else occurs c.snaps a

-- The references to a document snapshot from the workspace snapshots that are not freed.
abbrev pub held_in : List WsCell → ℕ → ℕ
held_in cells a = total (λ c. cell_refs c a) cells

abbrev pub refcount_of : List WsCell → ℕ → ℕ
refcount_of [] w = 0
refcount_of (c ∷ cs) zero = c.refcount
refcount_of (c ∷ cs) (suc w) = refcount_of cs w

pub refcount_of-get :
    (cells : List WsCell) (w : ℕ)
    → 0 < refcount_of cells w
    → (c : WsCell) × (get_elem? cells w ≡ some c) × (refcount_of cells w ≡ c.refcount)
refcount_of-get [] w h = absurd (omega (arith, h))
refcount_of-get (c ∷ cs) zero h = (c, refl, refl)
refcount_of-get (c ∷ cs) (suc w) h = refcount_of-get cs w h

pub refcount_of-set :
    (cells : List WsCell) (w v : ℕ) (c c' : WsCell)
    → get_elem? cells w ≡ some c
    → refcount_of (set cells w c') v ≡ (if w == v then c'.refcount else refcount_of cells v)
refcount_of-set [] w v c c' e = absurd (ground (arith, e))
refcount_of-set (x ∷ cells) zero zero c c' e = refl
refcount_of-set (x ∷ cells) zero (suc v) c c' e = ground arith
refcount_of-set (x ∷ cells) (suc w) zero c c' e = ground arith
refcount_of-set (x ∷ cells) (suc w) (suc v) c c' e =
    ground (arith, refcount_of-set cells w v c c' e)

pub refcount_of-append :
    (cells : List WsCell) (c : WsCell) (v : ℕ)
    → refcount_of (cells ++ (c ∷ [])) v
      ≡ refcount_of cells v + (if length cells == v then c.refcount else 0)
refcount_of-append [] c zero = ground arith
refcount_of-append [] c (suc v) = ground arith
refcount_of-append (x ∷ cells) c zero = ground arith
refcount_of-append (x ∷ cells) c (suc v) = ground (arith, refcount_of-append cells c v)

-- The counts are the references: `R a` to a document snapshot and `H w` to a workspace snapshot from
-- elsewhere, and those in the workspace snapshots.
pub record Balanced (R H : ℕ → ℕ) (h : Counts) (cells : List WsCell) : Type 0 where
  pub refs : (w : ℕ) → refcount_of cells w ≡ H w
  pub counts : (a : ℕ) → h.count a ≡ R a + held_in cells a
  pub fresh : (a : ℕ) → h.next ≤ a → h.count a ≡ 0

pub Balanced-same :
    {R R' H H' : ℕ → ℕ} {h : Counts} {cells : List WsCell}
    → Balanced R H h cells
    → ((a : ℕ) → R a ≡ R' a)
    → ((w : ℕ) → H w ≡ H' w)
    → Balanced R' H' h cells
Balanced-same b eR eH = record {
  refs = λ w. omega (arith, b.refs w, eH w);
  counts = λ a. omega (arith, b.counts a, eR a);
  fresh = b.fresh;
}

pub docsnap_new-Balanced :
    {R H : ℕ → ℕ} {cells : List WsCell} (h : Counts) (parsed : Bool)
    → Balanced R H h cells
    → Balanced (λ a. R a + points (docsnap_new h parsed).1 a) H (docsnap_new h parsed).0 cells
unfolding docsnap_new
docsnap_new-Balanced h false b = Balanced-same b (λ a. omega arith) (λ w. refl)
docsnap_new-Balanced h true b = record {
  refs = b.refs;
  counts = λ a. ground (arith, b.counts a, b.fresh h.next);
  fresh = λ a le. ground (arith, b.fresh a);
}

pub docsnap_acquire-Balanced :
    {R H : ℕ → ℕ} {cells : List WsCell} (h : Counts) (o : Option ℕ)
    → Balanced R H h cells
    → ((a : ℕ) → 0 < points o a → 0 < R a)
    → (h' : Counts) × (docsnap_acquire h o ≡ ok h') × Balanced (λ a. R a + points o a) H h' cells
unfolding docsnap_acquire
docsnap_acquire-Balanced h none b live = (h, refl, Balanced-same b (λ a. omega arith) (λ w. refl))
docsnap_acquire-Balanced h (some a) b live =
    let used : 0 < h.count a = ground (arith, live a, b.counts a) in
    (
      put h a (suc (h.count a)),
      ground (arith, used),
      record {
        refs = b.refs;
        counts = λ c. ground (arith, b.counts c);
        fresh = λ c le. ground (arith, b.fresh c, used);
      },
    )

pub docsnap_release-Balanced :
    {R H : ℕ → ℕ} {cells : List WsCell} (h : Counts) (o : Option ℕ)
    → Balanced (λ a. R a + points o a) H h cells
    → (h' : Counts) × (docsnap_release h o ≡ ok h') × Balanced R H h' cells
unfolding docsnap_release
docsnap_release-Balanced h none b = (h, refl, Balanced-same b (λ a. omega arith) (λ w. refl))
docsnap_release-Balanced h (some a) b =
    let used : 0 < h.count a = ground (arith, b.counts a) in
    (
      put h a (h.count a - 1),
      ground (arith, used),
      record {
        refs = b.refs;
        counts = λ c. ground (arith, b.counts c, used);
        fresh = λ c le. ground (arith, b.fresh c, used);
      },
    )
