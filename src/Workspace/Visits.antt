-- ===== src/Workspace/Visits.antt =====
-- src/workspace.c: the array of visited documents, as a list of slots.
use taskjuggler_lsp.Base.{
  ℕ, zero, suc, ◌+◌, ◌≤◌, ◌<◌, ◌≡◌, inl, inr, refl, true, false, ◌||◌, ◌==◌, List, [], ◌∷◌, ◌++◌,
  arith, Each, Bool-cases, if◌then◌else◌, subst,
}
use taskjuggler_lsp.JobQueue.Chain.{Absent}
use taskjuggler_lsp.Workspace.{contains}

-- The slots below `n` that are not in the list.
abbrev pub free : ℕ → List ℕ → ℕ
free zero xs = 0
free (suc n) xs = (if contains xs n then 0 else 1) + free n xs

pub contains-append :
    (xs : List ℕ) (y x : ℕ) → contains (xs ++ (y ∷ [])) x ≡ (contains xs x || y == x)
contains-append [] y x = ground arith
contains-append (z ∷ xs) y x = ground (arith, contains-append xs y x)

free_behind : (n : ℕ) (xs : List ℕ) (y : ℕ) → n ≤ y → free n (xs ++ (y ∷ [])) ≡ free n xs
free_behind zero xs y h = refl
free_behind (suc n) xs y h = ground (arith, contains-append xs y n, free_behind n xs y)

pub free-append :
    (n : ℕ) (xs : List ℕ) (y : ℕ)
    → y < n
    → contains xs y ≡ false
    → suc (free n (xs ++ (y ∷ []))) ≡ free n xs
free-append zero xs y h new = absurd (omega arith)
free-append (suc n) xs y h new =
    ground (arith, contains-append xs y n, free_behind n xs y, free-append n xs y)

pub free_le : (n : ℕ) (xs : List ℕ) → free n xs ≤ n
free_le zero xs = omega arith
free_le (suc n) xs = ground (arith, free_le n xs)

pub contains-Absent : (xs : List ℕ) (x : ℕ) → contains xs x ≡ false → Absent x xs
contains-Absent [] x e = tt
contains-Absent (y ∷ ys) x e = (ground (arith, e), contains-Absent ys x (ground (arith, e)))

pub Each-weaken :
    (xs : List ℕ) (y : ℕ) (ps : List ℕ)
    → Each (λ x. contains xs x ≡ true) ps
    → Each (λ x. contains (xs ++ (y ∷ [])) x ≡ true) ps
Each-weaken xs y [] all = tt
Each-weaken xs y (p ∷ ps) (here, all) =
    (ground (arith, contains-append xs y p, here), Each-weaken xs y ps all)

pub Each-contains : (P : ℕ → Type 0) (xs : List ℕ) (x : ℕ) → Each P xs → contains xs x ≡ true → P x
Each-contains P [] x all e = absurd (ground (arith, e))
Each-contains P (y ∷ ys) x (here, all) e = elim (Bool-cases (y == x)) [
  | inl same ↦ subst P (ground (arith, same)) here
  | inr other ↦ Each-contains P ys x all (ground (arith, e, other))
]
