-- ===== src/Tj3/Staging/Relative.antt =====
-- src/tj3.c: each path is the common directory with the relative path behind it.
use taskjuggler_lsp.Base.{
  ℕ, zero, suc, ◌≤◌, ◌≡◌, ◌⊎◌, inl, inr, refl, sym, ◌∙◌, ap, ap₂, subst, Bool, true, false, ◌==◌,
  List, [], ◌∷◌, ◌++◌, map, Bytes, get_elem?, drop, take, length, take-append-drop, arith,
  Bool-cases, Each,
}
use taskjuggler_lsp.Tj3.Staging.{
  agree, shared, is_slash_at, back_to_slash, common_dir_len, after_last_slash, or_base_name,
  relpath_of, assign_member_relpaths,
}

abbrev pub ends_in_slash : Bytes → Bool
ends_in_slash [] = false
ends_in_slash (c ∷ []) = c == 47
ends_in_slash (c ∷ d ∷ cs) = ends_in_slash (d ∷ cs)

-- The paths start with the same bytes.
abbrev Shares : ℕ → Bytes → Bytes → Type 0
Shares k p q = take k p ≡ take k q

agree-Shares : (k len : ℕ) (p q : Bytes) → k ≤ agree len p q → Shares k p q
unfolding agree
agree-Shares zero len p q h = refl
agree-Shares (suc k) zero p q h = absurd (omega (arith, h))
agree-Shares (suc k) (suc len) [] q h = absurd (omega (arith, h))
agree-Shares (suc k) (suc len) (c ∷ p) [] h = absurd (omega (arith, h))
agree-Shares (suc k) (suc len) (c ∷ p) (d ∷ q) h = elim (Bool-cases (d == c)) [
  | inl same ↦
      ap₂ (λ (x : ℕ) (xs : Bytes). x ∷ xs) (ground (arith, same))
        (agree-Shares k len p q (ground (arith, h, same)))
  | inr other ↦ absurd (ground (arith, h, other))
]

agree-le : (len : ℕ) (p q : Bytes) → agree len p q ≤ len
unfolding agree
agree-le zero p q = omega arith
agree-le (suc len) [] q = omega arith
agree-le (suc len) (c ∷ p) [] = omega arith
agree-le (suc len) (c ∷ p) (d ∷ q) = ground (arith, agree-le len p q)

shared-le : (p : Bytes) (ps : List Bytes) (len : ℕ) → shared p ps len ≤ len
unfolding shared
shared-le p [] len = omega arith
shared-le p (q ∷ qs) len = omega (arith, shared-le p qs (agree len p q), agree-le len p q)

shared-Shares :
    (k : ℕ) (p : Bytes) (ps : List Bytes) (len : ℕ) → k ≤ shared p ps len → Each (Shares k p) ps
unfolding shared
shared-Shares k p [] len h = tt
shared-Shares k p (q ∷ qs) len h = (
  agree-Shares k len p q (omega (arith, h, shared-le p qs (agree len p q))),
  shared-Shares k p qs (agree len p q) h,
)

back_to_slash-le : (len : ℕ) (p : Bytes) → back_to_slash len p ≤ len
unfolding back_to_slash
back_to_slash-le zero p = omega arith
back_to_slash-le (suc len) p = ground (arith, back_to_slash-le len p)

-- The length is 0 or that of a directory with its '/'.
abbrev pub IsDirLength : Bytes → ℕ → Type 0
IsDirLength p k = (k ≡ 0) ⊎ ((j : ℕ) × (k ≡ suc j) × (is_slash_at (get_elem? p j) ≡ true))

back_to_slash-IsDirLength : (len : ℕ) (p : Bytes) → IsDirLength p (back_to_slash len p)
unfolding back_to_slash
back_to_slash-IsDirLength zero p = inl refl
back_to_slash-IsDirLength (suc len) p = elim (Bool-cases (is_slash_at (get_elem? p len))) [
  | inl slash ↦ inr (len, rw slash refl, slash)
  | inr other ↦
      subst (IsDirLength p) (sym (rw (back_to_slash, other) refl)) (back_to_slash-IsDirLength len p)
]

get_elem?-take : (xs : Bytes) (j : ℕ) → get_elem? (take (suc j) xs) j ≡ get_elem? xs j
get_elem?-take [] j = refl
get_elem?-take (x ∷ xs) zero = refl
get_elem?-take (x ∷ xs) (suc j) = get_elem?-take xs j

ends_in_slash-at :
    (q : Bytes) (j : ℕ)
    → is_slash_at (get_elem? q j) ≡ true
    → drop (suc j) q ≡ []
    → ends_in_slash q ≡ true
ends_in_slash-at [] j slash end = absurd (ground (arith, slash))
ends_in_slash-at (c ∷ []) zero slash end = slash
ends_in_slash-at (c ∷ d ∷ cs) zero slash end = absurd (ground (arith, end))
ends_in_slash-at (c ∷ []) (suc j) slash end = absurd (ground (arith, slash))
ends_in_slash-at (c ∷ d ∷ cs) (suc j) slash end = ends_in_slash-at (d ∷ cs) j slash end

relpath_of-eq :
    (k : ℕ) (p q rest : Bytes)
    → Shares k p q
    → IsDirLength p k
    → ends_in_slash q ≡ false
    → drop k q ≡ rest
    → take k p ++ relpath_of k q ≡ q
unfolding after_last_slash
relpath_of-eq k p q (c ∷ rest) shares dir file e =
    ap₂ (λ (x y : Bytes). x ++ or_base_name q y) shares e
    ∙ ap (λ (x : Bytes). take k q ++ x) (sym e)
    ∙ take-append-drop k q
relpath_of-eq k p q [] shares (inl none_shared) file e =
    let q_nil : q ≡ [] = subst (λ (n : ℕ). drop n q ≡ []) none_shared e in
    subst (λ (n : ℕ). take n p ++ relpath_of n q ≡ q) (sym none_shared)
      (subst (λ (x : Bytes). relpath_of 0 x ≡ x) (sym q_nil) refl)
relpath_of-eq k p q [] shares (inr (j, is, slash)) file e =
    let there : is_slash_at (get_elem? q j) ≡ true =
      ap is_slash_at (
        sym (get_elem?-take q j)
        ∙ ap (λ (xs : Bytes). get_elem? xs j)
            (subst (λ (n : ℕ). take n q ≡ take n p) is (sym shares))
        ∙ get_elem?-take p j)
      ∙ slash in
    absurd
      (ground (arith, file, ends_in_slash-at q j there (subst (λ (n : ℕ). drop n q ≡ []) is e)))

all_relpaths-eq :
    (k : ℕ) (p : Bytes) (ps : List Bytes)
    → IsDirLength p k
    → Each (Shares k p) ps
    → Each (λ q. ends_in_slash q ≡ false) ps
    → map (λ rel. take k p ++ rel) (map (relpath_of k) ps) ≡ ps
all_relpaths-eq k p [] dir shares files = refl
all_relpaths-eq k p (q ∷ qs) dir (share, shares) (file, files) =
    ap₂ (λ (x : Bytes) (xs : List Bytes). x ∷ xs)
      (relpath_of-eq k p q (drop k q) share dir file refl) (all_relpaths-eq k p qs dir shares files)

abbrev pub first_path : List Bytes → Bytes
first_path [] = []
first_path (p ∷ ps) = p

-- The common directory is empty or ends in '/'; and if no path ends in '/', each is the common
-- directory with its relative path behind it.
pub assign_member_relpaths-paths :
    (paths : List Bytes)
    → Each (λ q. ends_in_slash q ≡ false) paths
    → IsDirLength (first_path paths) (common_dir_len paths)
      × (map
            (λ rel. take (common_dir_len paths) (first_path paths) ++ rel)
            (assign_member_relpaths paths)
          ≡ paths)
unfolding assign_member_relpaths common_dir_len
assign_member_relpaths-paths [] files = (inl refl, refl)
assign_member_relpaths-paths (p ∷ ps) files =
    let len = shared p ps (length p) in
    let dir = back_to_slash-IsDirLength len p in
    (
      dir,
      all_relpaths-eq (back_to_slash len p) p (p ∷ ps) dir
          (refl, shared-Shares (back_to_slash len p) p ps (length p) (back_to_slash-le len p))
          files,
    )
