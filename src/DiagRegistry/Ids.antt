-- ===== src/DiagRegistry/Ids.antt =====
-- src/diag_worker.c: the array of workers as a map from project ids.
use taskjuggler_lsp.Base.{
  ℕ, suc, ◌≡◌, inl, inr, refl, sym, ◌∙◌, ap, subst, true, false, Option, none, some, List, [], ◌∷◌,
  ◌++◌, get_elem?, Bytes, str_eq, str_eq_iff, str_eq_refl, if◌then◌else◌, arith, Bool-cases,
  Option-cases,
}
use taskjuggler_lsp.DiagRegistry.{RegisteredWorker, registry_find, all_but_last, last_of}

abbrev pub lookup : List RegisteredWorker → Bytes → Option RegisteredWorker
lookup [] id = none
lookup (w ∷ ws) id = if str_eq w.project_id id then some w else lookup ws id

-- No two workers have the same project.
abbrev pub Apart : List RegisteredWorker → Type 0
Apart [] = Unit
Apart (w ∷ ws) = (lookup ws w.project_id ≡ none) × Apart ws

pub registry_find-none :
    (ws : List RegisteredWorker) (id : Bytes) → registry_find ws id ≡ none → lookup ws id ≡ none
unfolding registry_find
registry_find-none [] id e = refl
registry_find-none (w ∷ ws) id e = elim (Option-cases (registry_find ws id)) [
  | inl gone ↦ ground (arith, e, gone, registry_find-none ws id gone)
  | inr (j, found) ↦ absurd (ground (arith, e, found))
]

pub registry_find-some :
    (ws : List RegisteredWorker) (id : Bytes) (i : ℕ)
    → registry_find ws id ≡ some i
    → (w : RegisteredWorker) × (get_elem? ws i ≡ some w)
      × (lookup ws id ≡ some w)
      × (str_eq w.project_id id ≡ true)
unfolding registry_find
registry_find-some [] id i e = absurd (ground (arith, e))
registry_find-some (w ∷ ws) id i e = elim (Bool-cases (str_eq w.project_id id)) [
  | inl here ↦ let first : i ≡ 0 = ground (arith, e, here) in (w, rw first refl, rw here refl, here)
  | inr other ↦ elim (Option-cases (registry_find ws id)) [
    | inl gone ↦ absurd (ground (arith, e, gone, other))
    | inr (j, found) ↦
        let next : i ≡ suc j = ground (arith, e, other, found) in
        let (v, got, looked, named) = registry_find-some ws id j found in
        (v, rw next got, rw other looked, named)
  ]
]

pub str_eq_sym : (a b : Bytes) → str_eq a b ≡ str_eq b a
unfolding str_eq
str_eq_sym [] [] = refl
str_eq_sym [] (d ∷ b) = refl
str_eq_sym (c ∷ a) [] = refl
str_eq_sym (c ∷ a) (d ∷ b) = ground (arith, str_eq_sym a b)

pub lookup-append_self :
    (ws : List RegisteredWorker) (w : RegisteredWorker)
    → lookup ws w.project_id ≡ none
    → lookup (ws ++ (w ∷ [])) w.project_id ≡ some w
lookup-append_self [] w gone = rw (str_eq_refl w.project_id) refl
lookup-append_self (v ∷ ws) w gone = elim (Bool-cases (str_eq v.project_id w.project_id)) [
  | inl here ↦ absurd (ground (arith, gone, here))
  | inr other ↦ rw other (lookup-append_self ws w (ground (arith, gone, other)))
]

pub lookup-append_other :
    (ws : List RegisteredWorker) (w : RegisteredWorker) (id : Bytes)
    → str_eq w.project_id id ≡ false
    → lookup (ws ++ (w ∷ [])) id ≡ lookup ws id
lookup-append_other [] w id other = rw other refl
lookup-append_other (v ∷ ws) w id other = rw (lookup-append_other ws w id other) refl

lookup-append_none :
    (ws : List RegisteredWorker) (w : RegisteredWorker) (id : Bytes)
    → lookup (ws ++ (w ∷ [])) id ≡ none
    → (lookup ws id ≡ none) × (str_eq w.project_id id ≡ false)
lookup-append_none [] w id e = (refl, ground (arith, e))
lookup-append_none (v ∷ ws) w id e = elim (Bool-cases (str_eq v.project_id id)) [
  | inl here ↦ absurd (ground (arith, e, here))
  | inr other ↦
      let (gone, differs) = lookup-append_none ws w id (ground (arith, e, other)) in
      (rw other gone, differs)
]

pub Apart-append :
    (ws : List RegisteredWorker) (w : RegisteredWorker)
    → Apart ws
    → lookup ws w.project_id ≡ none
    → Apart (ws ++ (w ∷ []))
Apart-append [] w apart gone = (refl, tt)
Apart-append (v ∷ ws) w (first, apart) gone = elim (Bool-cases (str_eq v.project_id w.project_id)) [
  | inl here ↦ absurd (ground (arith, gone, here))
  | inr other ↦ (
    lookup-append_other ws w v.project_id (str_eq_sym w.project_id v.project_id ∙ other) ∙ first,
    Apart-append ws w apart (ground (arith, gone, other)),
  )
]

pub Apart-rotate :
    (ws : List RegisteredWorker) (w : RegisteredWorker) → Apart (ws ++ (w ∷ [])) → Apart (w ∷ ws)
Apart-rotate [] w apart = (refl, tt)
Apart-rotate (v ∷ ws) w (first, apart) =
    let (gone, differs) = lookup-append_none ws w v.project_id first in
    let (outside, rest) = Apart-rotate ws w apart in
    let other : str_eq v.project_id w.project_id ≡ false =
      str_eq_sym v.project_id w.project_id ∙ differs in
    (rw other outside, (gone, rest))

pub lookup-rotate :
    (ws : List RegisteredWorker) (w : RegisteredWorker) (id : Bytes)
    → Apart (w ∷ ws)
    → lookup (w ∷ ws) id ≡ lookup (ws ++ (w ∷ [])) id
lookup-rotate ws w id (gone, apart) = elim (Bool-cases (str_eq w.project_id id)) [
  | inl here ↦ rw here (
      sym (
        subst (λ (x : Bytes). lookup (ws ++ (w ∷ [])) x ≡ some w)
          ((str_eq_iff w.project_id id).0 here) (lookup-append_self ws w gone)))
  | inr other ↦ rw other (sym (lookup-append_other ws w id other))
]

pub all_but_last-last_of :
    (w : RegisteredWorker) (ws : List RegisteredWorker)
    → all_but_last w ws ++ (last_of w ws ∷ []) ≡ w ∷ ws
all_but_last-last_of w [] = refl
all_but_last-last_of w (v ∷ vs) =
    ap (λ (xs : List RegisteredWorker). w ∷ xs) (all_but_last-last_of v vs)
