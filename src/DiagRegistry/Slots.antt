-- ===== src/DiagRegistry/Slots.antt =====
-- src/diag_worker.c: changes of the array of workers as changes of a map from project ids.
use taskjuggler_lsp.Base.{
  ℕ, zero, suc, ◌<◌, ◌≡◌, inl, inr, refl, sym, ◌∙◌, ap, subst, false, Option, none, some, List, [],
  ◌∷◌, ◌++◌, length, get_elem?, set, Bytes, str_eq, str_eq_refl, arith, Bool-cases,
}
use taskjuggler_lsp.DiagRegistry.{RegisteredWorker, all_but_last, last_of, registry_remove_at}
use taskjuggler_lsp.DiagRegistry.Ids.{
  lookup, Apart, str_eq_sym, lookup-append_self, lookup-append_other, Apart-append, Apart-rotate,
  lookup-rotate, all_but_last-last_of,
}

-- What an array has after a change of the worker of one project.
pub record Updated (ws ws' : List RegisteredWorker) (id : Bytes) (o : Option RegisteredWorker)
    : Type 0 where
  pub here : lookup ws' id ≡ o
  pub others : (id' : Bytes) → str_eq id id' ≡ false → lookup ws' id' ≡ lookup ws id'
  pub apart : Apart ws'

pub registry_add-Updated :
    (ws : List RegisteredWorker) (w : RegisteredWorker)
    → Apart ws
    → lookup ws w.project_id ≡ none
    → Updated ws (ws ++ (w ∷ [])) w.project_id (some w)
registry_add-Updated ws w apart gone = record {
  here = lookup-append_self ws w gone;
  others = λ id other. lookup-append_other ws w id other;
  apart = Apart-append ws w apart gone;
}

front-Updated :
    (w : RegisteredWorker) (ws : List RegisteredWorker)
    → Apart (w ∷ ws)
    → Updated (w ∷ ws) (registry_remove_at (w ∷ ws) 0) w.project_id none
unfolding registry_remove_at
front-Updated w [] apart = record { here = refl; others = λ id other. rw other refl; apart = tt }
front-Updated w (v ∷ vs) (gone, apart) =
    let turned : Apart (last_of v vs ∷ all_but_last v vs) =
      Apart-rotate (all_but_last v vs) (last_of v vs)
        (subst Apart (sym (all_but_last-last_of v vs)) apart) in
    let same : (id : Bytes) → lookup (last_of v vs ∷ all_but_last v vs) id ≡ lookup (v ∷ vs) id =
      λ id.
        lookup-rotate (all_but_last v vs) (last_of v vs) id turned
        ∙ ap (λ (xs : List RegisteredWorker). lookup xs id) (all_but_last-last_of v vs) in
    record {
      here = same w.project_id ∙ gone;
      others = λ id other. same id ∙ rw other refl;
      apart = turned;
    }

-- A change behind a worker of another project.
behind-Updated :
    (v : RegisteredWorker) (ws ws' : List RegisteredWorker) (id : Bytes)
    (o : Option RegisteredWorker)
    → lookup ws v.project_id ≡ none
    → str_eq v.project_id id ≡ false
    → Updated ws ws' id o
    → Updated (v ∷ ws) (v ∷ ws') id o
behind-Updated v ws ws' id o gone differs u = record {
  here = rw differs u.here;
  others = λ id' other. rw (u.others id' other) refl;
  apart = (u.others v.project_id (str_eq_sym id v.project_id ∙ differs) ∙ gone, u.apart);
}

-- The worker at an index behind has another project.
pub get_elem?-differs :
    (ws : List RegisteredWorker) (i : ℕ) (w : RegisteredWorker) (id : Bytes)
    → lookup ws id ≡ none
    → get_elem? ws i ≡ some w
    → str_eq id w.project_id ≡ false
get_elem?-differs [] i w id gone got = absurd (ground (arith, got))
get_elem?-differs (v ∷ ws) zero w id gone got =
    let same : v ≡ w = ground (arith, got) in
    str_eq_sym id w.project_id
    ∙ subst (λ (x : RegisteredWorker). str_eq x.project_id id ≡ false) same (ground (arith, gone))
get_elem?-differs (v ∷ ws) (suc i) w id gone got =
    get_elem?-differs ws i w id (ground (arith, gone)) got

pub registry_remove_at-Updated :
    (ws : List RegisteredWorker) (i : ℕ) (w : RegisteredWorker)
    → Apart ws
    → get_elem? ws i ≡ some w
    → Updated ws (registry_remove_at ws i) w.project_id none
unfolding registry_remove_at
registry_remove_at-Updated [] i w apart got = absurd (ground (arith, got))
registry_remove_at-Updated (v ∷ ws) zero w apart got =
    let same : v ≡ w = ground (arith, got) in
    subst
      (λ (x : RegisteredWorker). Updated (v ∷ ws) (registry_remove_at (v ∷ ws) 0) x.project_id none)
      same (front-Updated v ws apart)
registry_remove_at-Updated (v ∷ []) (suc i) w apart got = absurd (ground (arith, got))
registry_remove_at-Updated (v ∷ u ∷ ws) (suc i) w (gone, apart) got =
    behind-Updated v (u ∷ ws) (registry_remove_at (u ∷ ws) i) w.project_id none gone
      (get_elem?-differs (u ∷ ws) i w v.project_id gone got)
      (registry_remove_at-Updated (u ∷ ws) i w apart got)

pub set-Updated :
    (ws : List RegisteredWorker) (i : ℕ) (w w' : RegisteredWorker)
    → Apart ws
    → get_elem? ws i ≡ some w
    → w'.project_id ≡ w.project_id
    → Updated ws (set ws i w') w.project_id (some w')
set-Updated [] i w w' apart got named = absurd (ground (arith, got))
set-Updated (v ∷ ws) zero w w' (gone, apart) got named =
    let first : v ≡ w = ground (arith, got) in
    let same : v.project_id ≡ w.project_id = ap (λ (x : RegisteredWorker). x.project_id) first in
    record {
      here = rw (named, str_eq_refl w.project_id) refl;
      others = λ id other. rw (named, same, other) refl;
      apart = (rw (named, ← same) gone, apart);
    }
set-Updated (v ∷ ws) (suc i) w w' (gone, apart) got named =
    behind-Updated v ws (set ws i w') w.project_id (some w') gone
      (get_elem?-differs ws i w v.project_id gone got) (set-Updated ws i w w' apart got named)

pub registry_remove_at-before :
    (ws : List RegisteredWorker) (i k : ℕ)
    → k < i
    → get_elem? (registry_remove_at ws i) k ≡ get_elem? ws k
unfolding registry_remove_at
registry_remove_at-before [] i k h = refl
registry_remove_at-before (w ∷ ws) zero k h = absurd (omega (arith, h))
registry_remove_at-before (w ∷ []) (suc i) zero h = refl
registry_remove_at-before (w ∷ []) (suc i) (suc k) h = refl
registry_remove_at-before (w ∷ v ∷ ws) (suc i) zero h = refl
registry_remove_at-before (w ∷ v ∷ ws) (suc i) (suc k) h =
    registry_remove_at-before (v ∷ ws) i k (omega (arith, h))

length-all_but_last :
    (w : RegisteredWorker) (ws : List RegisteredWorker) → length (all_but_last w ws) ≡ length ws
length-all_but_last w [] = refl
length-all_but_last w (v ∷ vs) = omega (arith, length-all_but_last v vs)

pub length-registry_remove_at :
    (ws : List RegisteredWorker) (i : ℕ)
    → i < length ws
    → suc (length (registry_remove_at ws i)) ≡ length ws
unfolding registry_remove_at
length-registry_remove_at [] i h = absurd (omega (arith, h))
length-registry_remove_at (w ∷ []) zero h = omega arith
length-registry_remove_at (w ∷ v ∷ vs) zero h = omega (arith, length-all_but_last v vs)
length-registry_remove_at (w ∷ []) (suc i) h = absurd (omega (arith, h))
length-registry_remove_at (w ∷ v ∷ vs) (suc i) h =
    omega (arith, length-registry_remove_at (v ∷ vs) i (omega (arith, h)))

pub lookup-get_elem? :
    (ws : List RegisteredWorker) (i : ℕ) (w : RegisteredWorker)
    → Apart ws
    → get_elem? ws i ≡ some w
    → lookup ws w.project_id ≡ some w
lookup-get_elem? [] i w apart got = absurd (ground (arith, got))
lookup-get_elem? (v ∷ ws) zero w apart got =
    let first : v ≡ w = ground (arith, got) in rw (← first, str_eq_refl v.project_id) refl
lookup-get_elem? (v ∷ ws) (suc i) w (gone, apart) got =
    rw (get_elem?-differs ws i w v.project_id gone got) (lookup-get_elem? ws i w apart got)

pub lookup-index :
    (ws : List RegisteredWorker) (id : Bytes) (w : RegisteredWorker)
    → lookup ws id ≡ some w
    → (i : ℕ) × (get_elem? ws i ≡ some w)
lookup-index [] id w e = absurd (ground (arith, e))
lookup-index (v ∷ ws) id w e = elim (Bool-cases (str_eq v.project_id id)) [
  | inl here ↦ (0, ground (arith, e, here))
  | inr other ↦ let (i, got) = lookup-index ws id w (ground (arith, e, other)) in (suc i, got)
]
