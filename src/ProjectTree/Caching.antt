-- ===== src/ProjectTree/Caching.antt =====
-- src/project_tree.c: the memo cells never change what a dependency resolves to.
use taskjuggler_lsp.Base.{
  ℕ, zero, suc, ◌<◌, ◌≡◌, ◌≢◌, ◌⊎◌, inl, inr, refl, ◌∙◌, sym, ap, Option, none, some, List, [], ◌∷◌,
  get_elem?, set, length, length-set, get_elem?-set_self, get_elem?-set_ne, arith, ℕ_discrete,
  Option-cases,
}
use taskjuggler_lsp.ProjectTree.{
  Memo, ProjectDep, Nodes, resolve_fresh, to_publish, with_memo, publish, project_dep_resolve,
}
use taskjuggler_lsp.ProjectTree.Shape.{SameTree, SameTree-trans, resolve_fresh_same}

-- A memo cell is empty or holds what the dependency resolves to.
abbrev pub Coherent : Nodes → ℕ → Type 0
Coherent h root =
    (o i : ℕ) (dep : ProjectDep)
    → get_elem? (h o).dependencies i ≡ some dep
    → (dep.resolved ≡ Memo.unresolved) ⊎ (dep.resolved ≡ to_publish (resolve_fresh h o dep root))

-- What a call of `project_dep_resolve` leaves: the tree, each dependency but its memo, and memos
-- that are right.
pub record Keeps (root : ℕ) (h h' : Nodes) : Type 0 where
  pub tree : SameTree h h'
  pub deps :
      (o i : ℕ) (dep : ProjectDep)
      → get_elem? (h o).dependencies i ≡ some dep
      → (cell : Memo) × (get_elem? (h' o).dependencies i ≡ some (with_memo dep cell))
  pub coherent : Coherent h' root
  pub counts : (o : ℕ) → length (h' o).dependencies ≡ length (h o).dependencies

pub get_elem?-lt {ℓ} :
    {A : Type ℓ} (xs : List A) (i : ℕ) (x : A) → get_elem? xs i ≡ some x → i < length xs
get_elem?-lt [] i x e = absurd (ground (arith, e))
get_elem?-lt (y ∷ ys) zero x e = omega arith
get_elem?-lt (y ∷ ys) (suc i) x e = omega (arith, get_elem?-lt ys i x e)

publish-SameTree :
    (h : Nodes) (o i : ℕ) (dep : ProjectDep) (cell : Memo) → SameTree h (publish h o i dep cell)
publish-SameTree h o i dep cell = record {
  keywords = λ n. ground arith;
  ids = λ n. ground arith;
  parents = λ n. ground arith;
  child_lists = λ n. ground arith;
  uris = λ n. ground arith;
}

-- A dependency after a publication: the one published, or an old one.
publish-get :
    (h : Nodes) (o i : ℕ) (dep : ProjectDep) (cell : Memo) (o' i' : ℕ)
    → get_elem? (h o).dependencies i ≡ some dep
    → ((o' ≡ o)
        × (i' ≡ i)
        × (get_elem? (publish h o i dep cell o').dependencies i' ≡ some (with_memo dep cell)))
      ⊎ (get_elem? (publish h o i dep cell o').dependencies i' ≡ get_elem? (h o').dependencies i')
publish-get h o i dep cell o' i' e =
    let here : (publish h o i dep cell o).dependencies
        ≡ set (h o).dependencies i (with_memo dep cell) =
      ground arith in
    elim (ℕ_discrete o' o) [
      | no other ↦ inr (ground (arith, other))
      | yes eo ↦ elim (ℕ_discrete i' i) [
        | no other ↦ inr (
            rw (eo, here)
              (get_elem?-set_ne (h o).dependencies (with_memo dep cell) (λ s. other (sym s))))
        | yes ei ↦ inl (
          eo,
          ei,
          rw (eo, ei, here)
              (get_elem?-set_self (h o).dependencies i (with_memo dep cell)
                (get_elem?-lt (h o).dependencies i dep e)),
        )
      ]
    ]

publish-length :
    (h : Nodes) (o i : ℕ) (dep : ProjectDep) (cell : Memo) (n : ℕ)
    → length (publish h o i dep cell n).dependencies ≡ length (h n).dependencies
publish-length h o i dep cell n =
    ground (arith, length-set (h n).dependencies i (with_memo dep cell))

publish-Keeps :
    (h : Nodes) (o i : ℕ) (dep : ProjectDep) (root : ℕ)
    → Coherent h root
    → get_elem? (h o).dependencies i ≡ some dep
    → Keeps root h (publish h o i dep (to_publish (resolve_fresh h o dep root)))
publish-Keeps h o i dep root coh e =
    let cell = to_publish (resolve_fresh h o dep root) in
    let tree = publish-SameTree h o i dep cell in
    record {
      tree = tree;
      deps = λ o' i' dep' e'. elim (publish-get h o i dep cell o' i' e) [
        | inl (eo, ei, got) ↦
            let same : dep' ≡ dep = ground (arith, rw (eo, ei) at e', e) in (cell, rw same got)
        | inr kept ↦ (dep'.resolved, kept ∙ e')
      ];
      coherent = λ o' i' dep' e'. elim (publish-get h o i dep cell o' i' e) [
        | inl (eo, ei, got) ↦
            let same : dep' ≡ with_memo dep cell = ground (arith, got, e') in
            inr (rw (same, eo) (ap to_publish (resolve_fresh_same tree o dep root cell)))
        | inr kept ↦ elim (coh o' i' dep' (sym kept ∙ e')) [
          | inl empty ↦ inl empty
          | inr full ↦
              inr (full ∙ ap to_publish (resolve_fresh_same tree o' dep' root dep'.resolved))
        ]
      ];
      counts = λ n. publish-length h o i dep cell n;
    }

pub refl-Keeps : (h : Nodes) (root : ℕ) → Coherent h root → Keeps root h h
refl-Keeps h root coh = record {
  tree = record {
    keywords = λ n. refl;
    ids = λ n. refl;
    parents = λ n. refl;
    child_lists = λ n. refl;
    uris = λ n. refl;
  };
  deps = λ o i dep e. (dep.resolved, e);
  coherent = coh;
  counts = λ o. refl;
}

pub Keeps-trans :
    {root : ℕ} {h h' h'' : Nodes} → Keeps root h h' → Keeps root h' h'' → Keeps root h h''
Keeps-trans k l = record {
  tree = SameTree-trans k.tree l.tree;
  deps = λ o i dep e. let (cell, e') = k.deps o i dep e in l.deps o i (with_memo dep cell) e';
  coherent = l.coherent;
  counts = λ o. l.counts o ∙ k.counts o;
}

-- What a memo stands for.
abbrev result : Memo → Option ℕ
result Memo.unresolved = none
result Memo.resolved_null = none
result (Memo.resolved_to n) = some n

result-to_publish : (r : Option ℕ) → result (to_publish r) ≡ r
result-to_publish none = refl
result-to_publish (some n) = refl

unresolved-to_publish : (r : Option ℕ) → Memo.unresolved ≢ to_publish r
unresolved-to_publish none = ground arith
unresolved-to_publish (some n) = ground arith

-- A full memo is returned as it is.
from_memo :
    (h : Nodes) (o i : ℕ) (dep : ProjectDep) (root : ℕ) (m : Memo)
    → get_elem? (h o).dependencies i ≡ some dep
    → dep.resolved ≡ m
    → m ≢ Memo.unresolved
    → project_dep_resolve h o i root ≡ (h, result m)
unfolding project_dep_resolve
from_memo h o i dep root Memo.unresolved e em full = absurd (full refl)
from_memo h o i dep root Memo.resolved_null e em full = rw (project_dep_resolve, e, em) refl
from_memo h o i dep root (Memo.resolved_to n) e em full = rw (project_dep_resolve, e, em) refl

from_nothing :
    (h : Nodes) (o i : ℕ) (dep : ProjectDep) (root : ℕ)
    → get_elem? (h o).dependencies i ≡ some dep
    → dep.resolved ≡ Memo.unresolved
    → project_dep_resolve h o i root
      ≡ (publish h o i dep (to_publish (resolve_fresh h o dep root)), resolve_fresh h o dep root)
unfolding project_dep_resolve resolve_fresh
from_nothing h o i dep root e em = rw (project_dep_resolve, e, em) refl

pub project_dep_resolve_lem :
    (h : Nodes) (o i : ℕ) (dep : ProjectDep) (root : ℕ)
    → Coherent h root
    → get_elem? (h o).dependencies i ≡ some dep
    → ((project_dep_resolve h o i root).1 ≡ resolve_fresh h o dep root)
      × Keeps root h (project_dep_resolve h o i root).0
project_dep_resolve_lem h o i dep root coh e = elim (coh o i dep e) [
  | inl empty ↦ rw (from_nothing h o i dep root e empty) (refl, publish-Keeps h o i dep root coh e)
  | inr full ↦
      rw
        (from_memo h o i dep root (to_publish (resolve_fresh h o dep root)) e full
          (λ m. unresolved-to_publish (resolve_fresh h o dep root) (sym m)))
        (result-to_publish (resolve_fresh h o dep root), refl-Keeps h root coh)
]

no_dependency :
    (h : Nodes) (o i root : ℕ)
    → get_elem? (h o).dependencies i ≡ none
    → project_dep_resolve h o i root ≡ (h, none)
unfolding project_dep_resolve
no_dependency h o i root e = rw (project_dep_resolve, e) refl

-- The store after calls on the given owners and indices.
abbrev pub after_calls : Nodes → ℕ → List (ℕ × ℕ) → Nodes
after_calls h root [] = h
after_calls h root ((o, i) ∷ calls) = after_calls (project_dep_resolve h o i root).0 root calls

call-Keeps :
    (h : Nodes) (o i root : ℕ) → Coherent h root → Keeps root h (project_dep_resolve h o i root).0
call-Keeps h o i root coh = elim (Option-cases (get_elem? (h o).dependencies i)) [
  | inl e ↦ rw (no_dependency h o i root e) (refl-Keeps h root coh)
  | inr (dep, e) ↦ (project_dep_resolve_lem h o i dep root coh e).1
]

-- In a store whose memos are right, as they are when all are empty, a dependency resolves to the
-- same node after any calls: to the one that its path and its bangs name, not depending on memos.
pub project_dep_resolve-after_calls :
    (h : Nodes) (root : ℕ) (calls : List (ℕ × ℕ)) (o i : ℕ) (dep : ProjectDep)
    → Coherent h root
    → get_elem? (h o).dependencies i ≡ some dep
    → (project_dep_resolve (after_calls h root calls) o i root).1 ≡ resolve_fresh h o dep root
project_dep_resolve-after_calls h root [] o i dep coh e =
    (project_dep_resolve_lem h o i dep root coh e).0
project_dep_resolve-after_calls h root ((o₁, i₁) ∷ calls) o i dep coh e =
    let kept = call-Keeps h o₁ i₁ root coh in
    let (cell, e') = kept.deps o i dep e in
    project_dep_resolve-after_calls (project_dep_resolve h o₁ i₁ root).0 root calls o i
      (with_memo dep cell) kept.coherent e'
    ∙ sym (resolve_fresh_same kept.tree o dep root cell)
