-- ===== src/References/Collect.antt =====
-- src/references.c and src/document_highlight.c: what the walk over a project collects.
use taskjuggler_lsp.Base.{
  ℕ, zero, suc, ◌≡◌, refl, ◌∙◌, sym, ap, some, List, [], ◌∷◌, ◌++◌, append_assoc, append-nil,
  if◌then◌else◌, length, get_elem?, drop, arith, inl, inr, Bool-cases,
}
use taskjuggler_lsp.ProjectTree.{ProjectDep, Nodes, resolve_fresh, with_memo, project_dep_resolve}
use taskjuggler_lsp.ProjectTree.Shape.{resolve_fresh_same}
use taskjuggler_lsp.ProjectTree.Caching.{
  Coherent, Keeps, Keeps-trans, refl-Keeps, project_dep_resolve_lem,
}
use taskjuggler_lsp.References.{
  Emitter, is_node, push_if, range_at, collect_deps, collect_children, collect_own,
  collect_in_subtree, refs_emitter, build_references_json,
}

-- The nodes `ns` with all nodes below them are `visited`, each node before those below it and each
-- list of children in order. They stand on `height` levels at most.
pub data Walks (h : Nodes) : ℕ → List ℕ → List ℕ → Type 0 where
  end : {height : ℕ} → Walks h height [] []
  visit :
      {height : ℕ} {ns below rest : List ℕ} (n : ℕ)
      → Walks h height (h n).children below
      → Walks h (suc height) ns rest
      → Walks h (suc height) (n ∷ ns) (n ∷ (below ++ rest))

drop-cons {ℓ} :
    {A : Type ℓ} (xs : List A) (i : ℕ) (x : A) (rest : List A)
    → drop i xs ≡ x ∷ rest
    → (get_elem? xs i ≡ some x) × (drop (suc i) xs ≡ rest)
drop-cons [] zero x rest e = absurd (ground (arith, e))
drop-cons [] (suc i) x rest e = absurd (ground (arith, e))
drop-cons (y ∷ ys) zero x rest e = (ground (arith, e), ground (arith, e))
drop-cons (y ∷ ys) (suc i) x rest e = drop-cons ys i x rest e

module _ {A : Type 0} (e : Emitter A) (wanted root : ℕ) where
  -- What the dependencies of a node emit that resolve, with no memo, to the wanted node.
  abbrev pub dep_hits : Nodes → ℕ → List ProjectDep → List A
  dep_hits h n [] = []
  dep_hits h n (dep ∷ deps) =
      push_if (is_node (resolve_fresh h n dep root) wanted)
        (e.emit (h n).source_uri dep.source_range) (dep_hits h n deps)

  abbrev pub node_hits : Nodes → ℕ → List A
  node_hits h n = if e.visits (h n).source_uri then dep_hits h n (h n).dependencies else []

  abbrev pub hits : Nodes → List ℕ → List A
  hits h [] = []
  hits h (n ∷ ns) = node_hits h n ++ hits h ns

  hits-append : (h : Nodes) (ns ms : List ℕ) → hits h (ns ++ ms) ≡ hits h ns ++ hits h ms
  hits-append h [] ms = refl
  hits-append h (n ∷ ns) ms =
      ap (λ (r : List A). node_hits h n ++ r) (hits-append h ns ms)
      ∙ sym (append_assoc (node_hits h n) (hits h ns) (hits h ms))

  -- What part of the walk gives, from a store that calls have reached from `h`.
  abbrev Collects : Nodes → List A → Nodes × List A → Type 0
  Collects h expected got = (got.1 ≡ expected) × Keeps root h got.0

  kept_range :
      (h h' : Nodes) (n i : ℕ) (dep : ProjectDep)
      → Keeps root h h'
      → get_elem? (h n).dependencies i ≡ some dep
      → range_at h' n i ≡ dep.source_range
  kept_range h h' n i dep k got = let (cell, got') = k.deps n i dep got in rw (got', range_at) refl

  collect_deps-Collects :
      (h h' : Nodes) (n : ℕ) (deps : List ProjectDep) (i : ℕ)
      → Keeps root h h'
      → drop i (h n).dependencies ≡ deps
      → Collects h (dep_hits h n deps) (collect_deps e wanted root (length deps) h' n i)
  unfolding collect_deps
  collect_deps-Collects h h' n [] i k d = (refl, k)
  collect_deps-Collects h h' n (dep ∷ deps) i k d =
      let (got, later) = drop-cons (h n).dependencies i dep deps d in
      let (cell, got') = k.deps n i dep got in
      let (found, call) =
        project_dep_resolve_lem h' n i (with_memo dep cell) root k.coherent got' in
      let k₁ = Keeps-trans k call in
      let h₁ = (project_dep_resolve h' n i root).0 in
      let (rest, k₂) = collect_deps-Collects h h₁ n deps (suc i) k₁ later in
      let target : (project_dep_resolve h' n i root).1 ≡ resolve_fresh h n dep root =
        found ∙ sym (resolve_fresh_same k.tree n dep root cell) in
      (rw (target, rest, ← k₁.tree.uris n, kept_range h h₁ n i dep k₁ got) refl, k₂)

  collect_own-Collects :
      (h h' : Nodes) (n : ℕ)
      → Keeps root h h'
      → Collects h (node_hits h n) (collect_own e wanted root h' n)
  unfolding collect_own
  collect_own-Collects h h' n k = elim (Bool-cases (e.visits (h n).source_uri)) [
    | inl here ↦
        rw (← k.tree.uris n, here, k.counts n)
          (collect_deps-Collects h h' n (h n).dependencies 0 k refl)
    | inr other ↦ rw (← k.tree.uris n, other) (refl, k)
  ]

  collect_children-Collects :
      (h h' : Nodes) {height : ℕ} {ns visited : List ℕ}
      → Walks h height ns visited
      → Keeps root h h'
      → Collects h
          (hits h visited)
          (collect_children e wanted root (collect_in_subtree e wanted root height) h' ns)
  unfolding collect_children collect_in_subtree
  collect_children-Collects h h' Walks.end k = (refl, k)
  collect_children-Collects h h' (Walks.visit {height} {ns} {below} {rest} n w ws) k =
      let (own, k₁) = collect_own-Collects h h' n k in
      let h₁ = (collect_own e wanted root h' n).0 in
      let (under, k₂) = collect_children-Collects h h₁ w k₁ in
      let walk = collect_in_subtree e wanted root height in
      let h₂ = (collect_children e wanted root walk h₁ (h n).children).0 in
      let (after, k₃) = collect_children-Collects h h₂ ws k₂ in
      (
        rw (← k₁.tree.child_lists n, own, under, after, hits-append h below rest)
            (append_assoc (node_hits h n) (hits h below) (hits h rest)),
        rw (← k₁.tree.child_lists n) k₃,
      )

  pub collect_in_subtree_lem :
      (h : Nodes) (height n : ℕ) (visited : List ℕ)
      → Walks h (suc height) (n ∷ []) visited
      → Coherent h root
      → (collect_in_subtree e wanted root (suc height) h n).1 ≡ hits h visited
  unfolding collect_children
  collect_in_subtree_lem h height n visited w coherent =
      sym (append-nil (collect_in_subtree e wanted root (suc height) h n).1)
      ∙ (collect_children-Collects h h w (refl-Keeps h root coherent)).0

-- In a project whose memos are right and whose tree has at most as many levels as there is fuel, the
-- references to a task are, in the order of the nodes and of the dependencies in each, all dependencies
-- that resolve to it, memos not used; each gives the node's document and the dependency's range.
pub build_references_json-hits :
    (h : Nodes) (height root wanted : ℕ) (visited : List ℕ)
    → Walks h (suc height) (root ∷ []) visited
    → Coherent h root
    → (build_references_json (suc height) h (some root) (some wanted)).1
      ≡ some (hits refs_emitter wanted root h visited)
unfolding build_references_json
build_references_json-hits h height root wanted visited w coherent =
    ap some (collect_in_subtree_lem refs_emitter wanted root h height root visited w coherent)
