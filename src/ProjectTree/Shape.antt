-- ===== src/ProjectTree/Shape.antt =====
-- src/project_tree.c: what a dependency resolves to depends on the tree and not on the memo cells.
use taskjuggler_lsp.Base.{
  ℕ, zero, suc, ◌≡◌, inl, inr, refl, ◌∙◌, sym, ap, ap₂, fun_ext, ◌==◌, Bool, ◌&&◌, if◌then◌else◌,
  Option, none, some, List, [], ◌∷◌, Bytes, Option-cases,
}
use taskjuggler_lsp.ProjectTree.{
  Memo, ProjectDep, Nodes, first, has_id, is_kw_task, is_task_named, child_task, descend, find_task,
  climb, search_below, resolve_segs, resolve_fresh, split_dotted_path, with_memo,
}

-- Two stores of the same tree, apart from the dependencies.
pub record SameTree (h h' : Nodes) : Type 0 where
  pub keywords : (n : ℕ) → (h n).keyword ≡ (h' n).keyword
  pub ids : (n : ℕ) → (h n).id ≡ (h' n).id
  pub parents : (n : ℕ) → (h n).parent_node ≡ (h' n).parent_node
  pub child_lists : (n : ℕ) → (h n).children ≡ (h' n).children
  pub uris : (n : ℕ) → (h n).source_uri ≡ (h' n).source_uri

module _ {h h' : Nodes} (same : SameTree h h') where
  is_task_named_same : (id : Bytes) → is_task_named h id ≡ is_task_named h' id
  is_task_named_same id = fun_ext (λ c.
      ap₂ (λ (k : Bool) (o : Bool). k && o) (ap is_kw_task (same.keywords c))
        (ap (λ (o : Option Bytes). has_id o id) (same.ids c)))

  child_task_same : (p : ℕ) (id : Bytes) → child_task h p id ≡ child_task h' p id
  unfolding child_task
  child_task_same p id = ap₂ first (is_task_named_same id) (same.child_lists p)

  descend_same : (cur : Option ℕ) (segs : List Bytes) → descend h cur segs ≡ descend h' cur segs
  unfolding descend
  descend_same cur [] = refl
  descend_same none (seg ∷ segs) = refl
  descend_same (some p) (seg ∷ segs) =
      descend_same (child_task h p seg) segs
      ∙ ap (λ (o : Option ℕ). descend h' o segs) (child_task_same p seg)

  find_task_same : (cs : List ℕ) (segs : List Bytes) → find_task h cs segs ≡ find_task h' cs segs
  unfolding find_task
  find_task_same cs [] = refl
  find_task_same cs (seg ∷ segs) =
      descend_same (first (is_task_named h seg) cs) segs
      ∙ ap (λ (t : ℕ → Bool). descend h' (first t cs) segs) (is_task_named_same seg)

  climb_same : (n bangs : ℕ) → climb h n bangs ≡ climb h' n bangs
  unfolding climb
  climb_same n zero = refl
  climb_same n (suc bangs) = elim (Option-cases (h n).parent_node) [
    | inl e ↦ rw (climb, e, sym (same.parents n) ∙ e) refl
    | inr (p, e) ↦ elim (Option-cases (h p).keyword) [
      | inl k ↦ rw (climb, e, sym (same.parents n) ∙ e, k, sym (same.keywords p) ∙ k) refl
      | inr (key, k) ↦
          rw (climb, e, sym (same.parents n) ∙ e, k, sym (same.keywords p) ∙ k) (climb_same p bangs)
    ]
  ]

  search_below_same :
      (o : Option ℕ) (segs : List Bytes) → search_below h o segs ≡ search_below h' o segs
  unfolding search_below
  search_below_same none segs = refl
  search_below_same (some a) segs =
      find_task_same (h a).children segs
      ∙ ap (λ (cs : List ℕ). find_task h' cs segs) (same.child_lists a)

  resolve_segs_same :
      (o bangs root : ℕ) (segs : List Bytes)
      → resolve_segs h o bangs root segs ≡ resolve_segs h' o bangs root segs
  unfolding resolve_segs
  resolve_segs_same o bangs root [] = refl
  resolve_segs_same o bangs root (seg ∷ segs) =
      search_below_same (if bangs == 0 then some root else climb h o bangs) (seg ∷ segs)
      ∙ ap (λ (c : Option ℕ). search_below h' (if bangs == 0 then some root else c) (seg ∷ segs))
          (climb_same o bangs)

  pub resolve_fresh_same :
      (o : ℕ) (dep : ProjectDep) (root : ℕ) (cell : Memo)
      → resolve_fresh h o dep root ≡ resolve_fresh h' o (with_memo dep cell) root
  unfolding resolve_fresh
  resolve_fresh_same o dep root cell =
      resolve_segs_same o dep.bang_count root (split_dotted_path dep.path)

pub SameTree-trans : {h h' h'' : Nodes} → SameTree h h' → SameTree h' h'' → SameTree h h''
SameTree-trans s t = record {
  keywords = λ n. s.keywords n ∙ t.keywords n;
  ids = λ n. s.ids n ∙ t.ids n;
  parents = λ n. s.parents n ∙ t.parents n;
  child_lists = λ n. s.child_lists n ∙ t.child_lists n;
  uris = λ n. s.uris n ∙ t.uris n;
}
