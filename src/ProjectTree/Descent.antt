-- ===== src/ProjectTree/Descent.antt =====
-- src/project_tree.c: the two ways to follow a dotted path agree, and what they find.
use taskjuggler_lsp.Base.{
  ℕ, take, ◌≡◌, ◌≢◌, ◌↔◌, ◌⊎◌, inl, inr, refl, ◌∙◌, sym, ap, ap₂, fun_ext, Bool, true, false, ◌&&◌,
  Bool-cases, Option, none, some, Option-cases, List, [], ◌∷◌, Bytes, arith, Each,
}
use taskjuggler_lsp.Syntax.{TokenKind, TjInfo, TjNodePtr}
use taskjuggler_lsp.QualifiedId.{id_chain, chain_size, sym_qualified_id}
use taskjuggler_lsp.ProjectTree.{
  ProjectDep, Nodes, NodeKind, split_from, split_dotted_path, first, has_id, is_kw_task,
  is_task_named, child_task, descend, find_task, search_below, resolve_segs, resolve_fresh,
  node_kind_of, same_kind, descend_kind, find_node_by_dotted_path, project_node_for_doc_task,
}
use taskjuggler_lsp.ProjectTree.Ids.{IdsOf, id_chain-IdsOf}
use taskjuggler_lsp.ProjectTree.Dotted.{
  IsSegment, reverse_onto, split_from-sym_qualified_id, own_id,
}

-- `n` is the first of `cs` that passes the test.
abbrev pub IsFirst : (ℕ → Bool) → List ℕ → ℕ → Type 0
IsFirst test [] n = ⊥
IsFirst test (c ∷ cs) n = ((c ≡ n) × (test n ≡ true)) ⊎ ((test c ≡ false) × IsFirst test cs n)

-- `n` is where `segs` lead from `from`: at each step to the first child that is a task of that name.
abbrev pub LeadsTo : Nodes → ℕ → List Bytes → ℕ → Type 0
LeadsTo h from [] n = from ≡ n
LeadsTo h from (seg ∷ segs) n =
    (c : ℕ) × IsFirst (is_task_named h seg) (h from).children c × LeadsTo h c segs n

first-IsFirst : (test : ℕ → Bool) (cs : List ℕ) (n : ℕ) → first test cs ≡ some n → IsFirst test cs n
unfolding first
first-IsFirst test [] n e = absurd (ground (arith, e))
first-IsFirst test (c ∷ cs) n e = elim (Bool-cases (test c)) [
  | inl t ↦ let same : c ≡ n = ground (arith, e, t) in inl (same, rw same at t)
  | inr t ↦ inr (t, first-IsFirst test cs n (ground (arith, e, t)))
]

first-found : (test : ℕ → Bool) (cs : List ℕ) (n : ℕ) → IsFirst test cs n → first test cs ≡ some n
unfolding first
first-found test [] n h = elim h [ ]
first-found test (c ∷ cs) n (inl (same, t)) = ground (arith, same, t)
first-found test (c ∷ cs) n (inr (t, later)) = ground (arith, t, first-found test cs n later)

descend-none : (h : Nodes) (segs : List Bytes) → descend h none segs ≡ none
unfolding descend
descend-none h [] = refl
descend-none h (seg ∷ segs) = refl

descend-LeadsTo :
    (h : Nodes) (from : ℕ) (segs : List Bytes) (n : ℕ)
    → descend h (some from) segs ≡ some n
    → LeadsTo h from segs n
unfolding descend child_task
descend-LeadsTo h from [] n e = ground (arith, e)
descend-LeadsTo h from (seg ∷ segs) n e =
    elim (Option-cases (first (is_task_named h seg) (h from).children)) [
      | inl gone ↦ absurd (ground (arith, descend-none h segs, e, gone))
      | inr (c, here) ↦ (
        c,
        first-IsFirst (is_task_named h seg) (h from).children c here,
        descend-LeadsTo h c segs n (rw here at e),
      )
    ]

descend-found :
    (h : Nodes) (from : ℕ) (segs : List Bytes) (n : ℕ)
    → LeadsTo h from segs n
    → descend h (some from) segs ≡ some n
unfolding descend child_task
descend-found h from [] n e = ap some e
descend-found h from (seg ∷ segs) n (c, here, later) =
    ap (λ (o : Option ℕ). descend h o segs)
      (first-found (is_task_named h seg) (h from).children c here)
    ∙ descend-found h c segs n later

-- From the children of a node, `find_task` finds a node exactly if the segments lead to it, at each
-- step to the first child that is a task of that name.
pub find_task_iff :
    (h : Nodes) (from : ℕ) (seg : Bytes) (segs : List Bytes) (n : ℕ)
    → (find_task h (h from).children (seg ∷ segs) ≡ some n) ↔ LeadsTo h from (seg ∷ segs) n
unfolding find_task descend child_task
find_task_iff h from seg segs n =
    (λ e. descend-LeadsTo h from (seg ∷ segs) n e, λ l. descend-found h from (seg ∷ segs) n l)

kinds_agree : (k : Option TokenKind) → same_kind (node_kind_of k) NodeKind.task ≡ is_kw_task k
kinds_agree none = refl
kinds_agree (some TokenKind.kw_task) = refl
kinds_agree (some TokenKind.kw_account) = refl
kinds_agree (some TokenKind.kw_resource) = refl
kinds_agree (some TokenKind.kw_shift) = refl
kinds_agree (some TokenKind.kw_project) = refl
kinds_agree (some TokenKind.eof) = refl
kinds_agree (some _) = refl

descend_kind-task :
    (h : Nodes) (cur : Option ℕ) (segs : List Bytes)
    → descend_kind h NodeKind.task cur segs ≡ descend h cur segs
unfolding descend_kind descend child_task
descend_kind-task h cur [] = refl
descend_kind-task h none (seg ∷ segs) = refl
descend_kind-task h (some cur) (seg ∷ segs) =
    ap (λ (t : ℕ → Bool). descend_kind h NodeKind.task (first t (h cur).children) segs)
      (fun_ext (λ c. ap (λ (k : Bool). k && has_id (h c).id seg) (kinds_agree (h c).keyword)))
    ∙ descend_kind-task h (first (is_task_named h seg) (h cur).children) segs

absolute :
    (h : Nodes) (o root : ℕ) (segs : List Bytes)
    → segs ≢ []
    → resolve_segs h o 0 root segs ≡ descend h (some root) segs
unfolding resolve_segs search_below find_task descend child_task
absolute h o root [] ne = absurd (ne refl)
absolute h o root (seg ∷ segs) ne = refl

fresh :
    (h : Nodes) (o : ℕ) (dep : ProjectDep) (root : ℕ) (path : Bytes)
    → dep.bang_count ≡ 0
    → dep.path ≡ some path
    → resolve_fresh h o dep root ≡ resolve_segs h o 0 root (split_from path [])
unfolding resolve_fresh
fresh h o dep root path hb hp =
    ap₂ (λ (b : ℕ) (p : Option Bytes). resolve_segs h o b root (split_dotted_path p)) hb hp

by_path :
    (h : Nodes) (root : ℕ) (path : Option Bytes) (c : ℕ) (cs : Bytes)
    → path ≡ some (c ∷ cs)
    → descend_kind h NodeKind.task (some root) (split_from (c ∷ cs) [])
      ≡ find_node_by_dotted_path h (some root) path NodeKind.task
unfolding find_node_by_dotted_path
by_path h root path c cs e = rw e refl

-- An absolute dependency with a segment in its path resolves, its memo empty, to what looking its path
-- up from the root as the path of a task finds.
pub resolve_fresh-find_node_by_dotted_path :
    (h : Nodes) (o : ℕ) (dep : ProjectDep) (root c : ℕ) (cs : Bytes)
    → dep.bang_count ≡ 0
    → dep.path ≡ some (c ∷ cs)
    → split_from (c ∷ cs) [] ≢ []
    → resolve_fresh h o dep root ≡ find_node_by_dotted_path h (some root) dep.path NodeKind.task
resolve_fresh-find_node_by_dotted_path h o dep root c cs hb hp some_segs =
    fresh h o dep root (c ∷ cs) hb hp
    ∙ absolute h o root (split_from (c ∷ cs) []) some_segs
    ∙ sym (descend_kind-task h (some root) (split_from (c ∷ cs) []))
    ∙ by_path h root dep.path c cs hp

reverse_onto-cons :
    (ids : List Bytes) (id : Bytes) (out : List Bytes) → reverse_onto ids (id ∷ out) ≢ []
reverse_onto-cons [] id out e = absurd (ground (arith, e))
reverse_onto-cons (x ∷ ids) id out e = reverse_onto-cons ids x (id ∷ out) e

-- The lookup of a qualified id that has a segment.
qualified :
    (h : Nodes) (start : Option ℕ) (q : Bytes)
    → split_from q [] ≢ []
    → (elim q as (λ _. Option ℕ) [ [] ↦ none | c ∷ cs ↦ descend h start (split_from (c ∷ cs) []) ])
      ≡ descend h start (split_from q [])
unfolding split_from
qualified h start [] ne = absurd (ne refl)
qualified h start (c ∷ cs) ne = refl

doc_task-descend :
    (h : Nodes) (root : ℕ) (task : TjNodePtr) (segs : List Bytes)
    → split_from (sym_qualified_id task) [] ≡ segs
    → segs ≢ []
    → project_node_for_doc_task h (some root) none task ≡ descend h (some root) segs
unfolding project_node_for_doc_task find_node_by_dotted_path
doc_task-descend h root task segs e ne =
    qualified h (some root) (sym_qualified_id task) (λ z. ne (sym e ∙ z))
    ∙ ap (descend h (some root)) e

-- The segments that the dotted path of a task with an id gives are not none.
some_ids :
    (task : TjInfo) (up : TjNodePtr) (c : ℕ) (cs : Bytes) (ids : List Bytes)
    → task.id ≡ some (c ∷ cs)
    → IdsOf task.keyword (task ∷ up) ids
    → reverse_onto (take 64 ids) [] ≢ []
some_ids task up c cs ids e these z = reverse_onto-cons (id_chain task.keyword 63 up) (c ∷ cs) [] (
    ap (λ (l : List Bytes). reverse_onto l [])
      (sym (own_id task up c cs 63 e)
        ∙ id_chain-IdsOf task.keyword chain_size (task ∷ up) ids these)
    ∙ z)

-- A task of a document without a prefix is found exactly where its own id and those of the tasks around
-- it, the nearest 64 in all, lead from the root, if they have no dots.
pub project_node_for_doc_task_iff :
    (h : Nodes) (root : ℕ) (task : TjInfo) (up : TjNodePtr) (c : ℕ) (cs : Bytes) (ids : List Bytes)
    (n : ℕ)
    → task.id ≡ some (c ∷ cs)
    → IdsOf task.keyword (task ∷ up) ids
    → Each IsSegment (take 64 ids)
    → (project_node_for_doc_task h (some root) none (task ∷ up) ≡ some n)
      ↔ LeadsTo h root (reverse_onto (take 64 ids) []) n
project_node_for_doc_task_iff h root task up c cs ids n e these segs =
    let path = reverse_onto (take 64 ids) [] in
    let same =
      doc_task-descend h root (task ∷ up) path
        (split_from-sym_qualified_id task up c cs ids e these segs)
        (some_ids task up c cs ids e these) in
    (λ x. descend-LeadsTo h root path n (sym same ∙ x), λ l. same ∙ descend-found h root path n l)
