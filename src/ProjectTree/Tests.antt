-- ===== src/ProjectTree/Tests.antt =====
-- src/project_tree.c on a tree of two tasks and a resource.
use taskjuggler_lsp.Base.{
  ℕ, take, ◌≡◌, ◌≢◌, ◌↔◌, refl, inl, ◌==◌, if◌then◌else◌, Option, none, some, List, [], ◌∷◌, Bytes,
  codes, str_eq, arith, Each, Each-get_elem?,
}
use taskjuggler_lsp.Syntax.{LspRange, TokenKind, DepKind, TjInfo, TjNodePtr}
use taskjuggler_lsp.QualifiedId.{id_chain, write_ids, sym_qualified_id}
use taskjuggler_lsp.ProjectTree.{
  Memo, ProjectDep, ProjectNode, Nodes, NodeKind, split_from, first, child_task, descend, find_task,
  climb, search_below, resolve_segs, resolve_fresh, project_dep_resolve, descend_kind,
  find_node_by_dotted_path, project_node_for_doc_task, project_resolve_dep_ref,
}
use taskjuggler_lsp.ProjectTree.Caching.{Coherent, after_calls, project_dep_resolve-after_calls}
use taskjuggler_lsp.ProjectTree.Dotted.{IsSegment, split_from-sym_qualified_id}
use taskjuggler_lsp.ProjectTree.Ids.{IdsOf}
use taskjuggler_lsp.ProjectTree.Descent.{
  LeadsTo, find_task_iff, resolve_fresh-find_node_by_dotted_path, project_node_for_doc_task_iff,
}

abbrev range₀ : LspRange
range₀ = record {
  start = record { line = 0; character = 0 };
  end = record { line = 0; character = 0 };
}

abbrev dep : ℕ → Bytes → ProjectDep
dep bangs path = record {
  kind = DepKind.depends;
  bang_count = bangs;
  path = some path;
  source_range = range₀;
  resolved = Memo.unresolved;
}

abbrev pnode : Option TokenKind → Option Bytes → Option ℕ → List ℕ → List ProjectDep → ProjectNode
pnode k i p cs ds = record {
  keyword = k;
  id = i;
  name = none;
  range = range₀;
  selection_range = range₀;
  source_uri = none;
  parent_node = p;
  children = cs;
  dependencies = ds;
}

-- The root 0 with the resource `a` and the task `a`, in which the tasks `b` and `c` stand. Task `c`
-- depends on `a.b` and on `!b`.
abbrev tree : Nodes
tree n =
    if n == 0
    then pnode none none none (1 ∷ 2 ∷ []) []
    else if n == 1
    then pnode (some TokenKind.kw_resource) (some (codes "a")) (some 0) [] []
    else if n == 2
    then pnode (some TokenKind.kw_task) (some (codes "a")) (some 0) (3 ∷ 4 ∷ []) []
    else if n == 3
    then pnode (some TokenKind.kw_task) (some (codes "b")) (some 2) [] []
    else pnode (some TokenKind.kw_task) (some (codes "c")) (some 2) []
        (dep 0 (codes "a.b") ∷ dep 1 (codes "b") ∷ dep 2 (codes "a") ∷ [])

program : Unit {0}
unfolding split_from first child_task descend find_task climb search_below resolve_segs
    resolve_fresh project_dep_resolve descend_kind find_node_by_dotted_path
    project_node_for_doc_task project_resolve_dep_ref str_eq id_chain write_ids sym_qualified_id
program = tt

absolute_path : (project_dep_resolve tree 4 0 0).1 ≡ some 3
unfolding program
absolute_path = refl

relative_path : (project_dep_resolve tree 4 1 0).1 ≡ some 3
unfolding program
relative_path = refl

-- Two bangs climb onto the synthetic root.
escaped : (project_dep_resolve tree 4 2 0).1 ≡ none
unfolding program
escaped = refl

all_unresolved :
    (o : ℕ) → Each (λ (d : ProjectDep). d.resolved ≡ Memo.unresolved) (tree o).dependencies
all_unresolved o = ground arith

tree-Coherent : Coherent tree 0
tree-Coherent o i d e = inl (
    Each-get_elem? (λ (d : ProjectDep). d.resolved ≡ Memo.unresolved) (tree o).dependencies i d
      (all_unresolved o) e)

project_dep_resolve-after_calls_example :
    (project_dep_resolve (after_calls tree 0 ((4, 0) ∷ (4, 0) ∷ [])) 4 1 0).1
    ≡ resolve_fresh tree 4 (dep 1 (codes "b")) 0
project_dep_resolve-after_calls_example =
    project_dep_resolve-after_calls tree 0 ((4, 0) ∷ (4, 0) ∷ []) 4 1 (dep 1 (codes "b"))
      tree-Coherent refl

find_task_iff_example :
    (find_task tree (tree 0).children (codes "a" ∷ codes "b" ∷ []) ≡ some 3)
    ↔ LeadsTo tree 0 (codes "a" ∷ codes "b" ∷ []) 3
find_task_iff_example = find_task_iff tree 0 (codes "a") (codes "b" ∷ []) 3

two_segs : split_from (codes "a.b") [] ≢ []
unfolding program
two_segs = ground arith

resolve_fresh-find_node_by_dotted_path_example :
    resolve_fresh tree 4 (dep 0 (codes "a.b")) 0
    ≡ find_node_by_dotted_path tree (some 0) (some (codes "a.b")) NodeKind.task
resolve_fresh-find_node_by_dotted_path_example =
    resolve_fresh-find_node_by_dotted_path tree 4 (dep 0 (codes "a.b")) 0 b'a' (codes ".b") refl
      refl two_segs

abbrev info : Bytes → TjInfo
info i = record {
  keyword = some TokenKind.kw_task;
  id = some i;
  name = none;
  range = range₀;
  selection_range = range₀;
  dependencies = [];
}

-- Task `b` inside task `a` of a document.
abbrev in_document : TjNodePtr
in_document = info (codes "a") ∷ []

b_ids : IdsOf (some TokenKind.kw_task) (info (codes "b") ∷ in_document) (codes "b" ∷ codes "a" ∷ [])
b_ids = IdsOf.counts b'b' [] refl refl (IdsOf.counts b'a' [] refl refl IdsOf.top)

segments : Each IsSegment (take 64 (codes "b" ∷ codes "a" ∷ []))
segments = ground arith

split_from-sym_qualified_id_example :
    split_from (sym_qualified_id (info (codes "b") ∷ in_document)) [] ≡ codes "a" ∷ codes "b" ∷ []
split_from-sym_qualified_id_example =
    split_from-sym_qualified_id (info (codes "b")) in_document b'b' [] (codes "b" ∷ codes "a" ∷ [])
      refl b_ids segments

qualified_b : sym_qualified_id (info (codes "b") ∷ in_document) ≡ codes "a.b"
unfolding program
qualified_b = refl

project_node_for_doc_task_iff_example :
    (project_node_for_doc_task tree (some 0) none (info (codes "b") ∷ in_document) ≡ some 3)
    ↔ LeadsTo tree 0 (codes "a" ∷ codes "b" ∷ []) 3
project_node_for_doc_task_iff_example =
    project_node_for_doc_task_iff tree 0 (info (codes "b")) in_document b'b' []
      (codes "b" ∷ codes "a" ∷ []) 3 refl b_ids segments
