-- ===== src/References/Tests.antt =====
-- src/references.c, src/document_highlight.c on a project of two tasks, one depending on the other.
use taskjuggler_lsp.Base.{
  ℕ, ◌≡◌, refl, inl, ◌==◌, if◌then◌else◌, Option, none, some, List, [], ◌∷◌, ◌++◌, Bytes, codes,
  str_eq, arith, Each, Each-get_elem?,
}
use taskjuggler_lsp.Syntax.{LspRange, pos_lt, TokenKind, TokenSpan, DepKind}
use taskjuggler_lsp.ProjectTree.{
  Memo, ProjectDep, ProjectNode, Nodes, split_from, first, child_task, descend, find_task, climb,
  search_below, resolve_segs, resolve_fresh, project_dep_resolve,
}
use taskjuggler_lsp.ProjectTree.Caching.{Coherent}
use taskjuggler_lsp.References.Highlights.{Written, Reads, build_document_highlight_json-hits}
use taskjuggler_lsp.References.{
  Highlight, refs_emitter, last_ident_in_range, collect_deps, collect_children, collect_own,
  collect_in_subtree, build_references_json, build_document_highlight_json,
}
use taskjuggler_lsp.References.Collect.{Walks, hits, build_references_json-hits}

abbrev range_of : ℕ → ℕ → ℕ → LspRange
range_of line from to = record {
  start = record { line = line; character = from };
  end = record { line = line; character = to };
}

abbrev doc_uri : Bytes
doc_uri = codes "file:///p.tjp"

abbrev task : Bytes → ℕ → Option ℕ → List ℕ → List ProjectDep → ProjectNode
task id line parent children deps = record {
  keyword = some TokenKind.kw_task;
  id = some id;
  name = none;
  range = range_of line 0 20;
  selection_range = range_of line 5 6;
  source_uri = some doc_uri;
  parent_node = parent;
  children = children;
  dependencies = deps;
}

-- The root 0 with the tasks 1 (`a`) and 2 (`b`), `b` depending on `a` and on `c`.
abbrev dep_on : Bytes → LspRange → ProjectDep
dep_on path range = record {
  kind = DepKind.depends;
  bang_count = 0;
  path = some path;
  source_range = range;
  resolved = Memo.unresolved;
}

abbrev project : Nodes
project n =
    if n == 0
    then record {
      keyword = none;
      id = none;
      name = none;
      range = range_of 0 0 0;
      selection_range = range_of 0 0 0;
      source_uri = none;
      parent_node = none;
      children = 1 ∷ 2 ∷ [];
      dependencies = [];
    }
    else if n == 1
    then task (codes "a") 1 (some 0) [] []
    else task (codes "b") 2 (some 0) []
        (dep_on (codes "a") (range_of 2 15 16) ∷ dep_on (codes "c") (range_of 2 17 18) ∷ [])

abbrev tokens : List TokenSpan
tokens =
    record {
      token_kind = TokenKind.ident;
      start = record { line = 2; character = 15 };
      end = record { line = 2; character = 16 };
      text = some (codes "a");
    }
    ∷ []

program : Unit {0}
unfolding split_from first child_task descend find_task climb search_below resolve_segs
    resolve_fresh project_dep_resolve str_eq pos_lt last_ident_in_range collect_deps
    collect_children collect_own collect_in_subtree build_references_json
    build_document_highlight_json
program = tt

project-Walks : Walks project 2 (0 ∷ []) (0 ∷ 1 ∷ 2 ∷ [])
project-Walks =
    Walks.visit 0 (Walks.visit 1 Walks.end (Walks.visit 2 Walks.end Walks.end)) Walks.end

all_unresolved :
    (o : ℕ) → Each (λ (d : ProjectDep). d.resolved ≡ Memo.unresolved) (project o).dependencies
all_unresolved o = ground arith

project-Coherent : Coherent project 0
project-Coherent o i d e = inl (
    Each-get_elem? (λ (d : ProjectDep). d.resolved ≡ Memo.unresolved) (project o).dependencies i d
      (all_unresolved o) e)

one_reference :
    (build_references_json 2 project (some 0) (some 1)).1
    ≡ some (record { uri = some doc_uri; range = range_of 2 15 16 } ∷ [])
unfolding program
one_reference = refl

build_references_json-hits_example :
    (build_references_json 2 project (some 0) (some 1)).1
    ≡ some (hits refs_emitter 1 0 project (0 ∷ 1 ∷ 2 ∷ []))
build_references_json-hits_example =
    build_references_json-hits project 1 0 1 (0 ∷ 1 ∷ 2 ∷ []) project-Walks project-Coherent

declaration_and_use :
    (build_document_highlight_json 2 project (some 0) (some 1) (some doc_uri) tokens).1
    ≡ some (
        record { range = range_of 1 5 6; kind = 3 }
        ∷ record { range = range_of 2 15 16; kind = 2 }
        ∷ [])
unfolding program
declaration_and_use = refl

build_document_highlight_json-hits_example :
    (write : List Highlight) × (reads : List Highlight) × Written doc_uri (project 1) write
    × Reads project 1 0 doc_uri tokens (0 ∷ 1 ∷ 2 ∷ []) reads
    × ((build_document_highlight_json 2 project (some 0) (some 1) (some doc_uri) tokens).1
        ≡ some (write ++ reads))
build_document_highlight_json-hits_example =
    build_document_highlight_json-hits project 1 0 1 doc_uri tokens (0 ∷ 1 ∷ 2 ∷ []) project-Walks
      project-Coherent
