-- ===== src/ProjectTree.antt =====
-- src/project_tree.c: the tree assembled from all documents of a project, and the resolution of task
-- references in it. A node is an address in a store; its links are the addresses of its parent and
-- its children.
pub mod Descent
pub mod Shape
pub mod Caching
pub mod Dotted
pub mod Ids
mod Tests
use taskjuggler_lsp.Base.{
  ℕ, zero, suc, ◌==◌, Bool, true, false, ◌&&◌, if◌then◌else◌, Option, none, some, List, [], ◌∷◌,
  ◌++◌, get_elem?, set, Bytes, str_eq,
}
use taskjuggler_lsp.Syntax.{LspRange, TokenKind, DepKind, TjNodePtr}
use taskjuggler_lsp.QualifiedId.{sym_qualified_id}

-- The memo cell of a dependency: PROJECT_DEP_UNRESOLVED, PROJECT_DEP_RESOLVED_NULL or a node.
pub data Memo : Type 0 where
  unresolved resolved_null : Memo
  resolved_to : ℕ → Memo

pub record ProjectDep : Type 0 where
  pub kind : DepKind
  pub bang_count : ℕ
  pub path : Option Bytes
  pub source_range : LspRange
  pub resolved : Memo

-- The synthetic root has no keyword (0 in the source).
pub record ProjectNode : Type 0 where
  pub keyword : Option TokenKind
  pub id : Option Bytes
  pub name : Option Bytes
  pub range : LspRange
  pub selection_range : LspRange
  pub source_uri : Option Bytes
  pub parent_node : Option ℕ
  pub children : List ℕ
  pub dependencies : List ProjectDep

abbrev pub Nodes : Type 0
Nodes = ℕ → ProjectNode

-- `strtok_r (…, ".", …)` to its end: the stretches between dots that are not empty.
abbrev pub flush : Bytes → List Bytes
flush [] = []
flush (c ∷ seg) = (c ∷ seg) ∷ []

unfoldable pub split_from : Bytes → Bytes → List Bytes
split_from [] seg = flush seg
split_from (c ∷ path) seg = elim (c == b'.') [
  | true ↦ flush seg ++ split_from path []
  | false ↦ split_from path (seg ++ (c ∷ []))
]

abbrev pub split_dotted_path : Option Bytes → List Bytes
split_dotted_path none = []
split_dotted_path (some path) = split_from path []

-- The loops over children that stop at the first that fits.
unfoldable pub first : (ℕ → Bool) → List ℕ → Option ℕ
first test [] = none
first test (c ∷ cs) = elim (test c) [ true ↦ some c | false ↦ first test cs ]

-- `c->id && strcmp (c->id, id) == 0`
abbrev pub has_id : Option Bytes → Bytes → Bool
has_id none id = false
has_id (some own) id = str_eq own id

abbrev pub is_kw_task : Option TokenKind → Bool
is_kw_task keyword = elim keyword [
  | none ↦ false
  | some k ↦ elim k [ TokenKind.kw_task ↦ true | _ ↦ false ]
]

abbrev pub is_task_named : Nodes → Bytes → ℕ → Bool
is_task_named nodes id c = is_kw_task (nodes c).keyword && has_id (nodes c).id id

unfoldable pub child_task : Nodes → ℕ → Bytes → Option ℕ
child_task nodes parent id = first (is_task_named nodes id) (nodes parent).children

-- `for (int s = 1; cur && s < nseg; s++) cur = child_task (cur, segs[s])`
unfoldable pub descend : Nodes → Option ℕ → List Bytes → Option ℕ
descend nodes cur [] = cur
descend nodes none (seg ∷ segs) = none
descend nodes (some cur) (seg ∷ segs) = descend nodes (child_task nodes cur seg) segs

unfoldable pub find_task : Nodes → List ℕ → List Bytes → Option ℕ
find_task nodes children [] = none
find_task nodes children (seg ∷ segs) =
    descend nodes (first (is_task_named nodes seg) children) segs

-- One level for each bang, or `none` if the climb escapes the project.
unfoldable pub climb : Nodes → ℕ → ℕ → Option ℕ
climb nodes ancestor zero = some ancestor
climb nodes ancestor (suc bangs) = elim (nodes ancestor).parent_node [
  | none ↦ none
  | some parent ↦ elim (nodes parent).keyword [ none ↦ none | some k ↦ climb nodes parent bangs ]
]

-- The search below the node that the climb has reached.
unfoldable pub search_below : Nodes → Option ℕ → List Bytes → Option ℕ
search_below nodes none segs = none
search_below nodes (some ancestor) segs = find_task nodes (nodes ancestor).children segs

-- What `project_dep_resolve` finds if the memo is empty: an absolute path from the root, or a
-- relative one from the node that its bangs climb to.
unfoldable pub resolve_segs : Nodes → ℕ → ℕ → ℕ → List Bytes → Option ℕ
resolve_segs nodes owner_task bang_count project_root [] = none
resolve_segs nodes owner_task bang_count project_root (seg ∷ segs) =
    search_below nodes
      (if bang_count == 0 then some project_root else climb nodes owner_task bang_count)
      (seg ∷ segs)

unfoldable pub resolve_fresh : Nodes → ℕ → ProjectDep → ℕ → Option ℕ
resolve_fresh nodes owner_task dep project_root =
    resolve_segs nodes owner_task dep.bang_count project_root (split_dotted_path dep.path)

abbrev pub to_publish : Option ℕ → Memo
to_publish none = Memo.resolved_null
to_publish (some n) = Memo.resolved_to n

abbrev pub with_memo : ProjectDep → Memo → ProjectDep
with_memo dep cell = record {
  kind = dep.kind;
  bang_count = dep.bang_count;
  path = dep.path;
  source_range = dep.source_range;
  resolved = cell;
}

abbrev pub with_deps : ProjectNode → List ProjectDep → ProjectNode
with_deps n deps = record {
  keyword = n.keyword;
  id = n.id;
  name = n.name;
  range = n.range;
  selection_range = n.selection_range;
  source_uri = n.source_uri;
  parent_node = n.parent_node;
  children = n.children;
  dependencies = deps;
}

-- `atomic_store_explicit (&dep->resolved, …)`
abbrev pub publish : Nodes → ℕ → ℕ → ProjectDep → Memo → Nodes
publish nodes owner_task dep_index dep cell n =
    if n == owner_task
    then with_deps (nodes n) (set (nodes n).dependencies dep_index (with_memo dep cell))
    else nodes n

-- The store afterwards and the node found. An index out of range is not asked for.
unfoldable pub project_dep_resolve : Nodes → ℕ → ℕ → ℕ → Nodes × Option ℕ
project_dep_resolve nodes owner_task dep_index project_root =
    elim (get_elem? (nodes owner_task).dependencies dep_index) [
      | none ↦ (nodes, none)
      | some dep ↦ elim dep.resolved [
        | Memo.resolved_null ↦ (nodes, none)
        | Memo.resolved_to n ↦ (nodes, some n)
        | Memo.unresolved ↦
            let resolved = resolve_fresh nodes owner_task dep project_root in
            (publish nodes owner_task dep_index dep (to_publish resolved), resolved)
      ]
    ]

pub data NodeKind : Type 0 where
  task account resource report other : NodeKind

abbrev pub node_kind_of : Option TokenKind → NodeKind
node_kind_of keyword = elim keyword [
  | none ↦ NodeKind.report
  | some k ↦ elim k [
    | TokenKind.kw_task ↦ NodeKind.task
    | TokenKind.kw_account ↦ NodeKind.account
    | TokenKind.kw_resource ↦ NodeKind.resource
    | TokenKind.kw_shift ↦ NodeKind.resource
    | TokenKind.kw_project ↦ NodeKind.other
    | _ ↦ NodeKind.report
  ]
]

abbrev pub same_kind : NodeKind → NodeKind → Bool
same_kind NodeKind.task NodeKind.task = true
same_kind NodeKind.account NodeKind.account = true
same_kind NodeKind.resource NodeKind.resource = true
same_kind NodeKind.report NodeKind.report = true
same_kind NodeKind.other NodeKind.other = true
same_kind _ _ = false

-- `for (seg = strtok_r (…); seg && cur; …)` over children of the kind
pub descend_kind : Nodes → NodeKind → Option ℕ → List Bytes → Option ℕ
descend_kind nodes kind cur [] = cur
descend_kind nodes kind none (seg ∷ segs) = none
descend_kind nodes kind (some cur) (seg ∷ segs) =
    descend_kind nodes kind
      (first (λ c. same_kind (node_kind_of (nodes c).keyword) kind && has_id (nodes c).id seg)
        (nodes cur).children)
      segs

pub find_node_by_dotted_path : Nodes → Option ℕ → Option Bytes → NodeKind → Option ℕ
find_node_by_dotted_path nodes start path kind = elim start [
  | none ↦ none
  | some s ↦ elim path [
    | none ↦ some s
    | some p ↦ elim p [
      | [] ↦ some s
      | c ∷ cs ↦ descend_kind nodes kind (some s) (split_from (c ∷ cs) [])
    ]
  ]
]

pub project_node_for_doc_task : Nodes → Option ℕ → Option Bytes → TjNodePtr → Option ℕ
project_node_for_doc_task nodes project_root task_prefix per_doc_task = elim project_root [
  | none ↦ none
  | some root ↦ elim (sym_qualified_id per_doc_task) [
    | [] ↦ none
    | c ∷ cs ↦
        descend nodes (find_node_by_dotted_path nodes (some root) task_prefix NodeKind.task)
          (split_from (c ∷ cs) [])
  ]
]

-- `ordinal` is the place of the dependency in the list of its owner.
pub project_resolve_dep_ref : Nodes → ℕ → Option Bytes → TjNodePtr → ℕ → Nodes × Option ℕ
project_resolve_dep_ref nodes project_root task_prefix owner ordinal =
    elim (project_node_for_doc_task nodes (some project_root) task_prefix owner) [
      | none ↦ (nodes, none)
      | some merged_owner ↦ elim (get_elem? (nodes merged_owner).dependencies ordinal) [
        | none ↦ (nodes, none)
        | some dep ↦ project_dep_resolve nodes merged_owner ordinal project_root
      ]
    ]
