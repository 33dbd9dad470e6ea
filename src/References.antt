-- ===== src/References.antt =====
-- src/references.c, src/document_highlight.c and src/definition.c: where a task is referred to.
-- A JSON array is the list of its entries. The recursion over the tree has fuel for its height.
pub mod Collect
pub mod LastIdent
pub mod Highlights
mod Tests
use taskjuggler_lsp.Base.{
  ℕ, zero, suc, ◌==◌, Bool, true, false, Option, none, some, List, [], ◌∷◌, ◌++◌, if◌then◌else◌,
  length, get_elem?, Bytes, str_eq,
}
use taskjuggler_lsp.Syntax.{LspPos, LspRange, pos_lt, TokenKind, TokenSpan}
use taskjuggler_lsp.ProjectTree.{ProjectDep, ProjectNode, Nodes, project_dep_resolve}

pub record Location : Type 0 where
  pub uri : Option Bytes
  pub range : LspRange

-- `kind` is 2 for Read and 3 for Write.
pub record Highlight : Type 0 where
  pub range : LspRange
  pub kind : ℕ

abbrev pub is_node : Option ℕ → ℕ → Bool
is_node none wanted = false
is_node (some target) wanted = target == wanted

abbrev pub is_ident : TokenKind → Bool
is_ident TokenKind.ident = true
is_ident _ = false

-- `strcmp (node->source_uri, doc_uri) == 0`, of a node that has a URI
abbrev pub is_here : Bytes → Option Bytes → Bool
is_here doc_uri none = false
is_here doc_uri (some uri) = str_eq uri doc_uri

-- The loop keeps the last fit in `out`.
pub last_ident_in_range : List TokenSpan → LspRange → Option LspRange → Option LspRange
last_ident_in_range [] range out = out
last_ident_in_range (t ∷ ts) range out = last_ident_in_range ts range (
    if is_ident t.token_kind
    then (if pos_lt t.start range.start
        then out
        else if pos_lt range.end t.start
        then out
        else some (record { start = t.start; end = t.end }))
    else out)

-- What the walk over the tree emits: for a node of these documents, for a reference in a range.
pub record Emitter (A : Type 0) : Type 0 where
  pub visits : Option Bytes → Bool
  pub emit : Option Bytes → LspRange → Option A

abbrev pub push_if {ℓ} : {A : Type ℓ} → Bool → Option A → List A → List A
push_if false a rest = rest
push_if true none rest = rest
push_if true (some a) rest = a ∷ rest

abbrev range_at : Nodes → ℕ → ℕ → LspRange
range_at nodes n i = elim (get_elem? (nodes n).dependencies i) [
  | none ↦ (nodes n).range
  | some dep ↦ dep.source_range
]

module _ {A : Type 0} (e : Emitter A) (wanted project_root : ℕ) where
  -- The loop over the dependencies from `i` on, `left` of them. Resolving writes memo cells.
  pub collect_deps : ℕ → Nodes → ℕ → ℕ → Nodes × List A
  collect_deps zero nodes n i = (nodes, [])
  collect_deps (suc left) nodes n i =
      let (nodes₁, target) = project_dep_resolve nodes n i project_root in
      let (nodes₂, rest) = collect_deps left nodes₁ n (suc i) in
      (
        nodes₂,
        push_if (is_node target wanted) (e.emit (nodes₁ n).source_uri (range_at nodes₁ n i)) rest,
      )

  -- The loop over the children, by the walk of one.
  pub collect_children : (Nodes → ℕ → Nodes × List A) → Nodes → List ℕ → Nodes × List A
  collect_children walk nodes [] = (nodes, [])
  collect_children walk nodes (c ∷ cs) =
      let (nodes₁, here) = walk nodes c in
      let (nodes₂, rest) = collect_children walk nodes₁ cs in (nodes₂, here ++ rest)

  pub collect_own : Nodes → ℕ → Nodes × List A
  collect_own nodes n =
      if e.visits (nodes n).source_uri
      then collect_deps (length (nodes n).dependencies) nodes n 0
      else (nodes, [])

  pub collect_in_subtree : ℕ → Nodes → ℕ → Nodes × List A
  collect_in_subtree zero nodes n = (nodes, [])
  collect_in_subtree (suc fuel) nodes n =
      let (nodes₁, here) = collect_own nodes n in
      let (nodes₂, below) = collect_children (collect_in_subtree fuel) nodes₁ (nodes₁ n).children in
      (nodes₂, here ++ below)

abbrev pub refs_emitter : Emitter Location
refs_emitter = record {
  visits = λ uri. true;
  emit = λ uri range. some (record { uri = uri; range = range });
}

abbrev pub collect_refs_in_subtree : ℕ → ℕ → ℕ → Nodes → ℕ → Nodes × List Location
collect_refs_in_subtree wanted project_root = collect_in_subtree refs_emitter wanted project_root

abbrev read_of : Option LspRange → Option Highlight
read_of none = none
read_of (some segment) = some (record { range = segment; kind = 2 })

abbrev pub highlight_emitter : Bytes → List TokenSpan → Emitter Highlight
highlight_emitter doc_uri tokens = record {
  visits = is_here doc_uri;
  emit = λ uri range. read_of (last_ident_in_range tokens range none);
}

abbrev pub collect_read_highlights :
    Bytes → List TokenSpan → ℕ → ℕ → ℕ → Nodes → ℕ → Nodes × List Highlight
collect_read_highlights doc_uri tokens wanted project_root =
    collect_in_subtree (highlight_emitter doc_uri tokens) wanted project_root

-- NULL for a missing root or target.
pub build_references_json : ℕ → Nodes → Option ℕ → Option ℕ → Nodes × Option (List Location)
build_references_json fuel nodes none wanted = (nodes, none)
build_references_json fuel nodes (some root) none = (nodes, none)
build_references_json fuel nodes (some root) (some wanted) =
    let (nodes₁, arr) = collect_refs_in_subtree wanted root fuel nodes root in (nodes₁, some arr)

abbrev pub write_highlight : Bytes → ProjectNode → List Highlight
write_highlight doc_uri n =
    if is_here doc_uri n.source_uri then record { range = n.selection_range; kind = 3 } ∷ [] else []

pub build_document_highlight_json :
    ℕ
    → Nodes
    → Option ℕ
    → Option ℕ
    → Option Bytes
    → List TokenSpan
    → Nodes × Option (List Highlight)
build_document_highlight_json fuel nodes none wanted uri tokens = (nodes, none)
build_document_highlight_json fuel nodes (some root) none uri tokens = (nodes, none)
build_document_highlight_json fuel nodes (some root) (some wanted) none tokens = (nodes, none)
build_document_highlight_json fuel nodes (some root) (some wanted) (some doc_uri) tokens =
    let (nodes₁, reads) = collect_read_highlights doc_uri tokens wanted root fuel nodes root in
    (nodes₁, some (write_highlight doc_uri (nodes wanted) ++ reads))

pub build_definition_json : Nodes → Option ℕ → Option Location
build_definition_json nodes none = none
build_definition_json nodes (some target) =
    some (record { uri = (nodes target).source_uri; range = (nodes target).selection_range })
