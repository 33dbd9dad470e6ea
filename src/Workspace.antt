-- ===== src/Workspace.antt =====
-- src/workspace.c, src/query_context.c: the projects of a workspace snapshot.
-- A document is the index of its slot. A project keeps the slots whose declarations were copied into
-- it, in order; the trees themselves are not built here.
pub mod Extends
pub mod Homes
pub mod Numbering
pub mod Reach
pub mod Visits
mod Tests
use taskjuggler_lsp.Base.{
  ℕ, zero, suc, ◌==◌, Bool, true, false, ◌&&◌, ◌||◌, Option, none, some, List, [], ◌∷◌, ◌++◌,
  length, get_elem?, set, Bytes, if◌then◌else◌,
}
use taskjuggler_lsp.DocumentStore.{Document, doc_find}

pub record WsProject : Type 0 where
  pub id : Bytes
  pub from_compile_commands : Bool
  pub members : List ℕ

-- `project_index` of each ws_doc, -1 being `none`, and the projects.
pub record WorkspaceSnapshot : Type 0 where
  pub project_index : ℕ → Option ℕ
  pub projects : List WsProject

abbrev pub ws_alloc : WorkspaceSnapshot
ws_alloc = record { project_index = λ w. none; projects = [] }

-- The new project has the index `num_projects`, here the number of projects before.
abbrev pub ws_add_project : WorkspaceSnapshot → Bytes → Bool → WorkspaceSnapshot
ws_add_project ws id from_cc = record ws {
  projects =
      ws.projects ++ (record { id = id; from_compile_commands = from_cc; members = [] } ∷ []);
}

abbrev pub has : Option ℕ → Bool
has none = false
has (some a) = true

-- `docs[i].in_use && docs[i].snap`
abbrev pub is_parsed : Document → Bool
is_parsed d = d.in_use && has d.snap

-- `slot_to_wsdoc[i]` for all slots, `ndoc` being `n` before them.
pub number_from : ℕ → List Document → List (Option ℕ)
number_from n [] = []
number_from n (d ∷ ds) = elim (is_parsed d) [
  | true ↦ some n ∷ number_from (suc n) ds
  | false ↦ none ∷ number_from n ds
]

pub slot_to_wsdoc : List Document → List (Option ℕ)
unfolding number_from
slot_to_wsdoc docs = number_from 0 docs

abbrev pub ws_doc_index_of : List (Option ℕ) → ℕ → Option ℕ
ws_doc_index_of slots i = elim (get_elem? slots i) [ none ↦ none | some w ↦ w ]

abbrev pub with_member : WsProject → ℕ → WsProject
with_member p i = record p { members = p.members ++ (i ∷ []) }

pub copy_document_into_project : WorkspaceSnapshot → ℕ → ℕ → WorkspaceSnapshot
copy_document_into_project ws pidx i = elim (get_elem? ws.projects pidx) [
  | none ↦ ws
  | some p ↦ record ws { projects = set ws.projects pidx (with_member p i) }
]

-- `ws->docs[wsd].project_index = pidx`
abbrev pub stamp : WorkspaceSnapshot → ℕ → ℕ → WorkspaceSnapshot
stamp ws wsd pidx = record ws {
  project_index = λ w. if w == wsd then some pidx else ws.project_index w;
}

-- The stamp of a document that no project has claimed.
pub claim : WorkspaceSnapshot → Option ℕ → ℕ → WorkspaceSnapshot
claim ws none pidx = ws
claim ws (some wsd) pidx = if has (ws.project_index wsd) then ws else stamp ws wsd pidx

pub assign_doc_to_project : List (Option ℕ) → WorkspaceSnapshot → ℕ → ℕ → WorkspaceSnapshot
assign_doc_to_project slots ws pidx i =
    claim (copy_document_into_project ws pidx i) (ws_doc_index_of slots i) pidx

abbrev pub contains : List ℕ → ℕ → Bool
contains [] x = false
contains (y ∷ ys) x = y == x || contains ys x

module _ (realpath : Bytes → Option Bytes) (docs : List Document) where
  abbrev pub has_parse : ℕ → Bool
  has_parse i = elim (get_elem? docs i) [ none ↦ false | some d ↦ has d.snap ]

  -- The document of an include, if it is tracked and parsed.
  pub included : Bytes → Option ℕ
  included uri = elim (doc_find realpath docs uri) [
    | none ↦ none
    | some child ↦ if has_parse child then some child else none
  ]

  abbrev pub includes : ℕ → List Bytes
  includes i = elim (get_elem? docs i) [ none ↦ [] | some d ↦ d.included_uris ]

  -- `pending` is the queue from its head on.
  pub record Search : Type 0 where
    pub pending : List ℕ
    pub visited : List ℕ
    pub ws : WorkspaceSnapshot

  module _ (slots : List (Option ℕ)) (pidx : ℕ) where
    abbrev pub reach : Search → ℕ → Search
    reach s child = record {
      pending = s.pending ++ (child ∷ []);
      visited = s.visited ++ (child ∷ []);
      ws = assign_doc_to_project slots s.ws pidx child;
    }

    -- The body of the loop over the includes.
    abbrev pub offer : Search → Option ℕ → Search
    offer s none = s
    offer s (some child) = if contains s.visited child then s else reach s child

    pub scan_includes : Search → List Bytes → Search
    scan_includes s [] = s
    scan_includes s (uri ∷ uris) = scan_includes (offer s (included uri)) uris

    -- `while (q_head < q_len)`, with a round of fuel for each slot and one for the end.
    pub populate_from : ℕ → Search → Search
    populate_from zero s = s
    populate_from (suc fuel) s = elim s.pending [
      | [] ↦ s
      | cur ∷ rest ↦ populate_from fuel (scan_includes (record s { pending = rest }) (includes cur))
    ]

    pub project_populate_from_root : WorkspaceSnapshot → ℕ → Search
    project_populate_from_root ws root = populate_from (suc (length docs)) record {
      pending = root ∷ [];
      visited = root ∷ [];
      ws = assign_doc_to_project slots ws pidx root;
    }

  -- Pass 1, over the slots from `i` on.
  pub add_cc_projects : List (Option ℕ) → WorkspaceSnapshot → ℕ → List Document → WorkspaceSnapshot
  add_cc_projects slots ws i [] = ws
  add_cc_projects slots ws i (d ∷ ds) =
      add_cc_projects slots
        (if d.in_use && (d.is_cc_root && has d.snap)
          then (project_populate_from_root slots (length ws.projects) (ws_add_project ws d.uri true)
              i).ws
          else ws)
        (suc i) ds

  abbrev pub add_orphan : WorkspaceSnapshot → ℕ → Document → Option ℕ → WorkspaceSnapshot
  add_orphan ws i d none = ws
  add_orphan ws i d (some wsd) =
      if has (ws.project_index wsd)
      then ws
      else stamp (copy_document_into_project (ws_add_project ws d.uri false) (length ws.projects) i)
          wsd (length ws.projects)

  -- Pass 2.
  pub add_orphans : List (Option ℕ) → WorkspaceSnapshot → ℕ → List Document → WorkspaceSnapshot
  add_orphans slots ws i [] = ws
  add_orphans slots ws i (d ∷ ds) =
      add_orphans slots (add_orphan ws i d (ws_doc_index_of slots i)) (suc i) ds

  pub build_workspace_snapshot : WorkspaceSnapshot
  build_workspace_snapshot =
      let slots = slot_to_wsdoc docs in
      add_orphans slots (add_cc_projects slots ws_alloc 0 docs) 0 docs
