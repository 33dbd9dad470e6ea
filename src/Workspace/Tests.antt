-- ===== src/Workspace/Tests.antt =====
-- src/workspace.c on five documents: one that includes two, which both include a third, which includes
-- the first; and one by itself.
use taskjuggler_lsp.Base.{
  ◌≡◌, refl, Bool, true, false, Option, none, some, List, [], ◌∷◌, Bytes, codes, str_eq, arith,
}
use taskjuggler_lsp.DocumentStore.{Document, empty_slot, occupied, find_uri, doc_find}
use taskjuggler_lsp.Workspace.{
  ws_alloc, ws_add_project, number_from, slot_to_wsdoc, claim, copy_document_into_project,
  assign_doc_to_project, included, scan_includes, populate_from, project_populate_from_root,
  add_cc_projects, add_orphans, build_workspace_snapshot,
}
use taskjuggler_lsp.Workspace.Homes.{Home, build_workspace_snapshot-Home}
use taskjuggler_lsp.Workspace.Reach.{Populated, project_populate_from_root-Populated}

abbrev no_links : Bytes → Option Bytes
no_links path = none

abbrev doc : Bytes → Bool → List Bytes → Document
doc name is_root targets = record (occupied name empty_slot) {
  is_cc_root = is_root;
  snap = some 1;
  included_uris = targets;
}

abbrev tracked : List Document
tracked =
    doc (codes "a") true (codes "b" ∷ codes "c" ∷ [])
    ∷ doc (codes "b") false (codes "d" ∷ [])
    ∷ doc (codes "c") false (codes "d" ∷ [])
    ∷ doc (codes "d") false (codes "a" ∷ [])
    ∷ doc (codes "e") false []
    ∷ []

test_projects :
    (build_workspace_snapshot no_links tracked).projects
    ≡ record { id = codes "a"; from_compile_commands = true; members = 0 ∷ 1 ∷ 2 ∷ 3 ∷ [] }
      ∷ record { id = codes "e"; from_compile_commands = false; members = 4 ∷ [] }
      ∷ []
unfolding build_workspace_snapshot add_orphans add_cc_projects project_populate_from_root
    populate_from scan_includes included doc_find find_uri slot_to_wsdoc number_from claim
    copy_document_into_project assign_doc_to_project str_eq
test_projects = refl

project_populate_from_root-Populated_example :
    Populated no_links tracked (slot_to_wsdoc tracked) 0 0 (
      project_populate_from_root no_links tracked
        (slot_to_wsdoc tracked)
        0
        (ws_add_project ws_alloc (codes "a") true)
        0)
project_populate_from_root-Populated_example =
    project_populate_from_root-Populated no_links tracked (slot_to_wsdoc tracked) 0 0
      (ws_add_project ws_alloc (codes "a") true)
      record { id = codes "a"; from_compile_commands = true; members = [] } refl refl (omega arith)

-- The document by itself.
build_workspace_snapshot-Home_example : Home tracked (build_workspace_snapshot no_links tracked) 4
build_workspace_snapshot-Home_example =
    build_workspace_snapshot-Home no_links tracked 4 (doc (codes "e") false []) refl refl
