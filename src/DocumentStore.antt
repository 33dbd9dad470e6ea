-- ===== src/DocumentStore.antt =====
-- src/document_store.c: the slots of the tracked documents.
-- `docs[MAX_DOCS]` is a list. A snapshot is its address.
pub mod Slots
mod Tests
use taskjuggler_lsp.Base.{
  ℕ, suc, Bool, true, false, ◌&&◌, Option, none, some, List, [], ◌∷◌, get_elem?, set, replicate,
  Bytes, str_eq, if◌then◌else◌,
}
use taskjuggler_lsp.PathUtil.{normalize_uri}

pub record Document : Type 0 where
  pub uri : Bytes
  pub text : Option Bytes
  pub doc_version : ℕ
  pub in_use : Bool
  pub disk_only : Bool
  pub is_cc_root : Bool
  pub snap : Option ℕ
  pub prev_snap : Option ℕ
  pub included_uris : List Bytes

abbrev pub max_docs : ℕ
max_docs = 64

-- A slot after `memset (d, 0, sizeof (*d))`.
abbrev pub empty_slot : Document
empty_slot = record {
  uri = [];
  text = none;
  doc_version = 0;
  in_use = false;
  disk_only = false;
  is_cc_root = false;
  snap = none;
  prev_snap = none;
  included_uris = [];
}

abbrev pub docstore_init : List Document
docstore_init = replicate max_docs empty_slot

abbrev pub next_slot : Option ℕ → Option ℕ
next_slot none = none
next_slot (some i) = some (suc i)

-- The loop that stops at the first slot in use with the URI.
unfoldable pub find_uri : Bytes → List Document → Option ℕ
find_uri uri [] = none
find_uri uri (d ∷ ds) = elim (d.in_use && str_eq d.uri uri) [
  | true ↦ some 0
  | false ↦ next_slot (find_uri uri ds)
]

unfoldable pub doc_find : (Bytes → Option Bytes) → List Document → Bytes → Option ℕ
doc_find realpath docs uri = elim (find_uri uri docs) [
  | some i ↦ some i
  | none ↦
      let canon = normalize_uri realpath uri in
      if str_eq canon uri then none else find_uri canon docs
]

unfoldable pub first_free : List Document → Option ℕ
first_free [] = none
first_free (d ∷ ds) = elim d.in_use [ false ↦ some 0 | true ↦ next_slot (first_free ds) ]

abbrev pub occupied : Bytes → Document → Document
occupied canon d = record d { in_use = true; uri = canon; doc_version = 1 }

abbrev pub slot_or_empty : Option Document → Document
slot_or_empty none = empty_slot
slot_or_empty (some d) = d

-- The slots afterwards and the slot taken; NULL if all are in use.
unfoldable pub doc_alloc :
    (Bytes → Option Bytes) → List Document → Bytes → Option (List Document × ℕ)
doc_alloc realpath docs uri = elim (first_free docs) [
  | none ↦ none
  | some i ↦
      some
        (set docs i (occupied (normalize_uri realpath uri) (slot_or_empty (get_elem? docs i))), i)
]
