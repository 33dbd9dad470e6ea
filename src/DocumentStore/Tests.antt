-- ===== src/DocumentStore/Tests.antt =====
-- src/document_store.c on a table with one document.
use taskjuggler_lsp.Base.{refl, Option, none, List, [], ◌∷◌, Bytes, codes, str_eq, c_string}
use taskjuggler_lsp.PathUtil.{
  normalize_uri, uri_to_path, strip_prefix, percent_decode, decode, is_xdigit, hex_value,
  path_to_uri, percent_encode_path, is_unreserved, hex_digit, canonical_path,
  lexical_normalize_path, normalize_loop, span_segment, skip_slashes, is_absolute,
}
use taskjuggler_lsp.DocumentStore.{
  Document, empty_slot, occupied, find_uri, doc_find, first_free, doc_alloc,
}
use taskjuggler_lsp.DocumentStore.Slots.{Taken, doc_find-doc_alloc}

abbrev no_links : Bytes → Option Bytes
no_links path = none

abbrev before : List Document
before = occupied (codes "file:///a") empty_slot ∷ empty_slot ∷ []

abbrev after : List Document
after = occupied (codes "file:///a") empty_slot ∷ occupied (codes "file:///b") empty_slot ∷ []

doc_find-doc_alloc_example : Taken no_links after (codes "file:////b") 1
unfolding doc_find doc_alloc find_uri first_free str_eq c_string normalize_uri uri_to_path
    strip_prefix percent_decode decode is_xdigit hex_value path_to_uri percent_encode_path
    is_unreserved hex_digit canonical_path lexical_normalize_path normalize_loop span_segment
    skip_slashes is_absolute
doc_find-doc_alloc_example =
    doc_find-doc_alloc no_links before after (codes "file:////b") 1 refl refl
