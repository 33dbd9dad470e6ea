-- ===== src/CcWarnings/Tests.antt =====
-- src/diagnostics.c on a project of one file with an `include` and a fragment.
use taskjuggler_lsp.Base.{
  ◌≡◌, refl, false, none, some, List, [], ◌∷◌, ◌++◌, Bytes, codes, str_eq, arith,
}
use taskjuggler_lsp.Syntax.{TokenKind, TokenSpan}
use taskjuggler_lsp.Diagnostics.{Diagnostic, diag_set_new, diag_set_add}
use taskjuggler_lsp.Diagnostics.View.{items_of}
use taskjuggler_lsp.CcWarnings.{
  CcStatus, WsDoc, WorkspaceSnapshot, warning, fragment_message, is_tji, first_line, warn_includes,
  collect_doc_cc_warnings, index_from, collect_docs, diag_collect_cc_missing,
}
use taskjuggler_lsp.CcWarnings.Promised.{DocsWarned}
use taskjuggler_lsp.CcWarnings.Warned.{diag_collect_cc_missing-items}

abbrev include_token : TokenSpan
include_token = record {
  token_kind = TokenKind.kw_include;
  start = record { line = 2; character = 0 };
  end = record { line = 2; character = 7 };
  text = none;
}

abbrev open_doc : Bytes → List TokenSpan → WsDoc
open_doc uri spans = record {
  snap = some (record { uri = uri; tok_spans = spans });
  project_index = some 1;
  disk_only = false;
}

-- Project 8 is the second one.
abbrev ws : WorkspaceSnapshot
ws = record {
  docs =
      open_doc (codes "a.tjp") (include_token ∷ [])
      ∷ open_doc (codes "b.tji") (include_token ∷ [])
      ∷ [];
  projects = 7 ∷ 8 ∷ [];
  cc_status = CcStatus.missing;
}

fragment :
    items_of (diag_collect_cc_missing ws 8 diag_set_new) (codes "b.tji")
    ≡ warning first_line (fragment_message CcStatus.missing) ∷ []
unfolding diag_collect_cc_missing index_from collect_docs collect_doc_cc_warnings warn_includes
    is_tji str_eq diag_set_add items_of
fragment = refl

diag_collect_cc_missing-items_example :
    (ds : List Diagnostic) × DocsWarned CcStatus.missing 1 (codes "a.tjp") ws.docs ds
    × (items_of (diag_collect_cc_missing ws 8 diag_set_new) (codes "a.tjp")
        ≡ items_of diag_set_new (codes "a.tjp") ++ ds)
diag_collect_cc_missing-items_example =
    diag_collect_cc_missing-items ws (7 ∷ []) 8 [] diag_set_new (codes "a.tjp") (ground arith) refl
      (ground arith, tt)
