-- ===== src/CcWarnings.antt =====
-- src/diagnostics.c: the warnings about a missing or malformed compile_commands.json.
pub mod Listed
pub mod Promised
pub mod Warned
mod Tests
use taskjuggler_lsp.Base.{
  ℕ, suc, ◌-◌, ◌^◌, ◌==◌, ◌&&◌, ◌||◌, not, leb, Bool, true, false, if◌then◌else◌, Option, none,
  some, List, [], ◌∷◌, ◌++◌, length, drop, Bytes, codes, str_eq,
}
use taskjuggler_lsp.Syntax.{LspPos, LspRange, TokenKind, TokenSpan}
use taskjuggler_lsp.Diagnostics.{Diagnostic, DiagSet, diag_set_add}

pub data CcStatus : Type 0 where
  ok missing malformed : CcStatus

pub record DocSnapshot : Type 0 where
  pub uri : Bytes
  pub tok_spans : List TokenSpan

-- `project_index` is `none` for -1.
pub record WsDoc : Type 0 where
  pub snap : Option DocSnapshot
  pub project_index : Option ℕ
  pub disk_only : Bool

-- The projects are given by their addresses.
pub record WorkspaceSnapshot : Type 0 where
  pub docs : List WsDoc
  pub projects : List ℕ
  pub cc_status : CcStatus

pub warning : LspRange → Bytes → Diagnostic
warning range message = record {
  range = range;
  severity = 2;
  source = some (codes "taskjuggler-lsp");
  message = some message;
}

abbrev pub add_warning : DiagSet → Bytes → LspRange → Bytes → DiagSet
add_warning out uri range message = diag_set_add out uri (warning range message)

-- The two texts of each kind of file.
pub fragment_message : CcStatus → Bytes
fragment_message status = elim status [
  | CcStatus.malformed ↦
      codes
        "Malformed compile_commands.json, this file will be parsed stand-alone, not as part of any other loaded .tjp file that includes it."
  | _ ↦
      codes
        "Missing compile_commands.json, this file will be parsed stand-alone, not as part of any other loaded .tjp file that includes it."
]

pub include_message : CcStatus → Bytes
include_message status = elim status [
  | CcStatus.malformed ↦
      codes "Malformed compile_commands.json, cross-file LSP features are disabled."
  | _ ↦ codes "Missing compile_commands.json, cross-file LSP features are disabled."
]

pub is_tji : Bytes → Bool
is_tji uri = leb 4 (length uri) && str_eq (drop (length uri - 4) uri) (codes ".tji")

-- All of the first line: INT_MAX characters.
abbrev pub first_line : LspRange
first_line = record {
  start = record { line = 0; character = 0 };
  end = record { line = 0; character = 2147483647 };
}

abbrev pub is_include : TokenKind → Bool
is_include k = elim k [ TokenKind.kw_include ↦ true | _ ↦ false ]

pub warn_includes : Bytes → CcStatus → List TokenSpan → DiagSet → DiagSet
warn_includes uri status [] out = out
warn_includes uri status (t ∷ ts) out = warn_includes uri status ts (
    if is_include t.token_kind
    then add_warning out uri record { start = t.start; end = t.end } (include_message status)
    else out)

pub collect_doc_cc_warnings : DocSnapshot → CcStatus → DiagSet → DiagSet
collect_doc_cc_warnings s status out =
    if is_tji s.uri
    then add_warning out s.uri first_line (fragment_message status)
    else warn_includes s.uri status s.tok_spans out

-- The place of a project, or `none` for -1.
pub index_from : List ℕ → ℕ → ℕ → Option ℕ
index_from [] proj i = none
index_from (p ∷ ps) proj i =
    let rest = index_from ps proj (suc i) in if p == proj then some i else rest

abbrev pub same_index : Option ℕ → ℕ → Bool
same_index none i = false
same_index (some j) i = j == i

pub collect_docs : List WsDoc → ℕ → CcStatus → DiagSet → DiagSet
collect_docs [] pindex status out = out
collect_docs (w ∷ ws) pindex status out = collect_docs ws pindex status (
    if not (same_index w.project_index pindex) || w.disk_only
    then out
    else elim w.snap [ none ↦ out | some s ↦ collect_doc_cc_warnings s status out ])

pub diag_collect_cc_missing : WorkspaceSnapshot → ℕ → DiagSet → DiagSet
diag_collect_cc_missing ws proj out = elim ws.cc_status [
  | CcStatus.ok ↦ out
  | _ ↦ elim (index_from ws.projects proj 0) [
    | none ↦ out
    | some pindex ↦ collect_docs ws.docs pindex ws.cc_status out
  ]
]
