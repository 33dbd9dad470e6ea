-- ===== src/CcWarnings/Listed.antt =====
-- src/diagnostics.c: which warnings are added for which file.
use taskjuggler_lsp.Base.{
  ℕ, ◌≡◌, ◌≢◌, refl, ◌∙◌, sym, ap, ◌||◌, not, Bool-cases, inl, inr, if◌then◌else◌, none, some,
  Option-cases, List, [], ◌∷◌, ◌++◌, append_assoc, append-nil, Bytes, str_eq, arith,
}
use taskjuggler_lsp.Syntax.{TokenSpan}
use taskjuggler_lsp.Diagnostics.{Diagnostic, DiagSet, diag_set_add}
use taskjuggler_lsp.Diagnostics.View.{items_of, items_of-diag_set_add}
use taskjuggler_lsp.CcWarnings.{
  CcStatus, DocSnapshot, WsDoc, WorkspaceSnapshot, warning, fragment_message, include_message,
  is_tji, first_line, is_include, warn_includes, collect_doc_cc_warnings, index_from, same_index,
  collect_docs, diag_collect_cc_missing,
}

-- A warning on each `include`.
abbrev pub include_warnings : CcStatus → List TokenSpan → List Diagnostic
include_warnings status [] = []
include_warnings status (t ∷ ts) =
    (if is_include t.token_kind
      then warning record { start = t.start; end = t.end } (include_message status) ∷ []
      else [])
    ++ include_warnings status ts

-- The warnings of a document: one on the first line of a fragment, else one on each `include`.
abbrev pub doc_warnings : CcStatus → DocSnapshot → List Diagnostic
doc_warnings status s =
    if is_tji s.uri
    then warning first_line (fragment_message status) ∷ []
    else include_warnings status s.tok_spans

-- Those of the open documents of a project that have the URI.
abbrev pub open_warnings : CcStatus → ℕ → Bytes → WsDoc → List Diagnostic
open_warnings status pindex u w =
    if not (same_index w.project_index pindex) || w.disk_only
    then []
    else elim w.snap [ none ↦ [] | some s ↦ if str_eq s.uri u then doc_warnings status s else [] ]

abbrev pub listed : CcStatus → ℕ → Bytes → List WsDoc → List Diagnostic
listed status pindex u [] = []
listed status pindex u (w ∷ ws) = open_warnings status pindex u w ++ listed status pindex u ws

warn_includes-items :
    (uri : Bytes) (status : CcStatus) (ts : List TokenSpan) (out : DiagSet) (u : Bytes)
    → items_of (warn_includes uri status ts out) u
      ≡ items_of out u ++ (if str_eq uri u then include_warnings status ts else [])
unfolding warn_includes
warn_includes-items uri status [] out u = elim (Bool-cases (str_eq uri u)) [
  | inl m ↦ rw m (sym (append-nil (items_of out u)))
  | inr m ↦ rw m (sym (append-nil (items_of out u)))
]
warn_includes-items uri status (t ∷ ts) out u =
    let w = warning record { start = t.start; end = t.end } (include_message status) in
    let skipped = warn_includes-items uri status ts out u in
    let warned = warn_includes-items uri status ts (diag_set_add out uri w) u in
    let added = items_of-diag_set_add out uri w u in
    let assoc = append_assoc (items_of out u) (w ∷ []) (include_warnings status ts) in
    elim (Bool-cases (is_include t.token_kind)) [
      | inl inc ↦ rw inc (ground (arith, warned, added, assoc))
      | inr inc ↦ rw inc skipped
    ]

collect_doc-items :
    (s : DocSnapshot) (status : CcStatus) (out : DiagSet) (u : Bytes)
    → items_of (collect_doc_cc_warnings s status out) u
      ≡ items_of out u ++ (if str_eq s.uri u then doc_warnings status s else [])
unfolding collect_doc_cc_warnings
collect_doc-items s status out u =
    let added = items_of-diag_set_add out s.uri (warning first_line (fragment_message status)) u in
    elim (Bool-cases (is_tji s.uri)) [
      | inl tji ↦ rw tji (ground (arith, added, append-nil (items_of out u)))
      | inr tjp ↦ rw tjp (warn_includes-items s.uri status s.tok_spans out u)
    ]

pub collect_docs-items :
    (ws : List WsDoc) (pindex : ℕ) (status : CcStatus) (out : DiagSet) (u : Bytes)
    → items_of (collect_docs ws pindex status out) u ≡ items_of out u ++ listed status pindex u ws
unfolding collect_docs
collect_docs-items [] pindex status out u = sym (append-nil (items_of out u))
collect_docs-items (w ∷ ws) pindex status out u =
    elim (Bool-cases (not (same_index w.project_index pindex) || w.disk_only)) [
      | inl passed ↦ rw passed (collect_docs-items ws pindex status out u)
      | inr open_doc ↦ elim (Option-cases w.snap) [
        | inl none_yet ↦ rw open_doc (simp (none_yet) (collect_docs-items ws pindex status out u))
        | inr (s, e) ↦ rw open_doc (
            simp (e) (
              collect_docs-items ws pindex status (collect_doc_cc_warnings s status out) u
              ∙ ap (λ (l : List Diagnostic). l ++ listed status pindex u ws)
                  (collect_doc-items s status out u)
              ∙ append_assoc (items_of out u) (if str_eq s.uri u then doc_warnings status s else [])
                  (listed status pindex u ws)))
      ]
    ]

pub opened :
    (ws : WorkspaceSnapshot) (proj pindex : ℕ) (out : DiagSet) (status : CcStatus)
    → ws.cc_status ≡ status
    → status ≢ CcStatus.ok
    → index_from ws.projects proj 0 ≡ some pindex
    → diag_collect_cc_missing ws proj out ≡ collect_docs ws.docs pindex ws.cc_status out
unfolding diag_collect_cc_missing
opened ws proj pindex out CcStatus.ok e bad known = absurd (bad refl)
opened ws proj pindex out CcStatus.missing e bad known = ground (arith, e, known)
opened ws proj pindex out CcStatus.malformed e bad known = ground (arith, e, known)
