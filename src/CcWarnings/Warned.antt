-- ===== src/CcWarnings/Warned.antt =====
-- src/diagnostics.c: the warnings of the documents of a project are collected.
use taskjuggler_lsp.Base.{
  ℕ, suc, ◌+◌, ◌≡◌, ◌≢◌, refl, ◌∙◌, sym, ap, subst, ◌||◌, not, Bool, true, false, Bool-cases, inl,
  inr, if◌then◌else◌, none, some, Option, Option-cases, List, [], ◌∷◌, ◌++◌, length, Bytes, str_eq,
  str_eq_iff, arith, Each,
}
use taskjuggler_lsp.Diagnostics.{Diagnostic, DiagSet}
use taskjuggler_lsp.Diagnostics.View.{items_of}
use taskjuggler_lsp.CcWarnings.{
  CcStatus, DocSnapshot, WsDoc, WorkspaceSnapshot, index_from, same_index, diag_collect_cc_missing,
}
use taskjuggler_lsp.CcWarnings.Listed.{
  doc_warnings, open_warnings, listed, collect_docs-items, opened,
}
use taskjuggler_lsp.CcWarnings.Promised.{DocsWarned, doc_warnings-DocWarned}

index_from-place :
    (front : List ℕ) (proj : ℕ) (behind : List ℕ) (i : ℕ)
    → Each (λ (p : ℕ). p ≢ proj) front
    → index_from (front ++ (proj ∷ behind)) proj i ≡ some (i + length front)
unfolding index_from
index_from-place [] proj behind i all = ground arith
index_from-place (p ∷ front) proj behind i (other, all) =
    ground (arith, other, index_from-place front proj behind (suc i) all)

same_index-eq : (o : Option ℕ) (i : ℕ) → same_index o i ≡ true → o ≡ some i
same_index-eq none i e = absurd (ground (arith, e))
same_index-eq (some j) i e = ap some (ground (arith, e))

kept_open :
    (o : Option ℕ) (i : ℕ) (disk : Bool)
    → (not (same_index o i) || disk) ≡ false
    → (o ≡ some i) × (disk ≡ false)
kept_open o i disk e = (same_index-eq o i (ground (arith, e)), ground (arith, e))

left_out :
    (o : Option ℕ) (i : ℕ) (disk : Bool)
    → (not (same_index o i) || disk) ≡ true
    → o ≡ some i
    → disk ≡ false
    → ⊥
left_out none i disk e there open_doc = absurd (ground (arith, there))
left_out (some j) i disk e there open_doc = absurd (ground (arith, e, there, open_doc))

some_same : (o : Option DocSnapshot) (s s' : DocSnapshot) → o ≡ some s → o ≡ some s' → s ≡ s'
some_same o s s' e e' = ground (arith, e, e')

other_uri :
    (o : Option DocSnapshot) (s s' : DocSnapshot) (u : Bytes)
    → str_eq s.uri u ≡ false
    → o ≡ some s
    → o ≡ some s'
    → s'.uri ≡ u
    → ⊥
other_uri o s s' u differs e e' same =
    let uris : s.uri ≡ u = ap (λ (d : DocSnapshot). d.uri) (some_same o s s' e e') ∙ same in
    let yes : str_eq s.uri u ≡ true = (str_eq_iff s.uri u).1 uris in
    absurd (ground (arith, differs, yes))

module _ (status : CcStatus) (pindex : ℕ) (u : Bytes) where
  open_warnings-passed :
      (w : WsDoc)
      → (not (same_index w.project_index pindex) || w.disk_only) ≡ true
      → open_warnings status pindex u w ≡ []
  open_warnings-passed w e = rw e refl

  open_warnings-missing :
      (w : WsDoc)
      → (not (same_index w.project_index pindex) || w.disk_only) ≡ false
      → w.snap ≡ none
      → open_warnings status pindex u w ≡ []
  open_warnings-missing w keep e = rw (keep, e) refl

  open_warnings-some :
      (w : WsDoc) (s : DocSnapshot)
      → (not (same_index w.project_index pindex) || w.disk_only) ≡ false
      → w.snap ≡ some s
      → open_warnings status pindex u w ≡ (if str_eq s.uri u then doc_warnings status s else [])
  open_warnings-some w s keep e = rw (keep, e) refl

  abbrev Next : WsDoc → List WsDoc → List Diagnostic → Type 0
  Next w ws own = DocsWarned status pindex u (w ∷ ws) (own ++ listed status pindex u ws)

  with_snap :
      (w : WsDoc) (ws : List WsDoc) (s : DocSnapshot)
      → (not (same_index w.project_index pindex) || w.disk_only) ≡ false
      → w.snap ≡ some s
      → DocsWarned status pindex u ws (listed status pindex u ws)
      → Next w ws (if str_eq s.uri u then doc_warnings status s else [])
  with_snap w ws s keep e later = elim (Bool-cases (str_eq s.uri u)) [
    | inl same ↦
        let (there, open_doc) = kept_open w.project_index pindex w.disk_only keep in
        rw same (
          DocsWarned.shown s (there, (open_doc, (e, (str_eq_iff s.uri u).0 same)))
            (doc_warnings-DocWarned status s) later)
    | inr other ↦
        rw other (DocsWarned.passed (λ s' x. other_uri w.snap s s' u other e x.1.1.0 x.1.1.1) later)
  ]

  listed-DocsWarned : (ws : List WsDoc) → DocsWarned status pindex u ws (listed status pindex u ws)
  listed-DocsWarned [] = DocsWarned.none_left
  listed-DocsWarned (w ∷ ws) =
      let later = listed-DocsWarned ws in
      elim (Bool-cases (not (same_index w.project_index pindex) || w.disk_only)) [
        | inl out ↦ subst (Next w ws) (sym (open_warnings-passed w out)) (
            DocsWarned.passed (λ s x. left_out w.project_index pindex w.disk_only out x.0 x.1.0)
              later)
        | inr keep ↦ elim (Option-cases w.snap) [
          | inl gone ↦
              subst (Next w ws) (sym (open_warnings-missing w keep gone))
                (DocsWarned.passed (λ s x. no_snap w.snap s gone x.1.1.0) later)
          | inr (s, e) ↦
              subst (Next w ws) (sym (open_warnings-some w s keep e))
                (with_snap w ws s keep e later)
        ]
      ]
    where
      no_snap : (o : Option DocSnapshot) (s : DocSnapshot) → o ≡ none → o ≡ some s → ⊥
      no_snap o s gone there = absurd (ground (arith, gone, there))

-- For a project of a workspace whose compile_commands.json is missing or malformed, each URI gets,
-- behind the diagnostics that it has, those of the project's open documents with that URI: for a
-- fragment, whose name ends in ".tji", one on its first line, for another file one on each `include`.
pub diag_collect_cc_missing-items :
    (ws : WorkspaceSnapshot) (front : List ℕ) (proj : ℕ) (behind : List ℕ) (out : DiagSet)
    (u : Bytes)
    → ws.cc_status ≢ CcStatus.ok
    → ws.projects ≡ front ++ (proj ∷ behind)
    → Each (λ (p : ℕ). p ≢ proj) front
    → (ds : List Diagnostic) × DocsWarned ws.cc_status (length front) u ws.docs ds
      × (items_of (diag_collect_cc_missing ws proj out) u ≡ items_of out u ++ ds)
diag_collect_cc_missing-items ws front proj behind out u bad place first =
    let known : index_from ws.projects proj 0 ≡ some (length front) =
      ap (λ (ps : List ℕ). index_from ps proj 0) place
      ∙ index_from-place front proj behind 0 first
      ∙ ap some (omega arith) in
    (
      listed ws.cc_status (length front) u ws.docs,
      listed-DocsWarned ws.cc_status (length front) u ws.docs,
      ap (λ (k : DiagSet). items_of k u)
            (opened ws proj (length front) out ws.cc_status refl bad known)
          ∙ collect_docs-items ws.docs (length front) ws.cc_status out u,
    )
