-- ===== src/Workspace/Homes.antt =====
-- src/workspace.c: each parsed document of a snapshot has a project that it stands in.
use taskjuggler_lsp.Base.{
  ℕ, zero, suc, ◌+◌, ◌<◌, ◌≡◌, inl, inr, refl, true, false, ◌&&◌, Option, none, some, List, [], ◌∷◌,
  length, length-append, get_elem?, get_elem?-append_length, Bytes, arith, Bool-cases, Option-cases,
  subst,
}
use taskjuggler_lsp.DocumentStore.{Document}
use taskjuggler_lsp.Workspace.{
  WsProject, WorkspaceSnapshot, has, is_parsed, slot_to_wsdoc, ws_alloc, ws_add_project,
  ws_doc_index_of, copy_document_into_project, assign_doc_to_project, contains, included, includes,
  Search, offer, scan_includes, populate_from, project_populate_from_root, add_cc_projects,
  add_orphan, add_orphans, build_workspace_snapshot,
}
use taskjuggler_lsp.Workspace.Numbering.{number_from-parsed, number_from-inj}
use taskjuggler_lsp.Workspace.Extends.{
  InProject, Homed, Extends, Extends-refl, Extends-trans, Separate, copy-in, copy-Extends,
  add_project-Extends, stamp-Extends, assign-Extends,
}

module _ (realpath : Bytes → Option Bytes) (docs : List Document) (slots : List (Option ℕ)) where
  module _ (inj : Separate slots) where
    module _ (pidx : ℕ) where
      offer-Extends :
          (s : Search realpath docs) (o : Option ℕ)
          → pidx < length s.ws.projects
          → Extends slots s.ws (offer realpath docs slots pidx s o).ws
      offer-Extends s none small = Extends-refl slots s.ws
      offer-Extends s (some child) small = elim (Bool-cases (contains s.visited child)) [
        | inl seen ↦ rw seen (Extends-refl slots s.ws)
        | inr new ↦ rw new (assign-Extends slots inj s.ws pidx child small)
      ]

      scan-Extends :
          (s : Search realpath docs) (uris : List Bytes)
          → pidx < length s.ws.projects
          → Extends slots s.ws (scan_includes realpath docs slots pidx s uris).ws
      unfolding scan_includes
      scan-Extends s [] small = Extends-refl slots s.ws
      scan-Extends s (uri ∷ uris) small =
          let o = included realpath docs uri in
          let e = offer-Extends s o small in
          Extends-trans slots e
            (scan-Extends (offer realpath docs slots pidx s o) uris (omega (arith, e.size)))

      populate_from-Extends :
          (fuel : ℕ) (s : Search realpath docs) (ps : List ℕ)
          → s.pending ≡ ps
          → pidx < length s.ws.projects
          → Extends slots s.ws (populate_from realpath docs slots pidx fuel s).ws
      unfolding populate_from
      populate_from-Extends zero s ps e small = Extends-refl slots s.ws
      populate_from-Extends (suc fuel) s [] e small =
          rw (e, populate_from) (Extends-refl slots s.ws)
      populate_from-Extends (suc fuel) s (cur ∷ rest) e small =
          let s₁ : Search realpath docs = record s { pending = rest } in
          let s₂ = scan_includes realpath docs slots pidx s₁ (includes realpath docs cur) in
          let scanned = scan-Extends s₁ (includes realpath docs cur) small in
          rw (e, populate_from)
            (Extends-trans slots scanned
              (populate_from-Extends fuel s₂ s₂.pending refl (omega (arith, scanned.size))))

      populate-Extends :
          (ws : WorkspaceSnapshot) (root : ℕ)
          → pidx < length ws.projects
          → Extends slots ws (project_populate_from_root realpath docs slots pidx ws root).ws
      unfolding project_populate_from_root
      populate-Extends ws root small =
          let e = assign-Extends slots inj ws pidx root small in
          Extends-trans slots e (
            populate_from-Extends (suc (length docs))
              record {
                pending = root ∷ [];
                visited = root ∷ [];
                ws = assign_doc_to_project slots ws pidx root;
              }
              (root ∷ []) refl (omega (arith, e.size)))

    add_cc_projects-Extends :
        (ws : WorkspaceSnapshot) (i : ℕ) (ds : List Document)
        → Extends slots ws (add_cc_projects realpath docs slots ws i ds)
    unfolding add_cc_projects
    add_cc_projects-Extends ws i [] = Extends-refl slots ws
    add_cc_projects-Extends ws i (d ∷ ds) =
        elim (Bool-cases (d.in_use && (d.is_cc_root && has d.snap))) [
          | inl root ↦
              let ws₁ = ws_add_project ws d.uri true in
              let added = add_project-Extends slots ws d.uri true in
              let filled = populate-Extends (length ws.projects) ws₁ i (
                omega (
                  arith,
                  length-append ws.projects
                      (record { id = d.uri; from_compile_commands = true; members = [] } ∷ []),
                )) in
              rw (root, add_cc_projects)
                (Extends-trans slots (Extends-trans slots added filled) (
                  add_cc_projects-Extends
                    (project_populate_from_root realpath docs slots (length ws.projects) ws₁ i).ws
                    (suc i) ds))
          | inr other ↦ rw (other, add_cc_projects) (add_cc_projects-Extends ws (suc i) ds)
        ]

    add_orphan-Extends :
        (ws : WorkspaceSnapshot) (i : ℕ) (d : Document) (o : Option ℕ)
        → ws_doc_index_of slots i ≡ o
        → Extends slots ws (add_orphan realpath docs ws i d o)
    add_orphan-Extends ws i d none at = Extends-refl slots ws
    add_orphan-Extends ws i d (some w) at = elim (Bool-cases (has (ws.project_index w))) [
      | inl taken ↦ rw taken (Extends-refl slots ws)
      | inr free ↦
          let pidx = length ws.projects in
          let ws₁ = ws_add_project ws d.uri false in
          let own : WsProject = record {
            id = d.uri;
            from_compile_commands = false;
            members = [];
          } in
          rw free (
            Extends-trans slots (add_project-Extends slots ws d.uri false) (
              Extends-trans slots (copy-Extends slots ws₁ pidx i) (
                stamp-Extends slots inj (copy_document_into_project ws₁ pidx i) i w pidx at
                  (copy-in slots ws₁ pidx i own (get_elem?-append_length ws.projects [] own)))))
    ]

    add_orphan-claims :
        (ws : WorkspaceSnapshot) (i w : ℕ) (d : Document)
        → has ((add_orphan realpath docs ws i d (some w)).project_index w) ≡ true
    add_orphan-claims ws i w d = ground arith

    add_orphans-Extends :
        (ws : WorkspaceSnapshot) (i : ℕ) (ds : List Document)
        → Extends slots ws (add_orphans realpath docs slots ws i ds)
    unfolding add_orphans
    add_orphans-Extends ws i [] = Extends-refl slots ws
    add_orphans-Extends ws i (d ∷ ds) =
        Extends-trans slots (add_orphan-Extends ws i d (ws_doc_index_of slots i) refl) (
          add_orphans-Extends (add_orphan realpath docs ws i d (ws_doc_index_of slots i)) (suc i)
            ds)

    add_orphans-claims :
        (ws : WorkspaceSnapshot) (k : ℕ) (ds : List Document) (j w : ℕ) (d : Document)
        → get_elem? ds j ≡ some d
        → ws_doc_index_of slots (k + j) ≡ some w
        → has ((add_orphans realpath docs slots ws k ds).project_index w) ≡ true
    unfolding add_orphans
    add_orphans-claims ws k [] j w d got at = absurd (ground (arith, got))
    add_orphans-claims ws k (d' ∷ ds) zero w d got at =
        let ws₁ = add_orphan realpath docs ws k d' (ws_doc_index_of slots k) in
        let here : ws_doc_index_of slots k ≡ some w =
          subst (λ (x : ℕ). ws_doc_index_of slots x ≡ some w) (omega arith) at in
        (add_orphans-Extends ws₁ (suc k) ds).claimed w (rw here (add_orphan-claims ws k w d'))
    add_orphans-claims ws k (d' ∷ ds) (suc j) w d got at =
        add_orphans-claims (add_orphan realpath docs ws k d' (ws_doc_index_of slots k)) (suc k) ds j
          w d got (subst (λ (x : ℕ). ws_doc_index_of slots x ≡ some w) (omega arith) at)

-- The document has a number in the snapshot, the number a project, and the document stands in it.
pub record Home (docs : List Document) (ws : WorkspaceSnapshot) (i : ℕ) : Type 0 where
  pub wsd : ℕ
  pub numbered : ws_doc_index_of (slot_to_wsdoc docs) i ≡ some wsd
  pub pidx : ℕ
  pub stamped : ws.project_index wsd ≡ some pidx
  pub inside : InProject ws pidx i

-- Each parsed document is numbered in the snapshot, its number is stamped with a project, and the
-- document was copied into that project.
pub build_workspace_snapshot-Home :
    (realpath : Bytes → Option Bytes) (docs : List Document) (i : ℕ) (d : Document)
    → get_elem? docs i ≡ some d
    → is_parsed d ≡ true
    → Home docs (build_workspace_snapshot realpath docs) i
unfolding build_workspace_snapshot slot_to_wsdoc
build_workspace_snapshot-Home realpath docs i d got parsed =
    let slots = slot_to_wsdoc docs in
    let inj : Separate slots = number_from-inj 0 docs in
    let (wsd, numbered) = number_from-parsed 0 docs i d got parsed in
    let ws₁ = add_cc_projects realpath docs slots ws_alloc 0 docs in
    let all =
      Extends-trans slots (add_cc_projects-Extends realpath docs slots inj ws_alloc 0 docs)
        (add_orphans-Extends realpath docs slots inj ws₁ 0 docs) in
    let homed : Homed slots (build_workspace_snapshot realpath docs) =
      all.homed (λ j w p at none_stamped. absurd (ground (arith, none_stamped))) in
    elim (Option-cases ((build_workspace_snapshot realpath docs).project_index wsd)) [
      | inl unclaimed ↦
          let at : ws_doc_index_of slots (0 + i) ≡ some wsd =
            subst (λ (x : ℕ). ws_doc_index_of slots x ≡ some wsd) (omega arith) numbered in
          absurd (
            ground (
              arith,
              unclaimed,
              add_orphans-claims realpath docs slots inj ws₁ 0 docs i wsd d got at,
            ))
      | inr (pidx, stamped) ↦ record {
        wsd = wsd;
        numbered = numbered;
        pidx = pidx;
        stamped = stamped;
        inside = homed i wsd pidx numbered stamped;
      }
    ]
