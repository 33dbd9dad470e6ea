-- ===== src/Workspace/Extends.antt =====
-- src/workspace.c: what each step of building a snapshot keeps.
use taskjuggler_lsp.Base.{
  ℕ, ◌≤◌, ◌<◌, ◌≡◌, inl, inr, refl, ◌∙◌, Bool, true, ◌==◌, Option, some, List, [], ◌∷◌, length,
  length-append, length-set, get_elem?, get_elem?-set_self, get_elem?-set_ne, get_elem?-append_left,
  get_elem?-below, Bytes, arith, Bool-cases, Option-cases, ℕ_discrete, subst,
}
use taskjuggler_lsp.ProjectTree.Caching.{get_elem?-lt}
use taskjuggler_lsp.Workspace.{
  WsProject, with_member, WorkspaceSnapshot, has, stamp, claim, ws_add_project, ws_doc_index_of,
  copy_document_into_project, assign_doc_to_project, contains,
}
use taskjuggler_lsp.Workspace.Visits.{contains-append}

-- The document stands in the project of the index.
abbrev pub InProject : WorkspaceSnapshot → ℕ → ℕ → Type 0
InProject ws p i =
    (proj : WsProject) × (get_elem? ws.projects p ≡ some proj) × (contains proj.members i ≡ true)

module _ (slots : List (Option ℕ)) where
  -- A document with a project stands in it.
  abbrev pub Homed : WorkspaceSnapshot → Type 0
  Homed ws =
      (i w p : ℕ)
      → ws_doc_index_of slots i ≡ some w
      → ws.project_index w ≡ some p
      → InProject ws p i

  pub record Extends (ws ws' : WorkspaceSnapshot) : Type 0 where
    pub in_project : (p i : ℕ) → InProject ws p i → InProject ws' p i
    pub claimed : (w : ℕ) → has (ws.project_index w) ≡ true → has (ws'.project_index w) ≡ true
    pub size : length ws.projects ≤ length ws'.projects
    pub homed : Homed ws → Homed ws'

  pub Extends-refl : (ws : WorkspaceSnapshot) → Extends ws ws
  Extends-refl ws = record {
    in_project = λ p i x. x;
    claimed = λ w e. e;
    size = omega arith;
    homed = λ h. h;
  }

  pub Extends-trans : {a b c : WorkspaceSnapshot} → Extends a b → Extends b c → Extends a c
  Extends-trans f g = record {
    in_project = λ p i x. g.in_project p i (f.in_project p i x);
    claimed = λ w e. g.claimed w (f.claimed w e);
    size = omega (arith, f.size, g.size);
    homed = λ h. g.homed (f.homed h);
  }

  pub copy-in :
      (ws : WorkspaceSnapshot) (pidx i : ℕ) (proj : WsProject)
      → get_elem? ws.projects pidx ≡ some proj
      → InProject (copy_document_into_project ws pidx i) pidx i
  unfolding copy_document_into_project
  copy-in ws pidx i proj got = (
    with_member proj i,
    rw (got, copy_document_into_project)
        (get_elem?-set_self ws.projects pidx (with_member proj i)
          (get_elem?-lt ws.projects pidx proj got)),
    ground (arith, contains-append proj.members i i),
  )

  copy-keeps :
      (ws : WorkspaceSnapshot) (pidx i p j : ℕ)
      → InProject ws p j
      → InProject (copy_document_into_project ws pidx i) p j
  unfolding copy_document_into_project
  copy-keeps ws pidx i p j (proj, got, inside) = elim (Option-cases (get_elem? ws.projects pidx)) [
    | inl nothing ↦ rw (nothing, copy_document_into_project) (proj, got, inside)
    | inr (own, found) ↦ elim (ℕ_discrete pidx p) [
      | yes same ↦
          let here : get_elem? ws.projects pidx ≡ some proj = rw same got in
          let x : InProject (copy_document_into_project ws pidx i) pidx j = (
            with_member proj i,
            rw (here, copy_document_into_project)
                (get_elem?-set_self ws.projects pidx (with_member proj i)
                  (get_elem?-lt ws.projects pidx proj here)),
            ground (arith, contains-append proj.members i j, inside),
          ) in
          subst (λ q. InProject (copy_document_into_project ws pidx i) q j) same x
      | no other ↦
          rw (found, copy_document_into_project)
            (proj, get_elem?-set_ne ws.projects (with_member own i) other ∙ got, inside)
    ]
  ]

  copy-stamps :
      (ws : WorkspaceSnapshot) (pidx i : ℕ)
      → (copy_document_into_project ws pidx i).project_index ≡ ws.project_index
  unfolding copy_document_into_project
  copy-stamps ws pidx i = elim (Option-cases (get_elem? ws.projects pidx)) [
    | inl nothing ↦ rw (nothing, copy_document_into_project) refl
    | inr (own, found) ↦ rw (found, copy_document_into_project) refl
  ]

  copy-size :
      (ws : WorkspaceSnapshot) (pidx i : ℕ)
      → length (copy_document_into_project ws pidx i).projects ≡ length ws.projects
  unfolding copy_document_into_project
  copy-size ws pidx i = elim (Option-cases (get_elem? ws.projects pidx)) [
    | inl nothing ↦ rw (nothing, copy_document_into_project) refl
    | inr (own, found) ↦
        rw (found, copy_document_into_project) (length-set ws.projects pidx (with_member own i))
  ]

  pub copy-Extends :
      (ws : WorkspaceSnapshot) (pidx i : ℕ) → Extends ws (copy_document_into_project ws pidx i)
  copy-Extends ws pidx i = record {
    in_project = copy-keeps ws pidx i;
    claimed = λ w e. rw (copy-stamps ws pidx i) e;
    size = omega (arith, copy-size ws pidx i);
    homed = λ h j w p at stamped.
        copy-keeps ws pidx i p j (h j w p at (rw (← copy-stamps ws pidx i) stamped));
  }

  pub add_project-Extends :
      (ws : WorkspaceSnapshot) (id : Bytes) (from_cc : Bool)
      → Extends ws (ws_add_project ws id from_cc)
  add_project-Extends ws id from_cc =
      let fresh : WsProject = record { id = id; from_compile_commands = from_cc; members = [] } in
      let keeps : (p i : ℕ) → InProject ws p i → InProject (ws_add_project ws id from_cc) p i =
        λ p i (proj, got, inside).
          (proj, get_elem?-append_left ws.projects (fresh ∷ []) p proj got, inside) in
      record {
        in_project = keeps;
        claimed = λ w e. e;
        size = omega (arith, length-append ws.projects (fresh ∷ []));
        homed = λ h i w p at stamped. keeps p i (h i w p at stamped);
      }

  -- No two slots have the same ws_doc.
  abbrev pub Separate : Type 0
  Separate =
      (i j w : ℕ) → ws_doc_index_of slots i ≡ some w → ws_doc_index_of slots j ≡ some w → i ≡ j

  module _ (inj : Separate) where
    pub stamp-Extends :
        (ws : WorkspaceSnapshot) (i w pidx : ℕ)
        → ws_doc_index_of slots i ≡ some w
        → InProject ws pidx i
        → Extends ws (stamp ws w pidx)
    stamp-Extends ws i w pidx at inside = record {
      in_project = λ p j x. x;
      claimed = λ v e. ground (arith, e);
      size = omega arith;
      homed = λ h j v p at' stamped. elim (Bool-cases (v == w)) [
        | inl same ↦
            let here : ws_doc_index_of slots j ≡ some w =
              subst (λ (x : ℕ). ws_doc_index_of slots j ≡ some x) (ground (arith, same)) at' in
            let project : pidx ≡ p = ground (arith, stamped, same) in
            subst (InProject ws p) (inj i j w at here)
              (subst (λ (q : ℕ). InProject ws q i) project inside)
        | inr other ↦ h j v p at' (ground (arith, stamped, other))
      ];
    }

    claim-Extends :
        (ws : WorkspaceSnapshot) (i pidx : ℕ)
        → InProject ws pidx i
        → Extends ws (claim ws (ws_doc_index_of slots i) pidx)
    unfolding claim
    claim-Extends ws i pidx inside = elim (Option-cases (ws_doc_index_of slots i)) [
      | inl nothing ↦ rw (nothing, claim) (Extends-refl ws)
      | inr (w, at) ↦ elim (Bool-cases (has (ws.project_index w))) [
        | inl taken ↦ rw (at, claim, taken) (Extends-refl ws)
        | inr free ↦ rw (at, claim, free) (stamp-Extends ws i w pidx at inside)
      ]
    ]

    pub assign-Extends :
        (ws : WorkspaceSnapshot) (pidx i : ℕ)
        → pidx < length ws.projects
        → Extends ws (assign_doc_to_project slots ws pidx i)
    unfolding assign_doc_to_project
    assign-Extends ws pidx i small =
        let (proj, got) = get_elem?-below ws.projects pidx small in
        Extends-trans (copy-Extends ws pidx i)
          (claim-Extends (copy_document_into_project ws pidx i) i pidx (copy-in ws pidx i proj got))
