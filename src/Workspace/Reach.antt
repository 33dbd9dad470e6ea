-- ===== src/Workspace/Reach.antt =====
-- src/workspace.c: a compile_commands root's project has exactly the documents that its includes reach.
use taskjuggler_lsp.Base.{
  ℕ, zero, suc, ◌+◌, ◌≤◌, ◌<◌, ◌≡◌, ◌⊎◌, ◌↔◌, inl, inr, refl, ◌∙◌, sym, ap, true, false, ◌==◌,
  Option, none, some, List, [], ◌∷◌, ◌++◌, length, length-append, get_elem?, get_elem?-set_self,
  Bytes, arith, Each, Each-append, Bool-cases, Option-cases, subst,
}
use taskjuggler_lsp.JobQueue.Chain.{Distinct, Distinct-append}
use taskjuggler_lsp.ProjectTree.Caching.{get_elem?-lt}
use taskjuggler_lsp.DocumentStore.{Document, doc_find}
use taskjuggler_lsp.Workspace.{
  WsProject, with_member, WorkspaceSnapshot, claim, ws_doc_index_of, copy_document_into_project,
  assign_doc_to_project, contains, has_parse, included, includes, Search, reach, offer,
  scan_includes, populate_from, project_populate_from_root,
}
use taskjuggler_lsp.Workspace.Visits.{
  free, contains-append, free-append, free_le, contains-Absent, Each-weaken, Each-contains,
}

claim-projects :
    (ws : WorkspaceSnapshot) (o : Option ℕ) (pidx : ℕ) → (claim ws o pidx).projects ≡ ws.projects
unfolding claim
claim-projects ws none pidx = refl
claim-projects ws (some wsd) pidx = ground arith

pub assign-get :
    (slots : List (Option ℕ)) (ws : WorkspaceSnapshot) (pidx i : ℕ) (p : WsProject)
    → get_elem? ws.projects pidx ≡ some p
    → get_elem? (assign_doc_to_project slots ws pidx i).projects pidx ≡ some (with_member p i)
unfolding assign_doc_to_project copy_document_into_project
assign-get slots ws pidx i p got =
    ap (λ (ps : List WsProject). get_elem? ps pidx)
      (claim-projects (copy_document_into_project ws pidx i) (ws_doc_index_of slots i) pidx)
    ∙ rw (got, copy_document_into_project)
        (get_elem?-set_self ws.projects pidx (with_member p i)
          (get_elem?-lt ws.projects pidx p got))

module _ (realpath : Bytes → Option Bytes) (docs : List Document) where
  -- One of the includes leads to the document.
  abbrev pub Links : List Bytes → ℕ → Type 0
  Links [] v = ⊥
  Links (uri ∷ uris) v = (included realpath docs uri ≡ some v) ⊎ Links uris v

  pub data Reachable (root : ℕ) : ℕ → Type 0 where
    here : Reachable root root
    step : {u v : ℕ} → Reachable root u → Links (includes realpath docs u) v → Reachable root v

  has_parse-lt : (v : ℕ) → has_parse realpath docs v ≡ true → v < length docs
  has_parse-lt v e = elim (Option-cases (get_elem? docs v)) [
    | inl no_slot ↦ absurd (ground (arith, no_slot, e))
    | inr (d, got) ↦ get_elem?-lt docs v d got
  ]

  included-lt : (uri : Bytes) (v : ℕ) → included realpath docs uri ≡ some v → v < length docs
  unfolding included
  included-lt uri v e = elim (Option-cases (doc_find realpath docs uri)) [
    | inl nothing ↦ absurd (ground (arith, nothing, e))
    | inr (child, found) ↦ elim (Bool-cases (has_parse realpath docs child)) [
      | inl parsed ↦
          let same : child ≡ v = ground (arith, found, parsed, e) in
          subst (λ (x : ℕ). x < length docs) same (has_parse-lt child parsed)
      | inr empty ↦ absurd (ground (arith, found, empty, e))
    ]
  ]

  module _ (slots : List (Option ℕ)) (pidx root : ℕ) where
    -- The members of the project are the visited documents.
    abbrev Members : Search realpath docs → Type 0
    Members s = (p : WsProject) × (get_elem? s.ws.projects pidx ≡ some p) × (p.members ≡ s.visited)

    record Kept (s : Search realpath docs) : Type 0 where
      seen : Each (Reachable root) s.visited
      queued : Each (λ x. contains s.visited x ≡ true) s.pending
      once : Distinct s.visited
      rooted : contains s.visited root ≡ true
      members : Members s

    record Grows (s s' : Search realpath docs) : Type 0 where
      visited : (x : ℕ) → contains s.visited x ≡ true → contains s'.visited x ≡ true
      pending : (x : ℕ) → contains s.pending x ≡ true → contains s'.pending x ≡ true
      fresh :
          (x : ℕ)
          → contains s'.visited x ≡ true
          → (contains s.visited x ≡ true) ⊎ (contains s'.pending x ≡ true)
      less :
          free (length docs) s'.visited + length s'.pending
          ≤ free (length docs) s.visited + length s.pending

    refl-Grows : (s : Search realpath docs) → Grows s s
    refl-Grows s = record {
      visited = λ x e. e;
      pending = λ x e. e;
      fresh = λ x e. inl e;
      less = omega arith;
    }

    Grows-trans : {s t u : Search realpath docs} → Grows s t → Grows t u → Grows s u
    Grows-trans g h = record {
      visited = λ x e. h.visited x (g.visited x e);
      pending = λ x e. h.pending x (g.pending x e);
      fresh = λ x e. elim (h.fresh x e) [
        | inl old ↦ elim (g.fresh x old) [
          | inl older ↦ inl older
          | inr waits ↦ inr (h.pending x waits)
        ]
        | inr waits ↦ inr waits
      ];
      less = omega (arith, g.less, h.less);
    }

    reach-Grows :
        (s : Search realpath docs) (c : ℕ)
        → c < length docs
        → contains s.visited c ≡ false
        → Grows s (reach realpath docs slots pidx s c)
    reach-Grows s c small new = record {
      visited = λ x e. ground (arith, contains-append s.visited c x, e);
      pending = λ x e. ground (arith, contains-append s.pending c x, e);
      fresh =
          λ x e. ground (arith, contains-append s.visited c x, contains-append s.pending c x, e);
      less = omega (
        arith,
        free-append (length docs) s.visited c small new,
        length-append {0} s.pending (c ∷ []),
      );
    }

    reach-Kept :
        (s : Search realpath docs) (c : ℕ)
        → contains s.visited c ≡ false
        → Reachable root c
        → Kept s
        → Kept (reach realpath docs slots pidx s c)
    reach-Kept s c new reached k =
        let (p, got, same) = k.members in
        record {
          seen = Each-append (Reachable root) s.visited (c ∷ []) k.seen (reached, tt);
          queued =
              Each-append (λ x. contains (s.visited ++ (c ∷ [])) x ≡ true) s.pending (c ∷ [])
                (Each-weaken s.visited c s.pending k.queued)
                (ground (arith, contains-append s.visited c c), tt);
          rooted = ground (arith, contains-append s.visited c root, k.rooted);
          once = Distinct-append s.visited c k.once (contains-Absent s.visited c new);
          members = (
            with_member p c,
            assign-get slots s.ws pidx c p got,
            ap (λ (xs : List ℕ). xs ++ (c ∷ [])) same,
          );
        }

    offer-lem :
        (s : Search realpath docs) (o : Option ℕ)
        → ((c : ℕ) → o ≡ some c → Reachable root c × (c < length docs))
        → Kept s
        → Kept (offer realpath docs slots pidx s o)
          × Grows s (offer realpath docs slots pidx s o)
          × ((c : ℕ) → o ≡ some c → contains (offer realpath docs slots pidx s o).visited c ≡ true)
    offer-lem s none ok k = (k, refl-Grows s, λ c e. absurd (ground (arith, e)))
    offer-lem s (some c) ok k = elim (Bool-cases (contains s.visited c)) [
      | inl old ↦ rw old (k, refl-Grows s, λ x e. ground (arith, old, e))
      | inr new ↦
          let (reached, small) = ok c refl in
          rw new (
            reach-Kept s c new reached k,
            reach-Grows s c small new,
            λ x e. ground (arith, contains-append s.visited c x, e),
          )
    ]

    scan-lem :
        (s : Search realpath docs) (uris : List Bytes)
        → ((c : ℕ) → Links uris c → Reachable root c)
        → Kept s
        → Kept (scan_includes realpath docs slots pidx s uris)
          × Grows s (scan_includes realpath docs slots pidx s uris)
          × ((c : ℕ)
              → Links uris c
              → contains (scan_includes realpath docs slots pidx s uris).visited c ≡ true)
    unfolding scan_includes
    scan-lem s [] ok k = (k, refl-Grows s, λ c l. elim l [ ])
    scan-lem s (uri ∷ uris) ok k =
        let (k₁, g₁, first_in) =
          offer-lem s (included realpath docs uri) (λ c e. (ok c (inl e), included-lt uri c e)) k in
        let s₁ = offer realpath docs slots pidx s (included realpath docs uri) in
        let (k₂, g₂, rest_in) = scan-lem s₁ uris (λ c l. ok c (inr l)) k₁ in
        (
          k₂,
          Grows-trans g₁ g₂,
          λ c l. elim l [ inl e ↦ g₂.visited c (first_in c e) | inr later ↦ rest_in c later ],
        )

    -- The includes of all documents that have left the queue are visited.
    abbrev Closed : Search realpath docs → Type 0
    Closed s =
        (u v : ℕ)
        → contains s.visited u ≡ true
        → contains s.pending u ≡ false
        → Links (includes realpath docs u) v
        → contains s.visited v ≡ true

    expand-Closed :
        (s s' : Search realpath docs) (cur : ℕ) (rest : List ℕ)
        → s.pending ≡ cur ∷ rest
        → Closed s
        → Grows (record s { pending = rest }) s'
        → ((c : ℕ) → Links (includes realpath docs cur) c → contains s'.visited c ≡ true)
        → Closed s'
    expand-Closed s s' cur rest e closed g done u v old gone link = elim (g.fresh u old) [
      | inr waits ↦ absurd (ground (arith, waits, gone))
      | inl before ↦ elim (Bool-cases (cur == u)) [
        | inl same ↦ done v (
            subst (λ (x : ℕ). Links (includes realpath docs x) v) (sym (ground (arith, same))) link)
        | inr other ↦ elim (Bool-cases (contains rest u)) [
          | inl waits ↦ absurd (ground (arith, g.pending u waits, gone))
          | inr left ↦ g.visited v (closed u v before (rw e (ground (arith, other, left))) link)
        ]
      ]
    ]

    populate-lem :
        (fuel : ℕ) (s : Search realpath docs) (ps : List ℕ)
        → s.pending ≡ ps
        → free (length docs) s.visited + length ps < fuel
        → Kept s
        → Closed s
        → Kept (populate_from realpath docs slots pidx fuel s)
          × ((populate_from realpath docs slots pidx fuel s).pending ≡ [])
          × Closed (populate_from realpath docs slots pidx fuel s)
    unfolding populate_from
    populate-lem zero s ps e enough k closed = absurd (omega arith)
    populate-lem (suc fuel) s [] e enough k closed = rw (e, populate_from) (k, e, closed)
    populate-lem (suc fuel) s (cur ∷ rest) e enough k closed =
        let queued : Each (λ x. contains s.visited x ≡ true) (cur ∷ rest) =
          subst (Each (λ x. contains s.visited x ≡ true)) e k.queued in
        let reached : Reachable root cur =
          Each-contains (Reachable root) s.visited cur k.seen queued.0 in
        let s₁ : Search realpath docs = record s { pending = rest } in
        let k₁ : Kept s₁ = record {
          seen = k.seen;
          queued = queued.1;
          once = k.once;
          rooted = k.rooted;
          members = k.members;
        } in
        let (k₂, g, done) =
          scan-lem s₁ (includes realpath docs cur) (λ c l. Reachable.step reached l) k₁ in
        let s₂ = scan_includes realpath docs slots pidx s₁ (includes realpath docs cur) in
        rw (e, populate_from)
          (populate-lem fuel s₂ s₂.pending refl (omega (arith, g.less)) k₂
            (expand-Closed s s₂ cur rest e closed g done))

    reachable-visited :
        (s : Search realpath docs) (x : ℕ)
        → Kept s
        → s.pending ≡ []
        → Closed s
        → Reachable root x
        → contains s.visited x ≡ true
    reachable-visited s _ k empty closed Reachable.here = k.rooted
    reachable-visited s x k empty closed (Reachable.step {u} r l) =
        closed u x (reachable-visited s u k empty closed r) (rw empty refl) l

    -- What the search for a project's documents leaves.
    pub record Populated (s : Search realpath docs) : Type 0 where
      pub finished : s.pending ≡ []
      pub project : WsProject
      pub found : get_elem? s.ws.projects pidx ≡ some project
      pub once : Distinct project.members
      pub members : (x : ℕ) → (contains project.members x ≡ true) ↔ Reachable root x

    -- On an empty project and a root that is a slot, the search ends with an empty queue within its
    -- fuel, and the project then has each document that the includes reach from the root, once, and no
    -- other.
    pub project_populate_from_root-Populated :
        (ws : WorkspaceSnapshot) (p : WsProject)
        → get_elem? ws.projects pidx ≡ some p
        → p.members ≡ []
        → root < length docs
        → Populated (project_populate_from_root realpath docs slots pidx ws root)
    unfolding project_populate_from_root
    project_populate_from_root-Populated ws p got empty small =
        let s : Search realpath docs = record {
          pending = root ∷ [];
          visited = root ∷ [];
          ws = assign_doc_to_project slots ws pidx root;
        } in
        let k : Kept s = record {
          seen = (Reachable.here, tt);
          queued = (ground arith, tt);
          once = (tt, tt);
          rooted = ground arith;
          members = (
            with_member p root,
            assign-get slots ws pidx root p got,
            ap (λ (xs : List ℕ). xs ++ (root ∷ [])) empty,
          );
        } in
        let closed : Closed s = λ u v old gone link. absurd (ground (arith, old, gone)) in
        let (k', finished, closed') =
          populate-lem (suc (length docs)) s (root ∷ []) refl
            (omega (arith, free-append (length docs) [] root small refl, free_le (length docs) []))
            k closed in
        let s' = populate_from realpath docs slots pidx (suc (length docs)) s in
        let (q, found, same) = k'.members in
        record {
          finished = finished;
          project = q;
          found = found;
          once = rw same k'.once;
          members = λ x. (
            λ e. Each-contains (Reachable root) s'.visited x k'.seen (rw (← same) e),
            λ r. rw same (reachable-visited s' x k' finished closed' r),
          );
        }
