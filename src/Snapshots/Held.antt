-- ===== src/Snapshots/Held.antt =====
-- src/document_store.c, src/workspace.c: the references of the documents and of the published snapshot.
use taskjuggler_lsp.Base.{
  ℕ, suc, ◌+◌, ◌≤◌, ◌≡◌, inl, inr, refl, Bool, none, some, List, [], ◌∷◌, ◌++◌, length, get_elem?,
  set, if◌then◌else◌, arith, Bool-cases, Option-cases,
}
use taskjuggler_lsp.DocumentStore.{Document, empty_slot}
use taskjuggler_lsp.Snapshots.{
  Outcome, ok, Counts, docsnap_new, WsCell, doc_clear_parse_state, doc_install_parse, doc_free,
  DiagWorker, Owners, on_slot, parsed_snaps, publish_workspace_snapshot,
}
use taskjuggler_lsp.Snapshots.Balance.{
  total, total-set, points, occurs, Balanced, Balanced-same, docsnap_new-Balanced,
  docsnap_release-Balanced,
}
use taskjuggler_lsp.Snapshots.Cells.{acquire_each-Balanced, append-Balanced, ws_release-Balanced}

abbrev pub doc_refs : Document → ℕ → ℕ
doc_refs d a = points d.snap a + points d.prev_snap a

abbrev pub worker_refs : DiagWorker → ℕ → ℕ
worker_refs k w = points k.pending w + points k.running w

-- The pointers to a document snapshot, but for those in workspace snapshots.
abbrev pub snap_refs : Owners → ℕ → ℕ
snap_refs s a = total (λ d. doc_refs d a) s.docs + total (λ c. points c.prev_snap a) s.contexts

-- The pointers to a workspace snapshot.
abbrev pub ws_refs : Owners → ℕ → ℕ
ws_refs s w =
    points s.g_ws w + total (λ c. points c.ws w) s.contexts + total (λ k. worker_refs k w) s.workers

-- The counts are the numbers of pointers.
abbrev pub Counted : Owners → Type 0
Counted s = Balanced (snap_refs s) (ws_refs s) s.snaps s.cells

-- No freed object was used, and the counts are right after.
abbrev pub Safe : Outcome Owners → Type 0
Safe o = (s : Owners) × (o ≡ ok s) × Counted s

-- An operation on a document replaces its references.
abbrev pub Replaces : (Counts → Document → Outcome (Counts × Document)) → Type 0
Replaces f =
    (R H : ℕ → ℕ) (h : Counts) (cells : List WsCell) (d : Document)
    → Balanced (λ a. R a + doc_refs d a) H h cells
    → (h' : Counts) × (d' : Document) × (f h d ≡ ok (h', d'))
      × Balanced (λ a. R a + doc_refs d' a) H h' cells

doc_clear_parse_state-Balanced :
    (R H : ℕ → ℕ) (h : Counts) (cells : List WsCell) (d : Document)
    → Balanced (λ a. R a + doc_refs d a) H h cells
    → (h' : Counts) × (doc_clear_parse_state h d
        ≡ ok (h', record d { snap = none; prev_snap = none }))
      × Balanced R H h' cells
unfolding doc_clear_parse_state
doc_clear_parse_state-Balanced R H h cells d b =
    let (h₁, e₁, b₁) =
      docsnap_release-Balanced {R = λ a. R a + points d.prev_snap a} h d.snap
        (Balanced-same b (λ a. omega arith) (λ w. refl)) in
    let (h₂, e₂, b₂) = docsnap_release-Balanced {R = R} h₁ d.prev_snap b₁ in
    (h₂, rw (doc_clear_parse_state, e₁, e₂) refl, b₂)

pub doc_clear_parse_state-Replaces : Replaces doc_clear_parse_state
doc_clear_parse_state-Replaces R H h cells d b =
    let (h', e, b') = doc_clear_parse_state-Balanced R H h cells d b in
    (
      h',
      record d { snap = none; prev_snap = none },
      e,
      Balanced-same b' (λ a. omega arith) (λ w. refl),
    )

pub doc_install_parse-Replaces : (parsed : Bool) → Replaces (λ h d. doc_install_parse h d parsed)
unfolding doc_install_parse
doc_install_parse-Replaces parsed R H h cells d b =
    let (h₁, fresh) = docsnap_new h parsed in
    let b₁ = docsnap_new-Balanced h parsed b in
    let (h₂, e₂, b₂) =
      docsnap_release-Balanced {R = λ a. R a + points d.snap a + points fresh a} h₁ d.prev_snap
        (Balanced-same b₁ (λ a. omega arith) (λ w. refl)) in
    (
      h₂,
      record d {
        doc_version = if parsed then suc d.doc_version else d.doc_version;
        prev_snap = d.snap;
        snap = fresh;
      },
      rw (doc_install_parse, e₂) refl,
      Balanced-same b₂ (λ a. omega arith) (λ w. refl),
    )

pub doc_free-Replaces : Replaces doc_free
unfolding doc_free
doc_free-Replaces R H h cells d b =
    let (h', e, b') = doc_clear_parse_state-Balanced R H h cells d b in
    (h', empty_slot, rw (doc_free, e) refl, Balanced-same b' (λ a. omega arith) (λ w. refl))

pub on_slot-Safe :
    (f : Counts → Document → Outcome (Counts × Document)) (s : Owners) (i : ℕ)
    → Replaces f
    → Counted s
    → Safe (on_slot f s i)
unfolding on_slot
on_slot-Safe f s i replaces b = elim (Option-cases (get_elem? s.docs i)) [
  | inl nothing ↦ rw (nothing, on_slot) (s, refl, b)
  | inr (d, got) ↦
      let R : ℕ → ℕ = λ a.
        total (λ x. doc_refs x a) (set s.docs i empty_slot)
        + total (λ c. points c.prev_snap a) s.contexts in
      let (h, d', e, b') = replaces R (ws_refs s) s.snaps s.cells d (
        Balanced-same b
          (λ a. omega (arith, total-set (λ x. doc_refs x a) s.docs i d empty_slot got))
          (λ w. refl)) in
      (
        record s { docs = set s.docs i d'; snaps = h },
        rw (got, on_slot, e) refl,
        Balanced-same b'
            (λ a. omega (
              arith,
              total-set (λ x. doc_refs x a) s.docs i d empty_slot got,
              total-set (λ x. doc_refs x a) s.docs i d d' got,
            ))
            (λ w. refl),
      )
]

parsed_snaps-le :
    (ds : List Document) (a : ℕ) → occurs (parsed_snaps ds) a ≤ total (λ d. doc_refs d a) ds
unfolding parsed_snaps
parsed_snaps-le [] a = omega arith
parsed_snaps-le (d ∷ ds) a = elim (Option-cases d.snap) [
  | inl nothing ↦ rw (nothing, parsed_snaps) (omega (arith, parsed_snaps-le ds a))
  | inr (x, there) ↦ elim (Bool-cases d.in_use) [
    | inl used ↦ rw (there, parsed_snaps, used) (omega (arith, parsed_snaps-le ds a))
    | inr idle ↦ rw (there, parsed_snaps, idle) (omega (arith, parsed_snaps-le ds a))
  ]
]

pub publish_workspace_snapshot-Safe : (s : Owners) → Counted s → Safe (publish_workspace_snapshot s)
unfolding publish_workspace_snapshot
publish_workspace_snapshot-Safe s b =
    let taken = parsed_snaps s.docs in
    let (h, e, b₁) =
      acquire_each-Balanced s.snaps taken b
        (λ a pos. omega (arith, pos, parsed_snaps-le s.docs a)) in
    let cells = s.cells ++ (record { refcount = 1; snaps = taken } ∷ []) in
    let H : ℕ → ℕ = λ w.
      points (some (length s.cells)) w
      + total (λ c. points c.ws w) s.contexts
      + total (λ k. worker_refs k w) s.workers in
    let (h', cells', e', b₂) =
      ws_release-Balanced {R = snap_refs s} {H = H} h cells s.g_ws
        (Balanced-same (append-Balanced taken b₁) (λ a. refl) (λ w. omega arith)) in
    (
      record s { snaps = h'; cells = cells'; g_ws = some (length s.cells) },
      rw (publish_workspace_snapshot, e, e') refl,
      b₂,
    )
