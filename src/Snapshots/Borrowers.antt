-- ===== src/Snapshots/Borrowers.antt =====
-- src/server.c, src/diag_worker.c: the references of query contexts and of the diagnostics threads.
use taskjuggler_lsp.Base.{
  ℕ, ◌+◌, ◌≤◌, ◌≡◌, inl, inr, refl, Option, none, some, List, [], ◌∷◌, ◌++◌, get_elem?, set, arith,
  Option-cases,
}
use taskjuggler_lsp.DocumentStore.{Document}
use taskjuggler_lsp.Snapshots.{
  ok, Counts, WsCell, ws_release, prev_snap_of, QueryContext, no_context, DiagWorker, Owners,
  build_query_context, query_context_free, diag_worker_request, diag_worker_take, run_once_end,
  diag_worker_stop,
}
use taskjuggler_lsp.Snapshots.Balance.{
  total, total-set, total-append, total-le, points, Balanced-same, docsnap_acquire-Balanced,
  docsnap_release-Balanced,
}
use taskjuggler_lsp.Snapshots.Cells.{ws_acquire-Balanced, ws_release-Balanced}
use taskjuggler_lsp.Snapshots.Held.{doc_refs, worker_refs, snap_refs, ws_refs, Counted, Safe}

prev_snap_of-le :
    (ds : List Document) (i a : ℕ)
    → points (prev_snap_of (get_elem? ds i)) a ≤ total (λ d. doc_refs d a) ds
prev_snap_of-le ds i a = elim (Option-cases (get_elem? ds i)) [
  | inl nothing ↦ rw nothing (omega arith)
  | inr (d, got) ↦ rw got (omega (arith, total-le (λ d. doc_refs d a) ds i d got))
]

pub build_query_context-Safe : (s : Owners) (i : ℕ) → Counted s → Safe (build_query_context s i)
unfolding build_query_context
build_query_context-Safe s i b =
    let prev = prev_snap_of (get_elem? s.docs i) in
    let c : QueryContext = record { prev_snap = prev; ws = s.g_ws } in
    let (h, e, b₁) =
      docsnap_acquire-Balanced s.snaps prev b
        (λ a pos. omega (arith, pos, prev_snap_of-le s.docs i a)) in
    let (cells, e', b₂) = ws_acquire-Balanced s.cells s.g_ws b₁ (λ w pos. omega (arith, pos)) in
    (
      record s { snaps = h; cells = cells; contexts = s.contexts ++ (c ∷ []) },
      rw (build_query_context, e, e') refl,
      Balanced-same b₂ (λ a. omega (arith, total-append (λ x. points x.prev_snap a) s.contexts c))
          (λ w. omega (arith, total-append (λ x. points x.ws w) s.contexts c)),
    )

pub query_context_free-Safe : (s : Owners) (k : ℕ) → Counted s → Safe (query_context_free s k)
unfolding query_context_free
query_context_free-Safe s k b = elim (Option-cases (get_elem? s.contexts k)) [
  | inl nothing ↦ rw (nothing, query_context_free) (s, refl, b)
  | inr (c, got) ↦
      let s' : Owners = record s { contexts = set s.contexts k no_context } in
      let (h, e, b₁) = docsnap_release-Balanced {R = snap_refs s'} s.snaps c.prev_snap (
        Balanced-same b
          (λ a. omega (arith, total-set (λ x. points x.prev_snap a) s.contexts k c no_context got))
          (λ w. refl)) in
      let (h', cells, e', b₂) = ws_release-Balanced {H = ws_refs s'} h s.cells c.ws (
        Balanced-same b₁ (λ a. refl)
          (λ w. omega (arith, total-set (λ x. points x.ws w) s.contexts k c no_context got))) in
      (record s' { snaps = h'; cells = cells }, rw (got, query_context_free, e, e') refl, b₂)
]

-- A worker that gives up a pointer, after the snapshot was released.
release-Safe :
    (s : Owners) (j : ℕ) (k k' : DiagWorker) (o : Option ℕ)
    → Counted s
    → get_elem? s.workers j ≡ some k
    → ((w : ℕ) → worker_refs k' w + points o w ≡ worker_refs k w)
    → (h : Counts) × (cells : List WsCell) × (ws_release s.snaps s.cells o ≡ ok (h, cells))
      × Counted record s { snaps = h; cells = cells; workers = set s.workers j k' }
release-Safe s j k k' o b got less =
    ws_release-Balanced {H = ws_refs (record s { workers = set s.workers j k' })} s.snaps s.cells o
      (Balanced-same b (λ a. refl)
        (λ w. omega (arith, less w, total-set (λ x. worker_refs x w) s.workers j k k' got)))

pub diag_worker_request-Safe : (s : Owners) (j : ℕ) → Counted s → Safe (diag_worker_request s j)
unfolding diag_worker_request
diag_worker_request-Safe s j b = elim (Option-cases (get_elem? s.workers j)) [
  | inl nothing ↦ rw (nothing, diag_worker_request) (s, refl, b)
  | inr (k, got) ↦
      let k' : DiagWorker = record k { pending = s.g_ws } in
      let s' : Owners = record s { workers = set s.workers j k' } in
      let (cells, e, b₁) = ws_acquire-Balanced s.cells s.g_ws b (λ w pos. omega (arith, pos)) in
      let (h, cells', e', b₂) = ws_release-Balanced {H = ws_refs s'} s.snaps cells k.pending (
        Balanced-same b₁ (λ a. refl)
          (λ w. omega (arith, total-set (λ x. worker_refs x w) s.workers j k k' got))) in
      (record s' { snaps = h; cells = cells' }, rw (got, diag_worker_request, e, e') refl, b₂)
]

pub diag_worker_take-Safe : (s : Owners) (j : ℕ) → Counted s → Safe (diag_worker_take s j)
unfolding diag_worker_take
diag_worker_take-Safe s j b = elim (Option-cases (get_elem? s.workers j)) [
  | inl nothing ↦ rw (nothing, diag_worker_take) (s, refl, b)
  | inr (k, got) ↦ elim (Option-cases k.running) [
    | inr (w, busy) ↦ rw (got, diag_worker_take, busy) (s, refl, b)
    | inl idle ↦
        let k' : DiagWorker = record { pending = none; running = k.pending } in
        (
          record s { workers = set s.workers j k' },
          rw (got, diag_worker_take, idle) refl,
          Balanced-same b (λ a. refl)
              (λ w.
                let none_running : points k.running w ≡ 0 = rw idle refl in
                omega (arith, none_running, total-set (λ x. worker_refs x w) s.workers j k k' got)),
        )
  ]
]

pub run_once_end-Safe : (s : Owners) (j : ℕ) → Counted s → Safe (run_once_end s j)
unfolding run_once_end
run_once_end-Safe s j b = elim (Option-cases (get_elem? s.workers j)) [
  | inl nothing ↦ rw (nothing, run_once_end) (s, refl, b)
  | inr (k, got) ↦
      let k' : DiagWorker = record k { running = none } in
      let (h, cells, e, b') = release-Safe s j k k' k.running b got (λ w. omega arith) in
      (
        record s { snaps = h; cells = cells; workers = set s.workers j k' },
        rw (got, run_once_end, e) refl,
        b',
      )
]

pub diag_worker_stop-Safe : (s : Owners) (j : ℕ) → Counted s → Safe (diag_worker_stop s j)
unfolding diag_worker_stop
diag_worker_stop-Safe s j b = elim (Option-cases (get_elem? s.workers j)) [
  | inl nothing ↦ rw (nothing, diag_worker_stop) (s, refl, b)
  | inr (k, got) ↦
      let k' : DiagWorker = record k { pending = none } in
      let (h, cells, e, b') = release-Safe s j k k' k.pending b got (λ w. omega arith) in
      (
        record s { snaps = h; cells = cells; workers = set s.workers j k' },
        rw (got, diag_worker_stop, e) refl,
        b',
      )
]
