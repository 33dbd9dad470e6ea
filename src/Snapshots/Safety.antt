-- ===== src/Snapshots/Safety.antt =====
-- src/query_context.c: no operation uses a freed snapshot.
use taskjuggler_lsp.Base.{
  ℕ, ◌+◌, ◌≡◌, inl, inr, refl, ◌∙◌, ap, Option, none, some, List, [], ◌∷◌, set, arith, Option-cases,
  get_elem?-below, Bytes,
}
use taskjuggler_lsp.DocumentStore.{Document, occupied, slot_or_empty, doc_alloc}
use taskjuggler_lsp.DocumentStore.Slots.{doc_alloc-slot}
use taskjuggler_lsp.PathUtil.{normalize_uri}
use taskjuggler_lsp.Snapshots.{
  ok, doc_clear_parse_state, doc_install_parse, doc_free, Owners, start, diag_worker_spawn,
  Operation, perform, perform_all,
}
use taskjuggler_lsp.Snapshots.Balance.{total-set, total-append, held_in, refcount_of, Balanced-same}
use taskjuggler_lsp.Snapshots.Held.{
  doc_refs, worker_refs, snap_refs, ws_refs, Counted, Safe, doc_clear_parse_state-Replaces,
  doc_install_parse-Replaces, doc_free-Replaces, on_slot-Safe, publish_workspace_snapshot-Safe,
}
use taskjuggler_lsp.Snapshots.Borrowers.{
  build_query_context-Safe, query_context_free-Safe, diag_worker_request-Safe,
  diag_worker_take-Safe, run_once_end-Safe, diag_worker_stop-Safe,
}

module _ (realpath : Bytes → Option Bytes) where
  -- A slot keeps its snapshots when it is taken.
  doc_alloc-Counted :
      (s : Owners) (docs' : List Document) (uri : Bytes) (i : ℕ)
      → doc_alloc realpath s.docs uri ≡ some (docs', i)
      → Counted s
      → Counted (record s { docs = docs' })
  doc_alloc-Counted s docs' uri i taken b =
      let (small, same) = doc_alloc-slot realpath s.docs docs' uri i taken in
      let (d, got) = get_elem?-below s.docs i small in
      let d' : Document = occupied (normalize_uri realpath uri) d in
      let slots : docs' ≡ set s.docs i d' =
        same
        ∙ ap
            (λ (o : Option Document).
              set s.docs i (occupied (normalize_uri realpath uri) (slot_or_empty o)))
            got in
      Balanced-same b
        (λ a. rw slots (omega (arith, total-set (λ x. doc_refs x a) s.docs i d d' got))) (λ w. refl)

  perform-Safe : (s : Owners) (op : Operation) → Counted s → Safe (perform realpath s op)
  unfolding perform
  perform-Safe s (Operation.allocate uri) b = elim (Option-cases (doc_alloc realpath s.docs uri)) [
    | inl full ↦ rw (full, perform) (s, refl, b)
    | inr ((docs', i), taken) ↦
        rw (taken, perform)
          (record s { docs = docs' }, refl, doc_alloc-Counted s docs' uri i taken b)
  ]
  perform-Safe s (Operation.install i parsed) b =
      on_slot-Safe (λ h d. doc_install_parse h d parsed) s i (doc_install_parse-Replaces parsed) b
  perform-Safe s (Operation.clear i) b =
      on_slot-Safe doc_clear_parse_state s i doc_clear_parse_state-Replaces b
  perform-Safe s (Operation.free i) b = on_slot-Safe doc_free s i doc_free-Replaces b
  perform-Safe s Operation.publish b = publish_workspace_snapshot-Safe s b
  perform-Safe s (Operation.pin i) b = build_query_context-Safe s i b
  perform-Safe s (Operation.unpin k) b = query_context_free-Safe s k b
  perform-Safe s Operation.spawn b = (
    diag_worker_spawn s,
    refl,
    Balanced-same b (λ a. refl)
        (λ w. omega (
          arith,
          total-append (λ x. worker_refs x w) s.workers record { pending = none; running = none },
        )),
  )
  perform-Safe s (Operation.request j) b = elim (Option-cases s.g_ws) [
    | inl nothing ↦ rw (nothing, perform) (s, refl, b)
    | inr (w, there) ↦ rw (there, perform) (diag_worker_request-Safe s j b)
  ]
  perform-Safe s (Operation.take_request j) b = diag_worker_take-Safe s j b
  perform-Safe s (Operation.end_run j) b = run_once_end-Safe s j b
  perform-Safe s (Operation.stop_worker j) b = diag_worker_stop-Safe s j b

  perform_all-Safe :
      (s : Owners) (ops : List Operation) → Counted s → Safe (perform_all realpath s ops)
  unfolding perform_all
  perform_all-Safe s [] b = (s, refl, b)
  perform_all-Safe s (op ∷ ops) b =
      let (s₁, e, b₁) = perform-Safe s op b in rw (perform_all, e) (perform_all-Safe s₁ ops b₁)

  -- After any operations from the start, no freed snapshot was used; the count of each document snapshot
  -- is the number of pointers to it from documents, contexts and workspace snapshots that are not
  -- freed; and the count of each workspace snapshot is the number of pointers to it.
  pub no_use_after_free :
      (ops : List Operation)
      → (s : Owners) × (perform_all realpath start ops ≡ ok s)
        × ((a : ℕ) → s.snaps.count a ≡ snap_refs s a + held_in s.cells a)
        × ((w : ℕ) → refcount_of s.cells w ≡ ws_refs s w)
  no_use_after_free ops =
      let (s, e, b) =
        perform_all-Safe start ops
          record { refs = λ w. refl; counts = λ a. refl; fresh = λ a le. refl } in
      (s, e, b.counts, b.refs)
