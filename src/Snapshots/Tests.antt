-- ===== src/Snapshots/Tests.antt =====
-- src/query_context.c: a document is parsed twice, with a query and a run of diagnostics in between.
use taskjuggler_lsp.Base.{ℕ, ◌≡◌, refl, true, Option, none, List, [], ◌∷◌, ◌+◌, Bytes, codes}
use taskjuggler_lsp.DocumentStore.{doc_alloc, first_free}
use taskjuggler_lsp.Snapshots.{
  Outcome, ok, ◌>>=◌, docsnap_new, docsnap_acquire, docsnap_release, doc_install_parse,
  acquire_each, release_each, ws_acquire, ws_release, Owners, start, on_slot, parsed_snaps,
  publish_workspace_snapshot, build_query_context, query_context_free, diag_worker_request,
  diag_worker_take, run_once_end, Operation, perform, perform_all,
}
use taskjuggler_lsp.Snapshots.Balance.{held_in, refcount_of}
use taskjuggler_lsp.Snapshots.Held.{snap_refs, ws_refs}
use taskjuggler_lsp.Snapshots.Safety.{no_use_after_free}

abbrev no_links : Bytes → Option Bytes
no_links path = none

abbrev busy : List Operation
busy =
    Operation.allocate (codes "a")
    ∷ Operation.install 0 true
    ∷ Operation.publish
    ∷ Operation.pin 0
    ∷ Operation.spawn
    ∷ Operation.request 0
    ∷ Operation.take_request 0
    ∷ Operation.install 0 true
    ∷ Operation.publish
    ∷ []

abbrev quiet : List Operation
quiet = Operation.unpin 0 ∷ Operation.end_run 0 ∷ Operation.install 0 true ∷ []

abbrev observed : Outcome Owners → Outcome (ℕ × ℕ × ℕ × ℕ)
observed o =
    o >>= λ s. ok (s.snaps.count 0, s.snaps.count 1, refcount_of s.cells 0, refcount_of s.cells 1)

-- The old snapshot of the workspace is held by the query and the run.
test_busy : observed (perform_all no_links start busy) ≡ ok (2, 2, 2, 1)
unfolding doc_alloc first_free perform_all perform on_slot doc_install_parse docsnap_new
    docsnap_acquire docsnap_release publish_workspace_snapshot parsed_snaps acquire_each
    release_each ws_acquire ws_release build_query_context query_context_free diag_worker_request
    diag_worker_take run_once_end
test_busy = refl

-- The first snapshot is freed with it.
test_quiet :
    observed (perform_all no_links start busy >>= λ s. perform_all no_links s quiet)
    ≡ ok (0, 2, 0, 1)
unfolding doc_alloc first_free perform_all perform on_slot doc_install_parse docsnap_new
    docsnap_acquire docsnap_release publish_workspace_snapshot parsed_snaps acquire_each
    release_each ws_acquire ws_release build_query_context query_context_free diag_worker_request
    diag_worker_take run_once_end
test_quiet = refl

no_use_after_free_example :
    (s : Owners) × (perform_all no_links start busy ≡ ok s)
    × ((a : ℕ) → s.snaps.count a ≡ snap_refs s a + held_in s.cells a)
    × ((w : ℕ) → refcount_of s.cells w ≡ ws_refs s w)
no_use_after_free_example = no_use_after_free no_links busy
