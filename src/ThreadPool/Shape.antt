-- ===== src/ThreadPool/Shape.antt =====
-- src/threadpool.c: which queues are closed and empty at which point of the shutdown.
use taskjuggler_lsp.Base.{
  ℕ, zero, suc, ◌+◌, ◌≡◌, refl, ◌⊎◌, inl, Bool, true, false, some, List, [], ◌∷◌, length,
  length-set, get_elem?, set, arith, map,
}
use taskjuggler_lsp.Server.{Message, Handlers}
use taskjuggler_lsp.JobQueue.{Job}
use taskjuggler_lsp.JobQueue.Refine.{mark}
use taskjuggler_lsp.ThreadPool.{
  Coordinator, Worker, Reader, Pool, threadpool_start, coordinate, Steps,
}
use taskjuggler_lsp.ThreadPool.Moves.{
  CoordinatorMove, coordinator_step-Move, WorkerMove, query_worker_step-Move, ReaderMove,
  receive-Move, end_of_input-Move, cancel_requests-Move,
}

-- A sum over the workers.
abbrev pub total : (Worker → ℕ) → List Worker → ℕ
total f [] = 0
total f (w ∷ ws) = f w + total f ws

pub total-set :
    (f : Worker → ℕ) (ws : List Worker) (i : ℕ) (w w' : Worker)
    → get_elem? ws i ≡ some w
    → total f (set ws i w') + f w ≡ total f ws + f w'
total-set f [] i w w' e = absurd (ground (arith, e))
total-set f (x ∷ ws) zero w w' e = ground (arith, e)
total-set f (x ∷ ws) (suc i) w w' e = omega (arith, total-set f ws i w w' e)

abbrev pub exits : Worker → ℕ
exits w = elim w [ Worker.exited ↦ 1 | _ ↦ 0 ]

abbrev pub is_stopping : Reader → Bool
is_stopping r = elim r [ Reader.stopping ↦ true | _ ↦ false ]

abbrev pub has_exited : Coordinator → Bool
has_exited c = elim c [ Coordinator.exited ↦ true | _ ↦ false ]

abbrev pub has_left : Coordinator → Bool
has_left c = elim c [ Coordinator.exited ↦ true | Coordinator.closing ↦ true | _ ↦ false ]

pub record Shape (p : Pool) : Type 0 where
  pub flag : p.work.closed ≡ is_stopping p.reader
  pub drained : (has_left p.coordinator ≡ false) ⊎ ((p.work.jobs ≡ []) × (p.work.closed ≡ true))
  pub handed : p.request.closed ≡ has_exited p.coordinator
  pub quiet : (total exits p.workers ≡ 0) ⊎ ((p.request.jobs ≡ []) × (p.request.closed ≡ true))
  pub four : length p.workers ≡ 4

start-Shape : Shape threadpool_start
unfolding threadpool_start
start-Shape = record {
  flag = refl;
  drained = inl refl;
  handed = refl;
  quiet = inl refl;
  four = refl;
}

map-empty : (f : Job → Job) (js : List Job) → js ≡ [] → map f js ≡ []
map-empty f js e = rw e refl

module _ (docs : ℕ → Message) (handle : Handlers) where
  coordinate-Shape :
      (p : Pool) (j : Job)
      → p.coordinator ≡ Coordinator.holding j
      → Shape p
      → Shape (coordinate docs handle p j)
  unfolding coordinate
  coordinate-Shape p j c s = record {
    flag = ground (arith, s.flag);
    drained = ground arith;
    handed = ground (arith, c, s.handed);
    quiet = ground (arith, c, s.handed, s.quiet);
    four = ground (arith, s.four);
  }

  Coordinator-Shape : (p p' : Pool) → CoordinatorMove docs handle p p' → Shape p → Shape p'
  Coordinator-Shape p p' (CoordinatorMove.fetched j js c e r) s = rw r (ground arith)
  Coordinator-Shape p p' (CoordinatorMove.drained c e over r) s = rw r (ground arith)
  Coordinator-Shape p p' (CoordinatorMove.coordinated j c r) s = rw r (coordinate-Shape p j c s)
  Coordinator-Shape p p' (CoordinatorMove.closed c r) s = rw r (ground arith)

  Worker-Shape : (i : ℕ) (p p' : Pool) → WorkerMove docs handle i p p' → Shape p → Shape p'
  Worker-Shape i p p' (WorkerMove.taken j js w e r) s = rw r (
      ground (
        arith,
        total-set exits p.workers i Worker.waiting (Worker.running j) w,
        length-set p.workers i (Worker.running j),
      ))
  Worker-Shape i p p' (WorkerMove.left w e over r) s =
      rw r (ground (arith, length-set p.workers i Worker.exited))
  Worker-Shape i p p' (WorkerMove.done j w r) s = rw r (
      ground (
        arith,
        total-set exits p.workers i (Worker.running j) Worker.waiting w,
        length-set p.workers i Worker.waiting,
      ))

  Reader-Shape : (p p' : Pool) → ReaderMove docs handle p p' → Shape p → Shape p'
  Reader-Shape p p' (ReaderMove.stopped e r) s = rw r (ground arith)
  Reader-Shape p p' (ReaderMove.ignored r) s = rw r s
  Reader-Shape p p' (ReaderMove.marked id e r) s =
      rw r (ground (arith, map-empty (mark id) p.work.jobs))
  Reader-Shape p p' (ReaderMove.marked_requests id e r) s =
      rw r (ground (arith, map-empty (mark id) p.request.jobs))
  Reader-Shape p p' (ReaderMove.queued d j e m r) s = rw r (ground arith)

  pub Steps-Shape : (p : Pool) → Steps docs handle threadpool_start p → Shape p
  Steps-Shape _ (Steps.here _) = start-Shape
  Steps-Shape p (Steps.receives q d r s) =
      Reader-Shape q p (receive-Move docs handle d q p s) (Steps-Shape q r)
  Steps-Shape p (Steps.ends q r s) =
      Reader-Shape q p (end_of_input-Move docs handle q p s) (Steps-Shape q r)
  Steps-Shape p (Steps.cancels q r s) =
      Reader-Shape q p (cancel_requests-Move docs handle q p s) (Steps-Shape q r)
  Steps-Shape p (Steps.coordinates q r s) =
      Coordinator-Shape q p (coordinator_step-Move docs handle q p s) (Steps-Shape q r)
  Steps-Shape p (Steps.works q i r s) =
      Worker-Shape i q p (query_worker_step-Move docs handle i q p s) (Steps-Shape q r)
