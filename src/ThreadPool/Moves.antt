-- ===== src/ThreadPool/Moves.antt =====
-- src/threadpool.c: what a step of each thread changes, as relations between two states of the pool.
use taskjuggler_lsp.Base.{
  ℕ, ◌≡◌, refl, true, false, Option, inl, inr, none, some, List, [], ◌∷◌, ◌++◌, get_elem?, set,
  arith, Bool-cases, Option-cases,
}
use taskjuggler_lsp.JobQueue.{Job}
use taskjuggler_lsp.JobQueue.Refine.{push, close, mark_cancelled}
use taskjuggler_lsp.Server.{
  Message, Handlers, Incoming, server_process, Reply, Coordinated, server_coordinate_query,
  server_dispatch_cancelled, server_dispatch_notification,
}
use taskjuggler_lsp.ThreadPool.{
  Coordinator, Worker, Reader, Pool, answer, coordinate, coordinator_step, run_job, worker_goes,
  query_worker_step, receive, end_of_input, cancel_requests,
}

-- The pool after the coordinator is through with its job.
abbrev pub released : Pool → Job → Pool
released p j = record p {
  coordinator = Coordinator.fetching;
  coordinated = p.coordinated ++ (j.request_doc ∷ []);
}

module _ (docs : ℕ → Message) (handle : Handlers) where
  pub data CoordinatorMove (p p' : Pool) : Type 0 where
    fetched :
        (j : Job) (js : List Job)
        → p.coordinator ≡ Coordinator.fetching
        → p.work.jobs ≡ j ∷ js
        → p' ≡ record p {
          work = record { jobs = js; closed = p.work.closed };
          coordinator = Coordinator.holding j;
        }
        → CoordinatorMove p p'
    drained :
        p.coordinator ≡ Coordinator.fetching
        → p.work.jobs ≡ []
        → p.work.closed ≡ true
        → p' ≡ record p { coordinator = Coordinator.closing }
        → CoordinatorMove p p'
    coordinated :
        (j : Job)
        → p.coordinator ≡ Coordinator.holding j
        → p' ≡ coordinate docs handle p j
        → CoordinatorMove p p'
    closed :
        p.coordinator ≡ Coordinator.closing
        → p' ≡ record p { request = close p.request; coordinator = Coordinator.exited }
        → CoordinatorMove p p'

  fetching_moves :
      (p p' : Pool) (js : List Job)
      → p.coordinator ≡ Coordinator.fetching
      → p.work.jobs ≡ js
      → coordinator_step docs handle p ≡ some p'
      → CoordinatorMove p p'
  unfolding coordinator_step
  fetching_moves p p' [] c e s = elim (Bool-cases p.work.closed) [
    | inl over ↦ CoordinatorMove.drained c e over (ground (arith, over, c, e, s))
    | inr open_yet ↦ absurd (ground (arith, open_yet, c, e, s))
  ]
  fetching_moves p p' (j ∷ js) c e s = CoordinatorMove.fetched j js c e (ground (arith, c, e, s))

  coordinator_moves :
      (p p' : Pool) (c : Coordinator)
      → p.coordinator ≡ c
      → coordinator_step docs handle p ≡ some p'
      → CoordinatorMove p p'
  unfolding coordinator_step
  coordinator_moves p p' Coordinator.fetching c s = fetching_moves p p' p.work.jobs c refl s
  coordinator_moves p p' (Coordinator.holding j) c s =
      CoordinatorMove.coordinated j c (ground (arith, c, s))
  coordinator_moves p p' Coordinator.closing c s = CoordinatorMove.closed c (ground (arith, c, s))
  coordinator_moves p p' Coordinator.exited c s = absurd (ground (arith, c, s))

  pub coordinator_step-Move :
      (p p' : Pool) → coordinator_step docs handle p ≡ some p' → CoordinatorMove p p'
  coordinator_step-Move p p' s = coordinator_moves p p' p.coordinator refl s

  -- What the coordinator does with the job that it holds.
  pub data Handling (p : Pool) (j : Job) (p' : Pool) : Type 0 where
    notified :
        j.is_notification ≡ true
        → p' ≡ record (released p j) {
          applied = server_dispatch_notification (docs j.request_doc) p.applied;
        }
        → Handling p j p'
    refused :
        j.is_notification ≡ false
        → j.is_cancelled ≡ true
        → p' ≡ record (released p j) {
          sent = answer j p.applied (server_dispatch_cancelled (docs j.request_doc)) ∷ p.sent;
        }
        → Handling p j p'
    answered :
        (reply : Option Reply)
        → j.is_notification ≡ false
        → server_coordinate_query handle (docs j.request_doc) p.applied j
          ≡ Coordinated.handled reply
        → p' ≡ record (released p j) { sent = answer j p.applied reply ∷ p.sent }
        → Handling p j p'
    handed :
        (j' : Job)
        → j.is_notification ≡ false
        → server_coordinate_query handle (docs j.request_doc) p.applied j
          ≡ Coordinated.handed_off j'
        → p' ≡ record (released p j) { request = push p.request j' }
        → Handling p j p'

  query_handled :
      (p : Pool) (j : Job) (c : Coordinated)
      → j.is_notification ≡ false
      → j.is_cancelled ≡ false
      → server_coordinate_query handle (docs j.request_doc) p.applied j ≡ c
      → Handling p j (coordinate docs handle p j)
  unfolding coordinate
  query_handled p j (Coordinated.handled reply) n c e =
      Handling.answered reply n e (ground (arith, n, c, e))
  query_handled p j (Coordinated.handed_off j') n c e =
      Handling.handed j' n e (ground (arith, n, c, e))

  pub coordinate-Handling : (p : Pool) (j : Job) → Handling p j (coordinate docs handle p j)
  unfolding coordinate
  coordinate-Handling p j = elim (Bool-cases j.is_notification) [
    | inl n ↦ Handling.notified n (ground (arith, n))
    | inr n ↦ elim (Bool-cases j.is_cancelled) [
      | inl c ↦ Handling.refused n c (ground (arith, n, c))
      | inr c ↦
          query_handled p j (server_coordinate_query handle (docs j.request_doc) p.applied j) n c
            refl
    ]
  ]

  pub data WorkerMove (i : ℕ) (p p' : Pool) : Type 0 where
    taken :
        (j : Job) (js : List Job)
        → get_elem? p.workers i ≡ some Worker.waiting
        → p.request.jobs ≡ j ∷ js
        → p' ≡ record p {
          request = record { jobs = js; closed = p.request.closed };
          workers = set p.workers i (Worker.running j);
        }
        → WorkerMove i p p'
    left :
        get_elem? p.workers i ≡ some Worker.waiting
        → p.request.jobs ≡ []
        → p.request.closed ≡ true
        → p' ≡ record p { workers = set p.workers i Worker.exited }
        → WorkerMove i p p'
    done :
        (j : Job)
        → get_elem? p.workers i ≡ some (Worker.running j)
        → p' ≡ record p {
          sent = run_job docs handle j ∷ p.sent;
          workers = set p.workers i Worker.waiting;
        }
        → WorkerMove i p p'

  waiting_moves :
      (i : ℕ) (p p' : Pool) (js : List Job)
      → get_elem? p.workers i ≡ some Worker.waiting
      → p.request.jobs ≡ js
      → worker_goes docs handle p i Worker.waiting ≡ some p'
      → WorkerMove i p p'
  unfolding worker_goes
  waiting_moves i p p' [] w e s = elim (Bool-cases p.request.closed) [
    | inl over ↦ WorkerMove.left w e over (ground (arith, over, e, s))
    | inr open_yet ↦ absurd (ground (arith, open_yet, e, s))
  ]
  waiting_moves i p p' (j ∷ js) w e s = WorkerMove.taken j js w e (ground (arith, e, s))

  worker_moves :
      (i : ℕ) (p p' : Pool) (w : Worker)
      → get_elem? p.workers i ≡ some w
      → worker_goes docs handle p i w ≡ some p'
      → WorkerMove i p p'
  unfolding worker_goes
  worker_moves i p p' Worker.waiting w s = waiting_moves i p p' p.request.jobs w refl s
  worker_moves i p p' (Worker.running j) w s = WorkerMove.done j w (ground (arith, s))
  worker_moves i p p' Worker.exited w s = absurd (ground (arith, s))

  pub query_worker_step-Move :
      (i : ℕ) (p p' : Pool) → query_worker_step docs handle i p ≡ some p' → WorkerMove i p p'
  unfolding query_worker_step
  query_worker_step-Move i p p' s = elim (Option-cases (get_elem? p.workers i)) [
    | inl e ↦ absurd (ground (arith, e, s))
    | inr (w, e) ↦ worker_moves i p p' w e (ground (arith, e, s))
  ]

  pub data ReaderMove (p p' : Pool) : Type 0 where
    stopped :
        p.reader ≡ Reader.reading
        → p' ≡ record p { work = close p.work; reader = Reader.stopping }
        → ReaderMove p p'
    ignored : p' ≡ p → ReaderMove p p'
    marked :
        (id : ℕ)
        → p.reader ≡ Reader.reading
        → p' ≡ record p {
          work = mark_cancelled id p.work;
          reader = Reader.cancelling id;
          cancelled_ids = id ∷ p.cancelled_ids;
        }
        → ReaderMove p p'
    marked_requests :
        (id : ℕ)
        → p.reader ≡ Reader.cancelling id
        → p' ≡ record p { request = mark_cancelled id p.request; reader = Reader.reading }
        → ReaderMove p p'
    queued :
        (d : ℕ) (j : Job)
        → p.reader ≡ Reader.reading
        → server_process (docs d) d ≡ Incoming.enqueue j
        → p' ≡ record p { work = push p.work j; received = p.received ++ (d ∷ []) }
        → ReaderMove p p'

  message_moves :
      (d : ℕ) (p p' : Pool) (m : Incoming)
      → p.reader ≡ Reader.reading
      → server_process (docs d) d ≡ m
      → receive docs handle d p ≡ some p'
      → ReaderMove p p'
  unfolding receive
  message_moves d p p' Incoming.quit r e s = ReaderMove.stopped r (ground (arith, r, e, s))
  message_moves d p p' (Incoming.cancel none) r e s = ReaderMove.ignored (ground (arith, r, e, s))
  message_moves d p p' (Incoming.cancel (some id)) r e s =
      ReaderMove.marked id r (ground (arith, r, e, s))
  message_moves d p p' (Incoming.enqueue j) r e s =
      ReaderMove.queued d j r e (ground (arith, r, e, s))

  pub receive-Move : (d : ℕ) (p p' : Pool) → receive docs handle d p ≡ some p' → ReaderMove p p'
  unfolding receive
  receive-Move d p p' s =
      message_moves d p p' (server_process (docs d) d) (ground (arith, s)) refl s

  pub end_of_input-Move : (p p' : Pool) → end_of_input docs handle p ≡ some p' → ReaderMove p p'
  unfolding end_of_input
  end_of_input-Move p p' s = ReaderMove.stopped (ground (arith, s)) (ground (arith, s))

  cancelling_moves :
      (p p' : Pool) (r : Reader)
      → p.reader ≡ r
      → cancel_requests docs handle p ≡ some p'
      → ReaderMove p p'
  unfolding cancel_requests
  cancelling_moves p p' Reader.reading r s = absurd (ground (arith, r, s))
  cancelling_moves p p' (Reader.cancelling id) r s =
      ReaderMove.marked_requests id r (ground (arith, r, s))
  cancelling_moves p p' Reader.stopping r s = absurd (ground (arith, r, s))

  pub cancel_requests-Move :
      (p p' : Pool) → cancel_requests docs handle p ≡ some p' → ReaderMove p p'
  cancel_requests-Move p p' s = cancelling_moves p p' p.reader refl s
