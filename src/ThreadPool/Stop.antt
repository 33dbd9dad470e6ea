-- ===== src/ThreadPool/Stop.antt =====
-- src/threadpool.c: once the reader is in `threadpool_stop`, its joins return: every schedule of the
-- other threads is finite, and one of them can go on until all have ended.
use taskjuggler_lsp.Base.{
  ℕ, suc, ◌+◌, ◌*◌, ◌≤◌, ◌≡◌, ◌≢◌, refl, ◌∙◌, ◌⊎◌, inl, inr, true, none, some, List, [], ◌∷◌,
  length, length-append, get_elem?, arith, Each, Option-cases,
}
use taskjuggler_lsp.JobQueue.{Job}
use taskjuggler_lsp.Server.{Message, Handlers}
use taskjuggler_lsp.ThreadPool.{
  Coordinator, Worker, Reader, Pool, threadpool_start, coordinate, coordinator_step, worker_goes,
  query_worker_step, Steps,
}
use taskjuggler_lsp.ThreadPool.Moves.{
  Handling, coordinate-Handling, CoordinatorMove, coordinator_step-Move, WorkerMove,
  query_worker_step-Move,
}
use taskjuggler_lsp.ThreadPool.Shape.{total, total-set, exits, Shape, Steps-Shape}

-- The steps that are left at most to a worker, to the coordinator and to the pool.
abbrev pub worker_weight : Worker → ℕ
worker_weight w = elim w [ Worker.waiting ↦ 1 | Worker.running j ↦ 2 | Worker.exited ↦ 0 ]

abbrev pub coordinator_weight : Coordinator → ℕ
coordinator_weight c = elim c [
  | Coordinator.fetching ↦ 2
  | Coordinator.holding j ↦ 5
  | Coordinator.closing ↦ 1
  | Coordinator.exited ↦ 0
]

abbrev pub steps_left : Pool → ℕ
steps_left p =
    4 * length p.work.jobs
    + 2 * length p.request.jobs
    + coordinator_weight p.coordinator
    + total worker_weight p.workers

-- All threads that `threadpool_stop` joins have ended, and no job is left behind.
pub record AllExited (p : Pool) : Type 0 where
  pub coordinator : p.coordinator ≡ Coordinator.exited
  pub workers : Each (λ (w : Worker). w ≡ Worker.exited) p.workers
  pub work : p.work.jobs ≡ []
  pub request : p.request.jobs ≡ []

-- A worker that has not ended, or none.
busy :
    (ws : List Worker)
    → Each (λ (w : Worker). w ≡ Worker.exited) ws
      ⊎ ((i : ℕ) × (w : Worker) × (get_elem? ws i ≡ some w) × (w ≢ Worker.exited))
busy [] = inl tt
busy (Worker.waiting ∷ ws) = inr (0, Worker.waiting, refl, ground arith)
busy (Worker.running j ∷ ws) = inr (0, Worker.running j, refl, ground arith)
busy (Worker.exited ∷ ws) = elim (busy ws) [
  | inl all ↦ inl (refl, all)
  | inr (i, w, e, ne) ↦ inr (suc i, w, e, ne)
]

some_exited :
    (ws : List Worker)
    → Each (λ (w : Worker). w ≡ Worker.exited) ws
    → length ws ≡ 4
    → total exits ws ≢ 0
some_exited [] all four = ground (arith, four)
some_exited (w ∷ ws) all four = ground (arith, all.0)

module _ (docs : ℕ → Message) (handle : Handlers) where
  -- Steps of the coordinator and the workers, with their number.
  pub data Turns : ℕ → Pool → Pool → Type 0 where
    no_turn : (p : Pool) → Turns 0 p p
    coordinator_turn :
        {n : ℕ} {p p' : Pool} (q : Pool)
        → Turns n p q
        → coordinator_step docs handle q ≡ some p'
        → Turns (suc n) p p'
    worker_turn :
        {n : ℕ} {p p' : Pool} (q : Pool) (i : ℕ)
        → Turns n p q
        → query_worker_step docs handle i q ≡ some p'
        → Turns (suc n) p p'

  Handling-decreases :
      (p p' : Pool) (j : Job)
      → p.coordinator ≡ Coordinator.holding j
      → Handling docs handle p j p'
      → suc (steps_left p') ≤ steps_left p
  Handling-decreases p p' j c (Handling.notified n r) = rw r (ground (arith, c))
  Handling-decreases p p' j c (Handling.refused n d r) = rw r (ground (arith, c))
  Handling-decreases p p' j c (Handling.answered reply n e r) = rw r (ground (arith, c))
  Handling-decreases p p' j c (Handling.handed j' n e r) =
      rw r (ground (arith, c, length-append p.request.jobs (j' ∷ [])))

  Coordinator-decreases :
      (p p' : Pool) → CoordinatorMove docs handle p p' → suc (steps_left p') ≤ steps_left p
  Coordinator-decreases p p' (CoordinatorMove.fetched j js c e r) = rw r (ground (arith, c, e))
  Coordinator-decreases p p' (CoordinatorMove.drained c e over r) = rw r (ground (arith, c))
  Coordinator-decreases p p' (CoordinatorMove.coordinated j c r) =
      rw r (
        Handling-decreases p (coordinate docs handle p j) j c (coordinate-Handling docs handle p j))
  Coordinator-decreases p p' (CoordinatorMove.closed c r) = rw r (ground (arith, c))

  Worker-decreases :
      (i : ℕ) (p p' : Pool) → WorkerMove docs handle i p p' → suc (steps_left p') ≤ steps_left p
  Worker-decreases i p p' (WorkerMove.taken j js w e r) =
      rw r
        (ground (arith, e, total-set worker_weight p.workers i Worker.waiting (Worker.running j) w))
  Worker-decreases i p p' (WorkerMove.left w e over r) =
      rw r (ground (arith, total-set worker_weight p.workers i Worker.waiting Worker.exited w))
  Worker-decreases i p p' (WorkerMove.done j w r) =
      rw r (ground (arith, total-set worker_weight p.workers i (Worker.running j) Worker.waiting w))

  Turns-bounded : {n : ℕ} {p q : Pool} → Turns n p q → n + steps_left q ≤ steps_left p
  Turns-bounded (Turns.no_turn p) = omega arith
  Turns-bounded {q = p'} (Turns.coordinator_turn q t s) = omega (
    arith,
    Turns-bounded t,
    Coordinator-decreases q p' (coordinator_step-Move docs handle q p' s),
  )
  Turns-bounded {q = p'} (Turns.worker_turn q i t s) = omega (
    arith,
    Turns-bounded t,
    Worker-decreases i q p' (query_worker_step-Move docs handle i q p' s),
  )

  -- With both queues closed, only a thread that has ended cannot go on.
  coordinator-exited :
      (p : Pool)
      → p.work.closed ≡ true
      → coordinator_step docs handle p ≡ none
      → p.coordinator ≡ Coordinator.exited
  unfolding coordinator_step
  coordinator-exited p over e = ground (arith, over, e)

  worker-exited :
      (p : Pool) (i : ℕ) (w : Worker)
      → p.request.closed ≡ true
      → get_elem? p.workers i ≡ some w
      → query_worker_step docs handle i p ≡ none
      → w ≡ Worker.exited
  unfolding query_worker_step worker_goes
  worker-exited p i w over e s = ground (arith, over, e, s)

  all_exited :
      (p : Pool)
      → Shape p
      → p.coordinator ≡ Coordinator.exited
      → Each (λ (w : Worker). w ≡ Worker.exited) p.workers
      → AllExited p
  all_exited p s c all = record {
    coordinator = c;
    workers = all;
    work = ground (arith, s.drained, c);
    request = ground (arith, s.quiet, some_exited p.workers all s.four);
  }

  abbrev pub MayGoOn : Pool → Type 0
  MayGoOn p = AllExited p ⊎ ((p' : Pool) × Turns 1 p p')

  workers_go : (p : Pool) → Shape p → p.coordinator ≡ Coordinator.exited → MayGoOn p
  workers_go p s c = elim (busy p.workers) [
    | inl all ↦ inl (all_exited p s c all)
    | inr (i, w, e, ne) ↦ elim (Option-cases (query_worker_step docs handle i p)) [
      | inl stuck ↦ absurd (ne (worker-exited p i w (ground (arith, s.handed, c)) e stuck))
      | inr (p', goes) ↦ inr (p', Turns.worker_turn p i (Turns.no_turn p) goes)
    ]
  ]

  goes_on : (p : Pool) → Shape p → p.reader ≡ Reader.stopping → MayGoOn p
  goes_on p s r = elim (Option-cases (coordinator_step docs handle p)) [
    | inl stuck ↦ workers_go p s (coordinator-exited p (ground (arith, s.flag, r)) stuck)
    | inr (p', goes) ↦ inr (p', Turns.coordinator_turn p (Turns.no_turn p) goes)
  ]

  Handling-reader : (p p' : Pool) (j : Job) → Handling docs handle p j p' → p'.reader ≡ p.reader
  Handling-reader p p' j (Handling.notified n r) = rw r refl
  Handling-reader p p' j (Handling.refused n d r) = rw r refl
  Handling-reader p p' j (Handling.answered reply n e r) = rw r refl
  Handling-reader p p' j (Handling.handed j' n e r) = rw r refl

  Coordinator-reader : (p p' : Pool) → CoordinatorMove docs handle p p' → p'.reader ≡ p.reader
  Coordinator-reader p p' (CoordinatorMove.fetched j js c e r) = rw r refl
  Coordinator-reader p p' (CoordinatorMove.drained c e over r) = rw r refl
  Coordinator-reader p p' (CoordinatorMove.coordinated j c r) =
      rw r (Handling-reader p (coordinate docs handle p j) j (coordinate-Handling docs handle p j))
  Coordinator-reader p p' (CoordinatorMove.closed c r) = rw r refl

  Worker-reader : (i : ℕ) (p p' : Pool) → WorkerMove docs handle i p p' → p'.reader ≡ p.reader
  Worker-reader i p p' (WorkerMove.taken j js w e r) = rw r refl
  Worker-reader i p p' (WorkerMove.left w e over r) = rw r refl
  Worker-reader i p p' (WorkerMove.done j w r) = rw r refl

  -- Turns are steps of the pool in which the reader takes no part.
  Turns-Steps :
      {n : ℕ} {p q : Pool}
      → Steps docs handle threadpool_start p
      → Turns n p q
      → Steps docs handle threadpool_start q × (q.reader ≡ p.reader)
  Turns-Steps r (Turns.no_turn p) = (r, refl)
  Turns-Steps {q = p'} r (Turns.coordinator_turn q t s) =
      let (rest, same) = Turns-Steps r t in
      (
        Steps.coordinates q rest s,
        Coordinator-reader q p' (coordinator_step-Move docs handle q p' s) ∙ same,
      )
  Turns-Steps {q = p'} r (Turns.worker_turn q i t s) =
      let (rest, same) = Turns-Steps r t in
      (
        Steps.works q i rest s,
        Worker-reader i q p' (query_worker_step-Move docs handle i q p' s) ∙ same,
      )

  -- From any reachable state in which the reader is in `threadpool_stop`, whatever the order of the
  -- other threads' steps: their number and what `steps_left` gives at the end stay within `steps_left`
  -- at the start, so they are finitely many; and after any of them either all threads have ended and
  -- both queues are empty, or some thread can make another step.
  pub threadpool_stop_ends :
      (n : ℕ) (p q : Pool)
      → Steps docs handle threadpool_start p
      → p.reader ≡ Reader.stopping
      → Turns n p q
      → (n + steps_left q ≤ steps_left p) × MayGoOn q
  threadpool_stop_ends n p q r stopping t =
      let (reached, same) = Turns-Steps r t in
      (Turns-bounded t, goes_on q (Steps-Shape docs handle q reached) (same ∙ stopping))
