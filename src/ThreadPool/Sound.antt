-- ===== src/ThreadPool/Sound.antt =====
-- src/threadpool.c: every step keeps the jobs and the answers sound.
use taskjuggler_lsp.Base.{
  ℕ, zero, suc, ◌≡◌, refl, inl, inr, true, Option, none, some, List, [], ◌∷◌, map, set, arith,
  subst, Each, Each-append, Each-get_elem?, Bool-cases,
}
use taskjuggler_lsp.JobQueue.{Job}
use taskjuggler_lsp.JobQueue.Refine.{mark}
use taskjuggler_lsp.JobQueue.Cancel.{contains}
use taskjuggler_lsp.Server.{
  server_dispatch_cancelled, Message, MethodKind, Handlers, RequestId, entry_is, method_lookup,
  method_of, server_run_query, Coordinated, server_coordinate_query, Incoming, new_job,
  server_process,
}
use taskjuggler_lsp.ThreadPool.{
  context_of, answer, Worker, Pool, threadpool_start, coordinate, run_job, Steps,
}
use taskjuggler_lsp.ThreadPool.Moves.{
  Handling, coordinate-Handling, CoordinatorMove, coordinator_step-Move, WorkerMove,
  query_worker_step-Move, ReaderMove, receive-Move, end_of_input-Move, cancel_requests-Move,
}
use taskjuggler_lsp.ThreadPool.Replies.{
  Asked, IsReply, JobOk, HandedOk, HoldsOk, WorkerOk, MarksListed, JobOk-cons, mark-JobOk,
  mark-HandedOk, HoldsOk-cons, HandedOk-cons, WorkerOk-cons, IsReply-cons,
}

Each-set {ℓ κ} :
    {A : Type ℓ} (P : A → Type κ) (xs : List A) (i : ℕ) (x : A)
    → Each P xs
    → P x
    → Each P (set xs i x)
Each-set P [] i x all one = all
Each-set P (y ∷ ys) zero x all one = (one, all.1)
Each-set P (y ∷ ys) (suc i) x all one = (all.0, Each-set P ys i x all.1 one)

Each-impl {ℓ κ} :
    {A : Type ℓ} (P Q : A → Type κ) → ((x : A) → P x → Q x) → (xs : List A) → Each P xs → Each Q xs
Each-impl P Q step [] all = tt
Each-impl P Q step (x ∷ xs) (here, all) = (step x here, Each-impl P Q step xs all)

Each-map {ℓ κ} :
    {A : Type ℓ} (P Q : A → Type κ) (f : A → A)
    → ((x : A) → P x → Q (f x))
    → (xs : List A) → Each P xs
    → Each Q (map f xs)
Each-map P Q f step [] all = tt
Each-map P Q f step (x ∷ xs) (here, all) = (step x here, Each-map P Q f step xs all)

module _ (docs : ℕ → Message) (handle : Handlers) where
  record Sound (p : Pool) : Type 0 where
    work : Each (JobOk docs handle p.cancelled_ids) p.work.jobs
    held : HoldsOk docs handle p.cancelled_ids p.coordinator
    request : Each (HandedOk docs handle p.cancelled_ids) p.request.jobs
    workers : Each (WorkerOk docs handle p.cancelled_ids) p.workers
    sent : Each (IsReply docs handle p.cancelled_ids) p.sent
    listed : MarksListed docs handle p.cancelled_ids p.reader

  start-Sound : Sound threadpool_start
  unfolding threadpool_start
  start-Sound = record {
    work = tt;
    held = tt;
    request = tt;
    workers = (tt, (tt, (tt, (tt, tt))));
    sent = tt;
    listed = tt;
  }

  cancelled-Asked :
      (ids : List ℕ) (j : Job)
      → JobOk docs handle ids j
      → j.is_cancelled ≡ true
      → Asked docs handle ids j.request_doc
  cancelled-Asked ids j (i, inl c) e = absurd (ground (arith, c, e))
  cancelled-Asked ids j (i, inr a) e = a

  refused-IsReply :
      (ids : List ℕ) (j : Job) (applied : ℕ)
      → JobOk docs handle ids j
      → j.is_cancelled ≡ true
      → IsReply docs handle ids (answer j applied (server_dispatch_cancelled (docs j.request_doc)))
  unfolding server_dispatch_cancelled
  refused-IsReply ids j applied ok k =
      let asked = cancelled-Asked ids j ok k in inr (asked, ground (arith, asked.1))

  handed-HandedOk :
      (p : Pool) (j j' : Job)
      → JobOk docs handle p.cancelled_ids j
      → server_coordinate_query handle (docs j.request_doc) p.applied j ≡ Coordinated.handed_off j'
      → HandedOk docs handle p.cancelled_ids j'
  unfolding server_coordinate_query
  handed-HandedOk p j j' ok e =
      elim (Bool-cases
        (entry_is MethodKind.inline (method_lookup (method_of (docs j.request_doc))))) [
          | inl inline ↦ absurd (ground (arith, inline, e))
          | inr other ↦
              let same : record j { context = some p.applied } ≡ j' = ground (arith, other, e) in
              subst (HandedOk docs handle p.cancelled_ids) same (ok, refl, other)
        ]

  Handling-Sound :
      (p p' : Pool) (j : Job)
      → JobOk docs handle p.cancelled_ids j
      → Handling docs handle p j p'
      → Sound p
      → Sound p'
  unfolding server_coordinate_query
  Handling-Sound p p' j ok (Handling.notified n r) s = rw r record {
    work = s.work;
    held = tt;
    request = s.request;
    workers = s.workers;
    sent = s.sent;
    listed = s.listed;
  }
  Handling-Sound p p' j ok (Handling.refused n k r) s = rw r record {
    work = s.work;
    held = tt;
    request = s.request;
    workers = s.workers;
    sent = (refused-IsReply p.cancelled_ids j p.applied ok k, s.sent);
    listed = s.listed;
  }
  Handling-Sound p p' j ok (Handling.answered reply n e r) s = rw r record {
    work = s.work;
    held = tt;
    request = s.request;
    workers = s.workers;
    sent = (inl (ground (arith, e)), s.sent);
    listed = s.listed;
  }
  Handling-Sound p p' j ok (Handling.handed j' n e r) s = rw r record {
    work = s.work;
    held = tt;
    request =
        Each-append (HandedOk docs handle p.cancelled_ids) p.request.jobs (j' ∷ []) s.request
          (handed-HandedOk p j j' ok e, tt);
    workers = s.workers;
    sent = s.sent;
    listed = s.listed;
  }

  Coordinator-Sound : (p p' : Pool) → CoordinatorMove docs handle p p' → Sound p → Sound p'
  Coordinator-Sound p p' (CoordinatorMove.fetched j js c e r) s =
      let w : Each (JobOk docs handle p.cancelled_ids) (j ∷ js) =
        subst (Each (JobOk docs handle p.cancelled_ids)) e s.work in
      rw r record {
        work = w.1;
        held = w.0;
        request = s.request;
        workers = s.workers;
        sent = s.sent;
        listed = s.listed;
      }
  Coordinator-Sound p p' (CoordinatorMove.drained c e over r) s = rw r record {
    work = s.work;
    held = tt;
    request = s.request;
    workers = s.workers;
    sent = s.sent;
    listed = s.listed;
  }
  Coordinator-Sound p p' (CoordinatorMove.coordinated j c r) s = rw r (
      Handling-Sound p (coordinate docs handle p j) j
        (subst (HoldsOk docs handle p.cancelled_ids) c s.held) (coordinate-Handling docs handle p j)
        s)
  Coordinator-Sound p p' (CoordinatorMove.closed c r) s = rw r record {
    work = s.work;
    held = tt;
    request = s.request;
    workers = s.workers;
    sent = s.sent;
    listed = s.listed;
  }

  run_job-IsReply :
      (ids : List ℕ) (j : Job)
      → HandedOk docs handle ids j
      → IsReply docs handle ids (run_job docs handle j)
  unfolding run_job server_run_query
  run_job-IsReply ids j (ok, c, other) = elim (Bool-cases j.is_cancelled) [
    | inl k ↦ rw (k, run_job) (refused-IsReply ids j (context_of j) ok k)
    | inr k ↦ inl (ground (arith, k, c, other))
  ]

  Worker-Sound : (i : ℕ) (p p' : Pool) → WorkerMove docs handle i p p' → Sound p → Sound p'
  Worker-Sound i p p' (WorkerMove.taken j js w e r) s =
      let q : Each (HandedOk docs handle p.cancelled_ids) (j ∷ js) =
        subst (Each (HandedOk docs handle p.cancelled_ids)) e s.request in
      rw r record {
        work = s.work;
        held = s.held;
        request = q.1;
        workers =
            Each-set (WorkerOk docs handle p.cancelled_ids) p.workers i (Worker.running j) s.workers
              q.0;
        sent = s.sent;
        listed = s.listed;
      }
  Worker-Sound i p p' (WorkerMove.left w e over r) s = rw r record {
    work = s.work;
    held = s.held;
    request = s.request;
    workers =
        Each-set (WorkerOk docs handle p.cancelled_ids) p.workers i Worker.exited s.workers tt;
    sent = s.sent;
    listed = s.listed;
  }
  Worker-Sound i p p' (WorkerMove.done j w r) s =
      let ok : HandedOk docs handle p.cancelled_ids j =
        Each-get_elem? (WorkerOk docs handle p.cancelled_ids) p.workers i (Worker.running j)
          s.workers w in
      rw r record {
        work = s.work;
        held = s.held;
        request = s.request;
        workers =
            Each-set (WorkerOk docs handle p.cancelled_ids) p.workers i Worker.waiting s.workers tt;
        sent = (run_job-IsReply p.cancelled_ids j ok, s.sent);
        listed = s.listed;
      }

  new-JobOk :
      (ids : List ℕ) (x : ℕ) (o : Option RequestId)
      → (docs x).id ≡ o
      → JobOk docs handle ids (new_job (docs x) x)
  unfolding new_job
  new-JobOk ids x none e = (inl (ground (arith, e)), inl refl)
  new-JobOk ids x (some (RequestId.integer n)) e = (inr (ground (arith, e)), inl refl)
  new-JobOk ids x (some (RequestId.other n)) e = (inl (ground (arith, e)), inl refl)

  queued-JobOk :
      (ids : List ℕ) (x : ℕ) (j : Job)
      → server_process (docs x) x ≡ Incoming.enqueue j
      → JobOk docs handle ids j
  unfolding server_process
  queued-JobOk ids x j e =
      let same : new_job (docs x) x ≡ j = ground (arith, e) in
      subst (JobOk docs handle ids) same (new-JobOk ids x (docs x).id refl)

  Reader-Sound : (p p' : Pool) → ReaderMove docs handle p p' → Sound p → Sound p'
  Reader-Sound p p' (ReaderMove.stopped e r) s = rw r record {
    work = s.work;
    held = s.held;
    request = s.request;
    workers = s.workers;
    sent = s.sent;
    listed = tt;
  }
  Reader-Sound p p' (ReaderMove.ignored r) s = rw r s
  Reader-Sound p p' (ReaderMove.marked id e r) s =
      let ids = p.cancelled_ids in
      let listed : contains (id ∷ ids) id ≡ true = ground arith in
      rw r record {
        work =
            Each-map (JobOk docs handle ids) (JobOk docs handle (id ∷ ids)) (mark id)
              (λ j ok.
                mark-JobOk docs handle (id ∷ ids) id listed j (JobOk-cons docs handle ids id j ok))
              p.work.jobs s.work;
        held = HoldsOk-cons docs handle ids id p.coordinator s.held;
        request =
            Each-impl (HandedOk docs handle ids) (HandedOk docs handle (id ∷ ids))
              (HandedOk-cons docs handle ids id) p.request.jobs s.request;
        workers =
            Each-impl (WorkerOk docs handle ids) (WorkerOk docs handle (id ∷ ids))
              (WorkerOk-cons docs handle ids id) p.workers s.workers;
        sent =
            Each-impl (IsReply docs handle ids) (IsReply docs handle (id ∷ ids))
              (IsReply-cons docs handle ids id) p.sent s.sent;
        listed = listed;
      }
  Reader-Sound p p' (ReaderMove.marked_requests id e r) s =
      let listed : contains p.cancelled_ids id ≡ true =
        subst (MarksListed docs handle p.cancelled_ids) e s.listed in
      rw r record {
        work = s.work;
        held = s.held;
        request =
            Each-map (HandedOk docs handle p.cancelled_ids) (HandedOk docs handle p.cancelled_ids)
              (mark id) (mark-HandedOk docs handle p.cancelled_ids id listed) p.request.jobs
              s.request;
        workers = s.workers;
        sent = s.sent;
        listed = tt;
      }
  Reader-Sound p p' (ReaderMove.queued x j e m r) s = rw r record {
    work =
        Each-append (JobOk docs handle p.cancelled_ids) p.work.jobs (j ∷ []) s.work
          (queued-JobOk p.cancelled_ids x j m, tt);
    held = s.held;
    request = s.request;
    workers = s.workers;
    sent = s.sent;
    listed = s.listed;
  }

  Steps-Sound : (p : Pool) → Steps docs handle threadpool_start p → Sound p
  Steps-Sound _ (Steps.here _) = start-Sound
  Steps-Sound p (Steps.receives q x r s) =
      Reader-Sound q p (receive-Move docs handle x q p s) (Steps-Sound q r)
  Steps-Sound p (Steps.ends q r s) =
      Reader-Sound q p (end_of_input-Move docs handle q p s) (Steps-Sound q r)
  Steps-Sound p (Steps.cancels q r s) =
      Reader-Sound q p (cancel_requests-Move docs handle q p s) (Steps-Sound q r)
  Steps-Sound p (Steps.coordinates q r s) =
      Coordinator-Sound q p (coordinator_step-Move docs handle q p s) (Steps-Sound q r)
  Steps-Sound p (Steps.works q i r s) =
      Worker-Sound i q p (query_worker_step-Move docs handle i q p s) (Steps-Sound q r)

  -- After any steps of the threads, everything sent for a request is what the handler of its method
  -- gives at the state that the request was taken at, or a null result if no method has the name, or
  -- the error with its id that the request was cancelled; and that error only if the id is an integer
  -- and the client sent a cancellation with it.
  pub sent-IsReply :
      (p : Pool)
      → Steps docs handle threadpool_start p
      → Each (IsReply docs handle p.cancelled_ids) p.sent
  sent-IsReply p r = (Steps-Sound p r).sent
