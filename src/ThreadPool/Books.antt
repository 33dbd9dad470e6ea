-- ===== src/ThreadPool/Books.antt =====
-- src/threadpool.c: the account of all jobs, kept by every step.
use mathlib.Core.List.{map-append}
use taskjuggler_lsp.Base.{
  ℕ, ◌+◌, ◌≡◌, refl, ◌∙◌, sym, ap, subst, false, List, [], ◌∷◌, ◌++◌, map, append-nil, append_assoc,
  arith, Each, Each-append,
}
use taskjuggler_lsp.JobQueue.{Job}
use taskjuggler_lsp.Server.{
  Message, Handlers, server_dispatch_notification, server_coordinate_query, new_job, server_process,
}
use taskjuggler_lsp.ThreadPool.{
  Coordinator, Worker, Pool, threadpool_start, coordinate, run_job, Steps,
}
use taskjuggler_lsp.ThreadPool.Moves.{
  Handling, coordinate-Handling, CoordinatorMove, coordinator_step-Move, WorkerMove,
  query_worker_step-Move, ReaderMove, receive-Move, end_of_input-Move, cancel_requests-Move,
}
use taskjuggler_lsp.ThreadPool.Shape.{total, total-set}
use taskjuggler_lsp.ThreadPool.Stop.{AllExited}
use taskjuggler_lsp.ThreadPool.Tally.{
  tally, tally-append, job_ticket, answer_ticket, running_tally, doc_of, held, mark-docs,
  mark-tally, idle_tally, tickets, notes, notes-append, tickets-append, IsMade, HoldsMade,
  mark-IsMade,
}

module _ (docs : ℕ → Message) (handle : Handlers) (d v : ℕ) where
  record Books (p : Pool) : Type 0 where
    order : p.received ≡ p.coordinated ++ (held p.coordinator ++ map doc_of p.work.jobs)
    made : Each (IsMade docs) p.work.jobs
    holds : HoldsMade docs p.coordinator
    counted : p.applied ≡ notes docs p.coordinated
    tallied :
        tally d v (tickets docs 0 p.coordinated)
        ≡ tally d v (map job_ticket p.request.jobs)
          + total (running_tally d v) p.workers
          + tally d v (map answer_ticket p.sent)

  start-Books : Books threadpool_start
  unfolding threadpool_start
  start-Books = record { order = refl; made = tt; holds = tt; counted = refl; tallied = refl }

  released_order :
      (p : Pool) (j : Job)
      → p.coordinator ≡ Coordinator.holding j
      → Books p
      → p.received ≡ (p.coordinated ++ (j.request_doc ∷ [])) ++ map doc_of p.work.jobs
  released_order p j c b =
      b.order
      ∙ ap (λ (k : Coordinator). p.coordinated ++ (held k ++ map doc_of p.work.jobs)) c
      ∙ sym (append_assoc p.coordinated (j.request_doc ∷ []) (map doc_of p.work.jobs))

  holding-IsMade :
      (p : Pool) (j : Job) → p.coordinator ≡ Coordinator.holding j → Books p → IsMade docs j
  holding-IsMade p j c b = subst (HoldsMade docs) c b.holds

  released_count :
      (p : Pool) (j : Job)
      → j.is_notification ≡ false
      → IsMade docs j
      → Books p
      → p.applied ≡ notes docs (p.coordinated ++ (j.request_doc ∷ []))
  released_count p j n m b =
      ground (arith, n, m, b.counted, notes-append docs p.coordinated j.request_doc)

  Handling-Books :
      (p p' : Pool) (j : Job)
      → p.coordinator ≡ Coordinator.holding j
      → Handling docs handle p j p'
      → Books p
      → Books p'
  unfolding server_dispatch_notification server_coordinate_query
  Handling-Books p p' j c (Handling.notified n r) b =
      let m = holding-IsMade p j c b in
      rw r record {
        order = released_order p j c b;
        made = b.made;
        holds = tt;
        counted = ground (arith, n, m, b.counted, notes-append docs p.coordinated j.request_doc);
        tallied =
            ground (arith, n, m, b.tallied, tickets-append docs d v 0 p.coordinated j.request_doc);
      }
  Handling-Books p p' j c (Handling.refused n k r) b = rw r record {
    order = released_order p j c b;
    made = b.made;
    holds = tt;
    counted = released_count p j n (holding-IsMade p j c b) b;
    tallied = ground (
      arith,
      n,
      holding-IsMade p j c b,
      b.counted,
      b.tallied,
      tickets-append docs d v 0 p.coordinated j.request_doc,
    );
  }
  Handling-Books p p' j c (Handling.answered reply n e r) b = rw r record {
    order = released_order p j c b;
    made = b.made;
    holds = tt;
    counted = released_count p j n (holding-IsMade p j c b) b;
    tallied = ground (
      arith,
      n,
      holding-IsMade p j c b,
      b.counted,
      b.tallied,
      tickets-append docs d v 0 p.coordinated j.request_doc,
    );
  }
  Handling-Books p p' j c (Handling.handed j' n e r) b =
      let m = holding-IsMade p j c b in
      rw r record {
        order = released_order p j c b;
        made = b.made;
        holds = tt;
        counted = released_count p j n m b;
        tallied = ground (
          arith,
          n,
          m,
          b.counted,
          b.tallied,
          e,
          tickets-append docs d v 0 p.coordinated j.request_doc,
          tally-append d v (map job_ticket p.request.jobs) (job_ticket j' ∷ []),
          map-append job_ticket p.request.jobs (j' ∷ []),
        );
      }

  Coordinator-Books : (p p' : Pool) → CoordinatorMove docs handle p p' → Books p → Books p'
  Coordinator-Books p p' (CoordinatorMove.fetched j js c e r) b =
      let m : Each (IsMade docs) (j ∷ js) = subst (Each (IsMade docs)) e b.made in
      rw r record {
        order =
            b.order
            ∙ ap (λ (k : Coordinator). p.coordinated ++ (held k ++ map doc_of p.work.jobs)) c
            ∙ ap (λ (ks : List Job). p.coordinated ++ map doc_of ks) e;
        made = m.1;
        holds = m.0;
        counted = b.counted;
        tallied = b.tallied;
      }
  Coordinator-Books p p' (CoordinatorMove.drained c e over r) b = rw r record {
    order =
        b.order ∙ ap (λ (k : Coordinator). p.coordinated ++ (held k ++ map doc_of p.work.jobs)) c;
    made = b.made;
    holds = tt;
    counted = b.counted;
    tallied = b.tallied;
  }
  Coordinator-Books p p' (CoordinatorMove.coordinated j c r) b =
      rw r
        (Handling-Books p (coordinate docs handle p j) j c (coordinate-Handling docs handle p j) b)
  Coordinator-Books p p' (CoordinatorMove.closed c r) b = rw r record {
    order =
        b.order ∙ ap (λ (k : Coordinator). p.coordinated ++ (held k ++ map doc_of p.work.jobs)) c;
    made = b.made;
    holds = tt;
    counted = b.counted;
    tallied = b.tallied;
  }

  Worker-Books : (i : ℕ) (p p' : Pool) → WorkerMove docs handle i p p' → Books p → Books p'
  unfolding run_job
  Worker-Books i p p' (WorkerMove.taken j js w e r) b = rw r record {
    order = b.order;
    made = b.made;
    holds = b.holds;
    counted = b.counted;
    tallied = ground (
      arith,
      e,
      b.tallied,
      total-set (running_tally d v) p.workers i Worker.waiting (Worker.running j) w,
    );
  }
  Worker-Books i p p' (WorkerMove.left w e over r) b = rw r record {
    order = b.order;
    made = b.made;
    holds = b.holds;
    counted = b.counted;
    tallied = ground (
      arith,
      b.tallied,
      total-set (running_tally d v) p.workers i Worker.waiting Worker.exited w,
    );
  }
  Worker-Books i p p' (WorkerMove.done j w r) b = rw r record {
    order = b.order;
    made = b.made;
    holds = b.holds;
    counted = b.counted;
    tallied = ground (
      arith,
      b.tallied,
      total-set (running_tally d v) p.workers i (Worker.running j) Worker.waiting w,
    );
  }

  Reader-Books : (p p' : Pool) → ReaderMove docs handle p p' → Books p → Books p'
  unfolding server_process new_job
  Reader-Books p p' (ReaderMove.stopped e r) b = rw r record {
    order = b.order;
    made = b.made;
    holds = b.holds;
    counted = b.counted;
    tallied = b.tallied;
  }
  Reader-Books p p' (ReaderMove.ignored r) b = rw r b
  Reader-Books p p' (ReaderMove.marked id e r) b = rw r record {
    order =
        b.order
        ∙ ap (λ (ds : List ℕ). p.coordinated ++ (held p.coordinator ++ ds))
            (sym (mark-docs id p.work.jobs));
    made = mark-IsMade docs id p.work.jobs b.made;
    holds = b.holds;
    counted = b.counted;
    tallied = b.tallied;
  }
  Reader-Books p p' (ReaderMove.marked_requests id e r) b = rw r record {
    order = b.order;
    made = b.made;
    holds = b.holds;
    counted = b.counted;
    tallied = omega (arith, b.tallied, mark-tally id d v p.request.jobs);
  }
  Reader-Books p p' (ReaderMove.queued x j e m r) b =
      let same : j.request_doc ≡ x = ground (arith, m) in
      let flag : IsMade docs j = ground (arith, m) in
      rw r record {
        order = rw (map-append doc_of p.work.jobs (j ∷ []), same, b.order) (simp append_assoc);
        made = Each-append (IsMade docs) p.work.jobs (j ∷ []) b.made (flag, tt);
        holds = b.holds;
        counted = b.counted;
        tallied = b.tallied;
      }

  Steps-Books : (p : Pool) → Steps docs handle threadpool_start p → Books p
  Steps-Books _ (Steps.here _) = start-Books
  Steps-Books p (Steps.receives q x r s) =
      Reader-Books q p (receive-Move docs handle x q p s) (Steps-Books q r)
  Steps-Books p (Steps.ends q r s) =
      Reader-Books q p (end_of_input-Move docs handle q p s) (Steps-Books q r)
  Steps-Books p (Steps.cancels q r s) =
      Reader-Books q p (cancel_requests-Move docs handle q p s) (Steps-Books q r)
  Steps-Books p (Steps.coordinates q r s) =
      Coordinator-Books q p (coordinator_step-Move docs handle q p s) (Steps-Books q r)
  Steps-Books p (Steps.works q i r s) =
      Worker-Books i q p (query_worker_step-Move docs handle i q p s) (Steps-Books q r)

  done_order : (p : Pool) → AllExited p → Books p → p.received ≡ p.coordinated
  done_order p over b =
      b.order
      ∙ ap (λ (k : Coordinator). p.coordinated ++ (held k ++ map doc_of p.work.jobs))
          (over.coordinator)
      ∙ ap (λ (js : List Job). p.coordinated ++ map doc_of js) over.work
      ∙ append-nil p.coordinated

  done_tally :
      (p : Pool)
      → AllExited p
      → Books p
      → tally d v (map answer_ticket p.sent) ≡ tally d v (tickets docs 0 p.received)
  done_tally p over b =
      rw (done_order p over b)
        (ground (arith, b.tallied, over.request, idle_tally d v p.workers over.workers))

  -- When all threads have ended, the jobs that are done with are the requests received.
  pub all_done :
      (p : Pool)
      → Steps docs handle threadpool_start p
      → AllExited p
      → tally d v (map answer_ticket p.sent) ≡ tally d v (tickets docs 0 p.received)
  all_done p r over = done_tally p over (Steps-Books p r)
