-- ===== src/ThreadPool/Tests.antt =====
-- src/threadpool.c on a schedule: a change of a document, a request that is answered, one that is
-- cancelled, and `exit`.
use taskjuggler_lsp.Base.{
  ℕ, ◌+◌, ◌≤◌, ◌≡◌, refl, subst, Option, none, some, List, [], ◌∷◌, codes, arith, str_eq,
  Option-cases, inl, inr, ◌==◌, if◌then◌else◌, Each,
}
use taskjuggler_lsp.Server.{
  Message, Handlers, RequestId, Reply, method_lookup, server_dispatch_notification,
  server_dispatch_cancelled, server_coordinate_query, server_run_query, new_job, server_process,
}
use taskjuggler_lsp.ThreadPool.{
  Reader, Pool, threadpool_start, coordinate, coordinator_step, run_job, worker_goes,
  query_worker_step, receive, cancel_requests, Steps,
}
use taskjuggler_lsp.ThreadPool.Stop.{AllExited, Turns, steps_left, MayGoOn, threadpool_stop_ends}
use taskjuggler_lsp.ThreadPool.Tally.{tally, tickets}
use taskjuggler_lsp.ThreadPool.Answered.{responses, all_answered}
use taskjuggler_lsp.ThreadPool.Replies.{IsReply}
use taskjuggler_lsp.ThreadPool.Sound.{sent-IsReply}

-- Document 1 changes a file, 2 and 3 are requests with the ids 7 and 8, 4 cancels the id 8, 5 exits.
abbrev docs : ℕ → Message
docs d =
    if d == 1
    then record { method = some (codes "textDocument/didChange"); id = none; cancel_id = none }
    else if d == 2
    then record {
      method = some (codes "textDocument/hover");
      id = some (RequestId.integer 7);
      cancel_id = none;
    }
    else if d == 3
    then record {
      method = some (codes "textDocument/hover");
      id = some (RequestId.integer 8);
      cancel_id = none;
    }
    else if d == 4
    then record { method = some (codes "$/cancelRequest"); id = none; cancel_id = some 8 }
    else record { method = some (codes "exit"); id = none; cancel_id = none }

-- Every handler answers with the number of the document.
abbrev handle : Handlers
handle m d context = some (Reply.result (docs d).id d)

data Event : Type 0 where
  receives : ℕ → Event
  cancels coordinates : Event
  works : ℕ → Event

step : Event → Pool → Option Pool
step (Event.receives d) p = receive docs handle d p
step Event.cancels p = cancel_requests docs handle p
step Event.coordinates p = coordinator_step docs handle p
step (Event.works i) p = query_worker_step docs handle i p

run : List Event → Pool → Option Pool
run [] p = some p
run (e ∷ es) p = elim (step e p) [ none ↦ none | some q ↦ run es q ]

abbrev pool_of : Option Pool → Pool
pool_of o = elim o [ none ↦ threadpool_start | some p ↦ p ]

step-Steps :
    (e : Event) (p q : Pool)
    → Steps docs handle threadpool_start p
    → step e p ≡ some q
    → Steps docs handle threadpool_start q
unfolding step
step-Steps (Event.receives d) p q r s = Steps.receives p d r s
step-Steps Event.cancels p q r s = Steps.cancels p r s
step-Steps Event.coordinates p q r s = Steps.coordinates p r s
step-Steps (Event.works i) p q r s = Steps.works p i r s

run-Steps :
    (es : List Event) (p q : Pool)
    → Steps docs handle threadpool_start p
    → run es p ≡ some q
    → Steps docs handle threadpool_start q
unfolding run
run-Steps [] p q r s = subst (Steps docs handle threadpool_start) (ground (arith, s)) r
run-Steps (e ∷ es) p q r s = elim (Option-cases (step e p)) [
  | inl stuck ↦ absurd (ground (arith, s, stuck))
  | inr (p', goes) ↦ run-Steps es p' q (step-Steps e p p' r goes) (ground (arith, s, goes))
]

abbrev until_exit : List Event
until_exit =
    Event.receives 1
    ∷ Event.receives 2
    ∷ Event.coordinates
    ∷ Event.receives 3
    ∷ Event.coordinates
    ∷ Event.coordinates
    ∷ Event.receives 4
    ∷ Event.coordinates
    ∷ Event.works 0
    ∷ Event.cancels
    ∷ Event.receives 5
    ∷ []

abbrev rest : List Event
rest =
    Event.coordinates
    ∷ Event.coordinates
    ∷ Event.works 0
    ∷ Event.coordinates
    ∷ Event.coordinates
    ∷ Event.works 0
    ∷ Event.works 1
    ∷ Event.works 2
    ∷ Event.works 3
    ∷ []

at_exit : Pool
unfolding run step threadpool_start receive coordinator_step query_worker_step worker_goes
    coordinate cancel_requests run_job method_lookup server_process new_job server_coordinate_query
    server_run_query server_dispatch_cancelled server_dispatch_notification str_eq
at_exit = pool_of (run until_exit threadpool_start)

finished : Pool
unfolding at_exit
finished = pool_of (run rest at_exit)

answers :
    finished.sent
    ≡ record {
      request_doc = 2;
      applied = 1;
      reply = some (Reply.result (some (RequestId.integer 7)) 2);
    }
      ∷ record {
        request_doc = 3;
        applied = 1;
        reply = some (Reply.request_cancelled (RequestId.integer 8));
      }
      ∷ []
unfolding finished
answers = refl

at_exit-Steps : Steps docs handle threadpool_start at_exit
unfolding at_exit
at_exit-Steps = run-Steps until_exit threadpool_start at_exit (Steps.here threadpool_start) refl

finished-Steps : Steps docs handle threadpool_start finished
unfolding finished
finished-Steps = run-Steps rest at_exit finished at_exit-Steps refl

-- The coordinator's first step in the shutdown.
after_exit : Pool
unfolding at_exit
after_exit = pool_of (coordinator_step docs handle at_exit)

one_turn : Turns docs handle 1 at_exit after_exit
unfolding after_exit
one_turn = Turns.coordinator_turn at_exit (Turns.no_turn at_exit) refl

at_exit-stopping : at_exit.reader ≡ Reader.stopping
unfolding at_exit
at_exit-stopping = refl

finished-AllExited : AllExited finished
unfolding finished
finished-AllExited = record {
  coordinator = refl;
  workers = (refl, (refl, (refl, (refl, tt))));
  work = refl;
  request = refl;
}

threadpool_stop_ends_example :
    (1 + steps_left after_exit ≤ steps_left at_exit) × MayGoOn docs handle after_exit
threadpool_stop_ends_example =
    threadpool_stop_ends docs handle 1 at_exit after_exit at_exit-Steps at_exit-stopping one_turn

all_answered_example :
    tally 3 1 (responses finished.sent) ≡ tally 3 1 (tickets docs 0 finished.received)
all_answered_example =
    all_answered docs handle 3 1 (RequestId.integer 8) refl (λ m c. ground arith) finished
      finished-Steps finished-AllExited

once : tally 3 1 (responses finished.sent) ≡ 1
unfolding finished
once = refl

sent-IsReply_example : Each (IsReply docs handle finished.cancelled_ids) finished.sent
sent-IsReply_example = sent-IsReply docs handle finished finished-Steps
