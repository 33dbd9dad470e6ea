-- ===== src/ThreadPool.antt =====
-- src/threadpool.c and the reader of src/server.c: the reader, the coordinator and the query workers
-- over two queues.
-- A queue is the list of its jobs, which JobQueue/Refine shows the linked one to be. Each operation on
-- a queue holds its mutex, and a job outside the queues has one owner, so a thread goes from one queue
-- operation to the next in one step. A step is `none` where the thread waits or has ended.
pub mod Moves
pub mod Shape
pub mod Stop
pub mod Tally
pub mod Books
pub mod Replies
pub mod Sound
pub mod Answered
mod Tests
use taskjuggler_lsp.Base.{
  ℕ, ◌≡◌, false, Option, none, some, List, [], ◌∷◌, ◌++◌, get_elem?, set, replicate, if◌then◌else◌,
}
use taskjuggler_lsp.JobQueue.{Job}
use taskjuggler_lsp.JobQueue.Refine.{Queue, push, pop, close, mark_cancelled}
use taskjuggler_lsp.Server.{
  Message, Reply, Handlers, server_dispatch_notification, server_dispatch_cancelled, Coordinated,
  server_coordinate_query, server_run_query, Incoming, server_process,
}

pub data Coordinator : Type 0 where
  fetching : Coordinator
  holding : Job → Coordinator
  closing exited : Coordinator

pub data Worker : Type 0 where
  waiting : Worker
  running : Job → Worker
  exited : Worker

-- `cancelling id` is between the two queues of `threadpool_cancel_by_id`; `stopping` is inside
-- `threadpool_stop`, where the reader only joins the other threads.
pub data Reader : Type 0 where
  reading : Reader
  cancelling : ℕ → Reader
  stopping : Reader

-- A job that is done with, the number of notifications that were applied before the coordinator took
-- it, and what was sent for it.
pub record Answer : Type 0 where
  pub request_doc : ℕ
  pub applied : ℕ
  pub reply : Option Reply

-- The live state counts the notifications applied to it. The last three fields record the
-- documents of all jobs, in the order in which the reader pushed them and in which the coordinator was
-- through with them, and the ids of all cancellations.
pub record Pool : Type 0 where
  pub work : Queue
  pub request : Queue
  pub coordinator : Coordinator
  pub workers : List Worker
  pub reader : Reader
  pub applied : ℕ
  pub sent : List Answer
  pub received : List ℕ
  pub coordinated : List ℕ
  pub cancelled_ids : List ℕ

abbrev num_query_workers : ℕ
num_query_workers = 4

pub threadpool_start : Pool
threadpool_start = record {
  work = record { jobs = []; closed = false };
  request = record { jobs = []; closed = false };
  coordinator = Coordinator.fetching;
  workers = replicate num_query_workers Worker.waiting;
  reader = Reader.reading;
  applied = 0;
  sent = [];
  received = [];
  coordinated = [];
  cancelled_ids = [];
}

abbrev pub answer : Job → ℕ → Option Reply → Answer
answer j applied reply = record { request_doc = j.request_doc; applied = applied; reply = reply }

-- The context that a job of the request queue carries.
abbrev pub context_of : Job → ℕ
context_of j = elim j.context [ none ↦ 0 | some applied ↦ applied ]

-- The parsed documents and the handlers.
module _ (docs : ℕ → Message) (handle : Handlers) where
  -- The body of the coordinator's loop after the pop.
  pub coordinate : Pool → Job → Pool
  coordinate p j =
      let msg = docs j.request_doc in
      let p₁ : Pool = record p {
        coordinator = Coordinator.fetching;
        coordinated = p.coordinated ++ (j.request_doc ∷ []);
      } in
      if j.is_notification
      then record p₁ { applied = server_dispatch_notification msg p.applied }
      else if j.is_cancelled
      then record p₁ { sent = answer j p.applied (server_dispatch_cancelled msg) ∷ p.sent }
      else elim (server_coordinate_query handle msg p.applied j) [
        | Coordinated.handled reply ↦ record p₁ { sent = answer j p.applied reply ∷ p.sent }
        | Coordinated.handed_off j' ↦ record p₁ { request = push p.request j' }
      ]

  pub coordinator_step : Pool → Option Pool
  coordinator_step p = elim p.coordinator [
    | Coordinator.fetching ↦ elim (pop p.work) [
      | none ↦ none
      | some (work, job) ↦ elim job [
        | none ↦ some (record p { work = work; coordinator = Coordinator.closing })
        | some j ↦ some (record p { work = work; coordinator = Coordinator.holding j })
      ]
    ]
    | Coordinator.holding j ↦ some (coordinate p j)
    | Coordinator.closing ↦
        some (record p { request = close p.request; coordinator = Coordinator.exited })
    | Coordinator.exited ↦ none
  ]

  pub run_job : Job → Answer
  run_job j =
      let msg = docs j.request_doc in
      answer j (context_of j)
        (if j.is_cancelled then server_dispatch_cancelled msg else server_run_query handle msg j)

  -- The step of the worker at place `i`, which is `w`.
  pub worker_goes : Pool → ℕ → Worker → Option Pool
  worker_goes p i w = elim w [
    | Worker.waiting ↦ elim (pop p.request) [
      | none ↦ none
      | some (request, job) ↦ elim job [
        | none ↦ some (record p { request = request; workers = set p.workers i Worker.exited })
        | some j ↦
            some (record p { request = request; workers = set p.workers i (Worker.running j) })
      ]
    ]
    | Worker.running j ↦
        some (record p { sent = run_job j ∷ p.sent; workers = set p.workers i Worker.waiting })
    | Worker.exited ↦ none
  ]

  pub query_worker_step : ℕ → Pool → Option Pool
  query_worker_step i p = elim (get_elem? p.workers i) [ none ↦ none | some w ↦ worker_goes p i w ]

  -- `threadpool_stop`, up to the joins.
  abbrev stop : Pool → Pool
  stop p = record p { work = close p.work; reader = Reader.stopping }

  -- The reader takes the message of a document from its input.
  pub receive : ℕ → Pool → Option Pool
  receive d p = elim p.reader [
    | Reader.reading ↦ elim (server_process (docs d) d) [
      | Incoming.quit ↦ some (stop p)
      | Incoming.cancel target ↦ elim target [
        | none ↦ some p
        | some id ↦ some (record p {
          work = mark_cancelled id p.work;
          reader = Reader.cancelling id;
          cancelled_ids = id ∷ p.cancelled_ids;
        })
      ]
      | Incoming.enqueue j ↦
          some (record p { work = push p.work j; received = p.received ++ (d ∷ []) })
    ]
    | _ ↦ none
  ]

  pub end_of_input : Pool → Option Pool
  end_of_input p = elim p.reader [ Reader.reading ↦ some (stop p) | _ ↦ none ]

  -- The second half of `threadpool_cancel_by_id`.
  pub cancel_requests : Pool → Option Pool
  cancel_requests p = elim p.reader [
    | Reader.cancelling id ↦
        some (record p { request = mark_cancelled id p.request; reader = Reader.reading })
    | _ ↦ none
  ]

  -- The threads' steps, in any order.
  pub data Steps : Pool → Pool → Type 0 where
    here : (p : Pool) → Steps p p
    receives : {p p' : Pool} (q : Pool) (d : ℕ) → Steps p q → receive d q ≡ some p' → Steps p p'
    ends : {p p' : Pool} (q : Pool) → Steps p q → end_of_input q ≡ some p' → Steps p p'
    cancels : {p p' : Pool} (q : Pool) → Steps p q → cancel_requests q ≡ some p' → Steps p p'
    coordinates : {p p' : Pool} (q : Pool) → Steps p q → coordinator_step q ≡ some p' → Steps p p'
    works :
        {p p' : Pool} (q : Pool) (i : ℕ) → Steps p q → query_worker_step i q ≡ some p' → Steps p p'
