-- ===== src/JobQueue.antt =====
-- src/job_queue.c: the linked queue of jobs between the reader and the workers.
-- The store maps the address of a job to the job. Every operation runs under the queue's mutex, so it
-- is one step. A worker that `pthread_cond_wait` holds back is `none`, and asks again when woken.
pub mod Chain
pub mod Cancel
pub mod Fifo
pub mod Refine
mod Tests
use taskjuggler_lsp.Base.{
  ℕ, zero, suc, Bool, true, false, Option, none, some, ◌==◌, ◌&&◌, not, if◌then◌else◌,
}

-- The JSON document and the context are pointers that the queue only carries.
pub record Job : Type 0 where
  pub request_doc : ℕ
  pub is_notification : Bool
  pub is_cancelled : Bool
  pub has_id : Bool
  pub id : ℕ
  pub context : Option ℕ
  pub next : Option ℕ

pub record JobQueue : Type 0 where
  pub head : Option ℕ
  pub tail : Option ℕ
  pub closed : Bool

abbrev pub Store : Type 0
Store = ℕ → Job

abbrev pub store : Store → ℕ → Job → Store
store h p j q = if q == p then j else h q

-- `j->next = at` and `j->is_cancelled = 1`
abbrev pub set_next : Job → Option ℕ → Job
set_next j at = record {
  request_doc = j.request_doc;
  is_notification = j.is_notification;
  is_cancelled = j.is_cancelled;
  has_id = j.has_id;
  id = j.id;
  context = j.context;
  next = at;
}

abbrev pub set_cancelled : Job → Job
set_cancelled j = record {
  request_doc = j.request_doc;
  is_notification = j.is_notification;
  is_cancelled = true;
  has_id = j.has_id;
  id = j.id;
  context = j.context;
  next = j.next;
}

abbrev pub job_queue_create : JobQueue
job_queue_create = record { head = none; tail = none; closed = false }

pub job_queue_push : Store → JobQueue → ℕ → Store × JobQueue
job_queue_push h q job =
    let h₁ = store h job (set_next (h job) none) in
    elim q.tail [
      | some t ↦ (
        store h₁ t (set_next (h₁ t) (some job)),
        record { head = q.head; tail = some job; closed = q.closed },
      )
      | none ↦ (h₁, record { head = some job; tail = some job; closed = q.closed })
    ]

-- The queue and the job returned, NULL being `none`.
pub job_queue_pop : Store → JobQueue → Option (JobQueue × Option ℕ)
job_queue_pop h q = elim q.head [
  | none ↦ if q.closed then some (q, none) else none
  | some job ↦ some (
    record {
      head = (h job).next;
      tail = elim (h job).next [ none ↦ none | some p ↦ q.tail ];
      closed = q.closed;
    },
    some job,
  )
]

abbrev pub job_queue_close : JobQueue → JobQueue
job_queue_close q = record { head = q.head; tail = q.tail; closed = true }

abbrev pub is_target : ℕ → Job → Bool
is_target id j = not j.is_notification && (j.has_id && j.id == id)

-- The loop over the links, over the jobs left.
pub cancel_from : ℕ → Store → Option ℕ → ℕ → Store
cancel_from zero h at id = h
cancel_from (suc left) h none id = h
cancel_from (suc left) h (some j) id =
    cancel_from left (if is_target id (h j) then store h j (set_cancelled (h j)) else h) (h j).next
      id

-- `fuel` is at least the number of queued jobs.
abbrev pub job_queue_mark_cancelled_by_id : ℕ → Store → JobQueue → ℕ → Store
job_queue_mark_cancelled_by_id fuel h q id = cancel_from fuel h q.head id
