-- ===== src/JobQueue/Refine.antt =====
-- src/job_queue.c: the linked queue behaves as a list of jobs with a flag.
use taskjuggler_lsp.Base.{
  ℕ, ◌≡◌, ◌≤◌, refl, ◌∙◌, ap, ap₂, fun_ext, Bool, true, Option, none, some, List, [], ◌∷◌, ◌++◌,
  map, arith, if◌then◌else◌, length,
}
use mathlib.Core.List.{map-append}
use taskjuggler_lsp.JobQueue.{
  Job, JobQueue, Store, set_cancelled, is_target, job_queue_push, job_queue_pop, job_queue_close,
  job_queue_mark_cancelled_by_id,
}
use taskjuggler_lsp.JobQueue.Chain.{
  Absent, IsQueue, push-IsQueue, pop-Popped, unlinked, push-unlinked,
}
use taskjuggler_lsp.JobQueue.Cancel.{
  contains, marked, marked-next, Chain-keep, job_queue_mark_cancelled_by_id_lem,
}

-- The queue as the threads see it.
pub record Queue : Type 0 where
  pub jobs : List Job
  pub closed : Bool

abbrev pub push : Queue → Job → Queue
push q j = record { jobs = q.jobs ++ (j ∷ []); closed = q.closed }

-- The queue left and the job or NULL, or `none` for a wait.
abbrev pub pop : Queue → Option (Queue × Option Job)
pop q = elim q.jobs [
  | [] ↦ if q.closed then some (q, none) else none
  | j ∷ js ↦ some (record { jobs = js; closed = q.closed }, some j)
]

abbrev pub close : Queue → Queue
close q = record { jobs = q.jobs; closed = true }

abbrev pub mark : ℕ → Job → Job
mark id j = if is_target id j then set_cancelled j else j

abbrev pub mark_cancelled : ℕ → Queue → Queue
mark_cancelled id q = record { jobs = map (mark id) q.jobs; closed = q.closed }

-- The jobs at `ps`, without their links.
abbrev pub jobs_at : Store → List ℕ → List Job
jobs_at h ps = map (λ p. unlinked (h p)) ps

-- The structure in the store stands for the list.
pub record Shows (h : Store) (q : JobQueue) (ps : List ℕ) (s : Queue) : Type 0 where
  pub linked : IsQueue h q ps
  pub jobs : jobs_at h ps ≡ s.jobs
  pub flag : q.closed ≡ s.closed

jobs_at-same :
    (h h' : Store) (f : Job → Job) (ps : List ℕ)
    → ((x : ℕ) → contains ps x ≡ true → unlinked (h' x) ≡ f (unlinked (h x)))
    → jobs_at h' ps ≡ map f (jobs_at h ps)
jobs_at-same h h' f [] same = refl
jobs_at-same h h' f (p ∷ ps) same =
    ap₂ (λ (j : Job) (js : List Job). j ∷ js) (same p (ground arith))
      (jobs_at-same h h' f ps (λ x e. same x (ground (arith, e))))

push-jobs_at :
    (h : Store) (q : JobQueue) (ps : List ℕ) (p : ℕ)
    → jobs_at (job_queue_push h q p).0 (ps ++ (p ∷ [])) ≡ jobs_at h ps ++ (unlinked (h p) ∷ [])
push-jobs_at h q ps p =
    ap (λ (f : ℕ → Job). map f (ps ++ (p ∷ []))) (fun_ext (push-unlinked h q p))
    ∙ map-append (λ x. unlinked (h x)) ps (p ∷ [])

push-Shows :
    (h : Store) (q : JobQueue) (ps : List ℕ) (s : Queue) (p : ℕ)
    → Shows h q ps s
    → Absent p ps
    → Shows
        (job_queue_push h q p).0
        (job_queue_push h q p).1
        (ps ++ (p ∷ []))
        (push s (unlinked (h p)))
unfolding job_queue_push
push-Shows h q ps s p i fresh = record {
  linked = push-IsQueue h q ps p i.linked fresh;
  jobs = push-jobs_at h q ps p ∙ ap (λ (js : List Job). js ++ (unlinked (h p) ∷ [])) i.jobs;
  flag = ground (arith, i.flag);
}

-- What both pops give.
abbrev pub PopShows : Store → JobQueue → List ℕ → Queue → Type 0
PopShows h q [] s =
    (job_queue_pop h q ≡ (if q.closed then some (q, none) else none))
    × (pop s ≡ (if q.closed then some (s, none) else none))
PopShows h q (p ∷ ps) s =
    (q' : JobQueue) × (s' : Queue) × (job_queue_pop h q ≡ some (q', some p))
    × (pop s ≡ some (s', some (unlinked (h p))))
    × Shows h q' ps s'

pop-PopShows :
    (h : Store) (q : JobQueue) (ps : List ℕ) (s : Queue) → Shows h q ps s → PopShows h q ps s
pop-PopShows h q [] s i = (pop-Popped h q [] i.linked, ground (arith, i.jobs, i.flag))
pop-PopShows h q (p ∷ ps) s i =
    let (q', res, rest, kept) = pop-Popped h q (p ∷ ps) i.linked in
    let s' : Queue = record { jobs = jobs_at h ps; closed = s.closed } in
    (q', s', res, rw (← i.jobs) refl, record { linked = rest; jobs = refl; flag = kept ∙ i.flag })

cancel-Shows :
    (h : Store) (q : JobQueue) (ps : List ℕ) (s : Queue) (fuel id : ℕ)
    → Shows h q ps s
    → length ps ≤ fuel
    → Shows (job_queue_mark_cancelled_by_id fuel h q id) q ps (mark_cancelled id s)
cancel-Shows h q ps s fuel id i enough =
    let h' = job_queue_mark_cancelled_by_id fuel h q id in
    let marks : (x : ℕ) → h' x ≡ marked id h ps x =
      λ x. job_queue_mark_cancelled_by_id_lem fuel h q ps id x i.linked enough in
    record {
      linked = record {
        chain =
            Chain-keep h h' ps q.head
              (λ x. ap (λ (j : Job). j.next) (marks x) ∙ marked-next id h ps x) i.linked.chain;
        distinct = i.linked.distinct;
        ends = i.linked.ends;
      };
      jobs =
          jobs_at-same h h' (mark id) ps (λ x e. ap unlinked (marks x) ∙ ground (arith, e))
          ∙ ap (map (mark id)) i.jobs;
      flag = i.flag;
    }

-- On a queue in the store that stands for a list of jobs, each operation of the code leads to one that
-- stands for what the list operation gives. The pushed job is none of the queued ones, and the fuel of
-- a cancellation is at least the number of queued jobs.
pub job_queue-refines :
    (h : Store) (q : JobQueue) (ps : List ℕ) (s : Queue) (p fuel id : ℕ)
    → Shows h q ps s
    → Absent p ps
    → length ps ≤ fuel
    → Shows
        (job_queue_push h q p).0
        (job_queue_push h q p).1
        (ps ++ (p ∷ []))
        (push s (unlinked (h p)))
      × PopShows h q ps s
      × Shows h (job_queue_close q) ps (close s)
      × Shows (job_queue_mark_cancelled_by_id fuel h q id) q ps (mark_cancelled id s)
job_queue-refines h q ps s p fuel id i fresh enough = (
  push-Shows h q ps s p i fresh,
  pop-PopShows h q ps s i,
  record {
    linked = record { chain = i.linked.chain; distinct = i.linked.distinct; ends = i.linked.ends };
    jobs = i.jobs;
    flag = refl;
  },
  cancel-Shows h q ps s fuel id i enough,
)
