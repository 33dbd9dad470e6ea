-- ===== src/JobQueue/Tests.antt =====
-- src/job_queue.c on two requests and a notification, one request cancelled.
use taskjuggler_lsp.Base.{
  ℕ, ◌+◌, ◌≡◌, refl, true, false, none, some, List, [], ◌∷◌, arith, if◌then◌else◌, ◌==◌,
}
use taskjuggler_lsp.JobQueue.{
  JobQueue, Store, job_queue_create, job_queue_push, job_queue_pop, job_queue_close, cancel_from,
  job_queue_mark_cancelled_by_id,
}
use taskjuggler_lsp.JobQueue.Chain.{Absent, IsQueue, unlinked}
use taskjuggler_lsp.JobQueue.Refine.{
  Queue, push, close, mark_cancelled, jobs_at, Shows, PopShows, job_queue-refines,
}
use taskjuggler_lsp.JobQueue.Fifo.{Run, Holds, Run-Holds, job_queue_pop-drained}

-- Jobs 1 and 2 are requests with the ids 11 and 12, job 3 is a notification.
abbrev jobs : Store
jobs p = record {
  request_doc = p;
  is_notification = p == 3;
  is_cancelled = false;
  has_id = if p == 3 then false else true;
  id = 10 + p;
  context = none;
  next = none;
}

abbrev pushed_one : Store × JobQueue
pushed_one = job_queue_push jobs job_queue_create 1

abbrev pushed_two : Store × JobQueue
pushed_two = job_queue_push pushed_one.0 pushed_one.1 2

two_jobs : Store × JobQueue
two_jobs = pushed_two

heads : (two_jobs.1.head ≡ some 1) × (two_jobs.1.tail ≡ some 2) × ((two_jobs.0 1).next ≡ some 2)
unfolding two_jobs job_queue_push
heads = (refl, refl, refl)

two_jobs-IsQueue : IsQueue two_jobs.0 two_jobs.1 (1 ∷ 2 ∷ [])
unfolding two_jobs job_queue_push
two_jobs-IsQueue = record {
  chain = (refl, (refl, refl));
  distinct = ((omega arith, tt), (tt, tt));
  ends = refl;
}

cancelled_second :
    ((job_queue_mark_cancelled_by_id 2 two_jobs.0 two_jobs.1 12 2).is_cancelled ≡ true)
    × ((job_queue_mark_cancelled_by_id 2 two_jobs.0 two_jobs.1 12 1).is_cancelled ≡ false)
unfolding two_jobs job_queue_push cancel_from
cancelled_second = (refl, refl)

-- One job goes through the queue, which is then closed.
abbrev one_out : JobQueue
one_out = record { head = none; tail = none; closed = false }

nothing_queued : (ps : List ℕ) → IsQueue jobs job_queue_create ps → Absent 1 ps
nothing_queued [] i = tt
nothing_queued (x ∷ ps) i = absurd (ground (arith, i.chain.0))

first_out : job_queue_pop pushed_one.0 pushed_one.1 ≡ some (one_out, some 1)
unfolding job_queue_pop job_queue_push
first_out = refl

null : job_queue_pop pushed_one.0 (job_queue_close one_out) ≡ some (job_queue_close one_out, none)
unfolding job_queue_pop
null = refl

one_run : Run pushed_one.0 (job_queue_close one_out) (1 ∷ []) (1 ∷ [])
one_run = Run.close pushed_one.0 one_out (1 ∷ []) (1 ∷ []) (
    Run.pop pushed_one.0 pushed_one.1 (1 ∷ []) [] one_out 1
      (Run.push jobs job_queue_create [] [] 1 (Run.start jobs) nothing_queued) first_out)

Run-Holds_example : Holds pushed_one.0 (job_queue_close one_out) (1 ∷ []) (1 ∷ [])
Run-Holds_example = Run-Holds pushed_one.0 (job_queue_close one_out) (1 ∷ []) (1 ∷ []) one_run

job_queue_pop-drained_example :
    ((job_queue_close one_out).closed ≡ true) × (◌≡◌ {A = List ℕ} (1 ∷ []) (1 ∷ []))
job_queue_pop-drained_example =
    job_queue_pop-drained pushed_one.0 (job_queue_close one_out) (job_queue_close one_out) (1 ∷ [])
      (1 ∷ []) one_run null

-- The two queued jobs as a list, and a third one pushed.
two_listed : Queue
two_listed = record { jobs = jobs_at two_jobs.0 (1 ∷ 2 ∷ []); closed = false }

two_listed-Shows : Shows two_jobs.0 two_jobs.1 (1 ∷ 2 ∷ []) two_listed
unfolding two_listed two_jobs job_queue_push
two_listed-Shows = record { linked = two_jobs-IsQueue; jobs = refl; flag = refl }

job_queue-refines_example :
    Shows
      (job_queue_push two_jobs.0 two_jobs.1 3).0
      (job_queue_push two_jobs.0 two_jobs.1 3).1
      (1 ∷ 2 ∷ 3 ∷ [])
      (push two_listed (unlinked (two_jobs.0 3)))
    × PopShows two_jobs.0 two_jobs.1 (1 ∷ 2 ∷ []) two_listed
    × Shows two_jobs.0 (job_queue_close two_jobs.1) (1 ∷ 2 ∷ []) (close two_listed)
    × Shows
        (job_queue_mark_cancelled_by_id 2 two_jobs.0 two_jobs.1 12)
        two_jobs.1
        (1 ∷ 2 ∷ [])
        (mark_cancelled 12 two_listed)
job_queue-refines_example =
    job_queue-refines two_jobs.0 two_jobs.1 (1 ∷ 2 ∷ []) two_listed 3 2 12 two_listed-Shows
      (omega arith, (omega arith, tt)) (omega arith)
