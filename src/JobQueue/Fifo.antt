-- ===== src/JobQueue/Fifo.antt =====
-- src/job_queue.c: every run of the queue's operations, by the reader and the workers in any order.
use taskjuggler_lsp.Base.{
  ℕ, ◌≡◌, ◌≤◌, refl, ◌∙◌, sym, ap, subst, true, Option, none, some, List, [], ◌∷◌, ◌++◌, arith,
  length, append-nil, append_assoc,
}
use taskjuggler_lsp.JobQueue.{
  Job, JobQueue, Store, job_queue_create, job_queue_push, job_queue_pop, job_queue_close,
  job_queue_mark_cancelled_by_id,
}
use taskjuggler_lsp.JobQueue.Chain.{Absent, Chain, IsQueue, push-IsQueue, pop-Popped}
use taskjuggler_lsp.JobQueue.Cancel.{
  contains, marked-next, Chain-keep, job_queue_mark_cancelled_by_id_lem,
}

-- A run up to a store and a queue, with the jobs pushed and the jobs popped so far.
-- A pushed job is not in the queue. Jobs outside the queue belong to a worker or to the reader, who
-- may change them, free them and use their addresses again.
pub data Run : Store → JobQueue → List ℕ → List ℕ → Type 0 where
  start : (h : Store) → Run h job_queue_create [] []
  push :
      (h : Store) (q : JobQueue) (pushed popped : List ℕ) (p : ℕ)
      → Run h q pushed popped
      → ((ps : List ℕ) → IsQueue h q ps → Absent p ps)
      → Run (job_queue_push h q p).0 (job_queue_push h q p).1 (pushed ++ (p ∷ [])) popped
  pop :
      (h : Store) (q : JobQueue) (pushed popped : List ℕ) (q' : JobQueue) (p : ℕ)
      → Run h q pushed popped
      → job_queue_pop h q ≡ some (q', some p)
      → Run h q' pushed (popped ++ (p ∷ []))
  close :
      (h : Store) (q : JobQueue) (pushed popped : List ℕ)
      → Run h q pushed popped
      → Run h (job_queue_close q) pushed popped
  cancel :
      (h : Store) (q : JobQueue) (pushed popped : List ℕ) (fuel id : ℕ)
      → Run h q pushed popped
      → ((ps : List ℕ) → IsQueue h q ps → length ps ≤ fuel)
      → Run (job_queue_mark_cancelled_by_id fuel h q id) q pushed popped
  outside :
      (h : Store) (q : JobQueue) (pushed popped : List ℕ) (h' : Store)
      → Run h q pushed popped
      → ((ps : List ℕ) (x : ℕ) → IsQueue h q ps → contains ps x ≡ true → h' x ≡ h x)
      → Run h' q pushed popped

abbrev pub Holds : Store → JobQueue → List ℕ → List ℕ → Type 0
Holds h q pushed popped = (ps : List ℕ) × IsQueue h q ps × (pushed ≡ popped ++ ps)

Chain-outside :
    (h h' : Store) (ps : List ℕ) (at : Option ℕ)
    → ((x : ℕ) → contains ps x ≡ true → h' x ≡ h x)
    → Chain h at ps
    → Chain h' at ps
Chain-outside h h' [] at same c = c
Chain-outside h h' (p ∷ ps) at same (here, c) =
    let kept : h' p ≡ h p = same p (ground arith) in
    (here, rw kept (Chain-outside h h' ps (h p).next (λ x e. same x (ground (arith, e))) c))

pop-Holds :
    (h : Store) (q : JobQueue) (pushed popped : List ℕ) (q' : JobQueue) (p : ℕ) (ps : List ℕ)
    → IsQueue h q ps
    → pushed ≡ popped ++ ps
    → job_queue_pop h q ≡ some (q', some p)
    → Holds h q' pushed (popped ++ (p ∷ []))
pop-Holds h q pushed popped q' p [] i e r = absurd (ground (arith, pop-Popped h q [] i, r))
pop-Holds h q pushed popped q' p (x ∷ ps) i e r =
    let (q₁, res, rest, _) = pop-Popped h q (x ∷ ps) i in
    let same_q : q₁ ≡ q' = ground (arith, res, r) in
    let same_x : x ≡ p = ground (arith, res, r) in
    (
      ps,
      subst (λ (k : JobQueue). IsQueue h k ps) same_q rest,
      rw (append_assoc popped (p ∷ []) ps) (e ∙ ap (λ (y : ℕ). popped ++ (y ∷ ps)) same_x),
    )

-- After any run, the links, the head and the tail hold the jobs that were pushed and not yet popped, in
-- the order of the pushes.
pub Run-Holds :
    (h : Store) (q : JobQueue) (pushed popped : List ℕ)
    → Run h q pushed popped
    → Holds h q pushed popped
Run-Holds _ _ _ _ (Run.start h) = ([], record { chain = refl; distinct = tt; ends = refl }, refl)
Run-Holds _ _ _ _ (Run.push h₀ q₀ pushed₀ popped p r fresh) =
    let (ps, i, e) = Run-Holds h₀ q₀ pushed₀ popped r in
    (ps ++ (p ∷ []), push-IsQueue h₀ q₀ ps p i (fresh ps i), rw e (append_assoc popped ps (p ∷ [])))
Run-Holds _ _ _ _ (Run.pop h q₀ pushed popped₀ q p r res) =
    let (ps, i, e) = Run-Holds h q₀ pushed popped₀ r in pop-Holds h q₀ pushed popped₀ q p ps i e res
Run-Holds _ _ _ _ (Run.close h q₀ pushed popped r) =
    let (ps, i, e) = Run-Holds h q₀ pushed popped r in
    (ps, record { chain = i.chain; distinct = i.distinct; ends = i.ends }, e)
Run-Holds _ _ _ _ (Run.cancel h₀ q pushed popped fuel id r enough) =
    let (ps, i, e) = Run-Holds h₀ q pushed popped r in
    (
      ps,
      record {
        chain =
            Chain-keep h₀ (job_queue_mark_cancelled_by_id fuel h₀ q id) ps q.head
              (λ x.
                ap (λ (j : Job). j.next)
                  (job_queue_mark_cancelled_by_id_lem fuel h₀ q ps id x i (enough ps i))
                ∙ marked-next id h₀ ps x)
              i.chain;
        distinct = i.distinct;
        ends = i.ends;
      },
      e,
    )
Run-Holds _ _ _ _ (Run.outside h₀ q pushed popped h r same) =
    let (ps, i, e) = Run-Holds h₀ q pushed popped r in
    (
      ps,
      record {
        chain = Chain-outside h₀ h ps q.head (λ x m. same ps x i m) i.chain;
        distinct = i.distinct;
        ends = i.ends;
      },
      e,
    )

null-Holds :
    (h : Store) (q q' : JobQueue) (pushed popped : List ℕ) (ps : List ℕ)
    → IsQueue h q ps
    → pushed ≡ popped ++ ps
    → job_queue_pop h q ≡ some (q', none)
    → (q.closed ≡ true) × (popped ≡ pushed)
null-Holds h q q' pushed popped [] i e r =
    (ground (arith, pop-Popped h q [] i, r), sym (e ∙ append-nil popped))
null-Holds h q q' pushed popped (x ∷ ps) i e r =
    let (q₁, res, _, _) = pop-Popped h q (x ∷ ps) i in absurd (ground (arith, res, r))

-- After any run, a worker that gets NULL knows that the queue is closed, and that all pushed jobs were
-- popped, in the order in which they were pushed.
pub job_queue_pop-drained :
    (h : Store) (q q' : JobQueue) (pushed popped : List ℕ)
    → Run h q pushed popped
    → job_queue_pop h q ≡ some (q', none)
    → (q.closed ≡ true) × (popped ≡ pushed)
job_queue_pop-drained h q q' pushed popped r res =
    let (ps, i, e) = Run-Holds h q pushed popped r in null-Holds h q q' pushed popped ps i e res
