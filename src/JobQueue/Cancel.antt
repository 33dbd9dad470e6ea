-- ===== src/JobQueue/Cancel.antt =====
-- src/job_queue.c: cancelling marks the queued requests with the id, and nothing else.
use taskjuggler_lsp.Base.{
  ℕ, zero, suc, ◌≡◌, ◌≢◌, ◌≤◌, refl, ◌∙◌, ap, Bool, true, false, Option, none, some, List, [], ◌∷◌,
  arith, ◌==◌, if◌then◌else◌, length, ◌&&◌, ◌||◌, ℕ_discrete,
}
use taskjuggler_lsp.JobQueue.{
  Job, JobQueue, Store, store, set_cancelled, is_target, cancel_from,
  job_queue_mark_cancelled_by_id,
}
use taskjuggler_lsp.JobQueue.Chain.{Chain, Absent, Distinct, IsQueue}

abbrev pub contains : List ℕ → ℕ → Bool
contains [] x = false
contains (p ∷ ps) x = x == p || contains ps x

-- The store in which the jobs of `ps` with the id are cancelled.
abbrev pub mark_if : ℕ → Bool → Job → Job
mark_if id c j = if c && is_target id j then set_cancelled j else j

abbrev pub marked : ℕ → Store → List ℕ → Store
marked id h ps x = mark_if id (contains ps x) (h x)

contains-Absent : (ps : List ℕ) (p : ℕ) → Absent p ps → contains ps p ≡ false
contains-Absent [] p _ = refl
contains-Absent (x ∷ ps) p (ne, a) = ground (arith, ne, contains-Absent ps p a)

pub Chain-keep :
    (h h' : Store) (ps : List ℕ) (at : Option ℕ)
    → ((x : ℕ) → (h' x).next ≡ (h x).next)
    → Chain h at ps
    → Chain h' at ps
Chain-keep h h' [] at same c = c
Chain-keep h h' (p ∷ ps) at same (here, c) =
    (here, rw (same p) (Chain-keep h h' ps (h p).next same c))

pub marked-next : (id : ℕ) (h : Store) (ps : List ℕ) (x : ℕ) → (marked id h ps x).next ≡ (h x).next
marked-next id h ps x = ground arith

mark_one : ℕ → Store → ℕ → Store
mark_one id h p = if is_target id (h p) then store h p (set_cancelled (h p)) else h

mark_one-next : (id : ℕ) (h : Store) (p x : ℕ) → (mark_one id h p x).next ≡ (h x).next
unfolding mark_one
mark_one-next id h p x = ground arith

mark_one_other : (id : ℕ) (h : Store) (p x : ℕ) → x ≢ p → mark_one id h p x ≡ h x
unfolding mark_one
mark_one_other id h p x ne = ground (arith, ne)

mark_one_same : (id : ℕ) (h : Store) (p : ℕ) → mark_one id h p p ≡ mark_if id true (h p)
unfolding mark_one
mark_one_same id h p = ground arith

mark_one-marked :
    (id : ℕ) (h : Store) (p : ℕ) (ps : List ℕ) (x : ℕ)
    → Absent p ps
    → marked id (mark_one id h p) ps x ≡ marked id h (p ∷ ps) x
mark_one-marked id h p ps x a = elim (ℕ_discrete x p) [
  | no ne ↦
      let same : contains ps x ≡ (x == p || contains ps x) = ground (arith, ne) in
      ap (mark_if id (contains ps x)) (mark_one_other id h p x ne)
      ∙ ap (λ (c : Bool). mark_if id c (h x)) same
  | yes e ↦
      let front : true ≡ (p == p || contains ps p) = ground arith in
      rw e (
        ap (λ (c : Bool). mark_if id c (mark_one id h p p)) (contains-Absent ps p a)
        ∙ mark_one_same id h p
        ∙ ap (λ (c : Bool). mark_if id c (h p)) front)
]

cancel_from-marked :
    (left : ℕ) (h : Store) (at : Option ℕ) (ps : List ℕ) (id x : ℕ)
    → Chain h at ps
    → Distinct ps
    → length ps ≤ left
    → cancel_from left h at id x ≡ marked id h ps x
unfolding cancel_from mark_one
cancel_from-marked zero h at [] id x c d e = refl
cancel_from-marked zero h at (p ∷ ps) id x c d e = absurd (omega arith)
cancel_from-marked (suc left) h none [] id x c d e = refl
cancel_from-marked (suc left) h (some j) [] id x c d e = absurd (ground (arith, c))
cancel_from-marked (suc left) h none (p ∷ ps) id x c d e = absurd (ground (arith, c.0))
cancel_from-marked (suc left) h (some j) (p ∷ ps) id x (here, c) (a, d) e =
    let same : j ≡ p = ground (arith, here) in
    let rest =
      cancel_from-marked left (mark_one id h p) (h p).next ps id x
        (Chain-keep h (mark_one id h p) ps (h p).next (mark_one-next id h p) c) d (omega arith) in
    rw same (rest ∙ mark_one-marked id h p ps x a)

-- With fuel for all queued jobs, cancelling an id marks exactly the queued requests with that id and
-- leaves every other job as it is.
pub job_queue_mark_cancelled_by_id_lem :
    (fuel : ℕ) (h : Store) (q : JobQueue) (ps : List ℕ) (id x : ℕ)
    → IsQueue h q ps
    → length ps ≤ fuel
    → job_queue_mark_cancelled_by_id fuel h q id x ≡ marked id h ps x
job_queue_mark_cancelled_by_id_lem fuel h q ps id x i e =
    cancel_from-marked fuel h q.head ps id x i.chain i.distinct e
