-- ===== src/JobQueue/Chain.antt =====
-- src/job_queue.c: the links, the head and the tail hold a list of jobs, and the operations keep it so.
use taskjuggler_lsp.Base.{
  ℕ, ◌≡◌, ◌≢◌, refl, ◌∙◌, sym, ap, Option, none, some, List, [], ◌∷◌, ◌++◌, arith, if◌then◌else◌,
  Option-cases, inl, inr,
}
use taskjuggler_lsp.JobQueue.{Job, JobQueue, Store, store, set_next, job_queue_push, job_queue_pop}

abbrev pub Absent : ℕ → List ℕ → Type 0
Absent p [] = Unit
Absent p (x ∷ xs) = (p ≢ x) × Absent p xs

abbrev pub Distinct : List ℕ → Type 0
Distinct [] = Unit
Distinct (x ∷ xs) = Absent x xs × Distinct xs

abbrev pub last : List ℕ → Option ℕ
last [] = none
last (x ∷ []) = some x
last (x ∷ y ∷ xs) = last (y ∷ xs)

-- The jobs at `ps`, linked from `at` on.
abbrev pub Chain : Store → Option ℕ → List ℕ → Type 0
Chain h at [] = at ≡ none
Chain h at (p ∷ ps) = (at ≡ some p) × Chain h (h p).next ps

pub record IsQueue (h : Store) (q : JobQueue) (ps : List ℕ) : Type 0 where
  pub chain : Chain h q.head ps
  pub distinct : Distinct ps
  pub ends : q.tail ≡ last ps

last-Absent : (ps : List ℕ) {p t : ℕ} → last ps ≡ some t → Absent p ps → p ≢ t
last-Absent [] e _ = absurd (ground (arith, e))
last-Absent (x ∷ []) e (ne, _) = ground (arith, e)
last-Absent (x ∷ y ∷ ps) e (ne, rest) = last-Absent (y ∷ ps) e rest

pub Absent-append : (ps : List ℕ) (p x : ℕ) → Absent p ps → p ≢ x → Absent p (ps ++ (x ∷ []))
Absent-append [] p x _ ne = (ne, tt)
Absent-append (y ∷ ps) p x (h, rest) ne = (h, Absent-append ps p x rest ne)

pub Distinct-append : (ps : List ℕ) (p : ℕ) → Distinct ps → Absent p ps → Distinct (ps ++ (p ∷ []))
Distinct-append [] p _ _ = (tt, tt)
Distinct-append (x ∷ ps) p (h, rest) (ne, absent) =
    (Absent-append ps x p h (λ e. ne (sym e)), Distinct-append ps p rest absent)

last-append : (ps : List ℕ) (p : ℕ) → last (ps ++ (p ∷ [])) ≡ some p
last-append [] p = refl
last-append (x ∷ []) p = refl
last-append (x ∷ y ∷ ps) p = last-append (y ∷ ps) p

Chain-at : (h : Store) (ps : List ℕ) {at at' : Option ℕ} → at ≡ at' → Chain h at' ps → Chain h at ps
Chain-at h ps e c = rw e c

-- A chain whose last job is linked to a new one.
Chain-extend :
    (h h' : Store) (p t : ℕ) (ps : List ℕ) (at : Option ℕ)
    → ((x : ℕ) → x ≢ t → x ≢ p → (h' x).next ≡ (h x).next)
    → (h' t).next ≡ some p
    → (h' p).next ≡ none
    → Chain h at ps
    → last ps ≡ some t
    → Distinct ps
    → Absent p ps
    → Chain h' at (ps ++ (p ∷ []))
Chain-extend h h' p t [] at old link end c e d a = absurd (ground (arith, e))
Chain-extend h h' p t (x ∷ []) at old link end (here, c) e d a =
    let same : x ≡ t = ground (arith, e) in (here, (ap (λ (y : ℕ). (h' y).next) same ∙ link, end))
Chain-extend h h' p t (x ∷ y ∷ ps) at old link end (here, c) e (dx, d) (ax, a) =
    let link_kept : (h' x).next ≡ (h x).next =
      old x (last-Absent (y ∷ ps) e dx) (λ e. ax (sym e)) in
    let behind = Chain-extend h h' p t (y ∷ ps) (h x).next old link end c e d a in
    (here, Chain-at h' (y ∷ (ps ++ (p ∷ []))) link_kept behind)

last-none : (ps : List ℕ) → last ps ≡ none → ps ≡ []
last-none [] e = refl
last-none (x ∷ []) e = absurd (ground (arith, e))
last-none (x ∷ y ∷ ps) e = absurd (ground (arith, last-none (y ∷ ps) e))

push-none :
    (h : Store) (q : JobQueue) (p : ℕ)
    → q.tail ≡ none
    → job_queue_push h q p ≡ (
      store h p (set_next (h p) none),
      record { head = some p; tail = some p; closed = q.closed },
    )
unfolding job_queue_push
push-none h q p e = rw e refl

push-some :
    (h : Store) (q : JobQueue) (p t : ℕ)
    → q.tail ≡ some t
    → job_queue_push h q p ≡ (
        let h₁ = store h p (set_next (h p) none) in
        (
          store h₁ t (set_next (h₁ t) (some p)),
          record { head = q.head; tail = some p; closed = q.closed },
        ))
unfolding job_queue_push
push-some h q p t e = rw e refl

-- A push appends the job.
pub push-IsQueue :
    (h : Store) (q : JobQueue) (ps : List ℕ) (p : ℕ)
    → IsQueue h q ps
    → Absent p ps
    → IsQueue (job_queue_push h q p).0 (job_queue_push h q p).1 (ps ++ (p ∷ []))
push-IsQueue h q ps p i a = elim (Option-cases q.tail) [
  | inl e ↦
      let empty : ps ≡ [] = last-none ps (sym i.ends ∙ e) in
      rw (push-none h q p e, empty)
        record { chain = (refl, ground arith); distinct = (tt, tt); ends = refl }
  | inr (t, e) ↦
      let h₁ = store h p (set_next (h p) none) in
      let ne = last-Absent ps (sym i.ends ∙ e) a in
      rw (push-some h q p t e) record {
        chain =
            Chain-extend h (store h₁ t (set_next (h₁ t) (some p))) p t ps q.head
              (λ x nt np. ground (arith, nt, np)) (ground arith) (ground (arith, ne)) i.chain
              (sym i.ends ∙ e) i.distinct a;
        distinct = Distinct-append ps p i.distinct a;
        ends = sym (last-append ps p);
      }
]

-- What a job holds besides its link.
abbrev pub unlinked : Job → Job
unlinked j = set_next j none

pub push-unlinked :
    (h : Store) (q : JobQueue) (p x : ℕ) → unlinked ((job_queue_push h q p).0 x) ≡ unlinked (h x)
unfolding job_queue_push
push-unlinked h q p x = ground arith

-- What a pop gives on a queue of the jobs at `ps`.
abbrev pub Popped : Store → JobQueue → List ℕ → Option (JobQueue × Option ℕ) → Type 0
Popped h q [] res = res ≡ (if q.closed then some (q, none) else none)
Popped h q (p ∷ ps) res =
    (q' : JobQueue) × (res ≡ some (q', some p)) × IsQueue h q' ps × (q'.closed ≡ q.closed)

-- On a queue of the jobs at `ps`, a pop returns the first one and leaves the queue of the others; on
-- an empty queue it returns NULL if the queue is closed, and waits if it is not.
pub pop-Popped :
    (h : Store) (q : JobQueue) (ps : List ℕ) → IsQueue h q ps → Popped h q ps (job_queue_pop h q)
unfolding job_queue_pop
pop-Popped h q [] i = rw (i.chain) refl
pop-Popped h q (p ∷ []) i =
    let q' : JobQueue = record {
      head = (h p).next;
      tail = elim (h p).next [ none ↦ none | some _ ↦ q.tail ];
      closed = q.closed;
    } in
    (
      q',
      rw (i.chain.0) refl,
      record { chain = i.chain.1; distinct = tt; ends = rw (i.chain.1) refl },
      refl,
    )
pop-Popped h q (p ∷ y ∷ ps) i =
    let q' : JobQueue = record {
      head = (h p).next;
      tail = elim (h p).next [ none ↦ none | some _ ↦ q.tail ];
      closed = q.closed;
    } in
    (
      q',
      rw (i.chain.0) refl,
      record { chain = i.chain.1; distinct = i.distinct.1; ends = rw (i.chain.1.0) (i.ends) },
      refl,
    )
