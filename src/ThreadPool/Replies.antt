-- ===== src/ThreadPool/Replies.antt =====
-- src/threadpool.c, src/server.c: what is sent for a request.
use taskjuggler_lsp.Base.{
  ℕ, ◌≡◌, ◌⊎◌, inl, inr, true, false, if◌then◌else◌, Option, none, some, List, ◌∷◌, arith,
  Bool-cases,
}
use taskjuggler_lsp.JobQueue.{Job, is_target}
use taskjuggler_lsp.JobQueue.Refine.{mark}
use taskjuggler_lsp.JobQueue.Cancel.{contains}
use taskjuggler_lsp.Server.{
  Message, MethodKind, Handlers, RequestId, Reply, entry_is, method_lookup, method_of,
}
use taskjuggler_lsp.ThreadPool.{Coordinator, Worker, Reader, Answer, context_of}

module _ (docs : ℕ → Message) (handle : Handlers) where
  -- The request has an integer id, and one of the cancellations has it.
  abbrev pub Asked : List ℕ → ℕ → Type 0
  Asked ids d = (n : ℕ) × ((docs d).id ≡ some (RequestId.integer n)) × (contains ids n ≡ true)

  -- What the method's handler gives for the request at the state after `applied` notifications. Inline
  -- methods read the live state; a method that the table lacks has a null result.
  abbrev pub handled_reply : ℕ → ℕ → Option Reply
  handled_reply d applied =
      let m = method_of (docs d) in
      if entry_is MethodKind.inline (method_lookup m)
      then handle m d none
      else if entry_is MethodKind.query (method_lookup m)
      then handle m d (some applied)
      else elim (docs d).id [ none ↦ none | some id ↦ some (Reply.null_result id) ]

  abbrev pub IsReply : List ℕ → Answer → Type 0
  IsReply ids a =
      (a.reply ≡ handled_reply a.request_doc a.applied)
      ⊎ ((asked : Asked ids a.request_doc) × (a.reply
            ≡ some (Reply.request_cancelled (RequestId.integer asked.0))))

  -- The id is that of the document, and the mark comes from a cancellation.
  abbrev pub JobOk : List ℕ → Job → Type 0
  JobOk ids j =
      ((j.has_id ≡ false) ⊎ ((docs j.request_doc).id ≡ some (RequestId.integer j.id)))
      × ((j.is_cancelled ≡ false) ⊎ Asked ids j.request_doc)

  -- A job that the coordinator handed over.
  abbrev pub HandedOk : List ℕ → Job → Type 0
  HandedOk ids j =
      JobOk ids j
      × (j.context ≡ some (context_of j))
      × (entry_is MethodKind.inline (method_lookup (method_of (docs j.request_doc))) ≡ false)

  abbrev pub HoldsOk : List ℕ → Coordinator → Type 0
  HoldsOk ids c = elim c [ Coordinator.holding j ↦ JobOk ids j | _ ↦ Unit {0} ]

  abbrev pub WorkerOk : List ℕ → Worker → Type 0
  WorkerOk ids w = elim w [ Worker.running j ↦ HandedOk ids j | _ ↦ Unit {0} ]

  -- The id that the reader is about to mark in the second queue is one of the cancelled ones.
  abbrev pub MarksListed : List ℕ → Reader → Type 0
  MarksListed ids r = elim r [ Reader.cancelling id ↦ contains ids id ≡ true | _ ↦ Unit {0} ]

  pub Asked-cons : (ids : List ℕ) (id d : ℕ) → Asked ids d → Asked (id ∷ ids) d
  Asked-cons ids id d (n, e, c) = (n, e, ground (arith, c))

  pub JobOk-cons : (ids : List ℕ) (id : ℕ) (j : Job) → JobOk ids j → JobOk (id ∷ ids) j
  JobOk-cons ids id j (i, inl c) = (i, inl c)
  JobOk-cons ids id j (i, inr a) = (i, inr (Asked-cons ids id j.request_doc a))

  -- Marking by an id that was cancelled.
  pub mark-JobOk :
      (ids : List ℕ) (id : ℕ)
      → contains ids id ≡ true
      → (j : Job) → JobOk ids j
      → JobOk ids (mark id j)
  mark-JobOk ids id listed j (i, c) = elim (Bool-cases (is_target id j)) [
    | inl hit ↦ rw hit (i, inr (id, ground (arith, hit, i), listed))
    | inr other ↦ rw other (i, c)
  ]

  pub mark-HandedOk :
      (ids : List ℕ) (id : ℕ)
      → contains ids id ≡ true
      → (j : Job) → HandedOk ids j
      → HandedOk ids (mark id j)
  mark-HandedOk ids id listed j (ok, c, e) = elim (Bool-cases (is_target id j)) [
    | inl hit ↦ let m = mark-JobOk ids id listed j ok in (m, rw hit c, rw hit e)
    | inr other ↦ let m = mark-JobOk ids id listed j ok in (m, rw other c, rw other e)
  ]

  pub HoldsOk-cons :
      (ids : List ℕ) (id : ℕ) (c : Coordinator) → HoldsOk ids c → HoldsOk (id ∷ ids) c
  HoldsOk-cons ids id (Coordinator.holding j) ok = JobOk-cons ids id j ok
  HoldsOk-cons ids id Coordinator.fetching ok = tt
  HoldsOk-cons ids id Coordinator.closing ok = tt
  HoldsOk-cons ids id Coordinator.exited ok = tt

  pub HandedOk-cons : (ids : List ℕ) (id : ℕ) (j : Job) → HandedOk ids j → HandedOk (id ∷ ids) j
  HandedOk-cons ids id j (ok, c, e) = (JobOk-cons ids id j ok, c, e)

  pub WorkerOk-cons : (ids : List ℕ) (id : ℕ) (w : Worker) → WorkerOk ids w → WorkerOk (id ∷ ids) w
  WorkerOk-cons ids id (Worker.running j) ok = HandedOk-cons ids id j ok
  WorkerOk-cons ids id Worker.waiting ok = tt
  WorkerOk-cons ids id Worker.exited ok = tt

  pub IsReply-cons : (ids : List ℕ) (id : ℕ) (a : Answer) → IsReply ids a → IsReply (id ∷ ids) a
  unfolding Asked-cons
  IsReply-cons ids id a (inl e) = inl e
  IsReply-cons ids id a (inr (asked, e)) = inr (Asked-cons ids id a.request_doc asked, e)
