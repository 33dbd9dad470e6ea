-- ===== src/ThreadPool/Tally.antt =====
-- src/threadpool.c: where each job is at each moment, from the reader to its answer.
use taskjuggler_lsp.Base.{
  ℕ, suc, ◌+◌, ◌≡◌, refl, Bool, true, false, ◌&&◌, ◌==◌, if◌then◌else◌, List, [], ◌∷◌, ◌++◌, map,
  arith, Each,
}
use taskjuggler_lsp.JobQueue.{Job}
use taskjuggler_lsp.JobQueue.Refine.{mark}
use taskjuggler_lsp.Server.{Message, MethodKind, entry_is, method_lookup, method_of}
use taskjuggler_lsp.ThreadPool.{Coordinator, Worker, Answer, context_of}
use taskjuggler_lsp.ThreadPool.Shape.{total}

-- A request and the number of notifications before it.
abbrev pub Ticket : Type 0
Ticket = ℕ × ℕ

abbrev pub hit : ℕ → ℕ → Ticket → ℕ
hit d v (d', v') = if d == d' && v == v' then 1 else 0

abbrev pub tally : ℕ → ℕ → List Ticket → ℕ
tally d v [] = 0
tally d v (t ∷ ts) = hit d v t + tally d v ts

pub tally-append :
    (d v : ℕ) (ss ts : List Ticket) → tally d v (ss ++ ts) ≡ tally d v ss + tally d v ts
tally-append d v [] ts = omega arith
tally-append d v (s ∷ ss) ts = omega (arith, tally-append d v ss ts)

abbrev pub job_ticket : Job → Ticket
job_ticket j = (j.request_doc, context_of j)

abbrev pub answer_ticket : Answer → Ticket
answer_ticket a = (a.request_doc, a.applied)

abbrev pub running_tally : ℕ → ℕ → Worker → ℕ
running_tally d v w = elim w [ Worker.running j ↦ hit d v (job_ticket j) | _ ↦ 0 ]

abbrev pub doc_of : Job → ℕ
doc_of j = j.request_doc

abbrev pub held : Coordinator → List ℕ
held c = elim c [ Coordinator.holding j ↦ j.request_doc ∷ [] | _ ↦ [] ]

pub mark-docs : (id : ℕ) (js : List Job) → map doc_of (map (mark id) js) ≡ map doc_of js
mark-docs id [] = refl
mark-docs id (j ∷ js) = ground (arith, mark-docs id js)

pub mark-tally :
    (id d v : ℕ) (js : List Job)
    → tally d v (map job_ticket (map (mark id) js)) ≡ tally d v (map job_ticket js)
mark-tally id d v [] = refl
mark-tally id d v (j ∷ js) = ground (arith, mark-tally id d v js)

pub idle_tally :
    (d v : ℕ) (ws : List Worker)
    → Each (λ (w : Worker). w ≡ Worker.exited) ws
    → total (running_tally d v) ws ≡ 0
idle_tally d v [] all = refl
idle_tally d v (w ∷ ws) (here, all) = ground (arith, here, idle_tally d v ws all)

module _ (docs : ℕ → Message) where
  abbrev pub notifies : ℕ → Bool
  notifies d = entry_is MethodKind.notification (method_lookup (method_of (docs d)))

  -- The requests among the documents, each with the number of notifications before it, and `n` more.
  abbrev pub tickets : ℕ → List ℕ → List Ticket
  tickets n [] = []
  tickets n (d ∷ ds) = elim (notifies d) [
    | true ↦ tickets (suc n) ds
    | false ↦ (d, n) ∷ tickets n ds
  ]

  abbrev pub notes : List ℕ → ℕ
  notes [] = 0
  notes (d ∷ ds) = (if notifies d then 1 else 0) + notes ds

  pub notes-append : (ds : List ℕ) (d : ℕ) → notes (ds ++ (d ∷ [])) ≡ notes ds + notes (d ∷ [])
  notes-append [] d = omega arith
  notes-append (x ∷ ds) d = omega (arith, notes-append ds d)

  pub tickets-append :
      (d v n : ℕ) (ds : List ℕ) (x : ℕ)
      → tally d v (tickets n (ds ++ (x ∷ [])))
        ≡ tally d v (tickets n ds) + (if notifies x then 0 else hit d v (x, n + notes ds))
  tickets-append d v n [] x = ground arith
  tickets-append d v n (y ∷ ds) x =
      ground (arith, tickets-append d v (suc n) ds x, tickets-append d v n ds x)

  -- The flag of a job is that of its method.
  abbrev pub IsMade : Job → Type 0
  IsMade j = j.is_notification ≡ notifies j.request_doc

  abbrev pub HoldsMade : Coordinator → Type 0
  HoldsMade c = elim c [ Coordinator.holding j ↦ IsMade j | _ ↦ Unit {0} ]

  pub mark-IsMade : (id : ℕ) (js : List Job) → Each IsMade js → Each IsMade (map (mark id) js)
  mark-IsMade id [] all = tt
  mark-IsMade id (j ∷ js) (here, all) = (ground (arith, here), mark-IsMade id js all)
