-- ===== src/ThreadPool/Answered.antt =====
-- src/threadpool.c, src/server.c: every request gets its response.
use taskjuggler_lsp.Base.{
  ℕ, ◌≡◌, ◌≢◌, refl, sym, ◌∙◌, inl, inr, Bool-cases, Option-cases, Option, none, some, List, [],
  ◌∷◌, map, Each, arith, subst, Bytes,
}
use taskjuggler_lsp.Server.{
  Message, MethodKind, Handlers, RequestId, Reply, entry_is, method_lookup, method_of,
}
use taskjuggler_lsp.ThreadPool.{Answer, Pool, threadpool_start, Steps}
use taskjuggler_lsp.ThreadPool.Stop.{AllExited}
use taskjuggler_lsp.ThreadPool.Tally.{Ticket, tally, answer_ticket, tickets}
use taskjuggler_lsp.ThreadPool.Books.{all_done}
use taskjuggler_lsp.ThreadPool.Replies.{handled_reply, IsReply}
use taskjuggler_lsp.ThreadPool.Sound.{sent-IsReply}

abbrev pub responded : Option Reply → Ticket → List Ticket → List Ticket
responded none t rest = rest
responded (some reply) t rest = t ∷ rest

-- The jobs for which a response was sent.
abbrev pub responses : List Answer → List Ticket
responses [] = []
responses (a ∷ rest) = responded a.reply (answer_ticket a) (responses rest)

module _ (docs : ℕ → Message) (handle : Handlers) (d v : ℕ) (id : RequestId) where
  module _ (has_id : (docs d).id ≡ some id)
      (handlers : (method : Bytes) (context : Option ℕ) → handle method d context ≢ none) where
    handled_reply-some : (applied : ℕ) → handled_reply docs handle d applied ≢ none
    handled_reply-some applied e =
        let m = method_of (docs d) in
        elim (Bool-cases (entry_is MethodKind.inline (method_lookup m))) [
          | inl inline ↦ handlers m none (rw inline at e)
          | inr other ↦ elim (Bool-cases (entry_is MethodKind.query (method_lookup m))) [
            | inl query ↦ handlers m (some applied) (rw (other, query) at e)
            | inr unknown ↦ absurd (ground (arith, rw (other, unknown, has_id) at e))
          ]
        ]

    -- An answer with no response is not one of the request.
    no_response :
        (ids : List ℕ) (a : Answer) → IsReply docs handle ids a → a.reply ≡ none → a.request_doc ≢ d
    no_response ids a (inl e) silent same =
        handled_reply-some a.applied
          (subst (λ (x : ℕ). handled_reply docs handle x a.applied ≡ none) same (sym e ∙ silent))
    no_response ids a (inr (asked, e)) silent same = absurd (ground (arith, e, silent))

    responses-tally :
        (ids : List ℕ) (rest : List Answer)
        → Each (IsReply docs handle ids) rest
        → tally d v (responses rest) ≡ tally d v (map answer_ticket rest)
    responses-tally ids [] all = refl
    responses-tally ids (a ∷ rest) (here, all) = elim (Option-cases a.reply) [
      | inl silent ↦
          rw silent (ground (arith, no_response ids a here silent, responses-tally ids rest all))
      | inr (reply, sent) ↦ rw (sent, responses-tally ids rest all) refl
    ]

    -- When all threads have ended, a request with an id for which the handlers give a response had
    -- as many responses as it was received, each at the state of the documents that the
    -- notifications received before it had made: for any number, the responses at that number of
    -- notifications are as many as the requests that so many notifications precede.
    pub all_answered :
        (p : Pool)
        → Steps docs handle threadpool_start p
        → AllExited p
        → tally d v (responses p.sent) ≡ tally d v (tickets docs 0 p.received)
    all_answered p r over =
        responses-tally p.cancelled_ids p.sent (sent-IsReply docs handle p r)
        ∙ all_done docs handle d v p r over
