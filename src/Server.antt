-- ===== src/Server.antt =====
-- src/server.c: the method table, the classification of an incoming message and the dispatch of a job.
-- A message is what the code reads of the JSON document: the method, the id and the id of
-- `$/cancelRequest`. The handlers of the methods are a parameter.
use taskjuggler_lsp.Base.{
  ℕ, suc, Bool, true, false, Option, none, some, List, [], ◌∷◌, Bytes, codes, str_eq, if◌then◌else◌,
}
use taskjuggler_lsp.JobQueue.{Job}

-- An integer id, by its 64-bit pattern, or an id of another type, by its value.
pub data RequestId : Type 0 where
  integer : ℕ → RequestId
  other : ℕ → RequestId

-- `method` is `none` where it is missing or no string, `cancel_id` where it is missing or no integer.
pub record Message : Type 0 where
  pub method : Option Bytes
  pub id : Option RequestId
  pub cancel_id : Option ℕ

pub data MethodKind : Type 0 where
  notification inline query : MethodKind

-- The handler of a method is found by the method's name.
pub record MethodEntry : Type 0 where
  pub method : Bytes
  pub kind : MethodKind
  pub want_all_docs : Bool

abbrev entry : Bytes → MethodKind → MethodEntry
entry method kind = record { method = method; kind = kind; want_all_docs = false }

unfoldable pub methods : List MethodEntry
methods =
    entry (codes "initialized") MethodKind.notification
    ∷ entry (codes "textDocument/didOpen") MethodKind.notification
    ∷ entry (codes "textDocument/didChange") MethodKind.notification
    ∷ entry (codes "textDocument/didClose") MethodKind.notification
    ∷ entry (codes "workspace/didChangeWatchedFiles") MethodKind.notification
    ∷ entry (codes "workspace/didRenameFiles") MethodKind.notification
    ∷ entry (codes "initialize") MethodKind.inline
    ∷ entry (codes "shutdown") MethodKind.inline
    ∷ entry (codes "textDocument/documentSymbol") MethodKind.query
    ∷ entry (codes "textDocument/foldingRange") MethodKind.query
    ∷ entry (codes "textDocument/codeLens") MethodKind.query
    ∷ entry (codes "textDocument/hover") MethodKind.query
    ∷ entry (codes "textDocument/signatureHelp") MethodKind.query
    ∷ entry (codes "textDocument/references") MethodKind.query
    ∷ entry (codes "textDocument/documentHighlight") MethodKind.query
    ∷ entry (codes "textDocument/definition") MethodKind.query
    ∷ entry (codes "textDocument/completion") MethodKind.query
    ∷ entry (codes "textDocument/semanticTokens/full") MethodKind.query
    ∷ entry (codes "textDocument/semanticTokens/full/delta") MethodKind.query
    ∷ record { method = codes "workspace/symbol"; kind = MethodKind.query; want_all_docs = true }
    ∷ []

unfoldable pub lookup_in : List MethodEntry → Bytes → Option MethodEntry
lookup_in [] m = none
lookup_in (e ∷ es) m = if str_eq e.method m then some e else lookup_in es m

unfoldable pub method_lookup : Bytes → Option MethodEntry
unfolding lookup_in methods
method_lookup m = lookup_in methods m

-- `(method && yyjson_is_str (method)) ? yyjson_get_str (method) : ""`
abbrev pub method_of : Message → Bytes
method_of msg = elim msg.method [ none ↦ [] | some m ↦ m ]

abbrev is_kind : MethodKind → MethodKind → Bool
is_kind MethodKind.notification MethodKind.notification = true
is_kind MethodKind.inline MethodKind.inline = true
is_kind MethodKind.query MethodKind.query = true
is_kind _ _ = false

-- `entry && entry->kind == kind`
abbrev pub entry_is : MethodKind → Option MethodEntry → Bool
entry_is kind none = false
entry_is kind (some e) = is_kind e.kind kind

-- A response, with the request's id: a handler's, or one that the server makes itself.
pub data Reply : Type 0 where
  result : Option RequestId → ℕ → Reply
  null_result : RequestId → Reply
  request_cancelled : RequestId → Reply

-- The handlers: of a method, a document and the pinned context of a query (`none` if inline).
abbrev pub Handlers : Type 0
Handlers = Bytes → ℕ → Option ℕ → Option Reply

-- The live state counts the notifications that were applied to it.
unfoldable pub server_dispatch_notification : Message → ℕ → ℕ
server_dispatch_notification msg applied =
    if entry_is MethodKind.notification (method_lookup (method_of msg))
    then suc applied
    else applied

unfoldable pub server_dispatch_cancelled : Message → Option Reply
server_dispatch_cancelled msg = elim msg.id [
  | none ↦ none
  | some id ↦ some (Reply.request_cancelled id)
]

-- `return 1` with the response sent, or `return 0` with the context attached to the job.
pub data Coordinated : Type 0 where
  handled : Option Reply → Coordinated
  handed_off : Job → Coordinated

unfoldable pub server_coordinate_query : Handlers → Message → ℕ → Job → Coordinated
server_coordinate_query handle msg applied job =
    if entry_is MethodKind.inline (method_lookup (method_of msg))
    then Coordinated.handled (handle (method_of msg) job.request_doc none)
    else Coordinated.handed_off (record job { context = some applied })

unfoldable pub server_run_query : Handlers → Message → Job → Option Reply
server_run_query handle msg job =
    if entry_is MethodKind.query (method_lookup (method_of msg))
    then handle (method_of msg) job.request_doc job.context
    else elim msg.id [ none ↦ none | some id ↦ some (Reply.null_result id) ]

-- What the reader does with a message.
pub data Incoming : Type 0 where
  quit : Incoming
  cancel : Option ℕ → Incoming
  enqueue : Job → Incoming

abbrev integer_id : Option RequestId → Option ℕ
integer_id none = none
integer_id (some id) = elim id [ RequestId.integer n ↦ some n | RequestId.other n ↦ none ]

unfoldable pub new_job : Message → ℕ → Job
new_job msg request_doc = record {
  request_doc = request_doc;
  is_notification = entry_is MethodKind.notification (method_lookup (method_of msg));
  is_cancelled = false;
  has_id = elim (integer_id msg.id) [ none ↦ false | some n ↦ true ];
  id = elim (integer_id msg.id) [ none ↦ 0 | some n ↦ n ];
  context = none;
  next = none;
}

unfoldable pub server_process : Message → ℕ → Incoming
server_process msg request_doc =
    if str_eq (method_of msg) (codes "exit")
    then Incoming.quit
    else if str_eq (method_of msg) (codes "$/cancelRequest")
    then Incoming.cancel msg.cancel_id
    else Incoming.enqueue (new_job msg request_doc)
