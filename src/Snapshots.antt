-- ===== src/Snapshots.antt =====
-- src/query_context.c, src/document_store.c, src/workspace.c, src/server.c, src/diag_worker.c: who owns
-- the snapshots. A count of 0 is an object that is not made yet or was freed, and a use of it, which is
-- undefined in C, ends with `use_after_free`. Each operation is one step, whatever thread runs it.
pub mod Balance
pub mod Borrowers
pub mod Cells
pub mod Held
pub mod Safety
mod Tests
use taskjuggler_lsp.Base.{
  ℕ, zero, suc, ◌==◌, ◌-◌, Bool, true, false, Option, none, some, List, [], ◌∷◌, ◌++◌, length,
  get_elem?, set, if◌then◌else◌, Bytes,
}
use taskjuggler_lsp.DocumentStore.{Document, empty_slot, docstore_init, doc_alloc}
use taskjuggler_lsp.Workspace.{is_parsed}

pub data Outcome {ℓ} (A : Type ℓ) : Type ℓ where
  ok : A → Outcome A
  use_after_free : Outcome A

infixl 5 ◌>>=◌
abbrev pub ◌>>=◌ {ℓ κ} : {A : Type ℓ} {B : Type κ} → Outcome A → (A → Outcome B) → Outcome B
ok a >>= f = f a
use_after_free >>= f = use_after_free

-- The document snapshots: their counts, and the address of the next.
pub record Counts : Type 0 where
  pub count : ℕ → ℕ
  pub next : ℕ

abbrev pub put : Counts → ℕ → ℕ → Counts
put h a n = record h { count = λ b. if b == a then n else h.count b }

-- `docsnap_new` for a parse, no snapshot without one.
pub docsnap_new : Counts → Bool → Counts × Option ℕ
docsnap_new h false = (h, none)
docsnap_new h true = (record (put h h.next 1) { next = suc h.next }, some h.next)

pub docsnap_acquire : Counts → Option ℕ → Outcome Counts
docsnap_acquire h none = ok h
docsnap_acquire h (some a) =
    if h.count a == 0 then use_after_free else ok (put h a (suc (h.count a)))

pub docsnap_release : Counts → Option ℕ → Outcome Counts
docsnap_release h none = ok h
docsnap_release h (some a) = if h.count a == 0 then use_after_free else ok (put h a (h.count a - 1))

pub doc_clear_parse_state : Counts → Document → Outcome (Counts × Document)
doc_clear_parse_state h d = do
  h₁ ← docsnap_release h d.snap
  h₂ ← docsnap_release h₁ d.prev_snap
  ok (h₂, record d { snap = none; prev_snap = none })

abbrev bump : Bool → ℕ → ℕ
bump parsed version = if parsed then suc version else version

-- `parsed` is `po != NULL`.
pub doc_install_parse : Counts → Document → Bool → Outcome (Counts × Document)
doc_install_parse h d parsed = do
  h₂ ← docsnap_release (docsnap_new h parsed).0 d.prev_snap
  ok (
    h₂,
    record d {
      doc_version = bump parsed d.doc_version;
      prev_snap = d.snap;
      snap = (docsnap_new h parsed).1;
    },
  )

pub doc_free : Counts → Document → Outcome (Counts × Document)
doc_free h d = do (h', d') ← doc_clear_parse_state h d; ok (h', empty_slot)

-- A workspace snapshot, with the snapshots of its documents.
pub record WsCell : Type 0 where
  pub refcount : ℕ
  pub snaps : List ℕ

pub acquire_each : Counts → List ℕ → Outcome Counts
acquire_each h [] = ok h
acquire_each h (a ∷ rest) = do h₁ ← docsnap_acquire h (some a); acquire_each h₁ rest

pub release_each : Counts → List ℕ → Outcome Counts
release_each h [] = ok h
release_each h (a ∷ rest) = do h₁ ← docsnap_release h (some a); release_each h₁ rest

pub ws_acquire : List WsCell → Option ℕ → Outcome (List WsCell)
ws_acquire cells none = ok cells
ws_acquire cells (some w) = elim (get_elem? cells w) [
  | none ↦ use_after_free
  | some c ↦
      if c.refcount == 0
      then use_after_free
      else ok (set cells w (record c { refcount = suc c.refcount }))
]

-- The last release of a snapshot releases those of its documents.
abbrev pub drop_cell : Counts → List WsCell → ℕ → WsCell → Outcome (Counts × List WsCell)
drop_cell h cells w c =
    if c.refcount == 0
    then use_after_free
    else if c.refcount == 1
    then (do h' ← release_each h c.snaps; ok (h', set cells w (record c { refcount = 0 })))
    else ok (h, set cells w (record c { refcount = c.refcount - 1 }))

pub ws_release : Counts → List WsCell → Option ℕ → Outcome (Counts × List WsCell)
ws_release h cells none = ok (h, cells)
ws_release h cells (some w) = elim (get_elem? cells w) [
  | none ↦ use_after_free
  | some c ↦ drop_cell h cells w c
]

pub record QueryContext : Type 0 where
  pub prev_snap : Option ℕ
  pub ws : Option ℕ

abbrev pub no_context : QueryContext
no_context = record { prev_snap = none; ws = none }

-- What a thread of diagnostics holds: the newest request, and the one in `run_once`.
pub record DiagWorker : Type 0 where
  pub pending : Option ℕ
  pub running : Option ℕ

-- A context that was freed stays in the list and holds nothing.
pub record Owners : Type 0 where
  pub docs : List Document
  pub snaps : Counts
  pub cells : List WsCell
  pub g_ws : Option ℕ
  pub contexts : List QueryContext
  pub workers : List DiagWorker

abbrev pub start : Owners
start = record {
  docs = docstore_init;
  snaps = record { count = λ a. 0; next = 0 };
  cells = [];
  g_ws = none;
  contexts = [];
  workers = [];
}

-- An operation on the document of a slot.
pub on_slot : (Counts → Document → Outcome (Counts × Document)) → Owners → ℕ → Outcome Owners
on_slot f s i = elim (get_elem? s.docs i) [
  | none ↦ ok s
  | some d ↦ do (h, d') ← f s.snaps d; ok (record s { docs = set s.docs i d'; snaps = h })
]

-- The snapshots that `populate_ws_doc` takes for a new workspace snapshot.
pub parsed_snaps : List Document → List ℕ
parsed_snaps [] = []
parsed_snaps (d ∷ ds) = elim d.snap [
  | none ↦ parsed_snaps ds
  | some a ↦ let rest = parsed_snaps ds in if d.in_use then a ∷ rest else rest
]

pub publish_workspace_snapshot : Owners → Outcome Owners
publish_workspace_snapshot s = do
  h ← acquire_each s.snaps (parsed_snaps s.docs)
  (h', cells) ←
      ws_release h (s.cells ++ (record { refcount = 1; snaps = parsed_snaps s.docs } ∷ [])) s.g_ws
  ok (record s { snaps = h'; cells = cells; g_ws = some (length s.cells) })

abbrev pub prev_snap_of : Option Document → Option ℕ
prev_snap_of none = none
prev_snap_of (some d) = d.prev_snap

-- The references that `build_query_context_locked` takes for the primary document in the slot.
pub build_query_context : Owners → ℕ → Outcome Owners
build_query_context s i = do
  h ← docsnap_acquire s.snaps (prev_snap_of (get_elem? s.docs i))
  cells ← ws_acquire s.cells s.g_ws
  ok record s {
    snaps = h;
    cells = cells;
    contexts =
        s.contexts ++ (record { prev_snap = prev_snap_of (get_elem? s.docs i); ws = s.g_ws } ∷ []);
  }

pub query_context_free : Owners → ℕ → Outcome Owners
query_context_free s k = elim (get_elem? s.contexts k) [
  | none ↦ ok s
  | some c ↦ do
    h ← docsnap_release s.snaps c.prev_snap
    (h', cells) ← ws_release h s.cells c.ws
    ok record s { snaps = h'; cells = cells; contexts = set s.contexts k no_context }
]

abbrev pub diag_worker_spawn : Owners → Owners
diag_worker_spawn s = record s {
  workers = s.workers ++ (record { pending = none; running = none } ∷ []);
}

-- `ws_acquire (ws)`, then the release of the request before, for the published snapshot.
pub diag_worker_request : Owners → ℕ → Outcome Owners
diag_worker_request s j = elim (get_elem? s.workers j) [
  | none ↦ ok s
  | some k ↦ do
    cells ← ws_acquire s.cells s.g_ws
    (h, cells') ← ws_release s.snaps cells k.pending
    ok record s {
      snaps = h;
      cells = cells';
      workers = set s.workers j (record k { pending = s.g_ws });
    }
]

-- An idle thread takes the request.
pub diag_worker_take : Owners → ℕ → Outcome Owners
diag_worker_take s j = elim (get_elem? s.workers j) [
  | none ↦ ok s
  | some k ↦ elim k.running [
    | some w ↦ ok s
    | none ↦
        ok (record s { workers = set s.workers j (record { pending = none; running = k.pending }) })
  ]
]

-- The end of `run_once`.
pub run_once_end : Owners → ℕ → Outcome Owners
run_once_end s j = elim (get_elem? s.workers j) [
  | none ↦ ok s
  | some k ↦ do
    (h, cells) ← ws_release s.snaps s.cells k.running
    ok record s {
      snaps = h;
      cells = cells;
      workers = set s.workers j (record k { running = none });
    }
]

-- The release of the pending request by a thread that was told to stop.
pub diag_worker_stop : Owners → ℕ → Outcome Owners
diag_worker_stop s j = elim (get_elem? s.workers j) [
  | none ↦ ok s
  | some k ↦ do
    (h, cells) ← ws_release s.snaps s.cells k.pending
    ok record s {
      snaps = h;
      cells = cells;
      workers = set s.workers j (record k { pending = none });
    }
]

pub data Operation : Type 0 where
  allocate : Bytes → Operation
  install : ℕ → Bool → Operation
  clear : ℕ → Operation
  free : ℕ → Operation
  publish : Operation
  pin : ℕ → Operation
  unpin : ℕ → Operation
  spawn : Operation
  request : ℕ → Operation
  take_request : ℕ → Operation
  end_run : ℕ → Operation
  stop_worker : ℕ → Operation

module _ (realpath : Bytes → Option Bytes) where
  pub perform : Owners → Operation → Outcome Owners
  perform s (allocate uri) = elim (doc_alloc realpath s.docs uri) [
    | none ↦ ok s
    | some (docs, i) ↦ ok (record s { docs = docs })
  ]
  perform s (install i parsed) = on_slot (λ h d. doc_install_parse h d parsed) s i
  perform s (clear i) = on_slot doc_clear_parse_state s i
  perform s (free i) = on_slot doc_free s i
  perform s publish = publish_workspace_snapshot s
  perform s (pin i) = build_query_context s i
  perform s (unpin k) = query_context_free s k
  perform s spawn = ok (diag_worker_spawn s)
  perform s (request j) = elim s.g_ws [ none ↦ ok s | some w ↦ diag_worker_request s j ]
  perform s (take_request j) = diag_worker_take s j
  perform s (end_run j) = run_once_end s j
  perform s (stop_worker j) = diag_worker_stop s j

  pub perform_all : Owners → List Operation → Outcome Owners
  perform_all s [] = ok s
  perform_all s (op ∷ ops) = do s' ← perform s op; perform_all s' ops
