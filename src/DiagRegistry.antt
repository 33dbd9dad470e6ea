-- ===== src/DiagRegistry.antt =====
-- src/diag_worker.c: the registry of the threads that run the compiler, one for each project.
-- `spawns k` says if the k-th thread can be created. `retired` keeps those that were told to stop.
pub mod Ids
pub mod Round
pub mod Rounds
pub mod Slots
mod Tests
pub mod Update
use taskjuggler_lsp.Base.{
  ℕ, zero, suc, Bool, true, false, ◌||◌, Option, none, some, List, [], ◌∷◌, ◌++◌, map, length,
  get_elem?, set, Bytes, str_eq, if◌then◌else◌,
}
use taskjuggler_lsp.DocumentStore.{next_slot}

-- `full` is the mode TJ3_FULL. `requests` counts the calls of `diag_worker_request`.
pub record RegisteredWorker : Type 0 where
  pub project_id : Bytes
  pub full : Bool
  pub seen : Bool
  pub thread : ℕ
  pub requests : ℕ

pub record Registry : Type 0 where
  pub workers : List RegisteredWorker
  pub next_thread : ℕ
  pub retired : List RegisteredWorker

-- A project of the workspace snapshot.
pub record Project : Type 0 where
  pub id : Bytes
  pub from_compile_commands : Bool

abbrev pub same_mode : Bool → Bool → Bool
same_mode true b = b
same_mode false true = false
same_mode false false = true

unfoldable pub registry_find : List RegisteredWorker → Bytes → Option ℕ
registry_find [] id = none
registry_find (w ∷ ws) id =
    let rest = registry_find ws id in if str_eq w.project_id id then some 0 else next_slot rest

abbrev pub all_but_last : RegisteredWorker → List RegisteredWorker → List RegisteredWorker
all_but_last w [] = []
all_but_last w (v ∷ vs) = w ∷ all_but_last v vs

abbrev pub last_of : RegisteredWorker → List RegisteredWorker → RegisteredWorker
last_of w [] = w
last_of w (v ∷ vs) = last_of v vs

-- The last worker takes the place of the one at the index.
unfoldable pub registry_remove_at : List RegisteredWorker → ℕ → List RegisteredWorker
registry_remove_at [] i = []
registry_remove_at (w ∷ []) zero = []
registry_remove_at (w ∷ v ∷ vs) zero = last_of v vs ∷ all_but_last v vs
registry_remove_at (w ∷ ws) (suc i) = w ∷ registry_remove_at ws i

abbrev pub registry_add : List RegisteredWorker → RegisteredWorker → List RegisteredWorker
registry_add ws w = ws ++ (w ∷ [])

-- The removal of a worker and its retirement.
abbrev pub retire_at : Registry → ℕ → RegisteredWorker → Registry
retire_at r i w = record r { workers = registry_remove_at r.workers i; retired = w ∷ r.retired }

abbrev pub unseen : RegisteredWorker → RegisteredWorker
unseen w = record w { seen = false }

abbrev pub requested : RegisteredWorker → RegisteredWorker
requested w = record w { seen = true; requests = suc w.requests }

module _ (spawns : ℕ → Bool) where
  abbrev pub spawned : Registry → Bytes → Bool → RegisteredWorker
  spawned r id full = record {
    project_id = id;
    full = full;
    seen = false;
    thread = r.next_thread;
    requests = 0;
  }

  pub spawn_worker : Registry → Bytes → Bool → Registry × Option ℕ
  spawn_worker r id full =
      let r' : Registry = record r { next_thread = suc r.next_thread } in
      if spawns r.next_thread
      then (
        record r' { workers = registry_add r.workers (spawned r id full) },
        some (length r.workers),
      )
      else (r', none)

  -- The registry, and the index of the worker.
  pub acquire_project_worker : Registry → Bytes → Bool → Registry × Option ℕ
  acquire_project_worker r id full = elim (registry_find r.workers id) [
    | none ↦ spawn_worker r id full
    | some i ↦ elim (get_elem? r.workers i) [
      | none ↦ (r, none)
      | some w ↦
          if same_mode w.full full then (r, some i) else spawn_worker (retire_at r i w) id full
    ]
  ]

  abbrev pub touch : List RegisteredWorker → ℕ → List RegisteredWorker
  touch ws i = elim (get_elem? ws i) [ none ↦ ws | some w ↦ set ws i (requested w) ]

  abbrev pub touched : Registry × Option ℕ → Registry
  touched (r, none) = r
  touched (r, some i) = record r { workers = touch r.workers i }

  -- A round of the loop over the projects.
  pub request_project : Registry → Project → Registry
  request_project r p = touched (acquire_project_worker r p.id p.from_compile_commands)

  pub request_all : Registry → List Project → Registry
  request_all r [] = r
  request_all r (p ∷ ps) = request_all (request_project r p) ps

-- The loop that retires the workers that are not seen, with a round of fuel for each worker.
pub sweep : ℕ → Registry → ℕ → Registry
sweep zero r i = r
sweep (suc fuel) r i = elim (get_elem? r.workers i) [
  | none ↦ r
  | some w ↦ elim w.seen [ true ↦ sweep fuel r (suc i) | false ↦ sweep fuel (retire_at r i w) i ]
]

abbrev retire_all : List RegisteredWorker → List RegisteredWorker → List RegisteredWorker
retire_all [] stopped = stopped
retire_all (w ∷ ws) stopped = retire_all ws (w ∷ stopped)

-- For the projects of a snapshot.
pub diag_registry_update : (ℕ → Bool) → Registry → List Project → Registry
diag_registry_update spawns r projects =
    let served = request_all spawns (record r { workers = map unseen r.workers }) projects in
    sweep (length served.workers) served 0

-- Each worker is told to stop, in order; `retired` has the last one first.
pub diag_registry_shutdown : Registry → Registry
diag_registry_shutdown r = record r { workers = []; retired = retire_all r.workers r.retired }
