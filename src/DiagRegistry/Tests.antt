-- ===== src/DiagRegistry/Tests.antt =====
-- src/diag_worker.c on three workers: one is retired, one changes its mode, one stays, one is new.
use taskjuggler_lsp.Base.{
  ℕ, ◌≡◌, refl, Bool, true, false, List, [], ◌∷◌, map, Bytes, codes, c_string, str_eq,
}
use taskjuggler_lsp.DiagRegistry.{
  RegisteredWorker, Registry, Project, registry_find, registry_remove_at, spawn_worker,
  acquire_project_worker, request_project, request_all, sweep, diag_registry_update,
  diag_registry_shutdown,
}
use taskjuggler_lsp.DiagRegistry.Update.{UpToDate, diag_registry_update-UpToDate}

abbrev worker : Bytes → Bool → ℕ → ℕ → RegisteredWorker
worker id full thread requests = record {
  project_id = id;
  full = full;
  seen = true;
  thread = thread;
  requests = requests;
}

abbrev registry : Registry
registry = record {
  workers =
      worker (codes "a") true 0 1 ∷ worker (codes "b") false 1 1 ∷ worker (codes "c") true 2 1 ∷ [];
  next_thread = 3;
  retired = [];
}

abbrev projects : List Project
projects =
    record { id = codes "b"; from_compile_commands = true }
    ∷ record { id = codes "c"; from_compile_commands = true }
    ∷ record { id = codes "d"; from_compile_commands = false }
    ∷ []

abbrev can_spawn : ℕ → Bool
can_spawn k = true

abbrev threads : List RegisteredWorker → List ℕ
threads ws = map (λ (w : RegisteredWorker). w.thread) ws

test_update : threads (diag_registry_update can_spawn registry projects).workers ≡ 4 ∷ 2 ∷ 3 ∷ []
unfolding diag_registry_update request_all request_project acquire_project_worker spawn_worker
    registry_find registry_remove_at sweep str_eq c_string
test_update = refl

test_retired : threads (diag_registry_update can_spawn registry projects).retired ≡ 0 ∷ 1 ∷ []
unfolding diag_registry_update request_all request_project acquire_project_worker spawn_worker
    registry_find registry_remove_at sweep str_eq c_string
test_retired = refl

test_shutdown : threads (diag_registry_shutdown registry).retired ≡ 2 ∷ 1 ∷ 0 ∷ []
unfolding diag_registry_shutdown
test_shutdown = refl

diag_registry_update-UpToDate_example :
    UpToDate registry (diag_registry_update can_spawn registry projects) projects
unfolding str_eq c_string
diag_registry_update-UpToDate_example =
    diag_registry_update-UpToDate can_spawn registry projects (λ k. refl) (refl, (refl, (refl, tt)))
      (refl, (refl, (refl, tt)))
