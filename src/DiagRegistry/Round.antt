-- ===== src/DiagRegistry/Round.antt =====
-- src/diag_worker.c: the request for one project.
use taskjuggler_lsp.Base.{
  ℕ, ◌≤◌, ◌≡◌, inl, inr, refl, sym, ◌∙◌, ap, subst, Bool, true, false, Option, none, some, List, [],
  ◌∷◌, ◌++◌, length, get_elem?-append_length, set, Bytes, str_eq_iff, arith, Bool-cases,
  Option-cases,
}
use taskjuggler_lsp.DiagRegistry.{
  RegisteredWorker, Registry, Project, same_mode, registry_find, registry_remove_at, registry_add,
  retire_at, requested, spawned, spawn_worker, acquire_project_worker, touch, touched,
  request_project,
}
use taskjuggler_lsp.DiagRegistry.Ids.{lookup, Apart, registry_find-none, registry_find-some}
use taskjuggler_lsp.DiagRegistry.Slots.{
  Updated, registry_add-Updated, registry_remove_at-Updated, set-Updated,
}

-- What the project's thread is, given the worker registered before.
pub data Serves (p : Project) (next : ℕ) : Option RegisteredWorker → RegisteredWorker → Type 0 where
  kept :
      {old w : RegisteredWorker}
      → old.full ≡ p.from_compile_commands
      → w ≡ requested old
      → Serves p next (some old) w
  fresh :
      {o : Option RegisteredWorker} {w : RegisteredWorker}
      → w.full ≡ p.from_compile_commands
      → w.requests ≡ 1
      → w.seen ≡ true
      → next ≤ w.thread
      → ((old : RegisteredWorker)
          → o ≡ some old
          → same_mode old.full p.from_compile_commands ≡ false)
      → Serves p next o w

same_mode-eq : (a b : Bool) → same_mode a b ≡ true → a ≡ b
same_mode-eq true b e = sym e
same_mode-eq false true e = e
same_mode-eq false false e = refl

Updated-trans :
    {a b c : List RegisteredWorker} {id : Bytes} {o o' : Option RegisteredWorker}
    → Updated a b id o
    → Updated b c id o'
    → Updated a c id o'
Updated-trans u v = record {
  here = v.here;
  others = λ id' other. v.others id' other ∙ u.others id' other;
  apart = v.apart;
}

set-append_length :
    (ws : List RegisteredWorker) (w w' : RegisteredWorker)
    → set (ws ++ (w ∷ [])) (length ws) w' ≡ ws ++ (w' ∷ [])
set-append_length [] w w' = refl
set-append_length (v ∷ ws) w w' =
    ap (λ (xs : List RegisteredWorker). v ∷ xs) (set-append_length ws w w')

module _ (spawns : ℕ → Bool) (always : (k : ℕ) → spawns k ≡ true) where
  -- What a round for the project leaves.
  pub record Requested (r r' : Registry) (p : Project) : Type 0 where
    pub worker : RegisteredWorker
    pub updated : Updated r.workers r'.workers p.id (some worker)
    pub serves : Serves p r.next_thread (lookup r.workers p.id) worker
    pub next : r.next_thread ≤ r'.next_thread

  touch-append :
      (ws : List RegisteredWorker) (w : RegisteredWorker)
      → touch spawns (registry_add ws w) (length ws) ≡ registry_add ws (requested w)
  touch-append ws w =
      rw (touch, get_elem?-append_length ws [] w) (set-append_length ws w (requested w))

  spawn-Requested :
      (r r₁ : Registry) (p : Project)
      → Updated r.workers r₁.workers p.id none
      → r₁.next_thread ≡ r.next_thread
      → ((old : RegisteredWorker)
          → lookup r.workers p.id ≡ some old
          → same_mode old.full p.from_compile_commands ≡ false)
      → Requested r (touched spawns (spawn_worker spawns r₁ p.id p.from_compile_commands)) p
  unfolding spawn_worker
  spawn-Requested r r₁ p u same changed =
      let w = spawned spawns r₁ p.id p.from_compile_commands in
      rw (spawn_worker, always r₁.next_thread)
        record {
          worker = requested w;
          updated =
              rw (touch-append r₁.workers w)
                (Updated-trans u (registry_add-Updated r₁.workers (requested w) u.apart u.here));
          serves = Serves.fresh refl refl refl (omega (arith, same)) changed;
          next = omega (arith, same);
        }

  keep-Updated :
      (ws : List RegisteredWorker) (id : Bytes)
      → Apart ws
      → lookup ws id ≡ none
      → Updated ws ws id none
  keep-Updated ws id apart gone = record { here = gone; others = λ id' other. refl; apart = apart }

  pub request_project-Requested :
      (r : Registry) (p : Project) → Apart r.workers → Requested r (request_project spawns r p) p
  unfolding request_project acquire_project_worker
  request_project-Requested r p apart = elim (Option-cases (registry_find r.workers p.id)) [
    | inl gone ↦
        let absent = registry_find-none r.workers p.id gone in
        rw (request_project, acquire_project_worker, gone)
          (spawn-Requested r r p (keep-Updated r.workers p.id apart absent) refl
            (λ old e. absurd (ground (arith, absent, e))))
    | inr (i, found) ↦
        let (w, got, looked, named) = registry_find-some r.workers p.id i found in
        let same_id : w.project_id ≡ p.id = (str_eq_iff w.project_id p.id).0 named in
        elim (Bool-cases (same_mode w.full p.from_compile_commands)) [
          | inl same ↦
              rw (request_project, acquire_project_worker, found, got, same)
                record {
                  worker = requested w;
                  updated = rw got (
                      subst
                        (λ (id : Bytes).
                          Updated r.workers (set r.workers i (requested w)) id (some (requested w)))
                        same_id (set-Updated r.workers i w (requested w) apart got refl));
                  serves =
                      rw looked
                        (Serves.kept (same_mode-eq w.full p.from_compile_commands same) refl);
                  next = omega arith;
                }
          | inr changed ↦
              rw (request_project, acquire_project_worker, found, got, changed)
                (spawn-Requested r (retire_at r i w) p
                  (subst
                    (λ (id : Bytes). Updated r.workers (registry_remove_at r.workers i) id none)
                    same_id (registry_remove_at-Updated r.workers i w apart got))
                  refl
                  (λ old e.
                    let first : w ≡ old = ground (arith, looked, e) in
                    subst
                      (λ (x : RegisteredWorker). same_mode x.full p.from_compile_commands ≡ false)
                      first changed))
        ]
  ]
