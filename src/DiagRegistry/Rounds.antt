-- ===== src/DiagRegistry/Rounds.antt =====
-- src/diag_worker.c: the requests for all projects.
use taskjuggler_lsp.Base.{
  ℕ, ◌≤◌, ◌≡◌, inl, inr, refl, ◌∙◌, subst, Bool, true, Option, none, some, List, [], ◌∷◌, Bytes,
  str_eq, str_eq_iff, if◌then◌else◌, arith, Bool-cases,
}
use taskjuggler_lsp.DiagRegistry.{RegisteredWorker, Registry, Project, request_project, request_all}
use taskjuggler_lsp.DiagRegistry.Ids.{lookup, Apart}
use taskjuggler_lsp.DiagRegistry.Round.{Serves, request_project-Requested}

-- The project with the id, and projects with different ids.
abbrev pub project_of : List Project → Bytes → Option Project
project_of [] id = none
project_of (p ∷ ps) id = if str_eq p.id id then some p else project_of ps id

abbrev pub Separate : List Project → Type 0
Separate [] = Unit
Separate (p ∷ ps) = (project_of ps p.id ≡ none) × Separate ps

Serves-mono :
    {p : Project} {next next' : ℕ} {o : Option RegisteredWorker} {w : RegisteredWorker}
    → next ≤ next'
    → Serves p next' o w
    → Serves p next o w
Serves-mono le (Serves.kept mode same) = Serves.kept mode same
Serves-mono le (Serves.fresh mode once seen new changed) =
    Serves.fresh mode once seen (omega (arith, le, new)) changed

module _ (spawns : ℕ → Bool) (always : (k : ℕ) → spawns k ≡ true) where
  pub record RequestedAll (r r' : Registry) (ps : List Project) : Type 0 where
    pub apart : Apart r'.workers
    pub others : (id : Bytes) → project_of ps id ≡ none → lookup r'.workers id ≡ lookup r.workers id
    pub served :
        (id : Bytes) (p : Project)
        → project_of ps id ≡ some p
        → (w : RegisteredWorker) × (lookup r'.workers id ≡ some w)
          × Serves p r.next_thread (lookup r.workers id) w

  pub request_all-RequestedAll :
      (r : Registry) (ps : List Project)
      → Apart r.workers
      → Separate ps
      → RequestedAll r (request_all spawns r ps) ps
  unfolding request_all
  request_all-RequestedAll r [] apart separate = record {
    apart = apart;
    others = λ id e. refl;
    served = λ id p e. absurd (ground (arith, e));
  }
  request_all-RequestedAll r (p ∷ ps) apart (alone, separate) =
      let q = request_project-Requested spawns always r p apart in
      let all = request_all-RequestedAll (request_project spawns r p) ps q.updated.apart separate in
      record {
        apart = all.apart;
        others = λ id e. elim (Bool-cases (str_eq p.id id)) [
          | inl here ↦ absurd (ground (arith, e, here))
          | inr other ↦ all.others id (ground (arith, e, other)) ∙ q.updated.others id other
        ];
        served = λ id p' e. elim (Bool-cases (str_eq p.id id)) [
          | inl here ↦
              let same_id : p.id ≡ id = (str_eq_iff p.id id).0 here in
              let first : p ≡ p' = ground (arith, e, here) in
              (
                q.worker,
                subst
                    (λ (x : Bytes).
                      lookup (request_all spawns (request_project spawns r p) ps).workers x
                      ≡ some q.worker)
                    same_id (all.others p.id alone ∙ q.updated.here),
                subst (λ (x : Project). Serves x r.next_thread (lookup r.workers id) q.worker) first
                    (subst (λ (x : Bytes). Serves p r.next_thread (lookup r.workers x) q.worker)
                      same_id q.serves),
              )
          | inr other ↦
              let (w, looked, serves) = all.served id p' (ground (arith, e, other)) in
              (
                w,
                looked,
                Serves-mono q.next (
                    subst
                      (λ (o : Option RegisteredWorker).
                        Serves p' (request_project spawns r p).next_thread o w)
                      (q.updated.others id other) serves),
              )
        ];
      }
