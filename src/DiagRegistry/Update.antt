-- ===== src/DiagRegistry/Update.antt =====
-- src/diag_worker.c: after an update each project has its thread, and no other thread is registered.
use taskjuggler_lsp.Base.{
  ℕ, zero, suc, ◌+◌, ◌<◌, ◌≤◌, ◌≡◌, inl, inr, refl, sym, ◌∙◌, ap, subst, Bool, true, false, Option,
  none, some, List, [], ◌∷◌, map, length, get_elem?, Bytes, str_eq, str_eq_iff, if◌then◌else◌,
  arith, Bool-cases, Option-cases, ℕ_discrete,
}
use taskjuggler_lsp.DiagRegistry.{
  RegisteredWorker, Registry, Project, registry_remove_at, retire_at, unseen, requested,
  request_all, sweep, diag_registry_update,
}
use taskjuggler_lsp.DiagRegistry.Ids.{lookup, Apart}
use taskjuggler_lsp.DiagRegistry.Slots.{
  registry_remove_at-Updated, registry_remove_at-before, length-registry_remove_at,
}
use taskjuggler_lsp.DiagRegistry.Round.{Serves}
use taskjuggler_lsp.DiagRegistry.Slots.{lookup-get_elem?, lookup-index}
use taskjuggler_lsp.ProjectTree.Caching.{get_elem?-lt}
use taskjuggler_lsp.DiagRegistry.Rounds.{project_of, Separate, request_all-RequestedAll}

get_elem?-end : (ws : List RegisteredWorker) (i : ℕ) → get_elem? ws i ≡ none → length ws ≤ i
get_elem?-end [] i e = omega arith
get_elem?-end (w ∷ ws) zero e = absurd (ground (arith, e))
get_elem?-end (w ∷ ws) (suc i) e = omega (arith, get_elem?-end ws i e)

-- What is left of the worker of a project.
abbrev keep_seen : Option RegisteredWorker → Option RegisteredWorker
keep_seen none = none
keep_seen (some w) = if w.seen then some w else none

-- The workers below the index are seen.
abbrev SeenBelow : List RegisteredWorker → ℕ → Type 0
SeenBelow ws i = (k : ℕ) (w : RegisteredWorker) → k < i → get_elem? ws k ≡ some w → w.seen ≡ true

-- The workers that are seen are left.
record Swept (ws ws' : List RegisteredWorker) : Type 0 where
  apart : Apart ws'
  left : (id : Bytes) → lookup ws' id ≡ keep_seen (lookup ws id)

all_seen-Swept :
    (ws : List RegisteredWorker) (i : ℕ) → Apart ws → length ws ≤ i → SeenBelow ws i → Swept ws ws
all_seen-Swept ws i apart small seen = record {
  apart = apart;
  left = λ id. elim (Option-cases (lookup ws id)) [
    | inl gone ↦ rw gone refl
    | inr (w, looked) ↦
        let (k, got) = lookup-index ws id w looked in
        let marked : w.seen ≡ true = seen k w (omega (arith, get_elem?-lt ws k w got, small)) got in
        rw (looked, marked) refl
  ];
}

SeenBelow-suc :
    (ws : List RegisteredWorker) (i : ℕ) (w : RegisteredWorker)
    → get_elem? ws i ≡ some w
    → w.seen ≡ true
    → SeenBelow ws i
    → SeenBelow ws (suc i)
SeenBelow-suc ws i w got marked seen k v below there = elim (ℕ_discrete k i) [
  | yes same ↦
      let here : get_elem? ws i ≡ some v = subst (λ (x : ℕ). get_elem? ws x ≡ some v) same there in
      let one : w ≡ v = ground (arith, got, here) in
      subst (λ (x : RegisteredWorker). x.seen ≡ true) one marked
  | no other ↦ seen k v (omega (arith, below, other)) there
]

remove-Swept :
    (ws ws' : List RegisteredWorker) (i : ℕ) (w : RegisteredWorker)
    → Apart ws
    → get_elem? ws i ≡ some w
    → w.seen ≡ false
    → Swept (registry_remove_at ws i) ws'
    → Swept ws ws'
remove-Swept ws ws' i w apart got unmarked s =
    let u = registry_remove_at-Updated ws i w apart got in
    record {
      apart = s.apart;
      left = λ id. elim (Bool-cases (str_eq w.project_id id)) [
        | inl here ↦
            let same_id : w.project_id ≡ id = (str_eq_iff w.project_id id).0 here in
            let was : keep_seen (lookup ws w.project_id) ≡ none =
              rw (lookup-get_elem? ws i w apart got, unmarked) refl in
            let is : lookup ws' w.project_id ≡ none = s.left w.project_id ∙ ap keep_seen u.here in
            subst (λ (x : Bytes). lookup ws' x ≡ keep_seen (lookup ws x)) same_id (is ∙ sym was)
        | inr other ↦ s.left id ∙ ap keep_seen (u.others id other)
      ];
    }

sweep-Swept :
    (fuel : ℕ) (r : Registry) (i : ℕ)
    → Apart r.workers
    → length r.workers ≤ fuel + i
    → SeenBelow r.workers i
    → Swept r.workers (sweep fuel r i).workers
unfolding sweep
sweep-Swept zero r i apart enough seen =
    all_seen-Swept r.workers i apart (omega (arith, enough)) seen
sweep-Swept (suc fuel) r i apart enough seen = elim (Option-cases (get_elem? r.workers i)) [
  | inl end ↦
      rw (end, sweep) (all_seen-Swept r.workers i apart (get_elem?-end r.workers i end) seen)
  | inr (w, got) ↦ elim (Bool-cases w.seen) [
    | inl marked ↦
        rw (got, sweep, marked)
          (sweep-Swept fuel r (suc i) apart (omega (arith, enough))
            (SeenBelow-suc r.workers i w got marked seen))
    | inr unmarked ↦
        let ws = registry_remove_at r.workers i in
        let shorter = length-registry_remove_at r.workers i (get_elem?-lt r.workers i w got) in
        rw (got, sweep, unmarked)
          (remove-Swept r.workers (sweep fuel (retire_at r i w) i).workers i w apart got unmarked (
            sweep-Swept fuel (retire_at r i w) i
              (registry_remove_at-Updated r.workers i w apart got).apart
              (omega (arith, enough, shorter))
              (λ k v below there.
                seen k v below (sym (registry_remove_at-before r.workers i k below) ∙ there))))
  ]
]

abbrev unseen_if : Option RegisteredWorker → Option RegisteredWorker
unseen_if none = none
unseen_if (some w) = some (unseen w)

lookup-map-unseen :
    (ws : List RegisteredWorker) (id : Bytes) → lookup (map unseen ws) id ≡ unseen_if (lookup ws id)
lookup-map-unseen [] id = refl
lookup-map-unseen (w ∷ ws) id = elim (Bool-cases (str_eq w.project_id id)) [
  | inl here ↦ rw here refl
  | inr other ↦ rw other (lookup-map-unseen ws id)
]

map-unseen-Apart : (ws : List RegisteredWorker) → Apart ws → Apart (map unseen ws)
map-unseen-Apart [] apart = tt
map-unseen-Apart (w ∷ ws) (gone, apart) =
    (rw (lookup-map-unseen ws w.project_id, gone) refl, map-unseen-Apart ws apart)

keep_unseen : (o : Option RegisteredWorker) → keep_seen (unseen_if o) ≡ none
keep_unseen none = refl
keep_unseen (some w) = refl

-- To clear the marks does not change which threads are kept.
unseen-Serves :
    (p : Project) (next : ℕ) (o o' : Option RegisteredWorker) (w : RegisteredWorker)
    → o' ≡ unseen_if o
    → Serves p next o' w
    → Serves p next o w
unseen-Serves p next none _ w e (Serves.kept mode same) = absurd (ground (arith, e))
unseen-Serves p next (some x) _ w e (Serves.kept {old} mode same) =
    let one : old ≡ unseen x = ground (arith, e) in
    Serves.kept (ap (λ (v : RegisteredWorker). v.full) (sym one) ∙ mode) (same ∙ ap requested one)
unseen-Serves p next o o' w e (Serves.fresh mode once seen new changed) =
    Serves.fresh mode once seen new (λ old is. changed (unseen old) (e ∙ ap unseen_if is))

Serves-seen :
    {p : Project} {next : ℕ} {o : Option RegisteredWorker} {w : RegisteredWorker}
    → Serves p next o w
    → w.seen ≡ true
Serves-seen (Serves.kept mode same) = rw same refl
Serves-seen (Serves.fresh mode once seen new changed) = seen

-- What the registry is after an update for the projects.
pub record UpToDate (r r' : Registry) (projects : List Project) : Type 0 where
  pub apart : Apart r'.workers
  pub gone : (id : Bytes) → project_of projects id ≡ none → lookup r'.workers id ≡ none
  pub served :
      (id : Bytes) (p : Project)
      → project_of projects id ≡ some p
      → (w : RegisteredWorker) × (lookup r'.workers id ≡ some w)
        × Serves p r.next_thread (lookup r.workers id) w

-- If threads can be created, the projects have different ids and so have the workers, then after an
-- update the workers have different ids, no worker is left without its project, and each project has a
-- worker of its mode: the one it had, with one request more, if that has the mode, and else one in a
-- new thread with one request.
pub diag_registry_update-UpToDate :
    (spawns : ℕ → Bool) (r : Registry) (projects : List Project)
    → ((k : ℕ) → spawns k ≡ true)
    → Apart r.workers
    → Separate projects
    → UpToDate r (diag_registry_update spawns r projects) projects
unfolding diag_registry_update
diag_registry_update-UpToDate spawns r projects always apart separate =
    let r₀ : Registry = record r { workers = map unseen r.workers } in
    let r₁ = request_all spawns r₀ projects in
    let all =
      request_all-RequestedAll spawns always r₀ projects (map-unseen-Apart r.workers apart)
        separate in
    let swept =
      sweep-Swept (length r₁.workers) r₁ 0 all.apart (omega arith)
        (λ k w below there. absurd (omega (arith, below))) in
    record {
      apart = swept.apart;
      gone = λ id none_here.
          swept.left id
          ∙ ap keep_seen (all.others id none_here ∙ lookup-map-unseen r.workers id)
          ∙ keep_unseen (lookup r.workers id);
      served = λ id p here.
          let (w, looked, serves) = all.served id p here in
          (
            w,
            swept.left id ∙ rw (looked, Serves-seen serves) refl,
            unseen-Serves p r.next_thread (lookup r.workers id) (lookup (map unseen r.workers) id) w
                (lookup-map-unseen r.workers id) serves,
          );
    }
