-- ===== src/Snapshots/Cells.antt =====
-- src/query_context.c: acquiring and releasing a workspace snapshot with those of its documents.
use taskjuggler_lsp.Base.{
  ℕ, suc, ◌+◌, ◌-◌, ◌==◌, ◌<◌, ◌≡◌, inl, inr, refl, Option, none, some, List, [], ◌∷◌, ◌++◌, length,
  get_elem?, set, if◌then◌else◌, arith, Bool-cases,
}
use taskjuggler_lsp.Snapshots.{
  ok, Counts, WsCell, acquire_each, release_each, ws_acquire, drop_cell, ws_release,
}
use taskjuggler_lsp.Snapshots.Balance.{
  total-set, total-append, points, occurs, cell_refs, refcount_of-get, refcount_of-set,
  refcount_of-append, Balanced, Balanced-same, docsnap_acquire-Balanced, docsnap_release-Balanced,
}

pub acquire_each-Balanced :
    {R H : ℕ → ℕ} {cells : List WsCell} (h : Counts) (xs : List ℕ)
    → Balanced R H h cells
    → ((a : ℕ) → 0 < occurs xs a → 0 < R a)
    → (h' : Counts) × (acquire_each h xs ≡ ok h') × Balanced (λ a. R a + occurs xs a) H h' cells
unfolding acquire_each
acquire_each-Balanced h [] b live = (h, refl, Balanced-same b (λ a. omega arith) (λ w. refl))
acquire_each-Balanced {R = R} h (x ∷ xs) b live =
    let (h₁, e₁, b₁) =
      docsnap_acquire-Balanced h (some x) b (λ a pos. live a (omega (arith, pos))) in
    let (h', e', b') =
      acquire_each-Balanced {R = λ a. R a + points (some x) a} h₁ xs b₁
        (λ a pos. omega (arith, live a)) in
    (h', rw (e₁, acquire_each) e', Balanced-same b' (λ a. omega arith) (λ w. refl))

release_each-Balanced :
    {R H : ℕ → ℕ} {cells : List WsCell} (h : Counts) (xs : List ℕ)
    → Balanced (λ a. R a + occurs xs a) H h cells
    → (h' : Counts) × (release_each h xs ≡ ok h') × Balanced R H h' cells
unfolding release_each
release_each-Balanced h [] b = (h, refl, Balanced-same b (λ a. omega arith) (λ w. refl))
release_each-Balanced {R} h (x ∷ xs) b =
    let (h₁, e₁, b₁) =
      docsnap_release-Balanced {R = λ a. R a + occurs xs a} h (some x)
        (Balanced-same b (λ a. omega arith) (λ w. refl)) in
    let (h', e', b') = release_each-Balanced h₁ xs b₁ in (h', rw (e₁, release_each) e', b')

-- A new workspace snapshot takes over the references to its documents.
pub append-Balanced :
    {R H : ℕ → ℕ} {h : Counts} {cells : List WsCell} (xs : List ℕ)
    → Balanced (λ a. R a + occurs xs a) H h cells
    → Balanced R
        (λ w. H w + points (some (length cells)) w)
        h
        (cells ++ (record { refcount = 1; snaps = xs } ∷ []))
append-Balanced {cells} xs b =
    let c : WsCell = record { refcount = 1; snaps = xs } in
    record {
      refs = λ w. omega (arith, refcount_of-append cells c w, b.refs w);
      counts = λ a. omega (arith, total-append (λ c. cell_refs c a) cells c, b.counts a);
      fresh = b.fresh;
    }

-- What changes the counts of one workspace snapshot.
set-Balanced :
    {R R' H H' : ℕ → ℕ} {h : Counts} {cells : List WsCell} (w : ℕ) (c c' : WsCell)
    → Balanced R H h cells
    → get_elem? cells w ≡ some c
    → ((v : ℕ) → (if w == v then c'.refcount else H v) ≡ H' v)
    → ((a : ℕ) → R a + cell_refs c a ≡ R' a + cell_refs c' a)
    → Balanced R' H' h (set cells w c')
set-Balanced {cells} w c c' b got eH eR = record {
  refs = λ v. ground (arith, refcount_of-set cells w v c c' got, b.refs v, eH v);
  counts = λ a. omega (arith, total-set (λ c. cell_refs c a) cells w c c' got, b.counts a, eR a);
  fresh = b.fresh;
}

pub ws_acquire-Balanced :
    {R H : ℕ → ℕ} {h : Counts} (cells : List WsCell) (o : Option ℕ)
    → Balanced R H h cells
    → ((w : ℕ) → 0 < points o w → 0 < H w)
    → (cells' : List WsCell) × (ws_acquire cells o ≡ ok cells')
      × Balanced R (λ w. H w + points o w) h cells'
unfolding ws_acquire
ws_acquire-Balanced cells none b live =
    (cells, refl, Balanced-same b (λ a. refl) (λ w. omega arith))
ws_acquire-Balanced cells (some w) b live =
    let (c, got, same) = refcount_of-get cells w (ground (arith, live w, b.refs w)) in
    let used : 0 < c.refcount = ground (arith, live w, b.refs w, same) in
    let c' : WsCell = record c { refcount = suc c.refcount } in
    (
      set cells w c',
      rw (got, ws_acquire) (ground (arith, used)),
      set-Balanced w c c' b got (λ v. ground (arith, b.refs w, same)) (λ a. ground (arith, used)),
    )

drop_cell-Balanced :
    {R H : ℕ → ℕ} (h : Counts) (cells : List WsCell) (w : ℕ) (c : WsCell)
    → Balanced R (λ v. H v + points (some w) v) h cells
    → get_elem? cells w ≡ some c
    → c.refcount ≡ suc (H w)
    → (h' : Counts) × (cells' : List WsCell) × (drop_cell h cells w c ≡ ok (h', cells'))
      × Balanced R H h' cells'
drop_cell-Balanced {R} {H} h cells w c b got count = elim (Bool-cases (c.refcount == 1)) [
  | inl last ↦
      let c' : WsCell = record c { refcount = 0 } in
      let (h', e, b') = release_each-Balanced {R = R} {H = H} h c.snaps (
        set-Balanced w c c' b got (λ v. ground (arith, count, last)) (λ a. ground (arith, last))) in
      (h', set cells w c', rw last (ground (arith, e, last)), b')
  | inr shared ↦
      let c' : WsCell = record c { refcount = c.refcount - 1 } in
      (
        h,
        set cells w c',
        ground (arith, count, shared),
        set-Balanced w c c' b got (λ v. ground (arith, count)) (λ a. ground (arith, count, shared)),
      )
]

pub ws_release-Balanced :
    {R H : ℕ → ℕ} (h : Counts) (cells : List WsCell) (o : Option ℕ)
    → Balanced R (λ w. H w + points o w) h cells
    → (h' : Counts) × (cells' : List WsCell) × (ws_release h cells o ≡ ok (h', cells'))
      × Balanced R H h' cells'
unfolding ws_release
ws_release-Balanced h cells none b =
    (h, cells, refl, Balanced-same b (λ a. refl) (λ w. omega arith))
ws_release-Balanced h cells (some w) b =
    let (c, got, same) = refcount_of-get cells w (ground (arith, b.refs w)) in
    let (h', cells', e, b') =
      drop_cell-Balanced h cells w c b got (ground (arith, b.refs w, same)) in
    (h', cells', rw (got, ws_release) e, b')
