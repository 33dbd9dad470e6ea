-- ===== src/Arena/Regions.antt =====
-- src/arena.c: the regions handed out lie inside their blocks and apart from each other.
use taskjuggler_lsp.Base.{
  ℕ, suc, ◌+◌, ◌-◌, ◌%◌, ◌≤◌, ◌<◌, ◌≡◌, ◌≢◌, ◌⊎◌, inl, inr, refl, ltb, List, [], ◌∷◌, length, arith,
  Each, Bool-cases,
}
use taskjuggler_lsp.Arena.{
  ArenaBlock, StrArena, Region, grown_cap, grow, align, arena_alloc, arena_strndup, Request, serve,
  serve_all,
}

-- No block holds more than its capacity.
abbrev pub WithinCaps : StrArena → Type 0
WithinCaps a = Each (λ (b : ArenaBlock). b.used ≤ b.cap) a

-- A region below the bump pointer of its block, which is a block of the arena.
abbrev pub Inside : StrArena → Region → Type 0
Inside [] r = ⊥
Inside (b ∷ bs) r = ((r.block ≡ length bs) × (r.off + r.size ≤ b.used)) ⊎ Inside bs r

-- A region above the bump pointer, or in a block that is not there yet.
abbrev pub Outside : StrArena → Region → Type 0
Outside [] r = Unit
Outside (b ∷ bs) r = ((r.block ≡ length bs) × (b.used ≤ r.off)) ⊎ (suc (length bs) ≤ r.block)

abbrev pub Apart : Region → Region → Type 0
Apart r s = (r.block ≢ s.block) ⊎ ((r.off + r.size ≤ s.off) ⊎ (s.off + s.size ≤ r.off))

abbrev pub AllApart : List Region → Type 0
AllApart [] = Unit
AllApart (r ∷ rs) = Each (Apart r) rs × AllApart rs

Inside-block : (a : StrArena) (r : Region) → Inside a r → r.block < length a
Inside-block [] r h = elim h [ ]
Inside-block (b ∷ bs) r (inl (e, _)) = omega arith
Inside-block (b ∷ bs) r (inr h) = omega (arith, Inside-block bs r h)

Inside-Outside : (a : StrArena) (r s : Region) → Inside a r → Outside a s → Apart r s
Inside-Outside [] r s h o = elim h [ ]
Inside-Outside (b ∷ bs) r s (inl (e, below)) (inl (e', above)) = inr (inl (omega arith))
Inside-Outside (b ∷ bs) r s (inl (e, below)) (inr new) = inl (λ same. absurd (omega (arith, same)))
Inside-Outside (b ∷ bs) r s (inr h) (inl (e', above)) =
    inl (λ same. absurd (omega (arith, same, Inside-block bs r h)))
Inside-Outside (b ∷ bs) r s (inr h) (inr new) =
    inl (λ same. absurd (omega (arith, same, Inside-block bs r h)))

-- A step of the arena: its region is new, and what was inside stays inside.
pub record Step (a : StrArena) (res : StrArena × Region) : Type 0 where
  pub new : Outside a res.1
  pub inside : Inside res.0 res.1
  pub keeps : (r : Region) → Inside a r → Inside res.0 r
  pub caps : WithinCaps a → WithinCaps res.0

grown_cap-le : (need : ℕ) → need ≤ grown_cap need
unfolding grown_cap
grown_cap-le need = ground arith

above_all : (a : StrArena) (need : ℕ) → Outside a record { block = length a; off = 0; size = need }
above_all [] need = tt
above_all (b ∷ bs) need = inr (omega arith)

grow-Step : (a : StrArena) (need : ℕ) → Step a (grow a need)
grow-Step a need = record {
  new = above_all a need;
  inside = inl (refl, omega arith);
  keeps = λ r h. inr h;
  caps = λ h. (grown_cap-le need, h);
}

bump-Step :
    (b : ArenaBlock) (bs : StrArena) (off n : ℕ)
    → b.used ≤ off
    → off + n ≤ b.cap
    → Step (b ∷ bs) (
      record { used = off + n; cap = b.cap } ∷ bs,
      record { block = length bs; off = off; size = n },
    )
bump-Step b bs off n above room = record {
  new = inl (refl, above);
  inside = inl (refl, omega arith);
  keeps = λ r h. elim h [ inl (e, below) ↦ inl (e, omega arith) | inr later ↦ inr later ];
  caps = λ (h, hs). (room, hs);
}

serve-Step : (a : StrArena) (r : Request) → Step a (serve a r)
unfolding arena_alloc arena_strndup
serve-Step [] (Request.alloc n) = grow-Step [] n
serve-Step [] (Request.strndup len) = grow-Step [] (len + 1)
serve-Step (b ∷ bs) (Request.alloc n) = elim (Bool-cases (ltb b.cap (align b.used + n))) [
  | inl full ↦ rw full (grow-Step (b ∷ bs) n)
  | inr room ↦ rw room (bump-Step b bs (align b.used) n (omega arith) (ground (arith, room)))
]
serve-Step (b ∷ bs) (Request.strndup len) = elim (Bool-cases (ltb (b.cap - b.used) (len + 1))) [
  | inl full ↦ rw full (grow-Step (b ∷ bs) (len + 1))
  | inr room ↦ rw room (bump-Step b bs b.used (len + 1) (omega arith) (ground (arith, room)))
]

-- A region that is there already stays, apart from all that are handed out later.
later_regions :
    (a : StrArena) (rs : List Request) (r : Region)
    → Inside a r
    → Each (Apart r) (serve_all a rs).1 × Inside (serve_all a rs).0 r
later_regions a [] r h = (tt, h)
later_regions a (q ∷ rs) r h =
    let step = serve-Step a q in
    let (apart, there) = later_regions (serve a q).0 rs r (step.keeps r h) in
    ((Inside-Outside a r (serve a q).1 h step.new, apart), there)

-- The regions handed out by any calls, from any arena on in which no block holds more than its
-- capacity, are apart from each other, each lies below the bump pointer of its block, and no block
-- holds more than its capacity afterwards.
pub serve_all-AllApart :
    (a : StrArena) (rs : List Request)
    → WithinCaps a
    → AllApart (serve_all a rs).1
      × Each (Inside (serve_all a rs).0) (serve_all a rs).1
      × WithinCaps (serve_all a rs).0
serve_all-AllApart a [] caps = (tt, tt, caps)
serve_all-AllApart a (q ∷ rs) caps =
    let step = serve-Step a q in
    let (apart, inside, within) = serve_all-AllApart (serve a q).0 rs (step.caps caps) in
    let (mine, there) = later_regions (serve a q).0 rs (serve a q).1 step.inside in
    ((mine, apart), (there, inside), within)

-- `arena_alloc` hands out the asked number of bytes from an offset that is a multiple of 8.
pub arena_alloc-aligned :
    (a : StrArena) (n : ℕ) → ((arena_alloc a n).1.off % 8 ≡ 0) × ((arena_alloc a n).1.size ≡ n)
unfolding arena_alloc
arena_alloc-aligned [] n = (refl, refl)
arena_alloc-aligned (b ∷ bs) n = elim (Bool-cases (ltb b.cap (align b.used + n))) [
  | inl full ↦ rw full (refl, refl)
  | inr room ↦ rw room (omega arith, refl)
]
