-- ===== src/Arena.antt =====
-- src/arena.c: the append-only arena that strings and nodes are carved from.
-- The blocks stand newest first. A block is named by the number of blocks that were there before it,
-- and an address is a block and an offset in its data. What stands in the bytes is not modelled.
pub mod Regions
mod Tests
use taskjuggler_lsp.Base.{ℕ, ◌+◌, ◌-◌, ◌*◌, ◌/◌, ltb, if◌then◌else◌, List, [], ◌∷◌, length}

pub record ArenaBlock : Type 0 where
  pub used : ℕ
  pub cap : ℕ

abbrev pub StrArena : Type 0
StrArena = List ArenaBlock

pub record Region : Type 0 where
  pub block : ℕ
  pub off : ℕ
  pub size : ℕ

abbrev pub arena_block_size : ℕ
arena_block_size = 64 * 1024

abbrev pub arena_new : StrArena
arena_new = []

-- The capacity of a new block.
pub grown_cap : ℕ → ℕ
grown_cap need = if ltb arena_block_size need then need else arena_block_size

-- `arena_grow` and the first carving from the new block
abbrev pub grow : StrArena → ℕ → StrArena × Region
grow a need = (
  record { used = need; cap = grown_cap need } ∷ a,
  record { block = length a; off = 0; size = need },
)

-- `(used + 7u) & ~(size_t)7u`
abbrev pub align : ℕ → ℕ
align used = (used + 7) / 8 * 8

pub arena_alloc : StrArena → ℕ → StrArena × Region
arena_alloc [] n = grow [] n
arena_alloc (b ∷ bs) n =
    let off = align b.used in
    if ltb b.cap (off + n) then grow (b ∷ bs) n else (
      record { used = off + n; cap = b.cap } ∷ bs,
      record { block = length bs; off = off; size = n },
    )

-- The space of `arena_strndup`: `len` bytes and a NUL, not aligned.
pub arena_strndup : StrArena → ℕ → StrArena × Region
arena_strndup [] len = grow [] (len + 1)
arena_strndup (b ∷ bs) len =
    let need = len + 1 in
    if ltb (b.cap - b.used) need then grow (b ∷ bs) need else (
      record { used = b.used + need; cap = b.cap } ∷ bs,
      record { block = length bs; off = b.used; size = need },
    )

-- Calls of the two, and the regions they hand out.
pub data Request : Type 0 where
  alloc strndup : ℕ → Request

abbrev pub serve : StrArena → Request → StrArena × Region
serve a (Request.alloc n) = arena_alloc a n
serve a (Request.strndup len) = arena_strndup a len

abbrev pub serve_all : StrArena → List Request → StrArena × List Region
serve_all a [] = (a, [])
serve_all a (r ∷ rs) =
    let (a', region) = serve a r in let (a'', regions) = serve_all a' rs in (a'', region ∷ regions)
