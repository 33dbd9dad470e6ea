-- ===== src/Syntax/Order.antt =====
-- src/parser.h: `pos_cmp` is a total order, first by line, then by character.
use taskjuggler_lsp.Base.{◌≤◌, ◌<◌, true, false, ◌≡◌, ◌↔◌, ◌⊎◌, arith, not}
use taskjuggler_lsp.Syntax.{LspPos, pos_lt, pos_le}

-- `a` is not behind `b`.
abbrev pub Le : LspPos → LspPos → Type 0
Le a b = (a.line < b.line) ⊎ ((a.line ≡ b.line) × (a.character ≤ b.character))

pub pos_le_iff : (a b : LspPos) → (pos_le a b ≡ true) ↔ Le a b
unfolding pos_le
pos_le_iff a b = ground arith

pub pos_lt-not-le : (a b : LspPos) → pos_lt a b ≡ not (pos_le b a)
unfolding pos_lt pos_le
pos_lt-not-le a b = ground arith

pub pos_le_refl : (a : LspPos) → pos_le a a ≡ true
unfolding pos_le
pos_le_refl a = ground arith

pub pos_le_trans : (a b c : LspPos) → pos_le a b ≡ true → pos_le b c ≡ true → pos_le a c ≡ true
unfolding pos_le
pos_le_trans a b c p q = ground arith

pub pos_le_total : (a b : LspPos) → pos_le a b ≡ false → pos_le b a ≡ true
unfolding pos_le
pos_le_total a b p = ground arith

pub pos_le_antisymm : (a b : LspPos) → pos_le a b ≡ true → pos_le b a ≡ true → a ≡ b
unfolding pos_le
pos_le_antisymm a b p q = ground arith
