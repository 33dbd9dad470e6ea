-- ===== src/Tj3/Staging.antt =====
-- src/tj3.c: the paths at which the documents of a project are staged.
pub mod Relative
use taskjuggler_lsp.Base.{
  ℕ, zero, suc, Bool, true, false, ◌==◌, Option, none, some, List, [], ◌∷◌, map, Bytes, get_elem?,
  drop, length, if◌then◌else◌,
}

-- `while (j < len && paths[i][j] && paths[i][j] == paths[0][j]) j++`
unfoldable pub agree : ℕ → Bytes → Bytes → ℕ
agree zero p q = 0
agree (suc len) [] q = 0
agree (suc len) (c ∷ p) [] = 0
agree (suc len) (c ∷ p) (d ∷ q) = let rest = agree len p q in if d == c then suc rest else 0

-- The loop over the other paths.
unfoldable pub shared : Bytes → List Bytes → ℕ → ℕ
shared p [] len = len
shared p (q ∷ qs) len = shared p qs (agree len p q)

abbrev pub is_slash_at : Option ℕ → Bool
is_slash_at none = false
is_slash_at (some c) = c == 47

-- `while (len > 0 && paths[0][len - 1] != '/') len--`
unfoldable pub back_to_slash : ℕ → Bytes → ℕ
back_to_slash zero p = 0
back_to_slash (suc len) p =
    let rest = back_to_slash len p in if is_slash_at (get_elem? p len) then suc len else rest

unfoldable pub common_dir_len : List Bytes → ℕ
common_dir_len [] = 0
common_dir_len (p ∷ ps) = back_to_slash (shared p ps (length p)) p

-- What stands behind the last '/', the whole path if it has none.
unfoldable pub after_last_slash : Bytes → Option Bytes
after_last_slash [] = none
after_last_slash (c ∷ cs) = elim (after_last_slash cs) [
  | some rest ↦ some rest
  | none ↦ if c == 47 then some cs else none
]

abbrev pub base_name : Bytes → Bytes
base_name path = elim (after_last_slash path) [ none ↦ path | some rest ↦ rest ]

abbrev pub or_base_name : Bytes → Bytes → Bytes
or_base_name path [] = base_name path
or_base_name path (c ∷ rel) = c ∷ rel

abbrev pub relpath_of : ℕ → Bytes → Bytes
relpath_of common_len path = or_base_name path (drop common_len path)

unfoldable pub assign_member_relpaths : List Bytes → List Bytes
assign_member_relpaths paths = map (relpath_of (common_dir_len paths)) paths
