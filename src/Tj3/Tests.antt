-- ===== src/Tj3/Tests.antt =====
-- src/tj3.c on the output for a project of two files.
use taskjuggler_lsp.Base.{
  ap, ◌∙◌, length, length-append, ◌≡◌, refl, none, some, List, [], ◌∷◌, ◌++◌, Bytes, codes,
  c_string, str_eq, arith, map, take,
}
use taskjuggler_lsp.PathUtil.{strip_prefix}
use taskjuggler_lsp.Diagnostics.{DiagSet, diag_set_add}
use taskjuggler_lsp.Tj3.{
  Member, strstr, last_colon, read_lineno, skip_dot_slash, strip_tmp, find_relpath,
  map_reported_path, at_line, add_reported, parse_diagnostic_line, split_lines, parse_diagnostics,
}
use taskjuggler_lsp.Tj3.Staging.{
  agree, shared, back_to_slash, common_dir_len, assign_member_relpaths,
}
use taskjuggler_lsp.Tj3.Staging.Relative.{IsDirLength, first_path, assign_member_relpaths-paths}
use taskjuggler_lsp.Tj3.Found.{Staged, IsAbsent, IsBelow}
use taskjuggler_lsp.Tj3.Printed.{Level, Reported, on_line, parse_diagnostic_line-printed}

abbrev members : List Member
members =
    record { relpath = codes "p.tjp"; uri = codes "file:///w/p.tjp" }
    ∷ record { relpath = codes "s/t.tji"; uri = codes "file:///w/s/t.tji" }
    ∷ []

abbrev tmp : Bytes
tmp = codes "/tmp/x"

abbrev read_line : Bytes → DiagSet
read_line line = parse_diagnostic_line tmp none members line []

test_absolute :
    read_line (codes "/tmp/x/s/t.tji:12: Error: no")
    ≡ record { uri = codes "file:///w/s/t.tji"; items = on_line 1 11 (codes "no") ∷ [] } ∷ []
unfolding parse_diagnostic_line add_reported map_reported_path strstr last_colon read_lineno
    skip_dot_slash strip_tmp find_relpath strip_prefix str_eq diag_set_add c_string
test_absolute = refl

-- A warning whose message has the marker of an error is lost.
test_lost : read_line (codes "p.tjp:3: Warning: a: Error: b") ≡ []
unfolding parse_diagnostic_line add_reported map_reported_path strstr last_colon read_lineno
    skip_dot_slash strip_tmp find_relpath strip_prefix str_eq diag_set_add c_string
test_lost = refl

test_lines :
    parse_diagnostics tmp none members
      (some (codes "Tutorial" ++ (10 ∷ 10 ∷ codes "./p.tjp:1: Warning: w")))
      []
    ≡ record { uri = codes "file:///w/p.tjp"; items = at_line 2 1 (codes "w") ∷ [] } ∷ []
unfolding parse_diagnostics split_lines parse_diagnostic_line add_reported map_reported_path strstr
    last_colon read_lineno skip_dot_slash strip_tmp find_relpath strip_prefix str_eq diag_set_add
    c_string
test_lines = refl

p_IsBelow : IsBelow (codes "p.tjp")
p_IsBelow = (λ r e. ground (arith, e), λ r e. ground (arith, e))

w_IsAbsent : IsAbsent (codes ": Error: ") (codes ": " ++ codes "w")
w_IsAbsent before behind e =
    let size = ap length e ∙ length-append before (codes ": Error: " ++ behind) in
    omega (arith, size)

parse_diagnostic_line-printed_example :
    parse_diagnostic_line tmp none members
      ((codes "./p.tjp" ++ (58 ∷ codes "42")) ++ (codes ": Warning: " ++ codes "w"))
      []
    ≡ diag_set_add [] (codes "file:///w/p.tjp") (on_line 2 41 (codes "w"))
unfolding skip_dot_slash find_relpath str_eq strstr strip_prefix c_string
parse_diagnostic_line-printed_example =
    parse_diagnostic_line-printed tmp none members (codes "p.tjp") (codes "file:///w/p.tjp")
      (codes "./p.tjp") (codes "42") (codes "tmp/x", refl) p_IsBelow (Staged.here _ _ refl refl)
      Reported.dotted refl ((omega arith, omega arith), ((omega arith, omega arith), tt)) refl 41
      refl (omega arith) Level.warning (codes "w") [] w_IsAbsent

abbrev paths : List Bytes
paths = codes "/w/p.tjp" ∷ codes "/w/s/t.tji" ∷ codes "/w/s/u.tji" ∷ []

test_relpaths :
    assign_member_relpaths paths ≡ codes "p.tjp" ∷ codes "s/t.tji" ∷ codes "s/u.tji" ∷ []
unfolding assign_member_relpaths common_dir_len shared agree back_to_slash
test_relpaths = refl

assign_member_relpaths-paths_example :
    IsDirLength (first_path paths) (common_dir_len paths)
    × (map
          (λ rel. take (common_dir_len paths) (first_path paths) ++ rel)
          (assign_member_relpaths paths)
        ≡ paths)
assign_member_relpaths-paths_example = assign_member_relpaths-paths paths (refl, (refl, (refl, tt)))
