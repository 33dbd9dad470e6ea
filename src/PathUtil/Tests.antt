-- ===== src/PathUtil/Tests.antt =====
-- src/pathutil.c: runs, and the theorems at concrete paths.
use taskjuggler_lsp.Base.{
  ◌≤◌, ◌*◌, ◌≡◌, ◌⊎◌, refl, some, none, Option, ◌||◌, arith, length, if◌then◌else◌, Each, Bytes,
  codes, AreBytes, str_eq, Bool-cases, inl, inr, c_string,
}
use taskjuggler_lsp.PathUtil.{
  in_range, is_xdigit, hex_value, decode, percent_decode, is_unreserved, hex_digit,
  percent_encode_path, strip_prefix, uri_to_path, path_to_uri, skip_slashes, span_segment,
  normalize_loop, is_absolute, lexical_normalize_path, canonical_path, normalize_uri,
}
use taskjuggler_lsp.PathUtil.Percent.{
  IsUriByte, uri_to_path-path_to_uri, percent_encode_path-IsUriByte,
}
use taskjuggler_lsp.PathUtil.Normalize.{normal_form, lexical_normalize_path-eq-normal_form}
use taskjuggler_lsp.PathUtil.Canonical.{LexicallyResolves, normalize_uri_settles}

program : Unit {0}
unfolding in_range is_xdigit hex_value decode percent_decode c_string is_unreserved hex_digit
    percent_encode_path strip_prefix uri_to_path path_to_uri skip_slashes span_segment
    normalize_loop is_absolute lexical_normalize_path canonical_path normalize_uri str_eq
program = tt

-- A plan in a directory with a blank in its name.
abbrev plan_path : Bytes
plan_path = codes "/a b/x.tjp"

plan_path-AreBytes : AreBytes plan_path
plan_path-AreBytes = omega arith

plan_uri : path_to_uri plan_path ≡ codes "file:///a%20b/x.tjp"
unfolding program
plan_uri = refl

decode_stops_at_nul : percent_decode (codes "/a%00b") ≡ codes "/a"
unfolding program
decode_stops_at_nul = refl

decode_keeps_broken_escape : percent_decode (codes "50%2") ≡ codes "50%2"
unfolding program
decode_keeps_broken_escape = refl

normalize_runs : lexical_normalize_path (codes "//a/./b//../c/") ≡ codes "/a/b/../c"
unfolding program
normalize_runs = refl

uri_to_path-path_to_uri_example : uri_to_path (some (path_to_uri plan_path)) ≡ some plan_path
uri_to_path-path_to_uri_example = uri_to_path-path_to_uri plan_path plan_path-AreBytes

percent_encode_path-IsUriByte_example :
    Each IsUriByte (percent_encode_path plan_path)
    × (length (percent_encode_path plan_path) ≤ 3 * length plan_path)
percent_encode_path-IsUriByte_example = percent_encode_path-IsUriByte plan_path plan_path-AreBytes

abbrev messy : Bytes
messy = codes "./a//b/./c"

lexical_normalize_path-eq-normal_form_example : lexical_normalize_path messy ≡ normal_form messy
lexical_normalize_path-eq-normal_form_example = lexical_normalize_path-eq-normal_form messy

-- A file system with one file, `/d`, and one symbolic link to it, `/l`.
one_link : Bytes → Option Bytes
one_link path =
    if str_eq path (codes "/l") || str_eq path (codes "/d") then some (codes "/d") else none

one_link-resolves :
    (path canon : Bytes)
    → one_link path ≡ some canon
    → AreBytes canon × (one_link canon ≡ some canon)
unfolding one_link str_eq
one_link-resolves path canon e =
    elim (Bool-cases (str_eq path (codes "/l") || str_eq path (codes "/d"))) [
      | inl known ↦ let same : codes "/d" ≡ canon = ground arith in rw (← same) (omega arith, refl)
      | inr unknown ↦ absurd (ground arith)
    ]

abbrev missing_uri : Bytes
missing_uri = codes "file:///a/.//b%20"

normalize_uri_settles_example :
    (normalize_uri one_link (normalize_uri one_link missing_uri)
      ≡ normalize_uri one_link missing_uri)
    ⊎ ((path : Bytes) × (canon : Bytes) × (uri_to_path (some missing_uri) ≡ some path)
        × LexicallyResolves one_link path canon
        × (normalize_uri one_link (normalize_uri one_link missing_uri) ≡ path_to_uri canon)
        × (normalize_uri one_link (path_to_uri canon) ≡ path_to_uri canon))
normalize_uri_settles_example =
    normalize_uri_settles one_link one_link-resolves missing_uri (omega arith)

link_uri : normalize_uri one_link (codes "file:///l") ≡ codes "file:///d"
unfolding program one_link
link_uri = refl
