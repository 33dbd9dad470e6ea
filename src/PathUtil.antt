-- ===== src/PathUtil.antt =====
-- src/pathutil.c: percent encoding of `file://` URIs, and their canonical form.
-- A string is its list of bytes. `realpath` of the C library is a parameter.
pub mod Percent
pub mod Normalize
pub mod Lexical
pub mod Canonical
mod Tests
use taskjuggler_lsp.Base.{
  ℕ, zero, suc, ◌+◌, ◌-◌, ◌*◌, ◌/◌, ◌%◌, Bool, true, false, ◌&&◌, ◌||◌, Option, none, some, List,
  [], ◌∷◌, ◌++◌, ltb, leb, ◌==◌, if◌then◌else◌, length, get_or, Bytes, codes, c_string, str_eq,
}

in_range : ℕ → ℕ → ℕ → Bool
in_range lo hi c = leb lo c && leb c hi

-- `isxdigit` of the C locale
unfoldable pub is_xdigit : ℕ → Bool
unfolding in_range
is_xdigit c = in_range b'0' b'9' c || in_range b'a' b'f' c || in_range b'A' b'F' c

-- what `strtol` of base 16 reads of one hexadecimal digit
unfoldable pub hex_value : ℕ → ℕ
hex_value c = if leb b'a' c then c - 87 else if leb b'A' c then c - 55 else c - 48

-- The loop of `percent_decode`, over the bytes that are left.
unfoldable pub decode : Bytes → Bytes
decode [] = []
decode (c ∷ []) = c ∷ []
decode (c ∷ a ∷ []) = c ∷ a ∷ []
decode (c ∷ a ∷ b ∷ r) = elim (c == b'%' && (is_xdigit a && is_xdigit b)) [
  | true ↦ (16 * hex_value a + hex_value b) ∷ decode r
  | false ↦ c ∷ decode (a ∷ b ∷ r)
]

-- Callers read the buffer as a C string, so a decoded `%00` ends it.
unfoldable pub percent_decode : Bytes → Bytes
percent_decode src = c_string (decode src)

unfoldable pub is_unreserved : ℕ → Bool
unfolding in_range
is_unreserved c =
    c == b'/'
    || in_range b'A' b'Z' c
    || in_range b'a' b'z' c
    || in_range b'0' b'9' c
    || c == b'-'
    || c == b'_'
    || c == b'.'
    || c == b'~'

abbrev hex_digits : Bytes
hex_digits = codes "0123456789ABCDEF"

unfoldable pub hex_digit : ℕ → ℕ
hex_digit n = get_or hex_digits n 0

unfoldable pub percent_encode_path : Bytes → Bytes
percent_encode_path [] = []
percent_encode_path (c ∷ cs) =
    let rest = percent_encode_path cs in
    if is_unreserved c then c ∷ rest else b'%' ∷ hex_digit (c / 16) ∷ hex_digit (c % 16) ∷ rest

abbrev pub scheme : Bytes
scheme = codes "file://"

-- `strncmp (s, p, strlen (p)) == 0`, with the bytes behind the prefix
unfoldable pub strip_prefix : Bytes → Bytes → Option Bytes
strip_prefix [] s = some s
strip_prefix (p ∷ ps) [] = none
strip_prefix (p ∷ ps) (c ∷ s) = let rest = strip_prefix ps s in if p == c then rest else none

unfoldable pub uri_to_path : Option Bytes → Option Bytes
uri_to_path none = none
uri_to_path (some uri) = elim (strip_prefix scheme uri) [
  | none ↦ none
  | some rest ↦ some (percent_decode rest)
]

unfoldable pub path_to_uri : Bytes → Bytes
path_to_uri path = scheme ++ percent_encode_path path

-- `while (i < len && path[i] == '/') i++`
unfoldable pub skip_slashes : Bytes → Bytes
skip_slashes [] = []
skip_slashes (c ∷ cs) = let rest = skip_slashes cs in if c == b'/' then rest else c ∷ cs

-- `while (i < len && path[i] != '/') i++`: the segment that was passed, and what follows it
unfoldable pub span_segment : Bytes → Bytes × Bytes
span_segment [] = ([], [])
span_segment (c ∷ cs) =
    let (seg, rest) = span_segment cs in if c == b'/' then ([], c ∷ cs) else (c ∷ seg, rest)

-- The body of the outer loop, at a segment that begins with `c`: `continue` on ".", else copy it.
abbrev pub copy_segment : (Bytes → Bool → Bytes → Bytes) → Bool → Bytes → ℕ → Bytes × Bytes → Bytes
copy_segment loop wrote_segment out c (seg, rest) = elim (length seg == 1 && c == b'.') [
  | true ↦ loop rest wrote_segment out
  | false ↦ loop rest true (out ++ ((if wrote_segment then b'/' ∷ [] else []) ++ seg))
]

-- The outer loop over `path[i..len)`, with `out[0..wi)`. A round passes a byte or ends the loop, so
-- `length path` rounds are enough.
unfoldable pub normalize_loop : ℕ → Bytes → Bool → Bytes → Bytes
normalize_loop zero rest wrote_segment out = out
normalize_loop (suc fuel) rest wrote_segment out = elim (skip_slashes rest) [
  | [] ↦ out
  | c ∷ cs ↦ copy_segment (normalize_loop fuel) wrote_segment out c (span_segment (c ∷ cs))
]

unfoldable pub is_absolute : Bytes → Bool
is_absolute [] = false
is_absolute (c ∷ cs) = c == b'/'

unfoldable pub lexical_normalize_path : Bytes → Bytes
lexical_normalize_path path =
    normalize_loop (length path) path false (if is_absolute path then b'/' ∷ [] else [])

-- What a URI with the scheme denotes: the real path where it exists, else the lexical one.
unfoldable pub canonical_path : (Bytes → Option Bytes) → Bytes → Bytes
canonical_path realpath path = elim (realpath path) [
  | some canon ↦ canon
  | none ↦ lexical_normalize_path path
]

unfoldable pub normalize_uri : (Bytes → Option Bytes) → Bytes → Bytes
normalize_uri realpath raw_uri = elim (uri_to_path (some raw_uri)) [
  | none ↦ raw_uri
  | some path ↦ path_to_uri (canonical_path realpath path)
]
