-- ===== src/Tj3.antt =====
-- src/tj3.c: the diagnostics in the output of the compiler. A member is a document that was staged in
-- the temporary directory. The line number is an int, kept as its 32-bit pattern; where it
-- overflows, which C leaves undefined, it wraps around here.
pub mod Found
pub mod Markers
pub mod Printed
pub mod Staging
mod Tests
use taskjuggler_lsp.Base.{
  ℕ, zero, suc, ◌+◌, ◌-◌, ◌*◌, Bool, true, false, ◌&&◌, ◌||◌, ◌==◌, ltb, leb, ◌%◌, ◌^◌, Option,
  none, some, List, [], ◌∷◌, ◌++◌, Bytes, codes, str_eq, if◌then◌else◌, length,
}
use taskjuggler_lsp.Syntax.{LspPos, LspRange}
use taskjuggler_lsp.PathUtil.{strip_prefix}
use taskjuggler_lsp.Diagnostics.{Diagnostic, DiagSet, diag_set_add}

pub record Member : Type 0 where
  pub relpath : Bytes
  pub uri : Bytes

abbrev pub diag_error : ℕ
diag_error = 1

abbrev pub diag_warning : ℕ
diag_warning = 2

abbrev pub int_max : ℕ
int_max = 2147483647

abbrev pub error_marker : Bytes
error_marker = codes ": Error: "

abbrev pub warning_marker : Bytes
warning_marker = codes ": Warning: "

abbrev pub after_byte : ℕ → Option (Bytes × Bytes) → Option (Bytes × Bytes)
after_byte c none = none
after_byte c (some (before, behind)) = some (c ∷ before, behind)

-- `strstr (s, needle)`: what stands before the first occurrence and behind it.
unfoldable pub strstr : Bytes → Bytes → Option (Bytes × Bytes)
strstr [] needle = elim (strip_prefix needle []) [ none ↦ none | some behind ↦ some ([], behind) ]
strstr (c ∷ cs) needle =
    let later = strstr cs needle in
    elim (strip_prefix needle (c ∷ cs)) [
      | some behind ↦ some ([], behind)
      | none ↦ after_byte c later
    ]

-- What stands before the last colon and behind it.
unfoldable pub last_colon : Bytes → Option (Bytes × Bytes)
last_colon [] = none
last_colon (c ∷ cs) = elim (last_colon cs) [
  | some split ↦ after_byte c (some split)
  | none ↦ if c == 58 then some ([], cs) else none
]

-- The loop over the digits, with `lineno` and `have_digits`.
unfoldable pub read_lineno : ℕ → Bool → Bytes → Option ℕ
read_lineno lineno have_digits [] = if have_digits then some lineno else none
read_lineno lineno have_digits (c ∷ cs) =
    let rest = read_lineno ((lineno * 10 + (c - 48)) % 2 ^ 32) true cs in
    if ltb c 48 || ltb 57 c then none else rest

-- `while (p[0] == '.' && p[1] == '/') p += 2`
unfoldable pub skip_dot_slash : Bytes → Bytes
skip_dot_slash [] = []
skip_dot_slash (c ∷ []) = c ∷ []
skip_dot_slash (c ∷ d ∷ cs) =
    let rest = skip_dot_slash cs in if c == 46 && d == 47 then rest else c ∷ d ∷ cs

-- The path below the directory.
abbrev pub below : Bytes → Bytes → Option Bytes
below dir p = strip_prefix (dir ++ (47 ∷ [])) p

abbrev pub below_real : Option Bytes → Bytes → Bytes
below_real none p = p
below_real (some real_tmp) p = elim (below real_tmp p) [ none ↦ p | some rest ↦ rest ]

abbrev pub is_rooted : Bytes → Bool
is_rooted [] = false
is_rooted (c ∷ cs) = c == 47

unfoldable pub strip_tmp : Bytes → Option Bytes → Bytes → Bytes
strip_tmp tmpdir real_tmp p =
    if is_rooted p
    then elim (below tmpdir p) [ some rest ↦ rest | none ↦ below_real real_tmp p ]
    else p

unfoldable pub find_relpath : List Member → Bytes → Option Bytes
find_relpath [] p = none
find_relpath (m ∷ ms) p =
    let rest = find_relpath ms p in if str_eq m.relpath p then some m.uri else rest

-- `lineno > 0 ? lineno - 1 : 0`
abbrev pub line_index : ℕ → ℕ
line_index lineno = if leb lineno int_max then lineno - 1 else 0

abbrev pub at_line : ℕ → ℕ → Bytes → Diagnostic
at_line severity lineno message = record {
  range = record {
    start = record { line = line_index lineno; character = 0 };
    end = record { line = line_index lineno; character = int_max };
  };
  severity = severity;
  source = some (codes "tj3");
  message = some message;
}

module _ (tmpdir : Bytes) (real_tmp : Option Bytes) (members : List Member) where
  unfoldable pub map_reported_path : Bytes → Option Bytes
  map_reported_path path =
      find_relpath members (skip_dot_slash (strip_tmp tmpdir real_tmp (skip_dot_slash path)))

  -- The line after its marker was found: `segment` is "<path>:<lineno>".
  unfoldable pub add_reported : ℕ → Bytes → Bytes → DiagSet → DiagSet
  add_reported severity segment message out = elim (last_colon segment) [
    | none ↦ out
    | some (path, digits) ↦ elim (read_lineno 0 false digits) [
      | none ↦ out
      | some lineno ↦ elim (map_reported_path path) [
        | none ↦ out
        | some uri ↦ diag_set_add out uri (at_line severity lineno message)
      ]
    ]
  ]

  unfoldable pub parse_diagnostic_line : Bytes → DiagSet → DiagSet
  parse_diagnostic_line line out = elim (strstr line error_marker) [
    | some (segment, message) ↦ add_reported diag_error segment message out
    | none ↦ elim (strstr line warning_marker) [
      | some (segment, message) ↦ add_reported diag_warning segment message out
      | none ↦ out
    ]
  ]

  abbrev pub parse_each : List Bytes → DiagSet → DiagSet
  parse_each [] out = out
  parse_each (line ∷ lines) out = parse_each lines (parse_diagnostic_line line out)

abbrev pub push_byte : ℕ → List Bytes → List Bytes
push_byte c [] = (c ∷ []) ∷ []
push_byte c (l ∷ ls) = (c ∷ l) ∷ ls

-- The stretches between newlines, the empty ones too, in order.
unfoldable pub split_lines : Bytes → List Bytes
split_lines [] = [] ∷ []
split_lines (c ∷ cs) = let rest = split_lines cs in if c == 10 then [] ∷ rest else push_byte c rest

abbrev pub nonempty : List Bytes → List Bytes
nonempty [] = []
nonempty ([] ∷ ls) = nonempty ls
nonempty ((c ∷ l) ∷ ls) = (c ∷ l) ∷ nonempty ls

-- `strtok_r (…, "\n", …)` to its end.
pub parse_diagnostics : Bytes → Option Bytes → List Member → Option Bytes → DiagSet → DiagSet
parse_diagnostics tmpdir real_tmp members none out = out
parse_diagnostics tmpdir real_tmp members (some stderr_buf) out =
    parse_each tmpdir real_tmp members (nonempty (split_lines stderr_buf)) out
