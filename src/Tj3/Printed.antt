-- ===== src/Tj3/Printed.antt =====
-- src/tj3.c: a line as the compiler prints it gives the diagnostic that it stands for.
use taskjuggler_lsp.Base.{
  ℕ, suc, ◌≡◌, ◌≢◌, ◌≤◌, refl, ◌∙◌, ap, subst, true, false, ltb, Option, none, some, List, [], ◌∷◌,
  ◌++◌, append_assoc, Bytes, codes, length, arith, Each,
}
use taskjuggler_lsp.PathUtil.{strip_prefix}
use taskjuggler_lsp.Diagnostics.{Diagnostic, DiagSet, diag_set_add}
use taskjuggler_lsp.Tj3.{
  Member, int_max, line_index, diag_error, diag_warning, error_marker, warning_marker, strstr,
  read_lineno, skip_dot_slash, below, below_real, is_rooted, strip_tmp, find_relpath,
  map_reported_path, add_reported, parse_diagnostic_line,
}
use taskjuggler_lsp.Tj3.Found.{
  Staged, find_relpath-Staged, IsAbsent, strstr-IsAbsent, below-outside, IsBelow,
  skip_dot_slash-IsBelow, is_rooted-IsBelow, IsRooted, is_rooted-IsRooted,
}
use taskjuggler_lsp.Tj3.Markers.{
  colon_space, IsDigit, value, read_lineno-value, strip_prefix-append, last_colon-append,
  after_bytes, after_bytes-none, strstr-skip, strstr-found, colon_space-segment,
}

pub data Level : Type 0 where
  error : Level
  warning : Level

abbrev pub marker_of : Level → Bytes
marker_of Level.error = codes ": Error: "
marker_of Level.warning = codes ": Warning: "

abbrev pub severity_of : Level → ℕ
severity_of Level.error = 1
severity_of Level.warning = 2

-- The diagnostic on the whole of a line, counted from 0.
abbrev pub on_line : ℕ → ℕ → Bytes → Diagnostic
on_line severity line message = record {
  range = record {
    start = record { line = line; character = 0 };
    end = record { line = line; character = 2147483647 };
  };
  severity = severity;
  source = some (codes "tj3");
  message = some message;
}

-- The message of a warning does not have the marker of an error in it.
abbrev pub Unambiguous : Level → Bytes → Type 0
Unambiguous Level.error message = Unit
Unambiguous Level.warning message = IsAbsent (codes ": Error: ") (codes ": " ++ message)

-- The ways in which the compiler names the file staged at the relative path.
pub data Reported (tmpdir : Bytes) (real_tmp : Option Bytes) (rel : Bytes) : Bytes → Type 0 where
  relative : Reported tmpdir real_tmp rel rel
  dotted : Reported tmpdir real_tmp rel (46 ∷ 47 ∷ rel)
  absolute : Reported tmpdir real_tmp rel (tmpdir ++ (47 ∷ rel))
  resolved :
      (real : Bytes)
      → real_tmp ≡ some real
      → IsRooted real
      → ((inner : Bytes) → real ++ (47 ∷ rel) ≢ tmpdir ++ (47 ∷ inner))
      → Reported tmpdir real_tmp rel (real ++ (47 ∷ rel))

skip_dot_slash-rooted : (p : Bytes) → is_rooted p ≡ true → skip_dot_slash p ≡ p
unfolding skip_dot_slash
skip_dot_slash-rooted [] e = refl
skip_dot_slash-rooted (c ∷ []) e = refl
skip_dot_slash-rooted (c ∷ d ∷ cs) e = ground (arith, e)

is_rooted-append : (p s : Bytes) → is_rooted p ≡ true → is_rooted (p ++ s) ≡ true
is_rooted-append [] s e = absurd (ground (arith, e))
is_rooted-append (c ∷ p) s e = e

below-append : (dir rel : Bytes) → below dir (dir ++ (47 ∷ rel)) ≡ some rel
below-append dir rel =
    subst (λ (x : Bytes). strip_prefix (dir ++ (47 ∷ [])) x ≡ some rel)
      (append_assoc dir (47 ∷ []) rel) (strip_prefix-append (dir ++ (47 ∷ [])) rel)

strip_tmp-Reported :
    (tmpdir : Bytes) (real_tmp : Option Bytes) (rel path : Bytes)
    → IsRooted tmpdir
    → IsBelow rel
    → Reported tmpdir real_tmp rel path
    → strip_tmp tmpdir real_tmp (skip_dot_slash path) ≡ rel
unfolding strip_tmp skip_dot_slash
strip_tmp-Reported tmpdir real_tmp rel _ rooted inside Reported.relative =
    let plain = skip_dot_slash-IsBelow rel inside in
    let unrooted = is_rooted-IsBelow rel inside in rw (plain, strip_tmp, unrooted) refl
strip_tmp-Reported tmpdir real_tmp rel _ rooted inside Reported.dotted =
    let plain = skip_dot_slash-IsBelow rel inside in
    let unrooted = is_rooted-IsBelow rel inside in rw (plain, strip_tmp, unrooted) refl
strip_tmp-Reported tmpdir real_tmp rel _ rooted inside Reported.absolute =
    let front = is_rooted-append tmpdir (47 ∷ rel) (is_rooted-IsRooted tmpdir rooted) in
    rw
      (
        skip_dot_slash-rooted (tmpdir ++ (47 ∷ rel)) front,
        strip_tmp,
        front,
        below-append tmpdir rel,
      )
      refl
strip_tmp-Reported tmpdir real_tmp rel _ rooted inside (Reported.resolved real is there outside) =
    let front = is_rooted-append real (47 ∷ rel) (is_rooted-IsRooted real there) in
    rw
      (
        skip_dot_slash-rooted (real ++ (47 ∷ rel)) front,
        strip_tmp,
        front,
        below-outside tmpdir (real ++ (47 ∷ rel)) outside,
        is,
        skip_dot_slash-rooted (real ++ (47 ∷ rel)) front,
        below_real,
        below-append real rel,
      )
      refl

module _ (tmpdir : Bytes) (real_tmp : Option Bytes) (members : List Member)
    (rel uri path digits : Bytes) (rooted : IsRooted tmpdir) (inside : IsBelow rel)
    (staged : Staged rel uri members) (named : Reported tmpdir real_tmp rel path)
    (clean : colon_space path ≡ false) (number : Each IsDigit digits)
    (some_digit : ltb 0 (length digits) ≡ true) (line : ℕ) (counted : value digits ≡ suc line)
    (in_range : value digits ≤ int_max) where
  abbrev segment : Bytes
  segment = path ++ (58 ∷ digits)

  map_reported_path-Reported : map_reported_path tmpdir real_tmp members path ≡ some uri
  unfolding map_reported_path
  map_reported_path-Reported =
      ap (λ (x : Bytes). find_relpath members (skip_dot_slash x))
        (strip_tmp-Reported tmpdir real_tmp rel path rooted inside named)
      ∙ ap (find_relpath members) (skip_dot_slash-IsBelow rel inside)
      ∙ find_relpath-Staged rel uri members staged

  add_reported-segment :
      (severity : ℕ) (message : Bytes) (out : DiagSet)
      → add_reported tmpdir real_tmp members severity segment message out
        ≡ diag_set_add out uri (on_line severity line message)
  unfolding add_reported
  add_reported-segment severity message out =
      let lineno : read_lineno 0 false digits ≡ some (value digits) =
        read_lineno-value 0 false digits number some_digit (omega (arith, in_range))
        ∙ ap some (omega arith) in
      let index : line_index (value digits) ≡ line = ground (arith, counted, in_range) in
      rw (add_reported, last_colon-append path digits number, lineno, map_reported_path-Reported)
        (ap (λ (l : ℕ). diag_set_add out uri (on_line severity l message)) index)

  warning-no_error :
      (message : Bytes)
      → IsAbsent (codes ": Error: ") (codes ": " ++ message)
      → strstr (warning_marker ++ message) error_marker ≡ none
  unfolding strstr strip_prefix
  warning-no_error message e =
      ap (after_bytes (codes ": Warning")) (strstr-IsAbsent (codes ": " ++ message) error_marker e)
      ∙ after_bytes-none (codes ": Warning")

  -- A line that names a staged file with no colon and space in its path, a number from 1 to the
  -- largest int and an error, or a warning whose message has no marker of an error, adds to the URI of
  -- the file the diagnostic with the message on the whole line that is one less than the number.
  pub parse_diagnostic_line-printed :
      (level : Level) (message : Bytes) (out : DiagSet)
      → Unambiguous level message
      → parse_diagnostic_line tmpdir real_tmp members
          ((path ++ (58 ∷ digits)) ++ (marker_of level ++ message))
          out
        ≡ diag_set_add out uri (on_line (severity_of level) line message)
  unfolding parse_diagnostic_line
  parse_diagnostic_line-printed Level.error message out clear =
      let safe = colon_space-segment path digits clean number in
      rw (parse_diagnostic_line, strstr-found (codes "Error: ") segment message safe)
        (add_reported-segment diag_error message out)
  parse_diagnostic_line-printed Level.warning message out clear =
      let safe = colon_space-segment path digits clean number in
      let no_error : strstr (segment ++ (warning_marker ++ message)) error_marker ≡ none =
        strstr-skip (codes "Error: ") segment (32 ∷ codes "Warning: " ++ message) safe
        ∙ ap (after_bytes segment) (warning-no_error message clear)
        ∙ after_bytes-none segment in
      rw (parse_diagnostic_line, no_error, strstr-found (codes "Warning: ") segment message safe)
        (add_reported-segment diag_warning message out)
