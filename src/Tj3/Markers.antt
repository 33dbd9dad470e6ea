-- ===== src/Tj3/Markers.antt =====
-- src/tj3.c: the marker and the line number of a line as the compiler prints it are found.
use taskjuggler_lsp.Base.{
  ℕ, ◌+◌, ◌%◌, ◌-◌, ◌*◌, ◌^◌, ◌≤◌, ◌<◌, ◌≡◌, refl, sym, ◌∙◌, ap, subst, zero, suc, Bool, true,
  false, ◌&&◌, ◌||◌, ◌==◌, ltb, Option, none, some, [], ◌∷◌, ◌++◌, Bytes, length, arith, Each,
}
use native.Mathlib.Nat.{add-mul, mul_assoc, mul_comm, mul-suc, pow-suc}
use taskjuggler_lsp.PathUtil.{strip_prefix}
use taskjuggler_lsp.Tj3.{int_max, after_byte, strstr, last_colon, read_lineno}

-- A colon with a space behind it.
abbrev pub colon_space : Bytes → Bool
colon_space [] = false
colon_space (c ∷ []) = false
colon_space (c ∷ d ∷ cs) = (c == 58 && d == 32) || colon_space (d ∷ cs)

abbrev pub IsDigit : ℕ → Type 0
IsDigit c = (48 ≤ c) × (c ≤ 57)

-- The number that the digits stand for.
abbrev pub value : Bytes → ℕ
value [] = 0
value (c ∷ cs) = (c - 48) * 10 ^ length cs + value cs

shift_digit : (n d t : ℕ) → (n * 10 + d) * t ≡ n * (t * 10) + d * t
shift_digit n d t =
    add-mul (n * 10) d t
    ∙ ap (λ (x : ℕ). x + d * t) (mul_assoc n 10 t ∙ ap (λ (x : ℕ). n * x) (mul_comm 10 t))

shift_number : (n d t v : ℕ) → (n * 10 + d) * t + v ≡ n * (t * 10) + (d * t + v)
shift_number n d t v = omega (arith, shift_digit n d t)

pow_pos : (k : ℕ) → 0 < 10 ^ k
pow_pos zero = omega arith
pow_pos (suc k) = rw (pow-suc 10 k) (omega (arith, pow_pos k))

factor_le : (x t v m : ℕ) → 0 < t → x * t + v ≤ m → x ≤ m
factor_le x zero v m pos h = absurd (omega (arith, pos))
factor_le x (suc k) v m pos h = omega (arith, h, mul-suc x k)

-- A number within the range of an int is read without overflow.
pub read_lineno-value :
    (n : ℕ) (have : Bool) (cs : Bytes)
    → Each IsDigit cs
    → (have || ltb 0 (length cs)) ≡ true
    → n * 10 ^ length cs + value cs ≤ int_max
    → read_lineno n have cs ≡ some (n * 10 ^ length cs + value cs)
unfolding read_lineno
read_lineno-value n have [] all some_digit small = ground (arith, some_digit)
read_lineno-value n have (c ∷ cs) (digit, all) some_digit small =
    let next = n * 10 + (c - 48) in
    let same : next * 10 ^ length cs + value cs ≡ n * 10 ^ length (c ∷ cs) + value (c ∷ cs) =
      shift_number n (c - 48) (10 ^ length cs) (value cs)
      ∙ ap (λ (x : ℕ). n * x + ((c - 48) * 10 ^ length cs + value cs))
          (sym (pow-suc 10 (length cs))) in
    let bound : next * 10 ^ length cs + value cs ≤ int_max =
      subst (λ (x : ℕ). x ≤ int_max) (sym same) small in
    let fits : next ≤ int_max =
      factor_le next (10 ^ length cs) (value cs) int_max (pow_pos (length cs)) bound in
    let kept : next % 2 ^ 32 ≡ next = omega (arith, fits) in
    let test : (ltb c 48 || ltb 57 c) ≡ false = ground (arith, digit) in
    rw (read_lineno, test, kept) (read_lineno-value next true cs all refl bound ∙ ap some same)

pub strip_prefix-append : (p s : Bytes) → strip_prefix p (p ++ s) ≡ some s
unfolding strip_prefix
strip_prefix-append [] s = refl
strip_prefix-append (c ∷ p) s = ground (arith, strip_prefix-append p s)

last_colon-digits : (cs : Bytes) → Each IsDigit cs → last_colon cs ≡ none
unfolding last_colon
last_colon-digits [] all = refl
last_colon-digits (c ∷ cs) (digit, all) = ground (arith, last_colon-digits cs all, digit)

pub last_colon-append :
    (path digits : Bytes)
    → Each IsDigit digits
    → last_colon (path ++ (58 ∷ digits)) ≡ some (path, digits)
unfolding last_colon
last_colon-append [] digits all = rw (last_colon, last_colon-digits digits all) refl
last_colon-append (c ∷ path) digits all = rw (last_colon, last_colon-append path digits all) refl

abbrev pub after_bytes : Bytes → Option (Bytes × Bytes) → Option (Bytes × Bytes)
after_bytes [] o = o
after_bytes (c ∷ cs) o = after_byte c (after_bytes cs o)

after_bytes-front :
    (before behind : Bytes) → after_bytes before (some ([], behind)) ≡ some (before, behind)
after_bytes-front [] behind = refl
after_bytes-front (c ∷ before) behind = rw (after_bytes-front before behind) refl

pub after_bytes-none : (before : Bytes) → after_bytes before none ≡ none
after_bytes-none [] = refl
after_bytes-none (c ∷ before) = rw (after_bytes-none before) refl

-- A needle that begins with a colon and a space.
module _ (tail : Bytes) where
  abbrev pub needle : Bytes
  needle = 58 ∷ 32 ∷ tail

  no_prefix :
      (c d : ℕ) (s : Bytes) → (c == 58 && d == 32) ≡ false → strip_prefix needle (c ∷ d ∷ s) ≡ none
  unfolding strip_prefix
  no_prefix c d s e = ground (arith, e)

  -- Before the first colon that has a space behind it there is no occurrence.
  pub strstr-skip :
      (before behind : Bytes)
      → colon_space before ≡ false
      → strstr (before ++ (58 ∷ behind)) needle ≡ after_bytes before (strstr (58 ∷ behind) needle)
  unfolding strstr
  strstr-skip [] behind e = refl
  strstr-skip (c ∷ []) behind e = rw (strstr, no_prefix c 58 behind (ground arith)) refl
  strstr-skip (c ∷ d ∷ before) behind e =
      rw (strstr, no_prefix c d (before ++ (58 ∷ behind)) (ground (arith, e)))
        (ap (after_byte c) (strstr-skip (d ∷ before) behind (ground (arith, e))))

  pub strstr-found :
      (before behind : Bytes)
      → colon_space before ≡ false
      → strstr (before ++ (needle ++ behind)) needle ≡ some (before, behind)
  unfolding strstr
  strstr-found before behind e =
      strstr-skip before (32 ∷ tail ++ behind) e
      ∙ ap (after_bytes before) (rw (strstr, strip_prefix-append needle behind) refl)
      ∙ after_bytes-front before behind

no_colon : (digits : Bytes) → Each IsDigit digits → colon_space digits ≡ false
no_colon [] all = refl
no_colon (c ∷ []) all = refl
no_colon (c ∷ d ∷ cs) (digit, all) = ground (arith, digit, no_colon (d ∷ cs) all)

colon_space-digits : (digits : Bytes) → Each IsDigit digits → colon_space (58 ∷ digits) ≡ false
colon_space-digits [] all = refl
colon_space-digits (c ∷ cs) (digit, all) = ground (arith, digit, no_colon (c ∷ cs) (digit, all))

-- A path with no such pair, and a line number.
pub colon_space-segment :
    (path digits : Bytes)
    → colon_space path ≡ false
    → Each IsDigit digits
    → colon_space (path ++ (58 ∷ digits)) ≡ false
colon_space-segment [] digits e all = colon_space-digits digits all
colon_space-segment (c ∷ []) digits e all = ground (arith, colon_space-digits digits all)
colon_space-segment (c ∷ d ∷ path) digits e all =
    ground (arith, e, colon_space-segment (d ∷ path) digits (ground (arith, e)) all)
