-- ===== src/Base/CString.antt =====
-- C strings as lists of bytes without the terminating NUL, and checks of small ranges by evaluation.
use Prim.Native.Char.{code}
use Prim.Native.String.{String}
use Prim.Native.Nat.{ℕ, zero, suc, ◌<◌}
use mathlib.Core.Path.{◌≡◌, refl}
use mathlib.Core.Logic.{◌↔◌}
use mathlib.Core.Bool.{Bool, true, false, ◌&&◌}
use mathlib.Core.List.{List, [], ◌∷◌}
use native.Mathlib.Omega.{arith}
use taskjuggler_lsp.Base.Lists.{Each}
use taskjuggler_lsp.Base.Tests.{◌==◌, if◌then◌else◌}

abbrev pub Bytes : Type 0
Bytes = List ℕ

-- The bytes of an ASCII literal.
abbrev pub codes : String → Bytes
codes String.[] = []
codes (String.◌∷◌ c s) = code c ∷ codes s

-- What a C string holds of a buffer: the bytes before its first NUL.
unfoldable pub c_string : Bytes → Bytes
c_string [] = []
c_string (c ∷ cs) = if c == 0 then [] else c ∷ c_string cs

-- `strcmp (s, t) == 0`
unfoldable pub str_eq : Bytes → Bytes → Bool
str_eq [] [] = true
str_eq [] (d ∷ ds) = false
str_eq (c ∷ cs) [] = false
str_eq (c ∷ cs) (d ∷ ds) = c == d && str_eq cs ds

pub str_eq_iff : (s t : Bytes) → (str_eq s t ≡ true) ↔ (s ≡ t)
unfolding str_eq
str_eq_iff [] [] = ground arith
str_eq_iff [] (d ∷ ds) = ground arith
str_eq_iff (c ∷ cs) [] = ground arith
str_eq_iff (c ∷ cs) (d ∷ ds) = ground (arith, str_eq_iff cs ds)

pub str_eq_refl : (s : Bytes) → str_eq s s ≡ true
str_eq_refl s = (str_eq_iff s s).1 refl

-- A byte of a C string: neither NUL nor past 255.
abbrev pub IsByte : ℕ → Type 0
IsByte c = (0 < c) × (c < 256)

abbrev pub AreBytes : Bytes → Type 0
AreBytes = Each IsByte

-- The test passes at 0, …, n - 1, by evaluation.
unfoldable pub check_below : (ℕ → Bool) → ℕ → Bool
check_below test zero = true
check_below test (suc n) = check_below test n && test n

pub check_below-true :
    (test : ℕ → Bool) (n k : ℕ) → check_below test n ≡ true → k < n → test k ≡ true
unfolding check_below
check_below-true test zero k passed small = absurd (omega arith)
check_below-true test (suc n) k passed small = ground (arith, check_below-true test n k)
