-- ===== src/PathUtil/Percent.antt =====
-- src/pathutil.c: what is encoded is decoded again.
use taskjuggler_lsp.Base.{
  ℕ, ◌*◌, ◌/◌, ◌%◌, ◌<◌, Bool, true, false, not, codes, ◌||◌, ◌&&◌, ◌≡◌, refl, ◌∙◌, some, [], ◌∷◌,
  ◌++◌, length, ◌≤◌, arith, ap, ◌==◌, Bool-cases, Each, inl, inr, Bytes, c_string, AreBytes,
  check_below, check_below-true,
}
use taskjuggler_lsp.PathUtil.{
  is_xdigit, hex_value, decode, percent_decode, is_unreserved, hex_digit, percent_encode_path,
  scheme, strip_prefix, uri_to_path, path_to_uri,
}

nibble_check : ℕ → Bool
unfolding is_xdigit hex_value hex_digit
nibble_check n = is_xdigit (hex_digit n) && hex_value (hex_digit n) == n

nibble_table : check_below nibble_check 16 ≡ true
unfolding check_below nibble_check
nibble_table = refl

nibble : (n : ℕ) → n < 16 → (is_xdigit (hex_digit n) ≡ true) × (hex_value (hex_digit n) ≡ n)
nibble n h =
    unfold nibble_check in ground (arith, check_below-true nibble_check 16 n nibble_table h)

decode-plain : (c : ℕ) (r : Bytes) → (c == b'%') ≡ false → decode (c ∷ r) ≡ c ∷ decode r
unfolding decode
decode-plain c [] h = refl
decode-plain c (a ∷ []) h = refl
decode-plain c (a ∷ b ∷ r) h = rw (h, decode)

decode-escape :
    (c : ℕ) (r : Bytes)
    → c < 256
    → decode (b'%' ∷ hex_digit (c / 16) ∷ hex_digit (c % 16) ∷ r) ≡ c ∷ decode r
unfolding decode
decode-escape c r h = ground (arith, nibble (c / 16) (omega arith), nibble (c % 16) (omega arith))

is_unreserved-ne : (c : ℕ) → is_unreserved c ≡ true → (c == b'%') ≡ false
unfolding is_unreserved
is_unreserved-ne c h = ground arith

decode-encode : (p : Bytes) → AreBytes p → decode (percent_encode_path p) ≡ p
unfolding percent_encode_path
decode-encode [] h = unfold decode in refl
decode-encode (c ∷ cs) h = elim (Bool-cases (is_unreserved c)) [
  | inl e ↦
      rw (e, percent_encode_path, decode-plain c _ (is_unreserved-ne c e))
        (ap (λ r. c ∷ r) (decode-encode cs h.1))
  | inr e ↦
      rw (e, percent_encode_path, decode-escape c _ h.0.1) (ap (λ r. c ∷ r) (decode-encode cs h.1))
]

c_string-AreBytes : (p : Bytes) → AreBytes p → c_string p ≡ p
unfolding c_string
c_string-AreBytes [] h = refl
c_string-AreBytes (c ∷ cs) h = ground (arith, c_string-AreBytes cs h.1)

strip_prefix-append : (p s : Bytes) → strip_prefix p (p ++ s) ≡ some s
unfolding strip_prefix
strip_prefix-append [] s = refl
strip_prefix-append (c ∷ p) s = ground (arith, strip_prefix-append p s)

-- Every path of NUL-free bytes is found again in its `file://` URI, whatever bytes it has.
pub uri_to_path-path_to_uri :
    (path : Bytes) → AreBytes path → uri_to_path (some (path_to_uri path)) ≡ some path
unfolding uri_to_path path_to_uri percent_decode
uri_to_path-path_to_uri path h =
    rw (strip_prefix-append scheme (percent_encode_path path), uri_to_path)
      (ap some (ap c_string (decode-encode path h) ∙ c_string-AreBytes path h))

abbrev one_of : Bytes → ℕ → Bool
one_of [] c = false
one_of (b ∷ bs) c = b == c || one_of bs c

-- The bytes of an encoded path: unreserved ones, '/' and the sign of an escape.
abbrev uri_bytes : Bytes
uri_bytes = codes "ABCDEFGHIJKLMNOPQRSTUVWXYZabcdefghijklmnopqrstuvwxyz0123456789-._~/%"

abbrev pub IsUriByte : ℕ → Type 0
IsUriByte c = one_of uri_bytes c ≡ true

kept_check : ℕ → Bool
unfolding is_unreserved
kept_check n = not (is_unreserved n) || one_of uri_bytes n

kept_table : check_below kept_check 256 ≡ true
unfolding check_below kept_check is_unreserved
kept_table = refl

kept-IsUriByte : (c : ℕ) → c < 256 → is_unreserved c ≡ true → IsUriByte c
kept-IsUriByte c h e =
    let passed : (not (is_unreserved c) || one_of uri_bytes c) ≡ true =
      unfold kept_check in check_below-true kept_check 256 c kept_table h in
    rw e at passed

digit_table : check_below (λ n. one_of uri_bytes (hex_digit n)) 16 ≡ true
unfolding check_below hex_digit
digit_table = refl

digit-IsUriByte : (n : ℕ) → n < 16 → IsUriByte (hex_digit n)
digit-IsUriByte n h = check_below-true (λ m. one_of uri_bytes (hex_digit m)) 16 n digit_table h

-- The encoding of a path of bytes holds letters, digits, '-', '.', '_', '~', '/' and '%' alone, three bytes at most for
-- each byte of the path.
pub percent_encode_path-IsUriByte :
    (path : Bytes)
    → AreBytes path
    → Each IsUriByte (percent_encode_path path)
      × (length (percent_encode_path path) ≤ 3 * length path)
unfolding percent_encode_path
percent_encode_path-IsUriByte [] h = (tt, omega arith)
percent_encode_path-IsUriByte (c ∷ cs) h =
    let ih = percent_encode_path-IsUriByte cs h.1 in
    elim (Bool-cases (is_unreserved c)) [
      | inl e ↦ rw e ((kept-IsUriByte c h.0.1 e, ih.0), omega (arith, ih.1))
      | inr e ↦ rw e (
        (
          refl,
          (digit-IsUriByte (c / 16) (omega arith), (digit-IsUriByte (c % 16) (omega arith), ih.0)),
        ),
        omega (arith, ih.1),
      )
    ]
