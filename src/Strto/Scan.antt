-- ===== src/Strto/Scan.antt =====
-- Reading printed digits gives the number back.
use native.Mathlib.Nat.{div-add-mod', div-lt_self}
use servus.Prelude.{
  ℕ, zero, suc, ◌+◌, ◌*◌, ◌/◌, ◌%◌, ◌^◌, ◌≤◌, ◌<◌, [], ◌∷◌, ◌++◌, ◌≡◌, ◌∙◌, refl, arith, All, true,
  false, Bool-cases, inl, inr, ltb, ap, length, append-nil,
}
use servus.Prelude.Int.{pos}
use servus.Bytes.{Bytes}
use servus.Strto.{
  digit_char, emit, scan, is_space, skip_spaces, sign, hex_prefix, begins_with_digit, strtoull16,
  strtol10, print_hex, print_decimal,
}
use servus.Strto.Digits.{IsPlain, digit-digit_char, emit-IsPlain, emit-append, emit-begins}

module _ (base : ℕ) (lower : 1 < base) (upper : base ≤ 16) where
  scan-digit_char :
      (d n : ℕ) (out : Bytes)
      → d < base
      → scan base (digit_char d ∷ out) n ≡ scan base out (n * base + d)
  unfolding scan
  scan-digit_char d n out h = ground (arith, digit-digit_char base d upper h)

  scan-emit : (f n : ℕ) (out : Bytes) → n < f → scan base (emit base f n out) 0 ≡ scan base out n
  unfolding emit
  scan-emit zero n out h = absurd (omega arith)
  scan-emit (suc f) n out h = elim (Bool-cases (ltb n base)) [
    | inl small ↦
        rw small (scan-digit_char n 0 out (ground arith) ∙ ap (scan base out) (omega arith))
    | inr large ↦ rw large (
        scan-emit f (n / base) (digit_char (n % base) ∷ out)
          (omega (arith, div-lt_self {n = n} {k = base} (ground arith) lower))
        ∙ scan-digit_char (n % base) (n / base) out (omega arith)
        ∙ ap (scan base out) (div-add-mod' n base))
  ]

  scan-stops :
      (n : ℕ) (rest : Bytes) → begins_with_digit base rest ≡ false → scan base rest n ≡ (n, rest)
  unfolding scan
  scan-stops n [] h = refl
  scan-stops n (c ∷ s) h = ground arith

skip_spaces-plain : (s : Bytes) → All IsPlain s → skip_spaces s ≡ s
unfolding skip_spaces is_space
skip_spaces-plain [] h = refl
skip_spaces-plain (c ∷ s) h = ground arith

sign-plain : (s : Bytes) → All IsPlain s → sign s ≡ (false, s)
unfolding sign
sign-plain [] h = refl
sign-plain (c ∷ s) h = ground arith

hex_prefix-plain : (s : Bytes) → All IsPlain s → hex_prefix s ≡ s
unfolding hex_prefix
hex_prefix-plain [] h = refl
hex_prefix-plain (a ∷ []) h = refl
hex_prefix-plain (a ∷ b ∷ []) h = refl
hex_prefix-plain (a ∷ b ∷ c ∷ s) h = ground arith

strtoull16-plain :
    (s : Bytes) (n : ℕ) (rest : Bytes)
    → All IsPlain s
    → begins_with_digit 16 s ≡ true
    → scan 16 s 0 ≡ (n, rest)
    → n < 2 ^ 64
    → strtoull16 s ≡ (n, rest)
unfolding strtoull16
strtoull16-plain s n rest plain begins read h =
    rw (skip_spaces-plain s plain, sign-plain s plain, hex_prefix-plain s plain, begins, read)
      (ground arith)

strtol10-plain :
    (s : Bytes) (n : ℕ) (rest : Bytes)
    → All IsPlain s
    → begins_with_digit 10 s ≡ true
    → scan 10 s 0 ≡ (n, rest)
    → n < 2 ^ 63
    → strtol10 s ≡ (pos n, rest)
unfolding strtol10
strtol10-plain s n rest plain begins read h =
    rw (skip_spaces-plain s plain, sign-plain s plain, begins, read) (ground arith)

-- What is printed in front of `rest`, all in one.
pub print_hex-append : (n : ℕ) (rest : Bytes) → print_hex n ++ rest ≡ emit 16 (suc n) n rest
unfolding print_hex
print_hex-append n rest = emit-append 16 (omega arith) (omega arith) (suc n) n [] rest

begins_length : (base : ℕ) (s : Bytes) → begins_with_digit base s ≡ true → 0 < length s
begins_length base [] h = cc
begins_length base (c ∷ s) h = omega arith

-- `strtoull` reads a printed number and stops behind it.
pub strtoull16-print_hex :
    (n : ℕ) (rest : Bytes)
    → n < 2 ^ 64
    → All IsPlain rest
    → begins_with_digit 16 rest ≡ false
    → strtoull16 (print_hex n ++ rest) ≡ (n, rest)
strtoull16-print_hex n rest h plain stop = rw (print_hex-append n rest) (
    strtoull16-plain _ n rest (emit-IsPlain 16 (omega arith) (omega arith) (suc n) n rest plain)
      (emit-begins 16 (omega arith) (omega arith) n n rest)
      (scan-emit 16 (omega arith) (omega arith) (suc n) n rest (omega arith)
        ∙ scan-stops 16 (omega arith) (omega arith) n rest stop)
      h)

print_decimal-emit : (n : ℕ) → print_decimal n ≡ emit 10 (suc n) n []
unfolding print_decimal
print_decimal-emit n = refl

-- `strtol` reads a printed number to the end of the text.
pub strtol10-print_decimal : (n : ℕ) → n < 2 ^ 63 → strtol10 (print_decimal n) ≡ (pos n, [])
unfolding scan
strtol10-print_decimal n h = rw (print_decimal-emit n) (
    strtol10-plain _ n [] (emit-IsPlain 10 (omega arith) (omega arith) (suc n) n [] tt)
      (emit-begins 10 (omega arith) (omega arith) n n [])
      (scan-emit 10 (omega arith) (omega arith) (suc n) n [] (omega arith)) h)

-- What is printed is not empty.
pub length-print_hex : (n : ℕ) → 0 < length (print_hex n)
length-print_hex n =
    rw (← append-nil (print_hex n), print_hex-append n [])
      (begins_length 16 _ (emit-begins 16 (omega arith) (omega arith) n n []))

pub length-print_decimal : (n : ℕ) → 0 < length (print_decimal n)
length-print_decimal n =
    rw (print_decimal-emit n)
      (begins_length 10 _ (emit-begins 10 (omega arith) (omega arith) n n []))
