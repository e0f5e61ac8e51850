-- ===== src/Strto/Digits.antt =====
-- What the printed digits are: characters that no conversion takes for a space, a sign or the
-- letter of a prefix.
use native.Mathlib.Nat.{pow-suc}
use servus.Prelude.{
  ℕ, zero, suc, ◌/◌, ◌%◌, ◌≤◌, ◌<◌, [], ◌∷◌, ◌++◌, ◌≡◌, ◌≢◌, refl, some, arith, All, true,
  Bool-cases, inl, inr, ltb, lt→ltb, length, ◌+◌, ◌^◌,
}
use servus.Bytes.{Bytes}
use servus.Strto.{digit, digit_char, emit, print_decimal, begins_with_digit}

-- A digit character is read as its digit.
pub digit-digit_char : (base d : ℕ) → base ≤ 16 → d < base → digit base (digit_char d) ≡ some d
unfolding digit digit_char
digit-digit_char base d hb h = ground arith

-- No space, no sign, no zero byte and no `x`.
abbrev pub IsPlain : ℕ → Type 0
IsPlain c = (48 ≤ c) × (c ≤ 102) × (c ≢ 88)

digit_char-IsPlain : (d : ℕ) → d < 16 → IsPlain (digit_char d)
unfolding digit_char
digit_char-IsPlain d h = ground arith

-- The characters of a decimal number.
abbrev pub IsDecimal : ℕ → Type 0
IsDecimal c = (48 ≤ c) × (c ≤ 57)

digit_char-IsDecimal : (d : ℕ) → d < 10 → IsDecimal (digit_char d)
unfolding digit_char
digit_char-IsDecimal d h = ground arith

-- What holds of each digit holds of the whole text.
emit-All :
    (P : ℕ → Type 0) (base : ℕ)
    → 0 < base
    → ((d : ℕ) → d < base → P (digit_char d))
    → (f n : ℕ) (out : Bytes) → All P out
    → All P (emit base f n out)
unfolding emit
emit-All P base b digits zero n out h = h
emit-All P base b digits (suc f) n out h = elim (Bool-cases (ltb n base)) [
  | inl small ↦ rw small (digits n (ground arith), h)
  | inr large ↦ rw large (
      emit-All P base b digits f (n / base) (digit_char (n % base) ∷ out)
        (digits (n % base) (omega arith), h))
]

pub print_decimal-IsDecimal : (n : ℕ) → All IsDecimal (print_decimal n)
unfolding print_decimal
print_decimal-IsDecimal n = emit-All IsDecimal 10 (omega arith) digit_char-IsDecimal (suc n) n [] tt

module _ (base : ℕ) (lower : 1 < base) (upper : base ≤ 16) where
  pub emit-IsPlain : (f n : ℕ) (out : Bytes) → All IsPlain out → All IsPlain (emit base f n out)
  emit-IsPlain = emit-All IsPlain base (omega arith) (λ d h. digit_char-IsPlain d (omega arith))

  pub emit-append :
      (f n : ℕ) (out rest : Bytes) → emit base f n out ++ rest ≡ emit base f n (out ++ rest)
  unfolding emit
  emit-append zero n out rest = refl
  emit-append (suc f) n out rest =
      ground (arith, emit-append f (n / base) (digit_char (n % base) ∷ out) rest)

  pub begins-digit_char :
      (d : ℕ) (out : Bytes) → d < base → begins_with_digit base (digit_char d ∷ out) ≡ true
  begins-digit_char d out h = ground (arith, digit-digit_char base d upper h)

  -- A printed text begins with a digit.
  emit-begins_behind :
      (f n : ℕ) (out : Bytes)
      → begins_with_digit base out ≡ true
      → begins_with_digit base (emit base f n out) ≡ true
  unfolding emit
  emit-begins_behind zero n out h = h
  emit-begins_behind (suc f) n out h = elim (Bool-cases (ltb n base)) [
    | inl small ↦ rw small (begins-digit_char n out (ground arith))
    | inr large ↦ rw large (
        emit-begins_behind f (n / base) (digit_char (n % base) ∷ out)
          (begins-digit_char (n % base) out (omega arith)))
  ]

  pub emit-begins :
      (f n : ℕ) (out : Bytes) → begins_with_digit base (emit base (suc f) n out) ≡ true
  unfolding emit
  emit-begins f n out = elim (Bool-cases (ltb n base)) [
    | inl small ↦ rw small (begins-digit_char n out (ground arith))
    | inr large ↦ rw large (
        emit-begins_behind f (n / base) (digit_char (n % base) ∷ out)
          (begins-digit_char (n % base) out (omega arith)))
  ]

-- With `k` digits of room in base 16 the printed text has at most `k` characters.
pub length-emit :
    (k f n : ℕ) (out : Bytes) → 0 < k → n < 16 ^ k → length (emit 16 f n out) ≤ k + length out
unfolding emit
length-emit k zero n out hk h = omega arith
length-emit zero (suc f) n out hk h = absurd (omega arith)
length-emit (suc zero) (suc f) n out hk h = rw (lt→ltb n 16 (omega arith)) (omega arith)
length-emit (suc (suc k)) (suc f) n out hk h = elim (Bool-cases (ltb n 16)) [
  | inl small ↦ rw small (omega arith)
  | inr large ↦ rw large (
      omega (
        arith,
        length-emit (suc k) f (n / 16) (digit_char (n % 16) ∷ out) (omega arith)
            (omega (arith, pow-suc 16 (suc k))),
      ))
]
