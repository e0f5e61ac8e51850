-- ===== src/Strto.antt =====
-- The conversions of the C library between numbers and text that the code calls: `strtol` and
-- `strtoull`, and the digits that `%llx` and `operator<<` write. A C string is the list of its
-- bytes; it ends at the end of the list or at the first zero byte, which no conversion reads past
-- since zero is no digit.
pub mod Digits
pub mod Scan
use servus.Prelude.{
  ℕ, zero, suc, ◌+◌, ◌-◌, ◌*◌, ◌/◌, ◌%◌, ◌^◌, Bool, true, false, ◌&&◌, ◌||◌, List, [], ◌∷◌, Option,
  none, some, ltb, leb, ◌==◌, if◌then◌else◌,
}
use servus.Prelude.Int.{ℤ, pos, negsuc}
use servus.Bytes.{Bytes}

-- The value of a digit character, in any base up to 36.
unfoldable pub digit_value : ℕ → Option ℕ
digit_value c =
    if leb b'0' c && leb c b'9'
    then some (c - 48)
    else if leb b'a' c && leb c b'z'
    then some (c - 87)
    else if leb b'A' c && leb c b'Z'
    then some (c - 55)
    else none

unfoldable pub digit : ℕ → ℕ → Option ℕ
unfolding digit_value
digit base c = elim (digit_value c) [ none ↦ none | some d ↦ if ltb d base then some d else none ]

-- Reads digits as long as there are any, behind a number read so far.
unfoldable pub scan : ℕ → Bytes → ℕ → ℕ × Bytes
scan base [] n = (n, [])
scan base (c ∷ s) n = elim (digit base c) [
  | none ↦ (n, c ∷ s)
  | some d ↦ scan base s (n * base + d)
]

unfoldable pub is_space : ℕ → Bool
is_space c = c == 32 || (leb 9 c && leb c 13)

unfoldable pub skip_spaces : Bytes → Bytes
unfolding is_space
skip_spaces [] = []
skip_spaces (c ∷ s) = elim (is_space c) [ true ↦ skip_spaces s | false ↦ c ∷ s ]

-- The optional sign, and whether it was a minus.
unfoldable pub sign : Bytes → Bool × Bytes
sign [] = (false, [])
sign (c ∷ s) = if c == b'-' then (true, s) else if c == b'+' then (false, s) else (false, c ∷ s)

-- The optional `0x` of base 16, which is read only before a digit.
unfoldable pub hex_prefix : Bytes → Bytes
hex_prefix (z ∷ x ∷ d ∷ s) = elim (digit 16 d) [
  | none ↦ z ∷ x ∷ d ∷ s
  | some _ ↦ if z == b'0' && (x == b'x' || x == b'X') then d ∷ s else z ∷ x ∷ d ∷ s
]
hex_prefix s = s

abbrev pub begins_with_digit : ℕ → Bytes → Bool
begins_with_digit base [] = false
begins_with_digit base (c ∷ s) = elim (digit base c) [ none ↦ false | some _ ↦ true ]

-- `strtoull(s, &end, 16)`: the value and the text from `end` on. With no digits `end` is `s`.
unfoldable pub strtoull16 : Bytes → ℕ × Bytes
strtoull16 s =
    let (minus, t) = sign (skip_spaces s) in
    let body = hex_prefix t in
    let (n, rest) = scan 16 body 0 in
    if begins_with_digit 16 body
    then (
      (if ltb n (2 ^ 64) then (if minus then (2 ^ 64 - n) % 2 ^ 64 else n) else 2 ^ 64 - 1),
      rest,
    )
    else (0, s)

-- `strtol(s, &end, 10)` on a platform of 64-bit `long`.
unfoldable pub strtol10 : Bytes → ℤ × Bytes
strtol10 s =
    let (minus, t) = sign (skip_spaces s) in
    let (n, rest) = scan 10 t 0 in
    if begins_with_digit 10 t
    then (
      (if minus
          then (if n == 0 then pos 0 else negsuc (if leb n (2 ^ 63) then n - 1 else 2 ^ 63 - 1))
          else pos (if ltb n (2 ^ 63) then n else 2 ^ 63 - 1)),
      rest,
    )
    else (pos 0, s)

unfoldable pub digit_char : ℕ → ℕ
digit_char d = if ltb d 10 then 48 + d else 87 + d

-- The digits of `n` before `out`; `n + 1` rounds are enough for every base above 1.
unfoldable pub emit : ℕ → ℕ → ℕ → Bytes → Bytes
emit base zero n out = out
emit base (suc f) n out =
    let longer = emit base f (n / base) (digit_char (n % base) ∷ out) in
    if ltb n base then digit_char n ∷ out else longer

unfoldable pub print_hex : ℕ → Bytes
unfolding emit digit_char
print_hex n = emit 16 (suc n) n []

unfoldable pub print_decimal : ℕ → Bytes
unfolding emit digit_char
print_decimal n = emit 10 (suc n) n []
