-- ===== src/Uint128.antt =====
-- `uint128_t` (servus/uint128_t.h, servus/uint128_t.cpp): a value of two 64-bit words. Each word is
-- a natural number; the wrap-around of `uint64_t` is written out.
pub mod Value
pub mod Arithmetic
pub mod Words
pub mod Compare
pub mod Text
pub mod Uuid
pub mod Stream
mod Tests
use Prim.Native.Nat.{bit_and, bit_or, bit_xor}
use servus.Prelude.{
  ℕ, zero, suc, ◌+◌, ◌-◌, ◌%◌, ◌^◌, Bool, true, false, ◌&&◌, ◌||◌, not, List, [], ◌∷◌, ◌++◌, Option,
  none, some, ltb, leb, ◌==◌, if◌then◌else◌, length, take, drop,
}
use servus.Prelude.Int.{ℤ, wrap}
use servus.Bytes.{Bytes, codes, starts_with, c_str}
use servus.Strto.{strtoull16, print_hex}

pub record Uint128 : Type 0 where
  pub high : ℕ
  pub low : ℕ

abbrev pub word : ℕ
word = 2 ^ 64

-- The constructors and the assignments of one word. The conversion of an `int` extends its sign
-- over the low word only.
unfoldable pub of_u64 : ℕ → Uint128
of_u64 low = record { high = 0; low = low }

unfoldable pub of_int : ℤ → Uint128
of_int low = record { high = 0; low = wrap word low }

unfoldable pub is_uuid : Uint128 → Bool
is_uuid x = not (x.high == 0)

unfoldable pub eq : Uint128 → Uint128 → Bool
eq a b = a.high == b.high && a.low == b.low

unfoldable pub ne : Uint128 → Uint128 → Bool
ne a b = not (a.high == b.high) || not (a.low == b.low)

unfoldable pub eq_u64 : Uint128 → ℕ → Bool
unfolding eq of_u64
eq_u64 a low = eq a (of_u64 low)

unfoldable pub ne_u64 : Uint128 → ℕ → Bool
unfolding ne of_u64
ne_u64 a low = ne a (of_u64 low)

unfoldable pub lt : Uint128 → Uint128 → Bool
lt a b = if ltb a.high b.high then true else if ltb b.high a.high then false else ltb a.low b.low

unfoldable pub gt : Uint128 → Uint128 → Bool
gt a b = if ltb b.high a.high then true else if ltb a.high b.high then false else ltb b.low a.low

unfoldable pub le : Uint128 → Uint128 → Bool
le a b = if ltb a.high b.high then true else if ltb b.high a.high then false else leb a.low b.low

unfoldable pub ge : Uint128 → Uint128 → Bool
ge a b = if ltb b.high a.high then true else if ltb a.high b.high then false else leb b.low a.low

-- `++_low`, and `++_high` if that wrapped to zero.
unfoldable pub increment : Uint128 → Uint128
increment x =
    let low = (x.low + 1) % word in
    record { high = (if low == 0 then (x.high + 1) % word else x.high); low = low }

unfoldable pub decrement : Uint128 → Uint128
decrement x = record {
  high = if x.low == 0 then (x.high + word - 1) % word else x.high;
  low = (x.low + word - 1) % word;
}

unfoldable pub add_assign : Uint128 → Uint128 → Uint128
add_assign x rhs =
    let low = (x.low + rhs.low) % word in
    record {
      high =
          if ltb low x.low
          then (x.high + (rhs.high + 1) % word) % word
          else (x.high + rhs.high) % word;
      low = low;
    }

unfoldable pub add : Uint128 → Uint128 → Uint128
unfolding add_assign
add a b = add_assign a b

unfoldable pub add_u64 : Uint128 → ℕ → Uint128
add_u64 a b =
    let low = (a.low + b) % word in
    record { high = (if ltb low a.low then (a.high + 1) % word else a.high); low = low }

unfoldable pub sub_u64 : Uint128 → ℕ → Uint128
sub_u64 a b =
    let low = (a.low + word - b) % word in
    record { high = (if ltb a.low low then (a.high + word - 1) % word else a.high); low = low }

unfoldable pub and : Uint128 → Uint128 → Uint128
and a b = record { high = bit_and a.high b.high; low = bit_and a.low b.low }

unfoldable pub or : Uint128 → Uint128 → Uint128
or a b = record { high = bit_or a.high b.high; low = bit_or a.low b.low }

-- `std::hash<uint64_t>` is the library's, so it is an argument.
unfoldable pub hash : (ℕ → ℕ) → Uint128 → ℕ
hash forward x = bit_xor (forward x.high) (forward x.low)

-- `str.length() - 3` is a `size_t`, and `substr` throws where it starts behind the end: `none`.
unfoldable pub get_short_string : Uint128 → Option Bytes
get_short_string x =
    let str = print_hex x.high ++ print_hex x.low in
    let start = (length str + word - 3) % word in
    if ltb (length str) start then none else some (take 3 str ++ codes ".." ++ drop start str)

-- `snprintf` writes at most 33 characters and the terminating zero into the buffer of 34.
unfoldable pub get_string : Uint128 → Bytes
get_string x = take 33 (print_hex x.high ++ b':' ∷ print_hex x.low)

-- `operator<<`.
unfoldable pub print : Uint128 → Bytes
print x = if x.high == 0 then print_hex x.low else print_hex x.high ++ b':' ∷ print_hex x.low

-- The text behind the separator, which is a colon or its escape `\058`; `none` where the
-- assertion on the separator fails.
unfoldable pub after_separator : Bytes → Option Bytes
after_separator next =
    if starts_with (codes "\\058") next
    then some (drop 4 next)
    else elim next [ [] ↦ none | c ∷ rest ↦ if c == b':' then some rest else none ]

-- Whether `next` points to the terminating zero.
abbrev at_end : Bytes → Bool
at_end [] = true
at_end (c ∷ s) = c == 0

-- The assignment from a text that is not empty.
unfoldable pub parse_text : Bytes → Option Uint128
unfolding after_separator
parse_text from =
    let (high, next) = strtoull16 from in
    if length next == length from
    then none
    else if at_end next
    then some (record { high = 0; low = high })
    else elim (after_separator next) [
      | none ↦ none
      | some rest ↦ some (record { high = high; low = (strtoull16 rest).0 })
    ]

-- Assignment from a string; `none` where one of the two assertions fails.
unfoldable pub parse : Bytes → Option Uint128
parse [] = some (record { high = 0; low = 0 })
parse (c ∷ s) = parse_text (c ∷ s)

-- `make_uint128`. The MD5 digest of a C string is an argument: its high and its low word.
unfoldable pub make_uint128 : (Bytes → ℕ × ℕ) → Bytes → Uint128
unfolding c_str
make_uint128 md5 string = let (high, low) = md5 (c_str string) in record { high = high; low = low }

-- `make_UUID`, with the generator as the stream of the numbers that it draws. The loop draws a
-- high and a low word until the high word is not zero; `none` when the fuel is used up.
unfoldable pub make_uuid : ℕ → (ℕ → ℕ) → Option Uint128
make_uuid zero draws = none
make_uuid (suc fuel) draws =
    let again = make_uuid fuel (λ i. draws (i + 2)) in
    if draws 0 == 0 then again else some (record { high = draws 0; low = draws 1 })
