-- ===== src/Uint128/Tests.antt =====
-- Instances of the theorems on `uint128_t` at concrete words.
use servus.Prelude.{
  refl, ◌++◌, ℕ, ◌≡◌, ◌≢◌, ◌↔◌, ◌<◌, ◌≤◌, ◌+◌, ◌-◌, ◌%◌, ◌^◌, true, none, some, arith, length, zero,
  suc,
}
use servus.Bytes.{Bytes}
use servus.Uint128.{
  Uint128, word, add, add_u64, sub_u64, increment, decrement, lt, gt, le, ge, eq, ne, print,
  get_short_string,
}
use servus.Uint128.Value.{IsValid, value}
use servus.Uint128.Arithmetic.{value-add, value-word_operations}
use servus.Uint128.Compare.{compare-value}
use servus.Bytes.{codes}
use servus.Strto.{is_space}
use servus.Uint128.Stream.{IsSpaces, EndsWord, read, read-print}
use servus.Uint128.Text.{get_short_string-throws}

-- A low word at its end, so that a sum carries.
abbrev carrying : Uint128
carrying = record { high = 4660; low = 18446744073709551615 }

abbrev small : Uint128
small = record { high = 3; low = 9 }

carrying-IsValid : IsValid carrying
carrying-IsValid = record { high = omega arith; low = omega arith }

small-IsValid : IsValid small
small-IsValid = record { high = omega arith; low = omega arith }

value-add_example :
    IsValid (add carrying small)
    × (value (add carrying small) ≡ (value carrying + value small) % 2 ^ 128)
value-add_example = value-add carrying small carrying-IsValid small-IsValid

value-word_operations_example :
    (IsValid (add_u64 carrying 5) × (value (add_u64 carrying 5) ≡ (value carrying + 5) % 2 ^ 128))
    × (IsValid (sub_u64 carrying 5)
        × (value (sub_u64 carrying 5) ≡ (value carrying + 2 ^ 128 - 5) % 2 ^ 128))
    × (IsValid (increment carrying) × (value (increment carrying) ≡ (value carrying + 1) % 2 ^ 128))
    × (IsValid (decrement carrying)
        × (value (decrement carrying) ≡ (value carrying + 2 ^ 128 - 1) % 2 ^ 128))
value-word_operations_example = value-word_operations carrying 5 carrying-IsValid (omega arith)

compare-value_example :
    ((lt small carrying ≡ true) ↔ (value small < value carrying))
    × ((gt small carrying ≡ true) ↔ (value carrying < value small))
    × ((le small carrying ≡ true) ↔ (value small ≤ value carrying))
    × ((ge small carrying ≡ true) ↔ (value carrying ≤ value small))
    × ((eq small carrying ≡ true) ↔ (value small ≡ value carrying))
    × ((ne small carrying ≡ true) ↔ (value small ≢ value carrying))
compare-value_example = compare-value small carrying small-IsValid carrying-IsValid

get_short_string-throws_example :
    ((get_short_string small ≡ none) ↔ ((small.high < 16) × (small.low < 16)))
    × ((s : Bytes) → get_short_string small ≡ some s → length s ≡ 8)
get_short_string-throws_example = get_short_string-throws small small-IsValid

-- A generator whose first two words are zero.
abbrev draws : ℕ → ℕ
draws (suc (suc i)) = 5
draws i = 0

draws_range : (i : ℕ) → draws i < word
draws_range zero = omega arith
draws_range (suc zero) = omega arith
draws_range (suc (suc i)) = omega arith

spaced : IsSpaces (codes " ")
unfolding is_space
spaced = (refl, tt)

next_line : EndsWord (codes "\nnext")
unfolding is_space
next_line = refl

read-print_example :
    read (codes " " ++ (print carrying ++ codes "\nnext")) ≡ some (carrying, codes "\nnext")
read-print_example =
    read-print carrying (codes " ") (codes "\nnext") carrying-IsValid spaced next_line
