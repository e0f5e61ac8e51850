-- ===== src/Uint128/Arithmetic.antt =====
-- The arithmetic of `uint128_t` is arithmetic modulo 2 ^ 128.
use servus.Prelude.{ℕ, ◌+◌, ◌-◌, ◌%◌, ◌<◌, ◌^◌, ◌≡◌, arith}
use servus.Uint128.{Uint128, word, increment, decrement, add, add_u64, sub_u64}
use servus.Uint128.Value.{IsValid, value}

-- The sum of two valid values is valid and is their sum modulo 2 ^ 128.
pub value-add :
    (a b : Uint128)
    → IsValid a
    → IsValid b
    → IsValid (add a b) × (value (add a b) ≡ (value a + value b) % 2 ^ 128)
unfolding add value
value-add a b va vb = (ground arith, ground arith)

-- The sum of a valid value and a 64-bit word is valid and is their sum modulo 2 ^ 128.
value-add_u64 :
    (a : Uint128) (b : ℕ)
    → IsValid a
    → b < word
    → IsValid (add_u64 a b) × (value (add_u64 a b) ≡ (value a + b) % 2 ^ 128)
unfolding add_u64 value
value-add_u64 a b va vb = (ground arith, ground arith)

-- Subtracting a 64-bit word from a valid value gives a valid value, the difference modulo 2 ^ 128.
value-sub_u64 :
    (a : Uint128) (b : ℕ)
    → IsValid a
    → b < word
    → IsValid (sub_u64 a b) × (value (sub_u64 a b) ≡ (value a + 2 ^ 128 - b) % 2 ^ 128)
unfolding sub_u64 value
value-sub_u64 a b va vb = (ground arith, ground arith)

-- Incrementing a valid value gives a valid value, one more modulo 2 ^ 128.
value-increment :
    (a : Uint128)
    → IsValid a
    → IsValid (increment a) × (value (increment a) ≡ (value a + 1) % 2 ^ 128)
unfolding increment value
value-increment a va = (ground arith, ground arith)

-- Decrementing a valid value gives a valid value, one less modulo 2 ^ 128.
value-decrement :
    (a : Uint128)
    → IsValid a
    → IsValid (decrement a) × (value (decrement a) ≡ (value a + 2 ^ 128 - 1) % 2 ^ 128)
unfolding decrement value
value-decrement a va = (ground arith, ground arith)

-- On a valid value decrement undoes increment and increment undoes decrement, also where they wrap.
pub decrement-increment :
    (a : Uint128) → IsValid a → (decrement (increment a) ≡ a) × (increment (decrement a) ≡ a)
unfolding decrement increment
decrement-increment a va = (ground arith, ground arith)

-- On a valid value, and a 64-bit word where there is one, each of the operations with a word, with one
-- and with minus one gives a valid value, which is the sum or the difference modulo 2 ^ 128.
pub value-word_operations :
    (a : Uint128) (b : ℕ)
    → IsValid a
    → b < word
    → (IsValid (add_u64 a b) × (value (add_u64 a b) ≡ (value a + b) % 2 ^ 128))
      × (IsValid (sub_u64 a b) × (value (sub_u64 a b) ≡ (value a + 2 ^ 128 - b) % 2 ^ 128))
      × (IsValid (increment a) × (value (increment a) ≡ (value a + 1) % 2 ^ 128))
      × (IsValid (decrement a) × (value (decrement a) ≡ (value a + 2 ^ 128 - 1) % 2 ^ 128))
value-word_operations a b v h =
    (value-add_u64 a b v h, value-sub_u64 a b v h, value-increment a v, value-decrement a v)
