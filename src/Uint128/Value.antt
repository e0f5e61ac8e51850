-- ===== src/Uint128/Value.antt =====
-- The number that a `uint128_t` stands for.
use servus.Prelude.{ℕ, ◌+◌, ◌*◌, ◌<◌, ◌^◌, ◌≡◌, arith}
use servus.Uint128.{Uint128, word}

-- Both words are in the range of `uint64_t`.
pub record IsValid (x : Uint128) : Type 0 where
  pub high : x.high < word
  pub low : x.low < word

unfoldable pub value : Uint128 → ℕ
value x = x.high * word + x.low

-- The number is below 2 ^ 128.
pub value-lt : (x : Uint128) → IsValid x → value x < 2 ^ 128
unfolding value
value-lt x v = omega arith

-- The number determines the words.
pub value_injective : (x y : Uint128) → IsValid x → IsValid y → value x ≡ value y → x ≡ y
unfolding value
value_injective x y v w h = ground arith
