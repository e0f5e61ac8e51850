-- ===== src/Uint128/Compare.antt =====
-- The comparisons of `uint128_t` compare the numbers.
use servus.Prelude.{◌<◌, ◌≤◌, ◌≡◌, ◌≢◌, ◌↔◌, true, arith}
use servus.Uint128.{Uint128, eq, ne, lt, gt, le, ge}
use servus.Uint128.Value.{IsValid, value}

-- Each of the six comparisons of two valid values is true exactly when the numbers compare so.
pub compare-value :
    (a b : Uint128)
    → IsValid a
    → IsValid b
    → ((lt a b ≡ true) ↔ (value a < value b))
      × ((gt a b ≡ true) ↔ (value b < value a))
      × ((le a b ≡ true) ↔ (value a ≤ value b))
      × ((ge a b ≡ true) ↔ (value b ≤ value a))
      × ((eq a b ≡ true) ↔ (value a ≡ value b))
      × ((ne a b ≡ true) ↔ (value a ≢ value b))
unfolding lt gt le ge eq ne value
compare-value a b va vb =
    (ground arith, ground arith, ground arith, ground arith, ground arith, ground arith)
