-- ===== src/Uint128/Uuid.antt =====
-- `make_UUID` and `make_uint128`.
use servus.Prelude.{
  ℕ, zero, suc, ◌+◌, ◌*◌, ◌<◌, ◌≡◌, ◌≢◌, true, some, arith, Bool-cases, inl, inr, ◌==◌, subst,
}
use servus.Uint128.{Uint128, word, make_uuid, is_uuid}
use servus.Uint128.Value.{IsValid}

in_range :
    (draws : ℕ → ℕ)
    → ((i : ℕ) → draws i < word)
    → IsValid (record { high = draws 0; low = draws 1 })
in_range draws range = record { high = range 0; low = range 1 }

-- Once the generator draws a nonzero word at an even place below twice the fuel, `make_UUID` returns
-- a valid value of nonzero high word, all draws being in range.
pub make_uuid-is_uuid :
    (fuel : ℕ) (draws : ℕ → ℕ) (k : ℕ)
    → k < fuel
    → draws (2 * k) ≢ 0
    → ((i : ℕ) → draws i < word)
    → (x : Uint128) × (make_uuid fuel draws ≡ some x) × (is_uuid x ≡ true) × IsValid x
unfolding make_uuid is_uuid
make_uuid-is_uuid zero draws k h nonzero range = absurd (omega arith)
make_uuid-is_uuid (suc fuel) draws zero h nonzero range =
    (record { high = draws 0; low = draws 1 }, ground arith, ground arith, in_range draws range)
make_uuid-is_uuid (suc fuel) draws (suc k) h nonzero range = elim (Bool-cases (draws 0 == 0)) [
  | inl again ↦ rw again (
      make_uuid-is_uuid fuel (λ i. draws (i + 2)) k (omega arith)
        (subst (λ i. draws i ≢ 0) (omega arith) nonzero) (λ i. range (i + 2)))
  | inr done ↦
      (record { high = draws 0; low = draws 1 }, ground arith, ground arith, in_range draws range)
]
