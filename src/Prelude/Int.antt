-- ===== src/Prelude/Int.antt =====
-- Signed integers, as the conversions between `int` and the unsigned types read them.
use Prim.Native.Nat.{ℕ, suc, ◌-◌, ◌%◌}

-- `negsuc n` is -(n + 1).
pub data ℤ : Type 0 where
  pos : ℕ → ℤ
  negsuc : ℕ → ℤ

-- The value of an integer converted to an unsigned type of modulus `m`.
abbrev pub wrap : ℕ → ℤ → ℕ
wrap m (pos n) = n % m
wrap m (negsuc n) = m - suc (n % m)
