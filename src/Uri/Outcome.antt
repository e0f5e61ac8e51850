-- ===== src/Uri/Outcome.antt =====
-- How a piece of the parser ends: it returns, throws, fails an assertion, or (in the model alone)
-- uses up the fuel of a loop.
use servus.Prelude.{Bool, true, false}
use servus.Bytes.{Bytes}

-- The exceptions of uri.cpp. `uri_parse` carries the text of the URI, `runtime_error` its message.
pub data Exception : Type 0 where
  out_of_range invalid_argument : Exception
  runtime_error uri_parse : Bytes → Exception

pub data Outcome {ℓ} (A : Type ℓ) : Type ℓ where
  ok : A → Outcome A
  throw : Exception → Outcome A
  abort : Outcome A
  no_fuel : Outcome A

infixl 5 ◌>>=◌ ◌>>◌
abbrev pub ◌>>=◌ {ℓ κ} : {A : Type ℓ} {B : Type κ} → Outcome A → (A → Outcome B) → Outcome B
ok a >>= f = f a
throw e >>= f = throw e
abort >>= f = abort
no_fuel >>= f = no_fuel

abbrev pub ◌>>◌ {ℓ} : {B : Type ℓ} → Outcome (Unit {0}) → Outcome B → Outcome B
m >> k = m >>= λ _. k

-- `assert`, and a guard that throws.
abbrev pub assert : Bool → Outcome (Unit {0})
assert true = ok tt
assert false = abort

abbrev pub throw_if : Bool → Exception → Outcome (Unit {0})
throw_if true e = throw e
throw_if false e = ok tt
