-- ===== src/Uint128/Words.antt =====
-- The other constructors and assignments of `uint128_t`, and its archives (servus/uint128_t.h). An
-- archive is the list of the words that were written to it.
use servus.Prelude.{ℕ, ◌≡◌, List, [], ◌∷◌, ◌++◌, Option, none, some, refl}
use servus.Prelude.Int.{ℤ, wrap}
use servus.Bytes.{Bytes, c_str, codes}
use servus.Uint128.{Uint128, word, parse, get_string, make_uint128}

unfoldable pub of_copy : Uint128 → Uint128
of_copy rhs = record { high = rhs.high; low = rhs.low }

unfoldable pub of_words : ℕ → ℕ → Uint128
of_words high low = record { high = high; low = low }

-- From a string, by the assignment.
unfoldable pub of_string : Bytes → Option Uint128
unfolding parse
of_string string = parse string

unfoldable pub assign : Uint128 → Uint128 → Uint128
assign x rhs = record x { high = rhs.high; low = rhs.low }

unfoldable pub assign_u64 : Uint128 → ℕ → Uint128
assign_u64 x rhs = record x { high = 0; low = rhs }

unfoldable pub assign_int : Uint128 → ℤ → Uint128
assign_int x rhs = record x { high = 0; low = wrap word rhs }

-- `make_uint128` of a string that may hold zeros.
unfoldable pub make_uint128_string : (Bytes → ℕ × ℕ) → Bytes → Uint128
unfolding make_uint128 c_str
make_uint128_string md5 string = make_uint128 md5 (c_str string)

unfoldable pub to_string : Uint128 → Bytes
unfolding get_string
to_string x = get_string x

abbrev pub type_name : Bytes
type_name = codes "servus::uint128_t"

-- `serialize`, for an archive that writes and for one that reads; `none` where it has no more words.
unfoldable pub save : Uint128 → List ℕ → List ℕ
save x ar = ar ++ (x.low ∷ x.high ∷ [])

unfoldable pub load : List ℕ → Option (Uint128 × List ℕ)
load [] = none
load (low ∷ []) = none
load (low ∷ high ∷ ar) = some (record { high = high; low = low }, ar)

-- A value that was saved first is the one that is loaded first, and the rest of the archive is left.
load-save : (x : Uint128) (ar : List ℕ) → load (save x [] ++ ar) ≡ some (x, ar)
unfolding load save
load-save x ar = refl
