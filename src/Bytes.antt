-- ===== src/Bytes.antt =====
-- A `std::string` is a list of bytes. The searches of `std::string` that the library calls, with
-- `npos` as `none`; `substr` cuts at `pos`, for `count` bytes or, with `none`, to the end.
pub mod Order
pub mod Find
use Prim.Native.Char.{code}
use Prim.Native.String.{String}
use servus.Prelude.{
  ℕ, zero, suc, Bool, true, false, ◌&&◌, ◌||◌, not, List, [], ◌∷◌, ◌++◌, Option, none, some, ◌==◌,
  leb, length, take, drop, if◌then◌else◌,
}

abbrev pub Bytes : Type 0
Bytes = List ℕ

-- The code points of a literal, which are its bytes as long as it is ASCII.
abbrev pub codes : String → Bytes
codes String.[] = []
codes (String.◌∷◌ c s) = code c ∷ codes s

unfoldable pub contains : Bytes → ℕ → Bool
contains [] c = false
contains (x ∷ xs) c = c == x || contains xs c

unfoldable pub find_first_of : (ℕ → Bool) → Bytes → Option ℕ
find_first_of p [] = none
find_first_of p (c ∷ s) =
    let later : Option ℕ = elim (find_first_of p s) [ none ↦ none | some i ↦ some (suc i) ] in
    if p c then some 0 else later

unfoldable pub starts_with : Bytes → Bytes → Bool
starts_with [] s = true
starts_with (x ∷ xs) [] = false
starts_with (x ∷ xs) (c ∷ s) = x == c && starts_with xs s

unfoldable pub find : Bytes → Bytes → Option ℕ
find [] sep = if starts_with sep [] then some 0 else none
find (c ∷ s) sep =
    let later : Option ℕ = elim (find s sep) [ none ↦ none | some i ↦ some (suc i) ] in
    if starts_with sep (c ∷ s) then some 0 else later

-- The text that `c_str()` shows to a C function: up to the first zero byte.
unfoldable pub c_str : Bytes → Bytes
c_str [] = []
c_str (c ∷ s) = if c == 0 then [] else c ∷ c_str s
