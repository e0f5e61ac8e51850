-- ===== src/Uint128/Stream.antt =====
-- The stream operators of `uint128_t` (servus/uint128_t.h).
use servus.Prelude.{
  ℕ, ◌<◌, true, false, [], ◌∷◌, ◌++◌, Option, none, some, ◌≡◌, refl, ◌∙◌, ap, arith, All,
  if◌then◌else◌, Bool-cases, inl, inr, ◌==◌, length, length-append, All-append,
}
use servus.Bytes.{Bytes}
use servus.Strto.{is_space, skip_spaces, print_hex}
use servus.Strto.Digits.{IsPlain}
use servus.Uint128.{Uint128, parse, print}
use servus.Uint128.Value.{IsValid}
use servus.Strto.Scan.{length-print_hex}
use servus.Uint128.Text.{parse-print, print_hex-IsPlain}

-- The characters before the next space.
unfoldable pub take_word : Bytes → Bytes × Bytes
unfolding is_space
take_word [] = ([], [])
take_word (c ∷ s) =
    let rest = take_word s in if is_space c then ([], c ∷ s) else (c ∷ rest.0, rest.1)

-- The assignment of the word, with what is left of the stream.
unfoldable pub assign : Bytes × Bytes → Option (Uint128 × Bytes)
unfolding parse
assign (word, rest) = elim (parse word) [ none ↦ none | some x ↦ some (x, rest) ]

-- `operator>>`: spaces are skipped, and a word is assigned.
unfoldable pub read : Bytes → Option (Uint128 × Bytes)
unfolding assign take_word skip_spaces
read stream = assign (take_word (skip_spaces stream))

-- A stream that has ended, or goes on with a space.
abbrev pub EndsWord : Bytes → Type 0
EndsWord [] = Unit
EndsWord (c ∷ s) = is_space c ≡ true

abbrev pub IsSpaces : Bytes → Type 0
IsSpaces s = All (λ c. is_space c ≡ true) s

abbrev IsWord : Bytes → Type 0
IsWord s = All (λ c. is_space c ≡ false) s

take_word-append : (w rest : Bytes) → IsWord w → EndsWord rest → take_word (w ++ rest) ≡ (w, rest)
unfolding take_word
take_word-append [] [] h e = refl
take_word-append [] (c ∷ rest) h e = rw (e, take_word) refl
take_word-append (c ∷ w) rest h e = rw (h.0, take_word, take_word-append w rest h.1 e) refl

skip_spaces-append :
    (spaces s : Bytes) → IsSpaces spaces → skip_spaces (spaces ++ s) ≡ skip_spaces s
unfolding skip_spaces
skip_spaces-append [] s h = refl
skip_spaces-append (c ∷ spaces) s h = rw (h.0, skip_spaces) (skip_spaces-append spaces s h.1)

skip_spaces-word : (w rest : Bytes) → 0 < length w → IsWord w → skip_spaces (w ++ rest) ≡ w ++ rest
unfolding skip_spaces
skip_spaces-word [] rest l h = absurd (omega (arith, l))
skip_spaces-word (c ∷ w) rest l h = rw (h.0, skip_spaces) refl

IsPlain-IsWord : (s : Bytes) → All IsPlain s → IsWord s
unfolding is_space
IsPlain-IsWord [] h = tt
IsPlain-IsWord (c ∷ s) (p, h) = (ground arith, IsPlain-IsWord s h)

print_hex-IsWord : (n : ℕ) → IsWord (print_hex n)
print_hex-IsWord n = IsPlain-IsWord (print_hex n) (print_hex-IsPlain n)

print-IsWord : (x : Uint128) → IsWord (print x) × (0 < length (print x))
unfolding print is_space
print-IsWord x = elim (Bool-cases (x.high == 0)) [
  | inl short ↦ rw (short, print) (print_hex-IsWord x.low, length-print_hex x.low)
  | inr long ↦
      rw (long, print)
        (
          All-append (λ c. is_space c ≡ false) (print_hex x.high) (b':' ∷ print_hex x.low)
              (print_hex-IsWord x.high) (refl, print_hex-IsWord x.low),
          omega (
            arith,
            length-append (print_hex x.high) (b':' ∷ print_hex x.low),
            length-print_hex x.high,
          ),
        )
]

assigned : (w rest : Bytes) (x : Uint128) → parse w ≡ some x → assign (w, rest) ≡ some (x, rest)
unfolding assign
assigned w rest x p = rw (p, assign) refl

word_read :
    (spaces w rest : Bytes) (x : Uint128)
    → IsSpaces spaces
    → IsWord w
    → 0 < length w
    → EndsWord rest
    → parse w ≡ some x
    → read (spaces ++ (w ++ rest)) ≡ some (x, rest)
unfolding read
word_read spaces w rest x sp h l e p =
    ap (λ s. assign (take_word s))
      (skip_spaces-append spaces (w ++ rest) sp ∙ skip_spaces-word w rest l h)
    ∙ ap assign (take_word-append w rest h e)
    ∙ assigned w rest x p

-- Reading what `operator<<` has written of a valid value, behind any spaces and before the end of the
-- stream or a space, gives the value back and leaves the rest of the stream.
pub read-print :
    (x : Uint128) (spaces rest : Bytes)
    → IsValid x
    → IsSpaces spaces
    → EndsWord rest
    → read (spaces ++ (print x ++ rest)) ≡ some (x, rest)
read-print x spaces rest v sp e =
    let (h, l) = print-IsWord x in word_read spaces (print x) rest x sp h l e (parse-print x v)
