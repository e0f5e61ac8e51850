-- ===== src/Uint128/Text.antt =====
-- The texts of a `uint128_t` and how they are read back.
use native.Mathlib.Decide.{dec_le}
use servus.Prelude.{
  ℕ, zero, suc, ◌/◌, ◌%◌, ◌⊎◌, ◌+◌, ◌-◌, ◌<◌, ◌≤◌, ◌≡◌, ◌∙◌, ◌↔◌, ◌≢◌, sym, append-nil, All-append,
  ap, refl, arith, [], ◌∷◌, ◌++◌, some, none, All, length, false, Bool-cases, inl, inr, lt→ltb,
  subst, ==_iff, ◌==◌, length-append, take_all, length-take, length-drop, take, drop,
}
use servus.Bytes.{Bytes, codes, starts_with}
use servus.Strto.{print_hex, strtoull16, begins_with_digit, digit, digit_char, digit_value, emit}
use servus.Strto.Digits.{IsPlain, emit-IsPlain, length-emit}
use servus.Strto.Scan.{strtoull16-print_hex, length-print_hex}
use servus.Uint128.{
  Uint128, word, print, get_string, get_short_string, parse, parse_text, after_separator,
}
use servus.Uint128.Value.{IsValid}

pub print_hex-IsPlain : (n : ℕ) → All IsPlain (print_hex n)
unfolding print_hex
print_hex-IsPlain n = emit-IsPlain 16 (omega arith) (omega arith) (suc n) n [] tt

length-print_hex-le : (n : ℕ) → n < word → length (print_hex n) ≤ 16
unfolding print_hex
length-print_hex-le n h = omega (arith, length-emit 16 (suc n) n [] (omega arith) h)

strtoull16_whole : (n : ℕ) → n < word → strtoull16 (print_hex n) ≡ (n, [])
strtoull16_whole n h =
    ap strtoull16 (sym (append-nil (print_hex n))) ∙ strtoull16-print_hex n [] h tt refl

-- A word below 16 is printed as one character, any other as at least two.
length-emit-lt : (f n : ℕ) (out : Bytes) → length out < length (emit 16 (suc f) n out)
unfolding emit
length-emit-lt zero n out = ground arith
length-emit-lt (suc f) n out = ground (arith, length-emit-lt f (n / 16) (digit_char (n % 16) ∷ out))

print_hex_short : (n : ℕ) → n < 16 → length (print_hex n) ≡ 1
unfolding print_hex
print_hex_short n h = ground arith

short_of_length : (n : ℕ) → length (print_hex n) < 2 → n < 16
unfolding print_hex
short_of_length zero h = omega arith
short_of_length (suc n) h =
    ground (arith, length-emit-lt n (suc n / 16) (digit_char (suc n % 16) ∷ []))

parse-parse_text : (s : Bytes) → 0 < length s → parse s ≡ parse_text s
unfolding parse
parse-parse_text [] h = absurd (omega arith)
parse-parse_text (c ∷ s) h = refl

parse_text-short :
    (s : Bytes) (n : ℕ)
    → strtoull16 s ≡ (n, [])
    → 0 < length s
    → parse s ≡ some (record { high = 0; low = n })
unfolding parse_text
parse_text-short s n e h = rw (parse-parse_text s h, e) (ground arith)

parse_text-long :
    (s : Bytes) (n c : ℕ) (next rest : Bytes)
    → strtoull16 s ≡ (n, c ∷ next)
    → length (c ∷ next) < length s
    → c ≢ 0
    → after_separator (c ∷ next) ≡ some rest
    → parse s ≡ some (record { high = n; low = (strtoull16 rest).0 })
unfolding parse_text
parse_text-long s n c next rest e h nonzero sep =
    rw (parse-parse_text s (omega arith), e) (ground arith)

-- Two printed numbers behind one another, with a separator that `after_separator` skips.
parse_pair :
    (x : Uint128) (c : ℕ) (sep : Bytes)
    → IsValid x
    → c ≢ 0
    → All IsPlain (c ∷ sep)
    → begins_with_digit 16 (c ∷ sep) ≡ false
    → after_separator (c ∷ sep ++ print_hex x.low) ≡ some (print_hex x.low)
    → parse (print_hex x.high ++ (c ∷ sep ++ print_hex x.low)) ≡ some x
parse_pair x c sep v nonzero plain stop skips =
    parse_text-long _ x.high c (sep ++ print_hex x.low) (print_hex x.low)
      (strtoull16-print_hex x.high (c ∷ sep ++ print_hex x.low) v.high
        (All-append IsPlain (c ∷ sep) (print_hex x.low) plain (print_hex-IsPlain x.low)) stop)
      (omega (
        arith,
        length-append (print_hex x.high) (c ∷ sep ++ print_hex x.low),
        length-print_hex x.high,
      ))
      nonzero skips
    ∙ ap (λ (r : ℕ × Bytes). some (record { high = x.high; low = r.0 }))
        (strtoull16_whole x.low v.low)

-- Behind a colon the text goes on.
after_separator-colon : (s : Bytes) → after_separator (b':' ∷ s) ≡ some s
unfolding after_separator starts_with
after_separator-colon s = refl

after_separator-escape : (s : Bytes) → after_separator (codes "\\058" ++ s) ≡ some s
unfolding after_separator starts_with
after_separator-escape s = refl

-- The buffer of `getString` holds the whole text of a valid value: nothing is cut.
pub get_string-whole :
    (x : Uint128) → IsValid x → get_string x ≡ print_hex x.high ++ b':' ∷ print_hex x.low
unfolding get_string
get_string-whole x v = take_all 33 _ (
    omega (
      arith,
      length-append (print_hex x.high) (b':' ∷ print_hex x.low),
      length-print_hex-le x.high v.high,
      length-print_hex-le x.low v.low,
    ))

-- Assigning the full string of a valid value gives the value back, and no assertion fails.
pub parse-get_string : (x : Uint128) → IsValid x → parse (get_string x) ≡ some x
unfolding digit digit_value
parse-get_string x v = rw (get_string-whole x v) (
    parse_pair x b':' [] v (omega arith) (omega arith) refl
      (after_separator-colon (print_hex x.low)))

-- Assigning what `operator<<` writes of a valid value gives the value back, also where it writes
-- the low word alone.
pub parse-print : (x : Uint128) → IsValid x → parse (print x) ≡ some x
unfolding print digit digit_value
parse-print x v = elim (Bool-cases (x.high == 0)) [
  | inl short ↦ rw short (
      parse_text-short _ x.low (strtoull16_whole x.low v.low) (length-print_hex x.low)
      ∙ ap (λ h. some (record { high = h; low = x.low })) (sym ((==_iff x.high 0).0 short)))
  | inr long ↦ rw long (
      parse_pair x b':' [] v (omega arith) (omega arith) refl
        (after_separator-colon (print_hex x.low)))
]

-- The escaped colon `\058` between the words is read like the colon itself.
pub parse_escaped :
    (x : Uint128)
    → IsValid x
    → parse (print_hex x.high ++ (codes "\\058" ++ print_hex x.low)) ≡ parse (get_string x)
unfolding digit digit_value
parse_escaped x v =
    parse_pair x 92 (48 ∷ 53 ∷ 56 ∷ []) v (omega arith) (omega arith) refl
      (after_separator-escape (print_hex x.low))
    ∙ sym (parse-get_string x v)

-- The text of both words, whose ends the short string shows.
abbrev words : Uint128 → Bytes
words x = print_hex x.high ++ print_hex x.low

-- It has at least three characters unless both words are one digit, and at most 32.
length-words :
    (x : Uint128)
    → IsValid x
    → ((x.high < 16) × (x.low < 16) → length (words x) ≡ 2)
      × (length (words x) < 3 → (x.high < 16) × (x.low < 16))
      × (length (words x) ≤ 32)
length-words x v =
    let total = length-append (print_hex x.high) (print_hex x.low) in
    (
      λ h. omega (arith, total, print_hex_short x.high h.0, print_hex_short x.low h.1),
      λ h.
          let pos_high = length-print_hex x.high in
          let pos_low = length-print_hex x.low in
          (
            short_of_length x.high (omega (arith, total)),
            short_of_length x.low (omega (arith, total)),
          ),
      omega (arith, total, length-print_hex-le x.high v.high, length-print_hex-le x.low v.low),
    )

-- The three parts of the short string.
length-parts :
    (s : Bytes) → 3 ≤ length s → length (take 3 s ++ codes ".." ++ drop (length s - 3) s) ≡ 8
length-parts s h = omega (
  arith,
  length-append (take 3 s ++ codes "..") (drop (length s - 3) s),
  length-append (take 3 s) (codes ".."),
  length-take 3 s h,
  length-drop (length s - 3) s,
)

get_short_string-cases :
    (x : Uint128)
    → length (words x) ≤ 32
    → ((length (words x) < 3) × (get_short_string x ≡ none))
      ⊎ ((3 ≤ length (words x))
          × (get_short_string x
              ≡ some (take 3 (words x) ++ codes ".." ++ drop (length (words x) - 3) (words x))))
unfolding get_short_string
get_short_string-cases x h = elim (dec_le 3 (length (words x))) [
  | yes long ↦ inr (
    long,
    (let e : (length (words x) + word - 3) % word ≡ length (words x) - 3 = omega arith in
        rw e (ground arith)),
  )
  | no short ↦ inl (
    omega arith,
    rw (lt→ltb (length (words x)) ((length (words x) + word - 3) % word) (omega arith)),
  )
]

-- The short string throws (`none`) exactly when both words are below 16; otherwise it has eight
-- characters.
pub get_short_string-throws :
    (x : Uint128)
    → IsValid x
    → ((get_short_string x ≡ none) ↔ ((x.high < 16) × (x.low < 16)))
      × ((s : Bytes) → get_short_string x ≡ some s → length s ≡ 8)
get_short_string-throws x v =
    let (short, long, fits) = length-words x v in
    elim (get_short_string-cases x fits) [
      | inl (len, throws) ↦ (((λ _. long len), (λ _. throws)), (λ s e. cc))
      | inr (len, returns) ↦ (
        ((λ e. cc), (λ h. absurd (omega (arith, short h)))),
        (λ s e. subst (λ t. length t ≡ 8) (cc) (length-parts (words x) len)),
      )
    ]
