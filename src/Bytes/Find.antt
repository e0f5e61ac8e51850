-- ===== src/Bytes/Find.antt =====
-- What the searches find.
use servus.Prelude.{
  ℕ, suc, ◌+◌, ◌<◌, ◌≤◌, Bool, true, false, [], ◌∷◌, ◌++◌, none, some, ◌≡◌, ◌≢◌, inl, inr, refl,
  arith, All, length, take, drop, Bool-cases, Option-cases,
}
use servus.Bytes.{Bytes, codes, find, find_first_of, starts_with}

-- No byte of the text passes the test.
abbrev pub Misses : (ℕ → Bool) → Bytes → Type 0
Misses p = All (λ c. p c ≡ false)

-- The text has a first byte, which passes the test.
abbrev pub Starts : (ℕ → Bool) → Bytes → Type 0
Starts p [] = ⊥
Starts p (c ∷ s) = p c ≡ true

pub find_first_of-miss : (p : ℕ → Bool) (s : Bytes) → Misses p s → find_first_of p s ≡ none
unfolding find_first_of
find_first_of-miss p [] h = refl
find_first_of-miss p (c ∷ s) h = ground (arith, find_first_of-miss p s h.1)

pub find_first_of-hit :
    (p : ℕ → Bool) (a rest : Bytes)
    → Misses p a
    → Starts p rest
    → find_first_of p (a ++ rest) ≡ some (length a)
unfolding find_first_of
find_first_of-hit p [] [] h k = absurd k
find_first_of-hit p [] (c ∷ rest) h k = ground arith
find_first_of-hit p (x ∷ a) rest h k = ground (arith, find_first_of-hit p a rest h.1 k)

-- A search fails on a text without a match, or stops at the first match.
pub data Search (p : ℕ → Bool) (s : Bytes) : Type 0 where
  nowhere : find_first_of p s ≡ none → Misses p s → Search p s
  at :
      (i : ℕ)
      → find_first_of p s ≡ some i
      → i < length s
      → Misses p (take i s)
      → Starts p (drop i s)
      → Search p s

search_behind : (p : ℕ → Bool) (c : ℕ) (s : Bytes) → p c ≡ false → Search p s → Search p (c ∷ s)
unfolding find_first_of
search_behind p c s h (nowhere e m) = nowhere (rw (h, e)) (h, m)
search_behind p c s h (at i e lt m st) = at (suc i) (rw (h, e)) (omega arith) (h, m) st

pub search : (p : ℕ → Bool) (s : Bytes) → Search p s
unfolding find_first_of search_behind
search p [] = nowhere refl tt
search p (c ∷ s) = elim (Bool-cases (p c)) [
  | inl hit ↦ at 0 (rw hit) (omega arith) tt hit
  | inr miss ↦ search_behind p c s miss (search p s)
]

-- The separator of the scheme stands wholly inside the text.
starts_with-le : (sep s : Bytes) → starts_with sep s ≡ true → length sep ≤ length s
unfolding starts_with
starts_with-le [] s h = omega arith
starts_with-le (x ∷ sep) [] h = cc
starts_with-le (x ∷ sep) (c ∷ s) h = ground (arith, starts_with-le sep s)

pub find-le : (s sep : Bytes) (i : ℕ) → find s sep ≡ some i → i + length sep ≤ length s
unfolding find
find-le [] sep i h = ground (arith, starts_with-le sep [])
find-le (c ∷ s) sep i h = elim (Option-cases (find s sep)) [
  | inl e ↦ ground (arith, starts_with-le sep (c ∷ s))
  | inr (j, e) ↦ ground (arith, starts_with-le sep (c ∷ s), find-le s sep j e)
]

-- Behind a text without a colon the separator of the scheme is found at once.
pub find-scheme_separator :
    (a rest : Bytes)
    → All (λ c. c ≢ b':') a
    → find (a ++ (codes "://" ++ rest)) (codes "://") ≡ some (length a)
unfolding find starts_with
find-scheme_separator [] rest h = refl
find-scheme_separator (x ∷ a) rest h = ground (arith, find-scheme_separator a rest h.1)

pub find_first_of-none : (p : ℕ → Bool) (s : Bytes) → find_first_of p s ≡ none → Misses p s
unfolding find_first_of
find_first_of-none p [] h = tt
find_first_of-none p (c ∷ s) h = ground (arith, find_first_of-none p s)
