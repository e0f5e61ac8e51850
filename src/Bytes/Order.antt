-- ===== src/Bytes/Order.antt =====
-- The order of `std::string`: `compare` byte by byte, a proper prefix first.
use servus.Prelude.{ℕ, List, [], ◌∷◌, ◌≡◌, refl, arith, compare, Ordering, Bool, true, false}

unfoldable pub cmp : List ℕ → List ℕ → Ordering
cmp [] [] = Ordering.eq
cmp [] (y ∷ ys) = Ordering.lt
cmp (x ∷ xs) [] = Ordering.gt
cmp (x ∷ xs) (y ∷ ys) = elim (compare x y) [
  | Ordering.lt ↦ Ordering.lt
  | Ordering.gt ↦ Ordering.gt
  | Ordering.eq ↦ cmp xs ys
]

pub cmp_refl : (a : List ℕ) → cmp a a ≡ Ordering.eq
unfolding cmp
cmp_refl [] = refl
cmp_refl (x ∷ xs) = ground (arith, cmp_refl xs)

pub cmp-eq : (a b : List ℕ) → cmp a b ≡ Ordering.eq → a ≡ b
unfolding cmp
cmp-eq [] [] h = refl
cmp-eq [] (y ∷ ys) h = ground arith
cmp-eq (x ∷ xs) [] h = ground arith
cmp-eq (x ∷ xs) (y ∷ ys) h = ground (arith, cmp-eq xs ys)

pub cmp-gt : (a b : List ℕ) → cmp a b ≡ Ordering.gt → cmp b a ≡ Ordering.lt
unfolding cmp
cmp-gt [] [] h = ground arith
cmp-gt [] (y ∷ ys) h = ground arith
cmp-gt (x ∷ xs) [] h = refl
cmp-gt (x ∷ xs) (y ∷ ys) h = ground (arith, cmp-gt xs ys)

pub cmp-lt : (a b : List ℕ) → cmp a b ≡ Ordering.lt → cmp b a ≡ Ordering.gt
unfolding cmp
cmp-lt [] [] h = ground arith
cmp-lt [] (y ∷ ys) h = refl
cmp-lt (x ∷ xs) [] h = ground arith
cmp-lt (x ∷ xs) (y ∷ ys) h = ground (arith, cmp-lt xs ys)

pub cmp_trans :
    (a b c : List ℕ) → cmp a b ≡ Ordering.lt → cmp b c ≡ Ordering.lt → cmp a c ≡ Ordering.lt
unfolding cmp
cmp_trans [] [] c h k = ground arith
cmp_trans [] (y ∷ ys) [] h k = ground arith
cmp_trans [] (y ∷ ys) (z ∷ zs) h k = refl
cmp_trans (x ∷ xs) [] c h k = ground arith
cmp_trans (x ∷ xs) (y ∷ ys) [] h k = ground arith
cmp_trans (x ∷ xs) (y ∷ ys) (z ∷ zs) h k = ground (arith, cmp_trans xs ys zs)

abbrev pub str_eq : List ℕ → List ℕ → Bool
str_eq a b = elim (cmp a b) [ Ordering.eq ↦ true | _ ↦ false ]

pub str_eq_refl : (a : List ℕ) → str_eq a a ≡ true
str_eq_refl a = ground (arith, cmp_refl a)

pub equal_of : (a b : List ℕ) → str_eq a b ≡ true → a ≡ b
equal_of a b h = ground (arith, cmp-eq a b)
