-- ===== src/Service/TestDriver/Sets.antt =====
-- Sets of addresses as ascending lists.
use servus.Prelude.{
  ℕ, ◌≤◌, ◌<◌, Bool, true, false, not, ◌&&◌, ◌||◌, List, [], ◌∷◌, ◌≡◌, refl, arith, ◌==◌, ap₂,
}
use servus.Service.{member, without}
use servus.Service.TestDriver.{set_insert, symmetric_difference}

abbrev pub xor : Bool → Bool → Bool
xor true b = not b
xor false b = b

abbrev pub Above : ℕ → List ℕ → Type 0
Above k [] = Unit
Above k (x ∷ xs) = (k < x) × Above k xs

abbrev pub IsAscending : List ℕ → Type 0
IsAscending [] = Unit
IsAscending (x ∷ xs) = Above x xs × IsAscending xs

pub member-set_insert :
    (z a : ℕ) (xs : List ℕ) → member z (set_insert a xs) ≡ (z == a || member z xs)
unfolding member set_insert
member-set_insert z a [] = refl
member-set_insert z a (x ∷ xs) = ground (arith, member-set_insert z a xs)

pub member-without :
    (z a : ℕ) (xs : List ℕ) → member z (without a xs) ≡ (not (z == a) && member z xs)
unfolding member without
member-without z a [] = ground arith
member-without z a (x ∷ xs) = ground (arith, member-without z a xs)

pub member-Above : (z k : ℕ) (xs : List ℕ) → Above k xs → z ≤ k → member z xs ≡ false
unfolding member
member-Above z k [] h le = refl
member-Above z k (x ∷ xs) h le = ground (arith, member-Above z k xs)

Above-trans : (k j : ℕ) (xs : List ℕ) → k ≤ j → Above j xs → Above k xs
Above-trans k j [] le h = tt
Above-trans k j (x ∷ xs) le h = (omega arith, Above-trans k j xs le h.1)

Above-set_insert : (k a : ℕ) (xs : List ℕ) → k < a → Above k xs → Above k (set_insert a xs)
unfolding set_insert
Above-set_insert k a [] h ab = (h, tt)
Above-set_insert k a (x ∷ xs) h ab = ground (arith, Above-set_insert k a xs)

pub set_insert-IsAscending : (a : ℕ) (xs : List ℕ) → IsAscending xs → IsAscending (set_insert a xs)
unfolding set_insert
set_insert-IsAscending a [] h = (tt, tt)
set_insert-IsAscending a (x ∷ xs) h =
    ground (arith, set_insert-IsAscending a xs, Above-set_insert x a xs, Above-trans a x xs)

Above-without : (k a : ℕ) (xs : List ℕ) → Above k xs → Above k (without a xs)
unfolding without
Above-without k a [] h = tt
Above-without k a (x ∷ xs) h = ground (arith, Above-without k a xs)

pub without-IsAscending : (a : ℕ) (xs : List ℕ) → IsAscending xs → IsAscending (without a xs)
unfolding without
without-IsAscending a [] h = tt
without-IsAscending a (x ∷ xs) h = ground (arith, without-IsAscending a xs, Above-without x a xs)

Above-difference :
    (k : ℕ) (xs ys : List ℕ) → Above k xs → Above k ys → Above k (symmetric_difference xs ys)
unfolding symmetric_difference
Above-difference k [] ys h g = g
Above-difference k (x ∷ xs) [] h g = h
Above-difference k (x ∷ xs) (y ∷ ys) h g = ground (
  arith,
  Above-difference k xs (y ∷ ys),
  Above-difference k xs ys,
  Above-difference k (x ∷ xs) ys,
)

pub difference-IsAscending :
    (xs ys : List ℕ) → IsAscending xs → IsAscending ys → IsAscending (symmetric_difference xs ys)
unfolding symmetric_difference
difference-IsAscending [] ys h g = g
difference-IsAscending (x ∷ xs) [] h g = h
difference-IsAscending (x ∷ xs) (y ∷ ys) h g = ground (
  arith,
  difference-IsAscending xs (y ∷ ys),
  difference-IsAscending xs ys,
  difference-IsAscending (x ∷ xs) ys,
  Above-difference x xs (y ∷ ys),
  Above-difference y (x ∷ xs) ys,
  Above-trans x y ys,
  Above-trans y x xs,
)

-- The difference holds what one of the two lists holds.
pub member-difference :
    (z : ℕ) (xs ys : List ℕ)
    → IsAscending xs
    → IsAscending ys
    → member z (symmetric_difference xs ys) ≡ xor (member z xs) (member z ys)
unfolding member symmetric_difference
member-difference z [] ys h g = ground arith
member-difference z (x ∷ xs) [] h g = ground arith
member-difference z (x ∷ xs) (y ∷ ys) h g = ground (
  arith,
  member-difference z xs (y ∷ ys),
  member-difference z xs ys,
  member-difference z (x ∷ xs) ys,
  member-Above z x xs,
  member-Above z y ys,
)

-- Ascending lists with the same members are equal.
pub ascending_ext :
    (xs ys : List ℕ)
    → IsAscending xs
    → IsAscending ys
    → ((z : ℕ) → member z xs ≡ member z ys)
    → xs ≡ ys
unfolding member
ascending_ext [] [] h g same = refl
ascending_ext [] (y ∷ ys) h g same = ground (arith, same y)
ascending_ext (x ∷ xs) [] h g same = ground (arith, same x)
ascending_ext (x ∷ xs) (y ∷ ys) h g same =
    let heads : x ≡ y =
      ground (arith, same x, same y, member-Above x y ys g.0, member-Above y x xs h.0) in
    ap₂ (λ a b. a ∷ b) heads
      (ascending_ext xs ys h.1 g.1
        (λ z. ground (arith, same z, heads, member-Above x x xs h.0, member-Above y y ys g.0)))
