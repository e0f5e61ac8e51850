-- ===== src/StdMap.antt =====
-- `std::map<std::string, V>`: an association list in ascending key order. `insert` is the write
-- `m[k] = v`, `find` the lookup, `erase` the removal of a key.
pub mod Sorted
use servus.Prelude.{
  ℕ, List, [], ◌∷◌, Option, none, some, ◌≡◌, refl, arith, Ordering, if◌then◌else◌, ap,
}
use servus.Bytes.{Bytes}
use servus.Bytes.Order.{cmp, cmp_refl, cmp-eq, cmp-gt, cmp-lt, str_eq}

abbrev pub StdMap {ℓ} : Type ℓ → Type ℓ
StdMap V = List (Bytes × V)

module _ {ℓ} {V : Type ℓ} where
  unfoldable pub find : Bytes → StdMap V → Option V
  find k [] = none
  find k ((j, v) ∷ m) = elim (cmp k j) [ Ordering.eq ↦ some v | _ ↦ find k m ]

  unfoldable pub insert : Bytes → V → StdMap V → StdMap V
  insert k v [] = (k, v) ∷ []
  insert k v ((j, w) ∷ m) = elim (cmp k j) [
    | Ordering.lt ↦ (k, v) ∷ (j, w) ∷ m
    | Ordering.eq ↦ (j, v) ∷ m
    | Ordering.gt ↦ (j, w) ∷ insert k v m
  ]

  unfoldable pub erase : Bytes → StdMap V → StdMap V
  erase k [] = []
  erase k ((j, v) ∷ m) = elim (cmp k j) [ Ordering.eq ↦ m | _ ↦ (j, v) ∷ erase k m ]

  unfoldable pub keys : StdMap V → List Bytes
  keys [] = []
  keys ((k, v) ∷ m) = k ∷ keys m

  pub find-insert :
      (k j : Bytes) (v : V) (m : StdMap V)
      → find j (insert k v m) ≡ (if str_eq j k then some v else find j m)
  unfolding find insert
  find-insert k j v [] = ground arith
  find-insert k j v ((i, w) ∷ m) =
      ground
        (arith, cmp-eq k i, cmp-eq j i, cmp-eq j k, cmp_refl i, cmp_refl k, find-insert k j v m)

  pub find-insert_self : (k : Bytes) (v : V) (m : StdMap V) → find k (insert k v m) ≡ some v
  find-insert_self k v m = ground (arith, find-insert k k v m, cmp_refl k)
