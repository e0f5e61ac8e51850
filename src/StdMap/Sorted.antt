-- ===== src/StdMap/Sorted.antt =====
-- The keys of a `std::map` ascend strictly; an insertion keeps that, and writes a key above all
-- others at the end.
use servus.Prelude.{[], ◌∷◌, ◌++◌, none, ◌≡◌, refl, arith, Ordering, ap, if◌then◌else◌}
use servus.Bytes.{Bytes}
use servus.Bytes.Order.{cmp, cmp-gt, cmp-eq, cmp_refl, cmp_trans, str_eq}
use servus.StdMap.{StdMap, insert, find, erase}

module _ {ℓ} {V : Type ℓ} where
  -- Every key of the map is above `k`.
  abbrev pub Above : Bytes → StdMap V → Type 0
  Above k [] = Unit
  Above k ((j, w) ∷ m) = (cmp k j ≡ Ordering.lt) × Above k m

  abbrev pub IsSorted : StdMap V → Type 0
  IsSorted [] = Unit
  IsSorted ((k, v) ∷ m) = Above k m × IsSorted m

  Above-trans : (k j : Bytes) (m : StdMap V) → cmp k j ≡ Ordering.lt → Above j m → Above k m
  Above-trans k j [] h a = tt
  Above-trans k j ((i, w) ∷ m) h a = (cmp_trans k j i h a.0, Above-trans k j m h a.1)

  Above-insert :
      (i k : Bytes) (v : V) (m : StdMap V)
      → cmp i k ≡ Ordering.lt
      → Above i m
      → Above i (insert k v m)
  unfolding insert
  Above-insert i k v [] h a = (h, tt)
  Above-insert i k v ((j, w) ∷ m) h a = ground (arith, Above-insert i k v m)

  -- The write `m[k] = v` keeps the keys ascending.
  pub insert-IsSorted : (k : Bytes) (v : V) (m : StdMap V) → IsSorted m → IsSorted (insert k v m)
  unfolding insert
  insert-IsSorted k v [] h = (tt, tt)
  insert-IsSorted k v ((j, w) ∷ m) h =
      ground (arith, Above-trans k j m, Above-insert j k v m, insert-IsSorted k v m, cmp-gt k j)

  -- Every key of the map is below `k`.
  abbrev pub Below : Bytes → StdMap V → Type 0
  Below k [] = Unit
  Below k ((j, w) ∷ m) = (cmp k j ≡ Ordering.gt) × Below k m

  pub insert-Below :
      (k : Bytes) (v : V) (m : StdMap V) → Below k m → insert k v m ≡ m ++ (k, v) ∷ []
  unfolding insert
  insert-Below k v [] h = refl
  insert-Below k v ((j, w) ∷ m) h = rw (h.0, insert) (ap (λ r. (j, w) ∷ r) (insert-Below k v m h.1))

  pub find-Above : (k : Bytes) (m : StdMap V) → Above k m → find k m ≡ none
  unfolding find
  find-Above k [] h = refl
  find-Above k ((j, v) ∷ m) h = ground (arith, find-Above k m h.1)

  Above-erase : (i k : Bytes) (m : StdMap V) → Above i m → Above i (erase k m)
  unfolding erase
  Above-erase i k [] a = tt
  Above-erase i k ((j, w) ∷ m) a = ground (arith, Above-erase i k m a.1)

  -- A removal keeps the keys ascending.
  pub erase-IsSorted : (k : Bytes) (m : StdMap V) → IsSorted m → IsSorted (erase k m)
  unfolding erase
  erase-IsSorted k [] h = tt
  erase-IsSorted k ((j, w) ∷ m) h = ground (arith, Above-erase j k m h.0, erase-IsSorted k m h.1)

  -- Behind a removal, the key is gone and every other key has what it had.
  pub find-erase :
      (k j : Bytes) (m : StdMap V)
      → IsSorted m
      → find j (erase k m) ≡ (if str_eq j k then none else find j m)
  unfolding find erase
  find-erase k j [] h = ground arith
  find-erase k j ((i, w) ∷ m) h = ground (
    arith,
    cmp-eq k i,
    cmp-eq j i,
    cmp-eq j k,
    cmp_refl k,
    cmp_refl j,
    find-Above k m,
    find-erase k j m h.1,
  )
