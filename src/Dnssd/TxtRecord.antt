-- ===== src/Dnssd/TxtRecord.antt =====
-- The text record of DNSServiceDiscovery (servus/dnssd/servus.h, `_createTXTRecord`). The record is the
-- library's: what `TXTRecordCreate` makes, what `TXTRecordSetValue` makes of it, and the items that
-- `TXTRecordGetItemAtIndex` reads are arguments, with what dns_sd.h documents as hypotheses.
use servus.Prelude.{
  ℕ, ◌+◌, Bool, true, false, not, ◌&&◌, List, [], ◌∷◌, Option, none, some, map, ◌≡◌, leb, ◌==◌,
  if◌then◌else◌, length, is_empty,
}
use servus.Bytes.{Bytes}
use servus.Bytes.Order.{str_eq}
use servus.StdMap.{StdMap}
use servus.Dnssd.{set_value_calls}

-- Printable ASCII without the equality sign.
abbrev pub is_printable : Bytes → Bool
is_printable [] = true
is_printable (c ∷ k) = leb 32 c && leb c 126 && not (c == 61) && is_printable k

-- The pairs that the library takes: the key is not empty and printable, and the pair with the equality
-- sign is a string of at most 255 bytes.
abbrev pub acceptable : Bytes → Bytes → Bool
acceptable k v = not (is_empty k) && is_printable k && leb (length k + 1 + length v) 255

-- Keys are compared without their case.
abbrev pub to_lower : ℕ → ℕ
to_lower c = if leb 65 c && leb c 90 then c + 32 else c

abbrev pub same_key : Bytes → Bytes → Bool
same_key j k = str_eq (map to_lower j) (map to_lower k)

-- The value of the last item with a key.
abbrev pub last : Bytes → List (Bytes × Bytes) → Option Bytes
last j [] = none
last j ((k, v) ∷ items) = elim (last j items) [
  | some w ↦ some w
  | none ↦ if str_eq j k then some v else none
]

-- No item has that key, in whatever case.
abbrev pub Lacks : List (Bytes × Bytes) → Bytes → Type 0
Lacks items k = (j : Bytes) → same_key j k ≡ true → last j items ≡ none

-- What the library documents: a new record has no items, and setting a value under a key that the record
-- lacks adds that item and keeps the others, if the pair is acceptable and there is room for it. What
-- it does otherwise is left open: it refuses the pair with an error.
pub record TxtLibrary {R : Type 0} (blank : R) (set_value : R → Bytes → Bytes → R)
    (items : R → List (Bytes × Bytes)) : Type 0 where
  pub starts : items blank ≡ []
  pub adds :
      (r : R) (k v : Bytes)
      → acceptable k v ≡ true
      → Lacks (items r) k
      → (j : Bytes)
      → last j (items (set_value r k v)) ≡ (if str_eq j k then some v else last j (items r))

-- Every pair of the data is acceptable, and no two keys differ in their case alone.
abbrev pub Differs : Bytes → StdMap Bytes → Type 0
Differs k [] = Unit
Differs k ((j, w) ∷ m) = (same_key k j ≡ false) × Differs k m

abbrev pub IsPublishable : StdMap Bytes → Type 0
IsPublishable [] = Unit
IsPublishable ((k, v) ∷ m) = (acceptable k v ≡ true) × Differs k m × IsPublishable m

module _ {R : Type 0} (set_value : R → Bytes → Bytes → R) where
  unfoldable pub fill : R → List (Bytes × Bytes) → R
  fill r [] = r
  fill r ((k, v) ∷ calls) = fill (set_value r k v) calls

  -- `_createTXTRecord`, for the record that is new, which does not look at the errors.
  unfoldable pub create_txt_record : R → StdMap Bytes → R
  unfolding fill set_value_calls
  create_txt_record blank m = fill blank (set_value_calls m)
