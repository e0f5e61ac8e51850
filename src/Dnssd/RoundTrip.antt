-- ===== src/Dnssd/RoundTrip.antt =====
-- What one service publishes over DNSServiceDiscovery is what another one resolves.
use servus.Prelude.{
  Bool, true, false, ◌≢◌, sym, List, [], ◌∷◌, Option, none, some, ◌≡◌, refl, ◌∙◌, ap, arith,
  if◌then◌else◌, take, take_all, Bool-cases, inl, inr,
}
use servus.Bytes.{Bytes, codes, c_str}
use servus.Bytes.Order.{str_eq, equal_of}
use servus.StdMap
use servus.StdMap.{StdMap, find-insert}
use servus.StdMap.Sorted.{IsSorted, find-Above}
use servus.Service.{get_instance_value}
use servus.Service.Lookup.{or_else, with_host, read_back}
use servus.Dnssd.{DnssdService, add_items, set_value_calls, resolve}
use servus.Dnssd.TxtRecord.{
  is_printable, acceptable, same_key, last, Lacks, TxtLibrary, Differs, IsPublishable, fill,
  create_txt_record,
}

-- The library is handed an acceptable pair as it is.
c_str_printable : (k : Bytes) → is_printable k ≡ true → c_str k ≡ k
unfolding c_str
c_str_printable [] h = refl
c_str_printable (c ∷ k) h = ground (arith, c_str_printable k)

whole_key : (k v : Bytes) → acceptable k v ≡ true → c_str k ≡ k
whole_key k v h = c_str_printable k (ground arith)

whole_value : (k v : Bytes) → acceptable k v ≡ true → take 255 v ≡ v
whole_value k v h = take_all 255 v (ground arith)

-- Pairs that are written one after the other into the map of an instance: the last one counts.
one_more :
    (j k v : Bytes) (later : Option Bytes) (values : StdMap Bytes)
    → or_else later (StdMap.find j (StdMap.insert k v values))
      ≡ or_else
          (elim later [ some w ↦ some w | none ↦ if str_eq j k then some v else none ])
          (StdMap.find j values)
one_more j k v (some w) values = refl
one_more j k v none values = find-insert k j v values ∙ ground arith

find-add_items :
    (items : List (Bytes × Bytes)) (values : StdMap Bytes) (j : Bytes)
    → StdMap.find j (add_items items values) ≡ or_else (last j items) (StdMap.find j values)
unfolding add_items
find-add_items [] values j = refl
find-add_items ((k, v) ∷ items) values j =
    find-add_items items (StdMap.insert k v values) j ∙ one_more j k v (last j items) values

find-head :
    (j k v : Bytes) (m : StdMap Bytes)
    → StdMap.find j ((k, v) ∷ m) ≡ (if str_eq j k then some v else StdMap.find j m)
unfolding StdMap.find
find-head j k v m = ground arith

swapped :
    (b : Bool) (v : Bytes) (a o : Option Bytes)
    → (b ≡ true → a ≡ none)
    → or_else a (if b then some v else o) ≡ or_else (if b then some v else a) o
swapped true v a o h = ap (λ a. or_else a (some v)) (h refl)
swapped false v a o h = refl

head_first :
    (j k v : Bytes) (m : StdMap Bytes) (o : Option Bytes)
    → (str_eq j k ≡ true → StdMap.find j m ≡ none)
    → or_else (StdMap.find j m) (if str_eq j k then some v else o)
      ≡ or_else (StdMap.find j ((k, v) ∷ m)) o
head_first j k v m o h =
    swapped (str_eq j k) v (StdMap.find j m) o h ∙ ap (λ a. or_else a o) (sym (find-head j k v m))

true≢false : true ≢ false
true≢false h = cc

module _ {R : Type 0} (blank : R) (set_value : R → Bytes → Bytes → R)
    (items : R → List (Bytes × Bytes)) (library : TxtLibrary blank set_value items) where
  -- The record lacks every key of the data.
  IsNew : R → StdMap Bytes → Type 0
  IsNew r [] = Unit
  IsNew r ((k, v) ∷ m) = Lacks (items r) k × IsNew r m

  blank-IsNew : (m : StdMap Bytes) → IsNew blank m
  unfolding IsNew
  blank-IsNew [] = tt
  blank-IsNew ((k, v) ∷ m) = (λ j h. ap (last j) library.starts, blank-IsNew m)

  set_value-IsNew :
      (r : R) (k v : Bytes) (m : StdMap Bytes)
      → acceptable k v ≡ true
      → Lacks (items r) k
      → Differs k m
      → IsNew r m
      → IsNew (set_value r k v) m
  unfolding IsNew
  set_value-IsNew r k v [] fine new differs h = tt
  set_value-IsNew r k v ((i, w) ∷ m) fine new differs h = (
    λ j like. library.adds r k v fine new j ∙ (elim (Bool-cases (str_eq j k)) [
      | inl same ↦
          absurd (true≢false (sym like ∙ ap (λ j. same_key j i) (equal_of j k same) ∙ differs.0))
      | inr other ↦ rw other (h.0 j like)
    ]),
    set_value-IsNew r k v m fine new differs.1 h.1,
  )

  -- The items of the record are the pairs of the data.
  last-fill :
      (r : R) (m : StdMap Bytes) (j : Bytes)
      → IsPublishable m
      → IsSorted m
      → IsNew r m
      → last j (items (fill set_value r (set_value_calls m)))
        ≡ or_else (StdMap.find j m) (last j (items r))
  unfolding fill set_value_calls IsNew StdMap.find
  last-fill r [] j h sorted new = refl
  last-fill r ((k, v) ∷ m) j h sorted new =
      ap (λ key. last j (items (fill set_value (set_value r key (take 255 v)) (set_value_calls m))))
        (whole_key k v h.0)
      ∙ ap (λ w. last j (items (fill set_value (set_value r k w) (set_value_calls m))))
          (whole_value k v h.0)
      ∙ last-fill (set_value r k v) m j h.2 sorted.1 (set_value-IsNew r k v m h.0 new.0 h.1 new.1)
      ∙ ap (or_else (StdMap.find j m)) (library.adds r k v h.0 new.0 j)
      ∙ head_first j k v m (last j (items r))
          (λ same. ap (λ i. StdMap.find i m) (equal_of j k same) ∙ find-Above k m sorted.0)

  or_else-none : (a b : Option Bytes) → b ≡ none → or_else a b ≡ a
  or_else-none none b h = h
  or_else-none (some v) b h = refl

  last-create_txt_record :
      (m : StdMap Bytes) (j : Bytes)
      → IsPublishable m
      → IsSorted m
      → last j (items (create_txt_record set_value blank m)) ≡ StdMap.find j m
  unfolding create_txt_record
  last-create_txt_record m j h sorted =
      last-fill blank m j h sorted (blank-IsNew m)
      ∙ or_else-none (StdMap.find j m) (last j (items blank)) (ap (last j) library.starts)

  -- If the library does what dns_sd.h documents and has room, and a browser is handed the items of the
  -- text record of a service, it reads under each key of the instance what the data of the service
  -- says, and otherwise the host under `servus_host`, or what was known before. The keys of the data
  -- ascend, are not empty, printable and without an equality sign, no two of them differ in their case
  -- alone, and a key and its value are together at most 254 bytes long.
  pub resolve-create_txt_record :
      (s browser : DnssdService) (host key : Bytes)
      → IsPublishable s.impl.data_map
      → IsSorted s.impl.data_map
      → get_instance_value
          (resolve host (items (create_txt_record set_value blank s.impl.data_map)) browser).impl
          browser.browsed_name
          key
        ≡ elim (StdMap.find key s.impl.data_map) [
          | some v ↦ v
          | none ↦
              if str_eq key (codes "servus_host")
              then host
              else get_instance_value browser.impl browser.browsed_name key
        ]
  unfolding get_instance_value resolve
  resolve-create_txt_record s browser host key h sorted =
      let data' = s.impl.data_map in
      let record' : List (Bytes × Bytes) = items (create_txt_record set_value blank data') in
      let name = browser.browsed_name in
      let instances = browser.impl.instance_map in
      let known : StdMap Bytes = with_host name host instances in
      read_back name host key instances (add_items record' known) (StdMap.find key data') (
        find-add_items record' known key
        ∙ ap (λ o. or_else o (StdMap.find key known)) (last-create_txt_record data' key h sorted))
