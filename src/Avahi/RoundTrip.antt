-- ===== src/Avahi/RoundTrip.antt =====
-- What one service publishes over Avahi is what another one finds.
use servus.Prelude.{
  List, [], ◌∷◌, ◌++◌, none, some, ◌≡◌, refl, ◌∙◌, ap, arith, if◌then◌else◌, take-length_append,
  drop-suc-length_append,
}
use servus.Bytes.{Bytes, codes, c_str}
use servus.Bytes.Order.{str_eq, cmp-eq}
use servus.Bytes.Find.{Misses, find_first_of-hit}
use servus.StdMap
use servus.StdMap.{StdMap, find-insert, find-insert_self}
use servus.Service.{get_instance_value}
use servus.Service.Lookup.{or_else, with_host, read_back}
use servus.Avahi.{AvahiService}
use servus.Avahi.Publish.{txt_from, to_publish}
use servus.Avahi.Callbacks.{is_equals, add_entry, add_entries, found}

-- What Avahi documents of `avahi_string_list_add_pair`: a new entry, `key=value`, in front.
abbrev pub AddsPairs : (List Bytes → Bytes → Bytes → List Bytes) → Type 0
AddsPairs add_pair = (l : List Bytes) (k v : Bytes) → add_pair l k v ≡ (k ++ b'=' ∷ v) ∷ l

-- The keys hold no equals sign, and neither keys nor values a zero byte.
abbrev pub IsPublishable : StdMap Bytes → Type 0
IsPublishable [] = Unit
IsPublishable ((k, v) ∷ m) = Misses is_equals k × (c_str k ≡ k) × (c_str v ≡ v) × IsPublishable m

add_entry-pair :
    (k v : Bytes) (values : StdMap Bytes)
    → Misses is_equals k
    → add_entry (k ++ b'=' ∷ v) values ≡ StdMap.insert k v values
unfolding add_entry
add_entry-pair k v values h = rw (
  find_first_of-hit is_equals k (b'=' ∷ v) h refl,
  add_entry,
  take-length_append k (b'=' ∷ v),
  drop-suc-length_append k b'=' v,
)

add_entries-append :
    (l r : List Bytes) (values : StdMap Bytes)
    → add_entries (l ++ r) values ≡ add_entries r (add_entries l values)
unfolding add_entries
add_entries-append [] r values = refl
add_entries-append (e ∷ l) r values = add_entries-append l r (add_entry e values)

module _ (add_pair : List Bytes → Bytes → Bytes → List Bytes) (adds : AddsPairs add_pair) where
  txt_from-append :
      (l r : List Bytes) (m : StdMap Bytes)
      → txt_from add_pair (l ++ r) m ≡ txt_from add_pair l m ++ r
  unfolding txt_from
  txt_from-append l r [] = refl
  txt_from-append l r ((k, v) ∷ m) =
      rw (adds (l ++ r) (c_str k) (c_str v), adds l (c_str k) (c_str v))
        (txt_from-append ((c_str k ++ b'=' ∷ c_str v) ∷ l) r m)

  txt_from-cons :
      (k v : Bytes) (m : StdMap Bytes)
      → c_str k ≡ k
      → c_str v ≡ v
      → txt_from add_pair [] ((k, v) ∷ m) ≡ txt_from add_pair [] m ++ (k ++ b'=' ∷ v) ∷ []
  unfolding txt_from
  txt_from-cons k v m key value =
      rw (key, value, adds [] k v) (txt_from-append [] ((k ++ b'=' ∷ v) ∷ []) m)

  -- The entries of a text record are read back as the data, whatever the order of the keys.
  pub find-txt_from :
      (m values : StdMap Bytes) (j : Bytes)
      → IsPublishable m
      → StdMap.find j (add_entries (txt_from add_pair [] m) values)
        ≡ or_else (StdMap.find j m) (StdMap.find j values)
  unfolding txt_from StdMap.find add_entries
  find-txt_from [] values j h = refl
  find-txt_from ((k, v) ∷ m) values j (no_equals, key, value, rest) =
      let entry : Bytes = k ++ b'=' ∷ v in
      let before : StdMap Bytes = add_entries (txt_from add_pair [] m) values in
      ap (λ l. StdMap.find j (add_entries l values)) (txt_from-cons k v m key value)
      ∙ ap (StdMap.find j) (add_entries-append (txt_from add_pair [] m) (entry ∷ []) values)
      ∙ ap (StdMap.find j) (add_entry-pair k v before no_equals)
      ∙ find-insert k j v before
      ∙ ground (arith, find-txt_from m values j rest, cmp-eq j k)

  -- If Avahi adds pairs as it documents, then for a service whose keys and values can be published,
  -- the browser reads under each key of the instance what the data of the service says, and
  -- otherwise the host under `servus_host`, or what was known before.
  pub found-published :
      (s browser : AvahiService) (name host key : Bytes)
      → IsPublishable s.impl.data_map
      → get_instance_value (found name host (to_publish add_pair s).txt browser).impl name key
        ≡ elim (StdMap.find key s.impl.data_map) [
          | some v ↦ v
          | none ↦
              if str_eq key (codes "servus_host")
              then host
              else get_instance_value browser.impl name key
        ]
  unfolding get_instance_value found
  found-published s browser name host key h =
      let data' = s.impl.data_map in
      let known : StdMap Bytes = with_host name host browser.impl.instance_map in
      read_back name host key browser.impl.instance_map
        (add_entries (txt_from add_pair [] data') known) (StdMap.find key data')
        (find-txt_from data' known key h)
