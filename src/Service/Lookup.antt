-- ===== src/Service/Lookup.antt =====
-- What a browser reads of an instance, when the text record of a service has been put into its map.
use servus.Prelude.{
  Bool, true, false, [], Option, none, some, ◌≡◌, refl, ◌∙◌, ap, arith, if◌then◌else◌, Option-cases,
  inl, inr,
}
use servus.Bytes.{Bytes, codes}
use servus.Bytes.Order.{str_eq}
use servus.StdMap
use servus.StdMap.{StdMap, find-insert, find-insert_self}

-- A value if the data has one, and otherwise what was there.
abbrev pub or_else : Option Bytes → Option Bytes → Option Bytes
or_else none o = o
or_else (some v) o = some v

abbrev pub or_empty : Option Bytes → Bytes
or_empty none = []
or_empty (some v) = v

abbrev pub known_values : Option (StdMap Bytes) → StdMap Bytes
known_values none = []
known_values (some m) = m

abbrev pub value_at : Option (StdMap Bytes) → Bytes → Bytes
value_at o key = elim o [ none ↦ [] | some m ↦ elim (StdMap.find key m) [ none ↦ [] | some v ↦ v ] ]

value_read :
    (a : Option Bytes) (is_host : Bool) (host key : Bytes) (o : Option (StdMap Bytes))
    → or_empty (or_else a (if is_host then some host else StdMap.find key (known_values o)))
      ≡ elim a [ some v ↦ v | none ↦ if is_host then host else value_at o key ]
unfolding StdMap.find
value_read (some v) is_host host key o = refl
value_read none true host key o = refl
value_read none false host key none = refl
value_read none false host key (some m) = elim (Option-cases (StdMap.find key m)) [
  | inl e ↦ ground arith
  | inr (v, e) ↦ ground arith
]

-- The values of the instance, with the host that was resolved.
abbrev pub with_host : Bytes → Bytes → StdMap (StdMap Bytes) → StdMap Bytes
with_host name host instances =
    StdMap.insert (codes "servus_host") host (known_values (StdMap.find name instances))

-- The value that is read back, if `a` is what the record has under the key.
pub read_back :
    (name host key : Bytes) (instances : StdMap (StdMap Bytes)) (values : StdMap Bytes)
    (a : Option Bytes)
    → StdMap.find key values ≡ or_else a (StdMap.find key (with_host name host instances))
    → value_at (StdMap.find name (StdMap.insert name values instances)) key ≡ elim a [
      | some v ↦ v
      | none ↦
          if str_eq key (codes "servus_host")
          then host
          else value_at (StdMap.find name instances) key
    ]
read_back name host key instances values a h =
    ap (λ o. value_at o key) (find-insert_self name values instances)
    ∙ ap or_empty h
    ∙ ap (λ o. or_empty (or_else a o))
        (find-insert (codes "servus_host") key host (known_values (StdMap.find name instances)))
    ∙ value_read a (str_eq key (codes "servus_host")) host key (StdMap.find name instances)
