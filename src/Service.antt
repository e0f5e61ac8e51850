-- ===== src/Service.antt =====
-- `servus::Servus::Impl` (servus/servus.cpp): what every implementation of the service keeps, the
-- virtual functions as the record `Driver`, and what is written in terms of them. The drivers are in
-- `Service.NoneDriver` and `Service.TestDriver`.
pub mod Result
pub mod ErrorText
pub mod Interface
pub mod Listener
pub mod Lookup
pub mod NoneDriver
pub mod TestDriver
pub mod Laws
pub mod Told
mod Tests
use servus.Prelude.{
  ℕ, Bool, true, false, ◌||◌, not, List, [], ◌∷◌, ◌++◌, Option, none, some, ◌==◌, if◌then◌else◌,
}
use servus.Prelude.Int.{ℤ}
use servus.Bytes.{Bytes, codes}
use servus.Bytes.Order.{str_eq}
use servus.StdMap
use servus.StdMap.{StdMap}
use servus.Service.Result.{success, pending, code_eq}

-- A listener is the address of its object; the null pointer is 0. `listeners` lists the set in the
-- order in which it is walked.
pub record Impl : Type 0 where
  pub name : Bytes
  pub instance_map : StdMap (StdMap Bytes)
  pub data_map : StdMap Bytes
  pub listeners : List ℕ

unfoldable pub new_impl : Bytes → Impl
new_impl name = record { name = name; instance_map = []; data_map = []; listeners = [] }

unfoldable pub get_keys : Impl → List Bytes
unfolding StdMap.keys
get_keys s = StdMap.keys s.data_map

-- A missing key gives the empty string.
unfoldable pub get : Impl → Bytes → Bytes
get s key = elim (StdMap.find key s.data_map) [ none ↦ [] | some v ↦ v ]

-- The write of `set`; the update of the record that follows is the driver's.
unfoldable pub set_data : Impl → Bytes → Bytes → Impl
set_data s key value = record s { data_map = StdMap.insert key value s.data_map }

unfoldable pub get_instances : Impl → List Bytes
unfolding StdMap.keys
get_instances s = StdMap.keys s.instance_map

unfoldable pub get_instance_keys : Impl → Bytes → List Bytes
unfolding StdMap.keys
get_instance_keys s i = elim (StdMap.find i s.instance_map) [ none ↦ [] | some m ↦ StdMap.keys m ]

unfoldable pub contains_key : Impl → Bytes → Bytes → Bool
contains_key s i key = elim (StdMap.find i s.instance_map) [
  | none ↦ false
  | some m ↦ elim (StdMap.find key m) [ none ↦ false | some v ↦ true ]
]

unfoldable pub get_instance_value : Impl → Bytes → Bytes → Bytes
get_instance_value s i key = elim (StdMap.find i s.instance_map) [
  | none ↦ []
  | some m ↦ elim (StdMap.find key m) [ none ↦ [] | some v ↦ v ]
]

unfoldable pub get_host : Impl → Bytes → Bytes
unfolding get_instance_value
get_host s i = get_instance_value s i (codes "servus_host")

unfoldable pub member : ℕ → List ℕ → Bool
member a [] = false
member a (x ∷ xs) = a == x || member a xs

unfoldable pub without : ℕ → List ℕ → List ℕ
without a [] = []
without a (x ∷ xs) = let rest = without a xs in if a == x then rest else x ∷ rest

unfoldable pub add_listener : Impl → ℕ → Impl
add_listener s l =
    if l == 0 || member l s.listeners then s else record s { listeners = l ∷ s.listeners }

unfoldable pub remove_listener : Impl → ℕ → Impl
unfolding without
remove_listener s l = if l == 0 then s else record s { listeners = without l s.listeners }

-- The functions that an implementation overrides. An argument is the state that the functions see,
-- and a result is the new state with the code that is returned.
pub record Driver (S : Type 0) : Type 0 where
  pub begin_browsing : S → S × ℤ
  pub browse : S → S × ℤ
  pub end_browsing : S → S
  pub update_record : S → S
  pub impl : S → Impl
  pub set_impl : S → Impl → S

module _ {S : Type 0} (driver : Driver S) where
  unfoldable pub set : S → Bytes → Bytes → S
  unfolding set_data
  set s key value = driver.update_record (driver.set_impl s (set_data (driver.impl s) key value))

  -- `discover`: browsing that another call has begun goes on.
  unfoldable pub discover : S → S × List Bytes
  unfolding get_instances code_eq
  discover s =
      let (s1, res) = driver.begin_browsing s in
      let browsed : S = (driver.browse s1).0 in
      let s2 : S =
        if code_eq res success || code_eq res pending
        then (if code_eq res success then driver.end_browsing browsed else browsed)
        else s1 in
      (s2, get_instances (driver.impl s2))

-- The facts that `operator<<` shows of a service.
pub record Shown : Type 0 where
  pub announced : Bool
  pub browsing : Bool
  pub class_name : Bytes

unfoldable pub print_pairs : StdMap Bytes → Bytes
print_pairs [] = []
print_pairs ((k, v) ∷ m) = codes "\n    " ++ (k ++ (codes " = " ++ (v ++ print_pairs m)))

unfoldable pub print : Shown → Impl → Bytes
unfolding print_pairs
print shown s =
    codes "Servus instance"
    ++ ((if shown.announced then codes " " else codes " not ")
        ++ (codes "announced"
            ++ ((if shown.browsing then codes " " else codes " not ")
                ++ (codes "browsing, implementation"
                    ++ (shown.class_name ++ print_pairs s.data_map)))))
