-- ===== src/Service/TestDriver.antt =====
-- `test::Servus` (servus/test/servus.h): the services of one process, which find each other through
-- a directory that all share. A service is named by its address; the objects are a store, in which a
-- destroyed service is `none`. The mutex makes each operation one step.
pub mod Sets
pub mod Browse
pub mod Invariant
pub mod Views
pub mod Returns
pub mod Withdrawn
pub mod Discover
use servus.Prelude.{
  ℕ, zero, suc, Bool, true, false, List, [], ◌∷◌, ◌++◌, Option, none, some, ◌==◌, compare, Ordering,
  if◌then◌else◌, is_empty,
}
use servus.Prelude.Int.{ℤ}
use servus.Bytes.{Bytes, codes}
use servus.StdMap
use servus.StdMap.{StdMap}
use servus.Service.{Impl, Driver, member, without, Shown}
use servus.Service.Result.{success, pending}
use servus.Service.Listener.{Event, instance_added, instance_removed, notify}

pub record TestService : Type 0 where
  pub impl : Impl
  pub instance_name : Bytes
  pub port : ℕ
  pub announced : Bool
  pub browsing : Bool
  pub instances : List ℕ

pub record World : Type 0 where
  pub objects : ℕ → Option TestService
  pub directory : List ℕ

abbrev pub update : (ℕ → Option TestService) → ℕ → Option TestService → ℕ → Option TestService
update f p o q = if q == p then o else f q

-- `std::set<Servus*>::insert`; `erase` is `without`.
unfoldable pub set_insert : ℕ → List ℕ → List ℕ
set_insert a [] = a ∷ []
set_insert a (x ∷ xs) = elim (compare a x) [
  | Ordering.lt ↦ a ∷ x ∷ xs
  | Ordering.eq ↦ x ∷ xs
  | Ordering.gt ↦ x ∷ set_insert a xs
]

-- `std::set_symmetric_difference` of two ascending lists.
unfoldable pub symmetric_difference : List ℕ → List ℕ → List ℕ
symmetric_difference [] ys = ys
symmetric_difference (x ∷ xs) [] = x ∷ xs
symmetric_difference (x ∷ xs) (y ∷ ys) = elim (compare x y) [
  | Ordering.lt ↦ x ∷ symmetric_difference xs (y ∷ ys)
  | Ordering.eq ↦ symmetric_difference xs ys
  | Ordering.gt ↦ y ∷ symmetric_difference (x ∷ xs) ys
]

abbrev pub test_name : Bytes
test_name = codes "_servus._test"

abbrev pub new_service : TestService
new_service = record {
  impl = record { name = test_name; instance_map = []; data_map = []; listeners = [] };
  instance_name = [];
  port = 0;
  announced = false;
  browsing = false;
  instances = [];
}

-- `new test::Servus` at a free address.
unfoldable pub create : World → ℕ → World
create w p = record w { objects = update w.objects p (some new_service) }

-- The operations on a live service `s` at the address `p`. `getHostname` is the system's, so its
-- result is an argument.
unfoldable pub announce : World → ℕ → TestService → ℕ → Bytes → Bytes → World × ℤ
unfolding set_insert
announce w p s port hostname instance_name = (
  record {
    objects = update w.objects p (
        some (record s {
          port = port;
          instance_name = if is_empty instance_name then hostname else instance_name;
          announced = true;
        }));
    directory = set_insert p w.directory;
  },
  success,
)

unfoldable pub withdraw : World → ℕ → TestService → World
unfolding without
withdraw w p s = record {
  objects =
      update w.objects p (some (record s { announced = false; port = 0; instance_name = [] }));
  directory = without p w.directory;
}

unfoldable pub begin_browsing : TestService → TestService × ℤ
begin_browsing s =
    if s.browsing then (s, pending) else (record s { instances = []; browsing = true }, success)

unfoldable pub end_browsing : TestService → TestService
end_browsing s = record s { browsing = false; instances = [] }

-- The destructor: `withdraw`, `endBrowsing`, and the object is gone.
unfoldable pub destroy : World → ℕ → TestService → World
unfolding withdraw
destroy w p s = record (withdraw w p s) { objects = update w.objects p none }

-- The pairs that a browser reads from an announced service.
unfoldable pub values_of : StdMap Bytes → StdMap Bytes → StdMap Bytes
values_of [] m = m
values_of ((k, v) ∷ rest) m = values_of rest (StdMap.insert k v m)

abbrev pub host_entry : StdMap Bytes
host_entry = (codes "servus_host", codes "localhost") ∷ []

-- The loop that rebuilds the map of the instances; `none` is a read through a dangling pointer.
unfoldable pub collect :
    (ℕ → Option TestService) → List ℕ → StdMap (StdMap Bytes) → Option (StdMap (StdMap Bytes))
unfolding values_of
collect objects [] m = some m
collect objects (i ∷ rest) m = elim (objects i) [
  | none ↦ none
  | some o ↦
      collect objects rest (StdMap.insert o.instance_name (values_of o.impl.data_map host_entry) m)
]

-- The name that the listeners are told; with no listener the pointer is not read.
unfoldable pub notify_at :
    (ℕ → Option TestService) → (ℕ → Bytes → Event) → List ℕ → ℕ → Option (List Event)
unfolding notify
notify_at objects event [] i = some []
notify_at objects event (l ∷ ls) i = elim (objects i) [
  | none ↦ none
  | some o ↦ some (notify event (l ∷ ls) o.instance_name)
]

-- The loop over the difference: the instances known, and the events so far.
unfoldable pub toggle :
    (ℕ → Option TestService) → List ℕ → List ℕ → List ℕ → List Event → Option (List ℕ × List Event)
unfolding notify_at set_insert without
toggle objects listeners [] instances events = some (instances, events)
toggle objects listeners (i ∷ diff) instances events =
    let gone = toggle objects listeners diff (without i instances) in
    let came = toggle objects listeners diff (set_insert i instances) in
    if member i instances
    then elim (notify_at objects instance_removed listeners i) [
      | none ↦ none
      | some e ↦ gone (events ++ e)
    ]
    else elim (notify_at objects instance_added listeners i) [
      | none ↦ none
      | some e ↦ came (events ++ e)
    ]

-- `browse`: the new state of the service, and the events in order. It returns the success code.
unfoldable pub browse : World → TestService → Option (TestService × List Event)
unfolding collect symmetric_difference toggle
browse w s =
    let diff = symmetric_difference w.directory s.instances in
    elim (collect w.objects w.directory []) [
      | none ↦ none
      | some m ↦ elim (toggle w.objects s.impl.listeners diff s.instances []) [
        | none ↦ none
        | some (instances, events) ↦
            some (
              record s { impl = record s.impl { instance_map = m }; instances = instances },
              events,
            )
      ]
    ]

unfoldable pub shown : TestService → Shown
shown s = record { announced = s.announced; browsing = s.browsing; class_name = codes "test" }

-- The test service as one of the implementations of `Servus::Impl`, in a fixed world. A run of
-- `browse` that reads a dangling pointer has no result, and is left out by keeping the state.
unfoldable pub test_driver : World → Driver TestService
unfolding begin_browsing browse end_browsing
test_driver w = record {
  begin_browsing = begin_browsing;
  browse = λ s. elim (browse w s) [ none ↦ (s, success) | some (t, events) ↦ (t, success) ];
  end_browsing = end_browsing;
  update_record = λ s. s;
  impl = λ s. s.impl;
  set_impl = λ s i. record s { impl = i };
}
