-- ===== src/ItemModel.antt =====
-- `servus::qt::ItemModel` (servus/qt/itemModel.cpp): a tree of two levels, one item for each instance
-- and below it one for each key with its value. The tree of `QObject`s is a list of records, and an
-- index is the position of the object that it points to. Conversions between `QString` and
-- `std::string` are left out: names are taken to be UTF-8.
pub mod Finder
pub mod Laws
pub mod Index
pub mod Collision
pub mod Steps
pub mod Agrees
pub mod Follow
pub mod Withdrawn
pub mod Heard
pub mod Shows
pub mod Stale
mod Tests
mod FollowTests
mod ShowTests
use servus.Prelude.{
  ℕ, zero, suc, ◌-◌, Bool, true, false, ◌&&◌, List, [], ◌∷◌, ◌++◌, map, Option, none, some, ◌==◌,
  ltb, if◌then◌else◌, length, is_empty, take, drop,
}
use servus.Prelude.Int.{ℤ, pos, negsuc}
use servus.Bytes.{Bytes, codes}
use servus.Bytes.Order.{str_eq}
use servus.Service.{
  Impl, Driver, add_listener, remove_listener, get_instances, get_instance_keys, get_instance_value,
  get_host,
}

-- The object of an instance: its name, and the names of its children.
pub record Item : Type 0 where
  pub name : Bytes
  pub values : List Bytes

-- Where an object stands: an instance, or a value of an instance.
pub data Place : Type 0 where
  instance_at : ℕ → Place
  value_at : ℕ → ℕ → Place

-- `QModelIndex`, with the object that it points to.
pub data ModelIndex : Type 0 where
  invalid : ModelIndex
  to_place : Place → ModelIndex

pub data Role : Type 0 where
  display_role tool_tip_role user_role other_role : Role

pub data Orientation : Type 0 where
  horizontal vertical : Orientation

-- What the model tells its views. The row of a removal is what `indexOf` returns, which may be -1.
pub data RowEvent : Type 0 where
  rows_inserted : ℕ → RowEvent
  rows_removed : ℤ → RowEvent

unfoldable pub nth {ℓ} : {A : Type ℓ} → List A → ℕ → Option A
nth [] n = none
nth (x ∷ xs) zero = some x
nth (x ∷ xs) (suc n) = nth xs n

-- `delete` of the object at a position of a list of children.
unfoldable pub remove_at {ℓ} : {A : Type ℓ} → ℕ → List A → List A
remove_at n [] = []
remove_at zero (x ∷ xs) = xs
remove_at (suc n) (x ∷ xs) = x ∷ remove_at n xs

unfoldable pub remove_value : ℕ → ℕ → List Item → List Item
unfolding remove_at
remove_value n j [] = []
remove_value zero j (x ∷ xs) = record x { values = remove_at j x.values } ∷ xs
remove_value (suc n) j (x ∷ xs) = x ∷ remove_value n j xs

unfoldable pub remove_place : Place → List Item → List Item
unfolding remove_at remove_value
remove_place (instance_at i) items = remove_at i items
remove_place (value_at i j) items = remove_value i j items

-- `children.indexOf(child)` for a child that is found below the root.
abbrev pub index_of : Place → ℤ
index_of (instance_at i) = pos i
index_of (value_at i j) = negsuc 0

-- What Qt does is an argument: the text that `QString::arg` makes of a key and a value, and
-- `findChild` below the root.
module _ (format : Bytes → Bytes → Bytes) (find_child : List Item → Bytes → Option Place) where
  unfoldable pub new_item : Impl → Bytes → Item
  new_item service instance' = record {
    name = instance';
    values =
        map (λ key. format key (get_instance_value service instance' key))
          (get_instance_keys service instance');
  }

  -- `_addInstanceItem`: a new child stands behind the others.
  unfoldable pub add_instance_item : Impl → List Item → Bytes → List Item
  unfolding new_item
  add_instance_item service items instance' = items ++ new_item service instance' ∷ []

  unfoldable pub instance_added : Impl → List Item → Bytes → List Item × List RowEvent
  unfolding add_instance_item
  instance_added service items instance' = elim (find_child items instance') [
    | some place ↦ (items, [])
    | none ↦ (add_instance_item service items instance', rows_inserted (length items) ∷ [])
  ]

  unfoldable pub instance_removed : List Item → Bytes → List Item × List RowEvent
  unfolding remove_place
  instance_removed items instance' = elim (find_child items instance') [
    | none ↦ (items, [])
    | some place ↦ (remove_place place items, rows_removed (index_of place) ∷ [])
  ]

  -- The items that the constructor adds, for the names that the service has found.
  unfoldable pub add_items : Impl → List Item → List Bytes → List Item
  unfolding add_instance_item
  add_items service items [] = items
  add_items service items (i ∷ is) = add_items service (add_instance_item service items i) is

  unfoldable pub new_items : Impl → List Item
  unfolding add_items get_instances
  new_items service = add_items service [] (get_instances service)

unfoldable pub row_count : List Item → ModelIndex → ℕ
unfolding nth
row_count items invalid = length items
row_count items (to_place (instance_at i)) = elim (nth items i) [
  | none ↦ 0
  | some item ↦ length item.values
]
row_count items (to_place (value_at i j)) = 0

unfoldable pub column_count : ModelIndex → ℕ
column_count index = 1

-- `hasIndex` holds for a row and a column that the two counts allow.
unfoldable pub has_index : List Item → ℕ → ℕ → ModelIndex → Bool
unfolding row_count column_count
has_index items row column parent =
    ltb row (row_count items parent) && ltb column (column_count parent)

abbrev pub child_of : ModelIndex → ℕ → ModelIndex
child_of invalid row = to_place (instance_at row)
child_of (to_place (instance_at i)) row = to_place (value_at i row)
child_of (to_place (value_at i j)) row = invalid

unfoldable pub index : List Item → ℕ → ℕ → ModelIndex → ModelIndex
unfolding has_index
index items row column parent =
    if has_index items row column parent then child_of parent row else invalid

unfoldable pub parent : ModelIndex → ModelIndex
parent invalid = invalid
parent (to_place (instance_at i)) = invalid
parent (to_place (value_at i j)) = to_place (instance_at i)

-- The name of the object at a place.
unfoldable pub object_name : List Item → Place → Option Bytes
unfolding nth
object_name items (instance_at i) = elim (nth items i) [ none ↦ none | some item ↦ some item.name ]
object_name items (value_at i j) = elim (nth items i) [
  | none ↦ none
  | some item ↦ nth item.values j
]

-- `data`: `none` is the empty `QVariant`.
unfoldable pub data_of : Impl → List Item → ModelIndex → Role → Option Bytes
unfolding object_name row_count nth
data_of service items invalid role = none
data_of service items (to_place place) display_role = object_name items place
data_of service items (to_place place) other_role = none
data_of service items (to_place place) role =
    if row_count items (to_place place) == 0
    then none
    else elim (object_name items place) [ none ↦ none | some name ↦ some (get_host service name) ]

-- The title of the root, which Qt formats, for the horizontal header.
unfoldable pub header_data : Bytes → Orientation → Role → Option Bytes
header_data title horizontal display_role = some title
header_data title orientation role = none

-- What the constructor and the destructor of `ItemModel::Impl` do to the service, for the model at
-- the address `self`. The timer that calls `browse` in between is Qt's.
module _ {S : Type 0} (driver : Driver S) (self : ℕ) where
  unfoldable pub attach : S → S
  unfolding add_listener
  attach s = (driver.begin_browsing (driver.set_impl s (add_listener (driver.impl s) self))).0

  unfoldable pub detach : S → S
  unfolding remove_listener
  detach s = driver.end_browsing (driver.set_impl s (remove_listener (driver.impl s) self))
