-- ===== src/ItemModel/Finder.antt =====
-- What the documentation of Qt says of `QObject::findChild`, for a tree of two levels.
use servus.Prelude.{ℕ, List, Option, none, some, ◌≡◌, ◌≢◌}
use servus.Bytes.{Bytes}
use servus.ItemModel.{Item, Place, instance_at, value_at, object_name}

-- A child that is found has the name; where none is found no object has it; and a child of the root
-- is preferred to a grandchild.
pub record FindsChildren (find_child : List Item → Bytes → Option Place) : Type 0 where
  pub named :
      (items : List Item) (s : Bytes) (p : Place)
      → find_child items s ≡ some p
      → object_name items p ≡ some s
  pub missing :
      (items : List Item) (s : Bytes)
      → find_child items s ≡ none
      → (p : Place) → object_name items p ≢ some s
  pub direct :
      (items : List Item) (s : Bytes) (i k j : ℕ)
      → object_name items (instance_at i) ≡ some s
      → find_child items s ≢ some (value_at k j)
