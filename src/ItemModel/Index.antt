-- ===== src/ItemModel/Index.antt =====
-- The indices of the model, as its views walk them.
use servus.Prelude.{
  ℕ, ◌<◌, List, none, some, ◌≡◌, inl, inr, refl, subst, arith, length, Option-cases, lt→ltb,
}
use servus.Bytes.{Bytes}
use servus.Service.{Impl}
use servus.ItemModel.{
  Item, instance_at, value_at, ModelIndex, Role, nth, object_name, index, parent, row_count,
  child_of, has_index, column_count, data_of,
}
use servus.ItemModel.Laws.{nth-lt}

index_at :
    (items : List Item) (row : ℕ) (p : ModelIndex)
    → row < row_count items p
    → index items row 0 p ≡ child_of p row
unfolding index has_index column_count
index_at items row p h = ground (arith, lt→ltb row (row_count items p) h)

no_rows :
    (items : List Item) (i : ℕ)
    → nth items i ≡ none
    → row_count items (ModelIndex.to_place (instance_at i)) ≡ 0
unfolding row_count
no_rows items i e = rw (e, row_count) refl

rows_of :
    (items : List Item) (i : ℕ) (x : Item)
    → nth items i ≡ some x
    → row_count items (ModelIndex.to_place (instance_at i)) ≡ length x.values
unfolding row_count
rows_of items i x e = rw (e, row_count) refl

parent_and_data :
    (service : Impl) (items : List Item) (row : ℕ) (p : ModelIndex)
    → row < row_count items p
    → (parent (child_of p row) ≡ p)
      × ((s : Bytes) × (data_of service items (child_of p row) Role.display_role ≡ some s))
unfolding row_count parent data_of object_name nth
parent_and_data service items row ModelIndex.invalid h =
    let (x, at) = nth-lt items row h in (refl, (x.name, rw (at, object_name) refl))
parent_and_data service items row (ModelIndex.to_place (instance_at i)) h =
    elim (Option-cases (nth items i)) [
      | inl e ↦ absurd (omega (arith, no_rows items i e, h))
      | inr (x, at) ↦
          let (s, found) = nth-lt x.values row (subst (λ n. row < n) (rows_of items i x at) h) in
          (refl, (s, rw (at, object_name) found))
    ]
parent_and_data service items row (ModelIndex.to_place (value_at i j)) h = absurd (omega (arith, h))

-- Below the root and below an instance, a row within the count has an index whose parent is the one
-- that was given, and data to display.
pub parent-index :
    (service : Impl) (items : List Item) (row : ℕ) (p : ModelIndex)
    → row < row_count items p
    → (parent (index items row 0 p) ≡ p)
      × ((s : Bytes) × (data_of service items (index items row 0 p) Role.display_role ≡ some s))
parent-index service items row p h =
    rw (index_at items row p h) (parent_and_data service items row p h)
