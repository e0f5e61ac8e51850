-- ===== src/ItemModel/Collision.antt =====
-- An instance whose name is also the text of a value: `findChild` searches both levels of the tree.
use servus.Prelude.{
  ℕ, false, List, [], ◌∷◌, Option, some, ◌≡◌, ap, sym, refl, ◌∙◌, Option-cases, inl, inr,
}
use servus.Prelude.Int.{negsuc}
use servus.Bytes.{Bytes}
use servus.Service.{Impl}
use servus.ItemModel.{
  Item, Place, instance_at, value_at, rows_removed, object_name, instance_added, instance_removed,
  remove_place, remove_value,
}
use servus.ItemModel.Finder.{FindsChildren}
use servus.ItemModel.Laws.{has, nth-has, instance_of, false≢true}

module _ (format : Bytes → Bytes → Bytes) (find_child : List Item → Bytes → Option Place)
    (qt : FindsChildren find_child) where
  finds_value :
      (items : List Item) (q : Bytes) (k j : ℕ)
      → object_name items (value_at k j) ≡ some q
      → has q items ≡ false
      → (k' : ℕ) × (j' : ℕ) × (find_child items q ≡ some (value_at k' j'))
  finds_value items q k j v h = elim (Option-cases (find_child items q)) [
    | inl e ↦ absurd (qt.missing items q e (value_at k j) v)
    | inr (instance_at i, e) ↦
        let (x, at, n) = instance_of items i q (qt.named items q (instance_at i) e) in
        absurd (false≢true (sym h ∙ ap (λ s. has s items) (sym n) ∙ nth-has items i x at))
    | inr (value_at k' j', e) ↦ (k', j', e)
  ]

  -- If `findChild` does what Qt documents and a value reads like the name of an instance that is
  -- not shown, the instance is not shown when it is announced, and its removal deletes a value that
  -- reads so, and nothing else, and tells the views of the row -1.
  pub value_hides_instance :
      (service : Impl) (items : List Item) (q : Bytes) (k j : ℕ)
      → object_name items (value_at k j) ≡ some q
      → has q items ≡ false
      → (instance_added format find_child service items q ≡ (items, []))
        × ((k' : ℕ) × (j' : ℕ) × (object_name items (value_at k' j') ≡ some q)
            × (instance_removed format find_child items q
                ≡ (remove_value k' j' items, rows_removed (negsuc 0) ∷ [])))
  unfolding instance_added instance_removed remove_place
  value_hides_instance service items q k j v h =
      let (k', j', e) = finds_value items q k j v h in
      (
        rw (e, instance_added) refl,
        (k', j', qt.named items q (value_at k' j') e, rw (e, instance_removed) refl),
      )
