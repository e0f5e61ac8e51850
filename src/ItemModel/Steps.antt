-- ===== src/ItemModel/Steps.antt =====
-- What stays true of the items when the model hears of an instance.
use servus.Prelude.{
  ℕ, zero, suc, false, List, [], ◌∷◌, ◌++◌, map, Option, some, ◌≡◌, ◌≢◌, ◌⊎◌, inl, inr, refl, sym,
  ◌∙◌, ap, subst, arith, All, All-append, Bool-cases,
}
use servus.Bytes.{Bytes}
use servus.Bytes.Order.{str_eq_refl, equal_of, str_eq}
use servus.Service.{Impl, get_instance_keys, get_instance_value}
use servus.ItemModel.{
  Item, Place, nth, remove_at, remove_place, object_name, new_item, add_instance_item,
  instance_added, instance_removed,
}
use servus.ItemModel.Finder.{FindsChildren}
use servus.ItemModel.Laws.{
  has, Unique, NoValue, shown, absent, finds, has-append, has-remove_at, false≢true,
}

-- No value of the items is the text.
abbrev pub IsFree : Bytes → List Item → Type 0
IsFree q = All (λ x. All (λ v. v ≢ q) x.values)

All-nth :
    (P : Bytes → Type 0) (vs : List Bytes) (j : ℕ) (v : Bytes) → All P vs → nth vs j ≡ some v → P v
unfolding nth
All-nth P [] j v h e = ground arith
All-nth P (w ∷ vs) zero v h e = let same : w ≡ v = cc in subst P same h.0
All-nth P (w ∷ vs) (suc j) v h e = All-nth P vs j v h.1 e

pub IsFree-NoValue : (q : Bytes) (items : List Item) → IsFree q items → NoValue items q
unfolding object_name nth
IsFree-NoValue q [] h i j e = ground arith
IsFree-NoValue q (x ∷ items) h zero j e = All-nth (λ v. v ≢ q) x.values j q h.0 e refl
IsFree-NoValue q (x ∷ items) h (suc i) j e = IsFree-NoValue q items h.1 i j e

All-remove_at :
    (P : Item → Type 0) (i : ℕ) (items : List Item) → All P items → All P (remove_at i items)
unfolding remove_at
All-remove_at P i [] h = tt
All-remove_at P zero (x ∷ items) h = h.1
All-remove_at P (suc i) (x ∷ items) h = (h.0, All-remove_at P i items h.1)

Unique-remove_at :
    (i : ℕ) (x : Item) (items : List Item)
    → Unique items
    → nth items i ≡ some x
    → Unique (remove_at i items)
unfolding remove_at nth
Unique-remove_at i x [] u e = tt
Unique-remove_at zero x (y ∷ items) u e = u.1
Unique-remove_at (suc i) x (y ∷ items) u e =
    (ground (arith, has-remove_at items i x y.name u.1 e), Unique-remove_at i x items u.1 e)

str_eq_swap : (a b : Bytes) → str_eq a b ≡ false → str_eq b a ≡ false
str_eq_swap a b h = elim (Bool-cases (str_eq b a)) [
  | inl t ↦ absurd (false≢true (sym h ∙ ap (λ s. str_eq a s) (equal_of b a t) ∙ str_eq_refl a))
  | inr f ↦ f
]

Unique-append :
    (items : List Item) (x : Item)
    → Unique items
    → has x.name items ≡ false
    → Unique (items ++ x ∷ [])
unfolding has
Unique-append [] x u h = (refl, tt)
Unique-append (y ∷ items) x u h = (
  ground (arith, has-append y.name items x, str_eq_swap x.name y.name),
  Unique-append items x u.1 (ground arith),
)

module _ (format : Bytes → Bytes → Bytes) (find_child : List Item → Bytes → Option Place)
    (qt : FindsChildren find_child) where
  added-cases :
      (service : Impl) (items : List Item) (q : Bytes)
      → NoValue items q
      → ((instance_added format find_child service items q).0 ≡ items)
        ⊎ (((instance_added format find_child service items q).0
              ≡ items ++ new_item format find_child service q ∷ [])
            × (has q items ≡ false))
  unfolding instance_added add_instance_item
  added-cases service items q no_value = elim (finds format find_child qt items q no_value) [
    | shown i x e at n ↦ inl (rw (e, instance_added) refl)
    | absent e h ↦ inr (rw (e, instance_added) refl, h)
  ]

  removed-cases :
      (items : List Item) (q : Bytes)
      → NoValue items q
      → ((instance_removed format find_child items q).0 ≡ items)
        ⊎ ((i : ℕ) × (x : Item) × (nth items i ≡ some x)
            × ((instance_removed format find_child items q).0 ≡ remove_at i items))
  unfolding instance_removed remove_place
  removed-cases items q no_value = elim (finds format find_child qt items q no_value) [
    | shown i x e at n ↦ inr (i, x, at, rw (e, instance_removed) refl)
    | absent e h ↦ inl (rw (e, instance_removed) refl)
  ]

  -- The names stay distinct.
  pub added-Unique :
      (service : Impl) (items : List Item) (q : Bytes)
      → NoValue items q
      → Unique items
      → Unique (instance_added format find_child service items q).0
  unfolding new_item
  added-Unique service items q no_value u = elim (added-cases service items q no_value) [
    | inl same ↦ subst Unique (sym same) u
    | inr (more, h) ↦
        subst Unique (sym more) (Unique-append items (new_item format find_child service q) u h)
  ]

  pub removed-Unique :
      (items : List Item) (q : Bytes)
      → NoValue items q
      → Unique items
      → Unique (instance_removed format find_child items q).0
  removed-Unique items q no_value u = elim (removed-cases items q no_value) [
    | inl same ↦ subst Unique (sym same) u
    | inr (i, x, at, less) ↦ subst Unique (sym less) (Unique-remove_at i x items u at)
  ]

  formatted :
      (service : Impl) (q p : Bytes)
      → ((k v : Bytes) → format k v ≢ p)
      → (keys : List Bytes)
      → All (λ v. v ≢ p) (map (λ key. format key (get_instance_value service q key)) keys)
  formatted service q p plain [] = tt
  formatted service q p plain (k ∷ keys) =
      (plain k (get_instance_value service q k), formatted service q p plain keys)

  -- A text that Qt does not make of a key and a value stays free.
  pub added-IsFree :
      (service : Impl) (items : List Item) (q p : Bytes)
      → NoValue items q
      → ((k v : Bytes) → format k v ≢ p)
      → IsFree p items
      → IsFree p (instance_added format find_child service items q).0
  unfolding new_item
  added-IsFree service items q p no_value plain free = elim (added-cases service items q no_value) [
    | inl same ↦ subst (IsFree p) (sym same) free
    | inr (more, h) ↦ subst (IsFree p) (sym more) (
        All-append (λ x. All (λ v. v ≢ p) x.values) items
          (new_item format find_child service q ∷ []) free
          (formatted service q p plain (get_instance_keys service q), tt))
  ]

  pub removed-IsFree :
      (items : List Item) (q p : Bytes)
      → NoValue items q
      → IsFree p items
      → IsFree p (instance_removed format find_child items q).0
  removed-IsFree items q p no_value free = elim (removed-cases items q no_value) [
    | inl same ↦ subst (IsFree p) (sym same) free
    | inr (i, x, at, less) ↦
        subst (IsFree p) (sym less) (All-remove_at (λ x. All (λ v. v ≢ p) x.values) i items free)
  ]
