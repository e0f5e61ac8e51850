-- ===== src/ItemModel/Tests.antt =====
-- A concrete `findChild`, and instances of the theorems on the item model.
use servus.Prelude.{
  ℕ, zero, suc, ◌<◌, true, false, List, [], ◌∷◌, ◌++◌, Option, none, some, ◌≡◌, ◌≢◌, inl, inr, refl,
  sym, ◌∙◌, ap, arith, if◌then◌else◌, Option-cases,
}
use servus.Prelude.Int.{negsuc}
use servus.Bytes.{Bytes, codes}
use servus.Bytes.Order.{str_eq, cmp, cmp-eq, cmp_refl}
use servus.Service.{Impl}
use servus.ItemModel.{
  Item, Place, instance_at, value_at, ModelIndex, rows_removed, nth, object_name, row_count,
  instance_added, instance_removed, remove_value,
}
use servus.ItemModel.Finder.{FindsChildren}
use servus.ItemModel.Laws.{has, Unique, NoValue}
use servus.ItemModel.Collision.{value_hides_instance}

abbrev position : List Bytes → Bytes → Option ℕ
position [] q = none
position (x ∷ xs) q =
    if str_eq q x then some 0 else elim (position xs q) [ none ↦ none | some i ↦ some (suc i) ]

abbrev names : List Item → List Bytes
names [] = []
names (x ∷ xs) = x.name ∷ names xs

abbrev below : List Item → Bytes → Option Place
below [] q = none
below (x ∷ xs) q = elim (position x.values q) [
  | some j ↦ some (value_at 0 j)
  | none ↦ elim (below xs q) [
    | none ↦ none
    | some (instance_at i) ↦ some (instance_at (suc i))
    | some (value_at i j) ↦ some (value_at (suc i) j)
  ]
]

abbrev pub finder : List Item → Bytes → Option Place
finder items q = elim (position (names items) q) [
  | some i ↦ some (instance_at i)
  | none ↦ below items q
]

position-some : (xs : List Bytes) (q : Bytes) (i : ℕ) → position xs q ≡ some i → nth xs i ≡ some q
unfolding nth
position-some [] q i h = ground arith
position-some (x ∷ xs) q zero h = ground (arith, cmp-eq q x)
position-some (x ∷ xs) q (suc i) h = ground (arith, position-some xs q i)

str_eq_of : (q x : Bytes) → x ≡ q → str_eq q x ≡ true
str_eq_of q x e = ap (λ s. str_eq q s) e ∙ ground (arith, cmp_refl q)

position-none : (xs : List Bytes) (q : Bytes) → position xs q ≡ none → (i : ℕ) → nth xs i ≢ some q
unfolding nth
position-none [] q h i e = cc
position-none (x ∷ xs) q h zero e = ground (arith, str_eq_of q x)
position-none (x ∷ xs) q h (suc i) e = position-none xs q (ground arith) i e

nth-names : (items : List Item) (i : ℕ) → object_name items (instance_at i) ≡ nth (names items) i
unfolding object_name nth
nth-names [] i = refl
nth-names (x ∷ xs) zero = refl
nth-names (x ∷ xs) (suc i) = nth-names xs i

below-some :
    (items : List Item) (q : Bytes) (p : Place)
    → below items q ≡ some p
    → object_name items p ≡ some q
unfolding object_name nth
below-some [] q p h = ground arith
below-some (x ∷ xs) q (instance_at zero) h = ground arith
below-some (x ∷ xs) q (instance_at (suc i)) h = ground (arith, below-some xs q (instance_at i))
below-some (x ∷ xs) q (value_at zero j) h = ground (arith, position-some x.values q j)
below-some (x ∷ xs) q (value_at (suc i) j) h = ground (arith, below-some xs q (value_at i j))

below-none :
    (items : List Item) (q : Bytes)
    → below items q ≡ none
    → (i j : ℕ) → object_name items (value_at i j) ≢ some q
unfolding object_name nth
below-none [] q h i j e = cc
below-none (x ∷ xs) q h zero j e = position-none x.values q (ground arith) j e
below-none (x ∷ xs) q h (suc i) j e = below-none xs q (ground arith) i j e

finder_direct :
    (items : List Item) (s : Bytes) (i : ℕ)
    → position (names items) s ≡ some i
    → finder items s ≡ some (instance_at i)
finder_direct items s i e = rw (e, finder) refl

finder-below :
    (items : List Item) (s : Bytes)
    → position (names items) s ≡ none
    → finder items s ≡ below items s
finder-below items s e = rw (e, finder) refl

finder_named :
    (items : List Item) (s : Bytes) (p : Place)
    → finder items s ≡ some p
    → object_name items p ≡ some s
finder_named items s p h = elim (Option-cases (position (names items) s)) [
  | inl e ↦ below-some items s p (sym (finder-below items s e) ∙ h)
  | inr (i, e) ↦
      let same : some p ≡ some (instance_at i) = sym h ∙ finder_direct items s i e in
      let place : p ≡ instance_at i = cc in
      ap (λ p. object_name items p) place ∙ nth-names items i ∙ position-some (names items) s i e
]

missing_at :
    (items : List Item) (s : Bytes)
    → position (names items) s ≡ none
    → below items s ≡ none
    → (p : Place) → object_name items p ≢ some s
missing_at items s f h (instance_at i) e =
    position-none (names items) s f i (sym (nth-names items i) ∙ e)
missing_at items s f h (value_at i j) e = below-none items s h i j e

none≢some : (p : Place) → Option.none ≢ some p
none≢some p h = cc

finder_missing :
    (items : List Item) (s : Bytes)
    → finder items s ≡ none
    → (p : Place) → object_name items p ≢ some s
finder_missing items s h p e = elim (Option-cases (position (names items) s)) [
  | inr (i, f) ↦ none≢some (instance_at i) (sym h ∙ finder_direct items s i f)
  | inl f ↦ missing_at items s f (sym (finder-below items s f) ∙ h) p e
]

finder_prefers :
    (items : List Item) (s : Bytes) (i k j : ℕ)
    → object_name items (instance_at i) ≡ some s
    → finder items s ≢ some (value_at k j)
finder_prefers items s i k j e h = elim (Option-cases (position (names items) s)) [
  | inl f ↦ position-none (names items) s f i (sym (nth-names items i) ∙ e)
  | inr (i', f) ↦
      let same : some (value_at k j) ≡ some (instance_at i') = sym h ∙ finder_direct items s i' f in
      cc
]

pub finder-FindsChildren : FindsChildren finder
finder-FindsChildren = record {
  named = finder_named;
  missing = finder_missing;
  direct = finder_prefers;
}

abbrev pub format : Bytes → Bytes → Bytes
format key value = key ++ (codes " = " ++ value)

-- A service that has found one instance with the key `a`.
abbrev service : Impl
service = record {
  name = codes "_servus._test";
  instance_map = (codes "desk", (codes "a", codes "b") ∷ []) ∷ [];
  data_map = [];
  listeners = [];
}

abbrev desk : Item
desk = record { name = codes "desk"; values = codes "a = b" ∷ [] }

-- `lamp` is no value of `desk`, and `a = b` is one.
no_lamp : NoValue (desk ∷ []) (codes "lamp")
unfolding object_name nth
no_lamp zero zero e = ground (arith, e)
no_lamp zero (suc j) e = cc
no_lamp (suc i) j e = cc

no_desk : NoValue (desk ∷ []) (codes "desk")
unfolding object_name nth
no_desk zero zero e = ground (arith, e)
no_desk zero (suc j) e = cc
no_desk (suc i) j e = cc

one_desk : Unique (desk ∷ [])
unfolding has
one_desk = (refl, tt)

one_value : 0 < row_count (desk ∷ []) (ModelIndex.to_place (instance_at 0))
unfolding row_count nth
one_value = omega arith

is_value : object_name (desk ∷ []) (value_at 0 0) ≡ some (codes "a = b")
unfolding object_name nth
is_value = refl

no_instance : has (codes "a = b") (desk ∷ []) ≡ false
unfolding has cmp
no_instance = refl

value_hides_instance_example :
    (instance_added format finder service (desk ∷ []) (codes "a = b") ≡ (desk ∷ [], []))
    × ((k : ℕ) × (j : ℕ) × (object_name (desk ∷ []) (value_at k j) ≡ some (codes "a = b"))
        × (instance_removed format finder (desk ∷ []) (codes "a = b")
            ≡ (remove_value k j (desk ∷ []), rows_removed (negsuc 0) ∷ [])))
value_hides_instance_example =
    value_hides_instance format finder finder-FindsChildren service (desk ∷ []) (codes "a = b") 0 0
      is_value no_instance
