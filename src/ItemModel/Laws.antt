-- ===== src/ItemModel/Laws.antt =====
-- The rows of the model are the instances that its service has announced to it.
use servus.Prelude.{
  ℕ, zero, suc, ◌<◌, Bool, true, false, not, ◌&&◌, ◌||◌, List, [], ◌∷◌, ◌++◌, Option, none, some,
  ◌≡◌, ◌≢◌, ◌⊎◌, inl, inr, refl, sym, ◌∙◌, ap, subst, arith, if◌then◌else◌, length, Bool-cases,
  Option-cases,
}
use servus.Prelude.Int.{pos}
use servus.Bytes.{Bytes}
use servus.Bytes.Order.{str_eq, str_eq_refl, equal_of}
use servus.Service.{Impl}
use servus.ItemModel.{
  Item, Place, instance_at, value_at, rows_inserted, rows_removed, nth, remove_at, object_name,
  new_item, instance_added, instance_removed,
}
use servus.ItemModel.Finder.{FindsChildren}

-- Whether an instance of that name is shown.
unfoldable pub has : Bytes → List Item → Bool
has q [] = false
has q (x ∷ xs) = str_eq q x.name || has q xs

-- No two instances have the same name.
abbrev pub Unique : List Item → Type 0
Unique [] = Unit
Unique (x ∷ xs) = (has x.name xs ≡ false) × Unique xs

-- No value reads like the name.
abbrev pub NoValue : List Item → Bytes → Type 0
NoValue items q = (i j : ℕ) → object_name items (value_at i j) ≢ some q

pub nth-lt {ℓ} : {A : Type ℓ} (xs : List A) (i : ℕ) → i < length xs → (x : A) × (nth xs i ≡ some x)
unfolding nth
nth-lt [] i h = absurd (omega (arith, h))
nth-lt (x ∷ xs) zero h = (x, refl)
nth-lt (x ∷ xs) (suc i) h = nth-lt xs i (omega (arith, h))

lt-nth {ℓ} : {A : Type ℓ} (xs : List A) (i : ℕ) (x : A) → nth xs i ≡ some x → i < length xs
unfolding nth
lt-nth [] i x h = ground arith
lt-nth (y ∷ xs) zero x h = omega arith
lt-nth (y ∷ xs) (suc i) x h = omega (arith, lt-nth xs i x h)

pub false≢true : false ≢ true
false≢true h = cc

pub nth-has :
    (items : List Item) (i : ℕ) (x : Item) → nth items i ≡ some x → has x.name items ≡ true
unfolding has nth
nth-has [] i x h = ground arith
nth-has (y ∷ xs) zero x h =
    let same : y ≡ x = cc in
    subst (λ x. has x.name (y ∷ xs) ≡ true) same (rw (str_eq_refl y.name) refl)
nth-has (y ∷ xs) (suc i) x h = ground (arith, nth-has xs i x h)

has-nth :
    (items : List Item) (q : Bytes)
    → has q items ≡ true
    → (i : ℕ) × (x : Item) × (nth items i ≡ some x) × (x.name ≡ q)
unfolding has nth
has-nth [] q h = ground arith
has-nth (x ∷ xs) q h = elim (Bool-cases (str_eq q x.name)) [
  | inl same ↦ (0, x, refl, sym (equal_of q x.name same))
  | inr other ↦ let (i, y, e, n) = has-nth xs q (ground arith) in (suc i, y, e, n)
]

pub has-append :
    (z : Bytes) (items : List Item) (x : Item)
    → has z (items ++ x ∷ []) ≡ (str_eq z x.name || has z items)
unfolding has
has-append z [] x = refl
has-append z (y ∷ items) x = ground (arith, has-append z items x)

pub has-remove_at :
    (items : List Item) (i : ℕ) (x : Item) (z : Bytes)
    → Unique items
    → nth items i ≡ some x
    → has z (remove_at i items) ≡ (not (str_eq z x.name) && has z items)
unfolding has remove_at nth
has-remove_at [] i x z u h = ground arith
has-remove_at (y ∷ xs) zero x z u h =
    let same : y ≡ x = cc in
    subst (λ x. has z xs ≡ (not (str_eq z x.name) && (str_eq z y.name || has z xs))) same
      (elim (Bool-cases (str_eq z y.name)) [
        | inl e ↦ rw e (ap (λ s. has s xs) (equal_of z y.name e) ∙ u.0)
        | inr n ↦ rw n refl
      ])
has-remove_at (y ∷ xs) (suc i) x z u h = elim (Bool-cases (str_eq z y.name)) [
  | inl e ↦ elim (Bool-cases (str_eq z x.name)) [
    | inl f ↦ absurd (
        false≢true (
          sym u.0
          ∙ ap (λ s. has s xs) (sym (equal_of z y.name e) ∙ equal_of z x.name f)
          ∙ nth-has xs i x h))
    | inr n ↦ rw (e, n) refl
  ]
  | inr n ↦ rw n (has-remove_at xs i x z u.1 h)
]

pub instance_of :
    (items : List Item) (i : ℕ) (q : Bytes)
    → object_name items (instance_at i) ≡ some q
    → (x : Item) × (nth items i ≡ some x) × (x.name ≡ q)
unfolding object_name nth
instance_of [] i q h = ground arith
instance_of (x ∷ xs) zero q h = (x, refl, cc)
instance_of (x ∷ xs) (suc i) q h = instance_of xs i q h

known_twice :
    (z q : Bytes) (items : List Item)
    → has q items ≡ true
    → has z items ≡ (str_eq z q || has z items)
known_twice z q items h = elim (Bool-cases (str_eq z q)) [
  | inl e ↦ rw e (ap (λ s. has s items) (equal_of z q e) ∙ h)
  | inr n ↦ rw n refl
]

unknown_twice :
    (z q : Bytes) (items : List Item)
    → has q items ≡ false
    → has z items ≡ (not (str_eq z q) && has z items)
unknown_twice z q items h = elim (Bool-cases (str_eq z q)) [
  | inl e ↦ rw e (ap (λ s. has s items) (equal_of z q e) ∙ h)
  | inr n ↦ rw n refl
]

-- What `findChild` finds, if no value has the name.
pub data Finds (items : List Item) (q : Bytes) (o : Option Place) : Type 0 where
  shown :
      (i : ℕ) (x : Item)
      → o ≡ some (instance_at i)
      → nth items i ≡ some x
      → x.name ≡ q
      → Finds items q o
  absent : o ≡ none → has q items ≡ false → Finds items q o

module _ (format : Bytes → Bytes → Bytes) (find_child : List Item → Bytes → Option Place)
    (qt : FindsChildren find_child) where
  pub finds : (items : List Item) (q : Bytes) → NoValue items q → Finds items q (find_child items q)
  unfolding object_name
  finds items q no_value = elim (Option-cases (find_child items q)) [
    | inl e ↦ absent e (elim (Bool-cases (has q items)) [
      | inl h ↦
          let (i, x, at, n) = has-nth items q h in
          absurd (qt.missing items q e (instance_at i) (rw (at, object_name) (ap (λ s. some s) n)))
      | inr h ↦ h
    ])
    | inr (instance_at i, e) ↦
        let (x, at, n) = instance_of items i q (qt.named items q (instance_at i) e) in
        shown i x e at n
    | inr (value_at i j, e) ↦ absurd (no_value i j (qt.named items q (value_at i j) e))
  ]

  -- If no value has its name, an instance that is announced is shown afterwards, with the others as
  -- before, and the views are told of a row behind the others if it is new, and of none if not.
  pub added-has :
      (service : Impl) (items : List Item) (q z : Bytes)
      → NoValue items q
      → (has z (instance_added format find_child service items q).0 ≡ (str_eq z q || has z items))
        × ((instance_added format find_child service items q).1
            ≡ (if has q items then [] else rows_inserted (length items) ∷ []))
  unfolding instance_added
  added-has service items q z no_value = elim (finds items q no_value) [
    | shown i x e at n ↦
        let there : has q items ≡ true = subst (λ s. has s items ≡ true) n (nth-has items i x at) in
        rw (e, instance_added, there) (known_twice z q items there, refl)
    | absent e h ↦
        rw (e, instance_added, h) (has-append z items (new_item format find_child service q), refl)
  ]

  -- If `findChild` does what Qt documents, no value has its name and no two instances have the same
  -- name, an instance that is gone is not shown afterwards, with the others as before, and the
  -- views are told of a row that exists, or of none if the instance was not shown.
  pub removed-has :
      (items : List Item) (q z : Bytes)
      → NoValue items q
      → Unique items
      → (has z (instance_removed format find_child items q).0 ≡ (not (str_eq z q) && has z items))
        × (((has q items ≡ false) × ((instance_removed format find_child items q).1 ≡ []))
            ⊎ ((i : ℕ) × (i < length items)
                × ((instance_removed format find_child items q).1 ≡ rows_removed (pos i) ∷ [])))
  unfolding instance_removed
  removed-has items q z no_value unique = elim (finds items q no_value) [
    | shown i x e at n ↦
        rw (e, instance_removed)
          (
            has-remove_at items i x z unique at ∙ ap (λ s. not (str_eq z s) && has z items) n,
            inr (i, lt-nth items i x at, refl),
          )
    | absent e h ↦ rw (e, instance_removed) (unknown_twice z q items h, inl (h, refl))
  ]
