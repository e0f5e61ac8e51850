-- ===== src/ItemModel/Agrees.antt =====
-- That the model shows the services in a list, and that one call of a listener keeps it so.
use servus.Prelude.{
  ℕ, Bool, true, false, not, ◌&&◌, ◌||◌, List, [], ◌∷◌, Option, some, ◌≡◌, ◌≢◌, inl, inr, refl, sym,
  ◌∙◌, ap, arith, All, Bool-cases, ◌==◌,
}
use servus.Bytes.{Bytes}
use servus.Bytes.Order.{equal_of, str_eq}
use servus.Service.{Impl, without}
use servus.Service.TestDriver.{TestService, set_insert}
use servus.Service.TestDriver.Discover.{is_named, named}
use servus.ItemModel.{Item, Place, instance_added, instance_removed}
use servus.ItemModel.Finder.{FindsChildren}
use servus.ItemModel.Laws.{has, Unique, added-has, removed-has}
use servus.ItemModel.Steps.{
  IsFree, IsFree-NoValue, added-Unique, removed-Unique, added-IsFree, removed-IsFree,
}

-- The services in play: they are live, have names of their own, and no text of a value is such a name.
pub record InPlay (format : Bytes → Bytes → Bytes) (objects : ℕ → Option TestService)
    (plays : ℕ → Bool) : Type 0 where
  pub live : (p : ℕ) → plays p ≡ true → (o : TestService) × (objects p ≡ some o)
  pub distinct :
      (p q : ℕ) (o o' : TestService)
      → plays p ≡ true
      → plays q ≡ true
      → objects p ≡ some o
      → objects q ≡ some o'
      → o.instance_name ≡ o'.instance_name
      → p ≡ q
  pub plain :
      (p : ℕ) (o : TestService) (k v : Bytes)
      → plays p ≡ true
      → objects p ≡ some o
      → format k v ≢ o.instance_name

-- The items show the names of the services in the list, each once, and no value is the name of one in
-- play.
pub record Agrees (objects : ℕ → Option TestService) (plays : ℕ → Bool) (items : List Item)
    (is : List ℕ) : Type 0 where
  pub names : (z : Bytes) → has z items ≡ named objects z is
  pub unique : Unique items
  pub free :
      (p : ℕ) (o : TestService) → plays p ≡ true → objects p ≡ some o → IsFree o.instance_name items

module _ (objects : ℕ → Option TestService) where
  named-set_insert :
      (z : Bytes) (i : ℕ) (is : List ℕ)
      → named objects z (set_insert i is) ≡ (is_named (objects i) z || named objects z is)
  unfolding named set_insert
  named-set_insert z i [] = refl
  named-set_insert z i (x ∷ is) =
      ground (arith, named-set_insert z i is, ap objects {x = i} {y = x})

module _ (format : Bytes → Bytes → Bytes) (objects : ℕ → Option TestService) (plays : ℕ → Bool)
    (in_play : InPlay format objects plays) where
  other_name :
      (z : Bytes) (i x : ℕ) (o : TestService)
      → plays i ≡ true
      → plays x ≡ true
      → objects i ≡ some o
      → (i == x) ≡ false
      → str_eq z o.instance_name ≡ true
      → is_named (objects x) z ≡ false
  other_name z i x o pi px live differ is_o =
      let (o', live') = in_play.live x px in
      elim (Bool-cases (str_eq z o'.instance_name)) [
        | inl is_o' ↦
            let same : i ≡ x =
              in_play.distinct i x o o' pi px live live'
                (sym (equal_of z o.instance_name is_o) ∙ equal_of z o'.instance_name is_o') in
            absurd (ground arith)
        | inr not_o' ↦ rw live' not_o'
      ]

  named-without :
      (z : Bytes) (i : ℕ) (o : TestService) (is : List ℕ)
      → plays i ≡ true
      → All (λ p. plays p ≡ true) is
      → objects i ≡ some o
      → named objects z (without i is) ≡ (not (str_eq z o.instance_name) && named objects z is)
  unfolding named without
  named-without z i o [] pi ps live = ground arith
  named-without z i o (x ∷ is) pi ps live = elim (Bool-cases (i == x)) [
    | inl same ↦ ground (arith, named-without z i o is pi ps.1 live, ap objects {x = i} {y = x})
    | inr differ ↦
        ground (arith, named-without z i o is pi ps.1 live, other_name z i x o pi ps.0 live)
  ]

  pub All-without :
      (i : ℕ) (is : List ℕ)
      → All (λ p. plays p ≡ true) is
      → All (λ p. plays p ≡ true) (without i is)
  unfolding without
  All-without i [] ps = tt
  All-without i (x ∷ is) ps = elim (Bool-cases (i == x)) [
    | inl same ↦ rw (same, without) (All-without i is ps.1)
    | inr differ ↦ rw (differ, without) (ps.0, All-without i is ps.1)
  ]

  pub All-set_insert :
      (i : ℕ) (is : List ℕ)
      → plays i ≡ true
      → All (λ p. plays p ≡ true) is
      → All (λ p. plays p ≡ true) (set_insert i is)
  unfolding set_insert
  All-set_insert i [] pi ps = (pi, tt)
  All-set_insert i (x ∷ is) pi ps = ground (arith, All-set_insert i is pi ps.1)

  module _ (find_child : List Item → Bytes → Option Place) (qt : FindsChildren find_child)
      (service : Impl) where
    pub removed-Agrees :
        (i : ℕ) (o : TestService) (items : List Item) (is : List ℕ)
        → plays i ≡ true
        → All (λ p. plays p ≡ true) is
        → objects i ≡ some o
        → Agrees objects plays items is
        → Agrees objects plays
            (instance_removed format find_child items o.instance_name).0
            (without i is)
    removed-Agrees i o items is pi ps live a =
        let hidden = IsFree-NoValue o.instance_name items (a.free i o pi live) in
        record {
          names = λ z.
              (removed-has format find_child qt items o.instance_name z hidden a.unique).0
              ∙ ap (λ b. not (str_eq z o.instance_name) && b) (a.names z)
              ∙ sym (named-without z i o is pi ps live);
          unique = removed-Unique format find_child qt items o.instance_name hidden a.unique;
          free = λ p o' pp live'.
              removed-IsFree format find_child qt items o.instance_name o'.instance_name hidden
                (a.free p o' pp live');
        }

    pub added-Agrees :
        (i : ℕ) (o : TestService) (items : List Item) (is : List ℕ)
        → plays i ≡ true
        → objects i ≡ some o
        → Agrees objects plays items is
        → Agrees objects plays
            (instance_added format find_child service items o.instance_name).0
            (set_insert i is)
    added-Agrees i o items is pi live a =
        let hidden = IsFree-NoValue o.instance_name items (a.free i o pi live) in
        record {
          names = λ z.
              (added-has format find_child qt service items o.instance_name z hidden).0
              ∙ ap (λ b. str_eq z o.instance_name || b) (a.names z)
              ∙ ap (λ b. b || named objects z is) (sym (ap (λ x. is_named x z) live))
              ∙ sym (named-set_insert objects z i is);
          unique = added-Unique format find_child qt service items o.instance_name hidden a.unique;
          free = λ p o' pp live'.
              added-IsFree format find_child qt service items o.instance_name o'.instance_name
                hidden (λ k v. in_play.plain p o' k v pp live') (a.free p o' pp live');
        }
