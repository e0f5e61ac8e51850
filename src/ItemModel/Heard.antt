-- ===== src/ItemModel/Heard.antt =====
-- The model of a service shows what it hears: its rows are the instances of which its calls tell.
use servus.Prelude.{
  ℕ, true, false, List, [], ◌∷◌, Option, ◌≡◌, ◌≢◌, refl, sym, ◌∙◌, ap, arith, All, map, Bool-cases,
  inl, inr, if◌then◌else◌, ◌==◌,
}
use servus.Bytes.{Bytes}
use servus.Bytes.Order.{str_eq}
use servus.Service.{Impl}
use servus.Service.Listener.{Event}
use servus.Service.Told.{heard, heard-append, is_known, IsTold}
use servus.ItemModel.{Item, Place, instance_added, instance_removed}
use servus.ItemModel.Finder.{FindsChildren}
use servus.ItemModel.Laws.{has, Unique, NoValue, added-has, removed-has}
use servus.ItemModel.Steps.{
  IsFree, IsFree-NoValue, added-Unique, removed-Unique, added-IsFree, removed-IsFree,
}

abbrev pub name_of : Event → Bytes
name_of (Event.instance_added k i) = i
name_of (Event.instance_removed k i) = i

-- No text that is made of a key and a value reads like the name of an instance that is called.
abbrev pub IsPlain : (Bytes → Bytes → Bytes) → List Event → Type 0
IsPlain format = All (λ e. (k v : Bytes) → format k v ≢ name_of e)

-- The calls, each with what the service has found when it makes it. The model at the address `self`
-- gets those that are addressed to it.
module _ (format : Bytes → Bytes → Bytes) (find_child : List Item → Bytes → Option Place)
    (self : ℕ) where
  unfoldable pub on_call : List Item → Impl × Event → List Item
  on_call items (service, Event.instance_added k i) =
      if self == k then (instance_added format find_child service items i).0 else items
  on_call items (service, Event.instance_removed k i) =
      if self == k then (instance_removed format find_child items i).0 else items

  unfoldable pub on_calls : List Item → List (Impl × Event) → List Item
  unfolding on_call
  on_calls items [] = items
  on_calls items (c ∷ cs) = on_calls (on_call items c) cs

  module _ (qt : FindsChildren find_child) where
    module _ (items : List Item) (service : Impl) (i : Bytes) (free : IsFree i items) where
      hidden : NoValue items i
      hidden = IsFree-NoValue i items free

      added-names :
          (n : Bytes)
          → has n (instance_added format find_child service items i).0
            ≡ (if str_eq n i then true else has n items)
      added-names n = (added-has format find_child qt service items i n hidden).0 ∙ ground arith

      removed-names :
          (n : Bytes)
          → Unique items
          → has n (instance_removed format find_child items i).0
            ≡ (if str_eq n i then false else has n items)
      removed-names n u = (removed-has format find_child qt items i n hidden u).0 ∙ ground arith

    call-has :
        (n : Bytes) (items : List Item) (c : Impl × Event)
        → IsFree (name_of c.1) items
        → Unique items
        → has n (on_call items c) ≡ heard self n (has n items) (c.1 ∷ [])
    unfolding heard on_call
    call-has n items (service, Event.instance_added k i) free u = elim (Bool-cases (self == k)) [
      | inl own ↦ rw own (added-names items service i free n)
      | inr other ↦ rw other refl
    ]
    call-has n items (service, Event.instance_removed k i) free u = elim (Bool-cases (self == k)) [
      | inl own ↦ rw own (removed-names items service i free n u)
      | inr other ↦ rw other refl
    ]

    call-Unique :
        (items : List Item) (c : Impl × Event)
        → IsFree (name_of c.1) items
        → Unique items
        → Unique (on_call items c)
    unfolding on_call
    call-Unique items (service, Event.instance_added k i) free u = elim (Bool-cases (self == k)) [
      | inl own ↦
          rw own (added-Unique format find_child qt service items i (IsFree-NoValue i items free) u)
      | inr other ↦ rw other u
    ]
    call-Unique items (service, Event.instance_removed k i) free u = elim (Bool-cases (self == k)) [
      | inl own ↦
          rw own (removed-Unique format find_child qt items i (IsFree-NoValue i items free) u)
      | inr other ↦ rw other u
    ]

    call-IsFree :
        (items : List Item) (c : Impl × Event) (p : Bytes)
        → IsFree (name_of c.1) items
        → ((k v : Bytes) → format k v ≢ p)
        → IsFree p items
        → IsFree p (on_call items c)
    unfolding on_call
    call-IsFree items (service, Event.instance_added k i) p free plain h =
        elim (Bool-cases (self == k)) [
          | inl own ↦ rw own (
              added-IsFree format find_child qt service items i p (IsFree-NoValue i items free)
                plain h)
          | inr other ↦ rw other h
        ]
    call-IsFree items (service, Event.instance_removed k i) p free plain h =
        elim (Bool-cases (self == k)) [
          | inl own ↦
              rw own (removed-IsFree format find_child qt items i p (IsFree-NoValue i items free) h)
          | inr other ↦ rw other h
        ]

    call-AllFree :
        (items : List Item) (c : Impl × Event) (cs : List (Impl × Event))
        → IsFree (name_of c.1) items
        → IsPlain format (map (λ d. d.1) cs)
        → All (λ d. IsFree (name_of d.1) items) cs
        → All (λ d. IsFree (name_of d.1) (on_call items c)) cs
    call-AllFree items c [] free plain h = tt
    call-AllFree items c (d ∷ cs) free plain h = (
      call-IsFree items c (name_of d.1) free plain.0 h.0,
      call-AllFree items c cs free plain.1 h.1,
    )

    calls-has :
        (n : Bytes) (items : List Item) (cs : List (Impl × Event))
        → IsPlain format (map (λ d. d.1) cs)
        → Unique items
        → All (λ d. IsFree (name_of d.1) items) cs
        → has n (on_calls items cs) ≡ heard self n (has n items) (map (λ d. d.1) cs)
    unfolding heard on_calls
    calls-has n items [] plain u h = refl
    calls-has n items (c ∷ cs) plain u h =
        calls-has n (on_call items c) cs plain.1 (call-Unique items c h.0 u)
          (call-AllFree items c cs h.0 plain.1 h.1)
        ∙ ap (λ b. heard self n b (map (λ d. d.1) cs)) (call-has n items c h.0 u)
        ∙ sym (heard-append self n (has n items) (c.1 ∷ []) (map (λ d. d.1) cs))

    none_shown : (cs : List (Impl × Event)) → All (λ d. IsFree (name_of d.1) []) cs
    none_shown [] = tt
    none_shown (c ∷ cs) = (tt, none_shown cs)

    -- The model of a service that tells it everything shows what the service knows.
    pub told_shown :
        (s : Impl) (cs : List (Impl × Event)) (n : Bytes)
        → IsPlain format (map (λ d. d.1) cs)
        → IsTold self s (map (λ d. d.1) cs)
        → has n (on_calls [] cs) ≡ is_known s n
    unfolding has
    told_shown s cs n plain h = calls-has n [] cs plain tt (none_shown cs) ∙ h.told n
