-- ===== src/ItemModel/Stale.antt =====
-- The constructor of the model (servus/qt/itemModel.cpp): its items are made before browsing begins.
use servus.Prelude.{
  ℕ, Bool, true, false, ◌||◌, List, [], ◌∷◌, ◌++◌, Option, ◌≡◌, refl, ◌∙◌, ap, arith,
}
use servus.Bytes.{Bytes}
use servus.Bytes.Order.{str_eq}
use servus.StdMap
use servus.StdMap.{StdMap}
use servus.Service.{Impl, add_listener, get_instances}
use servus.Service.Interface.{if_all}
use servus.Service.Told.{is_known, is_there}
use servus.Avahi.{AvahiService, Answers}
use servus.Avahi.Operations.{begin_browsing}
use servus.ItemModel.{Item, Place, new_item, add_instance_item, add_items, new_items}
use servus.ItemModel.Laws.{has, has-append}

module _ (format : Bytes → Bytes → Bytes) (find_child : List Item → Bytes → Option Place) where
  -- The constructor over Avahi: the items, and the service that the model listens to and browses with.
  unfoldable pub construct : Answers → ℕ → AvahiService → List Item × AvahiService
  unfolding new_items add_listener begin_browsing
  construct a self s = (
    new_items format find_child s.impl,
    (begin_browsing a if_all (record s { impl = add_listener s.impl self })).0,
  )

  unfoldable listed : Bytes → List Bytes → Bool
  listed n [] = false
  listed n (i ∷ is) = str_eq n i || listed n is

  has-add_items :
      (service : Impl) (n : Bytes) (is : List Bytes) (items : List Item)
      → has n (add_items format find_child service items is) ≡ (has n items || listed n is)
  unfolding add_items add_instance_item new_item listed
  has-add_items service n [] items = ground arith
  has-add_items service n (i ∷ is) items =
      has-add_items service n is (items ++ new_item format find_child service i ∷ [])
      ∙ ap (λ b. b || listed n is) (has-append n items (new_item format find_child service i))
      ∙ ground arith

  listed-keys :
      (n : Bytes) (m : StdMap (StdMap Bytes))
      → listed n (StdMap.keys m) ≡ is_there (StdMap.find n m)
  unfolding listed StdMap.keys StdMap.find
  listed-keys n [] = refl
  listed-keys n ((k, v) ∷ m) = ground (arith, listed-keys n m)

  -- The model of a service over Avahi that does not browse begins with a row for every instance that
  -- the service knows from before, and that the service forgets at once, without telling the model.
  pub construct_stale :
      (a : Answers) (self : ℕ) (s : AvahiService) (n : Bytes)
      → s.browser ≡ false
      → is_known s.impl n ≡ true
      → (has n (construct a self s).0 ≡ true)
        × (is_known (construct a self s).1.impl n ≡ false)
        × ((construct a self s).1.events ≡ s.events)
  unfolding construct new_items get_instances is_known begin_browsing
  construct_stale a self s n off known = (
    has-add_items s.impl n (StdMap.keys s.impl.instance_map) []
        ∙ unfold has in (listed-keys n s.impl.instance_map ∙ known),
    simp off (unfold StdMap.find in refl),
    simp off refl,
  )
