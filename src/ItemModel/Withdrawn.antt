-- ===== src/ItemModel/Withdrawn.antt =====
-- A model that shows a service of the test driver that withdraws.
use servus.Prelude.{
  ℕ, false, true, List, [], ◌∷◌, Option, ◌≡◌, ◌≢◌, refl, sym, ◌∙◌, ap, subst, arith, inl, inr, some,
  Option-cases,
}
use servus.Bytes.{Bytes}
use servus.Service.{Impl, member}
use servus.Service.Listener.{Event, notify}
use servus.Service.TestDriver.{TestService, World, browse, withdraw}
use servus.Service.TestDriver.Sets.{IsAscending, member-without, without-IsAscending}
use servus.Service.TestDriver.Browse.{browse_known}
use servus.Service.TestDriver.Withdrawn.{withdrawn_nameless}
use servus.ItemModel.{Item, Place, object_name, instance_removed}
use servus.ItemModel.Finder.{FindsChildren}
use servus.ItemModel.Follow.{follow}

left_out : (w : World) (p : ℕ) (o : TestService) → member p (withdraw w p o).directory ≡ false
unfolding withdraw
left_out w p o = member-without p p w.directory ∙ ground arith

withdraw-IsAscending :
    (w : World) (p : ℕ) (o : TestService)
    → IsAscending w.directory
    → IsAscending (withdraw w p o).directory
unfolding withdraw
withdraw-IsAscending w p o asc = without-IsAscending p w.directory asc

module _ (format : Bytes → Bytes → Bytes) (find_child : List Item → Bytes → Option Place) where
  nothing_found :
      (items : List Item) (q : Bytes)
      → find_child items q ≡ Option.none
      → instance_removed format find_child items q ≡ (items, [])
  unfolding instance_removed
  nothing_found items q e = rw (e, instance_removed) refl

  told_nameless :
      (service : Impl) (items : List Item) (l : ℕ)
      → find_child items [] ≡ Option.none
      → follow format find_child service items (notify Event.instance_removed (l ∷ []) []) ≡ items
  unfolding follow notify
  told_nameless service items l e = ap (λ r. r.0) (nothing_found items [] e)

  not_found :
      (items : List Item) (q : Bytes)
      → FindsChildren find_child
      → ((place : Place) → object_name items place ≢ some q)
      → find_child items q ≡ Option.none
  not_found items q qt absent = elim (Option-cases (find_child items q)) [
    | inl e ↦ e
    | inr (place, e) ↦ absurd (absent place (qt.named items q place e))
  ]

  -- When a service in an ascending directory withdraws, and a service that knew the directory, with the
  -- model as its one listener, browses and returns, the service no longer knows the one that has
  -- withdrawn, and the directory does not list it, but the model keeps every item that it had: nothing
  -- of it is removed, provided that `findChild` does what Qt documents and no item and no value of the
  -- model has the empty name.
  pub withdrawn_stays :
      (w : World) (p : ℕ) (o s t : TestService) (events : List Event) (items : List Item) (l : ℕ)
      → FindsChildren find_child
      → IsAscending w.directory
      → member p w.directory ≡ true
      → s.instances ≡ w.directory
      → s.impl.listeners ≡ l ∷ []
      → ((place : Place) → object_name items place ≢ some [])
      → browse (withdraw w p o) s ≡ some (t, events)
      → (follow format find_child t.impl items events ≡ items)
        × (member p t.instances ≡ false)
        × (member p (withdraw w p o).directory ≡ false)
  withdrawn_stays w p o s t events items l qt asc there same only named e =
      let known =
        browse_known (withdraw w p o) s t events (withdraw-IsAscending w p o asc)
          (subst IsAscending (sym same) asc) e in
      (
        ap (follow format find_child t.impl items) (
              withdrawn_nameless w p o s t events asc there same e
              ∙ ap (λ ls. notify Event.instance_removed ls []) only)
            ∙ told_nameless t.impl items l (not_found items [] qt named),
        ap (member p) known.0 ∙ left_out w p o,
        left_out w p o,
      )
