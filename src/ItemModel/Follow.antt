-- ===== src/ItemModel/Follow.antt =====
-- The model as a listener of the test service: it follows the directory.
use servus.Prelude.{
  ℕ, Bool, true, false, ◌||◌, List, [], ◌∷◌, ◌++◌, Option, some, ◌≡◌, inl, inr, refl, sym, ◌∙◌,
  subst, arith, All, Bool-cases, append_assoc, append-nil,
}
use servus.Bytes.{Bytes}
use servus.Service.{Impl, member, without}
use servus.Service.Listener.{Event, notify}
use servus.Service.TestDriver.{
  TestService, World, browse, toggle, notify_at, set_insert, symmetric_difference,
}
use servus.Service.TestDriver.Sets.{IsAscending, member-difference}
use servus.Service.TestDriver.Browse.{browse_known, browse_told}
use servus.ItemModel.{Item, Place, instance_added, instance_removed}
use servus.ItemModel.Finder.{FindsChildren}
use servus.ItemModel.Agrees.{
  InPlay, Agrees, All-without, All-set_insert, removed-Agrees, added-Agrees,
}

-- The items behind the calls of the listener, where the service has found `service`.
module _ (format : Bytes → Bytes → Bytes) (find_child : List Item → Bytes → Option Place) where
  unfoldable pub follow : Impl → List Item → List Event → List Item
  follow service items [] = items
  follow service items (Event.instance_added l name ∷ events) =
      follow service (instance_added format find_child service items name).0 events
  follow service items (Event.instance_removed l name ∷ events) =
      follow service (instance_removed format find_child items name).0 events

module _ (objects : ℕ → Option TestService) (l : ℕ) where
  toggle_ends :
      (is : List ℕ) (events : List Event) (known : List ℕ) (told : List Event)
      → toggle objects (l ∷ []) [] is events ≡ some (known, told)
      → (is ≡ known) × (events ≡ told)
  unfolding toggle
  toggle_ends is events known told e = (cc, cc)

  -- One round of the loop of `browse`, for the one listener.
  toggle_old :
      (i : ℕ) (diff instances : List ℕ) (events : List Event) (o : TestService)
      → objects i ≡ some o
      → member i instances ≡ true
      → toggle objects (l ∷ []) (i ∷ diff) instances events
        ≡ toggle objects
            (l ∷ [])
            diff
            (without i instances)
            (events ++ Event.instance_removed l o.instance_name ∷ [])
  unfolding toggle notify_at notify
  toggle_old i diff instances events o live old = rw (old, live, toggle, notify_at) refl

  toggle_new :
      (i : ℕ) (diff instances : List ℕ) (events : List Event) (o : TestService)
      → objects i ≡ some o
      → member i instances ≡ false
      → toggle objects (l ∷ []) (i ∷ diff) instances events
        ≡ toggle objects
            (l ∷ [])
            diff
            (set_insert i instances)
            (events ++ Event.instance_added l o.instance_name ∷ [])
  unfolding toggle notify_at notify
  toggle_new i diff instances events o live new = rw (new, live, toggle, notify_at) refl

module _ (format : Bytes → Bytes → Bytes) (objects : ℕ → Option TestService) (plays : ℕ → Bool)
    (in_play : InPlay format objects plays) where
  module _ (find_child : List Item → Bytes → Option Place) (qt : FindsChildren find_child)
      (service : Impl) where
    follows_toggle :
        (l : ℕ) (diff is : List ℕ) (events : List Event) (known : List ℕ) (told : List Event)
        (items : List Item)
        → All (λ p. plays p ≡ true) diff
        → All (λ p. plays p ≡ true) is
        → toggle objects (l ∷ []) diff is events ≡ some (known, told)
        → Agrees objects plays items is
        → (new : List Event) × (told ≡ events ++ new)
          × Agrees objects plays (follow format find_child service items new) known
    unfolding follow
    follows_toggle l [] is events known told items pd ps e a =
        let (same, path) = toggle_ends objects l is events known told e in
        ([], sym path ∙ sym (append-nil events), subst (Agrees objects plays items) same a)
    follows_toggle l (i ∷ diff) is events known told items pd ps e a =
        let (o, live) = in_play.live i pd.0 in
        elim (Bool-cases (member i is)) [
          | inl old ↦
              let (new, path, agrees) =
                follows_toggle l diff (without i is)
                  (events ++ Event.instance_removed l o.instance_name ∷ []) known told
                  (instance_removed format find_child items o.instance_name).0 pd.1
                  (All-without format objects plays in_play i is ps)
                  (sym (toggle_old objects l i diff is events o live old) ∙ e)
                  (removed-Agrees format objects plays in_play find_child qt service i o items is
                    pd.0 ps live a) in
              (
                Event.instance_removed l o.instance_name ∷ new,
                path ∙ append_assoc events (Event.instance_removed l o.instance_name ∷ []) new,
                agrees,
              )
          | inr fresh ↦
              let (new, path, agrees) =
                follows_toggle l diff (set_insert i is)
                  (events ++ Event.instance_added l o.instance_name ∷ []) known told
                  (instance_added format find_child service items o.instance_name).0 pd.1
                  (All-set_insert format objects plays in_play i is pd.0 ps)
                  (sym (toggle_new objects l i diff is events o live fresh) ∙ e)
                  (added-Agrees format objects plays in_play find_child qt service i o items is pd.0
                    live a) in
              (
                Event.instance_added l o.instance_name ∷ new,
                path ∙ append_assoc events (Event.instance_added l o.instance_name ∷ []) new,
                agrees,
              )
        ]

-- The services that are announced, and those that the browser knows.
abbrev pub in_view : World → TestService → ℕ → Bool
in_view w s q = member q w.directory || member q s.instances

All-member : (P : ℕ → Type 0) (is : List ℕ) → ((q : ℕ) → member q is ≡ true → P q) → All P is
unfolding member
All-member P [] h = tt
All-member P (i ∷ is) h = (h i (ground arith), All-member P is (λ q m. h q (ground arith)))

-- If the model of a service shows, each once, the names that the services which the service knows have
-- when `browse` is called, and is its one listener, then after a `browse` that returns it shows exactly
-- the services in the directory, each once, provided that `findChild` does what Qt documents, the
-- directory and the known instances are ascending, all services in view are live and have different
-- names, and no text of a value is such a name. So none of the known services has withdrawn, taken
-- another name or gone since the model showed it: a service that withdraws clears its name.
pub model_follows :
    (format : Bytes → Bytes → Bytes) (find_child : List Item → Bytes → Option Place) (w : World)
    (s t : TestService) (events : List Event) (items : List Item) (l : ℕ)
    → FindsChildren find_child
    → InPlay format w.objects (in_view w s)
    → IsAscending w.directory
    → IsAscending s.instances
    → s.impl.listeners ≡ l ∷ []
    → browse w s ≡ some (t, events)
    → Agrees w.objects (in_view w s) items s.instances
    → Agrees w.objects (in_view w s) (follow format find_child t.impl items events) w.directory
model_follows format find_child w s t events items l qt in_play ad ai only e a =
    let diff : List ℕ = symmetric_difference w.directory s.instances in
    let told : toggle w.objects (l ∷ []) diff s.instances [] ≡ some (t.instances, events) =
      subst (λ ls. toggle w.objects ls diff s.instances [] ≡ some (t.instances, events)) only
        (browse_told w s t events e) in
    let (new, path, agrees) =
      follows_toggle format w.objects (in_view w s) in_play find_child qt t.impl l diff s.instances
        [] t.instances events items
        (All-member _ diff
          (λ q m. ground (arith, member-difference q w.directory s.instances ad ai)))
        (All-member _ s.instances (λ q m. ground arith)) told a in
    subst
      (λ es. Agrees w.objects (in_view w s) (follow format find_child t.impl items es) w.directory)
      (sym path)
      (subst (Agrees w.objects (in_view w s) (follow format find_child t.impl items new))
        (browse_known w s t events ad ai e).0 agrees)
