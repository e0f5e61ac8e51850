-- ===== src/Service/Tests.antt =====
-- Instances of the theorems on the service at concrete services.
use servus.Prelude.{
  ℕ, ◌≡◌, true, false, ◌==◌, if◌then◌else◌, List, [], ◌∷◌, Option, none, some, arith, refl,
}
use servus.Bytes.{codes}
use servus.Bytes.Order.{cmp}
use servus.StdMap
use servus.StdMap.{StdMap}
use servus.Service.{Impl, discover, member, without, get_instance_value}
use servus.Service.TestDriver.{
  TestService, World, new_service, test_name, create, announce, withdraw, browse, test_driver,
  collect, symmetric_difference, toggle, set_insert, values_of, notify_at,
}
use servus.Service.TestDriver.Browse.{browse_dangling}
use servus.Service.TestDriver.Invariant.{IsConsistent, Step, Reach, no_services, Reach-IsConsistent}
use servus.Service.TestDriver.Views.{browse_values, announced_value}
use servus.Service.TestDriver.Withdrawn.{withdrawn_nameless}
use servus.Service.TestDriver.Returns.{browse_returns}
use servus.Service.TestDriver.Discover.{listed, named, discover-named}
use servus.Service.Listener.{Event, notify}

abbrev data_impl : Impl
data_impl = record {
  name = test_name;
  instance_map = [];
  data_map = (codes "foo", codes "bar") ∷ [];
  listeners = 7 ∷ [];
}

-- A service with data and a listener that has announced itself as `desk`.
abbrev desk : TestService
desk = record {
  impl = data_impl;
  instance_name = codes "desk";
  port = 80;
  announced = true;
  browsing = false;
  instances = [];
}

-- A service that browses and knows the one at the address 5.
abbrev viewer : TestService
viewer = record {
  impl = data_impl;
  instance_name = [];
  port = 0;
  announced = false;
  browsing = true;
  instances = 5 ∷ [];
}

abbrev objects : ℕ → Option TestService
objects q = if q == 1 then some desk else if q == 5 then some desk else none

abbrev office : World
office = record { objects = objects; directory = 1 ∷ [] }

abbrev empty_office : World
empty_office = record { objects = λ _. none; directory = 1 ∷ [] }

abbrev seen : Impl
seen = record data_impl {
  instance_map =
      (codes "desk", (codes "foo", codes "bar") ∷ (codes "servus_host", codes "localhost") ∷ [])
      ∷ [];
}

abbrev browsed : TestService
browsed = record viewer { impl = seen; instances = 1 ∷ [] }

abbrev told : List Event
told = Event.instance_added 7 (codes "desk") ∷ Event.instance_removed 7 (codes "desk") ∷ []

office_run : browse office viewer ≡ some (browsed, told)
unfolding browse collect symmetric_difference toggle set_insert without member values_of notify_at
    notify StdMap.insert cmp
office_run = refl

five_known : member 5 viewer.instances ≡ true
unfolding member
five_known = refl

five_left : member 5 empty_office.directory ≡ false
unfolding member
five_left = refl

one_listed : member 1 office.directory ≡ true
unfolding member
one_listed = refl

browse_dangling_example : browse empty_office viewer ≡ none
browse_dangling_example =
    browse_dangling empty_office viewer 5 (tt, tt) (tt, tt) (λ h. cc) five_known five_left refl

only_desk : (q : ℕ) → member q office.directory ≡ true → q ≡ 1
unfolding member
only_desk q m = ground arith

only_known : (q : ℕ) → member q viewer.instances ≡ true → q ≡ 5
unfolding member
only_known q m = ground arith

live_at : (q p : ℕ) → q ≡ p → objects p ≡ some desk → (o : TestService) × (objects q ≡ some o)
live_at q p e h = (desk, rw e h)

browse_values_example :
    get_instance_value browsed.impl desk.instance_name (codes "foo")
    ≡ announced_value desk (codes "foo")
browse_values_example =
    browse_values office viewer browsed told 1 desk office_run (tt, tt) one_listed refl (tt, tt)
      (λ j o m other h. absurd (other (only_desk j m))) (codes "foo")

desk_live : (q : ℕ) → member q office.directory ≡ true → (o : TestService) × (objects q ≡ some o)
desk_live q m = live_at q 1 (only_desk q m) refl

known_live : (q : ℕ) → member q viewer.instances ≡ true → (o : TestService) × (objects q ≡ some o)
known_live q m = live_at q 5 (only_known q m) refl

browse_returns_example :
    (t : TestService) × (events : List Event) × (browse office viewer ≡ some (t, events))
browse_returns_example = browse_returns office viewer (tt, tt) (tt, tt) desk_live known_live

-- Two services are created, and one of them announces itself.
abbrev created : World
created = create (create no_services 1) 5

abbrev announced : World
announced = (announce created 1 new_service 80 (codes "host") []).0

announced_reached : Reach no_services announced
unfolding create
announced_reached =
    Reach.then_step
      (Reach.then_step (Reach.then_step Reach.start (Step.created 1 refl)) (Step.created 5 refl))
      (Step.announces 1 new_service 80 (codes "host") [] refl)

Reach-IsConsistent_example : IsConsistent announced
Reach-IsConsistent_example = Reach-IsConsistent announced_reached

discover-named_example :
    listed (codes "desk") (discover (test_driver office) viewer).1
    ≡ named objects (codes "desk") office.directory
discover-named_example =
    discover-named office viewer (codes "desk") (tt, tt) (tt, tt) desk_live known_live

-- The viewer has browsed the office, and the desk withdraws.
abbrev bare : TestService
bare = record browsed { impl = record seen { instance_map = [] }; instances = [] }

bare_run : browse (withdraw office 1 desk) browsed ≡ some (bare, Event.instance_removed 7 [] ∷ [])
unfolding browse withdraw collect symmetric_difference toggle without member notify_at notify
bare_run = refl

withdrawn_nameless_example :
    (Event.instance_removed 7 [] ∷ []) ≡ notify Event.instance_removed browsed.impl.listeners []
withdrawn_nameless_example =
    withdrawn_nameless office 1 desk browsed bare (Event.instance_removed 7 [] ∷ []) (tt, tt)
      one_listed refl bare_run
