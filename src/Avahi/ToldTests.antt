-- ===== src/Avahi/ToldTests.antt =====
-- A listener of a service over Avahi: it joins, browsing begins, and an instance is found.
use servus.Prelude.{true, false, [], ◌∷◌, ◌≡◌, refl, inr}
use servus.Prelude.Int.{pos}
use servus.Bytes.{codes}
use servus.Bytes.Order.{cmp}
use servus.StdMap
use servus.Service.{add_listener, member}
use servus.Service.Interface.{if_all}
use servus.Service.Listener.{Event, notify}
use servus.Service.Result.{success, code_eq}
use servus.Service.Told.{heard, is_known}
use servus.Avahi.{AvahiService, Callback, Round, resolver_found, returned}
use servus.Avahi.Callbacks.{on_callback, on_resolve, found}
use servus.Avahi.Operations.{
  browse, browse_loop, run_callbacks, begin_browsing, before, new_service, end_browsing,
}
use servus.Avahi.Reach.{Step, Ends}
use servus.Avahi.Told.{Follows, Follows-is_known}
use servus.Avahi.Tests.{add_pair, fine, http}

abbrev pub joined_service : AvahiService
joined_service = record (new_service http) { impl = add_listener (new_service http).impl 7 }

abbrev pub browser : AvahiService
browser = (begin_browsing fine if_all joined_service).0

abbrev found_lamp : Round
found_lamp = record {
  callbacks =
      (Callback.resolve_callback false (resolver_found (codes "lamp") (codes "h") []), fine) ∷ [];
  failed = false;
  elapsed = 100;
}

abbrev pub seen : AvahiService
seen = record browser {
  impl = record browser.impl {
    instance_map = (codes "lamp", (codes "servus_host", codes "h") ∷ []) ∷ [];
  };
  events = Event.instance_added 7 (codes "lamp") ∷ [];
  result = success;
}

seen_run : browse add_pair (pos 100) (found_lamp ∷ []) browser ≡ returned seen success
unfolding browse browse_loop run_callbacks on_callback on_resolve found before code_eq
    begin_browsing new_service add_listener notify StdMap.insert StdMap.find cmp member
seen_run = refl

pub seen-Follows : Follows 7 add_pair seen
unfolding new_service add_listener member
seen-Follows =
    Follows.then_step
      (Follows.then_step (Follows.joined (new_service http) refl refl refl)
        (Step.begins fine if_all) (inr refl))
      (Step.browses (pos 100) (found_lamp ∷ []) seen (Ends.by_return success seen_run)) tt

Follows-is_known_example :
    heard 7 (codes "lamp") false seen.events ≡ is_known seen.impl (codes "lamp")
Follows-is_known_example = Follows-is_known 7 add_pair seen-Follows (codes "lamp")

abbrev pub rested : AvahiService
rested = end_browsing seen

pub lamp_known : is_known rested.impl (codes "lamp") ≡ true
unfolding is_known StdMap.find cmp end_browsing
lamp_known = refl

pub rested_off : rested.browser ≡ false
unfolding end_browsing
rested_off = refl

pub rested-Follows : Follows 7 add_pair rested
rested-Follows = Follows.then_step seen-Follows Step.ends tt
