-- ===== src/Dnssd/ToldTests.antt =====
-- A listener of a service over DNSServiceDiscovery: it joins, browsing begins, and an instance comes.
use servus.Prelude.{false, [], ◌∷◌, List, some, ◌≡◌, refl, inr}
use servus.Bytes.{codes}
use servus.Bytes.Order.{cmp}
use servus.StdMap
use servus.Service.{add_listener, member}
use servus.Service.Listener.{Event, notify}
use servus.Service.Result.{success, code_eq}
use servus.Service.Told.{heard, is_known}
use servus.Dnssd.{
  DnssdService, Select, timed_out, processed, Browsed, browse_add, new_service, begin_browsing,
  browse, handle_events, select_step, run_all, process_error, browse_callback, resolve_callback,
  resolve, add_items,
}
use servus.Dnssd.Reach.{Step}
use servus.Dnssd.Told.{Follows, Follows-heard}

abbrev joined_service : DnssdService
joined_service = record (new_service (codes "_http._tcp")) {
  impl = add_listener (new_service (codes "_http._tcp")).impl 7;
}

abbrev browser : DnssdService
browser = (begin_browsing success joined_service).0

-- The instance is resolved, and then the select of `browse` times out.
abbrev selects : List (Select Browsed)
selects =
    processed
      (browse_add (codes "lamp") (
          some (
            processed (record { error = success; host = codes "h"; items = [] } ∷ []) success ∷ []))
        ∷ [])
      success
    ∷ timed_out
    ∷ []

abbrev seen : DnssdService
seen = record browser {
  impl = record browser.impl {
    instance_map = (codes "lamp", (codes "servus_host", codes "h") ∷ []) ∷ [];
  };
  browsed_name = codes "lamp";
  events = Event.instance_added 7 (codes "lamp") ∷ [];
}

seen_run : browse selects browser ≡ some (seen, success)
unfolding browse handle_events select_step run_all process_error browse_callback resolve_callback
    resolve add_items code_eq begin_browsing new_service add_listener notify StdMap.insert
    StdMap.find cmp member
seen_run = refl

seen-Follows : Follows 7 seen
unfolding new_service add_listener member
seen-Follows =
    Follows.then_step
      (Follows.then_step (Follows.joined (new_service (codes "_http._tcp")) refl refl refl)
        (Step.begins success) (inr refl))
      (Step.browses selects seen success seen_run) tt

Follows-heard_example : heard 7 (codes "lamp") false seen.events ≡ is_known seen.impl (codes "lamp")
Follows-heard_example = Follows-heard 7 seen-Follows (codes "lamp")
