-- ===== src/Avahi/Tests.antt =====
-- Instances of the theorems on the service over Avahi.
use servus.Prelude.{
  ℕ, ◌+◌, true, false, ◌&&◌, ◌||◌, List, [], ◌∷◌, ◌++◌, none, some, ◌≡◌, refl, if◌then◌else◌, ltb,
  arith,
}
use servus.Prelude.Int.{pos, negsuc}
use servus.Bytes.{Bytes, codes, c_str, find_first_of}
use servus.Bytes.Find.{find_first_of-none}
use servus.Bytes.Order.{str_eq}
use servus.StdMap
use servus.Service.{get_instance_value}
use servus.Service.Interface.{if_local}
use servus.Service.Result.{success, pending, poll_error, code_eq}
use servus.Avahi.{
  AvahiService, Answers, BrowserEvent, ClientState, Callback, Round, returned, resolver_found,
  resolver_failure,
}
use servus.Avahi.Publish.{to_publish, create_services, is_announced, set}
use servus.Avahi.Callbacks.{is_equals, on_callback, on_client, found}
use servus.Avahi.Operations.{
  announce, browse, browse_loop, before, run_callbacks, new_service, renamed,
}
use servus.Avahi.Current.{IsCurrent}
use servus.Avahi.Reach.{Reach, Step, Ends, Reach-IsCurrent}
use servus.Avahi.RoundTrip.{IsPublishable, found-published}
use servus.Avahi.Polling.{browse-failures}
use servus.Avahi.Failures.{
  Elsewhere, is_found, is_resolved, elsewhere, has_group, resolvers_leak,
  is_announced-create_services, announce-is_announced,
}

abbrev pub add_pair : List Bytes → Bytes → Bytes → List Bytes
add_pair l k v = (k ++ b'=' ∷ v) ∷ l

-- Every call of Avahi succeeds.
abbrev pub fine : Answers
fine = record {
  group_new = true;
  add_service = success;
  commit = success;
  browser_new = true;
  resolver_new = true;
  client_errno = negsuc 0;
}

abbrev running : List (Callback × Answers)
running = (Callback.client_callback ClientState.s_running, fine) ∷ []

abbrev pub http : Bytes
http = codes "_http._tcp"

abbrev idle : AvahiService
idle = record (new_service http) { announcable = true }

idle_run : run_callbacks add_pair running (new_service http) ≡ returned idle tt
unfolding run_callbacks on_callback on_client new_service
idle_run = refl

-- The service announces itself under the name of the host, and then sets a key.
abbrev named : AvahiService
named =
    create_services add_pair fine
      (record idle { result = pending; port = 80; announced_name = codes "host" })

named_run : Ends (announce add_pair fine 0 [] 80 (codes "host") [] idle) named
unfolding announce
named_run = Ends.by_return named.result refl

IsCurrent_reached : Reach add_pair (set add_pair fine named (codes "a") (codes "b"))
IsCurrent_reached =
    Reach.then_step
      (Reach.then_step (Reach.constructed http running idle idle_run)
        (Step.announces fine 0 [] 80 (codes "host") [] named refl named_run))
      (Step.sets fine (codes "a") (codes "b"))

Reach-IsCurrent_example : IsCurrent add_pair (set add_pair fine named (codes "a") (codes "b"))
Reach-IsCurrent_example = Reach-IsCurrent add_pair IsCurrent_reached

-- A service with two keys, one of which replaces the host.
abbrev speaker : AvahiService
speaker = record (new_service http) {
  impl = record {
    name = http;
    instance_map = [];
    data_map = (codes "a", codes "b=c") ∷ (codes "servus_host", codes "there") ∷ [];
    listeners = [];
  };
}

speaker-IsPublishable : IsPublishable speaker.impl.data_map
unfolding c_str find_first_of
speaker-IsPublishable = (
  find_first_of-none is_equals (codes "a") refl,
  refl,
  refl,
  (find_first_of-none is_equals (codes "servus_host") refl, refl, refl, tt),
)

found-published_example :
    get_instance_value
      (found (codes "host") (codes "h.local") (to_publish add_pair speaker).txt idle).impl
      (codes "host")
      (codes "a")
    ≡ elim (StdMap.find (codes "a") speaker.impl.data_map) [
      | some v ↦ v
      | none ↦
          if str_eq (codes "a") (codes "servus_host")
          then codes "h.local"
          else get_instance_value idle.impl (codes "host") (codes "a")
    ]
found-published_example =
    found-published add_pair (λ l k v. refl) speaker idle (codes "host") (codes "h.local")
      (codes "a") speaker-IsPublishable

abbrev failing : ℕ → Round
failing t = record { callbacks = []; failed = true; elapsed = t }

abbrev last : Round
last = record { callbacks = []; failed = false; elapsed = 100 }

is_over : before 100 (pos 100) ≡ false
unfolding before
is_over = refl

is_early : before 5 (pos 100) ≡ true
unfolding before
is_early = refl

browse-failures_example :
    let code = if ltb 1 10 then success else poll_error in
    browse add_pair (pos 100) (failing 5 ∷ last ∷ []) idle
    ≡ returned (record idle { result = code }) code
browse-failures_example =
    browse-failures add_pair (pos 100) (failing 5 ∷ []) [] last idle (refl, is_early, tt) refl
      is_over

-- A round in which the client fails.
abbrev broken : Round
broken = record {
  callbacks = (Callback.client_callback ClientState.failure, fine) ∷ [];
  failed = false;
  elapsed = 100;
}

abbrev quitting : AvahiService
quitting = record idle { result = success; quit = true }

broken_run : browse add_pair (pos 100) (broken ∷ []) idle ≡ returned quitting success
unfolding browse browse_loop run_callbacks on_callback on_client before code_eq
broken_run = refl

abbrev local : AvahiService
local = record idle { scope = if_local }

-- Two instances are found before what their resolvers say is heard, in the other order.
abbrev two_elsewhere : List Elsewhere
two_elsewhere =
    is_found (codes "host") fine refl
    ∷ is_found (codes "lamp") fine refl
    ∷ is_resolved (resolver_found (codes "lamp") (codes "there") []) fine
    ∷ is_resolved resolver_failure fine
    ∷ []

resolvers_leak_example :
    run_callbacks add_pair (elsewhere two_elsewhere) local
    ≡ returned (record local { resolvers = 2 + local.resolvers }) tt
resolvers_leak_example = resolvers_leak add_pair two_elsewhere local refl

-- The commit fails.
abbrev uncommitted : Answers
uncommitted = record fine { commit = negsuc 4 }

is_announced-create_services_example :
    is_announced (create_services add_pair uncommitted idle)
    ≡ ((has_group idle.group || uncommitted.group_new) && code_eq uncommitted.add_service success)
is_announced-create_services_example = is_announced-create_services add_pair uncommitted idle

-- The client is not running, and the browser has all for now.
abbrev early : Round
early = record {
  callbacks = (Callback.browse_callback BrowserEvent.all_for_now, fine) ∷ [];
  failed = false;
  elapsed = 1;
}

announce-is_announced_example :
    (announce add_pair fine 0 (early ∷ []) 80 (codes "host") [] (new_service http)
      ≡ returned
          (record (renamed 80 (codes "host") [] (new_service http)) { result = success })
          success)
    × (is_announced (record (renamed 80 (codes "host") [] (new_service http)) { result = success })
        ≡ false)
unfolding new_service
announce-is_announced_example =
    announce-is_announced add_pair fine fine 0 early [] 80 (codes "host") [] (new_service http) refl
      refl (omega arith) refl
