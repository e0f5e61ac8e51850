-- ===== src/Facade/Tests.antt =====
-- Instances of the theorems on the service at concrete implementations.
use servus.Prelude.{
  none, ◌==◌, ◌||◌, true, false, List, [], ◌∷◌, ◌++◌, some, ◌≡◌, refl, All, if◌then◌else◌, subst,
}
use servus.Prelude.Int.{pos, negsuc}
use servus.Bytes.{Bytes, codes}
use servus.Bytes.Order.{str_eq}
use servus.StdMap.Sorted.{IsSorted}
use servus.Dnssd
use servus.Dnssd.{DnssdService}
use servus.Avahi.{Answers, Callback, ClientState}
use servus.Facade.{
  Build, Servus, dnssd_servus, avahi_servus, test_servus, choose_implementation, set, impl_of,
  get_name, get, get_data, is_browsing,
}
use servus.Service.Result.{success}
use servus.Service.Interface.{Interface}
use servus.Service.TestDriver.Invariant.{no_services}
use servus.Avahi
use servus.Service.TestDriver.{TestService, World, new_service}
use servus.Facade.Announce.{Withdrawn, withdraw, withdraw_on_any}
use servus.Facade.Browsing.{Environment, discover}
use servus.Facade.Discover.{Restores, discover_on_any}
use servus.Facade.Laws.{set_on_any}
use servus.Facade.Start.{IsClientCallback, Starts, choose_implementation-Starts}

abbrev add_pair : List Bytes → Bytes → Bytes → List Bytes
add_pair l k v = (k ++ b'=' ∷ v) ∷ l

abbrev refusing : Answers
refusing = record {
  group_new = false;
  add_service = negsuc 0;
  commit = negsuc 0;
  browser_new = false;
  resolver_new = false;
  client_errno = negsuc 0;
}

-- A service over DNSServiceDiscovery that is announced; the library refuses the update of the record.
abbrev named : Servus
named = dnssd_servus (record (Dnssd.new_service (codes "_http._tcp")) { out_open = true })

named-IsSorted : IsSorted (impl_of named).data_map
unfolding impl_of Dnssd.new_service
named-IsSorted = tt

set_on_any_example :
    (get (set add_pair (pos 5) refusing named (codes "a") (codes "b")) (codes "a")
      ≡ (if str_eq (codes "a") (codes "a") then codes "b" else get named (codes "a")))
    × IsSorted (impl_of (set add_pair (pos 5) refusing named (codes "a") (codes "b"))).data_map
    × (get_name (set add_pair (pos 5) refusing named (codes "a") (codes "b")) ≡ get_name named)
    × (get_data (set add_pair (pos 5) refusing named (codes "a") (codes "b")) ≡ get_data named)
    × (is_browsing (set add_pair (pos 5) refusing named (codes "a") (codes "b"))
        ≡ is_browsing named)
set_on_any_example =
    set_on_any add_pair (pos 5) refusing named (codes "a") (codes "b") (codes "a") named-IsSorted

-- The client of Avahi registers its own records, so the constructor throws.
abbrev registering : List (Callback × Answers)
registering = (Callback.client_callback ClientState.s_registering, refusing) ∷ []

only_client :
    (cs : List (Callback × Answers))
    → some registering ≡ some cs
    → All (λ c. IsClientCallback c.0) cs
only_client cs e =
    let same : registering ≡ cs = cc in
    subst (All (λ c. IsClientCallback c.0)) same ((ClientState.s_registering, refl), tt)

choose_implementation-Starts_example :
    Starts
      (codes "_http._tcp")
      (choose_implementation add_pair Build.with_avahi (codes "_http._tcp") (some registering))
choose_implementation-Starts_example =
    choose_implementation-Starts add_pair Build.with_avahi (codes "_http._tcp") (some registering)
      only_client

-- Avahi makes the browser, and the client then has to register its records.
abbrev interrupted : Environment
interrupted = record {
  world = no_services;
  answers = record refusing { browser_new = true };
  rounds = record { callbacks = registering; failed = false; elapsed = 1 } ∷ [];
  error = success;
  selects = [];
}

abbrev searching : Servus
searching = avahi_servus (Avahi.Operations.new_service (codes "_http._tcp"))

discover_on_any_example :
    Restores
      (is_browsing searching)
      (is_browsing searching || interrupted.answers.browser_new)
      (discover add_pair interrupted Interface.if_all 100 searching)
discover_on_any_example = discover_on_any add_pair interrupted Interface.if_all 100 searching

-- An announced service of the process at the address 1.
abbrev at_desk : TestService
at_desk = record new_service { announced = true; instance_name = codes "desk"; port = 80 }

abbrev desks : World
desks = record { objects = λ q. if q == 1 then some at_desk else none; directory = 1 ∷ [] }

withdraw_on_any_example : Withdrawn (test_servus at_desk) (withdraw desks 1 (test_servus at_desk)).1
withdraw_on_any_example = withdraw_on_any desks 1 (test_servus at_desk)
