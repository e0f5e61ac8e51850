-- ===== src/Facade/Discover.antt =====
-- What `discover` leaves behind, whatever the implementation.
use servus.Prelude.{ℕ, Bool, Option, ◌||◌, List, none, some, ◌≡◌, refl}
use servus.Bytes.{Bytes}
use servus.Service
use servus.Service.{get_instances}
use servus.Service.Laws.{discover_keeps_browsing, test_driver-BrowsingLaws}
use servus.Service.Interface.{Interface}
use servus.Service.NoneDriver
use servus.Service.TestDriver
use servus.Service.TestDriver.{TestService, World, test_driver}
use servus.Dnssd
use servus.Dnssd.{DnssdService}
use servus.Avahi.{AvahiService, Outcome, returned, thrown, waiting}
use servus.Avahi
use servus.Facade.{
  Servus, none_servus, test_servus, dnssd_servus, avahi_servus, is_browsing, impl_of,
}
use servus.Facade.Browsing.{
  Environment, Run, done, threw, stuck, discover, of_test, of_dnssd, of_avahi,
}

-- How a `discover` has left a service that was browsing or was not, where `opened` says whether the
-- browsing has begun.
abbrev pub Restores : Bool → Bool → Run (List Bytes) → Type 0
Restores was opened (done t names) = (is_browsing t ≡ was) × (names ≡ get_instances (impl_of t))
Restores was opened (threw t) = is_browsing t ≡ opened
Restores was opened stuck = Unit

of_test-Restores :
    {B : Type 0} (was opened : Bool) (o : Option B) (t : TestService) (names : List Bytes)
    → (t.browsing ≡ was) × (names ≡ get_instances t.impl)
    → Restores was opened (of_test o t names)
unfolding of_test is_browsing impl_of
of_test-Restores was opened none t names h = tt
of_test-Restores was opened (some told) t names h = h

names_known :
    (w : World) (s : TestService)
    → (Service.discover (test_driver w) s).1
      ≡ get_instances (Service.discover (test_driver w) s).0.impl
unfolding Service.discover test_driver
names_known w s = refl

of_dnssd-Restores :
    (was opened : Bool) (o : Option (DnssdService × List Bytes))
    → Dnssd.Discover.Restores was o
    → Restores was opened (of_dnssd o)
unfolding of_dnssd is_browsing impl_of
of_dnssd-Restores was opened none h = tt
of_dnssd-Restores was opened (some (t, names)) h = h

module _ (add_pair : List Bytes → Bytes → Bytes → List Bytes) where
  of_avahi-Restores :
      (was opened : Bool) (o : Outcome (List Bytes))
      → Avahi.Discover.Restores add_pair was opened o
      → Restores was opened (of_avahi o)
  unfolding of_avahi is_browsing impl_of
  of_avahi-Restores was opened (returned t names) h = h
  of_avahi-Restores was opened (thrown t) h = h
  of_avahi-Restores was opened waiting h = tt

  -- On every implementation, if `discover` returns, the service browses exactly if it did before, and
  -- the names are those of the instances that it knows then. If it throws, it has left open the browser
  -- that was there or that Avahi has made.
  pub discover_on_any :
      (env : Environment) (addr : Interface) (browse_time : ℕ) (s : Servus)
      → Restores
          (is_browsing s)
          (is_browsing s || env.answers.browser_new)
          (discover add_pair env addr browse_time s)
  unfolding discover is_browsing impl_of NoneDriver.is_browsing NoneDriver.none_driver
      Service.discover NoneDriver.begin_browsing Service.Result.code_eq
  discover_on_any env addr browse_time (none_servus s) = (refl, refl)
  discover_on_any env addr browse_time (test_servus s) =
      of_test-Restores s.browsing (s.browsing || env.answers.browser_new)
        (TestDriver.browse env.world (TestDriver.begin_browsing s).0)
        (Service.discover (test_driver env.world) s).0
        (Service.discover (test_driver env.world) s).1
        (
          discover_keeps_browsing (test_driver env.world) (λ t. t.browsing) s
              (test_driver-BrowsingLaws env.world),
          names_known env.world s,
        )
  discover_on_any env addr browse_time (dnssd_servus s) =
      of_dnssd-Restores s.in_open (s.in_open || env.answers.browser_new)
        (Dnssd.Discover.discover env.error env.selects s)
        (Dnssd.Discover.discover-Restores env.error env.selects s)
  discover_on_any env addr browse_time (avahi_servus s) =
      of_avahi-Restores s.browser (s.browser || env.answers.browser_new)
        (Avahi.Discover.discover add_pair env.answers addr browse_time env.rounds s)
        (Avahi.Discover.discover-Restores add_pair env.answers addr browse_time env.rounds s)
