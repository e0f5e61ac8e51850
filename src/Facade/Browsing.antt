-- ===== src/Facade/Browsing.antt =====
-- `beginBrowsing`, `browse` and `discover` of `servus::Servus`, with what the environment brings to the
-- implementation.
use servus.Prelude.{ℕ, List, Option, none, some}
use servus.Prelude.Int.{ℤ}
use servus.Bytes.{Bytes}
use servus.Service
use servus.Service.Interface.{Interface}
use servus.Service.Result.{success}
use servus.Service.NoneDriver
use servus.Service.TestDriver
use servus.Service.TestDriver.{TestService, World, test_driver}
use servus.Dnssd
use servus.Dnssd.{DnssdService, Select, Browsed}
use servus.Avahi.{AvahiService, Answers, Round, Outcome, returned, thrown, waiting}
use servus.Avahi
use servus.Facade.{Servus, none_servus, test_servus, dnssd_servus, avahi_servus}

-- The services of the process, what Avahi answers and what happens in its rounds, and the error of
-- DNSServiceDiscovery with what its `select`s bring.
pub record Environment : Type 0 where
  pub world : World
  pub answers : Answers
  pub rounds : List Round
  pub error : ℤ
  pub selects : List (Select Browsed)

-- How a call ends: it returns, it throws, or it does neither, because it waits for more than the
-- environment tells or reads through a dangling pointer.
pub data Run (A : Type 0) : Type 0 where
  done : Servus → A → Run A
  threw : Servus → Run A
  stuck : Run A

unfoldable pub begin_browsing : Environment → Interface → Servus → Servus × ℤ
unfolding NoneDriver.begin_browsing TestDriver.begin_browsing Dnssd.begin_browsing
    Avahi.Operations.begin_browsing
begin_browsing env addr (none_servus s) =
    let (t, code) = NoneDriver.begin_browsing s in (none_servus t, code)
begin_browsing env addr (test_servus s) =
    let (t, code) = TestDriver.begin_browsing s in (test_servus t, code)
begin_browsing env addr (dnssd_servus s) =
    let (t, code) = Dnssd.begin_browsing env.error s in (dnssd_servus t, code)
begin_browsing env addr (avahi_servus s) =
    let (t, code) = Avahi.Operations.begin_browsing env.answers addr s in (avahi_servus t, code)

-- What the implementations return, as what the service returns; the test service has a result unless
-- its `browse` reads through a dangling pointer.
unfoldable pub of_test : {A B : Type 0} → Option B → TestService → A → Run A
of_test none t a = stuck
of_test (some told) t a = done (test_servus t) a

unfoldable pub of_dnssd : {A : Type 0} → Option (DnssdService × A) → Run A
of_dnssd none = stuck
of_dnssd (some (t, a)) = done (dnssd_servus t) a

unfoldable pub of_avahi : {A : Type 0} → Outcome A → Run A
of_avahi (returned t a) = done (avahi_servus t) a
of_avahi (thrown t) = threw (avahi_servus t)
of_avahi waiting = stuck

module _ (add_pair : List Bytes → Bytes → Bytes → List Bytes) where
  unfoldable pub browse : Environment → ℤ → Servus → Run ℤ
  unfolding NoneDriver.browse TestDriver.browse Dnssd.browse Avahi.Operations.browse of_test
      of_dnssd of_avahi
  browse env timeout (none_servus s) =
      let (t, code) = NoneDriver.browse s in done (none_servus t) code
  browse env timeout (test_servus s) = elim (TestDriver.browse env.world s) [
    | none ↦ stuck
    | some (t, events) ↦ done (test_servus t) success
  ]
  browse env timeout (dnssd_servus s) = of_dnssd (Dnssd.browse env.selects s)
  browse env timeout (avahi_servus s) =
      of_avahi (Avahi.Operations.browse add_pair timeout env.rounds s)

  -- The test service always calls `browse`.
  unfoldable pub discover : Environment → Interface → ℕ → Servus → Run (List Bytes)
  unfolding Service.discover NoneDriver.none_driver test_driver TestDriver.begin_browsing
      TestDriver.browse Dnssd.Discover.discover Avahi.Discover.discover of_test of_dnssd of_avahi
  discover env addr browse_time (none_servus s) =
      let (t, names) = Service.discover NoneDriver.none_driver s in done (none_servus t) names
  discover env addr browse_time (test_servus s) =
      let (t, names) = Service.discover (test_driver env.world) s in
      of_test (TestDriver.browse env.world (TestDriver.begin_browsing s).0) t names
  discover env addr browse_time (dnssd_servus s) =
      of_dnssd (Dnssd.Discover.discover env.error env.selects s)
  discover env addr browse_time (avahi_servus s) =
      of_avahi (Avahi.Discover.discover add_pair env.answers addr browse_time env.rounds s)
