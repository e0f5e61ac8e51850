-- ===== src/Facade.antt =====
-- `servus::Servus` (servus/servus.cpp): the service that a program holds, which is one of the four
-- implementations, and the choice between them.
pub mod Laws
pub mod Start
pub mod Browsing
pub mod Discover
pub mod Announce
pub mod Instances
mod Tests
use servus.Prelude.{Bool, true, false, List, Option, none, some, if◌then◌else◌}
use servus.Prelude.Int.{ℤ}
use servus.Bytes.{Bytes}
use servus.Bytes.Order.{str_eq}
use servus.StdMap.{StdMap}
use servus.Avahi
use servus.Service
use servus.Service.{Impl, Shown, new_impl, set_data}
use servus.Service.NoneDriver
use servus.Service.TestDriver
use servus.Service.TestDriver.{TestService, test_name}
use servus.Dnssd
use servus.Dnssd.{DnssdService}
use servus.Avahi.{AvahiService, Answers, Callback, Outcome, returned, thrown, waiting}
use servus.Avahi.Publish
use servus.Avahi.Operations

-- Which of `SERVUS_USE_DNSSD` and `SERVUS_USE_AVAHI_CLIENT` the library is compiled with.
pub data Build : Type 0 where
  with_dnssd with_avahi without_zeroconf : Build

-- What `_impl` points to.
pub data Servus : Type 0 where
  none_servus : Impl → Servus
  test_servus : TestService → Servus
  dnssd_servus : DnssdService → Servus
  avahi_servus : AvahiService → Servus

unfoldable pub is_available : Build → Bool
is_available with_dnssd = true
is_available with_avahi = true
is_available without_zeroconf = false

-- Behind the constructor of `avahi::Servus`: what it throws is caught. It does not wait.
unfoldable pub started : Bytes → Option (Outcome (Unit {0})) → Option Servus
unfolding new_impl
started name none = some (none_servus (new_impl name))
started name (some (returned s _)) = some (avahi_servus s)
started name (some (thrown s)) = some (none_servus (new_impl name))
started name (some waiting) = none

module _ (add_pair : List Bytes → Bytes → Bytes → List Bytes) where
  -- The implementation that the build has, for what happens when the client of Avahi is made.
  unfoldable pub start : Build → Bytes → Option (List (Callback × Answers)) → Option Servus
  unfolding started new_impl Dnssd.new_service Avahi.Operations.construct
  start with_dnssd name client = some (dnssd_servus (Dnssd.new_service name))
  start with_avahi name client = started name (Avahi.Operations.construct add_pair name client)
  start without_zeroconf name client = some (none_servus (new_impl name))

  unfoldable pub choose_implementation :
      Build → Bytes → Option (List (Callback × Answers)) → Option Servus
  unfolding start
  choose_implementation build name client =
      if str_eq name test_name
      then some (test_servus TestDriver.new_service)
      else start build name client

  -- `set`, for the answers to the update of the record.
  unfoldable pub set : ℤ → Answers → Servus → Bytes → Bytes → Servus
  unfolding set_data Dnssd.set Avahi.Publish.set
  set error a (none_servus s) key value = none_servus (set_data s key value)
  set error a (test_servus s) key value =
      test_servus (record s { impl = set_data s.impl key value })
  set error a (dnssd_servus s) key value = dnssd_servus (Dnssd.set error s key value)
  set error a (avahi_servus s) key value = avahi_servus (Avahi.Publish.set add_pair a s key value)

unfoldable pub impl_of : Servus → Impl
impl_of (none_servus s) = s
impl_of (test_servus s) = s.impl
impl_of (dnssd_servus s) = s.impl
impl_of (avahi_servus s) = s.impl

unfoldable pub get_name : Servus → Bytes
unfolding impl_of
get_name s = (impl_of s).name

unfoldable pub get : Servus → Bytes → Bytes
unfolding impl_of Service.get
get s key = Service.get (impl_of s) key

unfoldable pub get_data : Servus → StdMap (StdMap Bytes)
unfolding impl_of
get_data s = (impl_of s).instance_map

unfoldable pub is_announced : Servus → Bool
unfolding NoneDriver.is_announced Avahi.Publish.is_announced
is_announced (none_servus s) = NoneDriver.is_announced s
is_announced (test_servus s) = s.announced
is_announced (dnssd_servus s) = s.out_open
is_announced (avahi_servus s) = Avahi.Publish.is_announced s

unfoldable pub is_browsing : Servus → Bool
unfolding NoneDriver.is_browsing
is_browsing (none_servus s) = NoneDriver.is_browsing s
is_browsing (test_servus s) = s.browsing
is_browsing (dnssd_servus s) = s.in_open
is_browsing (avahi_servus s) = s.browser

unfoldable pub end_browsing : Servus → Servus
unfolding NoneDriver.end_browsing TestDriver.end_browsing Dnssd.end_browsing
    Avahi.Operations.end_browsing
end_browsing (none_servus s) = none_servus (NoneDriver.end_browsing s)
end_browsing (test_servus s) = test_servus (TestDriver.end_browsing s)
end_browsing (dnssd_servus s) = dnssd_servus (Dnssd.end_browsing s)
end_browsing (avahi_servus s) = avahi_servus (Avahi.Operations.end_browsing s)
