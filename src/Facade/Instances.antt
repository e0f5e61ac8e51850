-- ===== src/Facade/Instances.antt =====
-- The queries of `servus::Servus` on its keys and on the instances that it has found, its listeners,
-- and what `operator<<` prints, over whichever implementation it has (servus/servus.cpp).
use servus.Prelude.{
  ℕ, Bool, List, [], Option, none, some, ◌≡◌, refl, ap, ◌∙◌, take, ◌==◌, ◌||◌, ◌&&◌, not,
}
use servus.Bytes.{Bytes, codes, c_str}
use servus.Service
use servus.Service.{Impl, Shown, member}
use servus.Service.Laws.{listeners_change}
use servus.Facade.{
  Servus, none_servus, test_servus, dnssd_servus, avahi_servus, impl_of, is_announced, is_browsing,
}

unfoldable pub get_keys : Servus → List Bytes
unfolding impl_of Service.get_keys
get_keys s = Service.get_keys (impl_of s)

unfoldable pub get_instances : Servus → List Bytes
unfolding impl_of Service.get_instances
get_instances s = Service.get_instances (impl_of s)

unfoldable pub get_instance_keys : Servus → Bytes → List Bytes
unfolding impl_of Service.get_instance_keys
get_instance_keys s instance' = Service.get_instance_keys (impl_of s) instance'

unfoldable pub contains_key : Servus → Bytes → Bytes → Bool
unfolding impl_of Service.contains_key
contains_key s instance' key = Service.contains_key (impl_of s) instance' key

unfoldable pub get_instance_value : Servus → Bytes → Bytes → Bytes
unfolding impl_of Service.get_instance_value
get_instance_value s instance' key = Service.get_instance_value (impl_of s) instance' key

unfoldable pub get_host : Servus → Bytes → Bytes
unfolding get_instance_value
get_host s instance' = get_instance_value s instance' (codes "servus_host")

-- What the implementations override `getClassName` with.
abbrev none_class : Bytes
none_class = codes "none"

abbrev test_class : Bytes
test_class = codes "test"

abbrev dnssd_class : Bytes
dnssd_class = codes "dnssd"

abbrev avahi_class : Bytes
avahi_class = codes "avahi"

unfoldable pub get_class_name : Servus → Bytes
get_class_name (none_servus s) = none_class
get_class_name (test_servus s) = test_class
get_class_name (dnssd_servus s) = dnssd_class
get_class_name (avahi_servus s) = avahi_class

abbrev with_impl : Impl → Servus → Servus
with_impl i (none_servus s) = none_servus i
with_impl i (test_servus s) = test_servus (record s { impl = i })
with_impl i (dnssd_servus s) = dnssd_servus (record s { impl = i })
with_impl i (avahi_servus s) = avahi_servus (record s { impl = i })

unfoldable pub add_listener : Servus → ℕ → Servus
unfolding impl_of Service.add_listener
add_listener s l = with_impl (Service.add_listener (impl_of s) l) s

unfoldable pub remove_listener : Servus → ℕ → Servus
unfolding impl_of Service.remove_listener
remove_listener s l = with_impl (Service.remove_listener (impl_of s) l) s

-- `operator<<`.
unfoldable pub print : Servus → Bytes
unfolding Service.print is_announced is_browsing get_class_name impl_of
print s =
    Service.print
      record { announced = is_announced s; browsing = is_browsing s; class_name = get_class_name s }
      (impl_of s)

abbrev ni_maxhost : ℕ
ni_maxhost = 1025

-- `getHostname`: the buffer is zero before `gethostname` writes the name of the host to it, which may
-- be cut; `none` is a call that fails and leaves the buffer.
unfoldable pub get_hostname : Option Bytes → Bytes
unfolding c_str
get_hostname none = []
get_hostname (some name) = c_str (take ni_maxhost name)

impl_of-with_impl : (i : Impl) (s : Servus) → impl_of (with_impl i s) ≡ i
unfolding impl_of
impl_of-with_impl i (none_servus s) = refl
impl_of-with_impl i (test_servus s) = refl
impl_of-with_impl i (dnssd_servus s) = refl
impl_of-with_impl i (avahi_servus s) = refl

with_impl_keeps :
    (i : Impl) (s : Servus)
    → (is_announced (with_impl i s) ≡ is_announced s)
      × (is_browsing (with_impl i s) ≡ is_browsing s)
      × (get_class_name (with_impl i s) ≡ get_class_name s)
unfolding is_announced is_browsing get_class_name
with_impl_keeps i (none_servus s) = (refl, refl, refl)
with_impl_keeps i (test_servus s) = (refl, refl, refl)
with_impl_keeps i (dnssd_servus s) = (refl, refl, refl)
with_impl_keeps i (avahi_servus s) = (refl, refl, refl)

-- Over any implementation, adding a listener other than the null pointer makes it a member and removing
-- it ends that; the null pointer changes nothing, the other listeners stay as they are, and the service
-- is announced and browses exactly if it did before.
pub listeners_on_any :
    (s : Servus) (l z : ℕ)
    → (member z (impl_of (add_listener s l)).listeners
        ≡ ((not (l == 0) && z == l) || member z (impl_of s).listeners))
      × (member z (impl_of (remove_listener s l)).listeners
          ≡ ((l == 0 || not (z == l)) && member z (impl_of s).listeners))
      × (is_announced (add_listener s l) ≡ is_announced s)
      × (is_browsing (add_listener s l) ≡ is_browsing s)
      × (is_announced (remove_listener s l) ≡ is_announced s)
      × (is_browsing (remove_listener s l) ≡ is_browsing s)
unfolding add_listener remove_listener
listeners_on_any s l z =
    let added : Impl = Service.add_listener (impl_of s) l in
    let removed : Impl = Service.remove_listener (impl_of s) l in
    (
      ap (λ i. member z i.listeners) (impl_of-with_impl added s)
          ∙ (listeners_change (impl_of s) l z).0,
      ap (λ i. member z i.listeners) (impl_of-with_impl removed s)
          ∙ (listeners_change (impl_of s) l z).1,
      (with_impl_keeps added s).0,
      (with_impl_keeps added s).1,
      (with_impl_keeps removed s).0,
      (with_impl_keeps removed s).1,
    )
