-- ===== src/Facade/Laws.antt =====
-- What `set` does, whatever the implementation.
use servus.Prelude.{List, ◌≡◌, refl, sym, ◌∙◌, ap, subst, arith, if◌then◌else◌}
use servus.Prelude.Int.{ℤ}
use servus.Bytes.{Bytes}
use servus.Bytes.Order.{str_eq}
use servus.StdMap.Sorted.{IsSorted}
use servus.Service
use servus.Service.{new_impl, set_data}
use servus.Service.Laws.{get-set}
use servus.Service.NoneDriver
use servus.Dnssd
use servus.Dnssd.{DnssdService}
use servus.Avahi
use servus.Avahi.{
  AvahiService, Answers, Callback, client_callback, s_running, failure, s_collision, s_registering,
  connecting, Outcome, returned, thrown, waiting, after,
}
use servus.Avahi.Publish.{create_services, fill_group, update_record, reset}
use servus.Avahi.Keeps.{update_keeps}
use servus.Facade.{
  Servus, none_servus, test_servus, dnssd_servus, avahi_servus, set, impl_of, get_name, get,
  get_data, is_browsing,
}

dnssd_keeps :
    (error : ℤ) (s : DnssdService) (key value : Bytes)
    → ((Dnssd.set error s key value).impl ≡ set_data s.impl key value)
      × ((Dnssd.set error s key value).in_open ≡ s.in_open)
unfolding Dnssd.set Dnssd.update_record
dnssd_keeps error s key value = (ground arith, ground arith)

module _ (add_pair : List Bytes → Bytes → Bytes → List Bytes) where
  set-impl_of :
      (error : ℤ) (a : Answers) (s : Servus) (key value : Bytes)
      → (impl_of (set add_pair error a s key value) ≡ set_data (impl_of s) key value)
        × (is_browsing (set add_pair error a s key value) ≡ is_browsing s)
  unfolding set impl_of is_browsing NoneDriver.is_browsing Avahi.Publish.set
  set-impl_of error a (none_servus s) key value = (refl, refl)
  set-impl_of error a (test_servus s) key value = (refl, refl)
  set-impl_of error a (dnssd_servus s) key value = dnssd_keeps error s key value
  set-impl_of error a (avahi_servus s) key value =
      update_keeps add_pair a (record s { impl = set_data s.impl key value })

  -- On every implementation, and whatever the update of the record answers, after `set(key, value)` the
  -- key has the value and every other key its old one, the keys that ascend still ascend, and the name,
  -- the instances and whether the service browses are as before.
  pub set_on_any :
      (error : ℤ) (a : Answers) (s : Servus) (key value j : Bytes)
      → IsSorted (impl_of s).data_map
      → (get (set add_pair error a s key value) j ≡ (if str_eq j key then value else get s j))
        × IsSorted (impl_of (set add_pair error a s key value)).data_map
        × (get_name (set add_pair error a s key value) ≡ get_name s)
        × (get_data (set add_pair error a s key value) ≡ get_data s)
        × (is_browsing (set add_pair error a s key value) ≡ is_browsing s)
  unfolding get get_name get_data set_data
  set_on_any error a s key value j sorted =
      let (same, browsing) = set-impl_of error a s key value in
      let (value_at, ascending) = get-set (impl_of s) key value j sorted in
      (
        ap (λ i. Service.get i j) same ∙ value_at,
        subst (λ i. IsSorted i.data_map) (sym same) ascending,
        ap (λ i. i.name) same,
        ap (λ i. i.instance_map) same,
        browsing,
      )
