-- ===== src/Dnssd/Tests.antt =====
-- Instances of the theorems on the DNSServiceDiscovery service at concrete events.
use servus.Prelude.{
  ap, ◌∙◌, map, if◌then◌else◌, Bool-cases, Option-cases, inl, inr, none, true, List, [], ◌∷◌, ◌++◌,
  some, ◌≡◌, refl,
}
use servus.Prelude.Int.{ℤ}
use servus.Bytes.{Bytes, codes}
use servus.Bytes.Order.{cmp, str_eq, str_eq_refl, equal_of}
use servus.StdMap
use servus.Service.{get_instance_value, set_data}
use servus.Service.Result.{success, pending, code_eq}
use servus.Dnssd.{
  DnssdService, Select, Browsed, browse_add, timed_out, interrupted, processed, handle_events,
  select_step, run_all, process_error, register_callback, announce, browse, update_record,
  new_service, set_value_calls, set, resolve,
}
use servus.Dnssd.Current.{IsUpToDate}
use servus.Dnssd.Reach.{Reach, Step, Reach-IsUpToDate}
use servus.Dnssd.Returns.{browse-TimesOut}
use servus.Dnssd.TxtRecord.{
  acceptable, to_lower, same_key, last, Lacks, TxtLibrary, IsPublishable, create_txt_record,
}
use servus.Dnssd.RoundTrip.{resolve-create_txt_record}

-- An announced service that browses.
abbrev both_open : DnssdService
both_open = record {
  impl = record {
    name = codes "_servus._tcp";
    instance_map = [];
    data_map = (codes "key", codes "value") ∷ [];
    listeners = [];
  };
  out_open = true;
  in_open = true;
  result = pending;
  browsed_name = [];
  published = (codes "key", codes "value") ∷ [];
  events = [];
}

abbrev registered : List (Select ℤ)
registered = interrupted ∷ processed (success ∷ []) success ∷ []

registered_run : handle_events register_callback registered both_open ≡ some (both_open, success)
unfolding handle_events select_step run_all process_error register_callback code_eq
registered_run = refl

-- An instance is gone, and then `select` fails.
abbrev one_gone : Select Browsed
one_gone = processed (Browsed.browse_remove (codes "lamp") ∷ []) success

-- A service that has data, announces itself, and gets more data.
abbrev fresh : DnssdService
fresh = new_service (codes "_servus._tcp")

abbrev with_key : DnssdService
with_key = set success fresh (codes "key") (codes "value")

abbrev announced : DnssdService
announced = record with_key { out_open = true; published = set_value_calls with_key.impl.data_map }

announced_run : announce success registered with_key ≡ some (announced, success)
unfolding announce handle_events select_step run_all process_error register_callback code_eq set
    update_record new_service set_data
announced_run = refl

announced-Reach : Reach (set success announced (codes "more") (codes "data"))
announced-Reach =
    Reach.then_step
      (Reach.then_step
        (Reach.then_step (Reach.constructed (codes "_servus._tcp"))
          (Step.sets (codes "key") (codes "value")))
        (Step.announces success registered announced success announced_run))
      (Step.sets (codes "more") (codes "data"))

Reach-IsUpToDate_example : IsUpToDate (set success announced (codes "more") (codes "data"))
Reach-IsUpToDate_example = Reach-IsUpToDate announced-Reach

-- A library that keeps the pairs in a list, the newest first, and refuses those that are not
-- acceptable.
abbrev set_first : List (Bytes × Bytes) → Bytes → Bytes → List (Bytes × Bytes)
set_first r k v = if acceptable k v then (k, v) ∷ r else r

abbrev all_items : List (Bytes × Bytes) → List (Bytes × Bytes)
all_items r = r

set_first-last :
    (r : List (Bytes × Bytes)) (k v : Bytes)
    → acceptable k v ≡ true
    → Lacks r k
    → (j : Bytes) → last j (set_first r k v) ≡ (if str_eq j k then some v else last j r)
set_first-last r k v fine lacks j = elim (Bool-cases (str_eq j k)) [
  | inl same ↦
      let absent : last j r ≡ none =
        lacks j (ap (λ i. same_key i k) (equal_of j k same) ∙ str_eq_refl (map to_lower k)) in
      rw (fine, absent, same) refl
  | inr other ↦ elim (Option-cases (last j r)) [
    | inl absent ↦ rw (fine, absent, other) refl
    | inr (w, there) ↦ rw (fine, there, other) refl
  ]
]

list_library : TxtLibrary [] set_first all_items
list_library = record { starts = refl; adds = set_first-last }

both-IsPublishable : IsPublishable both_open.impl.data_map
both-IsPublishable = (refl, tt, tt)

resolve-create_txt_record_example :
    get_instance_value
      (resolve (codes "host") (create_txt_record set_first [] both_open.impl.data_map) fresh).impl
      fresh.browsed_name
      (codes "key")
    ≡ codes "value"
unfolding StdMap.find cmp
resolve-create_txt_record_example =
    resolve-create_txt_record [] set_first all_items list_library both_open fresh (codes "host")
      (codes "key") both-IsPublishable (tt, tt)

-- An instance that is resolved until `select` times out.
abbrev resolving : List (Select Browsed)
resolving =
    processed (browse_add (codes "lamp") (some (interrupted ∷ timed_out ∷ [])) ∷ []) success ∷ []

browse-TimesOut_example :
    (t : DnssdService) × (code : ℤ) × (browse (resolving ++ timed_out ∷ []) both_open
      ≡ some (t, code))
browse-TimesOut_example =
    browse-TimesOut resolving [] both_open refl ((((interrupted ∷ []), [], refl), tt), tt)
