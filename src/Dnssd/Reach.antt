-- ===== src/Dnssd/Reach.antt =====
-- The states that a service over DNSServiceDiscovery reaches, whatever its callbacks bring.
use servus.Prelude.{ℕ, List, some, ◌≡◌, sym, ◌∙◌, ap, arith}
use servus.Prelude.Int.{ℤ}
use servus.Bytes.{Bytes}
use servus.Service.{add_listener, remove_listener}
use servus.Service.Result.{success}
use servus.Dnssd.{
  DnssdService, Select, Browsed, new_service, withdraw, end_browsing, set_value_calls, set,
  announce, begin_browsing, browse,
}
use servus.Dnssd.Current.{
  IsUpToDate, true≢false, withdraw-IsUpToDate, announce-IsUpToDate, browse-IsUpToDate,
  begin_browsing-IsUpToDate, end_browsing-IsUpToDate, set-IsUpToDate,
}

-- The operations, for what the library brings; an update of the record succeeds.
pub data Step (s : DnssdService) : DnssdService → Type 0 where
  announces :
      (error : ℤ) (xs : List (Select ℤ)) (t : DnssdService) (code : ℤ)
      → announce error xs s ≡ some (t, code)
      → Step s t
  browses :
      (xs : List (Select Browsed)) (t : DnssdService) (code : ℤ)
      → browse xs s ≡ some (t, code)
      → Step s t
  withdraws : Step s (withdraw s)
  begins : (error : ℤ) → Step s (begin_browsing error s).0
  ends : Step s (end_browsing s)
  sets : (key value : Bytes) → Step s (set success s key value)
  listens : (l : ℕ) → Step s (record s { impl = add_listener s.impl l })
  unlistens : (l : ℕ) → Step s (record s { impl = remove_listener s.impl l })

pub data Reach : DnssdService → Type 0 where
  constructed : (name : Bytes) → Reach (new_service name)
  then_step : {s t : DnssdService} → Reach s → Step s t → Reach t

add_listener_keeps : (s : DnssdService) (l : ℕ) → (add_listener s.impl l).data_map ≡ s.impl.data_map
unfolding add_listener
add_listener_keeps s l = ground arith

remove_listener_keeps :
    (s : DnssdService) (l : ℕ) → (remove_listener s.impl l).data_map ≡ s.impl.data_map
unfolding remove_listener
remove_listener_keeps s l = ground arith

Step-IsUpToDate : {s t : DnssdService} → Step s t → IsUpToDate s → IsUpToDate t
Step-IsUpToDate {s} (announces error xs t code e) h = announce-IsUpToDate error xs s t code e h
Step-IsUpToDate {s} (browses xs t code e) h = browse-IsUpToDate xs s t code e h
Step-IsUpToDate {s} withdraws h = withdraw-IsUpToDate s
Step-IsUpToDate {s} (begins error) h = begin_browsing-IsUpToDate error s h
Step-IsUpToDate {s} ends h = end_browsing-IsUpToDate s h
Step-IsUpToDate {s} (sets key value) h = set-IsUpToDate s key value
Step-IsUpToDate {s} (listens l) h = λ on. h on ∙ ap set_value_calls (sym (add_listener_keeps s l))
Step-IsUpToDate {s} (unlistens l) h =
    λ on. h on ∙ ap set_value_calls (sym (remove_listener_keeps s l))

-- In every state that a service over DNSServiceDiscovery reaches, if the updates of its record have
-- succeeded, the text record that the library announces while the service is announced is made of the
-- data that the service has now.
pub Reach-IsUpToDate : {s : DnssdService} → Reach s → IsUpToDate s
unfolding new_service
Reach-IsUpToDate (constructed name) = λ on. absurd (true≢false (sym on))
Reach-IsUpToDate (then_step r st) = Step-IsUpToDate st (Reach-IsUpToDate r)
