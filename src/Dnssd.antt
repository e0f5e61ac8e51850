-- ===== src/Dnssd.antt =====
-- `dnssd::Servus` (servus/dnssd/servus.h): the service over DNSServiceDiscovery. What the library and
-- `select` do is an argument: the errors that calls return, and what happens at each `select`, in
-- order, with the callbacks that run there.
pub mod Laws
pub mod Loop
pub mod Returns
pub mod Operations
pub mod Current
pub mod Reach
pub mod Told
pub mod TxtRecord
pub mod RoundTrip
pub mod Discover
mod Tests
mod ToldTests
use servus.Prelude.{
  ℕ, Bool, true, false, not, ◌&&◌, List, [], ◌∷◌, ◌++◌, Option, none, some, map, take,
  if◌then◌else◌,
}
use servus.Prelude.Int.{ℤ}
use servus.Bytes.{Bytes, codes, c_str}
use servus.StdMap
use servus.StdMap.{StdMap}
use servus.Service.{Impl, set_data}
use servus.Service.Result.{success, pending, code_eq}
use servus.Service.Listener.{Event, instance_added, instance_removed, notify}

-- The state of the service: `_out` and `_in` are kept as whether they are not null, `published` are
-- the pairs for which `TXTRecordSetValue` has been called for the text record that the library announces
-- while `_out` is open, and `events` are the calls of the
-- listeners so far.
pub record DnssdService : Type 0 where
  pub impl : Impl
  pub out_open : Bool
  pub in_open : Bool
  pub result : ℤ
  pub browsed_name : Bytes
  pub published : List (Bytes × Bytes)
  pub events : List Event

-- What one `select` brings: the timeout, an error (`EINTR` or another), or the callbacks that run in
-- `DNSServiceProcessResult`, with its error.
pub data Select (C : Type 0) : Type 0 where
  timed_out interrupted : Select C
  failed : ℤ → Select C
  processed : List C → ℤ → Select C

-- A call of `resolveCBS_`: the error, the host, and the items of the text record.
pub record Resolved : Type 0 where
  pub error : ℤ
  pub host : Bytes
  pub items : List (Bytes × Bytes)

-- A call of `_browseCBS`: an error, a name that is gone, or one that is there, with what happens while
-- it is resolved, if `DNSServiceResolve` gives a service.
pub data Browsed : Type 0 where
  browse_error : ℤ → Browsed
  browse_remove : Bytes → Browsed
  browse_add : Bytes → Option (List (Select Resolved)) → Browsed

unfoldable pub new_service : Bytes → DnssdService
new_service name = record {
  impl = record { name = name; instance_map = []; data_map = []; listeners = [] };
  out_open = false;
  in_open = false;
  result = pending;
  browsed_name = [];
  published = [];
  events = [];
}

unfoldable pub withdraw : DnssdService → DnssdService
withdraw s = if s.out_open then record s { out_open = false } else s

unfoldable pub end_browsing : DnssdService → DnssdService
end_browsing s = if s.in_open then record s { in_open = false } else s

-- What follows the callbacks of one `DNSServiceProcessResult`.
unfoldable pub process_error : ℤ → DnssdService → DnssdService
unfolding code_eq withdraw
process_error error s = if code_eq error success then s else record (withdraw s) { result = error }

unfoldable pub run_all :
    {C : Type 0}
    → (C → DnssdService → Option DnssdService)
    → List C
    → DnssdService
    → Option DnssdService
run_all run [] s = some s
run_all run (c ∷ cs) s = elim (run c s) [ none ↦ none | some t ↦ run_all run cs t ]

-- One round of the loop: the service is no longer waited for once the result is not pending.
unfoldable pub select_step :
    {C : Type 0}
    → (C → DnssdService → Option DnssdService)
    → Select C
    → DnssdService
    → Option DnssdService
unfolding run_all process_error withdraw
select_step run timed_out s = some (record s { result = success })
select_step run interrupted s = some s
select_step run (failed errno) s = some (record (withdraw s) { result = errno })
select_step run (processed callbacks error) s = elim (run_all run callbacks s) [
  | none ↦ none
  | some t ↦ some (process_error error t)
]

-- The loop of `_handleEvents`, and the reset behind it. It is `none` as long as it waits for more than
-- the list tells.
unfoldable pub handle_events :
    {C : Type 0}
    → (C → DnssdService → Option DnssdService)
    → List (Select C)
    → DnssdService
    → Option (DnssdService × ℤ)
unfolding select_step code_eq
handle_events run [] s =
    if code_eq s.result pending then none else some (record s { result = pending }, s.result)
handle_events run (x ∷ xs) s =
    if code_eq s.result pending
    then elim (select_step run x s) [ none ↦ none | some t ↦ handle_events run xs t ]
    else some (record s { result = pending }, s.result)

unfoldable pub add_items : List (Bytes × Bytes) → StdMap Bytes → StdMap Bytes
add_items [] values = values
add_items ((k, v) ∷ items) values = add_items items (StdMap.insert k v values)

-- `resolveCB_`: the values of an instance that is known already are kept, if they are not replaced.
unfoldable pub resolve : Bytes → List (Bytes × Bytes) → DnssdService → DnssdService
unfolding add_items notify
resolve host items s =
    let old : StdMap Bytes = elim (StdMap.find s.browsed_name s.impl.instance_map) [
      | none ↦ []
      | some m ↦ m
    ] in
    let values = add_items items (StdMap.insert (codes "servus_host") host old) in
    record s {
      impl = record s.impl {
        instance_map = StdMap.insert s.browsed_name values s.impl.instance_map;
      };
      events = s.events ++ notify instance_added s.impl.listeners s.browsed_name;
    }

unfoldable pub resolve_callback : Resolved → DnssdService → Option DnssdService
unfolding resolve code_eq
resolve_callback r s =
    let t = if code_eq r.error success then resolve r.host r.items s else s in
    some (record t { result = r.error })

unfoldable pub browse_callback : Browsed → DnssdService → Option DnssdService
unfolding handle_events resolve_callback notify
browse_callback (browse_error e) s = some s
browse_callback (browse_remove name) s = some (record s {
  impl = record s.impl { instance_map = StdMap.erase name s.impl.instance_map };
  events = s.events ++ notify instance_removed s.impl.listeners name;
})
browse_callback (browse_add name none) s = some (record s { browsed_name = name })
browse_callback (browse_add name (some selects)) s =
    elim (handle_events resolve_callback selects (record s { browsed_name = name })) [
      | none ↦ none
      | some (t, code) ↦ some t
    ]

unfoldable pub register_callback : ℤ → DnssdService → Option DnssdService
unfolding withdraw code_eq
register_callback error s =
    some (record (if code_eq error success then s else withdraw s) { result = error })

-- The arguments of the calls of `TXTRecordSetValue` in `_createTXTRecord`, in order: a key ends at a zero
-- byte, and a value is cut after 255 bytes. What the record has behind them is the library's (below
-- `TxtRecord`).
unfoldable pub set_value_calls : StdMap Bytes → List (Bytes × Bytes)
set_value_calls [] = []
set_value_calls ((k, v) ∷ m) = (c_str k, take 255 v) ∷ set_value_calls m

-- `_updateRecord`, for the error of `DNSServiceUpdateRecord`.
unfoldable pub update_record : ℤ → DnssdService → DnssdService
unfolding set_value_calls code_eq
update_record error s =
    if s.out_open && code_eq error success
    then record s { published = set_value_calls s.impl.data_map }
    else s

unfoldable pub set : ℤ → DnssdService → Bytes → Bytes → DnssdService
unfolding update_record set_data
set error s key value = update_record error (record s { impl = set_data s.impl key value })

-- The destructor.
unfoldable pub destroy : DnssdService → DnssdService
unfolding withdraw end_browsing
destroy s = end_browsing (withdraw s)

-- `announce`, for the error of `DNSServiceRegister`, which opens `_out` where it succeeds.
unfoldable pub announce : ℤ → List (Select ℤ) → DnssdService → Option (DnssdService × ℤ)
unfolding handle_events register_callback code_eq set_value_calls
announce error selects s =
    if s.out_open
    then some (s, pending)
    else if code_eq error success
    then handle_events register_callback selects
        (record s { out_open = true; published = set_value_calls s.impl.data_map })
    else some (s, error)

-- `beginBrowsing`, for the error of `DNSServiceBrowse`.
unfoldable pub begin_browsing : ℤ → DnssdService → DnssdService × ℤ
unfolding code_eq
begin_browsing error s =
    let cleared = record s { impl = record s.impl { instance_map = [] } } in
    if s.in_open then (s, pending) else (record cleared { in_open = code_eq error success }, error)

-- `browse`; `none` also where the assertion on `_in` fails.
unfoldable pub browse : List (Select Browsed) → DnssdService → Option (DnssdService × ℤ)
unfolding handle_events browse_callback
browse selects s = if s.in_open then handle_events browse_callback selects s else none
