-- ===== src/Avahi/Callbacks.antt =====
-- What the callbacks do: `_clientCB`, `_browseCB`, `_resolveCB` and `_groupCB`.
use servus.Prelude.{
  ℕ, suc, ◌-◌, Bool, true, false, not, ◌&&◌, List, [], ◌∷◌, ◌++◌, none, some, if◌then◌else◌,
  is_empty, take, drop, ◌==◌,
}
use servus.Prelude.Int.{ℤ, pos}
use servus.Bytes.{Bytes, codes, find_first_of}
use servus.StdMap
use servus.StdMap.{StdMap}
use servus.Service.Interface.{Interface, if_all, if_local}
use servus.Service.Listener.{instance_added, instance_removed, notify}
use servus.Service.Result.{success}
use servus.Avahi.{
  AvahiService, Answers, ClientState, s_running, failure, s_collision, s_registering, connecting,
  BrowserEvent, browser_failure, all_for_now, cache_exhausted, browser_new, browser_remove,
  ResolverEvent, resolver_failure, resolver_found, GroupState, established, collision,
  group_failure, uncommited, registering, Callback, client_callback, browse_callback,
  resolve_callback, group_callback, Outcome, returned, thrown,
}
use servus.Avahi.Publish.{create_services}

-- The number of the error `EEXIST`.
abbrev pub eexist : ℤ
eexist = pos 17

abbrev pub is_equals : ℕ → Bool
is_equals c = c == b'='

-- An entry of a text record: key and value at the first equals sign. Without one `pos + 1` wraps to
-- zero, and the value is the whole entry.
unfoldable pub add_entry : Bytes → StdMap Bytes → StdMap Bytes
unfolding find_first_of
add_entry entry values = elim (find_first_of is_equals entry) [
  | none ↦ StdMap.insert entry entry values
  | some i ↦ StdMap.insert (take i entry) (drop (suc i) entry) values
]

unfoldable pub add_entries : List Bytes → StdMap Bytes → StdMap Bytes
unfolding add_entry
add_entries [] values = values
add_entries (e ∷ txt) values = add_entries txt (add_entry e values)

-- The values of an instance that is known already are kept, if they are not replaced.
unfoldable pub found : Bytes → Bytes → List Bytes → AvahiService → AvahiService
unfolding add_entries notify
found name host txt s =
    let old : StdMap Bytes = elim (StdMap.find name s.impl.instance_map) [
      | none ↦ []
      | some m ↦ m
    ] in
    let values = add_entries txt (StdMap.insert (codes "servus_host") host old) in
    record s {
      impl = record s.impl { instance_map = StdMap.insert name values s.impl.instance_map };
      events = s.events ++ notify instance_added s.impl.listeners name;
    }

abbrev pub is_local_scope : Interface → Bool
is_local_scope if_all = false
is_local_scope if_local = true

-- The early return for a result from elsewhere leaves the resolver as it is; otherwise it is freed.
unfoldable pub on_resolve : Answers → Bool → ResolverEvent → AvahiService → AvahiService
unfolding found
on_resolve a is_local resolver_failure s =
    if is_local_scope s.scope && not is_local
    then s
    else record s { result = a.client_errno; resolvers = s.resolvers - 1 }
on_resolve a is_local (resolver_found name host txt) s =
    if is_local_scope s.scope && not is_local
    then s
    else record (found name host txt s) { resolvers = s.resolvers - 1 }

unfoldable pub on_browse : Answers → BrowserEvent → AvahiService → AvahiService
unfolding notify
on_browse a browser_failure s = record s { result = a.client_errno; quit = true }
on_browse a (browser_new name) s =
    if a.resolver_new
    then record s { resolvers = suc s.resolvers }
    else record s { result = a.client_errno; quit = true }
on_browse a (browser_remove name) s = record s {
  impl = record s.impl { instance_map = StdMap.erase name s.impl.instance_map };
  events = s.events ++ notify instance_removed s.impl.listeners name;
}
on_browse a all_for_now s = record s { result = success }
on_browse a cache_exhausted s = record s { result = success }

unfoldable pub on_group : GroupState → AvahiService → AvahiService
on_group established s = s
on_group collision s = record s { result = eexist; quit = true }
on_group group_failure s = record s { result = eexist; quit = true }
on_group uncommited s = s
on_group registering s = s

module _ (add_pair : List Bytes → Bytes → Bytes → List Bytes) where
  unfoldable pub on_client : Answers → ClientState → AvahiService → Outcome (Unit {0})
  unfolding create_services
  on_client a s_running s =
      let t = record s { announcable = true } in
      returned (if is_empty s.announced_name then t else create_services add_pair a t) tt
  on_client a failure s = returned (record s { result = a.client_errno; quit = true }) tt
  on_client a s_collision s = returned (record s { result = eexist; quit = true }) tt
  on_client a s_registering s = thrown s
  on_client a connecting s = returned s tt

  unfoldable pub on_callback : Callback → Answers → AvahiService → Outcome (Unit {0})
  unfolding on_client on_browse on_resolve on_group
  on_callback (client_callback state) a s = on_client a state s
  on_callback (browse_callback event) a s = returned (on_browse a event s) tt
  on_callback (resolve_callback is_local event) a s = returned (on_resolve a is_local event s) tt
  on_callback (group_callback state) a s = returned (on_group state s) tt
