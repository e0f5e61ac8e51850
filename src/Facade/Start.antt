-- ===== src/Facade/Start.antt =====
-- How a service starts, whatever its implementation.
use servus.Prelude.{
  true, false, List, [], ◌∷◌, Option, none, some, ◌≡◌, refl, sym, ap, subst, inl, inr, All,
  Bool-cases,
}
use servus.Bytes.{Bytes}
use servus.Bytes.Order.{str_eq, equal_of}
use servus.StdMap
use servus.Service
use servus.Service.{new_impl, set_data}
use servus.Service.NoneDriver
use servus.Service.TestDriver
use servus.Service.TestDriver.{test_name}
use servus.Dnssd
use servus.Dnssd.{DnssdService}
use servus.Avahi
use servus.Avahi.{
  AvahiService, Answers, Callback, client_callback, s_running, failure, s_collision, s_registering,
  connecting, Outcome, returned, thrown, waiting, after,
}
use servus.Avahi.Publish.{create_services, fill_group, update_record, reset}
use servus.Avahi.Callbacks.{on_callback, on_client}
use servus.Avahi.Operations.{run_callbacks, construct, new_service}
use servus.Facade.{
  Build, with_dnssd, with_avahi, without_zeroconf, Servus, none_servus, test_servus, dnssd_servus,
  avahi_servus, started, start, choose_implementation, impl_of, get_name, get, get_data,
  is_announced, is_browsing,
}

-- The callbacks of a client that is being made.
abbrev pub IsClientCallback : Callback → Type 0
IsClientCallback c = (state : Avahi.ClientState) × (c ≡ client_callback state)

-- A service over Avahi that nobody has used.
abbrev IsUnused : Bytes → AvahiService → Type 0
IsUnused name s =
    (s.impl ≡ new_impl name) × (s.browser ≡ false) × (s.announced_name ≡ []) × (s.group ≡ none)

abbrev EndsUnused : Bytes → Outcome (Unit {0}) → Type 0
EndsUnused name (returned s _) = IsUnused name s
EndsUnused name (thrown s) = Unit
EndsUnused name waiting = ⊥

after-EndsUnused :
    (name : Bytes) (o : Outcome (Unit {0})) (next : AvahiService → Outcome (Unit {0}))
    → EndsUnused name o
    → ((t : AvahiService) → IsUnused name t → EndsUnused name (next t))
    → EndsUnused name (after o next)
after-EndsUnused name (returned t _) next u h = h t u
after-EndsUnused name (thrown t) next u h = tt
after-EndsUnused name waiting next u h = u

no_group : (s : AvahiService) → s.group ≡ none → Avahi.Publish.is_announced s ≡ false
unfolding Avahi.Publish.is_announced
no_group s h = simp (h, Avahi.Publish.is_announced)

-- What a service has at first.
abbrev pub IsFresh : Bytes → Servus → Type 0
IsFresh name s =
    (get_name s ≡ name)
    × (get_data s ≡ [])
    × ((j : Bytes) → get s j ≡ [])
    × (is_announced s ≡ false)
    × (is_browsing s ≡ false)

abbrev pub Starts : Bytes → Option Servus → Type 0
Starts name o = (s : Servus) × (o ≡ some s) × IsFresh name s

is_fresh :
    (name : Bytes) (s : Servus)
    → impl_of s ≡ new_impl name
    → is_announced s ≡ false
    → is_browsing s ≡ false
    → IsFresh name s
unfolding get_name get_data get new_impl Service.get StdMap.find
is_fresh name s e announced browsing = (
  ap (λ i. i.name) e,
  ap (λ i. i.instance_map) e,
  λ j. ap (λ i. Service.get i j) e,
  announced,
  browsing,
)

module _ (add_pair : List Bytes → Bytes → Bytes → List Bytes) where
  nothing_to_create :
      (a : Answers) (s : AvahiService)
      → s.announced_name ≡ []
      → on_client add_pair a s_running s ≡ returned (record s { announcable = true }) tt
  unfolding on_client
  nothing_to_create a s h = simp (h, on_client)

  on_client-EndsUnused :
      (name : Bytes) (a : Answers) (state : Avahi.ClientState) (s : AvahiService)
      → IsUnused name s
      → EndsUnused name (on_client add_pair a state s)
  unfolding on_client
  on_client-EndsUnused name a s_running s u =
      subst (EndsUnused name) (sym (nothing_to_create a s u.2)) u
  on_client-EndsUnused name a failure s u = u
  on_client-EndsUnused name a s_collision s u = u
  on_client-EndsUnused name a s_registering s u = tt
  on_client-EndsUnused name a connecting s u = u

  run-EndsUnused :
      (name : Bytes) (cs : List (Callback × Answers)) (s : AvahiService)
      → All (λ c. IsClientCallback c.0) cs
      → IsUnused name s
      → EndsUnused name (run_callbacks add_pair cs s)
  unfolding run_callbacks on_callback
  run-EndsUnused name [] s h u = u
  run-EndsUnused name ((c, a) ∷ cs) s ((state, e), h) u =
      after-EndsUnused name (on_callback add_pair c a s) (run_callbacks add_pair cs)
        (subst (λ c. EndsUnused name (on_callback add_pair c a s)) (sym e)
          (on_client-EndsUnused name a state s u))
        (λ t v. run-EndsUnused name cs t h v)

  started-IsFresh :
      (name : Bytes) (o : Outcome (Unit {0}))
      → EndsUnused name o
      → Starts name (started name (some o))
  unfolding started is_announced is_browsing impl_of Avahi.Publish.is_announced
      NoneDriver.is_announced NoneDriver.is_browsing
  started-IsFresh name (returned s _) u =
      (avahi_servus s, refl, is_fresh name (avahi_servus s) u.0 (no_group s u.3) u.1)
  started-IsFresh name (thrown s) u = (
    none_servus (new_impl name),
    refl,
    is_fresh name (none_servus (new_impl name)) refl refl refl,
  )
  started-IsFresh name waiting u = absurd u

  start-Starts :
      (build : Build) (name : Bytes) (client : Option (List (Callback × Answers)))
      → ((cs : List (Callback × Answers)) → client ≡ some cs → All (λ c. IsClientCallback c.0) cs)
      → Starts name (start add_pair build name client)
  unfolding start construct started impl_of is_announced is_browsing Dnssd.new_service new_service
      NoneDriver.is_announced NoneDriver.is_browsing new_impl
  start-Starts with_dnssd name client h = (
    dnssd_servus (Dnssd.new_service name),
    refl,
    is_fresh name (dnssd_servus (Dnssd.new_service name)) refl refl refl,
  )
  start-Starts without_zeroconf name client h = (
    none_servus (new_impl name),
    refl,
    is_fresh name (none_servus (new_impl name)) refl refl refl,
  )
  start-Starts with_avahi name none h = (
    none_servus (new_impl name),
    refl,
    is_fresh name (none_servus (new_impl name)) refl refl refl,
  )
  start-Starts with_avahi name (some cs) h =
      started-IsFresh name (run_callbacks add_pair cs (new_service name))
        (run-EndsUnused name cs (new_service name) (h cs refl) (refl, refl, refl, refl))

  -- In every build, and also where the client of Avahi cannot be made or its constructor throws, the
  -- constructor gives a service that has the name, is neither announced nor browsing, and knows no data
  -- and no instances, provided that only the callback of the client is called meanwhile.
  pub choose_implementation-Starts :
      (build : Build) (name : Bytes) (client : Option (List (Callback × Answers)))
      → ((cs : List (Callback × Answers)) → client ≡ some cs → All (λ c. IsClientCallback c.0) cs)
      → Starts name (choose_implementation add_pair build name client)
  unfolding choose_implementation impl_of is_announced is_browsing new_impl
  choose_implementation-Starts build name client h = elim (Bool-cases (str_eq name test_name)) [
    | inl is_test ↦
        simp (is_test, choose_implementation)
          (
            test_servus TestDriver.new_service,
            refl,
            is_fresh name (test_servus TestDriver.new_service)
                (ap new_impl (sym (equal_of name test_name is_test))) refl refl,
          )
    | inr other ↦ simp (other, choose_implementation) (start-Starts build name client h)
  ]
