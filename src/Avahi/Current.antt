-- ===== src/Avahi/Current.antt =====
-- What a service has announced is what it says of itself, in every state that it reaches.
use servus.Prelude.{
  Bool, true, false, not, ◌&&◌, List, [], ◌∷◌, Option, none, some, ◌≡◌, ◌⊎◌, inl, inr, refl, sym,
  subst, is_empty, Bool-cases, Option-cases,
}
use servus.Bytes.{Bytes}
use servus.Service.Result.{success, code_eq}
use servus.Avahi.{
  Published, Group, AvahiService, Answers, ClientState, s_running, failure, s_collision,
  s_registering, connecting, BrowserEvent, browser_failure, all_for_now, cache_exhausted,
  browser_new, browser_remove, ResolverEvent, resolver_failure, resolver_found, GroupState,
  established, collision, group_failure, uncommited, registering, Callback, client_callback,
  browse_callback, resolve_callback, group_callback, Outcome, returned, thrown, waiting,
}
use servus.Avahi.Publish.{to_publish, fill_group, create_services}
use servus.Avahi.Callbacks.{
  on_callback, on_browse, on_resolve, on_group, on_client, found, is_local_scope,
}

-- The group is empty, or it has the one entry, which is said under a name by a service that may
-- announce.
abbrev pub Current : Option Group → Published → Bool → Bool → Type 0
Current none p unnamed announcable = Unit
Current (some g) p unnamed announcable =
    (g.entries ≡ []) ⊎ ((g.entries ≡ p ∷ []) × (unnamed ≡ false) × (announcable ≡ true))

Current-announcable :
    (g : Option Group) (p : Published) (unnamed announcable : Bool)
    → Current g p unnamed announcable
    → Current g p unnamed true
Current-announcable none p unnamed announcable h = tt
Current-announcable (some g) p unnamed announcable (inl e) = inl e
Current-announcable (some g) p unnamed announcable (inr (e, named, _)) = inr (e, named, refl)

module _ (add_pair : List Bytes → Bytes → Bytes → List Bytes) where
  abbrev pub IsCurrent : AvahiService → Type 0
  IsCurrent s = Current s.group (to_publish add_pair s) (is_empty s.announced_name) s.announcable

  -- Of the state in which a call ends.
  abbrev pub EndsCurrent : {A : Type 0} → Outcome A → Type 0
  EndsCurrent (returned s a) = IsCurrent s
  EndsCurrent (thrown s) = IsCurrent s
  EndsCurrent waiting = Unit

  fill_group-IsCurrent :
      (a : Answers) (s : AvahiService)
      → is_empty s.announced_name ≡ false
      → s.announcable ≡ true
      → IsCurrent (fill_group add_pair a s)
  unfolding fill_group
  fill_group-IsCurrent a s named able = elim (Bool-cases (code_eq a.add_service success)) [
    | inl fine ↦ rw (fine, fill_group) (inr (refl, named, able))
    | inr wrong ↦ rw (wrong, fill_group) (inl refl)
  ]

  create_nothing :
      (a : Answers) (s : AvahiService)
      → s.group ≡ none
      → a.group_new ≡ false
      → create_services add_pair a s ≡ s
  unfolding create_services
  create_nothing a s absent missing = simp (absent, missing, create_services)

  ungrouped : (s : AvahiService) → s.group ≡ none → IsCurrent s
  ungrouped s absent = rw absent tt

  pub create_services-IsCurrent :
      (a : Answers) (s : AvahiService)
      → is_empty s.announced_name ≡ false
      → s.announcable ≡ true
      → IsCurrent (create_services add_pair a s)
  unfolding create_services
  create_services-IsCurrent a s named able = elim (Option-cases s.group) [
    | inl absent ↦ elim (Bool-cases a.group_new) [
      | inl made ↦ rw (absent, create_services, made) (fill_group-IsCurrent a s named able)
      | inr missing ↦ subst IsCurrent (sym (create_nothing a s absent missing)) (ungrouped s absent)
    ]
    | inr (g, there) ↦ rw (there, create_services) (fill_group-IsCurrent a s named able)
  ]

  on_client-IsCurrent :
      (a : Answers) (c : ClientState) (s : AvahiService)
      → IsCurrent s
      → EndsCurrent (on_client add_pair a c s)
  unfolding on_client
  on_client-IsCurrent a s_running s h = elim (Bool-cases (is_empty s.announced_name)) [
    | inl unnamed ↦
        rw (unnamed, on_client)
          (Current-announcable s.group (to_publish add_pair s) _ s.announcable h)
    | inr named ↦
        rw (named, on_client)
          (create_services-IsCurrent a (record s { announcable = true }) named refl)
  ]
  on_client-IsCurrent a failure s h = h
  on_client-IsCurrent a s_collision s h = h
  on_client-IsCurrent a s_registering s h = h
  on_client-IsCurrent a connecting s h = h

  on_browse-IsCurrent :
      (a : Answers) (e : BrowserEvent) (s : AvahiService)
      → IsCurrent s
      → IsCurrent (on_browse a e s)
  unfolding on_browse
  on_browse-IsCurrent a browser_failure s h = h
  on_browse-IsCurrent a (browser_new name) s h = elim (Bool-cases a.resolver_new) [
    | inl made ↦ rw (made, on_browse) h
    | inr missing ↦ rw (missing, on_browse) h
  ]
  on_browse-IsCurrent a (browser_remove name) s h = h
  on_browse-IsCurrent a all_for_now s h = h
  on_browse-IsCurrent a cache_exhausted s h = h

  on_resolve-IsCurrent :
      (a : Answers) (is_local : Bool) (e : ResolverEvent) (s : AvahiService)
      → IsCurrent s
      → IsCurrent (on_resolve a is_local e s)
  unfolding on_resolve found
  on_resolve-IsCurrent a is_local resolver_failure s h =
      elim (Bool-cases (is_local_scope s.scope && not is_local)) [
        | inl skipped ↦ rw (skipped, on_resolve) h
        | inr seen ↦ rw (seen, on_resolve) h
      ]
  on_resolve-IsCurrent a is_local (resolver_found name host txt) s h =
      elim (Bool-cases (is_local_scope s.scope && not is_local)) [
        | inl skipped ↦ rw (skipped, on_resolve) h
        | inr seen ↦ rw (seen, on_resolve) h
      ]

  on_group-IsCurrent : (g : GroupState) (s : AvahiService) → IsCurrent s → IsCurrent (on_group g s)
  unfolding on_group
  on_group-IsCurrent established s h = h
  on_group-IsCurrent collision s h = h
  on_group-IsCurrent group_failure s h = h
  on_group-IsCurrent uncommited s h = h
  on_group-IsCurrent registering s h = h

  pub on_callback-IsCurrent :
      (c : Callback) (a : Answers) (s : AvahiService)
      → IsCurrent s
      → EndsCurrent (on_callback add_pair c a s)
  unfolding on_callback
  on_callback-IsCurrent (client_callback c) a s h = on_client-IsCurrent a c s h
  on_callback-IsCurrent (browse_callback e) a s h = on_browse-IsCurrent a e s h
  on_callback-IsCurrent (resolve_callback l e) a s h = on_resolve-IsCurrent a l e s h
  on_callback-IsCurrent (group_callback g) a s h = on_group-IsCurrent g s h
