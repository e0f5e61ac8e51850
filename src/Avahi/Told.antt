-- ===== src/Avahi/Told.antt =====
-- What a listener of a service over Avahi is told, whatever the callbacks bring.
use servus.Prelude.{
  ℕ, Bool, true, false, not, ◌&&◌, List, [], ◌≡◌, ◌⊎◌, inl, inr, sym, subst, arith, ◌==◌, is_empty,
  Bool-cases, none, some,
}
use servus.Bytes.{Bytes}
use servus.Service.{set_data, add_listener}
use servus.Service.Interface.{Interface}
use servus.Service.Told.{
  IsTold, heard, is_known, added-IsTold, removed-IsTold, add_listener-IsTold,
  remove_listener-IsTold, set_data-IsTold, cleared-IsTold, cleared-stale, joined-IsTold,
}
use servus.Avahi.{
  Round, AvahiService, Answers, Callback, client_callback, browse_callback, resolve_callback,
  group_callback, s_running, failure, s_collision, s_registering, connecting, BrowserEvent,
  ResolverEvent, GroupState, Outcome,
}
use servus.Avahi.Publish.{create_services, fill_group, update_record, reset, set, withdraw}
use servus.Avahi.Callbacks.{
  on_callback, on_client, on_browse, on_resolve, on_group, found, is_local_scope,
}
use servus.Avahi.Operations.{announce, browse, begin_browsing, end_browsing}
use servus.Avahi.Survives.{Leaves, Survives, announce-Leaves, browse-Leaves}
use servus.Avahi.Keeps.{update_keeps, create_keeps}
use servus.Avahi.Reach.{Step, Ends, by_return, by_throw}

module _ (l : ℕ) where
  abbrev pub Told : AvahiService → Type 0
  Told s = IsTold l s.impl s.events

  module _ (add_pair : List Bytes → Bytes → Bytes → List Bytes) where
    fill_quiet : (a : Answers) (s : AvahiService) → (fill_group add_pair a s).events ≡ s.events
    unfolding fill_group
    fill_quiet a s = ground arith

    create_quiet :
        (a : Answers) (s : AvahiService) → (create_services add_pair a s).events ≡ s.events
    unfolding create_services
    create_quiet a s = ground (arith, fill_quiet a s)

    update_quiet : (a : Answers) (s : AvahiService) → (update_record add_pair a s).events ≡ s.events
    unfolding update_record
    update_quiet a s =
        let cleared : AvahiService = elim s.group [
          | none ↦ s
          | some g ↦ record s { group = some (reset g) }
        ] in
        ground (arith, create_quiet a cleared)

    create-Told : (a : Answers) (s : AvahiService) → Told s → Told (create_services add_pair a s)
    create-Told a s h =
        subst (λ i. IsTold l i (create_services add_pair a s).events)
          (sym (create_keeps add_pair a s).0) (subst (IsTold l s.impl) (sym (create_quiet a s)) h)

    update-Told : (a : Answers) (s : AvahiService) → Told s → Told (update_record add_pair a s)
    update-Told a s h =
        subst (λ i. IsTold l i (update_record add_pair a s).events)
          (sym (update_keeps add_pair a s).0) (subst (IsTold l s.impl) (sym (update_quiet a s)) h)

    resolve-Told :
        (a : Answers) (is_local : Bool) (event : ResolverEvent) (s : AvahiService)
        → Told s
        → Told (on_resolve a is_local event s)
    unfolding on_resolve found
    resolve-Told a is_local ResolverEvent.resolver_failure s h =
        elim (Bool-cases (is_local_scope s.scope && not is_local)) [
          | inl early ↦ simp early h
          | inr late ↦ simp late h
        ]
    resolve-Told a is_local (ResolverEvent.resolver_found name host txt) s h =
        elim (Bool-cases (is_local_scope s.scope && not is_local)) [
          | inl early ↦ simp early h
          | inr late ↦ simp late (added-IsTold l s.impl s.events h name _)
        ]

    browse-Told :
        (a : Answers) (event : BrowserEvent) (s : AvahiService)
        → Told s
        → Told (on_browse a event s)
    unfolding on_browse
    browse-Told a BrowserEvent.browser_failure s h = h
    browse-Told a BrowserEvent.all_for_now s h = h
    browse-Told a BrowserEvent.cache_exhausted s h = h
    browse-Told a (BrowserEvent.browser_new name) s h = elim (Bool-cases a.resolver_new) [
      | inl made ↦ simp made h
      | inr not_made ↦ simp not_made h
    ]
    browse-Told a (BrowserEvent.browser_remove name) s h = removed-IsTold l s.impl s.events h name

    group-Told : (event : GroupState) (s : AvahiService) → Told s → Told (on_group event s)
    unfolding on_group
    group-Told GroupState.established s h = h
    group-Told GroupState.collision s h = h
    group-Told GroupState.group_failure s h = h
    group-Told GroupState.uncommited s h = h
    group-Told GroupState.registering s h = h

    on_callback-Told :
        (c : Callback) (a : Answers) (s : AvahiService)
        → Told s
        → Leaves Told (on_callback add_pair c a s)
    unfolding on_callback on_client
    on_callback-Told (client_callback s_running) a s h =
        elim (Bool-cases (is_empty s.announced_name)) [
          | inl none_named ↦ simp none_named h
          | inr named ↦ simp named (create-Told a (record s { announcable = true }) h)
        ]
    on_callback-Told (client_callback failure) a s h = h
    on_callback-Told (client_callback s_collision) a s h = h
    on_callback-Told (client_callback s_registering) a s h = h
    on_callback-Told (client_callback connecting) a s h = h
    on_callback-Told (browse_callback event) a s h = browse-Told a event s h
    on_callback-Told (resolve_callback is_local event) a s h = resolve-Told a is_local event s h
    on_callback-Told (group_callback event) a s h = group-Told event s h

    Told-Survives : Survives add_pair Told
    Told-Survives = record {
      calls = on_callback-Told;
      ends = λ s code h. h;
      renames = λ s port hostname name h. h;
      creates = λ s a h. create-Told a s h;
    }

    ended : {A : Type 0} (o : Outcome A) (t : AvahiService) → Leaves Told o → Ends o t → Told t
    ended o t h (by_return a e) = subst (Leaves Told) e h
    ended o t h (by_throw e) = subst (Leaves Told) e h

    -- The steps that keep the listener: the map is not cleared unless it is empty, and the listener stays.
    abbrev pub Stays : {s t : AvahiService} → Step add_pair s t → Type 0
    Stays {s} (Step.begins a addr) = (s.browser ≡ true) ⊎ (s.impl.instance_map ≡ [])
    Stays (Step.unlistens k) = l == k ≡ false
    Stays st = Unit

    begin-Told :
        (a : Answers) (addr : Interface) (s : AvahiService)
        → (s.browser ≡ true) ⊎ (s.impl.instance_map ≡ [])
        → Told s
        → Told (begin_browsing a addr s).0
    unfolding begin_browsing
    begin-Told a addr s ok h = elim (Bool-cases s.browser) [
      | inl on ↦ simp on h
      | inr off ↦ elim ok [
        | inl on ↦ absurd (cc)
        | inr clear ↦ simp off (cleared-IsTold l s.impl s.events clear h)
      ]
    ]

    Step-Told : {s t : AvahiService} (st : Step add_pair s t) → Stays st → Told s → Told t
    unfolding set end_browsing withdraw
    Step-Told {s} {t} (Step.announces a elapsed rs port hostname name _ named e) ok h =
        ended (announce add_pair a elapsed rs port hostname name s) t
          (announce-Leaves add_pair Told Told-Survives a elapsed rs port hostname name s h) e
    Step-Told {s} {t} (Step.browses timeout rs _ e) ok h =
        ended (browse add_pair timeout rs s) t
          (browse-Leaves add_pair Told Told-Survives timeout rs s h) e
    Step-Told {s} Step.withdraws ok h = h
    Step-Told {s} (Step.begins a addr) ok h = begin-Told a addr s ok h
    Step-Told Step.ends ok h = h
    Step-Told {s} (Step.sets a key value) ok h =
        update-Told a (record s { impl = set_data s.impl key value })
          (set_data-IsTold l s.impl s.events key value h)
    Step-Told {s} (Step.listens k) ok h = add_listener-IsTold l s.impl s.events h k
    Step-Told {s} (Step.unlistens k) ok h = remove_listener-IsTold l s.impl s.events h k ok

    -- From a listener that joins a service of which nothing has been called and which knows no
    -- instance. An empty name may be announced, too.
    pub data Follows : AvahiService → Type 0 where
      joined :
          (s : AvahiService)
          → l == 0 ≡ false
          → s.impl.instance_map ≡ []
          → s.events ≡ []
          → Follows (record s { impl = add_listener s.impl l })
      then_step : {s t : AvahiService} → Follows s → (st : Step add_pair s t) → Stays st → Follows t
      then_announced :
          {s : AvahiService} (a : Answers) (elapsed : ℕ) (rs : List Round) (port : ℕ)
          (hostname name : Bytes) (t : AvahiService)
          → Follows s
          → Ends (announce add_pair a elapsed rs port hostname name s) t
          → Follows t

    pub Follows-Told : {s : AvahiService} → Follows s → Told s
    Follows-Told (joined s some_l clear quiet) =
        subst (IsTold l (add_listener s.impl l)) (sym quiet) (joined-IsTold l s.impl some_l clear)
    Follows-Told (then_step f st ok) = Step-Told st ok (Follows-Told f)
    Follows-Told (then_announced {s} a elapsed rs port hostname name t f e) =
        ended (announce add_pair a elapsed rs port hostname name s) t
          (announce-Leaves add_pair Told Told-Survives a elapsed rs port hostname name s
            (Follows-Told f))
          e

    -- A listener, other than the null pointer, that joins a service over Avahi before the service
    -- knows an instance or has called a listener, and that reads its calls in order, takes exactly
    -- those instances to be there that the service knows, whatever callbacks run in which
    -- operations, as long as the listener is not removed and browsing is not begun anew while
    -- instances are known.
    pub Follows-is_known :
        {s : AvahiService} → Follows s → (n : Bytes) → heard l n false s.events ≡ is_known s.impl n
    Follows-is_known f n = (Follows-Told f).told n

  -- When browsing is begun anew, the instances that the service knew are forgotten without a call: for
  -- each of them a listener that was told takes it to be there, and the service does not know it.
  pub begin_browsing_forgets :
      (a : Answers) (addr : Interface) (s : AvahiService) (n : Bytes)
      → s.browser ≡ false
      → Told s
      → is_known s.impl n ≡ true
      → (heard l n false (begin_browsing a addr s).0.events ≡ true)
        × (is_known (begin_browsing a addr s).0.impl n ≡ false)
  unfolding begin_browsing
  begin_browsing_forgets a addr s n off h known =
      simp off (cleared-stale l s.impl s.events n h known)
