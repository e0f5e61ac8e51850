-- ===== src/Avahi/Keeps.antt =====
-- What publishing, the callbacks and the loop of `browse` leave as it is.
use servus.Prelude.{Bool, true, List, none, some, ◌≡◌, refl, ◌∙◌, arith, if◌then◌else◌, is_empty}
use servus.Prelude.Int.{ℤ}
use servus.Bytes.{Bytes}
use servus.Avahi.{
  AvahiService, Answers, Callback, client_callback, browse_callback, resolve_callback,
  group_callback, s_running, failure, s_collision, s_registering, connecting, BrowserEvent,
  ResolverEvent, GroupState, Round,
}
use servus.Avahi.Publish.{create_services, fill_group, update_record, reset}
use servus.Avahi.Callbacks.{on_callback, on_client, on_browse, on_resolve, on_group, found}
use servus.Avahi.Survives.{Leaves, Survives, browse-Leaves}
use servus.Avahi.Operations.{browse}

module _ (add_pair : List Bytes → Bytes → Bytes → List Bytes) where
  fill_keeps :
      (a : Answers) (s : AvahiService)
      → ((fill_group add_pair a s).impl ≡ s.impl) × ((fill_group add_pair a s).browser ≡ s.browser)
  unfolding fill_group
  fill_keeps a s = (ground arith, ground arith)

  pub create_keeps :
      (a : Answers) (s : AvahiService)
      → ((create_services add_pair a s).impl ≡ s.impl)
        × ((create_services add_pair a s).browser ≡ s.browser)
  unfolding create_services
  create_keeps a s = (ground (arith, (fill_keeps a s).0), ground (arith, (fill_keeps a s).1))

  pub update_keeps :
      (a : Answers) (s : AvahiService)
      → ((update_record add_pair a s).impl ≡ s.impl)
        × ((update_record add_pair a s).browser ≡ s.browser)
  unfolding update_record
  update_keeps a s =
      let cleared : AvahiService = elim s.group [
        | none ↦ s
        | some g ↦ record s { group = some (reset g) }
      ] in
      (ground (arith, (create_keeps a cleared).0), ground (arith, (create_keeps a cleared).1))

  resolve_keeps :
      (a : Answers) (is_local : Bool) (event : ResolverEvent) (s : AvahiService)
      → (on_resolve a is_local event s).browser ≡ s.browser
  unfolding on_resolve found
  resolve_keeps a is_local ResolverEvent.resolver_failure s = ground arith
  resolve_keeps a is_local (ResolverEvent.resolver_found name host txt) s = ground arith

  browse_keeps :
      (a : Answers) (event : BrowserEvent) (s : AvahiService)
      → (on_browse a event s).browser ≡ s.browser
  unfolding on_browse
  browse_keeps a BrowserEvent.browser_failure s = refl
  browse_keeps a BrowserEvent.all_for_now s = refl
  browse_keeps a BrowserEvent.cache_exhausted s = refl
  browse_keeps a (BrowserEvent.browser_new name) s = ground arith
  browse_keeps a (BrowserEvent.browser_remove name) s = refl

  group_keeps : (event : GroupState) (s : AvahiService) → (on_group event s).browser ≡ s.browser
  unfolding on_group
  group_keeps GroupState.established s = refl
  group_keeps GroupState.collision s = refl
  group_keeps GroupState.group_failure s = refl
  group_keeps GroupState.uncommited s = refl
  group_keeps GroupState.registering s = refl

  running_keeps :
      (a : Answers) (s : AvahiService)
      → (if is_empty s.announced_name
          then record s { announcable = true }
          else create_services add_pair a (record s { announcable = true })).browser
        ≡ s.browser
  running_keeps a s = ground (arith, (create_keeps a (record s { announcable = true })).1)

  module _ (b : Bool) where
    -- Whether the service browses.
    abbrev pub Browses : AvahiService → Type 0
    Browses s = s.browser ≡ b

    on_callback-Leaves :
        (c : Callback) (a : Answers) (s : AvahiService)
        → Browses s
        → Leaves Browses (on_callback add_pair c a s)
    unfolding on_callback on_client
    on_callback-Leaves (client_callback s_running) a s h = running_keeps a s ∙ h
    on_callback-Leaves (client_callback failure) a s h = h
    on_callback-Leaves (client_callback s_collision) a s h = h
    on_callback-Leaves (client_callback s_registering) a s h = h
    on_callback-Leaves (client_callback connecting) a s h = h
    on_callback-Leaves (browse_callback event) a s h = browse_keeps a event s ∙ h
    on_callback-Leaves (resolve_callback is_local event) a s h =
        resolve_keeps a is_local event s ∙ h
    on_callback-Leaves (group_callback event) a s h = group_keeps event s ∙ h

    Browses-Survives : Survives add_pair Browses
    Browses-Survives = record {
      calls = on_callback-Leaves;
      ends = λ s code h. h;
      renames = λ s port hostname name h. h;
      creates = λ s a h. (create_keeps a s).1 ∙ h;
    }

    pub browse-Browses :
        (timeout : ℤ) (rs : List Round) (s : AvahiService)
        → Browses s
        → Leaves Browses (browse add_pair timeout rs s)
    browse-Browses timeout rs s h = browse-Leaves add_pair Browses Browses-Survives timeout rs s h
