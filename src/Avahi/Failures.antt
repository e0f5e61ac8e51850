-- ===== src/Avahi/Failures.antt =====
-- Error paths of `avahi::Servus`: resolvers that are not freed, and a commit that fails.
use servus.Prelude.{
  ℕ, suc, ◌+◌, ◌<◌, lt→ltb, Bool, true, false, ◌&&◌, ◌||◌, List, [], ◌∷◌, Option, none, some, ◌≡◌,
  refl, ◌∙◌, ap, arith, if◌then◌else◌, Bool-cases, Option-cases, inl, inr,
}
use servus.Bytes.{Bytes}
use servus.Service.Interface.{if_local}
use servus.Service.Result.{success, pending, code_eq}
use servus.Avahi.{
  AvahiService, Group, Answers, Round, all_for_now, browser_new, ResolverEvent, resolver_found,
  resolver_failure, Callback, browse_callback, resolve_callback, returned, after,
}
use servus.Avahi.Publish.{create_services, fill_group, is_announced}
use servus.Avahi.Callbacks.{on_callback, on_browse, on_resolve}
use servus.Avahi.Operations.{
  run_callbacks, announce, announce_timeout, renamed, wait_announcable, with_result, is_waiting,
}

-- What the callbacks of a browser and of its resolvers bring for instances elsewhere: an instance that
-- is found, for which a resolver can be made, or what a resolver that was made for one says.
pub data Elsewhere : Type 0 where
  is_found : Bytes → (a : Answers) → a.resolver_new ≡ true → Elsewhere
  is_resolved : ResolverEvent → Answers → Elsewhere

abbrev pub elsewhere : List Elsewhere → List (Callback × Answers)
elsewhere [] = []
elsewhere (is_found name a made ∷ es) = (browse_callback (browser_new name), a) ∷ elsewhere es
elsewhere (is_resolved event a ∷ es) = (resolve_callback false event, a) ∷ elsewhere es

abbrev pub count_found : List Elsewhere → ℕ
count_found [] = 0
count_found (is_found name a made ∷ es) = suc (count_found es)
count_found (is_resolved event a ∷ es) = count_found es

abbrev pub has_group : Option Group → Bool
has_group none = false
has_group (some g) = true

not_announced : (s : AvahiService) → s.group ≡ none → is_announced s ≡ false
unfolding is_announced
not_announced s h = rw (h, is_announced) refl

resolver_made :
    (a : Answers) (name : Bytes) (s : AvahiService)
    → a.resolver_new ≡ true
    → on_browse a (browser_new name) s ≡ record s { resolvers = suc s.resolvers }
unfolding on_browse
resolver_made a name s h = rw (h, on_browse) refl

resolve_skipped :
    (a : Answers) (event : ResolverEvent) (s : AvahiService)
    → s.scope ≡ if_local
    → on_resolve a false event s ≡ s
unfolding on_resolve
resolve_skipped a resolver_failure s h = simp (h, on_resolve)
resolve_skipped a (resolver_found name host txt) s h = simp (h, on_resolve)

taken : {A : Type 0} (b : Bool) (x y : A) → b ≡ true → (if b then x else y) ≡ x
taken b x y h = rw h refl

left_out : {A : Type 0} (b : Bool) (x y : A) → b ≡ false → (if b then x else y) ≡ y
left_out b x y h = rw h refl

waits_on :
    (elapsed : ℕ) (s : AvahiService)
    → s.announcable ≡ false
    → s.result ≡ pending
    → elapsed < announce_timeout
    → is_waiting elapsed s ≡ true
unfolding code_eq
waits_on elapsed s off waits early = rw (off, waits, lt→ltb elapsed announce_timeout early) refl

module _ (add_pair : List Bytes → Bytes → Bytes → List Bytes) where
  -- While a service that browses locally is called back for instances elsewhere, whichever they are, in
  -- whatever order they are found and resolved and whatever the resolvers say, it makes a resolver for
  -- each that is found, where Avahi can make one for each, and frees none; nothing else of the service
  -- changes.
  pub resolvers_leak :
      (es : List Elsewhere) (s : AvahiService)
      → s.scope ≡ if_local
      → run_callbacks add_pair (elsewhere es) s
        ≡ returned (record s { resolvers = count_found es + s.resolvers }) tt
  unfolding run_callbacks on_callback
  resolvers_leak [] s scope = ap (λ k. returned (record s { resolvers = k }) tt) (omega arith)
  resolvers_leak (is_found name a made ∷ es) s scope =
      ap (run_callbacks add_pair (elsewhere es)) (resolver_made a name s made)
      ∙ resolvers_leak es (record s { resolvers = suc s.resolvers }) scope
      ∙ ap (λ k. returned (record s { resolvers = k }) tt) (omega arith)
  resolvers_leak (is_resolved event a ∷ es) s scope =
      ap (run_callbacks add_pair (elsewhere es)) (resolve_skipped a event s scope)
      ∙ resolvers_leak es s scope

  filled :
      (a : Answers) (s : AvahiService)
      → is_announced (fill_group add_pair a s) ≡ code_eq a.add_service success
  unfolding is_announced fill_group
  filled a s = elim (Bool-cases (code_eq a.add_service success)) [
    | inl fine ↦ rw (fine, fill_group) refl
    | inr wrong ↦ rw (wrong, fill_group) refl
  ]

  -- Creating the services leaves the service announced exactly if there is a group, or one can be made,
  -- and the service is added to it: a commit that fails makes no difference.
  pub is_announced-create_services :
      (a : Answers) (s : AvahiService)
      → is_announced (create_services add_pair a s)
        ≡ ((has_group s.group || a.group_new) && code_eq a.add_service success)
  unfolding is_announced create_services
  is_announced-create_services a s = elim (Option-cases s.group) [
    | inr (g, there) ↦ rw (there, create_services) (filled a s)
    | inl absent ↦ elim (Bool-cases a.group_new) [
      | inl made ↦ rw (absent, create_services, made) (filled a s)
      | inr missing ↦ rw (absent, create_services, missing) (not_announced s absent)
    ]
  ]

  no_longer :
      (elapsed : ℕ) (rs : List Round) (s : AvahiService)
      → s.result ≡ success
      → wait_announcable add_pair elapsed rs s ≡ returned s tt
  unfolding wait_announcable code_eq
  no_longer elapsed [] s done = rw done (ground arith)
  no_longer elapsed (r ∷ rs) s done = rw done (ground arith)

  woken :
      (b : Answers) (elapsed : ℕ) (r : Round) (rs : List Round) (s : AvahiService)
      → s.announcable ≡ false
      → s.result ≡ pending
      → elapsed < announce_timeout
      → r.callbacks ≡ (browse_callback all_for_now, b) ∷ []
      → wait_announcable add_pair elapsed (r ∷ rs) s ≡ returned (record s { result = success }) tt
  unfolding wait_announcable run_callbacks on_callback on_browse code_eq
  woken b elapsed r rs s off waits early only =
      taken (is_waiting elapsed s)
        (after (run_callbacks add_pair r.callbacks s) (wait_announcable add_pair r.elapsed rs))
        (returned s tt) (waits_on elapsed s off waits early)
      ∙ ap (λ cs. after (run_callbacks add_pair cs s) (wait_announcable add_pair r.elapsed rs)) only
      ∙ no_longer r.elapsed rs (record s { result = success }) refl

  -- While the client is not running and there is no entry group, one browse callback that has all for
  -- now ends the wait of `announce` within its time: the call returns success for a service that is
  -- not announced.
  pub announce-is_announced :
      (a b : Answers) (elapsed : ℕ) (r : Round) (rs : List Round) (port : ℕ) (hostname name : Bytes)
      (s : AvahiService)
      → s.announcable ≡ false
      → s.group ≡ none
      → elapsed < announce_timeout
      → r.callbacks ≡ (browse_callback all_for_now, b) ∷ []
      → (announce add_pair a elapsed (r ∷ rs) port hostname name s
          ≡ returned (record (renamed port hostname name s) { result = success }) success)
        × (is_announced (record (renamed port hostname name s) { result = success }) ≡ false)
  unfolding announce
  announce-is_announced a b elapsed r rs port hostname name s off free early only = (
    left_out s.announcable
          (returned (create_services add_pair a (renamed port hostname name s))
            (create_services add_pair a (renamed port hostname name s)).result)
          (with_result add_pair
            (wait_announcable add_pair elapsed (r ∷ rs) (renamed port hostname name s)))
          off
        ∙ ap (with_result add_pair)
            (woken b elapsed r rs (renamed port hostname name s) off refl early only),
    not_announced (record (renamed port hostname name s) { result = success }) free,
  )
