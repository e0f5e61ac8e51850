-- ===== src/Avahi/Loops.antt =====
-- The operations and the loops of `avahi::Servus` keep what is announced current.
use servus.Prelude.{
  ℕ, Bool, true, false, not, ◌&&◌, ◌||◌, List, [], ◌∷◌, Option, none, some, ◌≡◌, inl, inr, refl,
  arith, is_empty, if◌then◌else◌, ltb, Bool-cases, Option-cases,
}
use servus.Prelude.Int.{ℤ}
use servus.Bytes.{Bytes}
use servus.Service.Interface.{Interface}
use servus.Service.Result.{pending, poll_error}
use servus.Avahi.{
  Published, Group, AvahiService, Answers, Callback, Round, Outcome, returned, thrown, waiting,
  after,
}
use servus.Avahi.Publish.{to_publish, create_services, update_record, withdraw, reset}
use servus.Avahi.Callbacks.{on_callback}
use servus.Avahi.Operations.{
  is_waiting, count_error, renamed, before, begin_browsing, run_callbacks, wait_announcable,
  with_result, announce, browse_loop, settle, browse,
}
use servus.Avahi.Current.{
  Current, IsCurrent, EndsCurrent, create_services-IsCurrent, on_callback-IsCurrent,
}

-- A group that could not be filled yet stays empty.
Current-idle :
    (g : Option Group) (p q : Published) (u v able b : Bool)
    → Current g p u able
    → (u || not able) ≡ true
    → Current g q v b
Current-idle none p q u v able b h idle = tt
Current-idle (some g) p q u v able b (inl e) idle = inl e
Current-idle (some g) p q u v able b (inr (e, named, on)) idle = absurd (ground arith)

module _ (add_pair : List Bytes → Bytes → Bytes → List Bytes) where
  after-EndsCurrent :
      {A B : Type 0} (o : Outcome A) (next : AvahiService → Outcome B)
      → EndsCurrent add_pair o
      → ((t : AvahiService) → IsCurrent add_pair t → EndsCurrent add_pair (next t))
      → EndsCurrent add_pair (after o next)
  after-EndsCurrent (returned t a) next h go = go t h
  after-EndsCurrent (thrown t) next h go = h
  after-EndsCurrent waiting next h go = tt

  either-EndsCurrent :
      {A : Type 0} (b : Bool) (x y : Outcome A)
      → EndsCurrent add_pair x
      → EndsCurrent add_pair y
      → EndsCurrent add_pair (if b then x else y)
  either-EndsCurrent true x y hx hy = hx
  either-EndsCurrent false x y hx hy = hy

  pub run_callbacks-EndsCurrent :
      (cs : List (Callback × Answers)) (s : AvahiService)
      → IsCurrent add_pair s
      → EndsCurrent add_pair (run_callbacks add_pair cs s)
  unfolding run_callbacks
  run_callbacks-EndsCurrent [] s h = h
  run_callbacks-EndsCurrent ((c, a) ∷ cs) s h =
      after-EndsCurrent (on_callback add_pair c a s) (λ t. run_callbacks add_pair cs t)
        (on_callback-IsCurrent add_pair c a s h) (λ t. run_callbacks-EndsCurrent cs t)

  -- The loops go on from where the callbacks end.
  wait_announcable-EndsCurrent :
      (elapsed : ℕ) (rs : List Round) (s : AvahiService)
      → IsCurrent add_pair s
      → EndsCurrent add_pair (wait_announcable add_pair elapsed rs s)
  unfolding wait_announcable
  wait_announcable-EndsCurrent elapsed [] s h =
      either-EndsCurrent (is_waiting elapsed s) waiting (returned s tt) tt h
  wait_announcable-EndsCurrent elapsed (r ∷ rs) s h =
      either-EndsCurrent (is_waiting elapsed s)
        (after (run_callbacks add_pair r.callbacks s)
          (λ t. wait_announcable add_pair r.elapsed rs t))
        (returned s tt)
        (after-EndsCurrent (run_callbacks add_pair r.callbacks s) _
          (run_callbacks-EndsCurrent r.callbacks s h)
          (λ t. wait_announcable-EndsCurrent r.elapsed rs t))
        h

  browse_loop-EndsCurrent :
      (timeout : ℤ) (errors : ℕ) (rs : List Round) (s : AvahiService)
      → IsCurrent add_pair s
      → EndsCurrent add_pair (browse_loop add_pair timeout errors rs s)
  unfolding browse_loop
  browse_loop-EndsCurrent timeout errors [] s h = tt
  browse_loop-EndsCurrent timeout errors (r ∷ rs) s h =
      after-EndsCurrent (run_callbacks add_pair r.callbacks s) _
        (run_callbacks-EndsCurrent r.callbacks s h)
        λ t current.
          let next = count_error r errors in
          let rest : Outcome (Unit {0}) = browse_loop add_pair timeout next rs t in
          either-EndsCurrent (r.failed && not (ltb next 10))
            (returned (record t { result = poll_error }) tt)
            (if before r.elapsed timeout then rest else returned t tt) current
            (either-EndsCurrent (before r.elapsed timeout) rest (returned t tt)
              (browse_loop-EndsCurrent timeout next rs t current) current)

  with_result-EndsCurrent :
      (o : Outcome (Unit {0}))
      → EndsCurrent add_pair o
      → EndsCurrent add_pair (with_result add_pair o)
  with_result-EndsCurrent (returned s _) h = h
  with_result-EndsCurrent (thrown s) h = h
  with_result-EndsCurrent waiting h = tt

  settle-EndsCurrent :
      (o : Outcome (Unit {0})) → EndsCurrent add_pair o → EndsCurrent add_pair (settle add_pair o)
  settle-EndsCurrent (returned s _) h = h
  settle-EndsCurrent (thrown s) h = h
  settle-EndsCurrent waiting h = tt

  pub begin_browsing-IsCurrent :
      (a : Answers) (addr : Interface) (s : AvahiService)
      → IsCurrent add_pair s
      → IsCurrent add_pair (begin_browsing a addr s).0
  unfolding begin_browsing
  begin_browsing-IsCurrent a addr s h = elim (Bool-cases s.browser) [
    | inl on ↦ rw (on, begin_browsing) h
    | inr off ↦ rw (off, begin_browsing) h
  ]

  pub withdraw-IsCurrent : (s : AvahiService) → IsCurrent add_pair (withdraw s)
  unfolding withdraw reset
  withdraw-IsCurrent s = elim (Option-cases s.group) [
    | inl absent ↦ rw (absent, withdraw) tt
    | inr (g, there) ↦ rw (there, withdraw) (inl refl)
  ]

  active_of :
      (s : AvahiService)
      → (is_empty s.announced_name || not s.announcable) ≡ false
      → (is_empty s.announced_name ≡ false) × (s.announcable ≡ true)
  active_of s h = ground arith

  pub update_record-IsCurrent :
      (a : Answers) (s : AvahiService) (p : Published)
      → Current s.group p (is_empty s.announced_name) s.announcable
      → IsCurrent add_pair (update_record add_pair a s)
  unfolding update_record reset
  update_record-IsCurrent a s p h =
      elim (Bool-cases (is_empty s.announced_name || not s.announcable)) [
        | inl idle ↦
            rw (idle, update_record) (Current-idle s.group p (to_publish add_pair s) _ _ _ _ h idle)
        | inr active ↦
            let (named, able) = active_of s active in
            elim (Option-cases s.group) [
              | inl absent ↦
                  rw (active, update_record, absent)
                    (create_services-IsCurrent add_pair a s named able)
              | inr (g, there) ↦
                  rw (active, update_record, there)
                    (create_services-IsCurrent add_pair a (record s { group = some (reset g) })
                      named able)
            ]
      ]

  -- The two ways through `announce`, from the state with the new name.
  announced-EndsCurrent :
      (a : Answers) (elapsed : ℕ) (rs : List Round) (t : AvahiService) (p : Published) (u b : Bool)
      → t.announcable ≡ b
      → is_empty t.announced_name ≡ false
      → Current t.group p u b
      → EndsCurrent add_pair (
          if b
          then returned (create_services add_pair a t) (create_services add_pair a t).result
          else with_result add_pair (wait_announcable add_pair elapsed rs t))
  announced-EndsCurrent a elapsed rs t p u true able named h =
      create_services-IsCurrent add_pair a t named able
  announced-EndsCurrent a elapsed rs t p u false unable named h =
      with_result-EndsCurrent (wait_announcable add_pair elapsed rs t) (
        wait_announcable-EndsCurrent elapsed rs t
          (Current-idle t.group p (to_publish add_pair t) u _ false _ h (ground arith)))

  pub announce-EndsCurrent :
      (a : Answers) (elapsed : ℕ) (rs : List Round) (port : ℕ) (hostname name : Bytes)
      (s : AvahiService)
      → is_empty (if is_empty name then hostname else name) ≡ false
      → IsCurrent add_pair s
      → EndsCurrent add_pair (announce add_pair a elapsed rs port hostname name s)
  unfolding announce
  announce-EndsCurrent a elapsed rs port hostname name s named h =
      announced-EndsCurrent a elapsed rs (renamed port hostname name s) (to_publish add_pair s)
        (is_empty s.announced_name) s.announcable refl named h

  pub browse-EndsCurrent :
      (timeout : ℤ) (rs : List Round) (s : AvahiService)
      → IsCurrent add_pair s
      → EndsCurrent add_pair (browse add_pair timeout rs s)
  unfolding browse
  browse-EndsCurrent timeout rs s h =
      settle-EndsCurrent (browse_loop add_pair timeout 0 rs (record s { result = pending }))
        (browse_loop-EndsCurrent timeout 0 rs (record s { result = pending }) h)
