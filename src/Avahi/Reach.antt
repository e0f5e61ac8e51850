-- ===== src/Avahi/Reach.antt =====
-- The states that a service over Avahi reaches, whatever its callbacks do and its calls answer.
use servus.Prelude.{
  ℕ, false, ◌||◌, List, ◌≡◌, inl, inr, subst, is_empty, if◌then◌else◌, ◌==◌, Bool-cases,
}
use servus.Prelude.Int.{ℤ}
use servus.Bytes.{Bytes}
use servus.Service.{member, set_data, add_listener, remove_listener}
use servus.Service.Interface.{Interface}
use servus.Avahi.{AvahiService, Answers, Callback, Round, Outcome, returned, thrown}
use servus.Avahi.Publish.{to_publish, set, withdraw}
use servus.Avahi.Operations.{
  begin_browsing, end_browsing, run_callbacks, announce, browse, new_service,
}
use servus.Avahi.Current.{IsCurrent, EndsCurrent}
use servus.Avahi.Loops.{
  run_callbacks-EndsCurrent, begin_browsing-IsCurrent, withdraw-IsCurrent, update_record-IsCurrent,
  announce-EndsCurrent, browse-EndsCurrent,
}

-- The state in which a call has ended.
pub data Ends {A : Type 0} (o : Outcome A) (s : AvahiService) : Type 0 where
  by_return : (a : A) → o ≡ returned s a → Ends o s
  by_throw : o ≡ thrown s → Ends o s

module _ (add_pair : List Bytes → Bytes → Bytes → List Bytes) where
  Ends-IsCurrent :
      {A : Type 0} (o : Outcome A) (s : AvahiService)
      → EndsCurrent add_pair o
      → Ends o s
      → IsCurrent add_pair s
  Ends-IsCurrent o s h (by_return a e) = subst (EndsCurrent add_pair) e h
  Ends-IsCurrent o s h (by_throw e) = subst (EndsCurrent add_pair) e h

  -- The operations, each to a state in which it ends. `announce` has a name that is not empty: that of
  -- the instance, or else that of the host.
  pub data Step (s : AvahiService) : AvahiService → Type 0 where
    announces :
        (a : Answers) (elapsed : ℕ) (rs : List Round) (port : ℕ) (hostname name : Bytes)
        (t : AvahiService)
        → is_empty (if is_empty name then hostname else name) ≡ false
        → Ends (announce add_pair a elapsed rs port hostname name s) t
        → Step s t
    browses :
        (timeout : ℤ) (rs : List Round) (t : AvahiService)
        → Ends (browse add_pair timeout rs s) t
        → Step s t
    withdraws : Step s (withdraw s)
    begins : (a : Answers) (addr : Interface) → Step s (begin_browsing a addr s).0
    ends : Step s (end_browsing s)
    sets : (a : Answers) (key value : Bytes) → Step s (set add_pair a s key value)
    listens : (l : ℕ) → Step s (record s { impl = add_listener s.impl l })
    unlistens : (l : ℕ) → Step s (record s { impl = remove_listener s.impl l })

  -- From a constructor that has returned.
  pub data Reach : AvahiService → Type 0 where
    constructed :
        (name : Bytes) (cs : List (Callback × Answers)) (s : AvahiService)
        → run_callbacks add_pair cs (new_service name) ≡ returned s tt
        → Reach s
    then_step : {s t : AvahiService} → Reach s → Step s t → Reach t

  listeners-IsCurrent :
      (s : AvahiService) (l : ℕ)
      → IsCurrent add_pair s
      → IsCurrent add_pair (record s { impl = add_listener s.impl l })
        × IsCurrent add_pair (record s { impl = remove_listener s.impl l })
  unfolding add_listener remove_listener
  listeners-IsCurrent s l h = (
    elim (Bool-cases (l == 0 || member l s.impl.listeners)) [
      | inl old ↦ rw (old, add_listener) h
      | inr new ↦ rw (new, add_listener) h
    ],
    elim (Bool-cases (l == 0)) [
      | inl null ↦ rw (null, remove_listener) h
      | inr some_l ↦ rw (some_l, remove_listener) h
    ],
  )

  -- Every operation keeps what is announced current.
  pub Step-IsCurrent : {s t : AvahiService} → Step s t → IsCurrent add_pair s → IsCurrent add_pair t
  unfolding set set_data end_browsing
  Step-IsCurrent {s} {t} (announces a elapsed rs port hostname name _ named e) h =
      Ends-IsCurrent (announce add_pair a elapsed rs port hostname name s) t
        (announce-EndsCurrent add_pair a elapsed rs port hostname name s named h) e
  Step-IsCurrent {s} {t} (browses timeout rs _ e) h =
      Ends-IsCurrent (browse add_pair timeout rs s) t (browse-EndsCurrent add_pair timeout rs s h) e
  Step-IsCurrent {s} withdraws h = withdraw-IsCurrent add_pair s
  Step-IsCurrent {s} (begins a addr) h = begin_browsing-IsCurrent add_pair a addr s h
  Step-IsCurrent ends h = h
  Step-IsCurrent {s} (sets a key value) h =
      update_record-IsCurrent add_pair a (record s { impl = set_data s.impl key value })
        (to_publish add_pair s) h
  Step-IsCurrent {s} (listens l) h = (listeners-IsCurrent s l h).0
  Step-IsCurrent {s} (unlistens l) h = (listeners-IsCurrent s l h).1

  -- In every state that a service over Avahi reaches, if no call of `announce` has had both an empty
  -- instance name and an empty host name, its entry group is empty or has one entry, which is the name,
  -- the type, the port and the text record that the service has now; it is empty unless the service has
  -- a name to announce.
  pub Reach-IsCurrent : {s : AvahiService} → Reach s → IsCurrent add_pair s
  Reach-IsCurrent (constructed name cs s e) =
      subst (EndsCurrent add_pair) e
        (run_callbacks-EndsCurrent add_pair cs (new_service name) (unfold new_service in tt))
  Reach-IsCurrent (then_step r st) = Step-IsCurrent st (Reach-IsCurrent r)
