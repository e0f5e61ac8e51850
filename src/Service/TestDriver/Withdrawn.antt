-- ===== src/Service/TestDriver/Withdrawn.antt =====
-- What a browser is told of a service that has withdrawn.
use servus.Prelude.{
  ℕ, true, false, not, ◌&&◌, List, [], ◌∷◌, Option, some, ◌≡◌, refl, sym, ◌∙◌, ap, arith, ◌==◌,
  Bool-cases, inl, inr, ==_iff,
}
use servus.Service.{member, without}
use servus.Service.TestDriver.{
  TestService, World, notify_at, toggle, browse, withdraw, symmetric_difference,
}
use servus.Service.TestDriver.Sets.{
  IsAscending, xor, member-without, without-IsAscending, difference-IsAscending, member-difference,
  ascending_ext,
}
use servus.Service.TestDriver.Browse.{browse_told}
use servus.Service.Listener.{Event, instance_removed, notify}

gone_only :
    (p z : ℕ) (xs : List ℕ)
    → member p xs ≡ true
    → xor (not (z == p) && member z xs) (member z xs) ≡ (z == p)
gone_only p z xs there = elim (Bool-cases (z == p)) [
  | inl same ↦ rw (same, ap (λ q. member q xs) ((==_iff z p).0 same), there) refl
  | inr other ↦ rw other (ground arith)
]

one_gone :
    (p : ℕ) (xs : List ℕ)
    → IsAscending xs
    → member p xs ≡ true
    → symmetric_difference (without p xs) xs ≡ p ∷ []
unfolding member
one_gone p xs asc there =
    ascending_ext (symmetric_difference (without p xs) xs) (p ∷ [])
      (difference-IsAscending (without p xs) xs (without-IsAscending p xs asc) asc) (tt, tt)
      (λ z.
        member-difference z (without p xs) xs (without-IsAscending p xs asc) asc
        ∙ ap (λ b. xor b (member z xs)) (member-without z p xs)
        ∙ gone_only p z xs there
        ∙ ground arith)

told_of :
    (objects : ℕ → Option TestService) (ls : List ℕ) (p : ℕ) (o : TestService)
    → objects p ≡ some o
    → notify_at objects instance_removed ls p ≡ some (notify instance_removed ls o.instance_name)
unfolding notify_at notify
told_of objects [] p o live = refl
told_of objects (l ∷ ls) p o live = rw (live, notify_at) refl

toggle_one :
    (objects : ℕ → Option TestService) (ls : List ℕ) (p : ℕ) (o : TestService) (known : List ℕ)
    → objects p ≡ some o
    → member p known ≡ true
    → toggle objects ls (p ∷ []) known []
      ≡ some (without p known, notify instance_removed ls o.instance_name)
unfolding toggle
toggle_one objects ls p o known live there = rw (there, told_of objects ls p o live) refl

-- The service that has withdrawn, and the calls of a browser that knew the directory.
abbrev withdrawn : TestService → TestService
withdrawn o = record o { announced = false; port = 0; instance_name = [] }

withdrawn_there :
    (w : World) (p : ℕ) (o : TestService) → (withdraw w p o).objects p ≡ some (withdrawn o)
unfolding withdraw
withdrawn_there w p o = ground arith

browsed :
    (w : World) (p : ℕ) (o : TestService) (ls is : List ℕ)
    → IsAscending w.directory
    → member p w.directory ≡ true
    → is ≡ w.directory
    → toggle (withdraw w p o).objects ls (symmetric_difference (withdraw w p o).directory is) is []
      ≡ some (without p w.directory, notify instance_removed ls [])
unfolding withdraw
browsed w p o ls is asc there same =
    ap
      (λ is.
        toggle (withdraw w p o).objects ls (symmetric_difference (without p w.directory) is) is [])
      same
    ∙ ap (λ d. toggle (withdraw w p o).objects ls d w.directory [])
        (one_gone p w.directory asc there)
    ∙ toggle_one (withdraw w p o).objects ls p (withdrawn o) w.directory (withdrawn_there w p o)
        there

told_apart :
    (known known' : List ℕ) (events events' : List Event)
    → ◌≡◌ {A = Option (List ℕ × List Event)} (some (known, events)) (some (known', events'))
    → events ≡ events'
told_apart known known' events events' e = cc

-- When a service in an ascending directory withdraws, and a browser that knew the directory browses and
-- returns, its listeners are told that the instance with the empty name is gone, and nothing else.
pub withdrawn_nameless :
    (w : World) (p : ℕ) (o : TestService) (s t : TestService) (events : List Event)
    → IsAscending w.directory
    → member p w.directory ≡ true
    → s.instances ≡ w.directory
    → browse (withdraw w p o) s ≡ some (t, events)
    → events ≡ notify instance_removed s.impl.listeners []
withdrawn_nameless w p o s t events asc there same e =
    told_apart t.instances (without p w.directory) events
      (notify instance_removed s.impl.listeners [])
      (sym (browse_told (withdraw w p o) s t events e)
        ∙ browsed w p o s.impl.listeners s.instances asc there same)
