-- ===== src/Dnssd/Laws.antt =====
-- What the event loop leaves behind.
use servus.Prelude.{
  true, false, List, [], ◌∷◌, Option, none, some, ◌≡◌, inl, inr, refl, sym, ◌∙◌, ap, Bool-cases,
  Option-cases, none≢some, some_injective,
}
use servus.Prelude.Int.{ℤ}
use servus.Service.Result.{pending, code_eq}
use servus.Dnssd.{
  DnssdService, Select, Browsed, select_step, handle_events, browse_callback, browse,
}

pub idle-result :
    {C : Type 0} (run : C → DnssdService → Option DnssdService) (xs : List (Select C))
    (s : DnssdService)
    → code_eq s.result pending ≡ false
    → handle_events run xs s ≡ some (record s { result = pending }, s.result)
unfolding handle_events
idle-result run [] s h = rw (h, handle_events) refl
idle-result run (x ∷ xs) s h = rw (h, handle_events) refl

pub waiting :
    {C : Type 0} (run : C → DnssdService → Option DnssdService) (s : DnssdService)
    → code_eq s.result pending ≡ true
    → handle_events run [] s ≡ none
unfolding handle_events
waiting run s h = rw (h, handle_events) refl

pub one_round :
    {C : Type 0} (run : C → DnssdService → Option DnssdService) (x : Select C)
    (xs : List (Select C)) (s u : DnssdService)
    → code_eq s.result pending ≡ true
    → select_step run x s ≡ some u
    → handle_events run (x ∷ xs) s ≡ handle_events run xs u
unfolding handle_events
one_round run x xs s u h step = rw (h, handle_events, step) refl

pub one_round_stuck :
    {C : Type 0} (run : C → DnssdService → Option DnssdService) (x : Select C)
    (xs : List (Select C)) (s : DnssdService)
    → code_eq s.result pending ≡ true
    → select_step run x s ≡ none
    → handle_events run (x ∷ xs) s ≡ none
unfolding handle_events
one_round_stuck run x xs s h step = rw (h, handle_events, step) refl

-- A loop that is not waiting ends with the reset.
idle-resets :
    {C : Type 0} (run : C → DnssdService → Option DnssdService) (xs : List (Select C))
    (s t : DnssdService) (code : ℤ)
    → code_eq s.result pending ≡ false
    → handle_events run xs s ≡ some (t, code)
    → (t.result ≡ pending) × (code_eq code pending ≡ false)
idle-resets run xs s t code idle h =
    let both : ◌≡◌ {A = Option (DnssdService × ℤ)} (some (record s { result = pending }, s.result))
        (some (t, code)) =
      sym (idle-result run xs s idle) ∙ h in
    let e : ◌≡◌ {A = DnssdService × ℤ} (record s { result = pending }, s.result) (t, code) =
      some_injective both in
    (ap (λ p. p.0.result) (sym e), ap (λ p. code_eq p.1 pending) (sym e) ∙ idle)

-- Whatever the events are, a loop that ends returns a result that is not pending, and leaves the
-- pending result for the next operation.
pub handle_events-resets :
    {C : Type 0} (run : C → DnssdService → Option DnssdService) (xs : List (Select C))
    (s t : DnssdService) (code : ℤ)
    → handle_events run xs s ≡ some (t, code)
    → (t.result ≡ pending) × (code_eq code pending ≡ false)
handle_events-resets run [] s t code h = elim (Bool-cases (code_eq s.result pending)) [
  | inl waits ↦ absurd (none≢some (sym (waiting run s waits) ∙ h))
  | inr idle ↦ idle-resets run [] s t code idle h
]
handle_events-resets run (x ∷ xs) s t code h = elim (Bool-cases (code_eq s.result pending)) [
  | inr idle ↦ idle-resets run (x ∷ xs) s t code idle h
  | inl waits ↦ elim (Option-cases (select_step run x s)) [
    | inl stuck ↦ absurd (none≢some (sym (one_round_stuck run x xs s waits stuck) ∙ h))
    | inr (u, step) ↦
        handle_events-resets run xs u t code (sym (one_round run x xs s u waits step) ∙ h)
  ]
]

pub browse_open :
    (xs : List (Select Browsed)) (s : DnssdService)
    → s.in_open ≡ true
    → browse xs s ≡ handle_events browse_callback xs s
unfolding browse
browse_open xs s h = simp (h, browse)

pub browse_closed :
    (xs : List (Select Browsed)) (s : DnssdService) → s.in_open ≡ false → browse xs s ≡ none
unfolding browse
browse_closed xs s h = simp (h, browse)

-- The rounds `xs` of a loop leave the service `s` as `u`, and none of them ends the loop.
pub data GoesOn {C : Type 0} (run : C → DnssdService → Option DnssdService)
    : List (Select C) → DnssdService → DnssdService → Type 0 where
  begun : {s : DnssdService} → GoesOn run [] s s
  round :
      {x : Select C} {xs : List (Select C)} {s t u : DnssdService}
      → code_eq s.result pending ≡ true
      → select_step run x s ≡ some t
      → GoesOn run xs t u
      → GoesOn run (x ∷ xs) s u
