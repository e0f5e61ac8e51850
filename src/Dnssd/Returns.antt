-- ===== src/Dnssd/Returns.antt =====
-- The operations over DNSServiceDiscovery return, if their selects time out.
use servus.Prelude.{
  true, false, List, [], ◌∷◌, ◌++◌, Option, none, some, ◌≡◌, ◌∙◌, All, Bool-cases, inl, inr, refl,
  if◌then◌else◌,
}
use servus.Prelude.Int.{ℤ}
use servus.Service.Result.{success, pending, code_eq}
use servus.Dnssd.{
  DnssdService, Select, timed_out, interrupted, failed, processed, Resolved, Browsed, browse_error,
  browse_remove, browse_add, withdraw, run_all, select_step, process_error, handle_events, resolve,
  resolve_callback, browse_callback, browse, announce, register_callback, set_value_calls,
}
use servus.Dnssd.Laws.{idle-result, one_round, browse_open}

-- What runs in a `select`, if all of it has the property.
abbrev pub Calls : {C : Type 0} → (C → Type 0) → Select C → Type 0
Calls P timed_out = Unit
Calls P interrupted = Unit
Calls P (failed errno) = Unit
Calls P (processed callbacks error) = All P callbacks

module _ {C : Type 0} (run : C → DnssdService → Option DnssdService) (P : C → Type 0)
    (total : (c : C) (s : DnssdService) → P c → (t : DnssdService) × (run c s ≡ some t)) where
  run_all-total :
      (cs : List C) (s : DnssdService) → All P cs → (t : DnssdService) × (run_all run cs s ≡ some t)
  unfolding run_all
  run_all-total [] s ps = (s, refl)
  run_all-total (c ∷ cs) s ps =
      let (t, e) = total c s ps.0 in rw (e, run_all) (run_all-total cs t ps.1)

  step-total :
      (x : Select C) (s : DnssdService)
      → Calls P x
      → (t : DnssdService) × (select_step run x s ≡ some t)
  unfolding select_step
  step-total timed_out s ps = (record s { result = success }, refl)
  step-total interrupted s ps = (s, refl)
  step-total (failed errno) s ps = (record (withdraw s) { result = errno }, refl)
  step-total (processed callbacks error) s ps =
      let (t, e) = run_all-total callbacks s ps in (process_error error t, rw (e, select_step) refl)

  timeout-step :
      (s : DnssdService) → select_step run timed_out s ≡ some (record s { result = success })
  unfolding select_step
  timeout-step s = refl

  -- The loop ends at the latest where `select` times out.
  ends_at_timeout :
      (xs ys : List (Select C)) (s : DnssdService)
      → All (Calls P) xs
      → (t : DnssdService) × (code : ℤ) × (handle_events run (xs ++ timed_out ∷ ys) s
          ≡ some (t, code))
  unfolding code_eq
  ends_at_timeout [] ys s ps = elim (Bool-cases (code_eq s.result pending)) [
    | inr idle ↦ (record s { result = pending }, s.result, idle-result run (timed_out ∷ ys) s idle)
    | inl waits ↦
        let done : DnssdService = record s { result = success } in
        (
          record s { result = pending },
          success,
          one_round run timed_out ys s done waits (timeout-step s) ∙ idle-result run ys done refl,
        )
  ]
  ends_at_timeout (x ∷ xs) ys s ps = elim (Bool-cases (code_eq s.result pending)) [
    | inr idle ↦ (
      record s { result = pending },
      s.result,
      idle-result run (x ∷ (xs ++ timed_out ∷ ys)) s idle,
    )
    | inl waits ↦
        let (u, step) = step-total x s ps.0 in
        let (t, code, e) = ends_at_timeout xs ys u ps.1 in
        (t, code, one_round run x (xs ++ timed_out ∷ ys) s u waits step ∙ e)
  ]

every : {C : Type 0} (cs : List C) → All (λ _. Unit {0}) cs
every [] = tt
every (c ∷ cs) = (tt, every cs)

All-Calls : {C : Type 0} (xs : List (Select C)) → All (Calls (λ _. Unit)) xs
All-Calls [] = tt
All-Calls (timed_out ∷ xs) = (tt, All-Calls xs)
All-Calls (interrupted ∷ xs) = (tt, All-Calls xs)
All-Calls (failed errno ∷ xs) = (tt, All-Calls xs)
All-Calls (processed cs error ∷ xs) = (every cs, All-Calls xs)

register-total :
    (error : ℤ) (s : DnssdService)
    → Unit {0}
    → (t : DnssdService) × (register_callback error s ≡ some t)
unfolding register_callback
register-total error s _ =
    (record (if code_eq error success then s else withdraw s) { result = error }, refl)

-- `announce` returns, if `select` times out once.
announce_returns :
    (error : ℤ) (xs ys : List (Select ℤ)) (s : DnssdService)
    → (t : DnssdService) × (code : ℤ) × (announce error (xs ++ timed_out ∷ ys) s ≡ some (t, code))
unfolding announce
announce_returns error xs ys s = elim (Bool-cases s.out_open) [
  | inl held ↦ rw (held, announce) (record s { out_open = true }, pending, refl)
  | inr free ↦ elim (Bool-cases (code_eq error success)) [
    | inl fine ↦
        rw (free, announce, fine)
          (ends_at_timeout register_callback (λ _. Unit) register-total xs ys
            (record s { out_open = true; published = set_value_calls s.impl.data_map })
            (All-Calls xs))
    | inr wrong ↦ rw (free, announce, wrong) (record s { out_open = false }, error, refl)
  ]
]

-- A call in which an instance is resolved until `select` times out, or not at all.
abbrev pub TimesOut : Browsed → Type 0
TimesOut (browse_error error) = Unit
TimesOut (browse_remove name) = Unit
TimesOut (browse_add name none) = Unit
TimesOut (browse_add name (some selects)) =
    (xs : List (Select Resolved)) × (ys : List (Select Resolved)) × (selects ≡ xs ++ timed_out ∷ ys)

resolve-total :
    (r : Resolved) (s : DnssdService)
    → Unit {0}
    → (t : DnssdService) × (resolve_callback r s ≡ some t)
unfolding resolve_callback
resolve-total r s _ = (
  record (if code_eq r.error success then resolve r.host r.items s else s) { result = r.error },
  refl,
)

browse-total :
    (c : Browsed) (s : DnssdService)
    → TimesOut c
    → (t : DnssdService) × (browse_callback c s ≡ some t)
unfolding browse_callback
browse-total (browse_error error) s h = (s, refl)
browse-total (browse_remove name) s h = (_, refl)
browse-total (browse_add name none) s h = (record s { browsed_name = name }, refl)
browse-total (browse_add name (some selects)) s (xs, ys, same) =
    let (t, code, e) =
      ends_at_timeout resolve_callback (λ _. Unit) resolve-total xs ys
        (record s { browsed_name = name }) (All-Calls xs) in
    (t, rw (same, e, browse_callback) refl)

-- `browse` of a service that browses returns, if `select` times out once in its loop and once in the
-- loop of every instance that is resolved before, whatever else happens.
pub browse-TimesOut :
    (xs ys : List (Select Browsed)) (s : DnssdService)
    → s.in_open ≡ true
    → All (Calls TimesOut) xs
    → (t : DnssdService) × (code : ℤ) × (browse (xs ++ timed_out ∷ ys) s ≡ some (t, code))
browse-TimesOut xs ys s reads h =
    let (t, code, e) = ends_at_timeout browse_callback TimesOut browse-total xs ys s h in
    (t, code, browse_open (xs ++ timed_out ∷ ys) s reads ∙ e)
