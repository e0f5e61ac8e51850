-- ===== src/Dnssd/Loop.antt =====
-- What the event loop and the callbacks that run in it keep.
use servus.Prelude.{
  some_injective, none≢some, false, List, [], ◌∷◌, ◌++◌, Option, none, some, ◌≡◌, inl, inr, refl,
  sym, ◌∙◌, ap, subst, if◌then◌else◌, Bool-cases, Option-cases,
}
use servus.Prelude.Int.{ℤ}
use servus.Bytes.{Bytes}
use servus.Service.Result.{success, pending, code_eq}
use servus.StdMap
use servus.Service.Listener.{instance_removed, notify}
use servus.Dnssd.{
  DnssdService, Select, timed_out, interrupted, failed, processed, Resolved, browse_error,
  browse_remove, browse_add, withdraw, process_error, run_all, select_step, handle_events, resolve,
  resolve_callback, browse_callback, register_callback,
}
use servus.Dnssd.Laws.{waiting, one_round, one_round_stuck, idle-result}

-- What a property of the service must bear, for the loop to keep it.
pub record Survives (P : DnssdService → Type 0) : Type 0 where
  pub withdraws : (s : DnssdService) → P s → P (withdraw s)
  pub ends : (s : DnssdService) (code : ℤ) → P s → P (record s { result = code })
  pub resolves :
      (s : DnssdService) (host : Bytes) (items : List (Bytes × Bytes))
      → P s
      → P (resolve host items s)
  pub browses : (s : DnssdService) (name : Bytes) → P s → P (record s { browsed_name = name })
  pub removes :
      (s : DnssdService) (name : Bytes)
      → P s
      → P (record s {
        impl = record s.impl { instance_map = StdMap.erase name s.impl.instance_map };
        events = s.events ++ notify instance_removed s.impl.listeners name;
      })

module _ (P : DnssdService → Type 0) (survives : Survives P) where
  -- What follows a step keeps the property.
  abbrev Keeps : {C : Type 0} → (C → DnssdService → Option DnssdService) → Type 0
  Keeps {C} run = (c : C) (s t : DnssdService) → run c s ≡ some t → P s → P t

  process_error_keeps : (error : ℤ) (s : DnssdService) → P s → P (process_error error s)
  unfolding process_error
  process_error_keeps error s h = elim (Bool-cases (code_eq error success)) [
    | inl fine ↦ rw (fine, process_error) h
    | inr wrong ↦
        rw (wrong, process_error) (survives.ends (withdraw s) error (survives.withdraws s h))
  ]

  by_result : (s t : DnssdService) → some s ≡ some t → P s → P t
  by_result s t e h = subst P (some_injective e) h

  pub by_returned :
      (s t : DnssdService) (c d : ℤ)
      → ◌≡◌ {A = Option (DnssdService × ℤ)} (some (s, c)) (some (t, d))
      → P s
      → P t
  by_returned s t c d e h = subst P (ap (λ p. p.0) (some_injective e)) h

  module _ {C : Type 0} (run : C → DnssdService → Option DnssdService) (keeps : Keeps run) where
    run_all_then :
        (c : C) (cs : List C) (s u : DnssdService)
        → run c s ≡ some u
        → run_all run (c ∷ cs) s ≡ run_all run cs u
    unfolding run_all
    run_all_then c cs s u e = rw (e, run_all) refl

    run_all_stops :
        (c : C) (cs : List C) (s : DnssdService) → run c s ≡ none → run_all run (c ∷ cs) s ≡ none
    unfolding run_all
    run_all_stops c cs s e = rw (e, run_all) refl

    processed_then :
        (cs : List C) (error : ℤ) (s u : DnssdService)
        → run_all run cs s ≡ some u
        → select_step run (processed cs error) s ≡ some (process_error error u)
    unfolding select_step
    processed_then cs error s u e = rw (e, select_step) refl

    processed_stops :
        (cs : List C) (error : ℤ) (s : DnssdService)
        → run_all run cs s ≡ none
        → select_step run (processed cs error) s ≡ none
    unfolding select_step
    processed_stops cs error s e = rw (e, select_step) refl

    run_all_keeps : (cs : List C) (s t : DnssdService) → run_all run cs s ≡ some t → P s → P t
    unfolding run_all
    run_all_keeps [] s t e h = by_result s t e h
    run_all_keeps (c ∷ cs) s t e h = elim (Option-cases (run c s)) [
      | inl stuck ↦ absurd (none≢some (sym (run_all_stops c cs s stuck) ∙ e))
      | inr (u, eu) ↦ run_all_keeps cs u t (sym (run_all_then c cs s u eu) ∙ e) (keeps c s u eu h)
    ]

    step_keeps : (x : Select C) (s t : DnssdService) → select_step run x s ≡ some t → P s → P t
    unfolding select_step
    step_keeps timed_out s t e h =
        by_result (record s { result = success }) t e (survives.ends s success h)
    step_keeps interrupted s t e h = by_result s t e h
    step_keeps (failed errno) s t e h =
        by_result (record (withdraw s) { result = errno }) t e
          (survives.ends (withdraw s) errno (survives.withdraws s h))
    step_keeps (processed callbacks error) s t e h = elim (Option-cases (run_all run callbacks s)) [
      | inl stuck ↦ absurd (none≢some (sym (processed_stops callbacks error s stuck) ∙ e))
      | inr (u, eu) ↦
          by_result (process_error error u) t (sym (processed_then callbacks error s u eu) ∙ e)
            (process_error_keeps error u (run_all_keeps callbacks s u eu h))
    ]

    idle_keeps :
        (xs : List (Select C)) (s t : DnssdService) (code : ℤ)
        → code_eq s.result pending ≡ false
        → handle_events run xs s ≡ some (t, code)
        → P s
        → P t
    idle_keeps xs s t code idle e h =
        by_returned (record s { result = pending }) t s.result code
          (sym (idle-result run xs s idle) ∙ e) (survives.ends s pending h)

    pub handle_events_keeps :
        (xs : List (Select C)) (s t : DnssdService) (code : ℤ)
        → handle_events run xs s ≡ some (t, code)
        → P s
        → P t
    handle_events_keeps [] s t code e h = elim (Bool-cases (code_eq s.result pending)) [
      | inr idle ↦ idle_keeps [] s t code idle e h
      | inl waits ↦ absurd (none≢some (sym (waiting run s waits) ∙ e))
    ]
    handle_events_keeps (x ∷ xs) s t code e h = elim (Bool-cases (code_eq s.result pending)) [
      | inr idle ↦ idle_keeps (x ∷ xs) s t code idle e h
      | inl waits ↦ elim (Option-cases (select_step run x s)) [
        | inl stuck ↦ absurd (none≢some (sym (one_round_stuck run x xs s waits stuck) ∙ e))
        | inr (u, step) ↦
            handle_events_keeps xs u t code (sym (one_round run x xs s u waits step) ∙ e)
              (step_keeps x s u step h)
      ]
    ]

  pub register-Keeps : Keeps register_callback
  unfolding register_callback
  register-Keeps error s t e h =
      by_result (record (if code_eq error success then s else withdraw s) { result = error }) t e
        (elim (Bool-cases (code_eq error success)) [
          | inl fine ↦ simp fine (survives.ends s error h)
          | inr wrong ↦ simp wrong (survives.ends (withdraw s) error (survives.withdraws s h))
        ])

  resolve-Keeps : Keeps resolve_callback
  unfolding resolve_callback resolve
  resolve-Keeps r s t e h =
      by_result
        (record (if code_eq r.error success then resolve r.host r.items s else s) {
          result = r.error;
        })
        t e
        (elim (Bool-cases (code_eq r.error success)) [
          | inl fine ↦ simp fine (
              survives.ends (resolve r.host r.items s) r.error
                (survives.resolves s r.host r.items h))
          | inr wrong ↦ simp wrong (survives.ends s r.error h)
        ])

  resolving_fails :
      (name : Bytes) (selects : List (Select Resolved)) (s : DnssdService)
      → handle_events resolve_callback selects (record s { browsed_name = name }) ≡ none
      → browse_callback (browse_add name (some selects)) s ≡ none
  unfolding browse_callback
  resolving_fails name selects s e = rw (e, browse_callback) refl

  resolving_ends :
      (name : Bytes) (selects : List (Select Resolved)) (s u : DnssdService) (code : ℤ)
      → handle_events resolve_callback selects (record s { browsed_name = name }) ≡ some (u, code)
      → browse_callback (browse_add name (some selects)) s ≡ some u
  unfolding browse_callback
  resolving_ends name selects s u code e = rw (e, browse_callback) refl

  pub browse-Keeps : Keeps browse_callback
  unfolding browse_callback
  browse-Keeps (browse_error code) s t e h = by_result s t e h
  browse-Keeps (browse_remove name) s t e h = subst P (some_injective e) (survives.removes s name h)
  browse-Keeps (browse_add name none) s t e h =
      by_result (record s { browsed_name = name }) t e (survives.browses s name h)
  browse-Keeps (browse_add name (some selects)) s t e h =
      elim (Option-cases
        (handle_events resolve_callback selects (record s { browsed_name = name }))) [
          | inl stuck ↦ absurd (none≢some (sym (resolving_fails name selects s stuck) ∙ e))
          | inr ((u, code), eu) ↦
              by_result u t (sym (resolving_ends name selects s u code eu) ∙ e) (
                handle_events_keeps resolve_callback resolve-Keeps selects
                  (record s { browsed_name = name }) u code eu (survives.browses s name h))
        ]
