-- ===== src/Dnssd/Operations.antt =====
-- What `announce` and `browse` keep.
use servus.Prelude.{none≢some, true, false, List, some, ◌≡◌, inl, inr, sym, ◌∙◌, Bool-cases}
use servus.Prelude.Int.{ℤ}
use servus.Service.Result.{success, pending, code_eq}
use servus.Dnssd.{
  DnssdService, Select, Browsed, handle_events, browse_callback, register_callback, set_value_calls,
  announce, browse,
}
use servus.Dnssd.Loop.{Survives, by_returned, handle_events_keeps, register-Keeps, browse-Keeps}
use servus.Dnssd.Laws.{browse_open, browse_closed}

announce_held :
    (error : ℤ) (xs : List (Select ℤ)) (s : DnssdService)
    → s.out_open ≡ true
    → announce error xs s ≡ some (s, pending)
unfolding announce
announce_held error xs s held = simp (held, announce)

announce_opens :
    (error : ℤ) (xs : List (Select ℤ)) (s : DnssdService)
    → s.out_open ≡ false
    → code_eq error success ≡ true
    → announce error xs s
      ≡ handle_events register_callback xs
          (record s { out_open = true; published = set_value_calls s.impl.data_map })
unfolding announce
announce_opens error xs s free fine = simp (free, fine, announce)

announce_refused :
    (error : ℤ) (xs : List (Select ℤ)) (s : DnssdService)
    → s.out_open ≡ false
    → code_eq error success ≡ false
    → announce error xs s ≡ some (s, error)
unfolding announce
announce_refused error xs s free wrong = simp (free, wrong, announce)

module _ (P : DnssdService → Type 0) (survives : Survives P) where
  -- What holds where the service is registered is kept by `announce`.
  pub announce_keeps :
      (error : ℤ) (xs : List (Select ℤ)) (s t : DnssdService) (code : ℤ)
      → (P s → P (record s { out_open = true; published = set_value_calls s.impl.data_map }))
      → announce error xs s ≡ some (t, code)
      → P s
      → P t
  announce_keeps error xs s t code opens e h = elim (Bool-cases s.out_open) [
    | inl held ↦ by_returned P survives s t pending code (sym (announce_held error xs s held) ∙ e) h
    | inr free ↦ elim (Bool-cases (code_eq error success)) [
      | inl fine ↦
          handle_events_keeps P survives register_callback (register-Keeps P survives) xs
            (record s { out_open = true; published = set_value_calls s.impl.data_map }) t code
            (sym (announce_opens error xs s free fine) ∙ e) (opens h)
      | inr wrong ↦
          by_returned P survives s t error code (sym (announce_refused error xs s free wrong) ∙ e) h
    ]
  ]

  pub browse_keeps :
      (xs : List (Select Browsed)) (s t : DnssdService) (code : ℤ)
      → browse xs s ≡ some (t, code)
      → P s
      → P t
  browse_keeps xs s t code e h = elim (Bool-cases s.in_open) [
    | inl reads ↦
        handle_events_keeps P survives browse_callback (browse-Keeps P survives) xs s t code
          (sym (browse_open xs s reads) ∙ e) h
    | inr closed ↦ absurd (none≢some (sym (browse_closed xs s closed) ∙ e))
  ]
