-- ===== src/Dnssd/Told.antt =====
-- What a listener of a service over DNSServiceDiscovery is told, whatever the callbacks bring.
use servus.Prelude.{
  ◌&&◌, ℕ, true, false, ◌≡◌, ◌⊎◌, inl, inr, sym, subst, List, [], ◌==◌, Bool-cases,
}
use servus.Prelude.Int.{ℤ}
use servus.Bytes.{Bytes}
use servus.Service.{add_listener, set_data}
use servus.Service.Result.{success, code_eq}
use servus.Service.Told.{
  IsTold, heard, is_known, added-IsTold, removed-IsTold, add_listener-IsTold,
  remove_listener-IsTold, set_data-IsTold, cleared-IsTold, joined-IsTold,
}
use servus.Dnssd.{DnssdService, withdraw, end_browsing, resolve, set, update_record, begin_browsing}
use servus.Dnssd.Loop.{Survives}
use servus.Dnssd.Operations.{announce_keeps, browse_keeps}
use servus.Dnssd.Reach.{Step}

module _ (l : ℕ) where
  abbrev pub Told : DnssdService → Type 0
  Told s = IsTold l s.impl s.events

  withdraw-Told : (s : DnssdService) → Told s → Told (withdraw s)
  unfolding withdraw
  withdraw-Told s h = elim (Bool-cases s.out_open) [
    | inl out ↦ simp out h
    | inr closed ↦ simp closed h
  ]

  end_browsing-Told : (s : DnssdService) → Told s → Told (end_browsing s)
  unfolding end_browsing
  end_browsing-Told s h = elim (Bool-cases s.in_open) [
    | inl reads ↦ simp reads h
    | inr closed ↦ simp closed h
  ]

  resolve-Told :
      (s : DnssdService) (host : Bytes) (items : List (Bytes × Bytes))
      → Told s
      → Told (resolve host items s)
  unfolding resolve
  resolve-Told s host items h = added-IsTold l s.impl s.events h s.browsed_name _

  Told-Survives : Survives Told
  Told-Survives = record {
    withdraws = withdraw-Told;
    ends = λ s code h. h;
    resolves = resolve-Told;
    browses = λ s name h. h;
    removes = λ s name h. removed-IsTold l s.impl s.events h name;
  }

  set-Told :
      (error : ℤ) (s : DnssdService) (key value : Bytes) → Told s → Told (set error s key value)
  unfolding set update_record code_eq set_data
  set-Told error s key value h = elim (Bool-cases (s.out_open && code_eq error success)) [
    | inl on ↦ simp on (set_data-IsTold l s.impl s.events key value h)
    | inr off ↦ simp off (set_data-IsTold l s.impl s.events key value h)
  ]

  begin-Told :
      (error : ℤ) (s : DnssdService)
      → (s.in_open ≡ true) ⊎ (s.impl.instance_map ≡ [])
      → Told s
      → Told (begin_browsing error s).0
  unfolding begin_browsing
  begin-Told error s ok h = elim (Bool-cases s.in_open) [
    | inl on ↦ simp on h
    | inr off ↦ elim ok [
      | inl on ↦ absurd (cc)
      | inr clear ↦ simp off (cleared-IsTold l s.impl s.events clear h)
    ]
  ]

  -- The steps that keep the listener: the map is not cleared unless it is empty, and the listener
  -- stays.
  abbrev pub Stays : {s t : DnssdService} → Step s t → Type 0
  Stays {s} (Step.begins error) = (s.in_open ≡ true) ⊎ (s.impl.instance_map ≡ [])
  Stays (Step.unlistens k) = l == k ≡ false
  Stays st = Unit

  Step-Told : {s t : DnssdService} (st : Step s t) → Stays st → Told s → Told t
  Step-Told {s} {t} (Step.announces error xs _ code e) ok h =
      announce_keeps Told Told-Survives error xs s t code (λ on. on) e h
  Step-Told {s} {t} (Step.browses xs _ code e) ok h =
      browse_keeps Told Told-Survives xs s t code e h
  Step-Told {s} Step.withdraws ok h = withdraw-Told s h
  Step-Told {s} (Step.begins error) ok h = begin-Told error s ok h
  Step-Told {s} Step.ends ok h = end_browsing-Told s h
  Step-Told {s} (Step.sets key value) ok h = set-Told success s key value h
  Step-Told {s} (Step.listens k) ok h = add_listener-IsTold l s.impl s.events h k
  Step-Told {s} (Step.unlistens k) ok h = remove_listener-IsTold l s.impl s.events h k ok

  -- From a listener that joins a service of which nothing has been called and which knows no instance.
  -- An update of the record may fail, too.
  pub data Follows : DnssdService → Type 0 where
    joined :
        (s : DnssdService)
        → l == 0 ≡ false
        → s.impl.instance_map ≡ []
        → s.events ≡ []
        → Follows (record s { impl = add_listener s.impl l })
    then_step : {s t : DnssdService} → Follows s → (st : Step s t) → Stays st → Follows t
    then_set :
        {s : DnssdService} (error : ℤ) (key value : Bytes)
        → Follows s
        → Follows (set error s key value)

  pub Follows-Told : {s : DnssdService} → Follows s → Told s
  Follows-Told (joined s some_l clear quiet) =
      subst (IsTold l (add_listener s.impl l)) (sym quiet) (joined-IsTold l s.impl some_l clear)
  Follows-Told (then_step f st ok) = Step-Told st ok (Follows-Told f)
  Follows-Told (then_set {s} error key value f) = set-Told error s key value (Follows-Told f)

  -- A listener, other than the null pointer, that joins a service over DNSServiceDiscovery before
  -- the service knows an instance or has called a listener, and that reads its calls in order,
  -- takes exactly those instances to be there that the service knows, whatever callbacks run in
  -- which operations, as long as the listener is not removed and browsing is not begun anew while
  -- instances are known.
  pub Follows-heard :
      {s : DnssdService} → Follows s → (n : Bytes) → heard l n false s.events ≡ is_known s.impl n
  Follows-heard f n = (Follows-Told f).told n
