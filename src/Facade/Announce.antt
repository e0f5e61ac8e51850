-- ===== src/Facade/Announce.antt =====
-- `announce` and `withdraw` of `servus::Servus`. The test service changes the world of the process,
-- which is a part of the result.
use servus.Prelude.{
  ℕ, false, List, [], Option, none, some, ◌≡◌, refl, sym, subst, arith, Option-cases, inl, inr,
}
use servus.Prelude.Int.{ℤ}
use servus.Bytes.{Bytes}
use servus.Service.NoneDriver
use servus.Service.TestDriver
use servus.Service.TestDriver.{TestService, World, new_service}
use servus.Dnssd
use servus.Dnssd.{DnssdService, Select}
use servus.Avahi
use servus.Avahi.{AvahiService, Answers, Round, Outcome, returned, thrown, waiting}
use servus.Facade.{
  Servus, none_servus, test_servus, dnssd_servus, avahi_servus, impl_of, is_announced, is_browsing,
}
use servus.Facade.Browsing.{Environment, Run, done, threw, stuck}

-- The service at the address, behind a call on it, which leaves it live.
abbrev object_of : Option TestService → TestService → Servus
object_of none s = test_servus s
object_of (some t) s = test_servus t

abbrev object_at : World → ℕ → TestService → Servus
object_at w p s = object_of (w.objects p) s

abbrev of_dnssd : World → Option (DnssdService × ℤ) → Run (World × ℤ)
of_dnssd w none = stuck
of_dnssd w (some (t, code)) = done (dnssd_servus t) (w, code)

abbrev of_avahi : World → Outcome ℤ → Run (World × ℤ)
of_avahi w (returned t code) = done (avahi_servus t) (w, code)
of_avahi w (thrown t) = threw (avahi_servus t)
of_avahi w waiting = stuck

-- `p` is the address of the service, `registrations` what the `select`s bring, and `elapsed` the time
-- before the first round.
unfoldable pub announce :
    (List Bytes → Bytes → Bytes → List Bytes)
    → Environment
    → ℕ
    → List (Select ℤ)
    → ℕ
    → Bytes
    → ℕ
    → Bytes
    → Servus
    → Run (World × ℤ)
unfolding NoneDriver.announce TestDriver.announce Dnssd.announce Avahi.Operations.announce
announce add_pair env p registrations elapsed hostname port instance' (none_servus s) =
    let (t, code) = NoneDriver.announce s port instance' in done (none_servus t) (env.world, code)
announce add_pair env p registrations elapsed hostname port instance' (test_servus s) =
    let (w, code) = TestDriver.announce env.world p s port hostname instance' in
    done (object_at w p s) (w, code)
announce add_pair env p registrations elapsed hostname port instance' (dnssd_servus s) =
    of_dnssd env.world (Dnssd.announce env.error registrations s)
announce add_pair env p registrations elapsed hostname port instance' (avahi_servus s) =
    of_avahi env.world
      (Avahi.Operations.announce add_pair env.answers elapsed env.rounds port hostname instance' s)

unfoldable pub withdraw : World → ℕ → Servus → World × Servus
unfolding NoneDriver.withdraw TestDriver.withdraw Dnssd.withdraw Avahi.Publish.withdraw
withdraw w p (none_servus s) = (w, none_servus (NoneDriver.withdraw s))
withdraw w p (test_servus s) = let w' = TestDriver.withdraw w p s in (w', object_at w' p s)
withdraw w p (dnssd_servus s) = (w, dnssd_servus (Dnssd.withdraw s))
withdraw w p (avahi_servus s) = (w, avahi_servus (Avahi.Publish.withdraw s))

-- How a `withdraw` has left the service `s`.
abbrev pub Withdrawn : Servus → Servus → Type 0
Withdrawn s t = (is_announced t ≡ false) × (impl_of t ≡ impl_of s) × (is_browsing t ≡ is_browsing s)

update_reads :
    (f : ℕ → Option TestService) (p : ℕ) (o : Option TestService) → TestDriver.update f p o p ≡ o
update_reads f p o = ground arith

dnssd_withdrawn :
    (s : DnssdService)
    → ((Dnssd.withdraw s).out_open ≡ false)
      × ((Dnssd.withdraw s).impl ≡ s.impl)
      × ((Dnssd.withdraw s).in_open ≡ s.in_open)
unfolding Dnssd.withdraw
dnssd_withdrawn s = (ground arith, ground arith, ground arith)

group_emptied : (s : AvahiService) → Avahi.Publish.is_announced (Avahi.Publish.withdraw s) ≡ false
unfolding Avahi.Publish.is_announced Avahi.Publish.withdraw Avahi.Publish.reset
group_emptied s = elim (Option-cases s.group) [
  | inl absent ↦ rw absent refl
  | inr (g, e) ↦ rw e refl
]

-- On every implementation, a service that has withdrawn is not announced, keeps its data, its
-- instances and its listeners, and browses exactly if it did before.
pub withdraw_on_any : (w : World) (p : ℕ) (s : Servus) → Withdrawn s (withdraw w p s).1
unfolding withdraw is_announced impl_of is_browsing NoneDriver.withdraw NoneDriver.is_announced
    TestDriver.withdraw Avahi.Publish.withdraw
withdraw_on_any w p (none_servus s) = (refl, refl, refl)
withdraw_on_any w p (test_servus s) =
    let t : TestService = record s { announced = false; port = 0; instance_name = [] } in
    subst (λ o. Withdrawn (test_servus s) (object_of o s)) (sym (update_reads w.objects p (some t)))
      (refl, refl, refl)
withdraw_on_any w p (dnssd_servus s) = dnssd_withdrawn s
withdraw_on_any w p (avahi_servus s) = (group_emptied s, refl, refl)
