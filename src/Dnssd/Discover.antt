-- ===== src/Dnssd/Discover.antt =====
-- `discover` (servus/servus.cpp) over DNSServiceDiscovery, where browsing can wait for ever.
use servus.Prelude.{
  none≢some, Bool, true, false, ◌||◌, List, Option, none, some, ◌≡◌, refl, sym, ◌∙◌, arith,
  if◌then◌else◌, Bool-cases, inl, inr,
}
use servus.Prelude.Int.{ℤ}
use servus.Bytes.{Bytes}
use servus.Service.{get_instances}
use servus.Service.Result.{success, pending, code_eq}
use servus.Dnssd.{
  DnssdService, Select, Browsed, begin_browsing, end_browsing, browse, browse_callback, withdraw,
  resolve,
}
use servus.Dnssd.Laws.{browse_open, browse_closed}
use servus.Dnssd.Loop.{Survives, handle_events_keeps, browse-Keeps}

-- What follows the call of `browse`; `none` where that does not return.
unfoldable pub finish : Bool → Option (DnssdService × ℤ) → Option (DnssdService × List Bytes)
unfolding end_browsing get_instances
finish began none = none
finish began (some (t, code)) =
    let u = if began then end_browsing t else t in some (u, get_instances u.impl)

-- For the error of `DNSServiceBrowse`.
unfoldable pub discover :
    ℤ → List (Select Browsed) → DnssdService → Option (DnssdService × List Bytes)
unfolding begin_browsing browse finish get_instances code_eq
discover error selects s =
    let (s1, res) = begin_browsing error s in
    if code_eq res success || code_eq res pending
    then finish (code_eq res success) (browse selects s1)
    else some (s1, get_instances s1.impl)

withdraw_leaves : (b : Bool) (s : DnssdService) → s.in_open ≡ b → (withdraw s).in_open ≡ b
unfolding withdraw
withdraw_leaves b s h = ground arith

resolve_leaves :
    (b : Bool) (s : DnssdService) (host : Bytes) (items : List (Bytes × Bytes))
    → s.in_open ≡ b
    → (resolve host items s).in_open ≡ b
unfolding resolve
resolve_leaves b s host items h = h

in_open-Survives : (b : Bool) → Survives (λ s. s.in_open ≡ b)
in_open-Survives b = record {
  withdraws = λ s h. withdraw_leaves b s h;
  ends = λ s code h. h;
  resolves = λ s host items h. resolve_leaves b s host items h;
  browses = λ s name h. h;
  removes = λ s name h. h;
}

browse_keeps_open :
    (xs : List (Select Browsed)) (s t : DnssdService) (code : ℤ)
    → browse xs s ≡ some (t, code)
    → t.in_open ≡ s.in_open
browse_keeps_open xs s t code e = elim (Bool-cases s.in_open) [
  | inl reads ↦
      handle_events_keeps (λ u. u.in_open ≡ s.in_open) (in_open-Survives s.in_open) browse_callback
        (browse-Keeps (λ u. u.in_open ≡ s.in_open) (in_open-Survives s.in_open)) xs s t code
        (sym (browse_open xs s reads) ∙ e) refl
  | inr closed ↦ absurd (none≢some (sym (browse_closed xs s closed) ∙ e))
]

-- How a `discover` has left the browser.
abbrev pub Restores : Bool → Option (DnssdService × List Bytes) → Type 0
Restores was none = Unit
Restores was (some (t, names)) = (t.in_open ≡ was) × (names ≡ get_instances t.impl)

end_closes : (s : DnssdService) → (end_browsing s).in_open ≡ false
unfolding end_browsing
end_closes s = ground arith

finish-Restores :
    (was began : Bool) (o : Option (DnssdService × ℤ))
    → (began ≡ true → was ≡ false)
    → (began ≡ false → (t : DnssdService) (code : ℤ) → o ≡ some (t, code) → t.in_open ≡ was)
    → Restores was (finish began o)
unfolding finish
finish-Restores was began none new old = tt
finish-Restores was true (some (t, code)) new old = (end_closes t ∙ sym (new refl), refl)
finish-Restores was false (some (t, code)) new old = (old refl t code refl, refl)

begun :
    (error : ℤ) (s : DnssdService)
    → (code_eq (begin_browsing error s).1 success ≡ true → s.in_open ≡ false)
      × (code_eq (begin_browsing error s).1 success ≡ false
          → (begin_browsing error s).0.in_open ≡ s.in_open)
unfolding begin_browsing code_eq
begun error s = (ground arith, ground arith)

chosen :
    (was b : Bool) (x y : Option (DnssdService × List Bytes))
    → Restores was x
    → (b ≡ false → Restores was y)
    → Restores was (if b then x else y)
chosen was true x y hx hy = hx
chosen was false x y hx hy = hy refl

neither : (b c : Bool) → (b || c) ≡ false → b ≡ false
neither b c e = ground arith

-- If `discover` returns, the service browses exactly if it did before, and the names are those of the
-- instances that it has found.
pub discover-Restores :
    (error : ℤ) (selects : List (Select Browsed)) (s : DnssdService)
    → Restores s.in_open (discover error selects s)
unfolding discover
discover-Restores error selects s =
    let (new, old) = begun error s in
    let s1 : DnssdService = (begin_browsing error s).0 in
    let res : ℤ = (begin_browsing error s).1 in
    chosen s.in_open (code_eq res success || code_eq res pending)
      (finish (code_eq res success) (browse selects s1)) (some (s1, get_instances s1.impl))
      (finish-Restores s.in_open (code_eq res success) (browse selects s1) new
        (λ e t code ran. browse_keeps_open selects s1 t code ran ∙ old e))
      (λ e. (old (neither (code_eq res success) (code_eq res pending) e), refl))
