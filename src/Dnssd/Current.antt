-- ===== src/Dnssd/Current.antt =====
-- The text record that the library announces, and what each operation makes of it.
use servus.Prelude.{true, false, List, some, ◌≡◌, ◌≢◌, inl, inr, refl, sym, ◌∙◌, arith, Bool-cases}
use servus.Prelude.Int.{ℤ}
use servus.Bytes.{Bytes}
use servus.Service.Result.{success, code_eq}
use servus.Dnssd.{
  DnssdService, Select, Browsed, withdraw, end_browsing, resolve, set_value_calls, update_record,
  set, announce, begin_browsing, browse,
}
use servus.Dnssd.Loop.{Survives}
use servus.Dnssd.Operations.{announce_keeps, browse_keeps}

pub true≢false : true ≢ false
true≢false h = cc

-- While the service is announced, the text record that is announced has been filled with its data.
abbrev pub IsUpToDate : DnssdService → Type 0
IsUpToDate s = s.out_open ≡ true → s.published ≡ set_value_calls s.impl.data_map

withdraw_closes : (s : DnssdService) → (withdraw s).out_open ≡ false
unfolding withdraw
withdraw_closes s = ground arith

pub withdraw-IsUpToDate : (s : DnssdService) → IsUpToDate (withdraw s)
withdraw-IsUpToDate s on = absurd (true≢false (sym on ∙ withdraw_closes s))

resolve_leaves :
    (s : DnssdService) (host : Bytes) (items : List (Bytes × Bytes))
    → IsUpToDate s
    → IsUpToDate (resolve host items s)
unfolding resolve
resolve_leaves s host items h = h

IsUpToDate-Survives : Survives IsUpToDate
IsUpToDate-Survives = record {
  withdraws = λ s h. withdraw-IsUpToDate s;
  ends = λ s code h. h;
  resolves = resolve_leaves;
  browses = λ s name h. h;
  removes = λ s name h. h;
}

pub announce-IsUpToDate :
    (error : ℤ) (xs : List (Select ℤ)) (s t : DnssdService) (code : ℤ)
    → announce error xs s ≡ some (t, code)
    → IsUpToDate s
    → IsUpToDate t
announce-IsUpToDate error xs s t code e h =
    announce_keeps IsUpToDate IsUpToDate-Survives error xs s t code (λ _ on. refl) e h

pub browse-IsUpToDate :
    (xs : List (Select Browsed)) (s t : DnssdService) (code : ℤ)
    → browse xs s ≡ some (t, code)
    → IsUpToDate s
    → IsUpToDate t
browse-IsUpToDate xs s t code e h = browse_keeps IsUpToDate IsUpToDate-Survives xs s t code e h

pub begin_browsing-IsUpToDate :
    (error : ℤ) (s : DnssdService) → IsUpToDate s → IsUpToDate (begin_browsing error s).0
unfolding begin_browsing
begin_browsing-IsUpToDate error s h = elim (Bool-cases s.in_open) [
  | inl reads ↦ simp (reads, begin_browsing) h
  | inr closed ↦ simp (closed, begin_browsing) h
]

pub end_browsing-IsUpToDate : (s : DnssdService) → IsUpToDate s → IsUpToDate (end_browsing s)
unfolding end_browsing
end_browsing-IsUpToDate s h = elim (Bool-cases s.in_open) [
  | inl reads ↦ simp (reads, end_browsing) h
  | inr closed ↦ simp (closed, end_browsing) h
]

set_keeps_open :
    (s : DnssdService) (key value : Bytes) → (set success s key value).out_open ≡ s.out_open
unfolding set update_record
set_keeps_open s key value = ground arith

pub set-IsUpToDate : (s : DnssdService) (key value : Bytes) → IsUpToDate (set success s key value)
unfolding set update_record code_eq
set-IsUpToDate s key value = elim (Bool-cases s.out_open) [
  | inl on ↦ simp (on, set, update_record) (λ e. refl)
  | inr off ↦ λ e. absurd (true≢false (sym e ∙ set_keeps_open s key value ∙ off))
]
