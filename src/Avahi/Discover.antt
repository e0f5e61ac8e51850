-- ===== src/Avahi/Discover.antt =====
-- `discover` (servus/servus.cpp) over Avahi, where browsing can throw.
use servus.Prelude.{
  ℕ, Bool, true, false, ◌||◌, ◌-◌, List, ◌≡◌, refl, sym, ◌∙◌, arith, if◌then◌else◌, ltb,
}
use servus.Prelude.Int.{ℤ, pos, negsuc}
use servus.Bytes.{Bytes}
use servus.Service.{get_instances}
use servus.Service.Interface.{Interface}
use servus.Service.Result.{success, pending, code_eq}
use servus.Avahi.{AvahiService, Answers, Round, Outcome, returned, thrown, waiting}
use servus.Avahi.Operations.{begin_browsing, end_browsing, browse}
use servus.Avahi.Survives.{Leaves}
use servus.Avahi.Keeps.{browse-Browses}

-- The conversion of an `unsigned` to an `int32_t`.
unfoldable pub to_int32 : ℕ → ℤ
to_int32 n = if ltb n 2147483648 then pos n else negsuc (4294967295 - n)

-- What follows the call of `browse`.
unfoldable pub finish : Bool → Outcome ℤ → Outcome (List Bytes)
unfolding end_browsing get_instances
finish began (returned t _) =
    let u = if began then end_browsing t else t in returned u (get_instances u.impl)
finish began (thrown t) = thrown t
finish began waiting = waiting

module _ (add_pair : List Bytes → Bytes → Bytes → List Bytes) where
  unfoldable pub discover :
      Answers → Interface → ℕ → List Round → AvahiService → Outcome (List Bytes)
  unfolding begin_browsing browse finish to_int32 get_instances code_eq
  discover a addr browse_time rounds s =
      let (s1, res) = begin_browsing a addr s in
      if code_eq res success || code_eq res pending
      then finish (code_eq res success) (browse add_pair (to_int32 browse_time) rounds s1)
      else returned s1 (get_instances s1.impl)

  -- How a `discover` has left the browser.
  abbrev pub Restores : Bool → Bool → Outcome (List Bytes) → Type 0
  Restores was opened (returned t names) = (t.browser ≡ was) × (names ≡ get_instances t.impl)
  Restores was opened (thrown t) = t.browser ≡ opened
  Restores was opened waiting = Unit

  finish-Restores :
      (was opened began : Bool) (o : Outcome ℤ)
      → (began ≡ true → was ≡ false)
      → (began ≡ false → was ≡ opened)
      → Leaves (λ t. t.browser ≡ opened) o
      → Restores was opened (finish began o)
  unfolding finish end_browsing
  finish-Restores was opened true (returned t _) new old h = (sym (new refl), refl)
  finish-Restores was opened false (returned t _) new old h = (h ∙ sym (old refl), refl)
  finish-Restores was opened began (thrown t) new old h = h
  finish-Restores was opened began waiting new old h = tt

  -- What `beginBrowsing` says of the browser.
  begun :
      (a : Answers) (addr : Interface) (s : AvahiService)
      → ((begin_browsing a addr s).0.browser ≡ (s.browser || a.browser_new))
        × (code_eq (begin_browsing a addr s).1 success ≡ true → s.browser ≡ false)
        × (code_eq (begin_browsing a addr s).1 success ≡ false
            → s.browser ≡ (s.browser || a.browser_new))
  unfolding begin_browsing code_eq
  begun a addr s = (ground arith, ground arith, ground arith)

  chosen :
      (was opened b : Bool) (x y : Outcome (List Bytes))
      → Restores was opened x
      → (b ≡ false → Restores was opened y)
      → Restores was opened (if b then x else y)
  chosen was opened true x y hx hy = hx
  chosen was opened false x y hx hy = hy refl

  neither : (b c : Bool) → (b || c) ≡ false → b ≡ false
  neither b c e = ground arith

  -- If `discover` returns, the service browses exactly if it did before, and the names are those of the
  -- instances that it has found. If a callback throws, a browser that has been made stays open.
  pub discover-Restores :
      (a : Answers) (addr : Interface) (browse_time : ℕ) (rounds : List Round) (s : AvahiService)
      → Restores s.browser (s.browser || a.browser_new) (discover a addr browse_time rounds s)
  unfolding discover
  discover-Restores a addr browse_time rounds s =
      let (opened, new, old) = begun a addr s in
      let s1 : AvahiService = (begin_browsing a addr s).0 in
      let res : ℤ = (begin_browsing a addr s).1 in
      let ran : Outcome ℤ = browse add_pair (to_int32 browse_time) rounds s1 in
      chosen s.browser (s.browser || a.browser_new) (code_eq res success || code_eq res pending)
        (finish (code_eq res success) ran) (returned s1 (get_instances s1.impl))
        (finish-Restores s.browser (s.browser || a.browser_new) (code_eq res success) ran new old (
          browse-Browses add_pair (s.browser || a.browser_new) (to_int32 browse_time) rounds s1
            opened))
        (λ e. (opened ∙ sym (old (neither (code_eq res success) (code_eq res pending) e)), refl))
