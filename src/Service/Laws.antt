-- ===== src/Service/Laws.antt =====
-- What the service promises of its keys, and of `discover` over any driver.
use servus.Prelude.{
  ℕ, Bool, true, false, not, ◌||◌, ◌&&◌, ◌≡◌, inl, inr, refl, sym, ◌∙◌, arith, ◌==◌, if◌then◌else◌,
  Bool-cases,
}
use servus.Bytes.{Bytes}
use servus.Bytes.Order.{str_eq, cmp-eq}
use servus.StdMap.{find-insert}
use servus.StdMap.Sorted.{IsSorted, insert-IsSorted}
use servus.Service.{Impl, Driver, get, set_data, discover, add_listener, remove_listener, member}
use servus.Service.TestDriver
use servus.Service.TestDriver.{TestService, World}
use servus.Service.Result.{success, pending, code_eq}

-- After `set(key, value)` the key has the value, every other key its old one, and ascending keys stay
-- ascending.
pub get-set :
    (s : Impl) (key value j : Bytes)
    → IsSorted s.data_map
    → (get (set_data s key value) j ≡ (if str_eq j key then value else get s j))
      × IsSorted (set_data s key value).data_map
unfolding get set_data
get-set s key value j sorted = (
  ground (arith, find-insert key j value s.data_map, cmp-eq j key),
  insert-IsSorted key value s.data_map sorted,
)

-- Adding a listener other than the null pointer makes it a member, removing it ends that, and
-- neither touches the others; the null pointer changes nothing.
pub listeners_change :
    (s : Impl) (l z : ℕ)
    → (member z (add_listener s l).listeners ≡ ((not (l == 0) && z == l) || member z s.listeners))
      × (member z (remove_listener s l).listeners
          ≡ ((l == 0 || not (z == l)) && member z s.listeners))
unfolding add_listener remove_listener member
listeners_change s l z =
    (ground arith, ground (arith, TestDriver.Sets.member-without z l s.listeners))

-- What `discover` relies on: when browsing begins, goes on and ends.
pub record BrowsingLaws {S : Type 0} (driver : Driver S) (is_browsing : S → Bool) : Type 0 where
  pub begins :
      (s : S) → (code_eq (driver.begin_browsing s).1 success ≡ true) → is_browsing s ≡ false
  pub goes_on :
      (s : S)
      → (code_eq (driver.begin_browsing s).1 success ≡ false)
      → is_browsing (driver.begin_browsing s).0 ≡ is_browsing s
  pub keeps : (s : S) → is_browsing (driver.browse s).0 ≡ is_browsing s
  pub ends : (s : S) → is_browsing (driver.end_browsing s) ≡ false

-- For a driver that keeps these laws, `discover` leaves the service browsing exactly if it was.
pub discover_keeps_browsing :
    {S : Type 0} (driver : Driver S) (is_browsing : S → Bool) (s : S)
    → BrowsingLaws driver is_browsing
    → is_browsing (discover driver s).0 ≡ is_browsing s
unfolding discover
discover_keeps_browsing driver is_browsing s laws =
    elim (Bool-cases (code_eq (driver.begin_browsing s).1 success)) [
      | inl began ↦
          rw began
            (laws.ends (driver.browse (driver.begin_browsing s).0).0 ∙ sym (laws.begins s began))
      | inr other ↦ elim (Bool-cases (code_eq (driver.begin_browsing s).1 pending)) [
        | inl held ↦
            rw (other, held) (laws.keeps (driver.begin_browsing s).0 ∙ laws.goes_on s other)
        | inr neither ↦ rw (other, neither) (laws.goes_on s other)
      ]
    ]

browse_keeps :
    (w : World) (s : TestService) → ((TestDriver.test_driver w).browse s).0.browsing ≡ s.browsing
unfolding TestDriver.test_driver TestDriver.browse
browse_keeps w s = ground arith

begin_laws :
    (s : TestService)
    → ((code_eq (TestDriver.begin_browsing s).1 success ≡ true) → s.browsing ≡ false)
      × ((code_eq (TestDriver.begin_browsing s).1 success ≡ false)
          → (TestDriver.begin_browsing s).0.browsing ≡ s.browsing)
unfolding TestDriver.begin_browsing code_eq
begin_laws s = elim (Bool-cases s.browsing) [
  | inl on ↦ rw (on, TestDriver.begin_browsing) (λ h. cc, λ h. refl)
  | inr off ↦ rw (off, TestDriver.begin_browsing) (λ h. refl, λ h. cc)
]

-- The test service keeps them.
pub test_driver-BrowsingLaws :
    (w : World) → BrowsingLaws (TestDriver.test_driver w) (λ s. s.browsing)
unfolding TestDriver.test_driver TestDriver.end_browsing
test_driver-BrowsingLaws w = record {
  begins = λ s. (begin_laws s).0;
  goes_on = λ s. (begin_laws s).1;
  keeps = browse_keeps w;
  ends = λ s. refl;
}
