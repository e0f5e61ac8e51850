-- ===== src/Service/TestDriver/Discover.antt =====
-- `discover` on the test service: the names in the directory.
use servus.Prelude.{
  ℕ, Bool, true, false, ◌||◌, List, [], ◌∷◌, Option, none, some, ◌≡◌, refl, ◌∙◌, ap, arith,
  Bool-cases, Option-cases, inl, inr,
}
use servus.Bytes.{Bytes}
use servus.Bytes.Order.{str_eq, cmp-eq}
use servus.StdMap
use servus.StdMap.{StdMap}
use servus.Service.{discover, get_instances, member}
use servus.Service.Result.{code_eq}
use servus.Service.Listener.{Event}
use servus.Service.TestDriver.{
  TestService, World, begin_browsing, end_browsing, browse, collect, values_of, host_entry, toggle,
  symmetric_difference, test_driver,
}
use servus.Service.TestDriver.Sets.{IsAscending}
use servus.Service.TestDriver.Returns.{browse_returns}

abbrev pub is_named : Option TestService → Bytes → Bool
is_named none z = false
is_named (some o) z = str_eq z o.instance_name

-- Whether one of the services has the name.
unfoldable pub named : (ℕ → Option TestService) → Bytes → List ℕ → Bool
named objects z [] = false
named objects z (p ∷ ps) = is_named (objects p) z || named objects z ps

-- Whether a name is in the list.
unfoldable pub listed : Bytes → List Bytes → Bool
listed z [] = false
listed z (k ∷ ks) = str_eq z k || listed z ks

listed-insert :
    {V : Type 0} (z k : Bytes) (v : V) (m : StdMap V)
    → listed z (StdMap.keys (StdMap.insert k v m)) ≡ (str_eq z k || listed z (StdMap.keys m))
unfolding listed StdMap.keys StdMap.insert
listed-insert z k v [] = refl
listed-insert z k v ((j, w) ∷ m) = ground (arith, listed-insert z k v m, cmp-eq k j)

listed-collect :
    (objects : ℕ → Option TestService) (z : Bytes) (dir : List ℕ) (m m' : StdMap (StdMap Bytes))
    → collect objects dir m ≡ some m'
    → listed z (StdMap.keys m') ≡ (named objects z dir || listed z (StdMap.keys m))
unfolding collect named
listed-collect objects z [] m m' e = ground arith
listed-collect objects z (i ∷ dir) m m' e = elim (Option-cases (objects i)) [
  | inl dangling ↦ ground arith
  | inr (o, live) ↦
      let vals : StdMap Bytes = values_of o.impl.data_map host_entry in
      ground (
        arith,
        listed-collect objects z dir (StdMap.insert o.instance_name vals m) m',
        listed-insert z o.instance_name vals m,
      )
]

browse_names :
    (w : World) (s t : TestService) (events : List Event) (z : Bytes)
    → browse w s ≡ some (t, events)
    → listed z (get_instances t.impl) ≡ named w.objects z w.directory
unfolding browse get_instances listed StdMap.keys
browse_names w s t events z e = elim (Option-cases (collect w.objects w.directory [])) [
  | inl fault ↦ ground arith
  | inr (m, em) ↦ ground (
    arith,
    listed-collect w.objects z w.directory [] m em,
    Option-cases (
        toggle w.objects s.impl.listeners (symmetric_difference w.directory s.instances) s.instances
          []),
  )
]

discover_names :
    (w : World) (s t : TestService) (events : List Event)
    → browse w (begin_browsing s).0 ≡ some (t, events)
    → (discover (test_driver w) s).1 ≡ get_instances t.impl
unfolding discover test_driver begin_browsing end_browsing code_eq
discover_names w s t events e = ground arith

begun-IsAscending :
    (s : TestService) → IsAscending s.instances → IsAscending (begin_browsing s).0.instances
unfolding begin_browsing
begun-IsAscending s a = elim (Bool-cases s.browsing) [
  | inl on ↦ rw (on, begin_browsing) a
  | inr off ↦ rw (off, begin_browsing) tt
]

member_begun :
    (s : TestService) (q : ℕ)
    → member q (begin_browsing s).0.instances ≡ true
    → member q s.instances ≡ true
unfolding begin_browsing member
member_begun s q m = ground arith

-- If the services in the directory and those that the browser knows are live, and both sets are
-- ascending, `discover` lists a name exactly if a service in the directory has it, whether the service
-- was browsing before or not.
pub discover-named :
    (w : World) (s : TestService) (z : Bytes)
    → IsAscending w.directory
    → IsAscending s.instances
    → ((q : ℕ) → member q w.directory ≡ true → (o : TestService) × (w.objects q ≡ some o))
    → ((q : ℕ) → member q s.instances ≡ true → (o : TestService) × (w.objects q ≡ some o))
    → listed z (discover (test_driver w) s).1 ≡ named w.objects z w.directory
discover-named w s z ad ai in_directory in_known =
    let b : TestService = (begin_browsing s).0 in
    let (t, events, e) =
      browse_returns w b ad (begun-IsAscending s ai) in_directory
        (λ q m. in_known q (member_begun s q m)) in
    ap (listed z) (discover_names w s t events e) ∙ browse_names w b t events z e
