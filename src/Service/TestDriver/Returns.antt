-- ===== src/Service/TestDriver/Returns.antt =====
-- `browse` returns as long as no pointer that it reads dangles.
use servus.Prelude.{
  ℕ, true, List, [], ◌∷◌, ◌++◌, Option, some, ◌≡◌, inl, inr, refl, arith, Bool-cases,
}
use servus.Bytes.{Bytes}
use servus.StdMap
use servus.StdMap.{StdMap}
use servus.Service.{member, without}
use servus.Service.TestDriver.{
  TestService, World, notify_at, toggle, browse, collect, set_insert, symmetric_difference,
  values_of, host_entry,
}
use servus.Service.TestDriver.Sets.{IsAscending, member-difference}
use servus.Service.Listener.{Event, instance_added, instance_removed, notify}

module _ (objects : ℕ → Option TestService) where
  -- Every address in the list is that of a live service.
  abbrev pub AllLive : List ℕ → Type 0
  AllLive [] = Unit
  AllLive (i ∷ is) = ((o : TestService) × (objects i ≡ some o)) × AllLive is

  AllLive-of :
      (is : List ℕ)
      → ((q : ℕ) → member q is ≡ true → (o : TestService) × (objects q ≡ some o))
      → AllLive is
  AllLive-of [] h = tt
  AllLive-of (i ∷ is) h = (
    h i (unfold member in ground arith),
    AllLive-of is (λ q m. h q (unfold member in ground arith)),
  )

  collect_returns :
      (dir : List ℕ) (m : StdMap (StdMap Bytes))
      → AllLive dir
      → (m' : StdMap (StdMap Bytes)) × (collect objects dir m ≡ some m')
  unfolding collect
  collect_returns [] m h = (m, refl)
  collect_returns (i ∷ dir) m h =
      let ((o, live), rest) = h in
      rw (live, collect)
        (collect_returns dir
          (StdMap.insert o.instance_name (values_of o.impl.data_map host_entry) m) rest)

  notify_returns :
      (event : ℕ → Bytes → Event) (listeners : List ℕ) (i : ℕ) (o : TestService)
      → objects i ≡ some o
      → notify_at objects event listeners i ≡ some (notify event listeners o.instance_name)
  unfolding notify_at notify
  notify_returns event [] i o live = refl
  notify_returns event (l ∷ ls) i o live = rw (live, notify_at)

  toggle_returns :
      (listeners diff instances : List ℕ) (events : List Event)
      → AllLive diff
      → (known : List ℕ) × (told : List Event) × (toggle objects listeners diff instances events
          ≡ some (known, told))
  unfolding toggle
  toggle_returns listeners [] instances events h = (instances, events, refl)
  toggle_returns listeners (i ∷ diff) instances events h =
      let ((o, live), rest) = h in
      elim (Bool-cases (member i instances)) [
        | inl old ↦
            rw (old, notify_returns instance_removed listeners i o live, toggle)
              (toggle_returns listeners diff (without i instances)
                (events ++ notify instance_removed listeners o.instance_name) rest)
        | inr new ↦
            rw (new, notify_returns instance_added listeners i o live, toggle)
              (toggle_returns listeners diff (set_insert i instances)
                (events ++ notify instance_added listeners o.instance_name) rest)
      ]

-- `browse`, its two loops having returned.
browse_at :
    (w : World) (s : TestService) (m : StdMap (StdMap Bytes)) (known : List ℕ) (told : List Event)
    → collect w.objects w.directory [] ≡ some m
    → toggle w.objects s.impl.listeners
        (symmetric_difference w.directory s.instances)
        s.instances
        []
      ≡ some (known, told)
    → browse w s
      ≡ some (record s { impl = record s.impl { instance_map = m }; instances = known }, told)
unfolding browse
browse_at w s m known told em et = rw (em, et, browse)

-- `browse` returns, if every service in the directory and every known instance is live, and both
-- sets are ascending.
pub browse_returns :
    (w : World) (s : TestService)
    → IsAscending w.directory
    → IsAscending s.instances
    → ((q : ℕ) → member q w.directory ≡ true → (o : TestService) × (w.objects q ≡ some o))
    → ((q : ℕ) → member q s.instances ≡ true → (o : TestService) × (w.objects q ≡ some o))
    → (t : TestService) × (events : List Event) × (browse w s ≡ some (t, events))
browse_returns w s ad ai in_directory in_known =
    let diff : List ℕ = symmetric_difference w.directory s.instances in
    let (m, em) =
      collect_returns w.objects w.directory [] (AllLive-of w.objects w.directory in_directory) in
    let live : (q : ℕ) → member q diff ≡ true → (o : TestService) × (w.objects q ≡ some o) =
      λ q mem. elim (Bool-cases (member q w.directory)) [
        | inl listed ↦ in_directory q listed
        | inr left ↦ in_known q (ground (arith, member-difference q w.directory s.instances ad ai))
      ] in
    let (known, told, et) =
      toggle_returns w.objects s.impl.listeners diff s.instances []
        (AllLive-of w.objects diff live) in
    (
      record s { impl = record s.impl { instance_map = m }; instances = known },
      told,
      browse_at w s m known told em et,
    )
