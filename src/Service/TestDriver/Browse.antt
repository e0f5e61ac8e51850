-- ===== src/Service/TestDriver/Browse.antt =====
-- What `browse` establishes, and where it reads a service that is gone.
use servus.Prelude.{
  ℕ, true, false, List, [], ◌∷◌, ◌++◌, Option, none, some, ◌≡◌, ◌≢◌, refl, arith, ap, Bool-cases,
  Option-cases, inl, inr, if◌then◌else◌,
}
use servus.Service.{member, without}
use servus.Service.TestDriver.{
  TestService, World, notify_at, toggle, browse, collect, set_insert, symmetric_difference,
}
use servus.Service.TestDriver.Sets.{
  IsAscending, xor, member-set_insert, member-without, member-Above, set_insert-IsAscending,
  without-IsAscending, difference-IsAscending, member-difference, ascending_ext,
}
use servus.Service.Listener.{Event, instance_added, instance_removed, notify}

-- The instances that are known when each member of the difference has changed sides.
toggled : List ℕ → List ℕ → List ℕ
toggled [] instances = instances
toggled (i ∷ diff) instances =
    toggled diff (if member i instances then without i instances else set_insert i instances)

module _ (objects : ℕ → Option TestService) (listeners : List ℕ) where
  toggle-toggled :
      (diff instances : List ℕ) (events : List Event) (known : List ℕ) (told : List Event)
      → toggle objects listeners diff instances events ≡ some (known, told)
      → known ≡ toggled diff instances
  unfolding toggle toggled
  toggle-toggled [] instances events known told e = ground arith
  toggle-toggled (i ∷ diff) instances events known told e = elim (Bool-cases (member i instances)) [
    | inl old ↦ elim (Option-cases (notify_at objects instance_removed listeners i)) [
      | inl fault ↦ ground arith
      | inr (told', e') ↦
          ground (arith, toggle-toggled diff (without i instances) (events ++ told') known told)
    ]
    | inr new ↦ elim (Option-cases (notify_at objects instance_added listeners i)) [
      | inl fault ↦ ground arith
      | inr (told', e') ↦
          ground (arith, toggle-toggled diff (set_insert i instances) (events ++ told') known told)
    ]
  ]

-- A dangling pointer in the difference is read as soon as there is a listener.
toggle_dangling :
    (objects : ℕ → Option TestService) (l : ℕ) (ls diff instances : List ℕ) (events : List Event)
    (q : ℕ)
    → member q diff ≡ true
    → objects q ≡ none
    → toggle objects (l ∷ ls) diff instances events ≡ none
unfolding toggle member notify_at
toggle_dangling objects l ls [] instances events q m gone = cc
toggle_dangling objects l ls (i ∷ diff) instances events q m gone =
    elim (Option-cases (objects i)) [
      | inl dangling ↦ ground arith
      | inr (o, live) ↦ ground (
        arith,
        ap objects {x = q} {y = i},
        toggle_dangling objects l ls diff (without i instances)
            (events ++ notify instance_removed (l ∷ ls) o.instance_name) q,
        toggle_dangling objects l ls diff (set_insert i instances)
            (events ++ notify instance_added (l ∷ ls) o.instance_name) q,
      )
    ]

toggle_faults :
    (objects : ℕ → Option TestService) (listeners diff instances : List ℕ) (q : ℕ)
    → listeners ≢ []
    → member q diff ≡ true
    → objects q ≡ none
    → toggle objects listeners diff instances [] ≡ none
toggle_faults objects [] diff instances q some_listener m gone = absurd (some_listener refl)
toggle_faults objects (l ∷ ls) diff instances q some_listener m gone =
    toggle_dangling objects l ls diff instances [] q m gone

toggled_members :
    (diff instances : List ℕ)
    → IsAscending diff
    → IsAscending instances
    → IsAscending (toggled diff instances)
      × ((z : ℕ) → member z (toggled diff instances) ≡ xor (member z instances) (member z diff))
unfolding toggled member
toggled_members [] instances ad ai = (ai, λ z. ground arith)
toggled_members (i ∷ diff) instances ad ai = elim (Bool-cases (member i instances)) [
  | inl old ↦
      let (asc, mem) =
        toggled_members diff (without i instances) ad.1 (without-IsAscending i instances ai) in
      rw old
        (asc, λ z. ground (arith, mem z, member-without z i instances, member-Above z i diff ad.0))
  | inr new ↦
      let (asc, mem) =
        toggled_members diff (set_insert i instances) ad.1
          (set_insert-IsAscending i instances ai) in
      rw new (
        asc,
        λ z. ground (arith, mem z, member-set_insert z i instances, member-Above z i diff ad.0),
      )
]

-- What a difference with the known set turns it into.
toggled-difference :
    (directory instances : List ℕ)
    → IsAscending directory
    → IsAscending instances
    → toggled (symmetric_difference directory instances) instances ≡ directory
toggled-difference directory instances ad ai =
    let diff : List ℕ = symmetric_difference directory instances in
    let (asc, mem) =
      toggled_members diff instances (difference-IsAscending directory instances ad ai) ai in
    ascending_ext (toggled diff instances) directory asc ad
      (λ z. ground (arith, mem z, member-difference z directory instances ad ai))

-- After a `browse` that returns, from an ascending directory and an ascending set of known
-- instances, the known instances are exactly the directory, and of the service only the known
-- instances and the map of the instances have changed.
pub browse_known :
    (w : World) (s t : TestService) (events : List Event)
    → IsAscending w.directory
    → IsAscending s.instances
    → browse w s ≡ some (t, events)
    → (t.instances ≡ w.directory)
      × (t ≡ record s { impl = t.impl; instances = t.instances })
      × (t.impl ≡ record s.impl { instance_map = t.impl.instance_map })
unfolding browse
browse_known w s t events ad ai e =
    let diff : List ℕ = symmetric_difference w.directory s.instances in
    elim (Option-cases (collect w.objects w.directory [])) [
      | inl fault ↦ ground arith
      | inr (m, em) ↦ elim (Option-cases (toggle w.objects s.impl.listeners diff s.instances [])) [
        | inl fault ↦ ground arith
        | inr ((known, told), et) ↦
            let path =
              toggle-toggled w.objects s.impl.listeners diff s.instances [] known told et in
            let whole = toggled-difference w.directory s.instances ad ai in
            (ground arith, ground arith, ground arith)
      ]
    ]

-- `browse` with a listener reads a service that is gone, if a known instance has been destroyed
-- and so has left the directory: the result is a fault (`none`).
pub browse_dangling :
    (w : World) (s : TestService) (q : ℕ)
    → IsAscending w.directory
    → IsAscending s.instances
    → s.impl.listeners ≢ []
    → member q s.instances ≡ true
    → member q w.directory ≡ false
    → w.objects q ≡ none
    → browse w s ≡ none
unfolding browse
browse_dangling w s q ad ai some_listener known left gone =
    let diff : List ℕ = symmetric_difference w.directory s.instances in
    let in_diff : member q diff ≡ true =
      ground (arith, member-difference q w.directory s.instances ad ai) in
    ground (
      arith,
      toggle_faults w.objects s.impl.listeners diff s.instances q some_listener in_diff gone,
    )

-- The loop of a `browse` that has returned.
pub browse_told :
    (w : World) (s t : TestService) (events : List Event)
    → browse w s ≡ some (t, events)
    → toggle w.objects s.impl.listeners
        (symmetric_difference w.directory s.instances)
        s.instances
        []
      ≡ some (t.instances, events)
unfolding browse
browse_told w s t events e = elim (Option-cases (collect w.objects w.directory [])) [
  | inl fault ↦ ground arith
  | inr (m, em) ↦ ground arith
]
