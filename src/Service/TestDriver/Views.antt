-- ===== src/Service/TestDriver/Views.antt =====
-- What a browser reads of the services in the directory.
use servus.Prelude.{
  ℕ, true, false, List, [], ◌∷◌, Option, none, some, ◌≡◌, ◌≢◌, ◌∙◌, refl, sym, ap, arith, ◌==◌,
  Bool-cases, Option-cases, inl, inr, if◌then◌else◌,
}
use servus.Bytes.{Bytes, codes}
use servus.Bytes.Order.{cmp_refl, cmp-eq, str_eq}
use servus.StdMap
use servus.StdMap.{StdMap, find-insert}
use servus.StdMap.Sorted.{IsSorted, find-Above}
use servus.Service.{member, get_instance_value}
use servus.Service.TestDriver.{
  TestService, World, browse, collect, toggle, symmetric_difference, values_of, host_entry,
}
use servus.Service.TestDriver.Sets
use servus.Service.TestDriver.Sets.{IsAscending, member-Above}
use servus.Service.Listener.{Event}

-- The pairs of a service hide those that were there before.
find-values_of :
    (k : Bytes) (d m : StdMap Bytes)
    → IsSorted d
    → StdMap.find k (values_of d m)
      ≡ (elim (StdMap.find k d) [ none ↦ StdMap.find k m | some v ↦ some v ])
unfolding values_of StdMap.find
find-values_of k [] m s = refl
find-values_of k ((j, v) ∷ d) m s = ground (
  arith,
  find-values_of k d (StdMap.insert j v m) s.1,
  find-insert j k v m,
  find-Above j d s.0,
  cmp-eq k j,
)

member-head : (j : ℕ) (dir : List ℕ) → member j (j ∷ dir) ≡ true
unfolding member
member-head j dir = ground arith

member-tail : (i j : ℕ) (dir : List ℕ) → member i dir ≡ true → member i (j ∷ dir) ≡ true
unfolding member
member-tail i j dir h = ground arith

member_later :
    (i j : ℕ) (dir : List ℕ) → member i (j ∷ dir) ≡ true → (i == j) ≡ false → member i dir ≡ true
unfolding member
member_later i j dir h other = ground arith

nothing_in : (i : ℕ) → member i [] ≡ true → ⊥
unfolding member
nothing_in i h = cc

not_head : (i j k : ℕ) (dir : List ℕ) → i ≡ j → Sets.Above j dir → member k dir ≡ true → k ≢ i
not_head i j k dir path above mk = λ p. ground (arith, member-Above k j dir above)

module _ (objects : ℕ → Option TestService) (name : Bytes) where
  -- No service in the list has the name.
  abbrev Unnamed : List ℕ → Type 0
  Unnamed dir =
      (j : ℕ) (o : TestService) → member j dir ≡ true → objects j ≡ some o → o.instance_name ≢ name

  Unnamed-tail : (j : ℕ) (dir : List ℕ) → Unnamed (j ∷ dir) → Unnamed dir
  Unnamed-tail j dir h i o m e = h i o (member-tail i j dir m) e

  collect_stays :
      (dir : List ℕ) (m m' : StdMap (StdMap Bytes))
      → collect objects dir m ≡ some m'
      → Unnamed dir
      → StdMap.find name m' ≡ StdMap.find name m
  unfolding collect
  collect_stays [] m m' e h = ground arith
  collect_stays (j ∷ dir) m m' e h = elim (Option-cases (objects j)) [
    | inl dangling ↦ ground arith
    | inr (o, live) ↦
        let differs : o.instance_name ≢ name = h j o (member-head j dir) live in
        let vals : StdMap Bytes = values_of o.impl.data_map host_entry in
        ground (
          arith,
          differs,
          collect_stays dir (StdMap.insert o.instance_name vals m) m',
          Unnamed-tail j dir h,
          find-insert o.instance_name name vals m,
          cmp-eq name o.instance_name,
        )
  ]

  collect-live :
      (j : ℕ) (dir : List ℕ) (m : StdMap (StdMap Bytes)) (o : TestService)
      → objects j ≡ some o
      → collect objects (j ∷ dir) m
        ≡ collect objects dir
            (StdMap.insert o.instance_name (values_of o.impl.data_map host_entry) m)
  unfolding collect
  collect-live j dir m o live = rw (live, collect)

  collect_fault :
      (j : ℕ) (dir : List ℕ) (m m' : StdMap (StdMap Bytes))
      → objects j ≡ none
      → collect objects (j ∷ dir) m ≡ some m'
      → ⊥
  unfolding collect
  collect_fault j dir m m' dangling e = ground arith

  collect_finds :
      (dir : List ℕ) (m m' : StdMap (StdMap Bytes)) (i : ℕ) (o : TestService)
      → collect objects dir m ≡ some m'
      → IsAscending dir
      → member i dir ≡ true
      → objects i ≡ some o
      → o.instance_name ≡ name
      → ((j : ℕ) (o' : TestService)
          → member j dir ≡ true
          → j ≢ i
          → objects j ≡ some o'
          → o'.instance_name ≢ name)
      → StdMap.find name m' ≡ some (values_of o.impl.data_map host_entry)
  unfolding collect
  collect_finds [] m m' i o e asc mem live named others = absurd (nothing_in i mem)
  collect_finds (j ∷ dir) m m' i o e asc mem live named others = elim (Bool-cases (i == j)) [
    | inl head ↦
        let path : i ≡ j = ground arith in
        let live' : objects j ≡ some o = sym (ap objects path) ∙ live in
        let vals : StdMap Bytes = values_of o.impl.data_map host_entry in
        collect_stays dir (StdMap.insert o.instance_name vals m) m'
          (sym (collect-live j dir m o live') ∙ e)
          (λ k o' mk. others k o' (member-tail k j dir mk) (not_head i j k dir path asc.0 mk))
        ∙ find-insert o.instance_name name vals m
        ∙ rw named (ground (arith, cmp_refl name))
    | inr later ↦ elim (Option-cases (objects j)) [
      | inl dangling ↦ absurd (collect_fault j dir m m' dangling e)
      | inr (o2, live2) ↦
          collect_finds dir
            (StdMap.insert o2.instance_name (values_of o2.impl.data_map host_entry) m) m' i o
            (sym (collect-live j dir m o2 live2) ∙ e) asc.1 (member_later i j dir mem later) live
            named (λ k o' mk. others k o' (member-tail k j dir mk))
    ]
  ]

find_host :
    (key : Bytes)
    → StdMap.find key host_entry
      ≡ (if str_eq key (codes "servus_host") then some (codes "localhost") else none)
unfolding StdMap.find
find_host key = ground arith

-- The map of the instances is the one that was collected.
browse_map :
    (w : World) (s t : TestService) (events : List Event) (m : StdMap (StdMap Bytes))
    → collect w.objects w.directory [] ≡ some m
    → browse w s ≡ some (t, events)
    → t.impl.instance_map ≡ m
unfolding browse
browse_map w s t events m em e =
    elim (Option-cases (
      toggle w.objects s.impl.listeners (symmetric_difference w.directory s.instances) s.instances
        [])) [ inl fault ↦ ground arith | inr (known, et) ↦ ground arith ]

-- What a browser reads under a key of an instance: the value that the service announces, or
-- `localhost` for the host, or nothing.
abbrev pub announced_value : TestService → Bytes → Bytes
announced_value o key = elim (StdMap.find key o.impl.data_map) [
  | none ↦ if str_eq key (codes "servus_host") then codes "localhost" else []
  | some v ↦ v
]

-- If a service in an ascending directory has an instance name of its own, and its data has
-- ascending keys, then after a `browse` that returns, the browser reads under each key of the
-- instance what the service announces, with `localhost` as the host unless the data says otherwise.
pub browse_values :
    (w : World) (s t : TestService) (events : List Event) (i : ℕ) (o : TestService)
    → browse w s ≡ some (t, events)
    → IsAscending w.directory
    → member i w.directory ≡ true
    → w.objects i ≡ some o
    → IsSorted o.impl.data_map
    → ((j : ℕ) (o' : TestService)
        → member j w.directory ≡ true
        → j ≢ i
        → w.objects j ≡ some o'
        → o'.instance_name ≢ o.instance_name)
    → (key : Bytes) → get_instance_value t.impl o.instance_name key ≡ announced_value o key
unfolding browse get_instance_value
browse_values w s t events i o e asc mem live sorted others key =
    elim (Option-cases (collect w.objects w.directory [])) [
      | inl fault ↦ ground arith
      | inr (m, em) ↦
          let found =
            collect_finds w.objects o.instance_name w.directory [] m i o em asc mem live refl
              others in
          let value = find-values_of key o.impl.data_map host_entry sorted in
          let host = find_host key in
          let kept = browse_map w s t events m em e in ground (arith, found, value, host, kept)
    ]
