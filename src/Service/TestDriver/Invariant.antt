-- ===== src/Service/TestDriver/Invariant.antt =====
-- The directory and the objects agree in every world that the operations reach.
use servus.Prelude.{
  ℕ, Bool, true, false, List, [], Option, none, some, ◌≡◌, refl, sym, ◌∙◌, arith, ◌==◌, ap,
  Bool-cases, inl, inr, subst, if◌then◌else◌,
}
use servus.Bytes.{Bytes}
use servus.Service.{member, without, set_data, add_listener, remove_listener}
use servus.Service.TestDriver.{
  TestService, World, update, create, announce, withdraw, begin_browsing, end_browsing, destroy,
  browse, set_insert, new_service,
}
use servus.Service.TestDriver.Sets.{
  IsAscending, member-set_insert, member-without, set_insert-IsAscending, without-IsAscending,
}
use servus.Service.TestDriver.Browse.{browse_known}
use servus.Service.Listener.{Event}

-- The directory is a set, it lists exactly the live services that are announced, and what each
-- service knows is a set.
pub record IsConsistent (w : World) : Type 0 where
  pub ascending : IsAscending w.directory
  pub listed :
      (q : ℕ)
      → member q w.directory ≡ true
      → (o : TestService) × (w.objects q ≡ some o) × (o.announced ≡ true)
  pub announced :
      (q : ℕ) (o : TestService)
      → w.objects q ≡ some o
      → o.announced ≡ true
      → member q w.directory ≡ true
  pub known : (q : ℕ) (o : TestService) → w.objects q ≡ some o → IsAscending o.instances

-- An operation of a live service that leaves its announcement as it is.
unfoldable pub put : World → ℕ → TestService → World
put w p s = record w { objects = update w.objects p (some s) }

-- The steps of the process: a service is created at a free address, or one operation of a live
-- service runs. `set`, `addListener` and `removeListener` are those of the base class.
pub data Step (w : World) : World → Type 0 where
  created : (p : ℕ) → w.objects p ≡ none → Step w (create w p)
  announces :
      (p : ℕ) (s : TestService) (port : ℕ) (hostname name : Bytes)
      → w.objects p ≡ some s
      → Step w (announce w p s port hostname name).0
  withdraws : (p : ℕ) (s : TestService) → w.objects p ≡ some s → Step w (withdraw w p s)
  destroys : (p : ℕ) (s : TestService) → w.objects p ≡ some s → Step w (destroy w p s)
  begins : (p : ℕ) (s : TestService) → w.objects p ≡ some s → Step w (put w p (begin_browsing s).0)
  ends : (p : ℕ) (s : TestService) → w.objects p ≡ some s → Step w (put w p (end_browsing s))
  browses :
      (p : ℕ) (s t : TestService) (events : List Event)
      → w.objects p ≡ some s
      → browse w s ≡ some (t, events)
      → Step w (put w p t)
  sets :
      (p : ℕ) (s : TestService) (key value : Bytes)
      → w.objects p ≡ some s
      → Step w (put w p (record s { impl = set_data s.impl key value }))
  listens :
      (p : ℕ) (s : TestService) (l : ℕ)
      → w.objects p ≡ some s
      → Step w (put w p (record s { impl = add_listener s.impl l }))
  unlistens :
      (p : ℕ) (s : TestService) (l : ℕ)
      → w.objects p ≡ some s
      → Step w (put w p (record s { impl = remove_listener s.impl l }))

pub data Reach (w : World) : World → Type 0 where
  start : Reach w w
  then_step : {u v : World} → Reach w u → Step u v → Reach w v

-- Whether an object is announced; what is gone is not.
abbrev is_announced : Option TestService → Bool
is_announced none = false
is_announced (some o) = o.announced

abbrev KnownAscends : Option TestService → Type 0
KnownAscends none = Unit
KnownAscends (some o) = IsAscending o.instances

announced_member :
    (w : World) (p : ℕ) (s : TestService)
    → IsConsistent w
    → w.objects p ≡ some s
    → member p w.directory ≡ s.announced
announced_member w p s c live = elim (Bool-cases (member p w.directory)) [
  | inl in_directory ↦ let (o, e, a) = c.listed p in_directory in cc
  | inr outside ↦ elim (Bool-cases s.announced) [ inl a ↦ cc (c.announced p s live a) | inr a ↦ cc ]
]

free_outside :
    (w : World) (p : ℕ) → IsConsistent w → w.objects p ≡ none → member p w.directory ≡ false
free_outside w p c free = elim (Bool-cases (member p w.directory)) [
  | inl in_directory ↦ let (o, e, a) = c.listed p in_directory in cc
  | inr outside ↦ outside
]

-- One object changes, and the directory follows its announcement.
module _ (w : World) (p : ℕ) (x : Option TestService) (directory : List ℕ) (c : IsConsistent w)
    (follows : (q : ℕ)
      → member q directory ≡ (if q == p then is_announced x else member q w.directory)) where
  place_listed :
      (q : ℕ)
      → member q directory ≡ true
      → (o : TestService) × (update w.objects p x q ≡ some o) × (o.announced ≡ true)
  place_listed q m = elim (Bool-cases (q == p)) [
    | inl at_p ↦ rw at_p (of_announced x (ground (arith, follows q)))
    | inr other ↦ rw other (c.listed q (ground (arith, follows q)))
  ]
    where
      of_announced :
          (y : Option TestService)
          → is_announced y ≡ true
          → (o : TestService) × (y ≡ some o) × (o.announced ≡ true)
      of_announced none h = cc
      of_announced (some o) h = (o, refl, h)

  place_announced :
      (q : ℕ) (o : TestService)
      → update w.objects p x q ≡ some o
      → o.announced ≡ true
      → member q directory ≡ true
  place_announced q o e a = elim (Bool-cases (q == p)) [
    | inl at_p ↦ let e' : x ≡ some o = ground arith in follows q ∙ rw (at_p, e') a
    | inr other ↦ follows q ∙ rw other (c.announced q o (ground arith) a)
  ]

  place_known :
      KnownAscends x
      → (q : ℕ) (o : TestService) → update w.objects p x q ≡ some o
      → IsAscending o.instances
  place_known asc q o e = elim (Bool-cases (q == p)) [
    | inl at_p ↦ let e' : x ≡ some o = ground arith in subst KnownAscends e' asc
    | inr other ↦ c.known q o (ground arith)
  ]

  place-IsConsistent :
      IsAscending directory
      → KnownAscends x
      → IsConsistent (record { objects = update w.objects p x; directory = directory })
  place-IsConsistent ad asc = record {
    ascending = ad;
    listed = place_listed;
    announced = place_announced;
    known = place_known asc;
  }

put-IsConsistent :
    (w : World) (p : ℕ) (s t : TestService)
    → IsConsistent w
    → w.objects p ≡ some s
    → t.announced ≡ s.announced
    → IsAscending t.instances
    → IsConsistent (put w p t)
unfolding put
put-IsConsistent w p s t c live same asc =
    place-IsConsistent w p (some t) w.directory c
      (λ q. elim (Bool-cases (q == p)) [
        | inl at_p ↦
            let path : q ≡ p = ground arith in
            rw at_p (ap (λ a. member a w.directory) path ∙ announced_member w p s c live ∙ sym same)
        | inr other ↦ rw other
      ])
      c.ascending asc

announce-IsConsistent :
    (w : World) (p : ℕ) (s : TestService) (port : ℕ) (hostname name : Bytes)
    → IsConsistent w
    → w.objects p ≡ some s
    → IsConsistent (announce w p s port hostname name).0
unfolding announce
announce-IsConsistent w p s port hostname name c live =
    place-IsConsistent w p _ (set_insert p w.directory) c
      (λ q. member-set_insert q p w.directory ∙ ground arith)
      (set_insert-IsAscending p w.directory c.ascending) (c.known p s live)

-- What is left when a service leaves the directory, whether it lives on or not.
leave-IsConsistent :
    (w : World) (p : ℕ) (x : Option TestService)
    → IsConsistent w
    → is_announced x ≡ false
    → KnownAscends x
    → IsConsistent (record { objects = update w.objects p x; directory = without p w.directory })
leave-IsConsistent w p x c gone asc =
    place-IsConsistent w p x (without p w.directory) c
      (λ q. member-without q p w.directory ∙ ground arith)
      (without-IsAscending p w.directory c.ascending) asc

withdraw-IsConsistent :
    (w : World) (p : ℕ) (s : TestService)
    → IsConsistent w
    → w.objects p ≡ some s
    → IsConsistent (withdraw w p s)
unfolding withdraw
withdraw-IsConsistent w p s c live = leave-IsConsistent w p _ c refl (c.known p s live)

destroy-IsConsistent :
    (w : World) (p : ℕ) (s : TestService) → IsConsistent w → IsConsistent (destroy w p s)
unfolding destroy
destroy-IsConsistent w p s c = leave-IsConsistent w p none c refl tt

create-IsConsistent :
    (w : World) (p : ℕ) → IsConsistent w → w.objects p ≡ none → IsConsistent (create w p)
unfolding create
create-IsConsistent w p c free =
    place-IsConsistent w p (some new_service) w.directory c
      (λ q. elim (Bool-cases (q == p)) [
        | inl at_p ↦
            let path : q ≡ p = ground arith in
            rw at_p (ap (λ a. member a w.directory) path ∙ free_outside w p c free)
        | inr other ↦ rw other
      ])
      c.ascending tt

begin_browsing-known :
    (s : TestService) → IsAscending s.instances → IsAscending (begin_browsing s).0.instances
unfolding begin_browsing
begin_browsing-known s h = elim (Bool-cases s.browsing) [
  | inl already ↦ rw already h
  | inr first ↦ rw first tt
]

nobody : (q : ℕ) → member q [] ≡ true → ⊥
unfolding member
nobody q m = cc

-- Every operation of the process keeps the directory and the objects in agreement.
pub step-IsConsistent : {w v : World} → Step w v → IsConsistent w → IsConsistent v
step-IsConsistent {w} (created p free) c = create-IsConsistent w p c free
step-IsConsistent {w} (announces p s port hostname name live) c =
    announce-IsConsistent w p s port hostname name c live
step-IsConsistent {w} (withdraws p s live) c = withdraw-IsConsistent w p s c live
step-IsConsistent {w} (destroys p s live) c = destroy-IsConsistent w p s c
step-IsConsistent {w} (begins p s live) c =
    put-IsConsistent w p s (begin_browsing s).0 c live (unfold begin_browsing in ground arith)
      (begin_browsing-known s (c.known p s live))
step-IsConsistent {w} (ends p s live) c =
    put-IsConsistent w p s (end_browsing s) c live (unfold end_browsing in refl)
      (unfold end_browsing in tt)
step-IsConsistent {w} (browses p s t events live e) c =
    let (known, rest, impl) = browse_known w s t events c.ascending (c.known p s live) e in
    put-IsConsistent w p s t c live (ap (λ o. o.announced) rest) (rw known c.ascending)
step-IsConsistent {w} (sets p s key value live) c =
    put-IsConsistent w p s _ c live refl (c.known p s live)
step-IsConsistent {w} (listens p s l live) c =
    put-IsConsistent w p s _ c live refl (c.known p s live)
step-IsConsistent {w} (unlistens p s l live) c =
    put-IsConsistent w p s _ c live refl (c.known p s live)

abbrev pub no_services : World
no_services = record { objects = λ _. none; directory = [] }

-- In every world that a process reaches from one without services, the directory lists exactly the
-- live services that are announced, without repetition.
pub Reach-IsConsistent : {w : World} → Reach no_services w → IsConsistent w
Reach-IsConsistent start = record {
  ascending = tt;
  listed = λ q m. absurd (nobody q m);
  announced = λ q o e a. cc;
  known = λ q o e. cc;
}
Reach-IsConsistent (then_step r s) = step-IsConsistent s (Reach-IsConsistent r)
