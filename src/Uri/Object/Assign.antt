-- ===== src/Uri/Object/Assign.antt =====
-- The assignment of `servus::URI` objects (servus/uri.cpp), and that what is done to the one object
-- afterwards leaves the other as it is.
use servus.Prelude.{
  ℕ, true, false, Option, none, some, ◌≡◌, ◌≢◌, refl, sym, ◌∙◌, ap, arith, ◌==◌, ==_iff,
  if◌then◌else◌, Bool-cases, Option-cases, inl, inr,
}
use servus.Uri.Data.{UriData, eq}
use servus.Uri.Compare.{eq_exact}
use servus.Uri.Object.{Objects, put, get_data, write, destroy, assign, change, equal}
use servus.Uri.Object.Separate.{IsSeparate, put_here, put_there}
use servus.Uri.Object.Runs.{write-some, change-some, assign-some, destroy-some}
use servus.Uri.Object.Reach.{Reach, Reach-IsSeparate, write-IsSeparate}

eq_refl : (d : UriData) → eq d d ≡ true
eq_refl d = (eq_exact d d).0.1 (refl, refl, refl, refl, refl, refl, refl)

alive :
    (p : ℕ) (d : UriData) (s : Objects)
    → get_data p s ≡ some d
    → (a : ℕ) × (s.impls p ≡ some a) × (s.heap a ≡ some d)
unfolding get_data
alive p d s h = elim (Option-cases (s.impls p)) [
  | inl dead ↦ ground arith
  | inr (a, e) ↦ (a, e, sym (rw (e, get_data) refl) ∙ h)
]

pointed : (p a : ℕ) (s : Objects) → s.impls p ≡ some a → get_data p s ≡ s.heap a
unfolding get_data
pointed p a s e = rw (e, get_data) refl

unpointed : (p : ℕ) (s : Objects) → s.impls p ≡ none → get_data p s ≡ none
unfolding get_data
unpointed p s e = rw (e, get_data) refl

-- What is at the address of one object does not concern another.
undisturbed :
    (p r a : ℕ) (v : Option UriData) (s t : Objects)
    → IsSeparate s
    → s.impls p ≡ some a
    → (r == p) ≡ false
    → t.impls r ≡ s.impls r
    → t.heap ≡ put s.heap a v
    → get_data r t ≡ get_data r s
undisturbed p r a v s t h points other impls heap = elim (Option-cases (s.impls r)) [
  | inl dead ↦ unpointed r t (impls ∙ dead) ∙ sym (unpointed r s dead)
  | inr (b, e) ↦
      let apart : b ≢ a =
        λ same. let one : r ≡ p = h.apart r p a (e ∙ ap some same) points in ground arith in
      pointed r b t (impls ∙ e)
      ∙ ap (λ m. m b) heap
      ∙ put_there s.heap a b v apart
      ∙ sym (pointed r b s e)
]

-- Every object but the one at `p` has in `t` the data that it has in `s`.
abbrev KeepsOthers : ℕ → Objects → Objects → Type 0
KeepsOthers p s t = (r : ℕ) → (r == p) ≡ false → get_data r t ≡ get_data r s

write_lem :
    (p : ℕ) (d old : UriData) (s : Objects)
    → IsSeparate s
    → get_data p s ≡ some old
    → (t : Objects) × (write p d s ≡ some t)
      × IsSeparate t
      × (get_data p t ≡ some d)
      × KeepsOthers p s t
write_lem p d old s h live =
    let (a, points, there) = alive p old s live in
    let t : Objects = record s { heap = put s.heap a (some d) } in
    let done = write-some p a d old s points there in
    (
      t,
      done,
      write-IsSeparate p d s t h done,
      pointed p a t points ∙ put_here s.heap a (some d),
      λ r other. undisturbed p r a (some d) s t h points other refl refl,
    )

change_lem :
    (f : UriData → UriData) (p : ℕ) (d : UriData) (s : Objects)
    → IsSeparate s
    → get_data p s ≡ some d
    → (t : Objects) × (change f p s ≡ some t) × (get_data p t ≡ some (f d)) × KeepsOthers p s t
change_lem f p d s h live =
    let (t, done, sep, mine, rest) = write_lem p (f d) d s h live in
    (t, change-some f p d s live ∙ done, mine, rest)

destroy_lem :
    (p : ℕ) (d : UriData) (s : Objects)
    → IsSeparate s
    → get_data p s ≡ some d
    → (t : Objects) × (destroy p s ≡ some t) × (get_data p t ≡ none) × KeepsOthers p s t
destroy_lem p d s h live =
    let (a, points, there) = alive p d s live in
    let t : Objects = record { impls = put s.impls p none; heap = put s.heap a none } in
    (
      t,
      destroy-some p a d s points there,
      unpointed p t (put_here s.impls p none),
      λ r other.
          undisturbed p r a none s t h points other (put_there s.impls p r none (λ e. ground arith))
            refl,
    )

only_at :
    (p r : ℕ) (d : UriData) (s t : Objects)
    → get_data p t ≡ some d
    → KeepsOthers p s t
    → get_data r t ≡ (if r == p then some d else get_data r s)
only_at p r d s t now rest = elim (Bool-cases (r == p)) [
  | inl same ↦ ap (λ q. get_data q t) ((==_iff r p).0 same) ∙ now ∙ rw same refl
  | inr other ↦ rest r other ∙ rw other refl
]

equal_data :
    (p q : ℕ) (d : UriData) (s : Objects)
    → get_data p s ≡ some d
    → get_data q s ≡ some d
    → equal p q s ≡ some true
unfolding equal
equal_data p q d s e g = rw (e, equal, g, eq_refl d) (ground arith)

-- In every state that a program reaches from one without objects, an object that is alive can be
-- assigned to another that is alive. Behind that the two compare equal, every other object has the data
-- that it had, a change of either, by whatever method, leaves the data of the other, and so does the
-- destruction of the one that has been assigned.
pub assign-change :
    {s : Objects} (p q : ℕ) (d e : UriData)
    → Reach s
    → get_data p s ≡ some e
    → get_data q s ≡ some d
    → (p == q) ≡ false
    → (t : Objects) × (assign p q s ≡ some t)
      × (equal p q t ≡ some true)
      × ((r : ℕ) → get_data r t ≡ (if r == p then some d else get_data r s))
      × ((f : UriData → UriData)
          → (u : Objects) × (change f p t ≡ some u)
            × (get_data p u ≡ some (f d))
            × (get_data q u ≡ some d))
      × ((f : UriData → UriData)
          → (u : Objects) × (change f q t ≡ some u)
            × (get_data q u ≡ some (f d))
            × (get_data p u ≡ some d))
      × ((u : Objects) × (destroy q t ≡ some u) × (get_data q u ≡ none) × (get_data p u ≡ some d))
assign-change {s} p q d e r mine yours apart =
    let other : (q == p) ≡ false = ground arith in
    let (t, done, h, now, rest) = write_lem p d e s (Reach-IsSeparate r) mine in
    let still : get_data q t ≡ some d = rest q other ∙ yours in
    (
      t,
      assign-some p q d s apart yours ∙ done,
      equal_data p q d t now still,
      λ r. only_at p r d s t now rest,
      λ f.
          let (u, made, its, keeps) = change_lem f p d t h now in
          (u, made, its, keeps q other ∙ still),
      λ f.
          let (u, made, its, keeps) = change_lem f q d t h still in
          (u, made, its, keeps p apart ∙ now),
      let (u, made, its, keeps) = destroy_lem q d t h still in (u, made, its, keeps p apart ∙ now),
    )
