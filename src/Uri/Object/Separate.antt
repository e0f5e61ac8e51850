-- ===== src/Uri/Object/Separate.antt =====
-- No two `servus::URI` objects share their data, and none leaves data behind: what an allocation, a
-- write and the freeing of data make of that.
use servus.Prelude.{
  ℕ, Option, none, some, ◌≡◌, ◌≢◌, refl, sym, ◌∙◌, ap, arith, ◌==◌, ==_iff, ◌⊎◌, Bool-cases, inl,
  inr, none≢some, some_injective,
}
use servus.Uri.Data.{UriData}
use servus.Uri.Object.{Objects, put, allocate}

-- Every object points to data, no two to the same, and all the data is that of an object.
pub record IsSeparate (s : Objects) : Type 0 where
  pub held : (p a : ℕ) → s.impls p ≡ some a → (d : UriData) × (s.heap a ≡ some d)
  pub apart : (p q a : ℕ) → s.impls p ≡ some a → s.impls q ≡ some a → p ≡ q
  pub owned : (a : ℕ) (d : UriData) → s.heap a ≡ some d → (p : ℕ) × (s.impls p ≡ some a)

-- What is stored at a place, and what is stored elsewhere.
pub put_here : {A : Type 0} (f : ℕ → Option A) (p : ℕ) (v : Option A) → put f p v p ≡ v
put_here f p v = ground arith

pub put_there : {A : Type 0} (f : ℕ → Option A) (p q : ℕ) (v : Option A) → q ≢ p → put f p v q ≡ f q
put_there f p q v h = ground arith

Stored : {A : Type 0} → (ℕ → Option A) → ℕ → Option A → ℕ → Option A → Type 0
Stored f p v q w = ((q ≡ p) × (v ≡ w)) ⊎ ((q ≢ p) × (f q ≡ w))

stored :
    {A : Type 0} (f : ℕ → Option A) (p : ℕ) (v : Option A) (q : ℕ) (w : Option A)
    → put f p v q ≡ w
    → Stored f p v q w
unfolding Stored
stored f p v q w h = elim (Bool-cases (q == p)) [
  | inl same ↦
      inl
        ((==_iff q p).0 same, sym (put_here f p v) ∙ ap (put f p v) (sym ((==_iff q p).0 same)) ∙ h)
  | inr other ↦ inr ((λ e. ground arith), ground arith)
]

not_free : {A : Type 0} (f : ℕ → Option A) (p q : ℕ) (a : A) → f q ≡ some a → f p ≡ none → q ≢ p
not_free f p q a h g e = cc

pub allocate-IsSeparate :
    (a p : ℕ) (d : UriData) (s : Objects)
    → s.impls p ≡ none
    → s.heap a ≡ none
    → IsSeparate s
    → IsSeparate (allocate a p d s)
unfolding allocate Stored
allocate-IsSeparate a p d s new free h =
    let mine : (b : ℕ) → some a ≡ some b → put s.heap a (some d) b ≡ some d =
      λ b e. ap (put s.heap a (some d)) (sym (some_injective e)) ∙ put_here s.heap a (some d) in
    let taken : (q : ℕ) → s.impls q ≢ some a =
      λ q e. let (x, g) = h.held q a e in not_free s.heap a a x g free refl in
    record {
      held = λ q b e. elim (stored s.impls p (some a) q (some b) e) [
        | inl (here, same) ↦ (d, mine b same)
        | inr (there, old) ↦
            let (x, g) = h.held q b old in
            (x, put_there s.heap a b (some d) (not_free s.heap a b x g free) ∙ g)
      ];
      apart = λ q r b e f. elim (stored s.impls p (some a) q (some b) e) [
        | inl (here, same) ↦ elim (stored s.impls p (some a) r (some b) f) [
          | inl (here', same') ↦ here ∙ sym here'
          | inr (there', old') ↦ absurd (taken r (old' ∙ sym same))
        ]
        | inr (there, old) ↦ elim (stored s.impls p (some a) r (some b) f) [
          | inl (here', same') ↦ absurd (taken q (old ∙ sym same'))
          | inr (there', old') ↦ h.apart q r b old old'
        ]
      ];
      owned = λ b x e. elim (stored s.heap a (some d) b (some x) e) [
        | inl (here, same) ↦ (p, put_here s.impls p (some a) ∙ ap some (sym here))
        | inr (there, old) ↦
            let (q, g) = h.owned b x old in
            (q, put_there s.impls p q (some a) (not_free s.impls p q b g new) ∙ g)
      ];
    }

-- Writing through a pointer keeps every pointer, and that to data keeps pointing to data.
pub written-IsSeparate :
    (a : ℕ) (d old : UriData) (s : Objects)
    → s.heap a ≡ some old
    → IsSeparate s
    → IsSeparate (record s { heap = put s.heap a (some d) })
unfolding Stored
written-IsSeparate a d old s there h = record {
  held = λ q b e. elim (Bool-cases (b == a)) [
    | inl same ↦ (d, ap (put s.heap a (some d)) ((==_iff b a).0 same) ∙ put_here s.heap a (some d))
    | inr other ↦
        let (x, g) = h.held q b e in (x, put_there s.heap a b (some d) (λ e. ground arith) ∙ g)
  ];
  apart = h.apart;
  owned = λ b x e. elim (stored s.heap a (some d) b (some x) e) [
    | inl (here, same) ↦ let (q, g) = h.owned a old there in (q, g ∙ ap some (sym here))
    | inr (apart, same) ↦ h.owned b x same
  ];
}

pub freed-IsSeparate :
    (a p : ℕ) (s : Objects)
    → s.impls p ≡ some a
    → IsSeparate s
    → IsSeparate (record { impls = put s.impls p none; heap = put s.heap a none })
unfolding Stored
freed-IsSeparate a p s there h =
    let other : (q b : ℕ) → q ≢ p → s.impls q ≡ some b → b ≢ a =
      λ q b ne e same. ne (h.apart q p a (e ∙ ap some same) there) in
    record {
      held = λ q b e. elim (stored s.impls p none q (some b) e) [
        | inl (here, same) ↦ absurd (none≢some same)
        | inr (ne, old) ↦
            let (x, g) = h.held q b old in (x, put_there s.heap a b none (other q b ne old) ∙ g)
      ];
      apart = λ q r b e f. elim (stored s.impls p none q (some b) e) [
        | inl (here, same) ↦ absurd (none≢some same)
        | inr (ne, old) ↦ elim (stored s.impls p none r (some b) f) [
          | inl (here, same) ↦ absurd (none≢some same)
          | inr (ne', old') ↦ h.apart q r b old old'
        ]
      ];
      owned = λ b x e. elim (stored s.heap a none b (some x) e) [
        | inl (here, same) ↦ absurd (none≢some same)
        | inr (ne, old) ↦
            let (q, g) = h.owned b x old in
            (
              q,
              put_there s.impls p q none (λ e. ne (some_injective (sym g ∙ ap s.impls e ∙ there)))
                  ∙ g,
            )
      ];
    }
