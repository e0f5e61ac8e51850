-- ===== src/Uri/Object/Reach.antt =====
-- The states that a program with `servus::URI` objects reaches.
use servus.Prelude.{
  ℕ, none, some, ◌≡◌, sym, ◌∙◌, subst, arith, ◌==◌, Bool-cases, Option-cases, inl, inr, none≢some,
  some_injective,
}
use servus.Bytes.{Bytes}
use servus.Uri.Data.{UriData}
use servus.Uri.Outcome.{ok}
use servus.Uri.Object.{Objects, get_data, write, construct, construct_copy, destroy, assign, change}
use servus.Uri.Object.Separate.{
  IsSeparate, allocate-IsSeparate, written-IsSeparate, freed-IsSeparate,
}
use servus.Uri.Object.Runs.{
  write-some, change-some, assign-some, assign_self, destroy-some, copy-some, construct-ok,
}

pub write-IsSeparate :
    (p : ℕ) (d : UriData) (s t : Objects) → IsSeparate s → write p d s ≡ some t → IsSeparate t
unfolding write
write-IsSeparate p d s t h e = elim (Option-cases (s.impls p)) [
  | inl dead ↦ ground arith
  | inr (a, points) ↦
      let (old, there) = h.held p a points in
      subst IsSeparate (some_injective (sym (write-some p a d old s points there) ∙ e))
        (written-IsSeparate a d old s there h)
]

change-IsSeparate :
    (f : UriData → UriData) (p : ℕ) (s t : Objects)
    → IsSeparate s
    → change f p s ≡ some t
    → IsSeparate t
unfolding change
change-IsSeparate f p s t h e = elim (Option-cases (get_data p s)) [
  | inl dead ↦ ground arith
  | inr (d, there) ↦ write-IsSeparate p (f d) s t h (sym (change-some f p d s there) ∙ e)
]

assign-IsSeparate : (p q : ℕ) (s t : Objects) → IsSeparate s → assign p q s ≡ some t → IsSeparate t
unfolding assign
assign-IsSeparate p q s t h e = elim (Bool-cases (p == q)) [
  | inl same ↦ subst IsSeparate (some_injective (sym (assign_self p q s same) ∙ e)) h
  | inr other ↦ elim (Option-cases (get_data q s)) [
    | inl dead ↦ ground arith
    | inr (d, there) ↦ write-IsSeparate p d s t h (sym (assign-some p q d s other there) ∙ e)
  ]
]

destroy-IsSeparate : (p : ℕ) (s t : Objects) → IsSeparate s → destroy p s ≡ some t → IsSeparate t
unfolding destroy
destroy-IsSeparate p s t h e = elim (Option-cases (s.impls p)) [
  | inl dead ↦ ground arith
  | inr (a, points) ↦
      let (d, there) = h.held p a points in
      subst IsSeparate (some_injective (sym (destroy-some p a d s points there) ∙ e))
        (freed-IsSeparate a p s points h)
]

copy-IsSeparate :
    (a p q : ℕ) (s t : Objects)
    → s.impls p ≡ none
    → s.heap a ≡ none
    → IsSeparate s
    → construct_copy a p q s ≡ some t
    → IsSeparate t
unfolding construct_copy
copy-IsSeparate a p q s t new free h e = elim (Option-cases (get_data q s)) [
  | inl dead ↦ ground arith
  | inr (d, there) ↦
      subst IsSeparate (some_injective (sym (copy-some a p q d s there) ∙ e))
        (allocate-IsSeparate a p d s new free h)
]

construct-IsSeparate :
    (a p : ℕ) (text : Bytes) (s t : Objects)
    → s.impls p ≡ none
    → s.heap a ≡ none
    → IsSeparate s
    → construct a p text s ≡ ok t
    → IsSeparate t
construct-IsSeparate a p text s t new free h e =
    let (d, made) = construct-ok a p text s t e in
    subst IsSeparate (sym made) (allocate-IsSeparate a p d s new free h)

-- What a program does with its objects: it constructs one at an address where none is alive, with data
-- at an address that is free, or it copies, assigns, changes or destroys one that is alive.
pub data Step (s : Objects) : Objects → Type 0 where
  constructs :
      (a p : ℕ) (text : Bytes) (t : Objects)
      → s.impls p ≡ none
      → s.heap a ≡ none
      → construct a p text s ≡ ok t
      → Step s t
  copies :
      (a p q : ℕ) (t : Objects)
      → s.impls p ≡ none
      → s.heap a ≡ none
      → construct_copy a p q s ≡ some t
      → Step s t
  assigns : (p q : ℕ) (t : Objects) → assign p q s ≡ some t → Step s t
  changes : (f : UriData → UriData) (p : ℕ) (t : Objects) → change f p s ≡ some t → Step s t
  destroys : (p : ℕ) (t : Objects) → destroy p s ≡ some t → Step s t

abbrev pub no_objects : Objects
no_objects = record { impls = λ p. none; heap = λ a. none }

pub data Reach : Objects → Type 0 where
  at_first : Reach no_objects
  then_step : {s t : Objects} → Reach s → Step s t → Reach t

Step-IsSeparate : {s t : Objects} → Step s t → IsSeparate s → IsSeparate t
Step-IsSeparate {s} (constructs a p text t new free e) h =
    construct-IsSeparate a p text s t new free h e
Step-IsSeparate {s} (copies a p q t new free e) h = copy-IsSeparate a p q s t new free h e
Step-IsSeparate {s} (assigns p q t e) h = assign-IsSeparate p q s t h e
Step-IsSeparate {s} (changes f p t e) h = change-IsSeparate f p s t h e
Step-IsSeparate {s} (destroys p t e) h = destroy-IsSeparate p s t h e

-- In every state that a program reaches from one without objects, every object that is alive points to
-- data that is allocated, no two objects point to the same data, and all the data that is allocated is
-- that of an object: copies share nothing, and what is destroyed or assigned leaves nothing behind.
pub Reach-IsSeparate : {s : Objects} → Reach s → IsSeparate s
Reach-IsSeparate at_first = record {
  held = λ p a e. absurd (none≢some e);
  apart = λ p q a e f. absurd (none≢some e);
  owned = λ a d e. absurd (none≢some e);
}
Reach-IsSeparate (then_step r st) = Step-IsSeparate st (Reach-IsSeparate r)
