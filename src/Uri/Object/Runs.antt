-- ===== src/Uri/Object/Runs.antt =====
-- What the operations on `servus::URI` objects do where they do not fail.
use servus.Prelude.{ℕ, true, none, some, ◌≡◌, refl, ◌==◌, false}
use servus.Bytes.{Bytes}
use servus.Uri.Data.{UriData}
use servus.Uri.Outcome.{Outcome, ok, throw, abort, no_fuel}
use servus.Uri.Parse.{make_uri}
use servus.Uri.Object.{
  Objects, put, allocate, get_data, write, construct, construct_copy, destroy, assign, change,
}

-- A write through the pointer of an object that is alive.
pub write-some :
    (p a : ℕ) (d old : UriData) (s : Objects)
    → s.impls p ≡ some a
    → s.heap a ≡ some old
    → write p d s ≡ some (record s { heap = put s.heap a (some d) })
unfolding write
write-some p a d old s e g = rw (e, write, g) refl

pub change-some :
    (f : UriData → UriData) (p : ℕ) (d : UriData) (s : Objects)
    → get_data p s ≡ some d
    → change f p s ≡ write p (f d) s
unfolding change
change-some f p d s e = rw (e, change) refl

pub assign-some :
    (p q : ℕ) (d : UriData) (s : Objects)
    → (p == q) ≡ false
    → get_data q s ≡ some d
    → assign p q s ≡ write p d s
unfolding assign
assign-some p q d s other e = rw (other, e, assign) refl

pub assign_self : (p q : ℕ) (s : Objects) → (p == q) ≡ true → assign p q s ≡ some s
unfolding assign
assign_self p q s same = rw (same, assign) refl

pub destroy-some :
    (p a : ℕ) (d : UriData) (s : Objects)
    → s.impls p ≡ some a
    → s.heap a ≡ some d
    → destroy p s ≡ some (record { impls = put s.impls p none; heap = put s.heap a none })
unfolding destroy
destroy-some p a d s e g = rw (e, destroy, g) refl

pub copy-some :
    (a p q : ℕ) (d : UriData) (s : Objects)
    → get_data q s ≡ some d
    → construct_copy a p q s ≡ some (allocate a p d s)
unfolding construct_copy
copy-some a p q d s e = rw (e, construct_copy) refl

made_of :
    (a p : ℕ) (s t : Objects) (o : Outcome UriData)
    → (elim o [
      | ok d ↦ ok (allocate a p d s)
      | throw x ↦ throw x
      | abort ↦ abort
      | no_fuel ↦ no_fuel
    ])
      ≡ ok t
    → (d : UriData) × (t ≡ allocate a p d s)
made_of a p s t (ok d) h = (d, cc)
made_of a p s t (throw x) h = absurd cc
made_of a p s t abort h = absurd cc
made_of a p s t no_fuel h = absurd cc

pub construct-ok :
    (a p : ℕ) (text : Bytes) (s t : Objects)
    → construct a p text s ≡ ok t
    → (d : UriData) × (t ≡ allocate a p d s)
unfolding construct
construct-ok a p text s t e = made_of a p s t (make_uri text) e
