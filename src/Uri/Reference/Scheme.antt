-- ===== src/Uri/Reference/Scheme.antt =====
-- The scheme that `_parseURIPart` cuts off at `://` is the one that the reference splits off.
use mathlib.Core.Path.{ap₂}
use servus.Prelude.{
  ℕ, zero, suc, ◌+◌, ◌-◌, true, false, [], ◌∷◌, Option, none, some, ◌≡◌, inl, inr, refl, sym, ◌∙◌,
  ap, arith, take, drop, Bool-cases, Option-cases, if◌then◌else◌,
}
use servus.Bytes.{Bytes, codes, find, find_first_of, starts_with}
use servus.Bytes.Find.{find-le}
use servus.Uri.Outcome.{Outcome, ok}
use servus.Uri.Part.{UriPart, parse_uri_part, separator_pos, disallowed_before}
use servus.Uri.Part.Cuts.{ends_authority, part_zero, part_some}
use servus.Uri.Part.Ends.{unchecked_scheme}
use servus.Uri.Reference.{scheme_of, named, split_scheme}

-- The search for `://`, and the test of what stands before it.
abbrev found_scheme : Bytes → Option ℕ → Option (Bytes × Bytes)
found_scheme s none = none
found_scheme s (some i) =
    if disallowed_before UriPart.scheme s i then none else some (take i s, drop (3 + i) s)

disallowed_later :
    (c : ℕ) (s : Bytes) (i : ℕ)
    → ends_authority c ≡ false
    → disallowed_before UriPart.scheme (c ∷ s) (suc i) ≡ disallowed_before UriPart.scheme s i
unfolding disallowed_before find_first_of
disallowed_later c s i h = elim (Option-cases (find_first_of ends_authority s)) [
  | inl e ↦ rw (h, e, disallowed_before) refl
  | inr (j, e) ↦ rw (h, e, disallowed_before) (ground arith)
]

disallowed_here :
    (c : ℕ) (s : Bytes) (i : ℕ)
    → ends_authority c ≡ true
    → disallowed_before UriPart.scheme (c ∷ s) (suc i) ≡ true
unfolding disallowed_before find_first_of
disallowed_here c s i h = rw (h, disallowed_before) (ground arith)

-- A result for the text behind a character.
abbrev behind : ℕ → Option (Bytes × Bytes) → Option (Bytes × Bytes)
behind c none = none
behind c (some (name, rest)) = some (c ∷ name, rest)

abbrev one_more : Option ℕ → Option ℕ
one_more none = none
one_more (some i) = some (suc i)

found_behind :
    (c : ℕ) (s : Bytes) (o : Option ℕ)
    → ends_authority c ≡ false
    → found_scheme (c ∷ s) (one_more o) ≡ behind c (found_scheme s o)
found_behind c s none h = refl
found_behind c s (some i) h = elim (Bool-cases (disallowed_before UriPart.scheme s i)) [
  | inl early ↦ rw (disallowed_later c s i h, early) refl
  | inr late ↦
      rw (disallowed_later c s i h, late)
        (ap (λ n. some (c ∷ take i s, drop n (c ∷ s))) {x = 3 + suc i} {y = suc (3 + i)}
          (omega arith))
]

found_ended :
    (c : ℕ) (s : Bytes) (o : Option ℕ)
    → ends_authority c ≡ true
    → found_scheme (c ∷ s) (one_more o) ≡ none
found_ended c s none h = refl
found_ended c s (some i) h = rw (disallowed_here c s i h) refl

scheme_of-cons :
    (c : ℕ) (s : Bytes)
    → starts_with (codes "://") (c ∷ s) ≡ false
    → scheme_of (c ∷ s) ≡ (if ends_authority c then none else behind c (scheme_of s))
unfolding scheme_of
scheme_of-cons c s h = rw h refl

find-cons :
    (c : ℕ) (s : Bytes)
    → starts_with (codes "://") (c ∷ s) ≡ false
    → find (c ∷ s) (codes "://") ≡ one_more (find s (codes "://"))
unfolding find
find-cons c s h = rw h refl

not_before_front : (s : Bytes) → disallowed_before UriPart.scheme s 0 ≡ false
unfolding disallowed_before
not_before_front s = elim (Option-cases (find_first_of ends_authority s)) [
  | inl e ↦ rw (e, disallowed_before) refl
  | inr (j, e) ↦ rw (e, disallowed_before) (ground arith)
]

at_front :
    (c : ℕ) (s : Bytes)
    → starts_with (codes "://") (c ∷ s) ≡ true
    → scheme_of (c ∷ s) ≡ found_scheme (c ∷ s) (find (c ∷ s) (codes "://"))
unfolding scheme_of find
at_front c s here = rw (here, not_before_front (c ∷ s)) refl

scheme_of-find : (s : Bytes) → scheme_of s ≡ found_scheme s (find s (codes "://"))
scheme_of-find [] = unfold scheme_of in unfold find in unfold starts_with in refl
scheme_of-find (c ∷ s) = elim (Bool-cases (starts_with (codes "://") (c ∷ s))) [
  | inl here ↦ at_front c s here
  | inr later ↦ elim (Bool-cases (ends_authority c)) [
    | inl ended ↦
        scheme_of-cons c s later
        ∙ rw ended (sym (found_ended c s (find s (codes "://")) ended))
        ∙ ap (found_scheme (c ∷ s)) (sym (find-cons c s later))
    | inr other ↦
        scheme_of-cons c s later
        ∙ rw other (ap (behind c) (scheme_of-find s))
        ∙ sym (found_behind c s (find s (codes "://")) other)
        ∙ ap (found_scheme (c ∷ s)) (sym (find-cons c s later))
  ]
]

split_scheme_at :
    (s : Bytes) (o : Option ℕ)
    → find s (codes "://") ≡ o
    → split_scheme s ≡ named s (found_scheme s o)
unfolding split_scheme
split_scheme_at s o e = ap (named s) (scheme_of-find s ∙ ap (found_scheme s) e)

find-nil : find [] (codes "://") ≡ none
unfolding find starts_with
find-nil = refl

no_separator :
    (s : Bytes) → find s (codes "://") ≡ none → parse_uri_part UriPart.scheme s ≡ ok ([], s)
unfolding separator_pos parse_uri_part
no_separator s e = rw (e, parse_uri_part) refl

cut_behind :
    (s : Bytes) (i : ℕ)
    → ◌≡◌ {A = Outcome (Bytes × Bytes)}
        (ok (take (suc i - 0) s, drop (suc i + 3) s))
        (ok (take (suc i) s, drop (3 + suc i) s))
cut_behind s i =
    ap₂ (λ a b. ok (take a s, drop b s)) {y = suc i} {v = 3 + suc i} (omega arith) (omega arith)

scheme_behind :
    (s : Bytes) (i : ℕ)
    → find s (codes "://") ≡ some (suc i)
    → parse_uri_part UriPart.scheme s ≡ ok (named s (found_scheme s (some (suc i))))
unfolding separator_pos
scheme_behind [] i e = cc (sym find-nil ∙ e)
scheme_behind (c ∷ s) i e = elim (Bool-cases (disallowed_before UriPart.scheme (c ∷ s) (suc i))) [
  | inl early ↦ rw early (unfold parse_uri_part in rw (e, parse_uri_part, early) (ground arith))
  | inr late ↦ rw late (
      part_some UriPart.scheme (c ∷ s) i e late (unchecked_scheme (c ∷ s)) (omega arith)
        (omega (arith, find-le (c ∷ s) (codes "://") (suc i) e))
      ∙ cut_behind (c ∷ s) i)
]

-- The scheme that `_parseURIPart` cuts off.
pub scheme_broken : (s : Bytes) → parse_uri_part UriPart.scheme s ≡ ok (split_scheme s)
unfolding separator_pos
scheme_broken s = elim (Option-cases (find s (codes "://"))) [
  | inl e ↦ no_separator s e ∙ ap ok (sym (split_scheme_at s none e))
  | inr (zero, e) ↦
      part_zero UriPart.scheme s e
      ∙ ap ok (sym (split_scheme_at s (some 0) e ∙ rw (not_before_front s) refl))
  | inr (suc i, e) ↦ scheme_behind s i e ∙ ap ok (sym (split_scheme_at s (some (suc i)) e))
]
