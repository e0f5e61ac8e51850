-- ===== src/Uri/Part/Ends.antt =====
-- On the texts that the loop of the parser hands over, `_parseURIPart` returns: its positions are in
-- range, its assertions hold, and what is left is the text of the parts to come.
use mathlib.Core.Path.{ap₂}
use servus.Prelude.{
  ℕ, zero, suc, ◌+◌, Bool, true, false, [], ◌∷◌, ◌≡◌, inl, inr, refl, arith, take, drop, Bool-cases,
  Option-cases, ◌-◌, ◌∙◌, ==_iff,
}
use servus.Bytes.{Bytes, codes, contains, find}
use servus.Bytes.Find.{Misses, Starts, search, nowhere, at, find-le}
use servus.Uri.Outcome.{Outcome, ok}
use servus.Uri.Part.{UriPart, parse_uri_part, separator_pos, disallowed_before, required_first}
use servus.Uri.Part.Cuts.{
  ends_authority, ends_path, ends_query, part_none, part_zero, part_some, fragment_part, plus_zero,
}

-- The output misses the characters that end it, and what is left is empty or begins with one.
pub data PartEnds (p : ℕ → Bool) (o : Outcome (Bytes × Bytes)) : Type 0 where
  last : (output : Bytes) → o ≡ ok (output, []) → Misses p output → PartEnds p o
  more :
      (output rest : Bytes) → o ≡ ok (output, rest) → Misses p output → Starts p rest → PartEnds p o

pub unchecked : (s : Bytes) → required_first UriPart.path s ≡ true
unfolding required_first
unchecked [] = refl
unchecked (c ∷ s) = refl

pub unchecked_authority : (s : Bytes) → required_first UriPart.authority s ≡ true
unfolding required_first
unchecked_authority [] = refl
unchecked_authority (c ∷ s) = refl

pub unchecked_scheme : (s : Bytes) → required_first UriPart.scheme s ≡ true
unfolding required_first
unchecked_scheme [] = refl
unchecked_scheme (c ∷ s) = refl

pub cut_whole :
    (s : Bytes) (n : ℕ)
    → ◌≡◌ {A = Outcome (Bytes × Bytes)}
        (ok (take (n - 0) s, drop (n + 0) s))
        (ok (take n s, drop n s))
cut_whole s n = ap₂ (λ a b. ok (take a s, drop b s)) (omega arith) (omega arith)

pub path_ends : (s : Bytes) → PartEnds ends_path (parse_uri_part UriPart.path s)
unfolding separator_pos disallowed_before
path_ends s = elim (search ends_path s) [
  | nowhere e m ↦ last s (part_none UriPart.path s e refl (unchecked s) (omega arith)) m
  | at zero e lt m st ↦ more [] s (part_zero UriPart.path s e) tt st
  | at (suc i) e lt m st ↦
      more (take (suc i) s) (drop (suc i) s)
        (part_some UriPart.path s i e refl (unchecked s) (omega arith) (omega arith)
          ∙ cut_whole s (suc i))
        m st
]

pub authority_ends : (s : Bytes) → PartEnds ends_authority (parse_uri_part UriPart.authority s)
unfolding separator_pos disallowed_before
authority_ends s = elim (search ends_authority s) [
  | nowhere e m ↦
      last s (part_none UriPart.authority s e refl (unchecked_authority s) (omega arith)) m
  | at zero e lt m st ↦ more [] s (part_zero UriPart.authority s e) tt st
  | at (suc i) e lt m st ↦
      more (take (suc i) s) (drop (suc i) s)
        (part_some UriPart.authority s i e refl (unchecked_authority s) (omega arith) (omega arith)
          ∙ cut_whole s (suc i))
        m st
]

-- The assertion on the question mark: what ends a path and is no hash.
pub question_mark : (c : ℕ) (s : Bytes) → Starts ends_path (c ∷ s) → ends_query c ≡ false → c ≡ b'?'
unfolding contains
question_mark c s st h = ground arith

pub query_ends :
    (s : Bytes) → Starts ends_path s → PartEnds ends_query (parse_uri_part UriPart.query s)
unfolding separator_pos disallowed_before required_first
query_ends [] st = absurd st
query_ends (c ∷ s) st = elim (search ends_query (c ∷ s)) [
  | nowhere e m ↦
      last s
        (part_none UriPart.query (c ∷ s) e refl ((==_iff c b'?').1 (question_mark c s st m.0))
          (omega arith))
        m.1
  | at zero e lt m st' ↦ more [] (c ∷ s) (part_zero UriPart.query (c ∷ s) e) tt st'
  | at (suc i) e lt m st' ↦
      more (take i s) (drop i s)
        (part_some UriPart.query (c ∷ s) i e refl ((==_iff c b'?').1 (question_mark c s st m.0))
            (omega arith) (omega arith)
          ∙ rw (plus_zero i) (ap₂ (λ a b. ok (take a s, drop b s)) (omega arith) refl))
        m.1 st'
]

pub hash_mark : (c : ℕ) (s : Bytes) → Starts ends_query (c ∷ s) → c ≡ b'#'
unfolding contains
hash_mark c s st = ground arith

pub fragment_ends :
    (s : Bytes)
    → Starts ends_query s
    → (f : Bytes) × (parse_uri_part UriPart.fragment s ≡ ok (f, []))
fragment_ends [] st = absurd st
fragment_ends (c ∷ s) st = (s, rw (hash_mark c s st) (fragment_part s))

-- The scheme: whatever stands before the separator, or nothing.
pub scheme_ends :
    (s : Bytes)
    → (output : Bytes) × (rest : Bytes) × (parse_uri_part UriPart.scheme s ≡ ok (output, rest))
unfolding separator_pos
scheme_ends s = elim (Option-cases (find s (codes "://"))) [
  | inl e ↦ ([], s, (unfold parse_uri_part in rw (e, parse_uri_part)))
  | inr (zero, e) ↦ ([], s, part_zero UriPart.scheme s e)
  | inr (suc i, e) ↦ elim (Bool-cases (disallowed_before UriPart.scheme s (suc i))) [
    | inl early ↦ ([], s, (unfold parse_uri_part in rw (e, parse_uri_part, early) (ground arith)))
    | inr late ↦ (
      _,
      _,
      part_some UriPart.scheme s i e late (unchecked_scheme s) (omega arith)
          (omega (arith, find-le s (codes "://") (suc i) e)),
    )
  ]
]
