-- ===== src/Uri/Reference/Pieces.antt =====
-- What `_parseURIPart` cuts off is what the reference breaks off.
use mathlib.Core.Path.{ap₂}
use servus.Prelude.{
  ℕ, zero, suc, Bool, true, false, [], ◌∷◌, none, some, ◌≡◌, refl, sym, ◌∙◌, ap, arith, take, drop,
  ==_iff,
}
use servus.Bytes.{Bytes, find_first_of}
use servus.Bytes.Find.{Starts, search, nowhere, at}
use servus.Uri.Outcome.{ok}
use servus.Uri.Part.{UriPart, parse_uri_part, separator_pos, disallowed_before, required_first}
use servus.Uri.Part.Cuts.{
  ends_authority, ends_path, ends_query, part_none, part_zero, part_some, fragment_part, plus_zero,
}
use servus.Uri.Part.Ends.{unchecked, unchecked_authority, cut_whole, question_mark, hash_mark}
use servus.Uri.Reference.{break}

pub break-none : (p : ℕ → Bool) (s : Bytes) → find_first_of p s ≡ none → break p s ≡ (s, [])
unfolding break find_first_of
break-none p [] h = refl
break-none p (c ∷ s) h = ground (arith, break-none p s)

pub break-some :
    (p : ℕ → Bool) (s : Bytes) (i : ℕ)
    → find_first_of p s ≡ some i
    → break p s ≡ (take i s, drop i s)
unfolding break find_first_of
break-some p [] i h = cc
break-some p (c ∷ s) zero h = ground arith
break-some p (c ∷ s) (suc i) h = ground (arith, break-some p s i)

pub path_broken : (s : Bytes) → parse_uri_part UriPart.path s ≡ ok (break ends_path s)
unfolding separator_pos disallowed_before
path_broken s = elim (search ends_path s) [
  | nowhere e m ↦
      part_none UriPart.path s e refl (unchecked s) (omega arith)
      ∙ ap ok (sym (break-none ends_path s e))
  | at zero e lt m st ↦ part_zero UriPart.path s e ∙ ap ok (sym (break-some ends_path s zero e))
  | at (suc i) e lt m st ↦
      part_some UriPart.path s i e refl (unchecked s) (omega arith) (omega arith)
      ∙ cut_whole s (suc i)
      ∙ ap ok (sym (break-some ends_path s (suc i) e))
]

pub authority_broken :
    (s : Bytes) → parse_uri_part UriPart.authority s ≡ ok (break ends_authority s)
unfolding separator_pos disallowed_before
authority_broken s = elim (search ends_authority s) [
  | nowhere e m ↦
      part_none UriPart.authority s e refl (unchecked_authority s) (omega arith)
      ∙ ap ok (sym (break-none ends_authority s e))
  | at zero e lt m st ↦
      part_zero UriPart.authority s e ∙ ap ok (sym (break-some ends_authority s zero e))
  | at (suc i) e lt m st ↦
      part_some UriPart.authority s i e refl (unchecked_authority s) (omega arith) (omega arith)
      ∙ cut_whole s (suc i)
      ∙ ap ok (sym (break-some ends_authority s (suc i) e))
]

-- A query that is not there, and one behind its question mark.
pub query_missing :
    (c : ℕ) (s : Bytes)
    → ends_query c ≡ true
    → parse_uri_part UriPart.query (c ∷ s) ≡ ok ([], c ∷ s)
unfolding separator_pos
query_missing c s h = part_zero UriPart.query (c ∷ s) (unfold find_first_of in rw h)

pub query_broken :
    (c : ℕ) (s : Bytes)
    → Starts ends_path (c ∷ s)
    → ends_query c ≡ false
    → parse_uri_part UriPart.query (c ∷ s) ≡ ok (break ends_query s)
unfolding separator_pos disallowed_before required_first
query_broken c s st other = elim (search ends_query s) [
  | nowhere e m ↦
      part_none UriPart.query (c ∷ s) (unfold find_first_of in rw (other, e)) refl
        ((==_iff c b'?').1 (question_mark c s st other)) (omega arith)
      ∙ ap ok (sym (break-none ends_query s e))
  | at i e lt m st' ↦
      part_some UriPart.query (c ∷ s) i (unfold find_first_of in rw (other, e)) refl
        ((==_iff c b'?').1 (question_mark c s st other)) (omega arith) (omega arith)
      ∙ rw (plus_zero i) (ap₂ (λ a b. ok (take a s, drop b s)) (omega arith) refl)
      ∙ ap ok (sym (break-some ends_query s i e))
]

pub fragment_broken :
    (c : ℕ) (s : Bytes) → ends_query c ≡ true → parse_uri_part UriPart.fragment (c ∷ s) ≡ ok (s, [])
fragment_broken c s st = rw (hash_mark c s st) (fragment_part s)
