-- ===== src/Uri/Reference/Front.antt =====
-- The rounds of the path, the query and the fragment, as the reference reads them.
use servus.Prelude.{
  ℕ, suc, Bool, true, false, [], ◌∷◌, ◌≡◌, inl, inr, refl, sym, ◌∙◌, ap, ap₂, Bool-cases,
}
use servus.Bytes.{Bytes}
use servus.Bytes.Find.{Starts}
use servus.Uri.Data.{UriData}
use servus.Uri.Outcome.{ok}
use servus.Uri.Part.{UriPart}
use servus.Uri.Part.Cuts.{ends_path, ends_query, EmptyOr}
use servus.Uri.Query.{is_amp}
use servus.Uri.Query.Loop.{split, add_pairs}
use servus.Uri.Parse.{parse_step, parse_loop}
use servus.Uri.Parse.Total.{query_map_read, loop-nil, loop_ok}
use servus.Uri.Reference.{break, with_fragment, with_query, with_path}
use servus.Uri.Reference.Pieces.{path_broken, query_missing, query_broken, fragment_broken}

-- The parts behind the authority have not been read.
pub record HasFront (d : UriData) : Type 0 where
  pub path : d.path ≡ []
  pub query : d.query ≡ []
  pub query_map : d.query_map ≡ []
  pub fragment : d.fragment ≡ []

-- What is left behind a text that is broken off begins with a character that ends it.
pub broken_ends : (p : ℕ → Bool) (s : Bytes) → EmptyOr p (break p s).1
unfolding break
broken_ends p [] = tt
broken_ends p (c ∷ s) = elim (Bool-cases (p c)) [
  | inl hit ↦ rw (hit, break) hit
  | inr miss ↦ rw (miss, break) (broken_ends p s)
]

fragment_loop :
    (f : ℕ) (s : Bytes) (d : UriData)
    → EmptyOr ends_query s
    → d.fragment ≡ []
    → parse_loop (suc f) UriPart.fragment s d ≡ ok (with_fragment d s)
unfolding with_fragment
fragment_loop f [] d st h =
    loop-nil (suc f) UriPart.fragment d ∙ ap (λ x. ok (record d { fragment = x })) h
fragment_loop f (c ∷ s) d st h =
    loop_ok f UriPart.fragment c s d UriPart.fragment [] (record d { fragment = s })
      (unfold parse_step in rw (fragment_broken c s st))
    ∙ loop-nil f UriPart.fragment (record d { fragment = s })

query_hash :
    (f c : ℕ) (s : Bytes) (d : UriData)
    → ends_query c ≡ true
    → parse_loop (suc (suc f)) UriPart.query (c ∷ s) d
      ≡ parse_loop (suc f) UriPart.fragment (c ∷ s) (record d { query = []; query_map = [] })
unfolding split add_pairs
query_hash f c s d hash =
    loop_ok (suc f) UriPart.query c s d UriPart.fragment (c ∷ s)
      (record d { query = []; query_map = [] })
      (unfold parse_step in rw (query_missing c s hash, query_map_read d []) refl)

query_mark :
    (f c : ℕ) (s : Bytes) (d : UriData)
    → Starts ends_path (c ∷ s)
    → ends_query c ≡ false
    → parse_loop (suc (suc f)) UriPart.query (c ∷ s) d
      ≡ parse_loop (suc f) UriPart.fragment (break ends_query s).1 (record d {
        query = (break ends_query s).0;
        query_map = add_pairs (split is_amp (break ends_query s).0) [];
      })
query_mark f c s d st mark =
    loop_ok (suc f) UriPart.query c s d UriPart.fragment (break ends_query s).1
      (record d {
        query = (break ends_query s).0;
        query_map = add_pairs (split is_amp (break ends_query s).0) [];
      })
      (unfold parse_step in
        rw (query_broken c s st mark, query_map_read d (break ends_query s).0) refl)

query_loop :
    (f : ℕ) (s : Bytes) (d : UriData)
    → EmptyOr ends_path s
    → d.query ≡ []
    → d.query_map ≡ []
    → d.fragment ≡ []
    → parse_loop (suc (suc f)) UriPart.query s d ≡ ok (with_query d s)
unfolding with_query
query_loop f [] d st q m h =
    loop-nil (suc (suc f)) UriPart.query d ∙ ap (λ x. ok (record d { fragment = x })) h
query_loop f (c ∷ s) d st q m h = elim (Bool-cases (ends_query c)) [
  | inl hash ↦
      query_hash f c s d hash
      ∙ fragment_loop f (c ∷ s) (record d { query = []; query_map = [] }) hash h
      ∙ ap₂ (λ x y. ok (with_fragment (record d { query = x; query_map = y }) (c ∷ s))) (sym q)
          (sym m)
      ∙ rw hash refl
  | inr mark ↦
      query_mark f c s d st mark
      ∙ fragment_loop f (break ends_query s).1
          (record d {
            query = (break ends_query s).0;
            query_map = add_pairs (split is_amp (break ends_query s).0) [];
          })
          (broken_ends ends_query s) h
      ∙ rw mark refl
]

pub path_loop :
    (f : ℕ) (s : Bytes) (d : UriData)
    → HasFront d
    → parse_loop (suc (suc (suc f))) UriPart.path s d ≡ ok (with_path d s)
unfolding with_path
path_loop f [] d h =
    loop-nil (suc (suc (suc f))) UriPart.path d
    ∙ ap₂ (λ x y. ok (record d { path = x; fragment = y })) h.path h.fragment
    ∙ unfold break in unfold with_query in unfold with_fragment in refl
path_loop f (c ∷ s) d h =
    loop_ok (suc (suc f)) UriPart.path c s d UriPart.query (break ends_path (c ∷ s)).1
      (record d { path = (break ends_path (c ∷ s)).0 })
      (unfold parse_step in rw (path_broken (c ∷ s)) refl)
    ∙ query_loop f (break ends_path (c ∷ s)).1 (record d { path = (break ends_path (c ∷ s)).0 })
        (broken_ends ends_path (c ∷ s)) h.query h.query_map h.fragment
