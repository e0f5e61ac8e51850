-- ===== src/Uri/RoundTrip/Stages.antt =====
-- The rounds of the parser on the printed parts, from the last to the first.
use servus.Prelude.{
  ℕ, suc, Bool, false, [], ◌∷◌, ◌++◌, ◌≡◌, ◌∙◌, refl, sym, arith, ap, is_empty, if◌then◌else◌, ◌==◌,
}
use servus.Bytes.{Bytes, contains}
use servus.Bytes.Find.{Misses}
use servus.Uri.Data.{UriData}
use servus.Uri.Outcome.{ok}
use servus.Uri.Part.{UriPart, parse_uri_part, separator_pos}
use servus.Uri.Part.Cuts.{
  ends_path, ends_query, EmptyOr, path_part, query_part, fragment_part, empty_part,
}
use servus.Uri.Query.{is_amp}
use servus.Uri.Query.Loop.{split, add_pairs}
use servus.Uri.Parse.{parse_step, parse_loop}
use servus.Uri.Parse.Total.{loop-nil, loop_ok, query_map_read}

abbrev pub frag_text : Bytes → Bytes
frag_text f = if is_empty f then [] else b'#' ∷ f

abbrev pub query_text : Bytes → Bytes
query_text q = if is_empty q then [] else b'?' ∷ q

abbrev pub back_text : Bytes → Bytes → Bytes
back_text q f = query_text q ++ frag_text f

pub loop_next :
    (fuel : ℕ) (part part' : UriPart) (s rest : Bytes) (d d' : UriData)
    → is_empty s ≡ false
    → parse_step part s d ≡ ok (part', rest, d')
    → parse_loop (suc fuel) part s d ≡ parse_loop fuel part' rest d'
loop_next fuel part part' [] rest d d' some e = cc
loop_next fuel part part' (c ∷ s) rest d d' some e = loop_ok fuel part c s d part' rest d' e

frag_text-EmptyOr : (f : Bytes) → EmptyOr ends_query (frag_text f)
unfolding contains
frag_text-EmptyOr [] = tt
frag_text-EmptyOr (c ∷ f) = refl

back_text-EmptyOr : (q f : Bytes) → EmptyOr ends_path (back_text q f)
unfolding contains
back_text-EmptyOr [] [] = tt
back_text-EmptyOr [] (c ∷ f) = refl
back_text-EmptyOr (c ∷ q) f = refl

-- The fragment.
fragment_stage :
    (fuel : ℕ) (d : UriData) (f : Bytes)
    → parse_loop (suc fuel) UriPart.fragment (frag_text f) (record d { fragment = [] })
      ≡ ok (record d { fragment = f })
fragment_stage fuel d [] = loop-nil (suc fuel) UriPart.fragment (record d { fragment = [] })
fragment_stage fuel d (c ∷ f) =
    loop_next fuel UriPart.fragment UriPart.fragment (b'#' ∷ c ∷ f) [] (record d { fragment = [] })
      (record d { fragment = c ∷ f }) refl (unfold parse_step in rw (fragment_part (c ∷ f)))
    ∙ loop-nil fuel UriPart.fragment (record d { fragment = c ∷ f })

-- What a step of the query gives.
query_step_at :
    (s q rest : Bytes) (d : UriData)
    → parse_uri_part UriPart.query s ≡ ok (q, rest)
    → parse_step UriPart.query s d
      ≡ ok (
        UriPart.fragment,
        rest,
        record d { query = q; query_map = add_pairs (split is_amp q) [] },
      )
unfolding parse_step
query_step_at s q rest d e = rw (e, query_map_read d q)

-- Query and fragment, on data that has neither.
abbrev bare : UriData → UriData
bare d = record d { query = []; query_map = []; fragment = [] }

abbrev with_back : UriData → Bytes → Bytes → UriData
with_back d q f = record d { query = q; query_map = add_pairs (split is_amp q) []; fragment = f }

no_pairs : add_pairs (split is_amp []) [] ≡ []
unfolding split add_pairs
no_pairs = refl

query_stage :
    (fuel : ℕ) (d : UriData) (q f : Bytes)
    → Misses ends_query q
    → parse_loop (suc (suc fuel)) UriPart.query (back_text q f) (bare d) ≡ ok (with_back d q f)
query_stage fuel d [] [] m =
    loop-nil (suc (suc fuel)) UriPart.query (bare d)
    ∙ ap (λ p. ok (record d { query = []; query_map = p; fragment = [] })) (sym no_pairs)
query_stage fuel d [] (c ∷ f) m =
    loop_next (suc fuel) UriPart.query UriPart.fragment (b'#' ∷ c ∷ f) (b'#' ∷ c ∷ f) (bare d)
      (with_back d [] []) refl
      (query_step_at (b'#' ∷ c ∷ f) [] (b'#' ∷ c ∷ f) (bare d) (
        empty_part UriPart.query ends_query (b'#' ∷ c ∷ f) (unfold separator_pos in refl)
          (unfold contains in refl)))
    ∙ fragment_stage fuel (with_back d [] []) (c ∷ f)
query_stage fuel d (x ∷ q) f m =
    loop_next (suc fuel) UriPart.query UriPart.fragment (b'?' ∷ (x ∷ q ++ frag_text f))
      (frag_text f) (bare d) (with_back d (x ∷ q) []) refl
      (query_step_at (b'?' ∷ (x ∷ q ++ frag_text f)) (x ∷ q) (frag_text f) (bare d)
        (query_part (x ∷ q) (frag_text f) m (frag_text-EmptyOr f)))
    ∙ fragment_stage fuel (with_back d (x ∷ q) []) f

-- The path and what is behind it.
path_step_at :
    (s p rest : Bytes) (d : UriData)
    → parse_uri_part UriPart.path s ≡ ok (p, rest)
    → parse_step UriPart.path s d ≡ ok (UriPart.query, rest, record d { path = p })
unfolding parse_step
path_step_at s p rest d e = rw e

abbrev pub is_slash : ℕ → Bool
is_slash c = c == b'/'

abbrev pub blank : UriData → UriData
blank d = record d { path = []; query = []; query_map = []; fragment = [] }

abbrev pub with_rest : UriData → Bytes → Bytes → Bytes → UriData
with_rest d p q f = record d {
  path = p;
  query = q;
  query_map = add_pairs (split is_amp q) [];
  fragment = f;
}

-- Where there is no path the text begins with what is behind it.
no_path_stage :
    (fuel : ℕ) (d : UriData) (q f s : Bytes)
    → s ≡ back_text q f
    → Misses ends_query q
    → EmptyOr ends_path s
    → parse_loop (suc (suc (suc fuel))) UriPart.path s (blank d) ≡ ok (with_rest d [] q f)
no_path_stage fuel d q f [] e m st =
    loop-nil (suc (suc (suc fuel))) UriPart.path (blank d)
    ∙ sym (loop-nil (suc (suc fuel)) UriPart.query (blank d))
    ∙ ap (λ t. parse_loop (suc (suc fuel)) UriPart.query t (blank d)) e
    ∙ query_stage fuel (record d { path = [] }) q f m
no_path_stage fuel d q f (c ∷ s) e m st =
    loop_next (suc (suc fuel)) UriPart.path UriPart.query (c ∷ s) (c ∷ s) (blank d) (blank d) refl (
      path_step_at (c ∷ s) [] (c ∷ s) (blank d)
        (empty_part UriPart.path ends_path (c ∷ s) (unfold separator_pos in refl) st))
    ∙ ap (λ t. parse_loop (suc (suc fuel)) UriPart.query t (blank d)) e
    ∙ query_stage fuel (record d { path = [] }) q f m

pub path_stage :
    (fuel : ℕ) (d : UriData) (p q f : Bytes)
    → Misses ends_path p
    → Misses ends_query q
    → parse_loop (suc (suc (suc fuel))) UriPart.path (p ++ back_text q f) (blank d)
      ≡ ok (with_rest d p q f)
path_stage fuel d [] q f mp mq =
    no_path_stage fuel d q f (back_text q f) refl mq (back_text-EmptyOr q f)
path_stage fuel d (x ∷ p) q f mp mq =
    loop_next (suc (suc fuel)) UriPart.path UriPart.query (x ∷ p ++ back_text q f) (back_text q f)
      (blank d) (record (blank d) { path = x ∷ p }) refl
      (path_step_at (x ∷ p ++ back_text q f) (x ∷ p) (back_text q f) (blank d)
        (path_part (x ∷ p) (back_text q f) mp (back_text-EmptyOr q f) (omega arith)))
    ∙ query_stage fuel (record d { path = x ∷ p }) q f mq
