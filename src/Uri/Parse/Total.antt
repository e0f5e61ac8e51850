-- ===== src/Uri/Parse/Total.antt =====
-- The parser always ends: five rounds are enough, no assertion fails and no position is out of
-- range. What it returns is the data of a parsed URI, and what it throws is `uri_parse`.
use servus.Prelude.{
  ℕ, zero, suc, ◌<◌, ◌≤◌, ◌||◌, [], ◌∷◌, ◌≡◌, ◌⊎◌, inl, inr, refl, arith, length, is_empty,
  Bool-cases, map, if◌then◌else◌,
}
use servus.Bytes.{Bytes, codes}
use servus.Bytes.Find.{Misses, Starts}
use servus.Bytes.Order.{str_eq}
use servus.Uri.Data.{UriData, empty}
use servus.Uri.Outcome.{Exception, ok, throw, invalid_argument, uri_parse}
use servus.Uri.Part.{UriPart, parse_uri_part}
use servus.Uri.Part.Cuts.{ends_authority, ends_path, ends_query}
use servus.Uri.Part.Ends.{
  last, more, path_ends, authority_ends, query_ends, fragment_ends, scheme_ends,
}
use servus.Uri.Authority.{parse_authority}
use servus.Uri.Query.{parse_query_map, is_amp}
use servus.Uri.Query.Loop.{split, add_pairs, query_loop-split}
use servus.Uri.Parse.{parse_step, parse_loop, make_uri, rethrow, valid_scheme, to_lower, Progress}
use servus.Uri.Parse.Parsed.{
  with_scheme, with_path, with_query, with_fragment, empty-IsParsed, IsParsed, IsRefusal, invalid,
  Ends, returned, threw, authority-IsParsed,
}

-- The rounds that are left at most.
abbrev rank : UriPart → ℕ
rank UriPart.scheme = 5
rank UriPart.authority = 4
rank UriPart.path = 3
rank UriPart.query = 2
rank UriPart.fragment = 1

-- What the parts before have left.
abbrev Ready : UriPart → Bytes → Type 0
Ready UriPart.query s = Starts ends_path s
Ready UriPart.fragment s = Starts ends_query s
Ready part s = Unit

-- After a round nothing is left, or the next part can go on.
abbrev Continues : UriPart → Progress → Type 0
Continues part (part', rest, d) =
    IsParsed d × ((rest ≡ []) ⊎ ((rank part' < rank part) × Ready part' rest))

-- Each part of the URI is cut off, or refused.
scheme_step :
    (s : Bytes) (d : UriData)
    → IsParsed d
    → Ends (Continues UriPart.scheme) (parse_step UriPart.scheme s d)
unfolding parse_step
scheme_step s d v =
    let (raw, rest, e) = scheme_ends s in
    let scheme : Bytes = map to_lower raw in
    elim (Bool-cases (valid_scheme scheme)) [
      | inl good ↦ elim (Bool-cases (str_eq scheme (codes "file") || is_empty scheme)) [
        | inl file ↦
            returned (UriPart.path, rest, record d { scheme = scheme }) (rw (e, good, file))
              (with_scheme d scheme v good, inr (omega arith, tt))
        | inr other ↦
            returned (UriPart.authority, rest, record d { scheme = scheme }) (rw (e, good, other))
              (with_scheme d scheme v good, inr (omega arith, tt))
      ]
      | inr bad ↦ threw invalid_argument (rw (e, bad)) invalid
    ]

path_step :
    (s : Bytes) (d : UriData)
    → IsParsed d
    → Ends (Continues UriPart.path) (parse_step UriPart.path s d)
unfolding parse_step
path_step s d v = elim (path_ends s) [
  | last path e m ↦
      returned (UriPart.query, [], record d { path = path }) (rw e) (with_path d path v m, inl refl)
  | more path rest e m st ↦
      returned (UriPart.query, rest, record d { path = path }) (rw e)
        (with_path d path v m, inr (omega arith, st))
]

pub query_map_read :
    (d : UriData) (q : Bytes)
    → parse_query_map (record d { query = q })
      ≡ ok (record d { query = q; query_map = add_pairs (split is_amp q) [] })
unfolding parse_query_map
query_map_read d q = rw (query_loop-split (length q) q [] (omega arith))

query_step :
    (s : Bytes) (d : UriData)
    → IsParsed d
    → Starts ends_path s
    → Ends (Continues UriPart.query) (parse_step UriPart.query s d)
unfolding parse_step
query_step s d v st = elim (query_ends s st) [
  | last query e m ↦
      returned
        (
          UriPart.fragment,
          [],
          record d { query = query; query_map = add_pairs (split is_amp query) [] },
        )
        (rw (e, query_map_read d query)) (with_query d query v m, inl refl)
  | more query rest e m st' ↦
      returned
        (
          UriPart.fragment,
          rest,
          record d { query = query; query_map = add_pairs (split is_amp query) [] },
        )
        (rw (e, query_map_read d query)) (with_query d query v m, inr (omega arith, st'))
]

fragment_step :
    (s : Bytes) (d : UriData)
    → IsParsed d
    → Starts ends_query s
    → Ends (Continues UriPart.fragment) (parse_step UriPart.fragment s d)
unfolding parse_step
fragment_step s d v st =
    let (f, e) = fragment_ends s st in
    returned (UriPart.fragment, [], record d { fragment = f }) (rw e)
      (with_fragment d f v, inl refl)

-- Nothing is read from an empty authority.
read_authority :
    (d : UriData) (auth : Bytes)
    → IsParsed d
    → Misses ends_authority auth
    → Ends IsParsed (if is_empty auth then ok d else parse_authority d auth)
read_authority d [] v h = returned d refl v
read_authority d (c ∷ auth) v h = authority-IsParsed d (c ∷ auth) v h

authority_step_from :
    (s : Bytes) (d : UriData) (auth rest : Bytes)
    → IsParsed d
    → parse_uri_part UriPart.authority s ≡ ok (auth, rest)
    → Misses ends_authority auth
    → Ends (Continues UriPart.authority) (parse_step UriPart.authority s d)
unfolding parse_step
authority_step_from s d auth rest v e m = elim (read_authority d auth v m) [
  | returned d' e' v' ↦ returned (UriPart.path, rest, d') (rw (e, e')) (v', inr (omega arith, tt))
  | threw x e' refusal ↦ threw x (rw (e, e')) refusal
]

authority_step :
    (s : Bytes) (d : UriData)
    → IsParsed d
    → Ends (Continues UriPart.authority) (parse_step UriPart.authority s d)
authority_step s d v = elim (authority_ends s) [
  | last auth e m ↦ authority_step_from s d auth [] v e m
  | more auth rest e m st ↦ authority_step_from s d auth rest v e m
]

step-Ends :
    (part : UriPart) (s : Bytes) (d : UriData)
    → IsParsed d
    → Ready part s
    → Ends (Continues part) (parse_step part s d)
step-Ends UriPart.scheme s d v r = scheme_step s d v
step-Ends UriPart.authority s d v r = authority_step s d v
step-Ends UriPart.path s d v r = path_step s d v
step-Ends UriPart.query s d v r = query_step s d v r
step-Ends UriPart.fragment s d v r = fragment_step s d v r

pub loop-nil : (fuel : ℕ) (part : UriPart) (d : UriData) → parse_loop fuel part [] d ≡ ok d
unfolding parse_loop
loop-nil zero part d = refl
loop-nil (suc fuel) part d = refl

rank_pos : (part : UriPart) → 0 < rank part
rank_pos UriPart.scheme = omega arith
rank_pos UriPart.authority = omega arith
rank_pos UriPart.path = omega arith
rank_pos UriPart.query = omega arith
rank_pos UriPart.fragment = omega arith

module _ (fuel : ℕ) (part : UriPart) (c : ℕ) (s : Bytes) (d : UriData) where
  pub loop_ok :
      (part' : UriPart) (rest : Bytes) (d' : UriData)
      → parse_step part (c ∷ s) d ≡ ok (part', rest, d')
      → parse_loop (suc fuel) part (c ∷ s) d ≡ parse_loop fuel part' rest d'
  unfolding parse_loop
  loop_ok part' rest d' e = rw (e, parse_loop)

  loop_throw :
      (x : Exception)
      → parse_step part (c ∷ s) d ≡ throw x
      → parse_loop (suc fuel) part (c ∷ s) d ≡ throw x
  unfolding parse_loop
  loop_throw x e = rw (e, parse_loop)

-- The loop ends within the rounds that the part it stands at leaves.
loop-Ends :
    (fuel : ℕ) (part : UriPart) (s : Bytes) (d : UriData)
    → rank part ≤ fuel
    → IsParsed d
    → Ready part s
    → Ends IsParsed (parse_loop fuel part s d)
loop-Ends fuel part [] d h v r = returned d (loop-nil fuel part d) v
loop-Ends zero part (c ∷ s) d h v r = absurd (omega (arith, rank_pos part))
loop-Ends (suc fuel) part (c ∷ s) d h v r = elim (step-Ends part (c ∷ s) d v r) [
  | returned (part', rest, d') e (v', inl done) ↦
      rw (loop_ok fuel part c s d part' rest d' e, done) (returned d' (loop-nil fuel part' d') v')
  | returned (part', rest, d') e (v', inr (less, r')) ↦
      rw (loop_ok fuel part c s d part' rest d' e)
        (loop-Ends fuel part' rest d' (omega arith) v' r')
  | threw x e refusal ↦ threw x (loop_throw fuel part c s d x e) refusal
]

pub make_uri-rethrow :
    (uri : Bytes) → make_uri uri ≡ rethrow uri (parse_loop 5 UriPart.scheme uri empty)
unfolding make_uri
make_uri-rethrow [] = rw (loop-nil 5 UriPart.scheme empty)
make_uri-rethrow (c ∷ s) = refl

-- For every text the loop of the parser ends within five rounds, and either the constructor returns
-- the data of a parsed URI, or the loop throws one of the parser's own exceptions, which the
-- constructor turns into `uri_parse`. No assertion fails and no position is out of range.
pub make_uri_ends :
    (uri : Bytes)
    → ((d : UriData) × (make_uri uri ≡ ok d) × IsParsed d)
      ⊎ ((x : Exception) × (parse_loop 5 UriPart.scheme uri empty ≡ throw x)
          × IsRefusal x
          × (make_uri uri ≡ throw (uri_parse uri)))
unfolding rethrow
make_uri_ends uri = elim (loop-Ends 5 UriPart.scheme uri empty (omega arith) empty-IsParsed tt) [
  | returned d e v ↦ inl (d, rw (make_uri-rethrow uri, e), v)
  | threw x e refusal ↦ inr (x, e, refusal, rw (make_uri-rethrow uri, e))
]
