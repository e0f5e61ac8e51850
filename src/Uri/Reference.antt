-- ===== src/Uri/Reference.antt =====
-- A reference for the parser of URIs: one walk from left to right, in which each part is the text
-- before the first character that ends it. It has no positions, no loop over the parts and no fuel.
-- The characters of a scheme, the number of a port and the pairs of a query are those of the parser.
pub mod Pieces
pub mod Scheme
pub mod Authority
pub mod Front
pub mod Same
use servus.Prelude.{
  ℕ, Bool, true, false, not, ◌||◌, List, [], ◌∷◌, Option, none, some, map, drop, if◌then◌else◌,
  is_empty,
}
use servus.Bytes.{Bytes, codes, starts_with}
use servus.Bytes.Order.{str_eq}
use servus.Uri.Data.{UriData, empty}
use servus.Uri.Outcome.{Outcome, ok, throw, uri_parse, invalid_argument, throw_if, ◌>>=◌, ◌>>◌}
use servus.Uri.Part.Cuts.{ends_authority, ends_path, ends_query}
use servus.Uri.Authority.{parse_port, is_at, is_colon}
use servus.Uri.Query.{is_amp}
use servus.Uri.Query.Loop.{split, add_pairs}
use servus.Uri.Parse.{valid_scheme, to_lower, rethrow}

-- The text before the first character that passes the test, and the rest.
unfoldable pub break : (ℕ → Bool) → Bytes → Bytes × Bytes
break p [] = ([], [])
break p (c ∷ s) = let rest = break p s in if p c then ([], c ∷ s) else (c ∷ rest.0, rest.1)

-- The text before `://` and the text behind it, if none of `/?#` comes earlier.
unfoldable pub scheme_of : Bytes → Option (Bytes × Bytes)
scheme_of [] = none
scheme_of (c ∷ s) =
    let later : Option (Bytes × Bytes) = elim (scheme_of s) [
      | none ↦ none
      | some (name, rest) ↦ some (c ∷ name, rest)
    ] in
    if starts_with (codes "://") (c ∷ s)
    then some ([], drop 2 s)
    else if ends_authority c
    then none
    else later

-- A scheme is not empty.
abbrev pub named : Bytes → Option (Bytes × Bytes) → Bytes × Bytes
named s none = ([], s)
named s (some ([], rest)) = ([], s)
named s (some (c ∷ name, rest)) = (c ∷ name, rest)

unfoldable pub split_scheme : Bytes → Bytes × Bytes
unfolding scheme_of
split_scheme s = named s (scheme_of s)

-- The fragment behind a hash, and the query behind a question mark.
unfoldable pub with_fragment : UriData → Bytes → UriData
with_fragment d s = record d { fragment = drop 1 s }

unfoldable pub with_query : UriData → Bytes → UriData
unfolding break with_fragment split add_pairs
with_query d [] = with_fragment d []
with_query d (c ∷ s) =
    if ends_query c
    then with_fragment d (c ∷ s)
    else with_fragment
        (record d {
          query = (break ends_query s).0;
          query_map = add_pairs (split is_amp (break ends_query s).0) [];
        })
        (break ends_query s).1

unfoldable pub with_path : UriData → Bytes → UriData
unfolding break with_query
with_path d s = with_query (record d { path = (break ends_path s).0 }) (break ends_path s).1

-- The host and the port, of a text that is broken off at a colon, and the userinfo before them, of
-- one that is broken off at an at sign.
unfoldable pub host_of : UriData → Bytes × Bytes → Outcome UriData
host_of d (h, []) = do throw_if (is_empty h) invalid_argument; ok (record d { host = h })
host_of d (h, c ∷ port) = do
  n ← parse_port port
  throw_if (is_empty h) invalid_argument
  ok (record d { port = n; host = h })

unfoldable pub authority_of : UriData → Bytes × Bytes → Outcome UriData
unfolding host_of break
authority_of d (s, []) = host_of d (break is_colon s)
authority_of d (u, c ∷ s) = host_of (record d { userinfo = u }) (break is_colon s)

-- A `file` and a text without a scheme have no authority, and an empty one is not read.
unfoldable pub with_authority : UriData → Bytes → Outcome UriData
unfolding break with_path authority_of
with_authority d s =
    if is_empty (break ends_authority s).0
    then ok (with_path d (break ends_authority s).1)
    else authority_of d (break is_at (break ends_authority s).0) >>= λ d'.
        ok (with_path d' (break ends_authority s).1)

unfoldable pub parts : Bytes → Bytes × Bytes → Outcome UriData
unfolding with_authority with_path valid_scheme
parts text (raw, rest) =
    let d : UriData = record empty { scheme = map to_lower raw } in
    if not (valid_scheme d.scheme)
    then throw (uri_parse text)
    else if str_eq d.scheme (codes "file") || is_empty d.scheme
    then ok (with_path d rest)
    else rethrow text (with_authority d rest)

unfoldable pub reference : Bytes → Outcome UriData
unfolding split_scheme parts
reference text = parts text (split_scheme text)
