-- ===== src/Uri/Query.antt =====
-- `_parseQueryMap`, `setQuery`, `findQuery` and `addQuery`.
pub mod Loop
pub mod Build
pub mod Laws
use servus.Prelude.{
  ℕ, zero, suc, Bool, true, false, List, [], ◌∷◌, ◌++◌, Option, none, some, ◌==◌, if◌then◌else◌,
  length, take, drop, is_empty,
}
use servus.Bytes.{Bytes, codes, find_first_of}
use servus.StdMap
use servus.StdMap.{StdMap}
use servus.Uri.Data.{UriData}
use servus.Uri.Outcome.{Outcome, ok, no_fuel, ◌>>=◌}

abbrev pub is_amp : ℕ → Bool
is_amp c = c == b'&'

abbrev pub is_equals : ℕ → Bool
is_equals c = c == b'='

-- What one pair writes into the map. The round of the loop that is left by `continue` where the
-- key is empty writes nothing.
unfoldable pub add_pair : Bytes → StdMap Bytes → StdMap Bytes
unfolding find_first_of
add_pair pair m = elim (find_first_of is_equals pair) [
  | none ↦ StdMap.insert pair [] m
  | some zero ↦ m
  | some (suc i) ↦ StdMap.insert (take (suc i) pair) (drop (suc (suc i)) pair) m
]

-- The loop: one round for each ampersand or pair at the front of the query.
unfoldable pub query_loop : ℕ → Bytes → StdMap Bytes → Outcome (StdMap Bytes)
query_loop fuel [] m = ok m
query_loop zero (c ∷ s) m = no_fuel
query_loop (suc fuel) (c ∷ s) m = elim (find_first_of is_amp (c ∷ s)) [
  | none ↦ query_loop fuel [] (add_pair (c ∷ s) m)
  | some zero ↦ query_loop fuel s m
  | some (suc i) ↦ query_loop fuel (drop (suc (suc i)) (c ∷ s)) (add_pair (take (suc i) (c ∷ s)) m)
]

-- One round uses at least one character, so the length of the query is fuel enough.
unfoldable pub parse_query_map : UriData → Outcome UriData
parse_query_map data' = do
  m ← query_loop (length data'.query) data'.query []
  ok (record data' { query_map = m })

unfoldable pub set_query : UriData → Bytes → Outcome UriData
unfolding parse_query_map
set_query data' query = parse_query_map (record data' { query = query })

unfoldable pub find_query : UriData → Bytes → Option Bytes
find_query data' key = StdMap.find key data'.query_map

-- The loop of `addQuery` over the map, behind the query built so far.
unfoldable pub build_query : StdMap Bytes → Bytes → Bytes
build_query [] query = query
build_query ((k, v) ∷ m) query =
    build_query m (if is_empty query then k ++ (b'=' ∷ v) else query ++ (b'&' ∷ k ++ (b'=' ∷ v)))

unfoldable pub add_query : UriData → Bytes → Bytes → UriData
add_query data' key value =
    let m = StdMap.insert key value data'.query_map in
    record data' { query_map = m; fragment = []; query = build_query m [] }
