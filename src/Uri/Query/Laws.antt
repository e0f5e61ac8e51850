-- ===== src/Uri/Query/Laws.antt =====
-- What `addQuery`, `setQuery` and `findQuery` promise of one another.
use servus.Prelude.{
  zero, suc, List, take, drop, [], ◌∷◌, ◌≡◌, refl, arith, some, if◌then◌else◌, length, Ordering,
}
use servus.Bytes.{Bytes}
use servus.Bytes.Order.{cmp, str_eq}
use servus.Bytes.Find.{Misses, search, nowhere, at}
use servus.StdMap
use servus.StdMap.{StdMap, find-insert}
use servus.StdMap.Sorted.{IsSorted, insert-IsSorted}
use servus.Uri.Data.{UriData}
use servus.Uri.Outcome.{ok}
use servus.Uri.Query.{add_query, set_query, find_query, is_amp, is_equals, add_pair}
use servus.Uri.Query.Build.{IsKey, IsWritable, query_loop-build_query}
use servus.Uri.Query.Loop.{split, add_pairs, query_loop-split}

-- After `addQuery(key, value)` the key is found with the value, and every other key as before.
pub find_query-add_query :
    (d : UriData) (key value j : Bytes)
    → find_query (add_query d key value) j ≡ (if str_eq j key then some value else find_query d j)
unfolding find_query add_query
find_query-add_query d key value j = find-insert key j value d.query_map

insert-IsWritable :
    (k v : Bytes) (m : StdMap Bytes)
    → IsKey k
    → Misses is_amp v
    → IsWritable m
    → IsWritable (StdMap.insert k v m)
unfolding StdMap.insert
insert-IsWritable k v [] hk hv w = (hk, hv, tt)
insert-IsWritable k v ((j, x) ∷ m) hk hv w =
    elim (cmp k j)
      as (λ o. IsWritable (elim o [
        | Ordering.lt ↦ (k, v) ∷ (j, x) ∷ m
        | Ordering.eq ↦ (j, v) ∷ m
        | Ordering.gt ↦ (j, x) ∷ StdMap.insert k v m
      ])) [
        | Ordering.lt ↦ (hk, hv, w)
        | Ordering.eq ↦ (w.0, hv, w.2)
        | Ordering.gt ↦ (w.0, w.1, insert-IsWritable k v m hk hv w.2)
      ]

-- If the keys of the map and the new one can be written (not empty, no `&`, no `=`), the values hold
-- no `&` and the map is sorted, then setting the query that `addQuery` has built gives the same map.
pub set_query-add_query :
    (d e : UriData) (key value : Bytes)
    → IsSorted d.query_map
    → IsWritable d.query_map
    → IsKey key
    → Misses is_amp value
    → set_query e (add_query d key value).query
      ≡ ok (record e {
        query = (add_query d key value).query;
        query_map = (add_query d key value).query_map;
      })
unfolding set_query add_query
set_query-add_query d e key value s w hk hv =
    let m : StdMap Bytes = StdMap.insert key value d.query_map in
    rw (
      query_loop-build_query m (insert-IsSorted key value d.query_map s)
        (insert-IsWritable key value d.query_map hk hv w))

add_pair-IsSorted : (pair : Bytes) (m : StdMap Bytes) → IsSorted m → IsSorted (add_pair pair m)
unfolding add_pair
add_pair-IsSorted pair m s = elim (search is_equals pair) [
  | nowhere e h ↦ rw (e, add_pair) (insert-IsSorted pair [] m s)
  | at zero e lt h st ↦ rw (e, add_pair) s
  | at (suc i) e lt h st ↦
      rw (e, add_pair) (insert-IsSorted (take (suc i) pair) (drop (suc (suc i)) pair) m s)
]

add_pairs-IsSorted :
    (pairs : List Bytes) (m : StdMap Bytes) → IsSorted m → IsSorted (add_pairs pairs m)
unfolding add_pairs
add_pairs-IsSorted [] m s = s
add_pairs-IsSorted ([] ∷ pairs) m s = add_pairs-IsSorted pairs m s
add_pairs-IsSorted ((c ∷ p) ∷ pairs) m s =
    add_pairs-IsSorted pairs (add_pair (c ∷ p) m) (add_pair-IsSorted (c ∷ p) m s)

-- Whatever the query, `setQuery` returns, it changes the query and the map alone, the map is what
-- the pieces between the ampersands write one after the other, and its keys ascend strictly.
pub set_query_ends :
    (d : UriData) (query : Bytes)
    → (m : StdMap Bytes) × (set_query d query ≡ ok (record d { query = query; query_map = m }))
      × (m ≡ add_pairs (split is_amp query) [])
      × IsSorted m
unfolding set_query
set_query_ends d query = (
  add_pairs (split is_amp query) [],
  rw (query_loop-split (length query) query [] (omega arith)),
  refl,
  add_pairs-IsSorted (split is_amp query) [] tt,
)
