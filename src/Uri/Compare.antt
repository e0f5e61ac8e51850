-- ===== src/Uri/Compare.antt =====
-- The comparison of URIs.
use servus.Prelude.{[], ◌∷◌, ◌≡◌, ◌↔◌, refl, arith, true, false}
use servus.Bytes.{Bytes}
use servus.Bytes.Order.{cmp_refl, cmp-eq}
use servus.StdMap.{StdMap}
use servus.Uri.Data.{UriData, eq, ne, map_eq}

map_eq_refl : (m : StdMap Bytes) → map_eq m m ≡ true
unfolding map_eq
map_eq_refl [] = refl
map_eq_refl ((k, v) ∷ m) = ground (arith, cmp_refl k, cmp_refl v, map_eq_refl m)

map_eq_sound : (l m : StdMap Bytes) → map_eq l m ≡ true → l ≡ m
unfolding map_eq
map_eq_sound [] [] h = refl
map_eq_sound [] (e ∷ m) h = cc
map_eq_sound (e ∷ l) [] h = cc
map_eq_sound ((k, v) ∷ l) ((j, w) ∷ m) h = ground (arith, cmp-eq k j, cmp-eq v w, map_eq_sound l m)

-- Two URIs compare equal exactly when userinfo, host, port, path, query, fragment and query map are
-- equal, whatever their schemes; `operator!=` is the negation.
pub eq_exact :
    (a b : UriData)
    → ((eq a b ≡ true) ↔ (
        (a.userinfo ≡ b.userinfo)
        × (a.host ≡ b.host)
        × (a.port ≡ b.port)
        × (a.path ≡ b.path)
        × (a.query ≡ b.query)
        × (a.fragment ≡ b.fragment)
        × (a.query_map ≡ b.query_map)))
      × ((ne a b ≡ false) ↔ (eq a b ≡ true))
unfolding eq ne
eq_exact a b = (
  (
    λ h. ground (
      arith,
      cmp-eq a.userinfo b.userinfo,
      cmp-eq a.host b.host,
      cmp-eq a.path b.path,
      cmp-eq a.query b.query,
      cmp-eq a.fragment b.fragment,
      map_eq_sound a.query_map b.query_map,
    ),
    λ h. ground (
      arith,
      cmp_refl b.userinfo,
      cmp_refl b.host,
      cmp_refl b.path,
      cmp_refl b.query,
      cmp_refl b.fragment,
      map_eq_refl b.query_map,
    ),
  ),
  (λ h. ground arith, λ h. ground arith),
)
