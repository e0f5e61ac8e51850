-- ===== src/Uri/Query/Loop.antt =====
-- The loop of `_parseQueryMap` reads the pairs between the ampersands, one after the other.
use servus.Prelude.{
  ℕ, zero, suc, ◌≤◌, Bool, List, [], ◌∷◌, ◌≡◌, refl, arith, some, none, length, take, drop,
  if◌then◌else◌, is_empty, length-drop,
}
use servus.Bytes.{Bytes, find_first_of}
use servus.Bytes.Find.{search, nowhere, at}
use servus.StdMap.{StdMap}
use servus.Uri.Outcome.{ok}
use servus.Uri.Query.{query_loop, add_pair, is_amp}

abbrev cons_head : ℕ → List Bytes → List Bytes
cons_head c [] = (c ∷ []) ∷ []
cons_head c (x ∷ xs) = (c ∷ x) ∷ xs

-- The pieces between the separators.
unfoldable pub split : (ℕ → Bool) → Bytes → List Bytes
split p [] = [] ∷ []
split p (c ∷ s) = let pieces = split p s in if p c then [] ∷ pieces else cons_head c pieces

-- Every piece that is not empty is added to the map, from the first to the last.
unfoldable pub add_pairs : List Bytes → StdMap Bytes → StdMap Bytes
add_pairs [] m = m
add_pairs (pair ∷ pairs) m = add_pairs pairs (if is_empty pair then m else add_pair pair m)

pub split-none : (p : ℕ → Bool) (s : Bytes) → find_first_of p s ≡ none → split p s ≡ s ∷ []
unfolding split find_first_of
split-none p [] h = refl
split-none p (c ∷ s) h = ground (arith, split-none p s)

pub split-some :
    (p : ℕ → Bool) (s : Bytes) (i : ℕ)
    → find_first_of p s ≡ some i
    → split p s ≡ take i s ∷ split p (drop (suc i) s)
unfolding split find_first_of
split-some p [] i h = cc
split-some p (c ∷ s) zero h = ground arith
split-some p (c ∷ s) (suc i) h = ground (arith, split-some p s i)

query_loop-nil : (fuel : ℕ) (m : StdMap Bytes) → query_loop fuel [] m ≡ ok m
unfolding query_loop
query_loop-nil zero m = refl
query_loop-nil (suc fuel) m = refl

-- With at least as much fuel as the query is long, the loop ends, and what it has read is what the
-- pieces between the ampersands write into the map one after the other, empty ones left out.
pub query_loop-split :
    (fuel : ℕ) (q : Bytes) (m : StdMap Bytes)
    → length q ≤ fuel
    → query_loop fuel q m ≡ ok (add_pairs (split is_amp q) m)
unfolding query_loop add_pairs
query_loop-split fuel [] m h = unfold split in query_loop-nil fuel m
query_loop-split zero (c ∷ s) m h = absurd (omega arith)
query_loop-split (suc fuel) (c ∷ s) m h = elim (search is_amp (c ∷ s)) [
  | nowhere e _ ↦ rw (e, query_loop, split-none is_amp (c ∷ s) e) (query_loop-nil fuel _)
  | at zero e _ _ _ ↦
      rw (e, query_loop, split-some is_amp (c ∷ s) zero e) (query_loop-split fuel s m (omega arith))
  | at (suc i) e _ _ _ ↦
      rw (e, query_loop, split-some is_amp (c ∷ s) (suc i) e)
        (query_loop-split fuel (drop (suc i) s) _ (omega (arith, length-drop (suc i) s)))
]
