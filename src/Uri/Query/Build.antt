-- ===== src/Uri/Query/Build.antt =====
-- The query that `addQuery` builds is read back as the map.
use servus.Prelude.{
  ℕ, false, List, [], ◌∷◌, ◌++◌, ◌≡◌, refl, arith, length, ap, ◌∙◌, Ordering, append_assoc,
  take-length_append, drop-suc-length_append, sym, append-nil, All-append,
}
use mathlib.Core.Path.{ap₂}
use servus.Bytes.{Bytes}
use servus.Bytes.Order.{cmp, cmp-lt}
use servus.Bytes.Find.{Misses, find_first_of-miss, find_first_of-hit}
use servus.StdMap
use servus.StdMap.{StdMap}
use servus.StdMap.Sorted.{IsSorted, Above, Below, insert-Below}
use servus.Uri.Outcome.{ok}
use servus.Uri.Query.{query_loop, add_pair, is_amp, is_equals, build_query}
use servus.Uri.Query.Loop.{split, add_pairs, split-none, split-some, query_loop-split}

-- A key that can be written: not empty, no ampersand and no equals sign.
abbrev pub IsKey : Bytes → Type 0
IsKey [] = ⊥
IsKey (c ∷ s) = Misses is_amp (c ∷ s) × Misses is_equals (c ∷ s)

-- Every key can be written, and no value holds an ampersand.
abbrev pub IsWritable : StdMap Bytes → Type 0
IsWritable [] = Unit
IsWritable ((k, v) ∷ m) = IsKey k × Misses is_amp v × IsWritable m

abbrev pair_text : Bytes → Bytes → Bytes
pair_text k v = k ++ (b'=' ∷ v)

-- The rest of the query behind its first pair.
tail_text : StdMap Bytes → Bytes
tail_text [] = []
tail_text ((k, v) ∷ m) = b'&' ∷ (pair_text k v ++ tail_text m)

build_query-append :
    (m : StdMap Bytes) (c : ℕ) (q : Bytes) → build_query m (c ∷ q) ≡ (c ∷ q) ++ tail_text m
unfolding build_query tail_text
build_query-append [] c q = ap (λ r. c ∷ r) (sym (append-nil q))
build_query-append ((k, v) ∷ m) c q =
    build_query-append m c (q ++ (b'&' ∷ k ++ (b'=' ∷ v)))
    ∙ ap (λ r. c ∷ r) (append_assoc q (b'&' ∷ k ++ (b'=' ∷ v)) (tail_text m))

-- A written pair is read as the pair.
add_pair-pair_text :
    (k v : Bytes) (m : StdMap Bytes) → IsKey k → add_pair (pair_text k v) m ≡ StdMap.insert k v m
unfolding add_pair
add_pair-pair_text [] v m h = absurd h
add_pair-pair_text (c ∷ k) v m h =
    rw (find_first_of-hit is_equals (c ∷ k) (b'=' ∷ v) h.1 refl, add_pair)
      (ap₂ (λ a b. StdMap.insert (c ∷ a) b m) (take-length_append k (b'=' ∷ v))
        (drop-suc-length_append k b'=' v))

abbrev texts : StdMap Bytes → List Bytes
texts [] = []
texts ((k, v) ∷ m) = pair_text k v ∷ texts m

pair_text-Misses : (k v : Bytes) → IsKey k → Misses is_amp v → Misses is_amp (pair_text k v)
pair_text-Misses [] v h hv = absurd h
pair_text-Misses (c ∷ k) v h hv =
    All-append (λ x. is_amp x ≡ false) (c ∷ k) (b'=' ∷ v) h.0 (refl, hv)

split-tail_text :
    (pair : Bytes) (m : StdMap Bytes)
    → Misses is_amp pair
    → IsWritable m
    → split is_amp (pair ++ tail_text m) ≡ pair ∷ texts m
unfolding tail_text
split-tail_text pair [] h w =
    rw (append-nil pair) (split-none is_amp pair (find_first_of-miss is_amp pair h))
split-tail_text pair ((k, v) ∷ m) h w =
    let rest : Bytes = pair_text k v ++ tail_text m in
    split-some is_amp (pair ++ b'&' ∷ rest) (length pair)
      (find_first_of-hit is_amp pair (b'&' ∷ rest) h refl)
    ∙ ap₂ (λ a b. a ∷ split is_amp b) (take-length_append pair (b'&' ∷ rest))
        (drop-suc-length_append pair b'&' rest)
    ∙ ap (λ ps. pair ∷ ps) (split-tail_text (pair_text k v) m (pair_text-Misses k v w.0 w.1) w.2)

-- Every key of the second map is above all keys of the first.
abbrev AllBelow : StdMap Bytes → StdMap Bytes → Type 0
AllBelow n [] = Unit
AllBelow n ((k, v) ∷ m) = Below k n × AllBelow n m

Below-snoc :
    (j k v : Bytes) (n : StdMap Bytes)
    → Below j n
    → cmp j k ≡ Ordering.gt
    → Below j (n ++ (k, v) ∷ [])
Below-snoc j k v [] h e = (e, tt)
Below-snoc j k v ((i, w) ∷ n) h e = (h.0, Below-snoc j k v n h.1 e)

AllBelow-snoc :
    (k v : Bytes) (n m : StdMap Bytes) → Above k m → AllBelow n m → AllBelow (n ++ (k, v) ∷ []) m
AllBelow-snoc k v n [] a h = tt
AllBelow-snoc k v n ((j, w) ∷ m) a h =
    (Below-snoc j k v n h.0 (cmp-lt k j a.0), AllBelow-snoc k v n m a.1 h.1)

add_pairs-pair_text :
    (k v : Bytes) (rest : List Bytes) (n : StdMap Bytes)
    → IsKey k
    → add_pairs (pair_text k v ∷ rest) n ≡ add_pairs rest (StdMap.insert k v n)
unfolding add_pairs
add_pairs-pair_text [] v rest n h = absurd h
add_pairs-pair_text (c ∷ k) v rest n h = ap (add_pairs rest) (add_pair-pair_text (c ∷ k) v n h)

add_pairs-texts :
    (n m : StdMap Bytes) → IsSorted m → IsWritable m → AllBelow n m → add_pairs (texts m) n ≡ n ++ m
add_pairs-texts n [] s w b = unfold add_pairs in sym (append-nil n)
add_pairs-texts n ((k, v) ∷ m) s w b =
    add_pairs-pair_text k v (texts m) n w.0
    ∙ ap (add_pairs (texts m)) (insert-Below k v n b.0)
    ∙ add_pairs-texts (n ++ (k, v) ∷ []) m s.1 w.2 (AllBelow-snoc k v n m s.0 b.1)
    ∙ append_assoc n ((k, v) ∷ []) m

AllBelow-nil : (m : StdMap Bytes) → AllBelow [] m
AllBelow-nil [] = tt
AllBelow-nil (e ∷ m) = (tt, AllBelow-nil m)

build_query-texts :
    (m : StdMap Bytes)
    → IsWritable m
    → add_pairs (split is_amp (build_query m [])) [] ≡ add_pairs (texts m) []
unfolding build_query
build_query-texts [] w = unfold split add_pairs in refl
build_query-texts (([], v) ∷ m) w = absurd (w.0)
build_query-texts ((c ∷ k, v) ∷ m) w =
    ap (λ q. add_pairs (split is_amp q) []) (build_query-append m c (k ++ (b'=' ∷ v)))
    ∙ ap (λ ps. add_pairs ps [])
        (split-tail_text (pair_text (c ∷ k) v) m (pair_text-Misses (c ∷ k) v w.0 w.1) w.2)

-- The query built from a map with ascending, writable keys and values is read back as the map.
pub query_loop-build_query :
    (m : StdMap Bytes)
    → IsSorted m
    → IsWritable m
    → query_loop (length (build_query m [])) (build_query m []) [] ≡ ok m
query_loop-build_query m s w =
    query_loop-split (length (build_query m [])) (build_query m []) [] (omega arith)
    ∙ ap ok (build_query-texts m w ∙ add_pairs-texts [] m s w (AllBelow-nil m))
