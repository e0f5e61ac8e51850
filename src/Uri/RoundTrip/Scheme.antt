-- ===== src/Uri/RoundTrip/Scheme.antt =====
-- The round of the parser on the printed scheme.
use servus.Prelude.{
  ℕ, suc, ◌<◌, Bool, true, false, not, ◌&&◌, ◌||◌, [], ◌∷◌, ◌++◌, ◌≡◌, ◌≢◌, refl, arith, All,
  length, is_empty, map, ◌==◌,
}
use servus.Bytes.{Bytes, codes, contains}
use servus.Bytes.Order.{str_eq}
use servus.Bytes.Find.{Misses}
use servus.Uri.Data.{UriData, empty}
use servus.Uri.Outcome.{ok}
use servus.Uri.Part.{UriPart, parse_uri_part}
use servus.Uri.Part.Cuts.{ends_authority, scheme_part}
use servus.Uri.Parse.{
  parse_step, parse_loop, valid_scheme, to_lower, is_alpha, all_in, scheme_chars,
}
use servus.Uri.RoundTrip.Stages.{loop_next}
use servus.Uri.RoundTrip.Front.{nonempty, nonempty_append}

-- A character of a scheme ends no part and is no colon.
pub inner : ℕ → Bool
unfolding contains
inner c = not (ends_authority c || c == b':')

both : (a b : Bool) → (a && b) ≡ true → (a ≡ true) × (b ≡ true)
both a b h = ground arith

all_test : (ℕ → Bool) → Bytes → Bool
all_test p [] = true
all_test p (c ∷ s) = p c && all_test p s

all_test-contains :
    (p : ℕ → Bool) (chars : Bytes) (c : ℕ)
    → all_test p chars ≡ true
    → contains chars c ≡ true
    → p c ≡ true
unfolding all_test contains
all_test-contains p [] c h k = cc
all_test-contains p (x ∷ chars) c h k = ground (arith, all_test-contains p chars c)

inner_chars : all_test inner scheme_chars ≡ true
unfolding all_test inner
inner_chars = refl

alpha_inner : (c : ℕ) → is_alpha c ≡ true → inner c ≡ true
unfolding is_alpha inner
alpha_inner c h = ground arith

tail_inner : (s : Bytes) → all_in scheme_chars s ≡ true → All (λ c. inner c ≡ true) s
unfolding all_in
tail_inner [] h = tt
tail_inner (c ∷ s) h =
    let (first, others) = both (contains scheme_chars c) (all_in scheme_chars s) h in
    (all_test-contains inner scheme_chars c inner_chars first, tail_inner s others)

scheme_inner : (s : Bytes) → valid_scheme s ≡ true → All (λ c. inner c ≡ true) s
scheme_inner [] h = tt
scheme_inner (c ∷ s) h =
    let (first, others) = both (is_alpha c) (all_in scheme_chars s) (unfold valid_scheme in h) in
    (alpha_inner c first, tail_inner s others)

inner_splits : (c : ℕ) → inner c ≡ true → (ends_authority c ≡ false) × (c ≢ b':')
unfolding inner
inner_splits c h = ground arith

inner-Misses :
    (s : Bytes) → All (λ c. inner c ≡ true) s → Misses ends_authority s × All (λ c. c ≢ b':') s
inner-Misses [] h = (tt, tt)
inner-Misses (c ∷ s) h =
    let (ends, colon) = inner_splits c h.0 in
    let (all_end, all_colon) = inner-Misses s h.1 in ((ends, all_end), (colon, all_colon))

scheme_step_at :
    (s rest raw : Bytes) (d : UriData)
    → parse_uri_part UriPart.scheme s ≡ ok (raw, rest)
    → map to_lower raw ≡ raw
    → valid_scheme raw ≡ true
    → is_empty raw ≡ false
    → str_eq raw (codes "file") ≡ false
    → parse_step UriPart.scheme s d ≡ ok (UriPart.authority, rest, record d { scheme = raw })
unfolding parse_step
scheme_step_at s rest raw d e lower valid some other = rw (e, lower, valid, some, other)

-- The round of a scheme that is printed in front of its separator.
pub scheme_stage :
    (fuel : ℕ) (raw rest : Bytes)
    → map to_lower raw ≡ raw
    → valid_scheme raw ≡ true
    → 0 < length raw
    → str_eq raw (codes "file") ≡ false
    → parse_loop (suc fuel) UriPart.scheme (raw ++ (codes "://" ++ rest)) empty
      ≡ parse_loop fuel UriPart.authority rest (record empty { scheme = raw })
scheme_stage fuel raw rest lower valid some other =
    let (ends, colons) = inner-Misses raw (scheme_inner raw valid) in
    loop_next fuel UriPart.scheme UriPart.authority (raw ++ (codes "://" ++ rest)) rest empty
      (record empty { scheme = raw }) (nonempty_append raw (codes "://" ++ rest) some)
      (scheme_step_at (raw ++ (codes "://" ++ rest)) rest raw empty
        (scheme_part raw rest ends colons some) lower valid (nonempty raw some) other)
