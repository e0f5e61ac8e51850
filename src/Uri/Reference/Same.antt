-- ===== src/Uri/Reference/Same.antt =====
-- The parser and the reference agree on every text.
use servus.Prelude.{
  ℕ, suc, ◌||◌, not, [], ◌∷◌, ◌≡◌, inl, inr, refl, sym, ◌∙◌, ap, Bool-cases, Option-cases, map,
  drop, take, is_empty, if◌then◌else◌,
}
use servus.Bytes.{Bytes, codes, find_first_of}
use servus.Bytes.Order.{str_eq, cmp}
use servus.Uri.Data.{UriData, empty}
use servus.Uri.Outcome.{Outcome, ok, throw, abort, no_fuel, invalid_argument, throw_if, ◌>>=◌, ◌>>◌}
use servus.Uri.Part.{UriPart}
use servus.Uri.Part.Cuts.{ends_authority}
use servus.Uri.Authority.{parse_authority, parse_host, parse_port, is_at, is_colon}
use servus.Uri.Parse.{parse_step, parse_loop, make_uri, rethrow, valid_scheme, to_lower, Progress}
use servus.Uri.Parse.Total.{loop-nil, make_uri-rethrow}
use servus.Uri.Reference.{
  break, split_scheme, with_fragment, with_query, with_path, with_authority, parts, reference,
}
use servus.Uri.Reference.Scheme.{scheme_broken}
use servus.Uri.Reference.Authority.{authority_read}
use servus.Uri.Reference.Front.{HasFront, path_loop}
use servus.Uri.Reference.Pieces.{authority_broken}

-- What holds of the data that is returned.
abbrev Returns : (UriData → Type 0) → Outcome UriData → Type 0
Returns P (ok d) = P d
Returns P (throw e) = Unit
Returns P abort = Unit
Returns P no_fuel = Unit

-- The authority sets the userinfo, the host and the port alone.
with_port_front :
    (d : UriData) (h : Bytes) (o : Outcome ℕ)
    → HasFront d
    → Returns HasFront (do
      port ← o
      throw_if (is_empty h) invalid_argument
      ok (record d { port = port; host = h }))
with_port_front d [] (ok port) front = tt
with_port_front d (c ∷ h) (ok port) front = record {
  path = front.path;
  query = front.query;
  query_map = front.query_map;
  fragment = front.fragment;
}
with_port_front d h (throw x) front = tt
with_port_front d h abort front = tt
with_port_front d h no_fuel front = tt

without_port_front :
    (d : UriData) (s : Bytes)
    → HasFront d
    → Returns HasFront (do throw_if (is_empty s) invalid_argument; ok (record d { host = s }))
without_port_front d [] front = tt
without_port_front d (c ∷ s) front = record {
  path = front.path;
  query = front.query;
  query_map = front.query_map;
  fragment = front.fragment;
}

host_front : (d : UriData) (s : Bytes) → HasFront d → Returns HasFront (parse_host d s)
unfolding parse_host
host_front d s h = elim (Option-cases (find_first_of is_colon s)) [
  | inl e ↦ rw (e, parse_host, Returns) (without_port_front d s h)
  | inr (i, e) ↦
      rw (e, parse_host, Returns) (with_port_front d (take i s) (parse_port (drop (suc i) s)) h)
]

authority_front : (d : UriData) (s : Bytes) → HasFront d → Returns HasFront (parse_authority d s)
unfolding parse_authority
authority_front d s h = elim (Option-cases (find_first_of is_at s)) [
  | inl e ↦ rw (e, parse_authority, Returns) (host_front d s h)
  | inr (i, e) ↦
      rw (e, parse_authority, Returns)
        (host_front (record d { userinfo = take i s }) (drop (suc i) s)
          record { path = h.path; query = h.query; query_map = h.query_map; fragment = h.fragment })
]

-- What the loop goes on with after a round.
abbrev next : ℕ → Progress → Outcome UriData
next f (part, rest, d) = parse_loop f part rest d

loop_bind_at :
    (f : ℕ) (part : UriPart) (c : ℕ) (s : Bytes) (d : UriData) (o : Outcome Progress)
    → parse_step part (c ∷ s) d ≡ o
    → parse_loop (suc f) part (c ∷ s) d ≡ (o >>= next f)
unfolding parse_loop
loop_bind_at f part c s d (ok (part', rest, d')) e = rw (e, parse_loop)
loop_bind_at f part c s d (throw x) e = rw (e, parse_loop)
loop_bind_at f part c s d abort e = rw (e, parse_loop)
loop_bind_at f part c s d no_fuel e = rw (e, parse_loop)

loop_bind :
    (f : ℕ) (part : UriPart) (c : ℕ) (s : Bytes) (d : UriData)
    → parse_loop (suc f) part (c ∷ s) d ≡ (parse_step part (c ∷ s) d >>= next f)
loop_bind f part c s d = loop_bind_at f part c s d (parse_step part (c ∷ s) d) refl

read_front :
    (f : ℕ) (rest : Bytes) (o : Outcome UriData)
    → Returns HasFront o
    → ((o >>= λ d. ok (UriPart.path, rest, d)) >>= next (suc (suc (suc f))))
      ≡ (o >>= λ d. ok (with_path d rest))
read_front f rest (ok d) front = path_loop f rest d front
read_front f rest (throw x) front = refl
read_front f rest abort front = refl
read_front f rest no_fuel front = refl

authority_loop :
    (f : ℕ) (s : Bytes) (d : UriData)
    → HasFront d
    → parse_loop (suc (suc (suc (suc f)))) UriPart.authority s d ≡ with_authority d s
unfolding with_authority
authority_loop f [] d h =
    loop-nil (suc (suc (suc (suc f)))) UriPart.authority d
    ∙ sym (loop-nil (suc (suc (suc f))) UriPart.path d)
    ∙ path_loop f [] d h
    ∙ unfold break in refl
authority_loop f (c ∷ s) d h =
    loop_bind (suc (suc (suc f))) UriPart.authority c s d
    ∙ elim (Bool-cases (is_empty (break ends_authority (c ∷ s)).0)) [
      | inl missing ↦
          (unfold parse_step in
            rw (authority_broken (c ∷ s), missing)
              (path_loop f (break ends_authority (c ∷ s)).1 d h))
      | inr present ↦
          (unfold parse_step in
            rw (authority_broken (c ∷ s), present)
              (read_front f (break ends_authority (c ∷ s)).1
                  (parse_authority d (break ends_authority (c ∷ s)).0)
                  (authority_front d (break ends_authority (c ∷ s)).0 h)
                ∙ ap (λ o. o >>= λ d'. ok (with_path d' (break ends_authority (c ∷ s)).1))
                    (authority_read d (break ends_authority (c ∷ s)).0)))
    ]

with_scheme_front : (s : Bytes) → HasFront (record empty { scheme = s })
with_scheme_front s = record { path = refl; query = refl; query_map = refl; fragment = refl }

-- The rest of the round that has cut off the scheme.
abbrev with_scheme : Bytes × Bytes → Outcome Progress
with_scheme (raw, rest) = do
  throw_if (not (valid_scheme (map to_lower raw))) invalid_argument
  ok (
    (if str_eq (map to_lower raw) (codes "file") || is_empty (map to_lower raw)
        then UriPart.path
        else UriPart.authority),
    rest,
    record empty { scheme = map to_lower raw },
  )

scheme_round : (s : Bytes) → parse_step UriPart.scheme s empty ≡ with_scheme (split_scheme s)
unfolding parse_step
scheme_round s = rw (scheme_broken s) refl

-- What follows the scheme, with the exceptions of the loop turned into the constructor's.
after_scheme :
    (text raw rest : Bytes)
    → rethrow text (with_scheme (raw, rest) >>= next 4) ≡ parts text (raw, rest)
unfolding parts rethrow
after_scheme text raw rest = elim (Bool-cases (valid_scheme (map to_lower raw))) [
  | inl good ↦
      elim (Bool-cases (str_eq (map to_lower raw) (codes "file") || is_empty (map to_lower raw))) [
        | inl file ↦
            rw (good, file)
              (ap (rethrow text) (
                path_loop 1 rest (record empty { scheme = map to_lower raw })
                  (with_scheme_front (map to_lower raw))))
        | inr other ↦
            rw (good, other)
              (ap (rethrow text) (
                authority_loop 0 rest (record empty { scheme = map to_lower raw })
                  (with_scheme_front (map to_lower raw))))
      ]
  | inr bad ↦ rw bad refl
]

same_empty : make_uri [] ≡ reference []
unfolding make_uri reference split_scheme parts with_path with_query with_fragment break cmp
    valid_scheme
same_empty = refl

-- On every text the constructor of a URI returns the data, or throws the exception, of the
-- reference: the scheme ends at the first `://` that no slash, question mark or hash precedes, each
-- other part at the first character that ends it, and an authority follows every scheme but `file`.
pub make_uri-reference : (text : Bytes) → make_uri text ≡ reference text
unfolding reference
make_uri-reference [] = same_empty
make_uri-reference (c ∷ s) =
    make_uri-rethrow (c ∷ s)
    ∙ ap (rethrow (c ∷ s))
        (loop_bind 4 UriPart.scheme c s empty ∙ ap (λ o. o >>= next 4) (scheme_round (c ∷ s)))
    ∙ after_scheme (c ∷ s) (split_scheme (c ∷ s)).0 (split_scheme (c ∷ s)).1
