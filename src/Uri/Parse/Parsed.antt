-- ===== src/Uri/Parse/Parsed.antt =====
-- What every step of the parser establishes of the data, and how the authority ends.
use servus.Prelude.{
  ℕ, suc, ◌<◌, ◌^◌, true, false, not, ◌||◌, [], ◌∷◌, ◌++◌, ◌≡◌, inl, inr, refl, arith, All-take,
  All-drop, take, drop, is_empty, Bool-cases, ap, none, some,
}
use servus.Prelude.Int.{ℤ, pos, negsuc, wrap}
use servus.Bytes.{Bytes, codes, find_first_of}
use servus.Bytes.Find.{Misses, search, nowhere, at}
use servus.Strto.{strtol10}
use servus.Uri.Data.{UriData, empty}
use servus.Uri.Outcome.{Outcome, Exception, ok, throw, invalid_argument, runtime_error}
use servus.Uri.Part.Cuts.{ends_authority, ends_path, ends_query}
use servus.Uri.Authority.{parse_authority, parse_host, parse_port, is_at, is_colon}
use servus.Uri.Query.{is_amp}
use servus.Uri.Query.Loop.{split, add_pairs}
use servus.Uri.Parse.{valid_scheme}

-- The data of a parsed URI: each part holds none of the characters that end it, the port is in
-- range, without a host there is neither userinfo nor port, and the map is the one of the query.
pub record IsParsed (d : UriData) : Type 0 where
  pub scheme_valid : valid_scheme d.scheme ≡ true
  pub userinfo_ends : Misses ends_authority d.userinfo
  pub userinfo_at : Misses is_at d.userinfo
  pub host_ends : Misses ends_authority d.host
  pub host_colon : Misses is_colon d.host
  pub hostless : d.host ≡ [] → (d.userinfo ≡ []) × (d.port ≡ 0)
  pub port_range : d.port < 2 ^ 16
  pub path_ends : Misses ends_path d.path
  pub query_ends : Misses ends_query d.query
  pub query_read : d.query_map ≡ add_pairs (split is_amp d.query) []

-- The exceptions that the parser throws by itself.
pub data IsRefusal : Exception → Type 0 where
  invalid : IsRefusal invalid_argument
  message : (m : Bytes) → IsRefusal (runtime_error m)

pub data Ends {ℓ} {A : Type ℓ} (P : A → Type 0) (o : Outcome A) : Type ℓ where
  returned : (a : A) → o ≡ ok a → P a → Ends P o
  threw : (e : Exception) → o ≡ throw e → IsRefusal e → Ends P o

wrap-lt : (n : ℤ) → wrap (2 ^ 16) n < 2 ^ 16
wrap-lt (pos n) = omega arith
wrap-lt (negsuc n) = omega arith

port-Ends : (s : Bytes) → Ends (λ n. n < 2 ^ 16) (parse_port s)
unfolding parse_port
port-Ends s = elim (Bool-cases (is_empty s || not (is_empty (strtol10 s).1))) [
  | inl bad ↦ threw (runtime_error (s ++ codes " is not a valid port number")) (rw bad) (message _)
  | inr good ↦ returned (wrap (2 ^ 16) (strtol10 s).0) (rw good) (wrap-lt (strtol10 s).0)
]

with_host :
    (d : UriData) (u h : Bytes) (n : ℕ)
    → IsParsed d
    → Misses ends_authority u
    → Misses is_at u
    → Misses ends_authority h
    → Misses is_colon h
    → is_empty h ≡ false
    → n < 2 ^ 16
    → IsParsed (record d { userinfo = u; host = h; port = n })
with_host d u h n v ue ua he hc nonempty range = record {
  scheme_valid = v.scheme_valid;
  userinfo_ends = ue;
  userinfo_at = ua;
  host_ends = he;
  host_colon = hc;
  hostless = λ e. cc (ap is_empty e);
  port_range = range;
  path_ends = v.path_ends;
  query_ends = v.query_ends;
  query_read = v.query_read;
}

module _ (d : UriData) (u : Bytes) (v : IsParsed d) where
  host_without_port :
      (rest : Bytes)
      → Misses ends_authority u
      → Misses is_at u
      → Misses ends_authority rest
      → find_first_of is_colon rest ≡ none
      → Misses is_colon rest
      → Ends IsParsed (parse_host (record d { userinfo = u }) rest)
  host_without_port [] ue ua he e m = threw invalid_argument (unfold parse_host in refl) invalid
  host_without_port (c ∷ rest) ue ua he e m =
      returned (record d { userinfo = u; host = c ∷ rest })
        (unfold parse_host in rw (e, parse_host))
        (with_host d u (c ∷ rest) d.port v ue ua he m refl v.port_range)

  host_with_port :
      (rest : Bytes) (i n : ℕ)
      → Misses ends_authority u
      → Misses is_at u
      → Misses ends_authority rest
      → find_first_of is_colon rest ≡ some i
      → Misses is_colon (take i rest)
      → parse_port (drop (suc i) rest) ≡ ok n
      → n < 2 ^ 16
      → Ends IsParsed (parse_host (record d { userinfo = u }) rest)
  unfolding parse_host
  host_with_port rest i n ue ua he e m port range = elim (Bool-cases (is_empty (take i rest))) [
    | inl missing ↦ threw invalid_argument (rw (e, parse_host, port, missing)) invalid
    | inr present ↦
        returned (record d { userinfo = u; host = take i rest; port = n })
          (rw (e, parse_host, port, present))
          (with_host d u (take i rest) n v ue ua
            (All-take (λ c. ends_authority c ≡ false) i rest he) m present range)
  ]

  host-Ends :
      (rest : Bytes)
      → Misses ends_authority u
      → Misses is_at u
      → Misses ends_authority rest
      → Ends IsParsed (parse_host (record d { userinfo = u }) rest)
  host-Ends rest ue ua he = elim (search is_colon rest) [
    | nowhere e m ↦ host_without_port rest ue ua he e m
    | at i e lt m st ↦ elim (port-Ends (drop (suc i) rest)) [
      | returned n port range ↦ host_with_port rest i n ue ua he e m port range
      | threw x port refusal ↦ threw x (unfold parse_host in rw (e, parse_host, port)) refusal
    ]
  ]

-- An authority is refused, or it gives userinfo, host and port of a parsed URI.
pub authority-IsParsed :
    (d : UriData) (auth : Bytes)
    → IsParsed d
    → Misses ends_authority auth
    → Ends IsParsed (parse_authority d auth)
unfolding parse_authority
authority-IsParsed d auth v h = elim (search is_at auth) [
  | nowhere e m ↦
      rw (e, parse_authority) (host-Ends d d.userinfo v auth v.userinfo_ends v.userinfo_at h)
  | at i e lt m st ↦
      rw (e, parse_authority)
        (host-Ends d (take i auth) v (drop (suc i) auth)
          (All-take (λ c. ends_authority c ≡ false) i auth h) m
          (All-drop (λ c. ends_authority c ≡ false) (suc i) auth h))
]

-- The other parts are set one at a time.
pub with_scheme :
    (d : UriData) (s : Bytes)
    → IsParsed d
    → valid_scheme s ≡ true
    → IsParsed (record d { scheme = s })
with_scheme d s v h = record {
  scheme_valid = h;
  userinfo_ends = v.userinfo_ends;
  userinfo_at = v.userinfo_at;
  host_ends = v.host_ends;
  host_colon = v.host_colon;
  hostless = v.hostless;
  port_range = v.port_range;
  path_ends = v.path_ends;
  query_ends = v.query_ends;
  query_read = v.query_read;
}

pub with_path :
    (d : UriData) (s : Bytes) → IsParsed d → Misses ends_path s → IsParsed (record d { path = s })
with_path d s v h = record {
  scheme_valid = v.scheme_valid;
  userinfo_ends = v.userinfo_ends;
  userinfo_at = v.userinfo_at;
  host_ends = v.host_ends;
  host_colon = v.host_colon;
  hostless = v.hostless;
  port_range = v.port_range;
  path_ends = h;
  query_ends = v.query_ends;
  query_read = v.query_read;
}

pub with_query :
    (d : UriData) (s : Bytes)
    → IsParsed d
    → Misses ends_query s
    → IsParsed (record d { query = s; query_map = add_pairs (split is_amp s) [] })
with_query d s v h = record {
  scheme_valid = v.scheme_valid;
  userinfo_ends = v.userinfo_ends;
  userinfo_at = v.userinfo_at;
  host_ends = v.host_ends;
  host_colon = v.host_colon;
  hostless = v.hostless;
  port_range = v.port_range;
  path_ends = v.path_ends;
  query_ends = h;
  query_read = refl;
}

pub with_fragment : (d : UriData) (s : Bytes) → IsParsed d → IsParsed (record d { fragment = s })
with_fragment d s v = record {
  scheme_valid = v.scheme_valid;
  userinfo_ends = v.userinfo_ends;
  userinfo_at = v.userinfo_at;
  host_ends = v.host_ends;
  host_colon = v.host_colon;
  hostless = v.hostless;
  port_range = v.port_range;
  path_ends = v.path_ends;
  query_ends = v.query_ends;
  query_read = v.query_read;
}

pub empty-IsParsed : IsParsed empty
unfolding valid_scheme split add_pairs
empty-IsParsed = record {
  scheme_valid = refl;
  userinfo_ends = tt;
  userinfo_at = tt;
  host_ends = tt;
  host_colon = tt;
  hostless = λ _. (refl, refl);
  port_range = omega arith;
  path_ends = tt;
  query_ends = tt;
  query_read = refl;
}
