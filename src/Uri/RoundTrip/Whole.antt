-- ===== src/Uri/RoundTrip/Whole.antt =====
-- The whole URI, printed and parsed.
use servus.Prelude.{
  ◌<◌, ◌≡◌, ◌∙◌, refl, sym, true, false, [], ◌∷◌, ◌++◌, ap, length, is_empty, map, append_assoc,
  Bool-cases, inl, inr,
}
use servus.Bytes.{Bytes, codes}
use servus.Bytes.Order.{str_eq}
use servus.Bytes.Find.{Misses}
use servus.Uri.Data.{UriData, empty, print, printed_authority}
use servus.Uri.Outcome.{ok}
use servus.Uri.Part.{UriPart}
use servus.Uri.Part.Cuts.{EmptyOr}
use servus.Uri.Authority.{is_at}
use servus.Uri.Parse.{make_uri, parse_loop, rethrow, to_lower}
use servus.Uri.Parse.Parsed.{IsParsed}
use servus.Uri.Parse.Total.{make_uri-rethrow}
use servus.Uri.RoundTrip.Stages.{back_text, is_slash}
use servus.Uri.RoundTrip.Front.{nonempty, authority_stage, no_authority_stage}
use servus.Uri.RoundTrip.Scheme.{scheme_stage}

-- Data of a parsed URI whose text shows all of it: a scheme in lower case other than `file`, a host
-- without an at sign, and a path that is empty or begins with a slash.
pub record IsPrintable (d : UriData) : Type 0 where
  pub parsed : IsParsed d
  pub lower : map to_lower d.scheme ≡ d.scheme
  pub scheme_some : 0 < length d.scheme
  pub no_file : str_eq d.scheme (codes "file") ≡ false
  pub host_at : Misses is_at d.host
  pub path_slash : EmptyOr is_slash d.path

-- The text behind the scheme.
abbrev front : UriData → Bytes
front d = printed_authority d ++ (d.path ++ back_text d.query d.fragment)

print-front : (d : UriData) → 0 < length d.scheme → print d ≡ d.scheme ++ (codes "://" ++ front d)
unfolding print
print-front d some = rw (nonempty d.scheme some) (append_assoc d.scheme (codes "://") (front d))

empty_of : (s : Bytes) → is_empty s ≡ true → s ≡ []
empty_of [] h = refl
empty_of (c ∷ s) h = cc

abbrev started : UriData → UriData
started d = record empty { scheme = d.scheme }

-- Without a host the text behind the scheme is the path and what follows it.
front_without_host :
    (d : UriData)
    → IsPrintable d
    → is_empty d.host ≡ true
    → parse_loop 4 UriPart.authority (front d) (started d) ≡ ok d
unfolding printed_authority
front_without_host d v none =
    let parsed = v.parsed in
    let no_host : d.host ≡ [] = empty_of d.host none in
    let (no_user, no_port) = parsed.hostless no_host in
    rw none (
      no_authority_stage 0 (started d) d.path d.query d.fragment v.path_slash parsed.path_ends
        parsed.query_ends
      ∙ λ i. ok (record d {
        userinfo = sym no_user i;
        host = sym no_host i;
        port = sym no_port i;
        query_map = sym parsed.query_read i;
      }))

front_with_host :
    (d : UriData)
    → IsPrintable d
    → is_empty d.host ≡ false
    → parse_loop 4 UriPart.authority (front d) (started d) ≡ ok d
unfolding printed_authority
front_with_host d v some =
    let parsed = v.parsed in
    rw some (
      authority_stage 0 (started d) d.userinfo d.host d.port d.path d.query d.fragment
        parsed.userinfo_ends parsed.userinfo_at parsed.host_ends v.host_at parsed.host_colon some
        parsed.port_range v.path_slash parsed.path_ends parsed.query_ends
      ∙ λ i. ok (record d { query_map = sym parsed.query_read i }))

loop-print : (d : UriData) → IsPrintable d → parse_loop 5 UriPart.scheme (print d) empty ≡ ok d
loop-print d v =
    ap (λ t. parse_loop 5 UriPart.scheme t empty) (print-front d v.scheme_some)
    ∙ scheme_stage 4 d.scheme (front d) v.lower v.parsed.scheme_valid v.scheme_some v.no_file
    ∙ elim (Bool-cases (is_empty d.host)) [
      | inl none ↦ front_without_host d v none
      | inr some ↦ front_with_host d v some
    ]

-- Constructing a URI from what `operator<<` prints of the data of a parsed URI gives that data, if
-- the scheme is in lower case, not empty and not `file`, the host holds no at sign, and the path is
-- empty or begins with a slash.
pub make_uri-print : (d : UriData) → IsPrintable d → make_uri (print d) ≡ ok d
unfolding rethrow
make_uri-print d v = make_uri-rethrow (print d) ∙ ap (rethrow (print d)) (loop-print d v)
