-- ===== src/Uri/Tests.antt =====
-- Runs of the parser and of the printer on the texts of tests/uri.cpp, and instances of the
-- theorems at concrete URIs.
use servus.Prelude.{◌≡◌, ◌⊎◌, refl, [], ◌∷◌, arith}
use servus.Bytes.{Bytes, codes, find, find_first_of, contains, starts_with}
use servus.Bytes.Order.{cmp}
use servus.Bytes.Find.{find_first_of-none}
use servus.StdMap
use servus.StdMap.{StdMap}
use servus.StdMap.Sorted.{IsSorted}
use servus.Strto.{strtol10, skip_spaces, is_space, sign, scan, digit, digit_value}
use servus.Uri.Data.{UriData, print, empty}
use servus.Uri.Outcome.{Exception, ok, throw, uri_parse}
use servus.Uri.Part.{UriPart, parse_uri_part, cut, separator_pos, disallowed_before, required_first}
use servus.Uri.Authority.{parse_authority, parse_host, parse_port}
use servus.Uri.Query.{
  is_amp, is_equals, set_query, add_query, parse_query_map, query_loop, add_pair,
}
use servus.Uri.Parse.{make_uri, parse_loop, parse_step, valid_scheme, to_lower}
use servus.Uri.Part.Cuts.{ends_authority, ends_path, ends_query}
use servus.Uri.Authority.{is_at, is_colon}
use servus.Uri.Query.Loop.{split, add_pairs}
use servus.Uri.Query.Build.{IsWritable}
use servus.Uri.Query.Laws.{set_query-add_query, set_query_ends}
use servus.Uri.Parse.Parsed.{IsParsed, IsRefusal}
use servus.Uri.Reference.{reference}
use servus.Uri.Reference.Same.{make_uri-reference}
use servus.Uri.Parse.Total.{make_uri_ends}
use servus.Uri.RoundTrip.Whole.{IsPrintable, make_uri-print}

abbrev pub full : UriData
full = record {
  scheme = codes "http";
  userinfo = codes "bob";
  host = codes "www.example.com";
  port = 8080;
  path = codes "/path/";
  query = codes "key=value&foo=bar";
  fragment = codes "fragment";
  query_map = (codes "foo", codes "bar") ∷ (codes "key", codes "value") ∷ [];
}

abbrev pub full_text : Bytes
full_text = codes "http://bob@www.example.com:8080/path/?key=value&foo=bar#fragment"

pub parse_full : make_uri full_text ≡ ok full
unfolding make_uri parse_loop parse_step parse_uri_part cut separator_pos disallowed_before
    required_first valid_scheme to_lower parse_authority parse_host parse_port parse_query_map
    query_loop add_pair StdMap.insert cmp strtol10 skip_spaces is_space sign scan digit digit_value
    contains starts_with find find_first_of
parse_full = refl

make_uri_ends_example :
    ((d : UriData) × (make_uri full_text ≡ ok d) × IsParsed d)
    ⊎ ((x : Exception) × (parse_loop 5 UriPart.scheme full_text empty ≡ throw x)
        × IsRefusal x
        × (make_uri full_text ≡ throw (uri_parse full_text)))
make_uri_ends_example = make_uri_ends full_text

make_uri-reference_example : make_uri full_text ≡ reference full_text
make_uri-reference_example = make_uri-reference full_text

full-IsPrintable : IsPrintable full
unfolding valid_scheme to_lower split add_pairs add_pair contains starts_with find find_first_of
    StdMap.insert cmp
full-IsPrintable = record {
  parsed = record {
    scheme_valid = refl;
    userinfo_ends = find_first_of-none (ends_authority) (full.userinfo) refl;
    userinfo_at = find_first_of-none (is_at) (full.userinfo) refl;
    host_ends = find_first_of-none (ends_authority) (full.host) refl;
    host_colon = find_first_of-none (is_colon) (full.host) refl;
    hostless = λ e. cc;
    port_range = omega arith;
    path_ends = find_first_of-none (ends_path) (full.path) refl;
    query_ends = find_first_of-none (ends_query) (full.query) refl;
    query_read = refl;
  };
  lower = refl;
  scheme_some = omega arith;
  no_file = refl;
  host_at = find_first_of-none (is_at) (full.host) refl;
  path_slash = refl;
}

make_uri-print_example : make_uri (print full) ≡ ok full
make_uri-print_example = make_uri-print full full-IsPrintable

full-IsWritable : IsWritable full.query_map
unfolding find_first_of
full-IsWritable = (
  (find_first_of-none is_amp (codes "foo") refl, find_first_of-none is_equals (codes "foo") refl),
  find_first_of-none is_amp (codes "bar") refl,
  (
    (find_first_of-none is_amp (codes "key") refl, find_first_of-none is_equals (codes "key") refl),
    find_first_of-none is_amp (codes "value") refl,
    tt,
  ),
)

set_query-add_query_example :
    set_query empty (add_query full (codes "hans") (codes "dampf")).query
    ≡ ok (record empty {
      query = (add_query full (codes "hans") (codes "dampf")).query;
      query_map = (add_query full (codes "hans") (codes "dampf")).query_map;
    })
unfolding find_first_of cmp
set_query-add_query_example =
    set_query-add_query full empty (codes "hans") (codes "dampf") ((refl, tt), (tt, tt))
      full-IsWritable
      (
        find_first_of-none is_amp (codes "hans") refl,
        find_first_of-none is_equals (codes "hans") refl,
      )
      (find_first_of-none is_amp (codes "dampf") refl)

set_query_ends_example :
    (m : StdMap Bytes) × (set_query full (codes "a=b&&c")
      ≡ ok (record full { query = codes "a=b&&c"; query_map = m }))
    × (m ≡ add_pairs (split is_amp (codes "a=b&&c")) [])
    × IsSorted m
set_query_ends_example = set_query_ends full (codes "a=b&&c")

-- The same text under another scheme.
abbrev secure : UriData
secure = record full { scheme = codes "https" }
