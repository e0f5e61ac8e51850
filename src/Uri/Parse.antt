-- ===== src/Uri/Parse.antt =====
-- `detail::URI`: the loop of `_parseURI` over the parts, and the constructor.
pub mod Parsed
pub mod Total
use servus.Prelude.{
  ℕ, zero, suc, ◌+◌, Bool, true, false, ◌&&◌, ◌||◌, not, List, [], ◌∷◌, map, ltb, leb, ◌==◌,
  if◌then◌else◌, is_empty,
}
use servus.Bytes.{Bytes, codes, contains}
use servus.Bytes.Order.{str_eq}
use servus.Uri.Data.{UriData, empty}
use servus.Uri.Outcome.{
  Outcome, ok, throw, abort, no_fuel, invalid_argument, uri_parse, throw_if, ◌>>=◌, ◌>>◌,
}
use servus.Uri.Part.{UriPart, parse_uri_part}
use servus.Uri.Authority.{parse_authority}
use servus.Uri.Query.{parse_query_map}

-- `tolower` and `isalpha` of the C locale.
unfoldable pub to_lower : ℕ → ℕ
to_lower c = if leb b'A' c && leb c b'Z' then c + 32 else c

unfoldable pub is_alpha : ℕ → Bool
is_alpha c = (leb b'a' c && leb c b'z') || (leb b'A' c && leb c b'Z')

abbrev pub scheme_chars : Bytes
scheme_chars = codes "abcdefghijlkmnopqrstuvwxyz0123456789+-."

unfoldable pub all_in : Bytes → Bytes → Bool
all_in chars [] = true
all_in chars (c ∷ s) = contains chars c && all_in chars s

-- The test of the scheme: empty, or a letter followed by characters of schemes.
unfoldable pub valid_scheme : Bytes → Bool
unfolding all_in is_alpha
valid_scheme [] = true
valid_scheme (c ∷ s) = is_alpha c && all_in scheme_chars s

abbrev pub Progress : Type 0
Progress = UriPart × Bytes × UriData

-- One round of the loop.
unfoldable pub parse_step : UriPart → Bytes → UriData → Outcome Progress
parse_step UriPart.scheme input data' = do
  (raw, rest) ← parse_uri_part UriPart.scheme input
  let scheme = map to_lower raw
  throw_if (not (valid_scheme scheme)) invalid_argument
  ok (
    (if str_eq scheme (codes "file") || is_empty scheme then UriPart.path else UriPart.authority),
    rest,
    record data' { scheme = scheme },
  )
parse_step UriPart.authority input data' = do
  (authority, rest) ← parse_uri_part UriPart.authority input
  data'' ← (if is_empty authority then ok data' else parse_authority data' authority)
  ok (UriPart.path, rest, data'')
parse_step UriPart.path input data' = do
  (path, rest) ← parse_uri_part UriPart.path input
  ok (UriPart.query, rest, record data' { path = path })
parse_step UriPart.query input data' = do
  (query, rest) ← parse_uri_part UriPart.query input
  data'' ← parse_query_map (record data' { query = query })
  ok (UriPart.fragment, rest, data'')
parse_step UriPart.fragment input data' = do
  (fragment, rest) ← parse_uri_part UriPart.fragment input
  ok (UriPart.fragment, rest, record data' { fragment = fragment })

-- The loop `while (!input.empty())`.
unfoldable pub parse_loop : ℕ → UriPart → Bytes → UriData → Outcome UriData
parse_loop fuel part [] data' = ok data'
parse_loop zero part (c ∷ s) data' = no_fuel
parse_loop (suc fuel) part (c ∷ s) data' = elim (parse_step part (c ∷ s) data') [
  | ok (part', rest, data'') ↦ parse_loop fuel part' rest data''
  | throw e ↦ throw e
  | abort ↦ abort
  | no_fuel ↦ no_fuel
]

-- `catch (...) { throw uri_parse(uri); }`
unfoldable pub rethrow : Bytes → Outcome UriData → Outcome UriData
rethrow uri (throw e) = throw (uri_parse uri)
rethrow uri outcome = outcome

-- The constructor from a string. Each part takes one round, so the fuel is five.
unfoldable pub make_uri : Bytes → Outcome UriData
unfolding rethrow
make_uri [] = ok empty
make_uri (c ∷ s) = rethrow (c ∷ s) (parse_loop 5 UriPart.scheme (c ∷ s) empty)
