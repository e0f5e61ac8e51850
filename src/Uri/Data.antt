-- ===== src/Uri/Data.antt =====
-- `URIData`, its comparison, the setters, and the two printers of a URI.
use servus.Prelude.{ℕ, Bool, true, false, ◌&&◌, not, [], ◌∷◌, ◌++◌, ◌==◌, if◌then◌else◌, is_empty}
use servus.Bytes.{Bytes, codes}
use servus.Bytes.Order.{str_eq}
use servus.StdMap.{StdMap}
use servus.Strto.{print_decimal}

pub record UriData : Type 0 where
  pub scheme : Bytes
  pub userinfo : Bytes
  pub host : Bytes
  pub port : ℕ
  pub path : Bytes
  pub query : Bytes
  pub fragment : Bytes
  pub query_map : StdMap Bytes

abbrev pub empty : UriData
empty = record {
  scheme = [];
  userinfo = [];
  host = [];
  port = 0;
  path = [];
  query = [];
  fragment = [];
  query_map = [];
}

-- Equality of the maps: the same keys with the same values, in order.
unfoldable pub map_eq : StdMap Bytes → StdMap Bytes → Bool
map_eq [] [] = true
map_eq [] (e ∷ m) = false
map_eq (e ∷ l) [] = false
map_eq ((k, v) ∷ l) ((j, w) ∷ m) = str_eq k j && str_eq v w && map_eq l m

unfoldable pub eq : UriData → UriData → Bool
eq a b =
    str_eq a.userinfo b.userinfo
    && str_eq a.host b.host
    && a.port == b.port
    && str_eq a.path b.path
    && str_eq a.query b.query
    && str_eq a.fragment b.fragment
    && map_eq a.query_map b.query_map

unfoldable pub ne : UriData → UriData → Bool
unfolding eq
ne a b = not (eq a b)

unfoldable pub set_scheme : UriData → Bytes → UriData
set_scheme d s = record d { scheme = s }

unfoldable pub set_user_info : UriData → Bytes → UriData
set_user_info d s = record d { userinfo = s }

unfoldable pub set_host : UriData → Bytes → UriData
set_host d s = record d { host = s }

unfoldable pub set_port : UriData → ℕ → UriData
set_port d n = record d { port = n }

unfoldable pub set_path : UriData → Bytes → UriData
set_path d s = record d { path = s }

unfoldable pub set_fragment : UriData → Bytes → UriData
set_fragment d s = record d { fragment = s }

-- `getAuthority`.
unfoldable pub get_authority : UriData → Bytes
get_authority d =
    (if is_empty d.userinfo then [] else d.userinfo ++ codes "@")
    ++ (d.host ++ (if d.port == 0 then [] else b':' ∷ print_decimal d.port))

-- The authority as `operator<<` writes it: nothing where there is no host.
unfoldable pub printed_authority : UriData → Bytes
printed_authority d =
    if is_empty d.host
    then []
    else (if is_empty d.userinfo then [] else d.userinfo ++ codes "@")
      ++ (d.host ++ (if d.port == 0 then [] else b':' ∷ print_decimal d.port))

-- `operator<<`.
unfoldable pub print : UriData → Bytes
print d =
    (if is_empty d.scheme then [] else d.scheme ++ codes "://")
    ++ (printed_authority d
        ++ (d.path
            ++ ((if is_empty d.query then [] else b'?' ∷ d.query)
                ++ (if is_empty d.fragment then [] else b'#' ∷ d.fragment))))
