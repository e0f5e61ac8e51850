-- ===== src/Uri/Authority.antt =====
-- `_parseAuthority`: userinfo, host and port.
use servus.Prelude.{
  ℕ, suc, ◌^◌, Bool, ◌||◌, not, ◌++◌, none, some, ◌==◌, if◌then◌else◌, take, drop, is_empty,
}
use servus.Prelude.Int.{wrap}
use servus.Bytes.{Bytes, codes, find_first_of}
use servus.Strto.{strtol10}
use servus.Uri.Data.{UriData}
use servus.Uri.Outcome.{Outcome, ok, throw, runtime_error, invalid_argument, throw_if, ◌>>=◌, ◌>>◌}

abbrev pub is_at : ℕ → Bool
is_at c = c == b'@'

abbrev pub is_colon : ℕ → Bool
is_colon c = c == b':'

-- The port number of a text: what `strtol` reads, stored in a `uint16_t`. Not a number, or not
-- only a number, is an error.
unfoldable pub parse_port : Bytes → Outcome ℕ
parse_port port =
    let (value, end) = strtol10 port in
    if is_empty port || not (is_empty end)
    then throw (runtime_error (port ++ codes " is not a valid port number"))
    else ok (wrap (2 ^ 16) value)

-- The text behind the userinfo, from `hostPos` on: host, and port behind a colon.
unfoldable pub parse_host : UriData → Bytes → Outcome UriData
unfolding find_first_of
parse_host data' rest = elim (find_first_of is_colon rest) [
  | none ↦ do throw_if (is_empty rest) invalid_argument; ok (record data' { host = rest })
  | some colon ↦ do
    port ← parse_port (drop (suc colon) rest)
    throw_if (is_empty (take colon rest)) invalid_argument
    ok (record data' { port = port; host = take colon rest })
]

unfoldable pub parse_authority : UriData → Bytes → Outcome UriData
unfolding find_first_of
parse_authority data' auth = elim (find_first_of is_at auth) [
  | none ↦ parse_host data' auth
  | some at ↦ parse_host (record data' { userinfo = take at auth }) (drop (suc at) auth)
]
