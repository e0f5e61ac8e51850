-- ===== src/Service/ErrorText.antt =====
-- `Servus::Result::getString` (servus/servus.cpp) in a build with DNSServiceDiscovery. The codes are
-- those of its header, so they are an argument.
use servus.Prelude.{ℕ, List, [], ◌∷◌, Option, none, some, if◌then◌else◌}
use servus.Prelude.Int.{ℤ}
use servus.Bytes.{Bytes, codes}
use servus.Service.Result.{code_eq, get_string}

pub data DnssdError : Type 0 where
  unknown no_such_name no_memory bad_param bad_reference bad_state : DnssdError
  bad_flags unsupported not_initialized already_registered name_conflict invalid : DnssdError
  firewall incompatible bad_interface_index refused no_such_record no_auth : DnssdError
  no_such_key nat_traversal double_nat bad_time : DnssdError

unfoldable pub text : DnssdError → Bytes
text unknown = codes "unknown error"
text no_such_name = codes "name not found"
text no_memory = codes "out of memory"
text bad_param = codes "bad parameter"
text bad_reference = codes "bad reference"
text bad_state = codes "bad state"
text bad_flags = codes "bad flags"
text unsupported = codes "unsupported"
text not_initialized = codes "not initialized"
text already_registered = codes "already registered"
text name_conflict = codes "name conflict"
text invalid = codes "invalid value"
text firewall = codes "firewall"
text incompatible = codes "client library incompatible with daemon"
text bad_interface_index = codes "bad interface index"
text refused = codes "refused"
text no_such_record = codes "no such record"
text no_auth = codes "no authentication"
text no_such_key = codes "no such key"
text nat_traversal = codes "NAT traversal"
text double_nat = codes "double NAT"
text bad_time = codes "bad time"

abbrev pub all_errors : List DnssdError
all_errors =
    unknown ∷ no_such_name ∷ no_memory ∷ bad_param ∷ bad_reference ∷ bad_state ∷ bad_flags
    ∷ unsupported ∷ not_initialized ∷ already_registered ∷ name_conflict ∷ invalid ∷ firewall
    ∷ incompatible ∷ bad_interface_index ∷ refused ∷ no_such_record ∷ no_auth ∷ no_such_key
    ∷ nat_traversal ∷ double_nat ∷ bad_time ∷ []

-- The case of the `switch` that the code meets.
unfoldable pub find_error : (DnssdError → ℤ) → ℤ → List DnssdError → Option DnssdError
unfolding code_eq
find_error code_of code [] = none
find_error code_of code (e ∷ es) =
    let rest = find_error code_of code es in if code_eq code (code_of e) then some e else rest

unfoldable pub get_string_dnssd : (DnssdError → ℤ) → (ℕ → Bytes) → ℤ → Bytes
unfolding find_error text get_string
get_string_dnssd code_of strerror code = elim (find_error code_of code all_errors) [
  | some e ↦ text e
  | none ↦ get_string strerror code
]
