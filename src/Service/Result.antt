-- ===== src/Service/Result.antt =====
-- `servus::Result` and `Servus::Result` (servus/result.h, servus/servus.h, servus/servus.cpp), in a
-- build without DNSServiceDiscovery; `Service.ErrorText` adds its texts.
use servus.Prelude.{ℕ, suc, ◌++◌, Bool, true, false, not, ◌==◌, if◌then◌else◌, ◌≡◌, ◌≢◌, ◌↔◌, arith}
use servus.Prelude.Int.{ℤ, pos, negsuc}
use servus.Bytes.{Bytes, codes}
use servus.Strto.{print_decimal}

abbrev pub success : ℤ
success = pos 0

abbrev pub pending : ℤ
pending = negsuc 0

abbrev pub not_supported : ℤ
not_supported = negsuc 1

abbrev pub poll_error : ℤ
poll_error = negsuc 2

unfoldable pub code_eq : ℤ → ℤ → Bool
code_eq (pos a) (pos b) = a == b
code_eq (pos a) (negsuc b) = false
code_eq (negsuc a) (pos b) = false
code_eq (negsuc a) (negsuc b) = a == b

-- The conversion to a truth value, and its negation.
unfoldable pub is_true : ℤ → Bool
unfolding code_eq
is_true code = code_eq code success

unfoldable pub is_error : ℤ → Bool
unfolding code_eq
is_error code = not (code_eq code success)

-- `servus::Result::getString`.
unfoldable pub base_string : ℤ → Bytes
unfolding code_eq
base_string code = if code_eq code success then codes "success" else codes "result"

-- `Servus::Result::getString`. `strerror` is the C library's, so it is an argument.
unfoldable pub get_string : (ℕ → Bytes) → ℤ → Bytes
unfolding code_eq base_string
get_string strerror (pos n) = if n == 0 then base_string (pos n) else strerror n
get_string strerror (negsuc n) =
    if n == 0
    then codes "operation pending"
    else if n == 1
    then codes "Servus compiled without ZeroConf support"
    else if n == 2
    then codes "Error polling for events"
    else base_string (negsuc n)

-- `operator<<` for the text of a result and its code.
unfoldable pub print : Bytes → ℤ → Bytes
print text (pos n) = text ++ (codes " (" ++ (print_decimal n ++ codes ")"))
print text (negsuc n) = text ++ (codes " (-" ++ (print_decimal (suc n) ++ codes ")"))

-- A result is true exactly for the success code and false exactly where it is an error, and only the
-- success code has the text of success, if no message of `strerror` is that text.
pub result_truth :
    (strerror : ℕ → Bytes) (code : ℤ)
    → ((n : ℕ) → strerror n ≢ codes "success")
    → ((is_true code ≡ true) ↔ (code ≡ success))
      × ((is_error code ≡ true) ↔ (is_true code ≡ false))
      × ((get_string strerror code ≡ codes "success") ↔ (code ≡ success))
unfolding get_string is_true is_error
result_truth strerror (pos n) other = (
  (λ h. ground arith, λ h. ground arith),
  (λ h. ground arith, λ h. ground arith),
  (λ h. ground (arith, other n), λ h. ground arith),
)
result_truth strerror (negsuc n) other = (
  (λ h. ground arith, λ h. ground arith),
  (λ h. ground arith, λ h. ground arith),
  (λ h. ground arith, λ h. ground arith),
)
