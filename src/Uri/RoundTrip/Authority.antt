-- ===== src/Uri/RoundTrip/Authority.antt =====
-- The printed authority is read back as userinfo, host and port.
use servus.Prelude.{
  ◌%◌, ℕ, ◌^◌, ◌<◌, Bool, false, [], ◌∷◌, ◌++◌, ◌≡◌, ◌∙◌, refl, sym, arith, ap, All, All-append,
  length, is_empty, Bool-cases, inl, inr, ◌==◌, ==_iff, if◌then◌else◌, append_assoc, append-nil,
  take-length_append, drop-suc-length_append,
}
use servus.Bytes.{Bytes, codes, contains}
use servus.Bytes.Find.{Misses, find_first_of-miss, find_first_of-hit}
use servus.Strto.{print_decimal}
use servus.Strto.Digits.{IsDecimal, print_decimal-IsDecimal}
use servus.Strto.Scan.{strtol10-print_decimal, length-print_decimal}
use servus.Uri.Data.{UriData}
use servus.Uri.Outcome.{ok}
use servus.Uri.Part.Cuts.{ends_authority}
use servus.Uri.Authority.{parse_authority, parse_host, parse_port, is_at, is_colon}

-- What follows from the characters holds of the text.
All-imp :
    (P : ℕ → Type 0) (p : ℕ → Bool)
    → ((c : ℕ) → P c → p c ≡ false)
    → (s : Bytes) → All P s
    → Misses p s
All-imp P p imp [] h = tt
All-imp P p imp (c ∷ s) h = (imp c h.0, All-imp P p imp s h.1)

abbrev pub user_text : Bytes → Bytes
user_text u = if is_empty u then [] else u ++ codes "@"

abbrev pub port_text : ℕ → Bytes
port_text n = if n == 0 then [] else b':' ∷ print_decimal n

port_text-Misses :
    (p : ℕ → Bool)
    → p b':' ≡ false
    → ((c : ℕ) → IsDecimal c → p c ≡ false)
    → (n : ℕ) → Misses p (port_text n)
port_text-Misses p colon imp n = elim (Bool-cases (n == 0)) [
  | inl none ↦ rw none tt
  | inr some ↦ rw some (colon, All-imp IsDecimal p imp _ (print_decimal-IsDecimal n))
]

nonempty : (s : Bytes) → 0 < length s → is_empty s ≡ false
nonempty [] h = absurd (omega arith)
nonempty (c ∷ s) h = refl

-- Every printed number below 2 ^ 63 is accepted as a port, which is the number modulo 2 ^ 16.
pub parse_port-print_decimal : (n : ℕ) → n < 2 ^ 63 → parse_port (print_decimal n) ≡ ok (n % 2 ^ 16)
unfolding parse_port
parse_port-print_decimal n h =
    rw (nonempty (print_decimal n) (length-print_decimal n), strtol10-print_decimal n h) refl

-- A port number in range is read back.
port_back : (n : ℕ) → n < 2 ^ 16 → parse_port (print_decimal n) ≡ ok n
port_back n h = parse_port-print_decimal n (omega arith) ∙ ap ok (omega arith)

parse_host-port :
    (d : UriData) (h : Bytes) (n : ℕ)
    → Misses is_colon h
    → is_empty h ≡ false
    → n < 2 ^ 16
    → parse_host d (h ++ b':' ∷ print_decimal n) ≡ ok (record d { host = h; port = n })
unfolding parse_host
parse_host-port d h n m some range = rw (
  find_first_of-hit is_colon h (b':' ∷ print_decimal n) m refl,
  parse_host,
  drop-suc-length_append h b':' (print_decimal n),
  take-length_append h (b':' ∷ print_decimal n),
  port_back n range,
  some,
)

-- Host and port as they are printed, the port left out where it is zero.
parse_host-text :
    (d : UriData) (h : Bytes) (n : ℕ)
    → d.port ≡ 0
    → Misses is_colon h
    → is_empty h ≡ false
    → n < 2 ^ 16
    → parse_host d (h ++ port_text n) ≡ ok (record d { host = h; port = n })
parse_host-text d h n fresh m some range = elim (Bool-cases (n == 0)) [
  | inl none ↦
      rw (none, append-nil h)
        (unfold parse_host in
          rw (find_first_of-miss is_colon h m, parse_host, some)
            (ap (λ p. ok (record d { host = h; port = p })) (fresh ∙ sym ((==_iff n 0).0 none))))
  | inr port ↦ rw port (parse_host-port d h n m some range)
]

not_at : (c : ℕ) → IsDecimal c → is_at c ≡ false
not_at c h = ground arith

host_text-Misses : (h : Bytes) (n : ℕ) → Misses is_at h → Misses is_at (h ++ port_text n)
host_text-Misses h n m =
    All-append (λ c. is_at c ≡ false) h (port_text n) m (port_text-Misses is_at refl not_at n)

parse_authority-no_user :
    (d : UriData) (h : Bytes) (n : ℕ)
    → d.port ≡ 0
    → Misses is_at h
    → Misses is_colon h
    → is_empty h ≡ false
    → n < 2 ^ 16
    → parse_authority d (h ++ port_text n) ≡ ok (record d { host = h; port = n })
unfolding parse_authority
parse_authority-no_user d h n fresh ma mc some range =
    rw (find_first_of-miss is_at (h ++ port_text n) (host_text-Misses h n ma), parse_authority)
      (parse_host-text d h n fresh mc some range)

-- The printed authority, on data that has none yet.
pub parse_authority-text :
    (d : UriData) (u h : Bytes) (n : ℕ)
    → d.userinfo ≡ []
    → d.port ≡ 0
    → Misses is_at u
    → Misses is_at h
    → Misses is_colon h
    → is_empty h ≡ false
    → n < 2 ^ 16
    → parse_authority d (user_text u ++ (h ++ port_text n))
      ≡ ok (record d { userinfo = u; host = h; port = n })
parse_authority-text d [] h n nouser fresh mu ma mc some range =
    parse_authority-no_user d h n fresh ma mc some range
    ∙ ap (λ u. ok (record d { userinfo = u; host = h; port = n })) nouser
parse_authority-text d (c ∷ u) h n nouser fresh mu ma mc some range =
    (let rest : Bytes = h ++ port_text n in
      rw (append_assoc (c ∷ u) (codes "@") rest) (
        unfold parse_authority in
        rw
          (
            find_first_of-hit is_at (c ∷ u) (b'@' ∷ rest) mu refl,
            parse_authority,
            take-length_append u (b'@' ∷ rest),
            drop-suc-length_append u b'@' rest,
          )
          (parse_host-text (record d { userinfo = c ∷ u }) h n fresh mc some range)))

not_end : (c : ℕ) → IsDecimal c → ends_authority c ≡ false
unfolding contains
not_end c h = ground arith

user_text-Misses : (u : Bytes) → Misses ends_authority u → Misses ends_authority (user_text u)
unfolding contains
user_text-Misses [] h = tt
user_text-Misses (c ∷ u) h =
    All-append (λ x. ends_authority x ≡ false) (c ∷ u) (codes "@") h (refl, tt)

-- The printed authority holds no character that ends it.
pub authority_text-Misses :
    (u h : Bytes) (n : ℕ)
    → Misses ends_authority u
    → Misses ends_authority h
    → Misses ends_authority (user_text u ++ (h ++ port_text n))
authority_text-Misses u h n mu mh =
    let P : ℕ → Type 0 = λ c. ends_authority c ≡ false in
    All-append P (user_text u) (h ++ port_text n) (user_text-Misses u mu) (
      All-append P h (port_text n) mh
        (port_text-Misses ends_authority (unfold contains in refl) not_end n))
