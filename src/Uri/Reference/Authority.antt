-- ===== src/Uri/Reference/Authority.antt =====
-- What `_parseAuthority` reads is what the reference breaks off.
use servus.Prelude.{ℕ, zero, suc, ◌<◌, ◌≡◌, [], ◌∷◌, refl, arith, length, take, drop}
use servus.Bytes.{Bytes}
use servus.Bytes.Find.{search, nowhere, at}
use servus.Uri.Data.{UriData}
use servus.Uri.Authority.{parse_authority, parse_host, is_at, is_colon}
use servus.Uri.Reference.{break, host_of, authority_of}
use servus.Uri.Reference.Pieces.{break-none, break-some}

behind : (i : ℕ) (s : Bytes) → i < length s → (c : ℕ) × (drop i s ≡ c ∷ drop (suc i) s)
behind i [] h = absurd (omega (arith, h))
behind zero (c ∷ s) h = (c, refl)
behind (suc i) (c ∷ s) h = behind i s (omega (arith, h))

host_read : (d : UriData) (s : Bytes) → parse_host d s ≡ host_of d (break is_colon s)
unfolding parse_host host_of
host_read d s = elim (search is_colon s) [
  | nowhere e m ↦ rw (e, parse_host, break-none is_colon s e) refl
  | at i e lt m st ↦
      let (c, rest) = behind i s lt in rw (e, parse_host, break-some is_colon s i e, rest) refl
]

-- The userinfo, the host and the port of an authority.
pub authority_read :
    (d : UriData) (s : Bytes) → parse_authority d s ≡ authority_of d (break is_at s)
unfolding parse_authority authority_of
authority_read d s = elim (search is_at s) [
  | nowhere e m ↦ rw (e, parse_authority, break-none is_at s e) (host_read d s)
  | at i e lt m st ↦
      let (c, rest) = behind i s lt in
      rw (e, parse_authority, break-some is_at s i e, rest)
        (host_read (record d { userinfo = take i s }) (drop (suc i) s))
]
