-- ===== src/Uri/Part/Cuts.antt =====
-- What `_parseURIPart` cuts off, for texts whose parts are known.
use servus.Prelude.{
  ℕ, suc, ◌+◌, ◌-◌, ◌≤◌, ◌<◌, Bool, true, false, [], ◌∷◌, ◌++◌, none, some, ◌≡◌, ◌≢◌, refl, arith,
  All, length, take, drop, ◌∙◌, append-nil, take-length_append, drop-length_append, length-append,
  append_assoc, All-append, drop-add_append,
}
use servus.Bytes.{Bytes, codes, contains, find_first_of}
use servus.Bytes.Find.{Misses, Starts, find_first_of-miss, find_first_of-hit, find-scheme_separator}
use servus.Uri.Outcome.{Outcome, ok}
use servus.Uri.Part.{
  UriPart, parse_uri_part, cut, separator_pos, disallowed_before, required_first, skip, post_skip,
  needs_separator,
}

abbrev pub ends_authority : ℕ → Bool
ends_authority = contains (codes "/?#")

abbrev pub ends_path : ℕ → Bool
ends_path = contains (codes "?#")

abbrev pub ends_query : ℕ → Bool
ends_query = contains (codes "#")

-- The text is empty or begins with a byte that passes the test.
abbrev pub EmptyOr : (ℕ → Bool) → Bytes → Type 0
EmptyOr p [] = Unit
EmptyOr p (c ∷ s) = p c ≡ true

-- The three ways through the function, by what the search finds.
pub part_none :
    (part : UriPart) (s : Bytes)
    → separator_pos part s ≡ none
    → needs_separator part ≡ false
    → required_first part s ≡ true
    → skip part ≤ length s
    → parse_uri_part part s ≡ ok (drop (skip part) s, [])
unfolding parse_uri_part cut
part_none part s e needs first room = rw (e, parse_uri_part, needs, first) (ground arith)

pub part_zero :
    (part : UriPart) (s : Bytes)
    → separator_pos part s ≡ some 0
    → parse_uri_part part s ≡ ok ([], s)
unfolding parse_uri_part
part_zero part s e = rw (e, parse_uri_part)

pub part_some :
    (part : UriPart) (s : Bytes) (p : ℕ)
    → separator_pos part s ≡ some (suc p)
    → disallowed_before part s (suc p) ≡ false
    → required_first part s ≡ true
    → skip part ≤ length s
    → suc p + post_skip part ≤ length s
    → parse_uri_part part s
      ≡ ok (take (suc p - skip part) (drop (skip part) s), drop (suc p + post_skip part) s)
unfolding parse_uri_part cut
part_some part s p e allowed first room after =
    rw (e, parse_uri_part, allowed, first) (ground arith)

pub plus_zero : (n : ℕ) → suc n + 0 ≡ suc n
plus_zero n = omega arith

cut_at :
    (a rest : Bytes) (n m : ℕ)
    → n ≡ length a
    → m ≡ length a
    → ◌≡◌ {A = Outcome (Bytes × Bytes)} (ok (take n (a ++ rest), drop m (a ++ rest))) (ok (a, rest))
cut_at a rest n m e f = rw (e, f, take-length_append a rest, drop-length_append a rest)

cut_scheme :
    (a sep rest : Bytes) (n m : ℕ)
    → n ≡ length a
    → m ≡ length a + length sep
    → ◌≡◌ {A = Outcome (Bytes × Bytes)}
        (ok (take n (a ++ (sep ++ rest)), drop m (a ++ (sep ++ rest))))
        (ok (a, rest))
cut_scheme a sep rest n m e f = rw (
  e,
  take-length_append a (sep ++ rest),
  drop-add_append a (sep ++ rest) (length sep) m f,
  drop-length_append sep rest,
)

-- The first character that may not stand in a scheme is the slash of its separator.
disallowed_behind :
    (a rest : Bytes)
    → Misses ends_authority a
    → disallowed_before UriPart.scheme (a ++ (codes "://" ++ rest)) (length a) ≡ false
unfolding disallowed_before contains
disallowed_behind a rest h =
    rw
      (
        ← append_assoc a (b':' ∷ []) (b'/' ∷ b'/' ∷ rest),
        find_first_of-hit ends_authority (a ++ b':' ∷ []) (b'/' ∷ b'/' ∷ rest)
            (All-append (λ c. ends_authority c ≡ false) a (b':' ∷ []) h (refl, tt)) refl,
        disallowed_before,
      )
      (ground (arith, length-append a (b':' ∷ [])))

-- A scheme of characters that end no part is cut off before its separator.
pub scheme_part :
    (a rest : Bytes)
    → Misses ends_authority a
    → All (λ c. c ≢ b':') a
    → 0 < length a
    → parse_uri_part UriPart.scheme (a ++ (codes "://" ++ rest)) ≡ ok (a, rest)
unfolding separator_pos
scheme_part [] rest h colons pos = absurd (omega arith)
scheme_part (x ∷ a) rest h colons pos =
    part_some UriPart.scheme (x ∷ a ++ (codes "://" ++ rest)) (length a)
      (find-scheme_separator (x ∷ a) rest colons) (disallowed_behind (x ∷ a) rest h)
      (unfold required_first in refl) (omega arith)
      (omega (arith, length-append a (codes "://" ++ rest)))
    ∙ cut_scheme (x ∷ a) (codes "://") rest _ _ (omega arith) (omega arith)

-- An authority that is followed by nothing or by the end of an authority.
pub authority_part :
    (a rest : Bytes)
    → Misses ends_authority a
    → EmptyOr ends_authority rest
    → 0 < length a
    → parse_uri_part UriPart.authority (a ++ rest) ≡ ok (a, rest)
unfolding separator_pos disallowed_before required_first
authority_part [] rest h st pos = absurd (omega arith)
authority_part (x ∷ a) [] h st pos = rw (append-nil a) (
    part_none UriPart.authority (x ∷ a) (find_first_of-miss ends_authority (x ∷ a) h) refl refl
      (omega arith))
authority_part (x ∷ a) (c ∷ rest) h st pos =
    part_some UriPart.authority (x ∷ a ++ c ∷ rest) (length a)
      (find_first_of-hit ends_authority (x ∷ a) (c ∷ rest) h st) refl refl (omega arith)
      (omega (arith, length-append a (c ∷ rest)))
    ∙ cut_at (x ∷ a) (c ∷ rest) _ _ (omega arith) (omega arith)

-- A path that is followed by nothing, a query or a fragment.
pub path_part :
    (a rest : Bytes)
    → Misses ends_path a
    → EmptyOr ends_path rest
    → 0 < length a
    → parse_uri_part UriPart.path (a ++ rest) ≡ ok (a, rest)
unfolding separator_pos disallowed_before required_first
path_part [] rest h st pos = absurd (omega arith)
path_part (x ∷ a) [] h st pos = rw (append-nil a) (
    part_none UriPart.path (x ∷ a) (find_first_of-miss ends_path (x ∷ a) h) refl refl (omega arith))
path_part (x ∷ a) (c ∷ rest) h st pos =
    part_some UriPart.path (x ∷ a ++ c ∷ rest) (length a)
      (find_first_of-hit ends_path (x ∷ a) (c ∷ rest) h st) refl refl (omega arith)
      (omega (arith, length-append a (c ∷ rest)))
    ∙ cut_at (x ∷ a) (c ∷ rest) _ _ (omega arith) (omega arith)

-- A query behind its question mark, followed by nothing or by a fragment.
pub query_part :
    (a rest : Bytes)
    → Misses ends_query a
    → EmptyOr ends_query rest
    → parse_uri_part UriPart.query (b'?' ∷ (a ++ rest)) ≡ ok (a, rest)
unfolding separator_pos disallowed_before required_first
query_part a [] h st = rw (append-nil a) (
    part_none UriPart.query (b'?' ∷ a) (find_first_of-miss ends_query (b'?' ∷ a) (refl, h)) refl
      refl (omega arith))
query_part a (c ∷ rest) h st =
    part_some UriPart.query (b'?' ∷ (a ++ c ∷ rest)) (length a)
      (find_first_of-hit ends_query (b'?' ∷ a) (c ∷ rest) (refl, h) st) refl refl (omega arith)
      (omega (arith, length-append a (c ∷ rest)))
    ∙ rw (plus_zero (length a)) (cut_at a (c ∷ rest) _ _ (omega arith) refl)

-- A part that begins with the character that ends it is empty, and nothing is used up.
pub empty_part :
    (part : UriPart) (p : ℕ → Bool) (s : Bytes)
    → separator_pos part s ≡ find_first_of p s
    → Starts p s
    → parse_uri_part part s ≡ ok ([], s)
empty_part part p s e st = part_zero part s (e ∙ find_first_of-hit p [] s tt st)

nowhere_in_fragment : (s : Bytes) → find_first_of (contains []) s ≡ none
unfolding find_first_of contains
nowhere_in_fragment [] = refl
nowhere_in_fragment (c ∷ s) = rw (nowhere_in_fragment s)

-- A fragment takes all that is left, behind its first character.
pub fragment_part : (f : Bytes) → parse_uri_part UriPart.fragment (b'#' ∷ f) ≡ ok (f, [])
unfolding separator_pos required_first
fragment_part f =
    part_none UriPart.fragment (b'#' ∷ f) (nowhere_in_fragment (b'#' ∷ f)) refl refl (omega arith)
