-- ===== src/Uri/Part.antt =====
-- `_parseURIPart`: the next part of a URI is cut off the front of the input.
pub mod Cuts
pub mod Ends
use servus.Prelude.{
  ℕ, ◌+◌, ◌-◌, Bool, true, false, ◌&&◌, ◌||◌, [], ◌∷◌, Option, none, some, ◌==◌, ltb, leb,
  if◌then◌else◌, length, take, drop,
}
use servus.Bytes.{Bytes, codes, contains, find, find_first_of}
use servus.Uri.Outcome.{Outcome, ok, throw, out_of_range, assert, ◌>>=◌, ◌>>◌}

pub data UriPart : Type 0 where
  scheme authority path query fragment : UriPart

-- The tables of the function, indexed by the part.
unfoldable pub separator_pos : UriPart → Bytes → Option ℕ
unfolding find find_first_of contains
separator_pos scheme s = find s (codes "://")
separator_pos authority s = find_first_of (contains (codes "/?#")) s
separator_pos path s = find_first_of (contains (codes "?#")) s
separator_pos query s = find_first_of (contains (codes "#")) s
separator_pos fragment s = find_first_of (contains (codes "")) s

abbrev pub needs_separator : UriPart → Bool
needs_separator scheme = true
needs_separator part = false

abbrev pub skip : UriPart → ℕ
skip scheme = 0
skip authority = 0
skip path = 0
skip query = 1
skip fragment = 1

abbrev pub post_skip : UriPart → ℕ
post_skip scheme = 3
post_skip part = 0

-- Whether a character that the part may not hold stands before `pos`.
unfoldable pub disallowed_before : UriPart → Bytes → ℕ → Bool
disallowed_before scheme s pos = elim (find_first_of (contains (codes "/?#")) s) [
  | none ↦ false
  | some i ↦ ltb i pos
]
disallowed_before part s pos = false

-- The condition of the first assertion, for a separator that is not at the front.
unfoldable pub required_first : UriPart → Bytes → Bool
required_first part [] = true
required_first query (c ∷ s) = c == b'?'
required_first fragment (c ∷ s) = c == b'#'
required_first part (c ∷ s) = true

-- `s.substr(from, count)`, with `none` for a count of `npos`.
unfoldable pub substr : Bytes → ℕ → Option ℕ → Outcome Bytes
substr s from count =
    if ltb (length s) from
    then throw out_of_range
    else elim count [ none ↦ ok (drop from s) | some n ↦ ok (take n (drop from s)) ]

-- The way out behind the early returns: the part without what is skipped, and the rest. Where
-- there is no separator the count is `npos - skip`, which is longer than any text.
unfoldable pub cut : UriPart → Bytes → Option ℕ → Outcome (Bytes × Bytes)
unfolding substr
cut part input none = do
  assert (required_first part input)
  assert (leb (skip part) (length input))
  output ← substr input (skip part) none
  ok (output, [])
cut part input (some pos) = do
  assert (required_first part input)
  assert (leb (skip part) (length input))
  output ← substr input (skip part) (some (pos - skip part))
  rest ← substr input (pos + post_skip part) none
  ok (output, rest)

-- The output and what is left of the input.
unfoldable pub parse_uri_part : UriPart → Bytes → Outcome (Bytes × Bytes)
parse_uri_part part input = elim (separator_pos part input) [
  | none ↦ if needs_separator part then ok ([], input) else cut part input none
  | some pos ↦
      if pos == 0 || disallowed_before part input pos
      then ok ([], input)
      else cut part input (some pos)
]
