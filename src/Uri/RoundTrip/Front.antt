-- ===== src/Uri/RoundTrip/Front.antt =====
-- The rounds of the parser on the printed authority.
use servus.Prelude.{
  ℕ, suc, ◌<◌, ◌^◌, false, [], ◌∷◌, ◌++◌, ◌≡◌, ◌∙◌, refl, sym, arith, ap, length, is_empty,
  if◌then◌else◌,
}
use servus.Bytes.{Bytes, contains}
use servus.Bytes.Find.{Misses}
use servus.Uri.Data.{UriData}
use servus.Uri.Outcome.{ok}
use servus.Uri.Part.{UriPart, parse_uri_part, separator_pos}
use servus.Uri.Part.Cuts.{
  ends_authority, ends_path, ends_query, EmptyOr, empty_part, authority_part,
}
use servus.Uri.Authority.{parse_authority, is_at, is_colon}
use servus.Uri.Parse.{parse_step, parse_loop}
use servus.Uri.Parse.Total.{loop-nil}
use servus.Uri.RoundTrip.Authority.{
  user_text, port_text, parse_authority-text, authority_text-Misses,
}
use servus.Uri.RoundTrip.Stages.{back_text, loop_next, is_slash, blank, with_rest, path_stage}

-- The text of a path and of what is behind it begins like the end of an authority.
behind-EmptyOr : (p q f : Bytes) → EmptyOr is_slash p → EmptyOr ends_authority (p ++ back_text q f)
unfolding contains
behind-EmptyOr [] [] [] h = tt
behind-EmptyOr [] [] (c ∷ f) h = refl
behind-EmptyOr [] (c ∷ q) f h = refl
behind-EmptyOr (c ∷ p) q f h = ground arith

-- Data with a scheme and nothing else.
abbrev pub fresh : UriData → UriData
fresh d = record (blank d) { userinfo = []; host = []; port = 0 }

authority_step_at :
    (s a rest : Bytes) (d d' : UriData)
    → parse_uri_part UriPart.authority s ≡ ok (a, rest)
    → (if is_empty a then ok d else parse_authority d a) ≡ ok d'
    → parse_step UriPart.authority s d ≡ ok (UriPart.path, rest, d')
unfolding parse_step
authority_step_at s a rest d d' e f = rw (e, f)

no_authority_from :
    (fuel : ℕ) (d : UriData) (p q f s : Bytes)
    → s ≡ p ++ back_text q f
    → EmptyOr ends_authority s
    → Misses ends_path p
    → Misses ends_query q
    → parse_loop (suc (suc (suc (suc fuel)))) UriPart.authority s (fresh d)
      ≡ ok (with_rest (fresh d) p q f)
no_authority_from fuel d p q f [] e st mp mq =
    loop-nil (suc (suc (suc (suc fuel)))) UriPart.authority (fresh d)
    ∙ sym (loop-nil (suc (suc (suc fuel))) UriPart.path (fresh d))
    ∙ ap (λ t. parse_loop (suc (suc (suc fuel))) UriPart.path t (fresh d)) e
    ∙ path_stage fuel (fresh d) p q f mp mq
no_authority_from fuel d p q f (c ∷ s) e st mp mq =
    loop_next (suc (suc (suc fuel))) UriPart.authority UriPart.path (c ∷ s) (c ∷ s) (fresh d)
      (fresh d) refl
      (authority_step_at (c ∷ s) [] (c ∷ s) (fresh d) (fresh d)
        (empty_part UriPart.authority ends_authority (c ∷ s) (unfold separator_pos in refl) st)
        refl)
    ∙ ap (λ t. parse_loop (suc (suc (suc fuel))) UriPart.path t (fresh d)) e
    ∙ path_stage fuel (fresh d) p q f mp mq

-- A URI without a host.
pub no_authority_stage :
    (fuel : ℕ) (d : UriData) (p q f : Bytes)
    → EmptyOr is_slash p
    → Misses ends_path p
    → Misses ends_query q
    → parse_loop (suc (suc (suc (suc fuel)))) UriPart.authority (p ++ back_text q f) (fresh d)
      ≡ ok (with_rest (fresh d) p q f)
no_authority_stage fuel d p q f sl mp mq =
    no_authority_from fuel d p q f (p ++ back_text q f) refl (behind-EmptyOr p q f sl) mp mq

-- What is printed of an authority with a host.
abbrev pub authority_text : Bytes → Bytes → ℕ → Bytes
authority_text u h n = user_text u ++ (h ++ port_text n)

text_nonempty : (u h : Bytes) (n : ℕ) → is_empty h ≡ false → 0 < length (authority_text u h n)
text_nonempty [] [] n some = cc
text_nonempty [] (c ∷ h) n some = omega arith
text_nonempty (c ∷ u) h n some = omega arith

pub nonempty_append : (a b : Bytes) → 0 < length a → is_empty (a ++ b) ≡ false
nonempty_append [] b h = absurd (omega arith)
nonempty_append (c ∷ a) b h = refl

pub nonempty : (a : Bytes) → 0 < length a → is_empty a ≡ false
nonempty [] h = absurd (omega arith)
nonempty (c ∷ a) h = refl

-- A URI with a host.
pub authority_stage :
    (fuel : ℕ) (d : UriData) (u h : Bytes) (n : ℕ) (p q f : Bytes)
    → Misses ends_authority u
    → Misses is_at u
    → Misses ends_authority h
    → Misses is_at h
    → Misses is_colon h
    → is_empty h ≡ false
    → n < 2 ^ 16
    → EmptyOr is_slash p
    → Misses ends_path p
    → Misses ends_query q
    → parse_loop
        (suc (suc (suc (suc fuel))))
        UriPart.authority
        (authority_text u h n ++ (p ++ back_text q f))
        (fresh d)
      ≡ ok (with_rest (record (fresh d) { userinfo = u; host = h; port = n }) p q f)
authority_stage fuel d u h n p q f ue ua he ha hc some range sl mp mq =
    let a : Bytes = authority_text u h n in
    let rest : Bytes = p ++ back_text q f in
    let d' : UriData = record (fresh d) { userinfo = u; host = h; port = n } in
    let some' : 0 < length a = text_nonempty u h n some in
    loop_next (suc (suc (suc fuel))) UriPart.authority UriPart.path (a ++ rest) rest (fresh d) d'
      (nonempty_append a rest some')
      (authority_step_at (a ++ rest) a rest (fresh d) d'
        (authority_part a rest (authority_text-Misses u h n ue he) (behind-EmptyOr p q f sl) some')
        (rw (nonempty a some')
          (parse_authority-text (fresh d) u h n refl refl ua ha hc some range)))
    ∙ path_stage fuel d' p q f mp mq
