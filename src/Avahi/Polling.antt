-- ===== src/Avahi/Polling.antt =====
-- The loop of `browse`: when it ends, and with which result.
use servus.Prelude.{
  ℕ, suc, ◌+◌, ◌<◌, ◌≤◌, Bool, true, false, not, ◌&&◌, List, [], ◌∷◌, ◌++◌, ◌≡◌, ◌⊎◌, inl, inr,
  refl, sym, ◌∙◌, ap, subst, arith, if◌then◌else◌, ltb, ltb→lt, lt→ltb, Bool-cases,
}
use servus.Prelude.Int.{ℤ}
use servus.Bytes.{Bytes}
use servus.Service.Result.{success, pending, poll_error, code_eq}
use servus.Avahi.{
  AvahiService, Answers, s_running, failure, s_collision, s_registering, connecting, Callback,
  client_callback, browse_callback, resolve_callback, group_callback, Round, Outcome, returned,
  thrown, waiting, after,
}
use servus.Avahi.Callbacks.{on_callback, on_client}
use servus.Avahi.Operations.{before, count_error, run_callbacks, browse_loop, settle, browse}

-- A call that has ended, by returning or throwing.
abbrev pub IsEnded : {A : Type 0} → Outcome A → Type 0
IsEnded (returned s a) = Unit
IsEnded (thrown s) = Unit
IsEnded waiting = ⊥

ge→not_ltb : (a b : ℕ) → b ≤ a → ltb a b ≡ false
ge→not_ltb a b h = ground arith

abbrev failures : List Round → ℕ
failures [] = 0
failures (r ∷ rs) = (if r.failed then 1 else 0) + failures rs

-- Rounds in which nothing is called back, and behind which there is time left.
abbrev pub IsQuiet : ℤ → List Round → Type 0
IsQuiet timeout [] = Unit
IsQuiet timeout (r ∷ rs) =
    (r.callbacks ≡ []) × (before r.elapsed timeout ≡ true) × IsQuiet timeout rs

module _ (add_pair : List Bytes → Bytes → Bytes → List Bytes) where
  after-IsEnded :
      {A B : Type 0} (o : Outcome A) (next : AvahiService → Outcome B)
      → IsEnded o
      → ((t : AvahiService) → IsEnded (next t))
      → IsEnded (after o next)
  after-IsEnded (returned t a) next h go = go t
  after-IsEnded (thrown t) next h go = tt
  after-IsEnded waiting next h go = h

  on_callback-IsEnded :
      (c : Callback) (a : Answers) (s : AvahiService) → IsEnded (on_callback add_pair c a s)
  unfolding on_callback on_client
  on_callback-IsEnded (client_callback s_running) a s = tt
  on_callback-IsEnded (client_callback failure) a s = tt
  on_callback-IsEnded (client_callback s_collision) a s = tt
  on_callback-IsEnded (client_callback s_registering) a s = tt
  on_callback-IsEnded (client_callback connecting) a s = tt
  on_callback-IsEnded (browse_callback e) a s = tt
  on_callback-IsEnded (resolve_callback l e) a s = tt
  on_callback-IsEnded (group_callback g) a s = tt

  run_callbacks-IsEnded :
      (cs : List (Callback × Answers)) (s : AvahiService) → IsEnded (run_callbacks add_pair cs s)
  unfolding run_callbacks
  run_callbacks-IsEnded [] s = tt
  run_callbacks-IsEnded ((c, a) ∷ cs) s =
      after-IsEnded (on_callback add_pair c a s) (λ t. run_callbacks add_pair cs t)
        (on_callback-IsEnded c a s) (run_callbacks-IsEnded cs)

  either-IsEnded :
      {A : Type 0} (b : Bool) (x y : Outcome A)
      → IsEnded x
      → IsEnded y
      → IsEnded (if b then x else y)
  either-IsEnded true x y hx hy = hx
  either-IsEnded false x y hx hy = hy

  browse_loop-IsEnded :
      (timeout : ℤ) (errors : ℕ) (xs ys : List Round) (r : Round) (s : AvahiService)
      → before r.elapsed timeout ≡ false
      → IsEnded (browse_loop add_pair timeout errors (xs ++ r ∷ ys) s)
  unfolding browse_loop
  browse_loop-IsEnded timeout errors [] ys r s late =
      after-IsEnded (run_callbacks add_pair r.callbacks s) _ (run_callbacks-IsEnded r.callbacks s)
        λ t.
          let next = count_error r errors in
          either-IsEnded (r.failed && not (ltb next 10))
            (returned (record t { result = poll_error }) tt)
            (if before r.elapsed timeout
              then browse_loop add_pair timeout next ys t
              else returned t tt)
            tt (rw late tt)
  browse_loop-IsEnded timeout errors (x ∷ xs) ys r s late =
      after-IsEnded (run_callbacks add_pair x.callbacks s) _ (run_callbacks-IsEnded x.callbacks s)
        λ t.
          let next = count_error x errors in
          let rest : Outcome (Unit {0}) = browse_loop add_pair timeout next (xs ++ r ∷ ys) t in
          either-IsEnded (x.failed && not (ltb next 10))
            (returned (record t { result = poll_error }) tt)
            (if before x.elapsed timeout then rest else returned t tt) tt
            (either-IsEnded (before x.elapsed timeout) rest (returned t tt)
              (browse_loop-IsEnded timeout next xs ys r t late) tt)

  settle-IsEnded : (o : Outcome (Unit {0})) → IsEnded o → IsEnded (settle add_pair o)
  settle-IsEnded (returned s _) h = tt
  settle-IsEnded (thrown s) h = tt
  settle-IsEnded waiting h = h

  -- `browse` does not poll any further behind a round after which the timeout has passed, whatever is
  -- called back and whichever rounds fail.
  pub browse-IsEnded :
      (timeout : ℤ) (xs ys : List Round) (r : Round) (s : AvahiService)
      → before r.elapsed timeout ≡ false
      → IsEnded (browse add_pair timeout (xs ++ r ∷ ys) s)
  unfolding browse
  browse-IsEnded timeout xs ys r s late =
      settle-IsEnded (browse_loop add_pair timeout 0 (xs ++ r ∷ ys) (record s { result = pending }))
        (browse_loop-IsEnded timeout 0 xs ys r (record s { result = pending }) late)

  abbrev Settled : Outcome ℤ → Type 0
  Settled (returned s code) = (s.result ≡ code) × ((code ≡ success) ⊎ (code ≡ poll_error))
  Settled (thrown s) = Unit
  Settled waiting = Unit

  settle-Settled : (o : Outcome (Unit {0})) → Settled (settle add_pair o)
  settle-Settled (returned s _) = elim (Bool-cases (code_eq s.result poll_error)) [
    | inl polls ↦ rw polls (refl, inr refl)
    | inr other ↦ rw other (refl, inl refl)
  ]
  settle-Settled (thrown s) = tt
  settle-Settled waiting = tt

  -- What `browse` returns is success or the error of the polls, and is stored, whatever errors the
  -- callbacks have stored before.
  pub browse_result :
      (timeout : ℤ) (rs : List Round) (s t : AvahiService) (code : ℤ)
      → browse add_pair timeout rs s ≡ returned t code
      → (t.result ≡ code) × ((code ≡ success) ⊎ (code ≡ poll_error))
  unfolding browse
  browse_result timeout rs s t code e =
      subst Settled e
        (settle-Settled (browse_loop add_pair timeout 0 rs (record s { result = pending })))

  silent_round :
      (timeout : ℤ) (errors : ℕ) (r : Round) (rs : List Round) (s : AvahiService)
      → r.callbacks ≡ []
      → browse_loop add_pair timeout errors (r ∷ rs) s ≡ (
          if r.failed && not (ltb (count_error r errors) 10)
          then returned (record s { result = poll_error }) tt
          else if before r.elapsed timeout
          then browse_loop add_pair timeout (count_error r errors) rs s
          else returned s tt)
  unfolding browse_loop run_callbacks
  silent_round timeout errors r rs s silent = rw (silent, run_callbacks) refl

  -- The state behind the loop, for the number of failures.
  abbrev counted : ℕ → AvahiService → AvahiService
  counted n s = if ltb n 10 then s else record s { result = poll_error }

  counted_few : (n : ℕ) (s : AvahiService) → n < 10 → counted n s ≡ s
  counted_few n s h = rw (lt→ltb n 10 h) refl

  counted_many :
      (n : ℕ) (s : AvahiService) → 10 ≤ n → counted n s ≡ record s { result = poll_error }
  counted_many n s h = rw (ge→not_ltb n 10 h) refl

  -- One round, failed or not, in front of the rest of the loop.
  counted_round :
      (b : Bool) (n m : ℕ) (rest : Outcome (Unit {0})) (s : AvahiService)
      → n < 10
      → ((if b then suc n else n) < 10
          → rest ≡ returned (counted ((if b then suc n else n) + m) s) tt)
      → (if b && not (ltb (if b then suc n else n) 10)
          then returned (record s { result = poll_error }) tt
          else rest)
        ≡ returned (counted (n + ((if b then 1 else 0) + m)) s) tt
  counted_round false n m rest s few go = go few ∙ ap (λ k. returned (counted k s) tt) (omega arith)
  counted_round true n m rest s few go = elim (Bool-cases (ltb (suc n) 10)) [
    | inl more ↦
        rw more (go (ltb→lt (suc n) 10 more) ∙ ap (λ k. returned (counted k s) tt) (omega arith))
    | inr tenth ↦
        rw tenth (ap (λ t. returned t tt) (sym (counted_many (n + (1 + m)) s (ground arith))))
  ]

  settled_count :
      (n : ℕ) (s : AvahiService)
      → settle add_pair (returned (counted n (record s { result = pending })) tt)
        ≡ returned
            (record s { result = if ltb n 10 then success else poll_error })
            (if ltb n 10 then success else poll_error)
  unfolding code_eq
  settled_count n s = elim (Bool-cases (ltb n 10)) [
    | inl few ↦ rw few refl
    | inr many ↦ rw many refl
  ]

  browse_loop-failures :
      (timeout : ℤ) (errors : ℕ) (xs ys : List Round) (r : Round) (s : AvahiService)
      → errors < 10
      → IsQuiet timeout xs
      → r.callbacks ≡ []
      → before r.elapsed timeout ≡ false
      → browse_loop add_pair timeout errors (xs ++ r ∷ ys) s
        ≡ returned (counted (errors + failures (xs ++ r ∷ [])) s) tt
  browse_loop-failures timeout errors [] ys r s few quiet silent late =
      silent_round timeout errors r ys s silent
      ∙ rw late (
          counted_round r.failed errors 0 (returned s tt) s few λ h.
            ap (λ t. returned t tt)
              (sym (counted_few (count_error r errors + 0) s (omega (arith, h)))))
  browse_loop-failures timeout errors (x ∷ xs) ys r s few (none_x, early, quiet) silent late =
      silent_round timeout errors x (xs ++ r ∷ ys) s none_x
      ∙ rw early (
          counted_round x.failed errors (failures (xs ++ r ∷ []))
            (browse_loop add_pair timeout (count_error x errors) (xs ++ r ∷ ys) s) s few
            λ h. browse_loop-failures timeout (count_error x errors) xs ys r s h quiet silent late)

  -- If nothing is called back and the time is over behind the last round, `browse` returns the error
  -- of the polls if ten rounds have failed, and success if fewer have; nothing else changes.
  pub browse-failures :
      (timeout : ℤ) (xs ys : List Round) (r : Round) (s : AvahiService)
      → IsQuiet timeout xs
      → r.callbacks ≡ []
      → before r.elapsed timeout ≡ false
      → let code = if ltb (failures (xs ++ r ∷ [])) 10 then success else poll_error in
        browse add_pair timeout (xs ++ r ∷ ys) s ≡ returned (record s { result = code }) code
  unfolding browse
  browse-failures timeout xs ys r s quiet silent late =
      ap (settle add_pair) (
        browse_loop-failures timeout 0 xs ys r (record s { result = pending }) (omega arith) quiet
          silent late)
      ∙ ap (λ n. settle add_pair (returned (counted n (record s { result = pending })) tt))
          (omega arith)
      ∙ settled_count (failures (xs ++ r ∷ [])) s
