-- ===== src/Avahi/Survives.antt =====
-- What a property of the service must bear, for the operations that poll to keep it.
use servus.Prelude.{ℕ, Bool, true, false, not, ◌&&◌, List, [], ◌∷◌, if◌then◌else◌, ltb}
use servus.Prelude.Int.{ℤ}
use servus.Bytes.{Bytes}
use servus.Service.Result.{success, pending, poll_error, code_eq}
use servus.Avahi.{AvahiService, Answers, Callback, Round, Outcome, returned, thrown, waiting, after}
use servus.Avahi.Publish.{create_services}
use servus.Avahi.Callbacks.{on_callback}
use servus.Avahi.Operations.{
  run_callbacks, browse_loop, announce, wait_announcable, with_result, is_waiting, renamed,
  count_error, before, settle, browse,
}

-- The state in which a call ends has the property.
abbrev pub Leaves : {A : Type 0} → (AvahiService → Type 0) → Outcome A → Type 0
Leaves P (returned s _) = P s
Leaves P (thrown s) = P s
Leaves P waiting = Unit

module _ (P : AvahiService → Type 0) where
  after-Leaves :
      {A B : Type 0} (o : Outcome A) (next : AvahiService → Outcome B)
      → Leaves P o
      → ((t : AvahiService) → P t → Leaves P (next t))
      → Leaves P (after o next)
  after-Leaves (returned t _) next h go = go t h
  after-Leaves (thrown t) next h go = h
  after-Leaves waiting next h go = tt

  either-Leaves :
      {A : Type 0} (b : Bool) (x y : Outcome A)
      → Leaves P x
      → Leaves P y
      → Leaves P (if b then x else y)
  either-Leaves true x y hx hy = hx
  either-Leaves false x y hx hy = hy

-- What a property of the service must bear.
pub record Survives (add_pair : List Bytes → Bytes → Bytes → List Bytes) (P : AvahiService → Type 0)
    : Type 0 where
  pub calls :
      (c : Callback) (a : Answers) (s : AvahiService) → P s → Leaves P (on_callback add_pair c a s)
  pub ends : (s : AvahiService) (code : ℤ) → P s → P (record s { result = code })
  pub renames :
      (s : AvahiService) (port : ℕ) (hostname name : Bytes) → P s → P (renamed port hostname name s)
  pub creates : (s : AvahiService) (a : Answers) → P s → P (create_services add_pair a s)

module _ (add_pair : List Bytes → Bytes → Bytes → List Bytes) (P : AvahiService → Type 0)
    (survives : Survives add_pair P) where
  pub run_callbacks-Leaves :
      (cs : List (Callback × Answers)) (s : AvahiService)
      → P s
      → Leaves P (run_callbacks add_pair cs s)
  unfolding run_callbacks
  run_callbacks-Leaves [] s h = h
  run_callbacks-Leaves ((c, a) ∷ cs) s h =
      after-Leaves P (on_callback add_pair c a s) (run_callbacks add_pair cs)
        (survives.calls c a s h) (run_callbacks-Leaves cs)

  browse_loop-Leaves :
      (timeout : ℤ) (errors : ℕ) (rs : List Round) (s : AvahiService)
      → P s
      → Leaves P (browse_loop add_pair timeout errors rs s)
  unfolding browse_loop
  browse_loop-Leaves timeout errors [] s h = tt
  browse_loop-Leaves timeout errors (r ∷ rs) s h =
      after-Leaves P (run_callbacks add_pair r.callbacks s) _ (run_callbacks-Leaves r.callbacks s h)
        λ t on.
          let next = count_error r errors in
          let rest : Outcome (Unit {0}) = browse_loop add_pair timeout next rs t in
          either-Leaves P (r.failed && not (ltb next 10))
            (returned (record t { result = poll_error }) tt)
            (if before r.elapsed timeout then rest else returned t tt)
            (survives.ends t poll_error on)
            (either-Leaves P (before r.elapsed timeout) rest (returned t tt)
              (browse_loop-Leaves timeout next rs t on) on)

  settle-Leaves : (o : Outcome (Unit {0})) → Leaves P o → Leaves P (settle add_pair o)
  settle-Leaves (returned s _) h =
      survives.ends s (if code_eq s.result poll_error then poll_error else success) h
  settle-Leaves (thrown s) h = h
  settle-Leaves waiting h = tt

  pub browse-Leaves :
      (timeout : ℤ) (rs : List Round) (s : AvahiService)
      → P s
      → Leaves P (browse add_pair timeout rs s)
  unfolding browse
  browse-Leaves timeout rs s h =
      settle-Leaves (browse_loop add_pair timeout 0 rs (record s { result = pending })) (
        browse_loop-Leaves timeout 0 rs (record s { result = pending }) (survives.ends s pending h))

  wait_announcable-Leaves :
      (elapsed : ℕ) (rs : List Round) (s : AvahiService)
      → P s
      → Leaves P (wait_announcable add_pair elapsed rs s)
  unfolding wait_announcable
  wait_announcable-Leaves elapsed [] s h =
      either-Leaves P (is_waiting elapsed s) waiting (returned s tt) tt h
  wait_announcable-Leaves elapsed (r ∷ rs) s h =
      either-Leaves P (is_waiting elapsed s)
        (after (run_callbacks add_pair r.callbacks s)
          (λ t. wait_announcable add_pair r.elapsed rs t))
        (returned s tt)
        (after-Leaves P (run_callbacks add_pair r.callbacks s)
          (wait_announcable add_pair r.elapsed rs) (run_callbacks-Leaves r.callbacks s h)
          (wait_announcable-Leaves r.elapsed rs))
        h

  with_result-Leaves : (o : Outcome (Unit {0})) → Leaves P o → Leaves P (with_result add_pair o)
  with_result-Leaves (returned s _) h = h
  with_result-Leaves (thrown s) h = h
  with_result-Leaves waiting h = tt

  pub announce-Leaves :
      (a : Answers) (elapsed : ℕ) (rs : List Round) (port : ℕ) (hostname name : Bytes)
      (s : AvahiService)
      → P s
      → Leaves P (announce add_pair a elapsed rs port hostname name s)
  unfolding announce
  announce-Leaves a elapsed rs port hostname name s h =
      let t : AvahiService = renamed port hostname name s in
      let ready : P t = survives.renames s port hostname name h in
      either-Leaves P t.announcable
        (returned (create_services add_pair a t) (create_services add_pair a t).result)
        (with_result add_pair (wait_announcable add_pair elapsed rs t)) (survives.creates t a ready)
        (with_result-Leaves (wait_announcable add_pair elapsed rs t)
          (wait_announcable-Leaves elapsed rs t ready))
