-- ===== src/Avahi/Operations.antt =====
-- The operations of `avahi::Servus` that poll, and those on the browser.
use servus.Prelude.{
  ℕ, suc, Bool, false, not, ◌&&◌, List, [], ◌∷◌, Option, none, some, if◌then◌else◌, is_empty, ltb,
}
use servus.Prelude.Int.{ℤ, pos, negsuc}
use servus.Bytes.{Bytes}
use servus.Service.{new_impl}
use servus.Service.Interface.{Interface, if_all}
use servus.Service.Result.{success, pending, poll_error, code_eq}
use servus.Avahi.{AvahiService, Answers, Callback, Round, Outcome, returned, thrown, waiting, after}
use servus.Avahi.Publish.{create_services, withdraw}
use servus.Avahi.Callbacks.{on_callback}

abbrev pub announce_timeout : ℕ
announce_timeout = 1000

-- The state before the client is made, for a poll device that could be set up.
unfoldable pub new_service : Bytes → AvahiService
unfolding new_impl
new_service name = record {
  impl = new_impl name;
  browser = false;
  group = none;
  result = pending;
  announced_name = [];
  port = 0;
  announcable = false;
  scope = if_all;
  resolvers = 0;
  quit = false;
  events = [];
}

-- `elapsed < timeout`, for a time that has passed.
unfoldable pub before : ℕ → ℤ → Bool
before elapsed (pos timeout) = ltb elapsed timeout
before elapsed (negsuc timeout) = false

unfoldable pub begin_browsing : Answers → Interface → AvahiService → AvahiService × ℤ
begin_browsing a addr s =
    if s.browser
    then (s, pending)
    else let t = record s {
      scope = addr;
      impl = record s.impl { instance_map = [] };
      browser = a.browser_new;
      result = (if a.browser_new then success else a.client_errno);
    } in
      (t, t.result)

unfoldable pub end_browsing : AvahiService → AvahiService
end_browsing s = record s { browser = false }

-- The first writes of `announce`.
abbrev pub renamed : ℕ → Bytes → Bytes → AvahiService → AvahiService
renamed port hostname instance' s = record s {
  result = pending;
  port = port;
  announced_name = if is_empty instance' then hostname else instance';
}

-- The condition of the loop of `announce`.
abbrev pub is_waiting : ℕ → AvahiService → Bool
is_waiting elapsed s = not s.announcable && code_eq s.result pending && ltb elapsed announce_timeout

abbrev pub count_error : Round → ℕ → ℕ
count_error r errors = if r.failed then suc errors else errors

module _ (add_pair : List Bytes → Bytes → Bytes → List Bytes) where
  unfoldable pub run_callbacks : List (Callback × Answers) → AvahiService → Outcome (Unit {0})
  unfolding on_callback
  run_callbacks [] s = returned s tt
  run_callbacks ((c, a) ∷ cs) s = after (on_callback add_pair c a s) (λ t. run_callbacks cs t)

  -- The constructor: the client makes its first callbacks; `none` where it cannot be made and the
  -- constructor throws.
  unfoldable pub construct :
      Bytes → Option (List (Callback × Answers)) → Option (Outcome (Unit {0}))
  unfolding new_service run_callbacks
  construct name none = none
  construct name (some callbacks) = some (run_callbacks callbacks (new_service name))

  -- The loop of `announce`, with the time that has passed.
  unfoldable pub wait_announcable : ℕ → List Round → AvahiService → Outcome (Unit {0})
  unfolding run_callbacks code_eq
  wait_announcable elapsed [] s = if is_waiting elapsed s then waiting else returned s tt
  wait_announcable elapsed (r ∷ rs) s =
      if is_waiting elapsed s
      then after (run_callbacks r.callbacks s) (λ t. wait_announcable r.elapsed rs t)
      else returned s tt

  -- The result is that of the state, read behind the loop.
  abbrev pub with_result : Outcome (Unit {0}) → Outcome ℤ
  with_result (returned s _) = returned s s.result
  with_result (thrown s) = thrown s
  with_result waiting = waiting

  -- `getHostname` is the system's; `elapsed` is the time read before the first round.
  unfoldable pub announce : Answers → ℕ → List Round → ℕ → Bytes → Bytes → AvahiService → Outcome ℤ
  unfolding wait_announcable create_services
  announce a elapsed rounds port hostname instance' s =
      let t = renamed port hostname instance' s in
      if t.announcable
      then returned (create_services add_pair a t) (create_services add_pair a t).result
      else with_result (wait_announcable elapsed rounds t)

  -- The loop of `browse`, with the number of failed rounds. Behind a failed round that is not the
  -- tenth, `continue` goes on to the test of the time.
  unfoldable pub browse_loop : ℤ → ℕ → List Round → AvahiService → Outcome (Unit {0})
  unfolding run_callbacks before
  browse_loop timeout errors [] s = waiting
  browse_loop timeout errors (r ∷ rs) s = after (run_callbacks r.callbacks s) λ t.
      let next = count_error r errors in
      if r.failed && not (ltb next 10)
      then returned (record t { result = poll_error }) tt
      else if before r.elapsed timeout
      then browse_loop timeout next rs t
      else returned t tt

  -- The end of `browse`: every result but that of the polls is replaced by success.
  abbrev pub settle : Outcome (Unit {0}) → Outcome ℤ
  settle (returned s _) =
      let r = if code_eq s.result poll_error then poll_error else success in
      returned (record s { result = r }) r
  settle (thrown s) = thrown s
  settle waiting = waiting

  unfoldable pub browse : ℤ → List Round → AvahiService → Outcome ℤ
  unfolding browse_loop
  browse timeout rounds s = settle (browse_loop timeout 0 rounds (record s { result = pending }))

  -- The destructor ends both, and frees client and poll device.
  unfoldable pub destroy : AvahiService → AvahiService
  unfolding withdraw end_browsing
  destroy s = end_browsing (withdraw s)
