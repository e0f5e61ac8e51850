-- ===== src/Avahi.antt =====
-- `avahi::Servus` (servus/avahi/servus.h): the service over Avahi. This file has its state, and the
-- callbacks that Avahi makes; `Publish`, `Callbacks` and `Operations` have the functions. What a call
-- of Avahi answers is an argument of the operation that calls it.
pub mod Publish
pub mod Callbacks
pub mod Operations
pub mod Current
pub mod Loops
pub mod Reach
pub mod RoundTrip
pub mod Survives
pub mod Keeps
pub mod Told
pub mod Discover
pub mod Polling
pub mod Failures
pub mod Tests
pub mod ToldTests
use servus.Prelude.{ℕ, Bool, List, [], Option, none}
use servus.Prelude.Int.{ℤ}
use servus.Bytes.{Bytes}
use servus.Service.{Impl}
use servus.Service.Interface.{Interface}
use servus.Service.Listener.{Event}
use servus.Service.Result.{pending}

-- What an entry group announces: the arguments of `avahi_entry_group_add_service_strlst`.
pub record Published : Type 0 where
  pub name : Bytes
  pub service_type : Bytes
  pub port : ℕ
  pub txt : List Bytes

-- The entries of a group, and whether they have been committed.
pub record Group : Type 0 where
  pub entries : List Published
  pub committed : Bool

-- `resolvers` counts the resolver objects that have not been freed, `quit` records a call of
-- `avahi_simple_poll_quit`, and `events` are the calls of the listeners so far. The name that is
-- announced, `_announce`, is empty as long as there is none.
pub record AvahiService : Type 0 where
  pub impl : Impl
  pub browser : Bool
  pub group : Option Group
  pub result : ℤ
  pub announced_name : Bytes
  pub port : ℕ
  pub announcable : Bool
  pub scope : Interface
  pub resolvers : ℕ
  pub quit : Bool
  pub events : List Event

-- What Avahi answers to the calls that one operation or callback makes: whether a group, a browser and
-- a resolver can be made, the results of adding a service and of the commit, and the error of the
-- client.
pub record Answers : Type 0 where
  pub group_new : Bool
  pub add_service : ℤ
  pub commit : ℤ
  pub browser_new : Bool
  pub resolver_new : Bool
  pub client_errno : ℤ

pub data ClientState : Type 0 where
  s_running failure s_collision s_registering connecting : ClientState

pub data BrowserEvent : Type 0 where
  browser_failure all_for_now cache_exhausted : BrowserEvent
  browser_new browser_remove : Bytes → BrowserEvent

-- What a resolver has found: the name, the host, and the entries of the text record.
pub data ResolverEvent : Type 0 where
  resolver_failure : ResolverEvent
  resolver_found : Bytes → Bytes → List Bytes → ResolverEvent

pub data GroupState : Type 0 where
  established collision group_failure uncommited registering : GroupState

-- A callback. That of a resolver says whether the result is local.
pub data Callback : Type 0 where
  client_callback : ClientState → Callback
  browse_callback : BrowserEvent → Callback
  resolve_callback : Bool → ResolverEvent → Callback
  group_callback : GroupState → Callback

-- One `avahi_simple_poll_iterate`: the callbacks that run in it, each with the answers to its calls,
-- whether it fails, and the milliseconds that have passed behind it.
pub record Round : Type 0 where
  pub callbacks : List (Callback × Answers)
  pub failed : Bool
  pub elapsed : ℕ

-- How a call ends: it returns, a callback throws, or it still polls where the list of rounds ends.
pub data Outcome (A : Type 0) : Type 0 where
  returned : AvahiService → A → Outcome A
  thrown : AvahiService → Outcome A
  waiting : Outcome A

-- What follows a call, if it returns.
abbrev pub after : {A B : Type 0} → Outcome A → (AvahiService → Outcome B) → Outcome B
after (returned s a) next = next s
after (thrown s) next = thrown s
after waiting next = waiting
