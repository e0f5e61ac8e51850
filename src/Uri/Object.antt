-- ===== src/Uri/Object.antt =====
-- `servus::URI` objects (servus/uri.cpp). An object is named by its address and has the pointer
-- `_impl` to a `detail::URI` with its data, in a heap: the constructors allocate one, at an address that
-- is an argument here, since `new` chooses it, and the destructor frees it. `none` is a fault: an object
-- that is not alive, or a pointer to data that has been freed. Running out of memory is left out.
pub mod Separate
pub mod Runs
pub mod Reach
pub mod Assign
mod Tests
use servus.Prelude.{ℕ, [], Bool, true, not, Option, none, some, ◌==◌, if◌then◌else◌}
use servus.Bytes.{Bytes, c_str}
use servus.StdMap.{StdMap}
use servus.Uri.Data.{UriData, eq, print}
use servus.Uri.Outcome.{Outcome, ok, throw, abort, no_fuel}
use servus.Uri.Parse.{make_uri}

-- The pointers of the objects that are alive, and the data that is allocated.
pub record Objects : Type 0 where
  pub impls : ℕ → Option ℕ
  pub heap : ℕ → Option UriData

abbrev pub put : {A : Type 0} → (ℕ → Option A) → ℕ → Option A → ℕ → Option A
put f p v q = if q == p then v else f q

-- `_impl(new detail::URI(…))` of the object at `p`, for the address that `new` gives.
unfoldable pub allocate : ℕ → ℕ → UriData → Objects → Objects
allocate address p d s = record s {
  impls = put s.impls p (some address);
  heap = put s.heap address (some d);
}

-- `_impl->getData()`, read and written.
unfoldable pub get_data : ℕ → Objects → Option UriData
get_data p s = elim (s.impls p) [ none ↦ none | some address ↦ s.heap address ]

unfoldable pub write : ℕ → UriData → Objects → Option Objects
write p d s = elim (s.impls p) [
  | none ↦ none
  | some address ↦ elim (s.heap address) [
    | none ↦ none
    | some old ↦ some (record s { heap = put s.heap address (some d) })
  ]
]

-- The constructors.
unfoldable pub construct : ℕ → ℕ → Bytes → Objects → Outcome Objects
unfolding make_uri allocate
construct address p text s = elim (make_uri text) [
  | ok d ↦ ok (allocate address p d s)
  | throw e ↦ throw e
  | abort ↦ abort
  | no_fuel ↦ no_fuel
]

unfoldable pub construct_empty : ℕ → ℕ → Objects → Outcome Objects
unfolding construct
construct_empty address p s = construct address p [] s

unfoldable pub construct_c_str : ℕ → ℕ → Bytes → Objects → Outcome Objects
unfolding construct c_str
construct_c_str address p text s = construct address p (c_str text) s

-- `new detail::URI(*from._impl)` copies the data.
unfoldable pub construct_copy : ℕ → ℕ → ℕ → Objects → Option Objects
unfolding get_data allocate
construct_copy address p from s = elim (get_data from s) [
  | none ↦ none
  | some d ↦ some (allocate address p d s)
]

-- `delete _impl`, behind which the object is gone.
unfoldable pub destroy : ℕ → Objects → Option Objects
destroy p s = elim (s.impls p) [
  | none ↦ none
  | some address ↦ elim (s.heap address) [
    | none ↦ none
    | some d ↦ some (record { impls = put s.impls p none; heap = put s.heap address none })
  ]
]

-- `*_impl = *rhs._impl`, with the test for the object itself.
unfoldable pub assign : ℕ → ℕ → Objects → Option Objects
unfolding get_data write
assign p rhs s =
    if p == rhs then some s else elim (get_data rhs s) [ none ↦ none | some d ↦ write p d s ]

-- A method that reads the data of an object.
unfoldable pub on {ℓ} : {A : Type ℓ} → (UriData → A) → ℕ → Objects → Option A
unfolding get_data
on f p s = elim (get_data p s) [ none ↦ none | some d ↦ some (f d) ]

unfoldable pub get_scheme : ℕ → Objects → Option Bytes
unfolding on
get_scheme = on λ d. d.scheme

unfoldable pub get_host : ℕ → Objects → Option Bytes
unfolding on
get_host = on λ d. d.host

unfoldable pub get_port : ℕ → Objects → Option ℕ
unfolding on
get_port = on λ d. d.port

unfoldable pub get_userinfo : ℕ → Objects → Option Bytes
unfolding on
get_userinfo = on λ d. d.userinfo

unfoldable pub get_path : ℕ → Objects → Option Bytes
unfolding on
get_path = on λ d. d.path

unfoldable pub get_query : ℕ → Objects → Option Bytes
unfolding on
get_query = on λ d. d.query

unfoldable pub get_fragment : ℕ → Objects → Option Bytes
unfolding on
get_fragment = on λ d. d.fragment

-- The pairs from `queryBegin` to `queryEnd`.
unfoldable pub query_pairs : ℕ → Objects → Option (StdMap Bytes)
unfolding on
query_pairs = on λ d. d.query_map

-- A method that changes the data of an object.
unfoldable pub change : (UriData → UriData) → ℕ → Objects → Option Objects
unfolding get_data write
change f p s = elim (get_data p s) [ none ↦ none | some d ↦ write p (f d) s ]

-- `operator==`, with its test for the object itself.
unfoldable pub equal : ℕ → ℕ → Objects → Option Bool
unfolding eq get_data
equal p q s = if p == q then some true else elim (get_data p s) [
  | none ↦ none
  | some d ↦ elim (get_data q s) [ none ↦ none | some e ↦ some (eq d e) ]
]

unfoldable pub unequal : ℕ → ℕ → Objects → Option Bool
unfolding equal
unequal p q s = elim (equal p q s) [ none ↦ none | some b ↦ some (not b) ]

-- `std::to_string` writes the URI to a stream.
unfoldable pub to_string : ℕ → Objects → Option Bytes
unfolding on print
to_string = on print
