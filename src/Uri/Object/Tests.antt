-- ===== src/Uri/Object/Tests.antt =====
-- A URI and a copy of it, and instances of the theorems on these two objects.
use servus.Prelude.{ℕ, true, none, some, ◌==◌, ◌≡◌, refl, if◌then◌else◌, []}
use servus.Uri.Data.{UriData, set_host}
use servus.Uri.Outcome.{ok}
use servus.Uri.Tests.{full, full_text, parse_full}
use servus.Uri.Object.{
  Objects, allocate, get_data, write, construct, construct_copy, destroy, assign, change, equal,
}
use servus.Uri.Object.Separate.{IsSeparate}
use servus.Uri.Object.Reach.{Reach, Step, no_objects, Reach-IsSeparate}
use servus.Uri.Object.Assign.{assign-change}

-- A URI at 1 with its data at 10, its copy at 2 with its data at 11, whose host is then cleared.
abbrev one : Objects
one = allocate 10 1 full no_objects

abbrev two : Objects
two = allocate 11 2 full one

abbrev cleared : UriData
cleared = set_host full []

abbrev three : Objects
three = record two { heap = λ q. if q == 11 then some cleared else two.heap q }

one_run : construct 10 1 full_text no_objects ≡ ok one
unfolding construct
one_run = rw (parse_full, construct) refl

two_run : construct_copy 11 2 1 one ≡ some two
unfolding construct_copy get_data allocate
two_run = refl

three_run : change (λ d. set_host d []) 2 two ≡ some three
unfolding change get_data allocate write
three_run = refl

three-Reach : Reach three
unfolding allocate
three-Reach =
    Reach.then_step
      (Reach.then_step
        (Reach.then_step Reach.at_first (Step.constructs 10 1 full_text one refl refl one_run))
        (Step.copies 11 2 1 two refl refl two_run))
      (Step.changes (λ d. set_host d []) 2 three three_run)

Reach-IsSeparate_example : IsSeparate three
Reach-IsSeparate_example = Reach-IsSeparate three-Reach

first_data : get_data 1 three ≡ some full
unfolding get_data allocate
first_data = refl

second_data : get_data 2 three ≡ some cleared
unfolding get_data allocate
second_data = refl

assign-change_example :
    (t : Objects) × (assign 2 1 three ≡ some t)
    × (equal 2 1 t ≡ some true)
    × ((r : ℕ) → get_data r t ≡ (if r == 2 then some full else get_data r three))
    × ((f : UriData → UriData)
        → (u : Objects) × (change f 2 t ≡ some u)
          × (get_data 2 u ≡ some (f full))
          × (get_data 1 u ≡ some full))
    × ((f : UriData → UriData)
        → (u : Objects) × (change f 1 t ≡ some u)
          × (get_data 1 u ≡ some (f full))
          × (get_data 2 u ≡ some full))
    × ((u : Objects) × (destroy 1 t ≡ some u) × (get_data 1 u ≡ none) × (get_data 2 u ≡ some full))
assign-change_example = assign-change 2 1 full cleared three-Reach second_data first_data refl
