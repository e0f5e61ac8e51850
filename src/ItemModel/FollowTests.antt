-- ===== src/ItemModel/FollowTests.antt =====
-- A model that shows a browser of the test service, before and after a `browse`.
use servus.Prelude.{
  ℕ, zero, suc, Bool, true, false, [], ◌∷◌, none, some, ◌≡◌, ◌≢◌, refl, sym, ◌∙◌, ap, arith, ◌||◌,
  ◌==◌, if◌then◌else◌,
}
use servus.Bytes.{Bytes, codes}
use servus.Bytes.Order.{cmp}
use servus.StdMap
use servus.Service.{Impl, member, without}
use servus.Service.Listener.{Event, notify}
use servus.Service.TestDriver.{
  TestService, World, browse, collect, symmetric_difference, toggle, set_insert, values_of,
  notify_at, withdraw,
}
use servus.Service.TestDriver.Discover.{named}
use servus.ItemModel.Laws.{has}
use servus.ItemModel.Agrees.{InPlay, Agrees}
use servus.ItemModel.{Item, Place, instance_at, value_at, object_name, nth}
use servus.ItemModel.Withdrawn.{withdrawn_stays}
use servus.ItemModel.Follow.{follow, in_view, model_follows}
use servus.ItemModel.Tests.{finder, finder-FindsChildren, format}

abbrev idle : Impl
idle = record {
  name = codes "_servus._test";
  instance_map = [];
  data_map = (codes "a", codes "b") ∷ [];
  listeners = 7 ∷ [];
}

abbrev lamp : TestService
lamp = record {
  impl = idle;
  instance_name = codes "lamp";
  port = 80;
  announced = true;
  browsing = false;
  instances = [];
}

abbrev watcher : TestService
watcher = record {
  impl = idle;
  instance_name = [];
  port = 0;
  announced = false;
  browsing = true;
  instances = [];
}

abbrev room : World
room = record { objects = λ q. if q == 1 then some lamp else none; directory = 1 ∷ [] }

abbrev watched : TestService
watched = record watcher {
  impl = record idle {
    instance_map =
        (codes "lamp", (codes "a", codes "b") ∷ (codes "servus_host", codes "localhost") ∷ []) ∷ [];
  };
  instances = 1 ∷ [];
}

room_run : browse room watcher ≡ some (watched, Event.instance_added 7 (codes "lamp") ∷ [])
unfolding browse collect symmetric_difference toggle set_insert without member values_of notify_at
    notify StdMap.insert cmp
room_run = refl

only_lamp : (q : ℕ) → in_view room watcher q ≡ true → q ≡ 1
unfolding member
only_lamp q m = ground arith

lamp_at : (q : ℕ) → q ≡ 1 → room.objects q ≡ some lamp
lamp_at q e = rw e refl

-- The text of a value has an equality sign, which the name has not.
abbrev has_sign : Bytes → Bool
has_sign [] = false
has_sign (c ∷ cs) = (c == 61) || has_sign cs

has_sign-format : (k v : Bytes) → has_sign (format k v) ≡ true
has_sign-format [] v = refl
has_sign-format (c ∷ k) v = ground (arith, has_sign-format k v)

true≢false : true ≢ false
true≢false h = cc

pub format_other : (k v : Bytes) → format k v ≢ codes "lamp"
format_other k v e = true≢false (sym (has_sign-format k v) ∙ ap has_sign e)

some-lamp : (o : TestService) (q : ℕ) → q ≡ 1 → room.objects q ≡ some o → lamp ≡ o
some-lamp o q e h = let same : some lamp ≡ some o = sym (lamp_at q e) ∙ h in cc

room-InPlay : InPlay format room.objects (in_view room watcher)
room-InPlay = record {
  live = λ p m. (lamp, lamp_at p (only_lamp p m));
  distinct = λ p q o o' mp mq h h' e. only_lamp p mp ∙ sym (only_lamp q mq);
  plain = λ p o k v m h e.
      format_other k v (e ∙ sym (ap (λ o. o.instance_name) (some-lamp o p (only_lamp p m) h)));
}

empty-Agrees : Agrees room.objects (in_view room watcher) [] watcher.instances
unfolding has named
empty-Agrees = record { names = λ z. refl; unique = tt; free = λ p o m h. tt }

model_follows_example :
    Agrees room.objects
      (in_view room watcher)
      (follow format finder watched.impl [] (Event.instance_added 7 (codes "lamp") ∷ []))
      room.directory
model_follows_example =
    model_follows format finder room watcher watched (Event.instance_added 7 (codes "lamp") ∷ []) []
      7 finder-FindsChildren room-InPlay (tt, tt) tt refl room_run empty-Agrees

-- The lamp withdraws, and the model goes on showing it.
abbrev dark : TestService
dark = record watcher { impl = idle; instances = [] }

abbrev lamp_row : Item
lamp_row = record { name = codes "lamp"; values = codes "a = b" ∷ [] }

dark_run : browse (withdraw room 1 lamp) watched ≡ some (dark, Event.instance_removed 7 [] ∷ [])
unfolding browse collect symmetric_difference toggle set_insert without member values_of notify_at
    notify StdMap.insert cmp withdraw
dark_run = refl

one_listed : member 1 room.directory ≡ true
unfolding member
one_listed = refl

all_named : (place : Place) → object_name (lamp_row ∷ []) place ≢ some []
unfolding object_name nth
all_named (instance_at zero) e = cc
all_named (instance_at (suc i)) e = cc
all_named (value_at zero zero) e = cc
all_named (value_at zero (suc j)) e = cc
all_named (value_at (suc i) j) e = cc

withdrawn_stays_example :
    (follow format finder dark.impl (lamp_row ∷ []) (Event.instance_removed 7 [] ∷ [])
      ≡ lamp_row ∷ [])
    × (member 1 dark.instances ≡ false)
    × (member 1 (withdraw room 1 lamp).directory ≡ false)
withdrawn_stays_example =
    withdrawn_stays format finder room 1 lamp watched dark (Event.instance_removed 7 [] ∷ [])
      (lamp_row ∷ []) 7 finder-FindsChildren (tt, tt) one_listed refl refl all_named dark_run
