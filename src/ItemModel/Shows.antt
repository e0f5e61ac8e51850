-- ===== src/ItemModel/Shows.antt =====
-- The model over a service that browses with Avahi.
use servus.Prelude.{List, Option, ◌≡◌, sym, subst, [], map}
use servus.Bytes.{Bytes}
use servus.Service.{Impl}
use servus.Service.Listener.{Event}
use servus.Service.Told.{is_known, IsTold}
use servus.Avahi.{AvahiService}
use servus.Avahi.Told.{Follows, Follows-Told}
use servus.ItemModel.{Item, Place}
use servus.ItemModel.Finder.{FindsChildren}
use servus.ItemModel.Laws.{has}
use servus.ItemModel.Heard.{IsPlain, on_calls, told_shown}
use servus.Prelude.{ℕ}

-- A model that has joined a service over Avahi before the service knew an instance or had called a
-- listener, with no items, shows after all its calls exactly the instances that the service knows,
-- whatever callbacks have run in which operations and whatever values the service had at each
-- call, provided that `findChild` does what Qt documents, no text of a value is the name of an
-- instance that is called, the model stays and browsing is not begun anew while instances are
-- known.
pub shows_known :
    (format : Bytes → Bytes → Bytes) (find_child : List Item → Bytes → Option Place) (self : ℕ)
    (add_pair : List Bytes → Bytes → Bytes → List Bytes) (s : AvahiService)
    (calls : List (Impl × Event)) (n : Bytes)
    → FindsChildren find_child
    → Follows self add_pair s
    → map (λ c. c.1) calls ≡ s.events
    → IsPlain format s.events
    → has n (on_calls format find_child self [] calls) ≡ is_known s.impl n
shows_known format find_child self add_pair s calls n qt f same plain =
    told_shown format find_child self qt s.impl calls n (subst (IsPlain format) (sym same) plain)
      (subst (IsTold self s.impl) (sym same) (Follows-Told self add_pair f))
