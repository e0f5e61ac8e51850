-- ===== src/ItemModel/ShowTests.antt =====
-- The model over a service over Avahi that has found a lamp.
use servus.Prelude.{true, false, [], ◌∷◌, ◌≡◌, refl}
use servus.Bytes.{codes}
use servus.Service.Told.{is_known}
use servus.Service.Listener.{Event}
use servus.ItemModel.Laws.{has}
use servus.ItemModel.Heard.{on_calls}
use servus.ItemModel.Shows.{shows_known}
use servus.ItemModel.Tests.{format, finder, finder-FindsChildren}
use servus.ItemModel.FollowTests.{format_other}
use servus.ItemModel.Stale.{construct, construct_stale}
use servus.Avahi.Tests.{add_pair, fine}
use servus.Avahi.ToldTests.{rested, rested_off, lamp_known, seen, seen-Follows}

shows_known_example :
    has
      (codes "lamp")
      (on_calls format finder 7 [] ((seen.impl, Event.instance_added 7 (codes "lamp")) ∷ []))
    ≡ is_known seen.impl (codes "lamp")
shows_known_example =
    shows_known format finder 7 add_pair seen
      ((seen.impl, Event.instance_added 7 (codes "lamp")) ∷ []) (codes "lamp") finder-FindsChildren
      seen-Follows refl (format_other, tt)

construct_stale_example :
    (has (codes "lamp") (construct format finder fine 9 rested).0 ≡ true)
    × (is_known (construct format finder fine 9 rested).1.impl (codes "lamp") ≡ false)
    × ((construct format finder fine 9 rested).1.events ≡ rested.events)
construct_stale_example =
    construct_stale format finder fine 9 rested (codes "lamp") rested_off lamp_known
