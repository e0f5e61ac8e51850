-- ===== src/Avahi/Publish.antt =====
-- `_createServices`, `_updateRecord`, `withdraw` and `isAnnounced`.
use servus.Prelude.{
  Bool, true, false, not, ◌||◌, List, [], ◌∷◌, none, some, if◌then◌else◌, is_empty,
}
use servus.Bytes.{Bytes, c_str}
use servus.StdMap.{StdMap}
use servus.Service.{set_data}
use servus.Service.Result.{success, code_eq}
use servus.Avahi.{Published, Group, AvahiService, Answers}

-- `avahi_entry_group_reset`.
unfoldable pub reset : Group → Group
reset g = record { entries = []; committed = false }

-- `avahi_string_list_add_pair` is an argument.
module _ (add_pair : List Bytes → Bytes → Bytes → List Bytes) where
  unfoldable pub txt_from : List Bytes → StdMap Bytes → List Bytes
  unfolding c_str
  txt_from l [] = l
  txt_from l ((k, v) ∷ m) = txt_from (add_pair l (c_str k) (c_str v)) m

  -- What the service says of itself.
  abbrev pub to_publish : AvahiService → Published
  to_publish s = record {
    name = c_str s.announced_name;
    service_type = c_str s.impl.name;
    port = s.port;
    txt = txt_from [] s.impl.data_map;
  }

  -- Adding the service to an empty group, and the commit.
  unfoldable pub fill_group : Answers → AvahiService → AvahiService
  unfolding txt_from code_eq
  fill_group a s =
      if code_eq a.add_service success
      then record s {
        group = some (record { entries = to_publish s ∷ []; committed = code_eq a.commit success });
        result = a.commit;
        quit = s.quit || not (code_eq a.commit success);
      }
      else record s {
        group = some (record { entries = []; committed = false });
        result = a.add_service;
        quit = true;
      }

  unfoldable pub create_services : Answers → AvahiService → AvahiService
  unfolding fill_group
  create_services a s = elim s.group [
    | none ↦ if a.group_new then fill_group a s else s
    | some g ↦ fill_group a s
  ]

  -- The reset in front of `_createServices` is done again there.
  unfoldable pub update_record : Answers → AvahiService → AvahiService
  unfolding create_services reset
  update_record a s =
      if is_empty s.announced_name || not s.announcable
      then s
      else create_services a
          (elim s.group [ none ↦ s | some g ↦ record s { group = some (reset g) } ])

  -- `set` of the base class.
  unfoldable pub set : Answers → AvahiService → Bytes → Bytes → AvahiService
  unfolding update_record set_data
  set a s key value = update_record a (record s { impl = set_data s.impl key value })

unfoldable pub withdraw : AvahiService → AvahiService
unfolding reset
withdraw s = record s {
  announced_name = [];
  port = 0;
  group = elim s.group [ none ↦ none | some g ↦ some (reset g) ];
}

unfoldable pub is_announced : AvahiService → Bool
is_announced s = elim s.group [ none ↦ false | some g ↦ not (is_empty g.entries) ]
