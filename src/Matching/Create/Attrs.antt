-- ===== src/Matching/Create/Attrs.antt =====
-- Where CmdCreateRoom of src/cmd_matching.cpp puts the attributes of its request.
use shad_net.Prelude.{
  ℕ, ◌-◌, ◌%◌, ◌^◌, true, Option, none, some, List, [], ◌∷◌, if◌then◌else◌, ◌==◌, nat_eq, ltb, ◌||◌,
  set,
}
use shad_net.Matching.Types.{Room, IntAttrSlot, MemberBinAttrSlot}
use shad_net.Matching.Session.{pair_eq}
use shad_net.Matching.Create.Request.{IntAttr, BinAttr}

-- Where a searchable integer attribute goes: attributes 0x4C to 0x53 have a place.
unfoldable pub put_int_attr : IntAttr → List IntAttrSlot → List IntAttrSlot
put_int_attr a slots =
    let attr_id = a.attr_id % 2 ^ 16 in
    if ltb attr_id 0x4C || ltb 0x53 attr_id
    then slots
    else set slots (attr_id - 0x4C)
        (record { is_set = true; attr_id = attr_id; value = a.attr_value })

unfoldable pub put_int_attrs : List IntAttr → List IntAttrSlot → List IntAttrSlot
unfolding put_int_attr
put_int_attrs [] slots = slots
put_int_attrs (a ∷ rest) slots = put_int_attrs rest (put_int_attr a slots)

-- The first binary attribute of a member.
unfoldable pub member_attr : ℕ → List BinAttr → MemberBinAttrSlot → MemberBinAttrSlot
member_attr now [] slot = slot
member_attr now (a ∷ rest) slot = record {
  is_set = true;
  attr_id = a.attr_id % 2 ^ 16;
  bytes = a.bytes;
  update_date = now;
}

-- InternalBinIndexForAttr and ExternalBinIndexForAttr
abbrev pub internal_index : ℕ → Option ℕ
internal_index attr_id =
    if attr_id == 0x57 then some 0 else if attr_id == 0x58 then some 1 else none

abbrev pub external_index : ℕ → Option ℕ
external_index attr_id =
    if attr_id == 0x55 then some 0 else if attr_id == 0x56 then some 1 else none

route_external : ℕ → List ℕ → Option ℕ → Room → Room
route_external attr_id bytes (some i) room = record room {
  external_bin_attr =
      set room.external_bin_attr i (record { is_set = true; attr_id = attr_id; bytes = bytes });
}
route_external attr_id bytes none room =
    if attr_id == 0x54
    then record room {
      search_bin_attr = record { is_set = true; attr_id = attr_id; bytes = bytes };
    }
    else room

route_attr : ℕ → ℕ → ℕ → List ℕ → Option ℕ → Room → Room
unfolding route_external
route_attr now member_id attr_id bytes (some i) room = record room {
  internal_bin_attr = set room.internal_bin_attr i (record {
    is_set = true;
    attr_id = attr_id;
    bytes = bytes;
    update_date = now;
    update_member_id = member_id;
  });
}
route_attr now member_id attr_id bytes none room =
    route_external attr_id bytes (external_index attr_id) room

-- applyCreateBinAttr
unfoldable pub apply_create_bin_attr : ℕ → ℕ → BinAttr → Room → Room
unfolding route_attr
apply_create_bin_attr now member_id a room =
    let attr_id = a.attr_id % 2 ^ 16 in
    route_attr now member_id attr_id a.bytes (internal_index attr_id) room

unfoldable pub apply_create_bin_attrs : ℕ → ℕ → List BinAttr → Room → Room
unfolding apply_create_bin_attr
apply_create_bin_attrs now member_id [] room = room
apply_create_bin_attrs now member_id (a ∷ rest) room =
    apply_create_bin_attrs now member_id rest (apply_create_bin_attr now member_id a room)
