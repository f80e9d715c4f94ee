-- ===== src/Matching/Settings.antt =====
-- CmdSetRoomDataInternal, CmdSetRoomMemberDataInternal and CmdSetRoomDataExternal of
-- src/cmd_matching.cpp.
pub mod Kept
pub mod Laws
use shad_net.Prelude.{
  ℕ, ◌+◌, ◌%◌, ◌^◌, Bool, true, false, Option, none, some, String, List, [], ◌∷◌, if◌then◌else◌,
  ◌==◌, nat_eq, set, is_some, string_eq,
}
use shad_net.Prelude.Assoc.{find, insert}
use shad_net.Prelude.Bits.{Word, bit_and, bit_or, bit_not}
use shad_net.Matching.Types.{
  Room, RoomMember, SharedState, InternalBinAttrSlot, MemberBinAttrSlot, BinAttrSlot, full_flag,
  owner_flag,
}
use shad_net.Matching.Slots.{recompute_room_slot_counts}
use shad_net.Matching.Room.{find_by_npid}
use shad_net.Matching.Create.Request.{IntAttr, BinAttr}
use shad_net.Matching.Create.Attrs.{internal_index, external_index, put_int_attrs}
use shad_net.Matching.Session.{
  Env, Server, Outcome, data_event, malformed, room_missing, fail, done, pair_eq,
  notify_room_members, send_room_member_event, event_room_data_internal, event_member_data_internal,
  cause_server,
}

-- The flags that the filter names take the given values, the protected ones excepted.
abbrev pub merge_flags : (filter attr protected old : Word) → Word
merge_flags filter attr protected old =
    let effective = bit_and filter (bit_not protected) in
    bit_or (bit_and old (bit_not effective)) (bit_and attr effective)

pub record SetRoomDataInternalRequest : Type 0 where
  pub room_id : ℕ
  pub flag_filter : Word
  pub flag_attr : Word
  pub passwd_slot_mask : Option Word
  pub bin_attrs : List BinAttr

-- The loop over the attributes: the slots, and those that were written, in order.
unfoldable pub set_internal_attrs :
    ℕ
    → ℕ
    → List BinAttr
    → List InternalBinAttrSlot
    → List InternalBinAttrSlot × List InternalBinAttrSlot
set_internal_attrs now setter [] slots = (slots, [])
set_internal_attrs now setter (a ∷ rest) slots =
    let attr_id = a.attr_id % 2 ^ 16 in
    elim (internal_index attr_id) [
      | none ↦ set_internal_attrs now setter rest slots
      | some i ↦
          let slot : InternalBinAttrSlot = record {
            is_set = true;
            attr_id = attr_id;
            bytes = a.bytes;
            update_date = now;
            update_member_id = setter;
          } in
          let (slots', updated) = set_internal_attrs now setter rest (set slots i slot) in
          (slots', slot ∷ updated)
    ]

abbrev setter_id : Option RoomMember → ℕ
setter_id none = 0
setter_id (some m) = m.member_id

abbrev with_passwd_mask : Option Word → Room → Room
with_passwd_mask none room = room
with_passwd_mask (some mask) room =
    recompute_room_slot_counts (record room { passwd_slot_mask = mask })

-- The room after the request, and the attributes that were written.
unfoldable pub internal_set :
    Env → SetRoomDataInternalRequest → Room → Room × List InternalBinAttrSlot
unfolding set_internal_attrs
internal_set env req room =
    let flagged = record room {
      flag_attr = merge_flags req.flag_filter req.flag_attr full_flag room.flag_attr;
    } in
    let masked = with_passwd_mask req.passwd_slot_mask flagged in
    let (slots, updated) =
      set_internal_attrs env.now_usec (setter_id (find_by_npid env.npid masked)) req.bin_attrs
        masked.internal_bin_attr in
    (record masked { internal_bin_attr = slots }, updated)

-- The shared state with the room in the place of the one under its key.
abbrev pub with_room : String → ℕ → Room → Server → Server
with_room key room_id room s = record s {
  shared = record s.shared { rooms = insert (key, room_id) room s.shared.rooms };
}

set_internal : Env → Server → SetRoomDataInternalRequest → Option Room → Outcome ℕ
unfolding internal_set
set_internal env s req none = fail room_missing s
set_internal env s req (some room) =
    let (room', updated) = internal_set env req room in
    let key = s.session.matching_key in
    let after = with_room key req.room_id room' s in
    done after req.room_id (
      notify_room_members env
        (data_event s.session.ctx_id req.room_id event_room_data_internal cause_server
          room'.flag_attr req.passwd_slot_mask updated)
        key req.room_id env.npid after.shared)

-- CmdSetRoomDataInternal
unfoldable pub cmd_set_room_data_internal :
    Env → Server → Option SetRoomDataInternalRequest → Outcome ℕ
unfolding set_internal
cmd_set_room_data_internal env s none = fail malformed s
cmd_set_room_data_internal env s (some req) =
    set_internal env s req (find (s.session.matching_key, req.room_id) s.shared.rooms)

pub record SetRoomMemberDataInternalRequest : Type 0 where
  pub room_id : ℕ
  pub member_id : ℕ
  pub team_id : ℕ
  pub flag_filter : Word
  pub flag_attr : Word
  pub bin_attrs : List BinAttr

-- The loop over the attributes of a member: only 0x59 is written.
unfoldable pub set_member_attrs : ℕ → List BinAttr → MemberBinAttrSlot → MemberBinAttrSlot
set_member_attrs now [] slot = slot
set_member_attrs now (a ∷ rest) slot = set_member_attrs now rest (
    if a.attr_id == 0x59
    then record { is_set = true; attr_id = a.attr_id % 2 ^ 16; bytes = a.bytes; update_date = now }
    else slot)

unfoldable pub member_set : Env → SetRoomMemberDataInternalRequest → RoomMember → RoomMember
unfolding set_member_attrs
member_set env req m = record m {
  team_id = req.team_id % 2 ^ 8;
  flag_attr = merge_flags req.flag_filter req.flag_attr owner_flag m.flag_attr;
  member_bin_attr = set_member_attrs env.now_usec req.bin_attrs m.member_bin_attr;
}

-- The room with the member's new data, written through the pointer into its table.
abbrev pub with_member : ℕ → RoomMember → Room → Room
with_member id m room = record room { members = insert id m room.members }

set_member : Env → Server → SetRoomMemberDataInternalRequest → Room → Option RoomMember → Outcome ℕ
unfolding member_set
set_member env s req room none = fail room_missing s
set_member env s req room (some m) =
    let m' = member_set env req m in
    let after =
      with_room s.session.matching_key req.room_id (with_member (req.member_id % 2 ^ 16) m' room)
        s in
    done after req.room_id (
      send_room_member_event env after req.room_id event_member_data_internal cause_server m'
        env.npid)

set_member_in : Env → Server → SetRoomMemberDataInternalRequest → Option Room → Outcome ℕ
unfolding set_member
set_member_in env s req none = fail room_missing s
set_member_in env s req (some room) =
    set_member env s req room (find (req.member_id % 2 ^ 16) room.members)

-- CmdSetRoomMemberDataInternal
unfoldable pub cmd_set_room_member_data_internal :
    Env → Server → Option SetRoomMemberDataInternalRequest → Outcome ℕ
unfolding set_member_in
cmd_set_room_member_data_internal env s none = fail malformed s
cmd_set_room_member_data_internal env s (some req) =
    set_member_in env s req (find (s.session.matching_key, req.room_id) s.shared.rooms)

pub record SetRoomDataExternalRequest : Type 0 where
  pub room_id : ℕ
  pub search_int_attrs : List IntAttr
  pub search_bin_attrs : List BinAttr
  pub ext_bin_attrs : List BinAttr

abbrev plain_slot : ℕ → List ℕ → BinAttrSlot
plain_slot attr_id bytes = record { is_set = true; attr_id = attr_id; bytes = bytes }

unfoldable pub set_search_bin : List BinAttr → BinAttrSlot → BinAttrSlot
set_search_bin [] slot = slot
set_search_bin (a ∷ rest) slot =
    let attr_id = a.attr_id % 2 ^ 16 in
    set_search_bin rest (if attr_id == 0x54 then plain_slot attr_id a.bytes else slot)

unfoldable pub set_external_bins : List BinAttr → List BinAttrSlot → List BinAttrSlot
set_external_bins [] slots = slots
set_external_bins (a ∷ rest) slots =
    let attr_id = a.attr_id % 2 ^ 16 in
    set_external_bins rest (elim (external_index attr_id) [
      | none ↦ slots
      | some i ↦ set slots i (plain_slot attr_id a.bytes)
    ])

unfoldable pub external_set : SetRoomDataExternalRequest → Room → Room
unfolding set_search_bin set_external_bins
external_set req room = record room {
  search_int_attr = put_int_attrs req.search_int_attrs room.search_int_attr;
  search_bin_attr = set_search_bin req.search_bin_attrs room.search_bin_attr;
  external_bin_attr = set_external_bins req.ext_bin_attrs room.external_bin_attr;
}

set_external : Server → SetRoomDataExternalRequest → Option Room → Outcome ℕ
unfolding external_set
set_external s req none = fail room_missing s
set_external s req (some room) =
    done (with_room s.session.matching_key req.room_id (external_set req room) s) req.room_id []

-- CmdSetRoomDataExternal
unfoldable pub cmd_set_room_data_external : Server → Option SetRoomDataExternalRequest → Outcome ℕ
unfolding set_external
cmd_set_room_data_external s none = fail malformed s
cmd_set_room_data_external s (some req) =
    set_external s req (find (s.session.matching_key, req.room_id) s.shared.rooms)
