-- ===== src/Matching/Listings.antt =====
-- What matchmaking lists of rooms, members and users: BuildRoomDataInternal, BuildRoomMemberData,
-- BuildCreateJoinResponse, CmdGetRoomDataExternalList, CmdGetRoomMemberDataExternalList,
-- CmdGetUserInfoList and CmdSetUserInfo of src/cmd_matching.cpp.
pub mod Laws
use shad_net.Prelude.{
  ℕ, ◌%◌, ◌^◌, Bool, true, false, Option, none, some, String, List, [], ◌∷◌, if◌then◌else◌, ◌==◌,
  ◌&&◌, ◌≡◌, ◌↔◌, arith, nat_eq, string_eq, Eq,
}
use shad_net.Prelude.Assoc.{Assoc, find, insert, keys}
use shad_net.Prelude.Bits.{Word, bit_and, test_bit}
use shad_net.Prelude.Sorting.{sort}
use shad_net.Matching.Types.{
  Room, RoomMember, RoomGroup, BinAttrSlot, InternalBinAttrSlot, MemberBinAttrSlot, SharedState,
  account_of,
}
use shad_net.Matching.Room.{find_by_npid}
use shad_net.Matching.Slots.{joined_slot_mask}
use shad_net.Matching.Create.Request.{BinAttr}
use shad_net.Matching.Session.{Env, Server, Outcome, malformed, not_found, fail, done, pair_eq}
use shad_net.Matching.Search.{
  RoomDataExternal, build_room_data_external, requested_attr_ids, attr_wanted,
}

-- MatchingRoomDataInternal: the fields that are computed, and the room that the others copy.
pub record RoomDataInternal : Type 0 where
  pub room : Room
  pub joined_mask : Word
  pub bin_attrs : List InternalBinAttrSlot

unfoldable pub set_attrs : List InternalBinAttrSlot → List InternalBinAttrSlot
set_attrs [] = []
set_attrs (slot ∷ slots) = let rest = set_attrs slots in if slot.is_set then slot ∷ rest else rest

abbrev pub build_room_data_internal : Room → RoomDataInternal
build_room_data_internal room = record {
  room = room;
  joined_mask = joined_slot_mask room;
  bin_attrs = set_attrs room.internal_bin_attr;
}

-- MatchingRoomMemberData: the fields that are computed, and the member that the others copy.
pub record RoomMemberData : Type 0 where
  pub member : RoomMember
  pub is_owner : Bool
  pub account_id : ℕ
  pub bin_attrs : List MemberBinAttrSlot

abbrev pub build_room_member_data : RoomMember → RoomMemberData
build_room_member_data m = record {
  member = m;
  is_owner = test_bit m.flag_attr 31;
  account_id = account_of m.user_id;
  bin_attrs = if m.member_bin_attr.is_set then m.member_bin_attr ∷ [] else [];
}

-- The members under the ids of a list; an id that no member has is passed over.
unfoldable pub members_at : Assoc ℕ RoomMember → List ℕ → List RoomMember
members_at table [] = []
members_at table (id ∷ ids) =
    let rest = members_at table ids in elim (find id table) [ none ↦ rest | some m ↦ m ∷ rest ]

-- The members of a room, as its listings have them.
unfoldable pub listed_members : Room → List RoomMember
unfolding members_at
listed_members room = members_at room.members (sort (keys room.members))

unfoldable pub all_member_data : List RoomMember → List RoomMemberData
all_member_data [] = []
all_member_data (m ∷ ms) = build_room_member_data m ∷ all_member_data ms

pub record CreateJoinResponse : Type 0 where
  pub room_data : RoomDataInternal
  pub members : List RoomMemberData
  pub me_member_id : ℕ
  pub owner_member_id : ℕ

-- BuildCreateJoinResponse
abbrev pub build_create_join_response : Room → RoomMember → CreateJoinResponse
unfolding listed_members all_member_data
build_create_join_response room me = record {
  room_data = build_room_data_internal room;
  members = all_member_data (listed_members room);
  me_member_id = me.member_id;
  owner_member_id = room.owner_member_id;
}

pub record GetRoomDataExternalListRequest : Type 0 where
  pub room_ids : List ℕ
  pub attr_ids : List ℕ

-- The loop over the ids of the request.
unfoldable pub rooms_at : String → Assoc (String × ℕ) Room → List ℕ → List ℕ → List RoomDataExternal
rooms_at key rooms wanted [] = []
rooms_at key rooms wanted (id ∷ ids) =
    let rest = rooms_at key rooms wanted ids in
    elim (find (key, id) rooms) [
      | none ↦ rest
      | some room ↦ build_room_data_external wanted room ∷ rest
    ]

-- CmdGetRoomDataExternalList
unfoldable pub cmd_get_room_data_external_list :
    Server → Option GetRoomDataExternalListRequest → Outcome (List RoomDataExternal)
unfolding rooms_at
cmd_get_room_data_external_list s none = fail malformed s
cmd_get_room_data_external_list s (some req) =
    done s
      (rooms_at s.session.matching_key s.shared.rooms (requested_attr_ids req.attr_ids)
        req.room_ids)
      []

pub record RoomMemberDataExternal : Type 0 where
  pub npid : String
  pub member_id : ℕ
  pub account_id : ℕ
  pub platform : ℕ
  pub join_date : ℕ
  pub role : ℕ

abbrev pub member_data_external : ℕ → RoomMember → RoomMemberDataExternal
member_data_external owner m = record {
  npid = m.npid;
  member_id = m.member_id;
  account_id = account_of m.user_id;
  platform = m.platform;
  join_date = m.join_date;
  role = if m.member_id == owner then 2 else 1;
}

unfoldable pub all_member_data_external : ℕ → List RoomMember → List RoomMemberDataExternal
all_member_data_external owner [] = []
all_member_data_external owner (m ∷ ms) =
    member_data_external owner m ∷ all_member_data_external owner ms

-- CmdGetRoomMemberDataExternalList; the request is the room's id.
unfoldable pub cmd_get_room_member_data_external_list :
    Server → Option ℕ → Outcome (List RoomMemberDataExternal)
unfolding listed_members all_member_data_external
cmd_get_room_member_data_external_list s none = fail malformed s
cmd_get_room_member_data_external_list s (some room_id) =
    elim (find (s.session.matching_key, room_id) s.shared.rooms) [
      | none ↦ fail not_found s
      | some room ↦ done s (all_member_data_external room.owner_member_id (listed_members room)) []
    ]

-- Keys that pair a matching key with an online id.
pub name_pair_beq : String × String → String × String → Bool
name_pair_beq (a, b) (c, d) = (a == c) && (b == d)

pub name_pair_beq_iff : (p q : String × String) → (name_pair_beq p q ≡ true) ↔ (p ≡ q)
unfolding name_pair_beq
name_pair_beq_iff (a, b) (c, d) = ground (arith, string_eq.beq_iff a c, string_eq.beq_iff b d)

instance abbrev pub name_pair_eq : Eq (String × String)
name_pair_eq = record { beq = name_pair_beq; beq_iff = name_pair_beq_iff }

-- The slots that CmdSetUserInfo keeps.
unfoldable pub user_attrs : List BinAttr → List BinAttrSlot
user_attrs [] = []
user_attrs (a ∷ rest) =
    record { is_set = true; attr_id = a.attr_id % 2 ^ 16; bytes = a.bytes } ∷ user_attrs rest

-- CmdSetUserInfo; the request is its attributes.
unfoldable pub cmd_set_user_info : Env → Server → Option (List BinAttr) → Outcome Unit
unfolding user_attrs
cmd_set_user_info env s none = fail malformed s
cmd_set_user_info env s (some bins) =
    let kept : SharedState = record s.shared {
      user_info = insert (s.session.matching_key, env.npid) (user_attrs bins) s.shared.user_info;
    } in
    done (record s { shared = kept }) tt []

pub record GetUserInfoListRequest : Type 0 where
  pub npids : List String
  pub attr_ids : List ℕ

pub record UserInfo : Type 0 where
  pub npid : String
  pub account_id : ℕ
  pub platform : ℕ
  pub user_bin_attrs : List BinAttr

-- Account and platform of a user whom the room does not have.
abbrev no_account : ℕ × ℕ
no_account = (0, 0)

-- Account and platform of a user that the session's room has.
abbrev seated_account : String → Option Room → ℕ × ℕ
seated_account npid none = no_account
seated_account npid (some room) = elim (find_by_npid npid room) [
  | none ↦ no_account
  | some m ↦ (account_of m.user_id, m.platform)
]

unfoldable pub wanted_user_attrs : List ℕ → List BinAttrSlot → List BinAttr
wanted_user_attrs ids [] = []
wanted_user_attrs ids (slot ∷ slots) =
    let rest = wanted_user_attrs ids slots in
    if slot.is_set && attr_wanted ids slot.attr_id
    then record { attr_id = slot.attr_id; bytes = slot.bytes } ∷ rest
    else rest

user_with : Env → String → List ℕ → ℕ × ℕ → Option (List BinAttrSlot) → UserInfo
unfolding wanted_user_attrs
user_with env npid ids seat none = record {
  npid = npid;
  account_id = seat.0;
  platform = seat.1;
  user_bin_attrs = [];
}
user_with env npid ids seat (some slots) =
    let own : ℕ × ℕ =
      if (seat.0 == 0) && (npid == env.npid) then (account_of env.user_id, 3) else seat in
    record {
      npid = npid;
      account_id = own.0;
      platform = own.1;
      user_bin_attrs = wanted_user_attrs ids slots;
    }

unfoldable pub user_info_of : Env → Server → List ℕ → String → UserInfo
unfolding user_with
user_info_of env s ids npid =
    let room = find (s.session.matching_key, s.session.room_id) s.shared.rooms in
    user_with env npid ids (seated_account npid room)
      (find (s.session.matching_key, npid) s.shared.user_info)

unfoldable pub user_infos : Env → Server → List ℕ → List String → List UserInfo
unfolding user_info_of
user_infos env s ids [] = []
user_infos env s ids (npid ∷ npids) = user_info_of env s ids npid ∷ user_infos env s ids npids

-- CmdGetUserInfoList
unfoldable pub cmd_get_user_info_list :
    Env → Server → Option GetUserInfoListRequest → Outcome (List UserInfo)
unfolding user_infos
cmd_get_user_info_list env s none = fail malformed s
cmd_get_user_info_list env s (some req) =
    done s (user_infos env s (requested_attr_ids req.attr_ids) req.npids) []
