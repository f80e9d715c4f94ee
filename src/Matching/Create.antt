-- ===== src/Matching/Create.antt =====
-- CmdCreateRoom of src/cmd_matching.cpp.
pub mod Request
pub mod Groups
pub mod Attrs
use shad_net.Prelude.{
  ℕ, zero, suc, ◌+◌, ◌-◌, ◌%◌, ◌^◌, Bool, true, false, Option, none, some, String, List, [], ◌∷◌,
  ◌++◌, if◌then◌else◌, ◌==◌, ◌!=◌, nat_eq, ltb, ◌||◌, length, replicate, set, get_elem?,
}
use shad_net.Prelude.Assoc.{insert}
use shad_net.Prelude.Bits.{Word, bit_and, bit_not}
use shad_net.Matching.Types.{
  Room, RoomMember, RoomGroup, SharedState, SessionState, IntAttrSlot, new_room, new_member,
  full_flag, owner_flag, MemberBinAttrSlot,
}
use shad_net.Matching.Slots.{recompute_room_slot_counts}
use shad_net.Matching.Room.{add_member}
use shad_net.Matching.Leave.{ids_of}
use shad_net.Matching.Session.{
  Env, Server, Outcome, malformed, fail, done, pair_eq, self_signaling_addr,
}
use shad_net.Matching.Create.Request.{IntAttr, BinAttr, GroupConfig, CreateRoomRequest}
use shad_net.Matching.Create.Groups.{
  bytes_empty, bytes_beq, is_none, create_groups, owner_group, join_group,
}
use shad_net.Matching.Create.Attrs.{
  put_int_attr, put_int_attrs, member_attr, internal_index, external_index, apply_create_bin_attr,
  apply_create_bin_attrs,
}

abbrev pub nonzero_or : ℕ → ℕ → ℕ
nonzero_or n m = if n == 0 then m else n

-- `room.roomPassword`: a given one, or eight zero bytes where one is only said to be present.
abbrev password_of : CreateRoomRequest → Option (List ℕ)
password_of req =
    if bytes_empty req.room_password
    then (if req.room_password_present then some (replicate 8 0) else none)
    else some req.room_password

-- The room before its owner joins.
unfoldable pub blank_room : Env → SessionState → ℕ → CreateRoomRequest → Room
unfolding create_groups put_int_attrs
blank_room env m room_id req = record new_room {
  room_id = room_id;
  max_slot = if ltb (req.max_slots % 2 ^ 16) 1 then 1 else req.max_slots % 2 ^ 16;
  server_id = m.server_id;
  world_id = nonzero_or req.world_id m.world_id;
  lobby_id = nonzero_or req.lobby_id m.lobby_id;
  flag_attr = bit_and req.flags (bit_not full_flag);
  signaling_type = req.sig_type % 2 ^ 8;
  signaling_flag = req.sig_flag % 2 ^ 8;
  signaling_hub_member_id = req.sig_main_member % 2 ^ 16;
  allowed_users = req.allowed_online_ids;
  blocked_users = req.blocked_online_ids;
  allowed_account_ids = req.allowed_account_ids;
  blocked_account_ids = req.blocked_account_ids;
  room_password = password_of req;
  passwd_slot_mask = elim req.passwd_slot_mask [ none ↦ new_room.passwd_slot_mask | some w ↦ w ];
  groups = create_groups req;
  search_int_attr = put_int_attrs req.search_int_attrs new_room.search_int_attr;
}

unfoldable pub owner_member : Env → SharedState → CreateRoomRequest → ℕ → RoomMember
unfolding member_attr
owner_member env shared req group_id =
    let (addr, port) = self_signaling_addr env shared in
    record new_member {
      user_id = env.user_id;
      npid = env.npid;
      avatar_url = env.avatar_url;
      addr = addr;
      port = port;
      join_date = env.now_usec;
      team_id = req.team_id % 2 ^ 8;
      flag_attr = owner_flag;
      group_id = group_id;
      member_bin_attr = member_attr env.now_usec req.member_bin_attrs new_member.member_bin_attr;
    }

-- The room with its owner, its attributes and its counts, and the owner as a member.
unfoldable pub build_room :
    Env → SessionState → SharedState → ℕ → CreateRoomRequest → Room × RoomMember
unfolding blank_room join_group owner_member apply_create_bin_attrs
build_room env m shared room_id req =
    let blank = blank_room env m room_id req in
    let (group_id, groups) = join_group req.join_group_label blank.groups in
    let (joined, me) =
      add_member (owner_member env shared req group_id) (record blank { groups = groups }) in
    let owned = record joined { owner_member_id = me.member_id } in
    let attrs = req.internal_bin_attrs ++ req.search_bin_attrs ++ req.external_bin_attrs in
    (recompute_room_slot_counts (apply_create_bin_attrs me.join_date me.member_id attrs owned), me)

-- The room enters the map and the index of its world, or else of its lobby.
unfoldable pub publish_room : String → Room → SharedState → SharedState
publish_room key room shared =
    let listed = record shared { rooms = insert (key, room.room_id) room shared.rooms } in
    if room.world_id != 0
    then record listed {
      world_rooms =
          insert (key, room.world_id)
            (ids_of (key, room.world_id) listed.world_rooms ++ room.room_id ∷ [])
            listed.world_rooms;
    }
    else if room.lobby_id != 0
    then record listed {
      lobby_rooms =
          insert (key, room.lobby_id)
            (ids_of (key, room.lobby_id) listed.lobby_rooms ++ room.room_id ∷ [])
            listed.lobby_rooms;
    }
    else listed

-- The session after it has entered a room; its world and lobby are 16 bits wide.
abbrev pub entered : Room → ℕ → Bool → SessionState → SessionState
entered room member_id owner m = record m {
  room_id = room.room_id;
  my_member_id = member_id;
  is_room_owner = owner;
  max_slots = room.max_slot;
  room_flags = room.flag_attr;
  server_id = room.server_id;
  world_id = room.world_id % 2 ^ 16;
  lobby_id = room.lobby_id % 2 ^ 16;
}

-- The reply to CreateRoom and JoinRoom: the ids, the members' number and the room.
pub record EnterReply : Type 0 where
  pub room_id : ℕ
  pub member_id : ℕ
  pub max_slots : ℕ
  pub flags : Word
  pub cur_members : ℕ
  pub details : Room

abbrev pub enter_reply : Room → ℕ → ℕ → EnterReply
enter_reply room member_id cur_members = record {
  room_id = room.room_id;
  member_id = member_id;
  max_slots = room.max_slot;
  flags = room.flag_attr;
  cur_members = cur_members;
  details = room;
}

-- CmdCreateRoom
unfoldable pub cmd_create_room : Env → Server → Option CreateRoomRequest → Outcome EnterReply
cmd_create_room env s none = fail malformed s
cmd_create_room env s (some req) =
    let room_id = s.shared.next_room_id in
    let shared = record s.shared { next_room_id = (room_id + 1) % 2 ^ 64 } in
    let (room, me) = build_room env s.session shared room_id req in
    done
      (record {
        session = entered room me.member_id true s.session;
        shared = publish_room s.session.matching_key room shared;
      })
      (enter_reply room me.member_id 1) []
