-- ===== src/Matching/Kick.antt =====
-- CmdKickoutRoomMember of src/cmd_matching.cpp.
use shad_net.Prelude.{
  ℕ, ◌-◌, ◌%◌, ◌^◌, false, Option, none, some, [], ◌∷◌, ◌++◌, if◌then◌else◌, ◌==◌, ◌!=◌, string_eq,
  nat_eq, ◌||◌, ◌&&◌, not, contains,
}
use shad_net.Prelude.Int.{ℤ, negsuc}
use shad_net.Prelude.Assoc.{find, insert}
use shad_net.Matching.Types.{Room, RoomMember, new_member}
use shad_net.Matching.Leave.{without_member, my_seat, settle_room}
use shad_net.Matching.Session.{
  Env, Server, Outcome, ErrorType, malformed, room_missing, unauthorized, invalid_input, not_found,
  fail, done, pair_eq, send_room_member_event, send_room_event_to_target, event_member_left,
  event_kicked_out, cause_kickout,
}

pub record KickoutRequest : Type 0 where
  pub room_id : ℕ
  pub target_member_id : ℕ
  pub block_kick_flag : ℕ

-- MATCHING2_KICKEDOUT_STATUS_CODE: 0xFF000019 as an int32_t.
abbrev pub kicked_out_status : ℤ
kicked_out_status = negsuc (2 ^ 32 - 1 - 0xFF000019)

-- The checks before a member is removed, in their order.
unfoldable pub kick_refusal :
    KickoutRequest → Room → RoomMember → Option RoomMember → Option ErrorType
kick_refusal req room me target =
    let target_id = req.target_member_id % 2 ^ 16 in
    if room.owner_member_id != me.member_id
    then some unauthorized
    else if target_id == 0 || target_id == me.member_id
    then some invalid_input
    else elim target [ none ↦ some not_found | some m ↦ none ]

unfoldable pub block_kicked : KickoutRequest → RoomMember → Room → Room
block_kicked req target room =
    if req.block_kick_flag != 0 && not (contains room.blocked_users target.npid)
    then record room { blocked_users = room.blocked_users ++ target.npid ∷ [] }
    else room

-- The room without the target; its owner stays.
unfoldable pub kicked_room : KickoutRequest → RoomMember → Room → Room
unfolding block_kicked
kicked_room req target room =
    settle_room false
      (without_member (req.target_member_id % 2 ^ 16) (block_kicked req target room))

kick_target : Env → Server → KickoutRequest → Room → Option RoomMember → Outcome ℕ
kick_target env s req room none = fail not_found s
kick_target env s req room (some target) =
    let target_id = req.target_member_id % 2 ^ 16 in
    let after : Server = record s {
      shared = record s.shared {
        rooms =
            insert (s.session.matching_key, req.room_id) (kicked_room req target room)
              s.shared.rooms;
      };
    } in
    let left = record new_member { member_id = target_id; npid = target.npid } in
    done after req.room_id (
      send_room_event_to_target env after req.room_id event_kicked_out cause_kickout
        kicked_out_status target.npid
      ++ send_room_member_event env after req.room_id event_member_left cause_kickout left
          target.npid)

kick_checked :
    Env → Server → KickoutRequest → Room → Option RoomMember → Option ErrorType → Outcome ℕ
unfolding kick_target
kick_checked env s req room target (some e) = fail e s
kick_checked env s req room target none = kick_target env s req room target

kick_seat : Env → Server → KickoutRequest → Option (Room × RoomMember) → Outcome ℕ
unfolding kick_checked
kick_seat env s req none = fail room_missing s
kick_seat env s req (some (room, me)) =
    let target = find (req.target_member_id % 2 ^ 16) room.members in
    kick_checked env s req room target (kick_refusal req room me target)

-- CmdKickoutRoomMember
unfoldable pub cmd_kickout_room_member : Env → Server → Option KickoutRequest → Outcome ℕ
unfolding kick_seat my_seat
cmd_kickout_room_member env s none = fail malformed s
cmd_kickout_room_member env s (some req) = kick_seat env s req (my_seat env s req.room_id)
