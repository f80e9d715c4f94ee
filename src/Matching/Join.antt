-- ===== src/Matching/Join.antt =====
-- CmdJoinRoom of src/cmd_matching.cpp.
use shad_net.Prelude.{
  ℕ, ◌%◌, ◌^◌, Bool, true, false, Option, none, some, String, List, [], ◌∷◌, if◌then◌else◌,
  string_eq, nat_eq, leb, ◌||◌, ◌&&◌, not, length, contains, is_some,
}
use shad_net.Prelude.Assoc.{find, insert, values}
use shad_net.Prelude.Bits.{bit_or}
use shad_net.Matching.Types.{Room, RoomMember, SharedState, new_member, full_flag, account_of}
use shad_net.Matching.Slots.{recompute_room_slot_counts}
use shad_net.Matching.Room.{add_member, find_by_npid, is_full}
use shad_net.Matching.Create.Request.{BinAttr}
use shad_net.Matching.Create.{EnterReply, enter_reply, entered}
use shad_net.Matching.Create.Attrs.{member_attr}
use shad_net.Matching.Session.{
  Env, Server, Outcome, ErrorType, malformed, room_missing, room_full, room_already_joined, blocked,
  fail, done, pair_eq, self_signaling_addr, send_room_member_event, event_member_joined,
  cause_server,
}

-- The fields of JoinRoomRequest that the handler reads.
pub record JoinRoomRequest : Type 0 where
  pub room_id : ℕ
  pub team_id : ℕ
  pub member_bin_attrs : List BinAttr
  pub blocked_online_ids : List String
  pub blocked_account_ids : List ℕ

abbrev list_empty {ℓ} : {A : Type ℓ} → List A → Bool
list_empty [] = true
list_empty (x ∷ xs) = false

-- The room's own lists refuse the player.
unfoldable pub room_refuses : Env → Room → Bool
room_refuses env room =
    (not (list_empty room.allowed_users) && not (contains room.allowed_users env.npid))
    || (not (list_empty room.allowed_account_ids)
        && not (contains room.allowed_account_ids (account_of env.user_id)))
    || contains room.blocked_users env.npid
    || contains room.blocked_account_ids (account_of env.user_id)

-- The player and a member block one another, either way.
unfoldable pub member_blocks : Env → JoinRoomRequest → RoomMember → Bool
member_blocks env req m =
    contains req.blocked_online_ids m.npid
    || contains req.blocked_account_ids (account_of m.user_id)
    || contains m.blocked_users env.npid
    || contains m.blocked_account_ids (account_of env.user_id)

unfoldable pub any_blocks : Env → JoinRoomRequest → List RoomMember → Bool
unfolding member_blocks
any_blocks env req [] = false
any_blocks env req (m ∷ ms) = if member_blocks env req m then true else any_blocks env req ms

-- The checks before a player joins, in their order.
unfoldable pub join_refusal : Env → JoinRoomRequest → Room → Option ErrorType
join_refusal env req room =
    if is_full room
    then some room_full
    else if is_some (find_by_npid env.npid room)
    then some room_already_joined
    else if room_refuses env room
    then some blocked
    else if any_blocks env req (values room.members)
    then some blocked
    else none

unfoldable pub joiner : Env → SharedState → JoinRoomRequest → RoomMember
joiner env shared req =
    let (addr, port) = self_signaling_addr env shared in
    record new_member {
      user_id = env.user_id;
      npid = env.npid;
      avatar_url = env.avatar_url;
      addr = addr;
      port = port;
      blocked_users = req.blocked_online_ids;
      blocked_account_ids = req.blocked_account_ids;
      join_date = env.now_usec;
      team_id = req.team_id % 2 ^ 8;
      member_bin_attr = member_attr env.now_usec req.member_bin_attrs new_member.member_bin_attr;
    }

-- The FULL flag is set once the members reach the limit.
unfoldable pub flag_full : Room → Room
flag_full room =
    if leb room.max_slot (length room.members % 2 ^ 16)
    then record room { flag_attr = bit_or room.flag_attr full_flag }
    else room

-- The room with the player in it, and the player as a member.
unfoldable pub joined_room : Env → SharedState → JoinRoomRequest → Room → Room × RoomMember
joined_room env shared req room =
    let (with_me, me) = add_member (joiner env shared req) room in
    (flag_full (recompute_room_slot_counts with_me), me)

enter : Env → Server → JoinRoomRequest → Room → Option ErrorType → Outcome EnterReply
enter env s req room (some e) = fail e s
enter env s req room none =
    let (room', me) = joined_room env s.shared req room in
    let after : Server = record {
      session = record (entered room' me.member_id false s.session) { room_id = req.room_id };
      shared = record s.shared {
        rooms = insert (s.session.matching_key, req.room_id) room' s.shared.rooms;
      };
    } in
    done after
      (record (enter_reply room' me.member_id (length room'.members % 2 ^ 16)) {
        room_id = req.room_id;
      })
      (send_room_member_event env after req.room_id event_member_joined cause_server me env.npid)

join_found : Env → Server → JoinRoomRequest → Option Room → Outcome EnterReply
unfolding enter
join_found env s req none = fail room_missing s
join_found env s req (some room) = enter env s req room (join_refusal env req room)

-- CmdJoinRoom
unfoldable pub cmd_join_room : Env → Server → Option JoinRoomRequest → Outcome EnterReply
unfolding join_found
cmd_join_room env s none = fail malformed s
cmd_join_room env s (some req) =
    join_found env s req (find (s.session.matching_key, req.room_id) s.shared.rooms)
