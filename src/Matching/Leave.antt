-- ===== src/Matching/Leave.antt =====
-- Leaving a room: CmdLeaveRoom, DoLeaveRoom and CleanupMatchingOnDisconnect of
-- src/cmd_matching.cpp. The two handlers share the change of the room.
use shad_net.Prelude.{
  ℕ, Bool, true, false, Option, none, some, String, List, [], ◌∷◌, if◌then◌else◌, ◌==◌, ◌!=◌,
  nat_eq, string_eq, keep_if, is_some, not,
}
use shad_net.Prelude.Assoc.{Assoc, find, insert, remove}
use shad_net.Prelude.Bits.{bit_and, bit_or, bit_not}
use shad_net.Matching.Types.{Room, RoomMember, SharedState, new_member, full_flag, owner_flag}
use shad_net.Matching.Slots.{recompute_room_slot_counts}
use shad_net.Matching.Room.{find_by_npid, find_by_id, remove_member, is_empty}
use shad_net.Matching.Session.{
  Env, Server, Outcome, Sent, malformed, room_missing, fail, done, pair_eq, send_room_member_event,
  reset_matching_room_state, event_member_left, cause_leave,
}

-- QVector::removeAll
abbrev pub remove_all : ℕ → List ℕ → List ℕ
remove_all x = keep_if (λ y. y != x)

-- The loop over `ownerSuccession`: the new owner (0 if there is none) and what is left of the list.
unfoldable pub next_in_line : Assoc ℕ RoomMember → List ℕ → ℕ × List ℕ
next_in_line members [] = (0, [])
next_in_line members (cand ∷ rest) =
    let later = next_in_line members rest in
    if is_some (find cand members) then (cand, rest) else later

-- room.members.begin()->memberId; the room is not empty there.
abbrev pub first_member : Assoc ℕ RoomMember → ℕ
first_member [] = 0
first_member ((id, m) ∷ rest) = m.member_id

unfoldable pub mark_owner : ℕ → Option RoomMember → Room → Room
mark_owner id none room = room
mark_owner id (some m) room = record room {
  members = insert id (record m { flag_attr = bit_or m.flag_attr owner_flag }) room.members;
}

-- The owner has left: the room goes to the next in line, or else to the first member.
unfoldable pub hand_over_room : Room → Room
unfolding next_in_line mark_owner
hand_over_room room =
    let (cand, rest) = next_in_line room.members room.owner_succession in
    let new_owner = if cand == 0 then first_member room.members else cand in
    mark_owner new_owner (find_by_id new_owner room)
      (record room { owner_member_id = new_owner; owner_succession = rest })

-- The room without the member.
unfoldable pub without_member : ℕ → Room → Room
unfolding remove_member
without_member id room =
    let (r, found) = remove_member id room in
    record r { owner_succession = remove_all id r.owner_succession }

-- What is done to a room that others stay in.
unfoldable pub settle_room : Bool → Room → Room
unfolding hand_over_room
settle_room was_owner room =
    let r = recompute_room_slot_counts room in
    let open_room = record r { flag_attr = bit_and r.flag_attr (bit_not full_flag) } in
    if was_owner then hand_over_room open_room else open_room

abbrev pub ids_of : String × ℕ → Assoc (String × ℕ) (List ℕ) → List ℕ
ids_of k index = elim (find k index) [ none ↦ [] | some ids ↦ ids ]

-- The room is taken off the index of its world, or else of its lobby.
unfoldable pub drop_from_index : String → ℕ → Room → SharedState → SharedState
drop_from_index key room_id room shared =
    if room.world_id != 0
    then record shared {
      world_rooms =
          insert (key, room.world_id)
            (remove_all room_id (ids_of (key, room.world_id) shared.world_rooms))
            shared.world_rooms;
    }
    else if room.lobby_id != 0
    then record shared {
      lobby_rooms =
          insert (key, room.lobby_id)
            (remove_all room_id (ids_of (key, room.lobby_id) shared.lobby_rooms))
            shared.lobby_rooms;
    }
    else shared

-- What leaving does to the shared rooms, and whether the room is gone.
unfoldable pub leave_shared : String → ℕ → Room → RoomMember → SharedState → SharedState × Bool
leave_shared key room_id room me shared =
    let left = without_member me.member_id room in
    if is_empty left
    then (
      drop_from_index key room_id room
          (record shared { rooms = remove (key, room_id) shared.rooms }),
      true,
    )
    else (
      record shared {
        rooms =
            insert (key, room_id) (settle_room (me.member_id == room.owner_member_id) left)
              shared.rooms;
      },
      false,
    )

-- The room and the member that a leave is about.
abbrev pub seat_in : String → Option Room → Option (Room × RoomMember)
seat_in npid none = none
seat_in npid (some room) = elim (find_by_npid npid room) [ none ↦ none | some m ↦ some (room, m) ]

unfoldable pub my_seat : Env → Server → ℕ → Option (Room × RoomMember)
my_seat env s room_id = seat_in env.npid (find (s.session.matching_key, room_id) s.shared.rooms)

-- The change and the notifications of a leave, which both handlers make.
unfoldable pub leave_seat : Env → Server → ℕ → Room × RoomMember → Server × List Sent
unfolding leave_shared
leave_seat env s room_id (room, me) =
    let (shared, destroyed) = leave_shared s.session.matching_key room_id room me s.shared in
    let after : Server = record {
      session = reset_matching_room_state room_id s.session;
      shared = shared;
    } in
    let left = record new_member { member_id = me.member_id; npid = env.npid } in
    (
      after,
      if destroyed
          then []
          else send_room_member_event env after room_id event_member_left cause_leave left "",
    )

answer_leave : Env → Server → ℕ → Option (Room × RoomMember) → Outcome ℕ
answer_leave env s room_id none = fail room_missing s
answer_leave env s room_id (some seat) =
    let (after, sent) = leave_seat env s room_id seat in done after room_id sent

-- CmdLeaveRoom; the request is the room's id.
unfoldable pub cmd_leave_room : Env → Server → Option ℕ → Outcome ℕ
unfolding answer_leave my_seat leave_seat
cmd_leave_room env s none = fail malformed s
cmd_leave_room env s (some room_id) = answer_leave env s room_id (my_seat env s room_id)

-- DoLeaveRoom
unfoldable pub do_leave_room : Env → Server → ℕ → Server × List Sent
unfolding my_seat leave_seat
do_leave_room env s room_id = elim (my_seat env s room_id) [
  | none ↦ (s, [])
  | some seat ↦ leave_seat env s room_id seat
]

-- CleanupMatchingOnDisconnect
unfoldable pub cleanup_matching_on_disconnect : Env → Server → Server × List Sent
unfolding do_leave_room
cleanup_matching_on_disconnect env s =
    if not s.session.initialized
    then (s, [])
    else if s.session.room_id != 0
    then do_leave_room env s s.session.room_id
    else (s, [])
