-- ===== src/Matching/Invariant.antt =====
-- The rooms of the server under the matchmaking handlers: an invariant of all that can be reached.
-- The handlers of all sessions work on the shared rooms one at a time, under its mutex.
use mathlib.Core.Option.{some-injective}
use shad_net.Prelude.{
  ℕ, ◌+◌, ◌%◌, ◌^◌, ◌≤◌, ◌≡◌, ◌∙◌, ap, sym, subst, Option, none, some, List, [], arith, Bool-cases,
  Option-cases, inl, inr, nat_eq, String, string_eq,
}
use shad_net.Prelude.Assoc.{find}
use shad_net.Matching.Types.{Room, RoomMember, SharedState, SessionState}
use shad_net.Matching.Room.{find_by_npid}
use shad_net.Matching.Session.{Env, Server, pair_eq}
use shad_net.Matching.Leave.{
  my_seat, seat_in, leave_seat, leave_shared, cmd_leave_room, do_leave_room,
  cleanup_matching_on_disconnect,
}
use shad_net.Matching.Create.Request.{CreateRoomRequest}
use shad_net.Matching.Create.{build_room, publish_room, cmd_create_room}
use shad_net.Matching.Join.{JoinRoomRequest, join_refusal, cmd_join_room}
use shad_net.Matching.Kick.{KickoutRequest, kick_refusal, cmd_kickout_room_member}
use shad_net.Matching.Keyed.{find-npid_in}
use shad_net.Matching.Rooms.{IsRoom}
use shad_net.Matching.Leaving.{leave_shared_lem, leave_shared_other}
use shad_net.Matching.Joining.{joined_room_lem, build_room_lem}
use shad_net.Matching.Kicking.{kicked_room_lem}
use shad_net.Matching.Settings.{
  SetRoomDataInternalRequest, SetRoomMemberDataInternalRequest, SetRoomDataExternalRequest,
  cmd_set_room_data_internal, cmd_set_room_member_data_internal, cmd_set_room_data_external,
}
use shad_net.Matching.Settings.Kept.{set_room-IsRooms, set_member-IsRooms, set_search-IsRooms}
use shad_net.Matching.Create.Request.{BinAttr}
use shad_net.Matching.Listings.{cmd_set_user_info}
use shad_net.Matching.Listings.Laws.{cmd_set_user_info_rooms}
use shad_net.Matching.Messages.{SendRoomMessageRequest, cmd_send_room_message}
use shad_net.Matching.Messages.Targets.{send_room_message_after}
use shad_net.Matching.RoomMap.{Rooms, IsRooms, IsRooms-insert}

-- The seat that a request is about: a room of the map, in order, and a member in its table.
abbrev IsSeat : String × ℕ → Rooms → Room × RoomMember → Type 0
IsSeat key rooms seat =
    IsRoom seat.0
    × (find seat.1.member_id seat.0.members ≡ some seat.1)
    × (find key rooms ≡ some seat.0)

find_by_npid-seated :
    (npid : String) (m : RoomMember) (room : Room)
    → IsRoom room
    → find_by_npid npid room ≡ some m
    → find m.member_id room.members ≡ some m
unfolding find_by_npid
find_by_npid-seated npid m room v h = find-npid_in npid m room.members v.keyed h

my_seat-IsSeat :
    (env : Env) (s : Server) (room_id : ℕ) (seat : Room × RoomMember)
    → IsRooms s.shared.rooms
    → my_seat env s room_id ≡ some seat
    → IsSeat (s.session.matching_key, room_id) s.shared.rooms seat
unfolding my_seat IsRooms
my_seat-IsSeat env s room_id seat v h =
    let key : String × ℕ = (s.session.matching_key, room_id) in
    elim (Option-cases (find key s.shared.rooms)) [
      | inl n ↦ cc (rw n at h)
      | inr (r, y) ↦ elim (Option-cases (find_by_npid env.npid r)) [
        | inl n ↦ cc (rw (y, n, seat_in) at h)
        | inr (m, z) ↦
            let here : IsSeat key s.shared.rooms (r, m) =
              (v key r y, find_by_npid-seated env.npid m r (v key r y) z, y) in
            subst (IsSeat key s.shared.rooms) (some-injective (r, m) seat (rw (y, z, seat_in) at h))
              here
      ]
    ]

leave_seat-IsRooms :
    (env : Env) (s : Server) (room_id : ℕ) (seat : Room × RoomMember)
    → IsRooms s.shared.rooms
    → IsSeat (s.session.matching_key, room_id) s.shared.rooms seat
    → IsRooms (leave_seat env s room_id seat).0.shared.rooms
unfolding leave_seat IsRooms
leave_seat-IsRooms env s room_id (room, me) v (ok, seated, there) j other h =
    let key : String × ℕ = (s.session.matching_key, room_id) in
    elim (Bool-cases (pair_eq.beq j key)) [
      | inl y ↦
          let h' =
            ap (λ k. find k (leave_shared key.0 room_id room me s.shared).0.rooms)
              (sym ((pair_eq.beq_iff j key).0 y))
            ∙ h in
          elim (leave_shared_lem key.0 room_id room me s.shared ok seated) [
            | inl (e, one, gone) ↦ cc
            | inr (e, (room', at_key, ok', out, count)) ↦
                subst IsRoom (some-injective room' other (sym at_key ∙ h')) ok'
          ]
      | inr z ↦ v j other (
          sym (
            leave_shared_other key.0 room_id room me s.shared j
              (λ e. cc ((pair_eq.beq_iff j key).1 e)))
          ∙ h)
    ]

module _ (env : Env) (s : Server) (v : IsRooms s.shared.rooms) where
  do_leave_room-IsRooms : (room_id : ℕ) → IsRooms (do_leave_room env s room_id).0.shared.rooms
  unfolding do_leave_room
  do_leave_room-IsRooms room_id = elim (Option-cases (my_seat env s room_id)) [
    | inl n ↦ rw (n, do_leave_room) v
    | inr (seat, y) ↦
        rw (y, do_leave_room)
          (leave_seat-IsRooms env s room_id seat v (my_seat-IsSeat env s room_id seat v y))
  ]

  cmd_leave_room-IsRooms : (req : Option ℕ) → IsRooms (cmd_leave_room env s req).after.shared.rooms
  unfolding cmd_leave_room
  cmd_leave_room-IsRooms none = v
  cmd_leave_room-IsRooms (some room_id) = elim (Option-cases (my_seat env s room_id)) [
    | inl n ↦ rw (n, cmd_leave_room) v
    | inr (seat, y) ↦
        rw (y, cmd_leave_room)
          (leave_seat-IsRooms env s room_id seat v (my_seat-IsSeat env s room_id seat v y))
  ]

  cleanup-IsRooms : IsRooms (cleanup_matching_on_disconnect env s).0.shared.rooms
  unfolding cleanup_matching_on_disconnect
  cleanup-IsRooms = ground (arith, v, do_leave_room-IsRooms s.session.room_id)

  cmd_join_room-IsRooms :
      (req : Option JoinRoomRequest) → IsRooms (cmd_join_room env s req).after.shared.rooms
  unfolding cmd_join_room IsRooms
  cmd_join_room-IsRooms none = v
  cmd_join_room-IsRooms (some req) =
      let key : String × ℕ = (s.session.matching_key, req.room_id) in
      elim (Option-cases (find key s.shared.rooms)) [
        | inl n ↦ rw (n, cmd_join_room) v
        | inr (room, y) ↦ elim (Option-cases (join_refusal env req room)) [
          | inl z ↦
              rw (y, z, cmd_join_room)
                (IsRooms-insert key _ s.shared.rooms v
                  (joined_room_lem env s.shared req room (v key room y) z).0)
          | inr (e, z) ↦ rw (y, z, cmd_join_room) v
        ]
      ]

  cmd_kickout-IsRooms :
      (req : Option KickoutRequest) → IsRooms (cmd_kickout_room_member env s req).after.shared.rooms
  unfolding cmd_kickout_room_member
  cmd_kickout-IsRooms none = v
  cmd_kickout-IsRooms (some req) =
      let key : String × ℕ = (s.session.matching_key, req.room_id) in
      let id = req.target_member_id % 2 ^ 16 in
      elim (Option-cases (my_seat env s req.room_id)) [
        | inl n ↦ rw (n, cmd_kickout_room_member) v
        | inr ((room, me), y) ↦
            let (ok, seated, there) = my_seat-IsSeat env s req.room_id (room, me) v y in
            elim (Option-cases (kick_refusal req room me (find id room.members))) [
              | inr (e, z) ↦ rw (y, z, cmd_kickout_room_member) v
              | inl z ↦ elim (Option-cases (find id room.members)) [
                | inl a ↦ rw (y, z, a, cmd_kickout_room_member) v
                | inr (target, a) ↦
                    rw (y, z, a, cmd_kickout_room_member)
                      (IsRooms-insert key _ s.shared.rooms v
                        (kicked_room_lem req room me target ok a (rw a at z)).0)
              ]
            ]
      ]

  cmd_create_room-IsRooms :
      (req : CreateRoomRequest)
      → req.max_slots % 2 ^ 16 ≤ 64
      → IsRooms (cmd_create_room env s (some req)).after.shared.rooms
  unfolding cmd_create_room publish_room
  cmd_create_room-IsRooms req h =
      let shared : SharedState = record s.shared {
        next_room_id = (s.shared.next_room_id + 1) % 2 ^ 64;
      } in
      let room = (build_room env s.session shared s.shared.next_room_id req).0 in
      ground (
        arith,
        IsRooms-insert (s.session.matching_key, room.room_id) room s.shared.rooms v
            (build_room_lem env s.session shared s.shared.next_room_id req h).0,
      )

-- One handler's change, or another session's turn to act on the shared state.
pub data Step : Server → Server → Type 0 where
  switches : (session : SessionState) (s : Server) → Step s (record s { session = session })
  creates :
      (env : Env) (s : Server) (req : CreateRoomRequest)
      → req.max_slots % 2 ^ 16 ≤ 64
      → Step s (cmd_create_room env s (some req)).after
  joins :
      (env : Env) (s : Server) (req : Option JoinRoomRequest)
      → Step s (cmd_join_room env s req).after
  leaves : (env : Env) (s : Server) (req : Option ℕ) → Step s (cmd_leave_room env s req).after
  kicks :
      (env : Env) (s : Server) (req : Option KickoutRequest)
      → Step s (cmd_kickout_room_member env s req).after
  disconnects : (env : Env) (s : Server) → Step s (cleanup_matching_on_disconnect env s).0
  sets_room :
      (env : Env) (s : Server) (req : Option SetRoomDataInternalRequest)
      → Step s (cmd_set_room_data_internal env s req).after
  sets_member :
      (env : Env) (s : Server) (req : Option SetRoomMemberDataInternalRequest)
      → Step s (cmd_set_room_member_data_internal env s req).after
  sets_search :
      (s : Server) (req : Option SetRoomDataExternalRequest)
      → Step s (cmd_set_room_data_external s req).after
  sets_user :
      (env : Env) (s : Server) (bins : Option (List BinAttr))
      → Step s (cmd_set_user_info env s bins).after
  sends :
      (env : Env) (s : Server) (req : Option SendRoomMessageRequest)
      → Step s (cmd_send_room_message env s req).after

pub data Reach : Server → Type 0 where
  start : (s : Server) → s.shared.rooms ≡ [] → Reach s
  next : {s t : Server} → Reach s → Step s t → Reach t

Step-IsRooms : {s t : Server} → Step s t → IsRooms s.shared.rooms → IsRooms t.shared.rooms
Step-IsRooms (switches session s) v = v
Step-IsRooms (creates env s req h) v = cmd_create_room-IsRooms env s v req h
Step-IsRooms (joins env s req) v = cmd_join_room-IsRooms env s v req
Step-IsRooms (leaves env s req) v = cmd_leave_room-IsRooms env s v req
Step-IsRooms (kicks env s req) v = cmd_kickout-IsRooms env s v req
Step-IsRooms (disconnects env s) v = cleanup-IsRooms env s v
Step-IsRooms (sets_room env s req) v = set_room-IsRooms env s v req
Step-IsRooms (sets_member env s req) v = set_member-IsRooms env s v req
Step-IsRooms (sets_search s req) v = set_search-IsRooms s v req
Step-IsRooms (sets_user env s bins) v = subst IsRooms (sym (cmd_set_user_info_rooms env s bins)) v
Step-IsRooms (sends env s req) v =
    subst (λ t. IsRooms t.shared.rooms) (sym (send_room_message_after env s req)) v

IsRooms-none : IsRooms []
unfolding IsRooms find
IsRooms-none k room h = cc

-- Whatever create, join, leave, kick, disconnect, message and data-setting handlers have run, for whichever sessions and
-- in any order, from a server without rooms, with no room created for more than 64 members: every
-- room has its members under their ids, each once, no more of them than its limit, and its owner
-- is one of them.
pub Reach-IsRooms : (s : Server) → Reach s → IsRooms s.shared.rooms
Reach-IsRooms s (start _ e) = subst IsRooms (sym e) IsRooms-none
Reach-IsRooms _ (next r step) = Step-IsRooms step (Reach-IsRooms _ r)
