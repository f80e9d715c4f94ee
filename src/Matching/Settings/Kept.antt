-- ===== src/Matching/Settings/Kept.antt =====
-- The handlers that set the data of rooms and members keep every room in order.
use shad_net.Prelude.{ℕ, ◌%◌, ◌^◌, Option, none, some, Option-cases, inl, inr, String, nat_eq}
use shad_net.Prelude.Assoc.{find}
use shad_net.Matching.Session.{Env, Server, pair_eq}
use shad_net.Matching.RoomMap.{IsRooms, IsRooms-insert}
use shad_net.Matching.Settings.{
  SetRoomDataInternalRequest, SetRoomMemberDataInternalRequest, SetRoomDataExternalRequest,
  cmd_set_room_data_internal, cmd_set_room_member_data_internal, cmd_set_room_data_external,
  internal_set, member_set, with_member, external_set,
}
use shad_net.Matching.Settings.Laws.{internal_set-IsRoom, member_set-IsRoom, external_set-IsRoom}

module _ (env : Env) (s : Server) (v : IsRooms s.shared.rooms) where
  pub set_room-IsRooms :
      (req : Option SetRoomDataInternalRequest)
      → IsRooms (cmd_set_room_data_internal env s req).after.shared.rooms
  unfolding cmd_set_room_data_internal IsRooms
  set_room-IsRooms none = v
  set_room-IsRooms (some req) =
      let key : String × ℕ = (s.session.matching_key, req.room_id) in
      elim (Option-cases (find key s.shared.rooms)) [
        | inl n ↦ rw (n, cmd_set_room_data_internal) v
        | inr (room, y) ↦
            rw (y, cmd_set_room_data_internal)
              (IsRooms-insert key (internal_set env req room).0 s.shared.rooms v
                (internal_set-IsRoom env req room (v key room y)))
      ]

  pub set_member-IsRooms :
      (req : Option SetRoomMemberDataInternalRequest)
      → IsRooms (cmd_set_room_member_data_internal env s req).after.shared.rooms
  unfolding cmd_set_room_member_data_internal IsRooms
  set_member-IsRooms none = v
  set_member-IsRooms (some req) =
      let key : String × ℕ = (s.session.matching_key, req.room_id) in
      let id = req.member_id % 2 ^ 16 in
      elim (Option-cases (find key s.shared.rooms)) [
        | inl n ↦ rw (n, cmd_set_room_member_data_internal) v
        | inr (room, y) ↦ elim (Option-cases (find id room.members)) [
          | inl n ↦ rw (y, n, cmd_set_room_member_data_internal) v
          | inr (m, z) ↦
              rw (y, z, cmd_set_room_member_data_internal)
                (IsRooms-insert key (with_member id (member_set env req m) room) s.shared.rooms v
                  (member_set-IsRoom env req room id m (v key room y) z))
        ]
      ]

pub set_search-IsRooms :
    (s : Server)
    → IsRooms s.shared.rooms
    → (req : Option SetRoomDataExternalRequest)
    → IsRooms (cmd_set_room_data_external s req).after.shared.rooms
unfolding cmd_set_room_data_external IsRooms
set_search-IsRooms s v none = v
set_search-IsRooms s v (some req) =
    let key : String × ℕ = (s.session.matching_key, req.room_id) in
    elim (Option-cases (find key s.shared.rooms)) [
      | inl n ↦ rw (n, cmd_set_room_data_external) v
      | inr (room, y) ↦
          rw (y, cmd_set_room_data_external)
            (IsRooms-insert key (external_set req room) s.shared.rooms v
              (external_set-IsRoom req room (v key room y)))
    ]
