-- ===== src/Matching/Messages.antt =====
-- CmdSendRoomMessage and CmdRequestSignalingInfos of src/cmd_matching.cpp.
pub mod Targets
use shad_net.Prelude.{
  ℕ, ◌+◌, ◌%◌, ◌^◌, Bool, true, false, Option, none, some, String, List, [], ◌∷◌, ◌++◌,
  if◌then◌else◌, ◌==◌, nat_eq, string_eq,
}
use shad_net.Prelude.Assoc.{Assoc, find, values}
use shad_net.Matching.Types.{Room, RoomMember, SharedState, account_of}
use shad_net.Matching.Room.{find_by_npid}
use shad_net.Matching.Leave.{my_seat}
use shad_net.Matching.Session.{
  Env, Server, Outcome, Sent, Note, message, ErrorType, malformed, room_missing, invalid_input,
  not_found, fail, done, pair_eq, send_matching_notification,
}

pub record SendRoomMessageRequest : Type 0 where
  pub room_id : ℕ
  pub cast_type : ℕ
  pub dst_member_ids : List ℕ
  pub msg : List ℕ

-- MATCHING2_CASTTYPE_BROADCAST, _UNICAST and _MULTICAST
abbrev pub broadcast : ℕ
broadcast = 1

abbrev pub unicast : ℕ
unicast = 2

abbrev pub multicast : ℕ
multicast = 3

-- addTarget, before the targets that follow: the sender is no target.
abbrev pub add_target : String → Option RoomMember → List RoomMember → List RoomMember
add_target npid none targets = targets
add_target npid (some m) targets = if m.npid == npid then targets else m ∷ targets

unfoldable pub targets_by_id : String → Room → List ℕ → List RoomMember
targets_by_id npid room [] = []
targets_by_id npid room (id ∷ ids) =
    add_target npid (find (id % 2 ^ 16) room.members) (targets_by_id npid room ids)

unfoldable pub all_targets : String → List RoomMember → List RoomMember
all_targets npid [] = []
all_targets npid (m ∷ ms) = add_target npid (some m) (all_targets npid ms)

unicast_targets : String → Room → List ℕ → Option (List RoomMember)
unfolding targets_by_id
unicast_targets npid room [] = none
unicast_targets npid room (id ∷ ids) = some (targets_by_id npid room (id ∷ []))

-- The members that a message goes to; `none`: InvalidInput.
unfoldable pub message_targets : String → ℕ → List ℕ → Room → Option (List RoomMember)
unfolding unicast_targets targets_by_id all_targets
message_targets npid cast ids room =
    if cast == unicast
    then unicast_targets npid room ids
    else if cast == multicast
    then some (targets_by_id npid room ids)
    else if cast == broadcast
    then some (all_targets npid (values room.members))
    else none

abbrev ids_of_members : List RoomMember → List ℕ
ids_of_members [] = []
ids_of_members (m ∷ ms) = m.member_id ∷ ids_of_members ms

unfoldable pub send_each : Env → Note → List RoomMember → List Sent
unfolding send_matching_notification
send_each env note [] = []
send_each env note (m ∷ ms) =
    let rest = send_each env note ms in send_matching_notification env note m.npid ++ rest

abbrev room_message : Server → SendRoomMessageRequest → RoomMember → List RoomMember → Note
room_message s req src targets =
    message s.session.ctx_id req.room_id src.member_id 0x2102 (req.cast_type % 2 ^ 8) src.npid
      (account_of src.user_id) src.platform req.msg (ids_of_members targets)

send_to : Env → Server → SendRoomMessageRequest → RoomMember → Option (List RoomMember) → Outcome ℕ
unfolding send_each
send_to env s req src none = fail invalid_input s
send_to env s req src (some []) =
    if req.cast_type % 2 ^ 8 == broadcast then done s req.room_id [] else fail not_found s
send_to env s req src (some (m ∷ ms)) =
    done s req.room_id (send_each env (room_message s req src (m ∷ ms)) (m ∷ ms))

send_from : Env → Server → SendRoomMessageRequest → Option (Room × RoomMember) → Outcome ℕ
unfolding send_to
send_from env s req none = fail room_missing s
send_from env s req (some (room, src)) =
    send_to env s req src (message_targets env.npid (req.cast_type % 2 ^ 8) req.dst_member_ids room)

-- CmdSendRoomMessage
unfoldable pub cmd_send_room_message : Env → Server → Option SendRoomMessageRequest → Outcome ℕ
unfolding send_from my_seat message_targets
cmd_send_room_message env s none = fail malformed s
cmd_send_room_message env s (some req) = send_from env s req (my_seat env s req.room_id)

-- The loop over the rooms of the matching key: the first that has the player.
unfoldable pub seek_member : String → String → Assoc (String × ℕ) Room → Option RoomMember
unfolding find_by_npid
seek_member key npid [] = none
seek_member key npid (((k, id), room) ∷ rooms) =
    let rest = seek_member key npid rooms in
    if k == key then elim (find_by_npid npid room) [ none ↦ rest | some m ↦ some m ] else rest

-- The address of a player: what the STUN server saw, or else that of the player's seat.
unfoldable pub target_addr : String → String → SharedState → String × ℕ
unfolding seek_member
target_addr key npid shared =
    let seen : String × ℕ = elim (find npid shared.udp_ext) [ none ↦ ("", 0) | some a ↦ a ] in
    if seen.0 == ""
    then elim (seek_member key npid shared.rooms) [ none ↦ seen | some m ↦ (m.addr, m.port) ]
    else seen

pub record SignalingInfos : Type 0 where
  pub target_npid : String
  pub target_ip : String
  pub target_port : ℕ
  pub target_member_id : ℕ

-- CmdRequestSignalingInfos; the request is the target's online id.
unfoldable pub cmd_request_signaling_infos : Server → Option String → Outcome SignalingInfos
unfolding target_addr seek_member
cmd_request_signaling_infos s none = fail malformed s
cmd_request_signaling_infos s (some npid) =
    let key = s.session.matching_key in
    let addr = target_addr key npid s.shared in
    if addr.0 == ""
    then fail not_found s
    else done s
        (record {
          target_npid = npid;
          target_ip = addr.0;
          target_port = addr.1;
          target_member_id = elim (seek_member key npid s.shared.rooms) [
            | none ↦ 0
            | some m ↦ m.member_id
          ];
        })
        []
