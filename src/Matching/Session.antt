-- ===== src/Matching/Session.antt =====
-- What a matchmaking handler works on: the session, the shared rooms, the requests that
-- `decodeProto` hands it (`none`: it failed), and the notifications that it sends. The time, the
-- peer's address and the online clients are its environment.
use shad_net.Prelude.{
  ℕ, Bool, true, false, Option, none, some, String, List, [], ◌∷◌, ◌++◌, if◌then◌else◌, ◌==◌,
  string_eq, nat_eq, Eq, ◌&&◌, ◌≡◌, ◌↔◌, arith, contains,
}
use shad_net.Prelude.Int.{ℤ, int_eq}
use shad_net.Prelude.Assoc.{Assoc, find, values}
use shad_net.Prelude.Bits.{Word}
use shad_net.Matching.Types.{RoomMember, SharedState, SessionState, InternalBinAttrSlot, empty_word}

-- Keys that pair a matching key with a number.
pub pair_beq : String × ℕ → String × ℕ → Bool
pair_beq (s, m) (t, n) = (s == t) && (m == n)

pub pair_beq_iff : (a b : String × ℕ) → (pair_beq a b ≡ true) ↔ (a ≡ b)
unfolding pair_beq
pair_beq_iff (s, m) (t, n) = ground (arith, string_eq.beq_iff s t)

instance abbrev pub pair_eq : Eq (String × ℕ)
pair_eq = record { beq = pair_beq; beq_iff = pair_beq_iff }

-- The values of ErrorType (src/protocol.h) that matchmaking answers with.
pub data ErrorType : Type 0 where
  no_error malformed invalid invalid_input room_missing room_already_joined room_full : ErrorType
  unauthorized not_found blocked : ErrorType

pub record Env : Type 0 where
  pub user_id : ℤ
  pub npid : String
  pub avatar_url : String
  pub peer_address : String
  pub now_usec : ℕ
  pub npid_to_user_id : Assoc String ℤ
  pub clients : List ℤ

pub record Server : Type 0 where
  pub session : SessionState
  pub shared : SharedState

-- NotifyRoomEvent and NotifyRoomMessage
pub data Note : Type 0 where
  member_event : (ctx room event cause : ℕ) → RoomMember → Note
  target_event : (ctx room event cause : ℕ) (error_code : ℤ) → Note
  data_event :
      (ctx room event cause : ℕ) (flags : Word) (passwd_mask : Option Word)
      → List InternalBinAttrSlot
      → Note
  message :
      (ctx room src_member event cast_type : ℕ) (src_npid : String) (src_account src_platform : ℕ)
      → List ℕ
      → List ℕ
      → Note

pub record Sent : Type 0 where
  pub to_user : ℤ
  pub note : Note

pub record Outcome (R : Type 0) : Type 0 where
  pub error : ErrorType
  pub after : Server
  pub reply : Option R
  pub sent : List Sent

module _ {R : Type 0} where
  abbrev pub fail : ErrorType → Server → Outcome R
  fail e s = record { error = e; after = s; reply = none; sent = [] }

  abbrev pub done : Server → R → List Sent → Outcome R
  done s r sent = record { error = no_error; after = s; reply = some r; sent = sent }

abbrev user_online : Env → Option ℤ → Note → List Sent
user_online env none note = []
user_online env (some u) note =
    if contains env.clients u then record { to_user = u; note = note } ∷ [] else []

-- SendMatchingNotification
unfoldable pub send_matching_notification : Env → Note → String → List Sent
send_matching_notification env note npid = user_online env (find npid env.npid_to_user_id) note

unfoldable pub notify_each : Env → Note → String → List RoomMember → List Sent
unfolding send_matching_notification
notify_each env note exclude [] = []
notify_each env note exclude (m ∷ ms) =
    let rest = notify_each env note exclude ms in
    if m.npid == exclude then rest else send_matching_notification env note m.npid ++ rest

-- NotifyRoomMembers
unfoldable pub notify_room_members : Env → Note → String → ℕ → String → SharedState → List Sent
unfolding notify_each
notify_room_members env note key room_id exclude shared = elim (find (key, room_id) shared.rooms) [
  | none ↦ []
  | some room ↦ notify_each env note exclude (values room.members)
]

-- SendRoomMemberEvent
abbrev pub send_room_member_event : Env → Server → ℕ → ℕ → ℕ → RoomMember → String → List Sent
send_room_member_event env s room_id event cause m exclude =
    notify_room_members env (member_event s.session.ctx_id room_id event cause m)
      s.session.matching_key room_id exclude s.shared

-- SendRoomEventToTarget
abbrev pub send_room_event_to_target : Env → Server → ℕ → ℕ → ℕ → ℤ → String → List Sent
send_room_event_to_target env s room_id event cause code npid =
    send_matching_notification env (target_event s.session.ctx_id room_id event cause code) npid

abbrev or_peer : Env → Option (String × ℕ) → String × ℕ
or_peer env none = (env.peer_address, 0)
or_peer env (some (addr, port)) = if addr == "" then (env.peer_address, port) else (addr, port)

-- GetSelfSignalingAddr; the session's socket is there.
unfoldable pub self_signaling_addr : Env → SharedState → String × ℕ
self_signaling_addr env shared = or_peer env (find env.npid shared.udp_ext)

-- ResetMatchingRoomState
unfoldable pub reset_matching_room_state : ℕ → SessionState → SessionState
reset_matching_room_state room_id m =
    if room_id == 0
    then m
    else if m.room_id == room_id
    then record m {
      room_id = 0;
      my_member_id = 0;
      is_room_owner = false;
      max_slots = 0;
      room_flags = empty_word 32;
    }
    else m

abbrev pub event_member_joined : ℕ
event_member_joined = 0x1101

abbrev pub event_member_left : ℕ
event_member_left = 0x1102

abbrev pub event_kicked_out : ℕ
event_kicked_out = 0x1103

abbrev pub event_room_data_internal : ℕ
event_room_data_internal = 0x1106

abbrev pub event_member_data_internal : ℕ
event_member_data_internal = 0x1107

abbrev pub cause_leave : ℕ
cause_leave = 1

abbrev pub cause_kickout : ℕ
cause_kickout = 2

abbrev pub cause_server : ℕ
cause_server = 4
