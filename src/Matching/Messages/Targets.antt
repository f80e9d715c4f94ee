-- ===== src/Matching/Messages/Targets.antt =====
-- Whom a message reaches.
use mathlib.Core.Option.{some-injective}
use shad_net.Prelude.{
  ℕ, ◌%◌, ◌^◌, ◌≡◌, ◌≢◌, refl, ap, sym, subst, Option, none, some, List, [], ◌∷◌, String, string_eq,
  nat_eq, arith, Bool-cases, Option-cases, inl, inr, beq_self, keep_if, ◌!=◌,
}
use shad_net.Prelude.Assoc.{Assoc, find, values}
use shad_net.Matching.Types.{Room, RoomMember}
use shad_net.Matching.Leave.{my_seat}
use shad_net.Matching.Session.{Env, Server, pair_eq}
use shad_net.Matching.Messages.{
  add_target, targets_by_id, all_targets, unicast_targets, message_targets, unicast, multicast,
  broadcast, SendRoomMessageRequest, cmd_send_room_message,
}
use shad_net.Matching.Members.{IsKeyed, find-keyed}

-- Each target is a member of the room, in its table, other than the sender.
unfoldable pub AllOthers : String → Room → List RoomMember → Type 0
AllOthers npid room [] = Unit
AllOthers npid room (m ∷ ms) =
    (find m.member_id room.members ≡ some m) × (m.npid ≢ npid) × AllOthers npid room ms

module _ (npid : String) (room : Room) (v : IsKeyed room.members) where
  add_target-AllOthers :
      (id : ℕ) (ms : List RoomMember)
      → AllOthers npid room ms
      → AllOthers npid room (add_target npid (find id room.members) ms)
  unfolding AllOthers
  add_target-AllOthers id ms h = elim (Option-cases (find id room.members)) [
    | inl n ↦ rw n h
    | inr (m, y) ↦ elim (Bool-cases (string_eq.beq m.npid npid)) [
      | inl same ↦ rw (y, same) h
      | inr other ↦
          rw (y, other)
            (
              subst (λ i. find i room.members ≡ some m) (sym (find-keyed id m room.members v y)) y,
              λ e. ground (arith, string_eq.beq_iff m.npid npid),
              h,
            )
    ]
  ]

  targets_by_id-AllOthers : (ids : List ℕ) → AllOthers npid room (targets_by_id npid room ids)
  unfolding targets_by_id AllOthers
  targets_by_id-AllOthers [] = tt
  targets_by_id-AllOthers (id ∷ ids) =
      add_target-AllOthers (id % 2 ^ 16) (targets_by_id npid room ids) (targets_by_id-AllOthers ids)

-- Every member of a list is in the table under its own id.
AllSeated : Assoc ℕ RoomMember → List RoomMember → Type 0
AllSeated table [] = Unit
AllSeated table (m ∷ ms) = (find m.member_id table ≡ some m) × AllSeated table ms

seated_behind :
    (id : ℕ) (n : RoomMember) (table : Assoc ℕ RoomMember) (ms : List RoomMember)
    → find id table ≡ none
    → AllSeated table ms
    → AllSeated ((id, n) ∷ table) ms
unfolding AllSeated find
seated_behind id n table [] h v = tt
seated_behind id n table (m ∷ ms) h v = elim (Bool-cases (nat_eq.beq id m.member_id)) [
  | inl y ↦ ground (arith, v.0)
  | inr z ↦ rw z (v.0, seated_behind id n table ms h v.1)
]

values-AllSeated : (table : Assoc ℕ RoomMember) → IsKeyed table → AllSeated table (values table)
unfolding AllSeated IsKeyed find
values-AllSeated [] v = tt
values-AllSeated ((id, m) ∷ table) v = (
  rw (v.0, beq_self id) refl,
  seated_behind id m table (values table) v.1 (values-AllSeated table v.2),
)

all_targets-AllOthers :
    (npid : String) (room : Room) (ms : List RoomMember)
    → AllSeated room.members ms
    → AllOthers npid room (all_targets npid ms)
unfolding all_targets AllOthers AllSeated
all_targets-AllOthers npid room [] v = tt
all_targets-AllOthers npid room (m ∷ ms) v = elim (Bool-cases (string_eq.beq m.npid npid)) [
  | inl same ↦ rw same (all_targets-AllOthers npid room ms v.1)
  | inr other ↦ rw other (
    v.0,
    λ e. ground (arith, string_eq.beq_iff m.npid npid),
    all_targets-AllOthers npid room ms v.1,
  )
]

all_targets-keep_if :
    (npid : String) (ms : List RoomMember) → all_targets npid ms ≡ keep_if (λ m. m.npid != npid) ms
unfolding all_targets
all_targets-keep_if npid [] = refl
all_targets-keep_if npid (m ∷ ms) = ground (arith, all_targets-keep_if npid ms)

some_others :
    (npid : String) (room : Room) {us : List RoomMember}
    → AllOthers npid room us
    → (ts : List RoomMember) → some us ≡ some ts
    → AllOthers npid room ts
some_others npid room {us} v ts h = subst (AllOthers npid room) (some-injective us ts h) v

unicast_targets-AllOthers :
    (npid : String) (room : Room)
    → IsKeyed room.members
    → (ids : List ℕ) (ts : List RoomMember) → unicast_targets npid room ids ≡ some ts
    → AllOthers npid room ts
unfolding unicast_targets
unicast_targets-AllOthers npid room v [] ts h = absurd (ground (arith, h))
unicast_targets-AllOthers npid room v (id ∷ ids) ts h =
    some_others npid room (targets_by_id-AllOthers npid room v (id ∷ [])) ts h

-- In a room whose members are keyed by their ids, whatever the kind of cast, each target of a message
-- is a member of the room under its own id and is not the sender.
pub message_targets-AllOthers :
    (npid : String) (cast : ℕ) (ids : List ℕ) (room : Room) (ts : List RoomMember)
    → IsKeyed room.members
    → message_targets npid cast ids room ≡ some ts
    → AllOthers npid room ts
unfolding message_targets unicast_targets
message_targets-AllOthers npid cast ids room ts v h = elim (Bool-cases (nat_eq.beq cast unicast)) [
  | inl y ↦ unicast_targets-AllOthers npid room v ids ts (rw y at h)
  | inr n ↦ elim (Bool-cases (nat_eq.beq cast multicast)) [
    | inl y ↦ some_others npid room (targets_by_id-AllOthers npid room v ids) ts (rw (n, y) at h)
    | inr o ↦ elim (Bool-cases (nat_eq.beq cast broadcast)) [
      | inl y ↦
          some_others npid room
            (all_targets-AllOthers npid room (values room.members)
              (values-AllSeated room.members v))
            ts (rw (n, o, y) at h)
      | inr p ↦ absurd (ground (arith, (rw (n, o, p) at h)))
    ]
  ]
]

-- A broadcast goes to every member of the room but the sender, in the order of their table.
pub broadcast_all :
    (npid : String) (ids : List ℕ) (room : Room)
    → message_targets npid broadcast ids room
      ≡ some (keep_if (λ m. m.npid != npid) (values room.members))
unfolding message_targets
broadcast_all npid ids room = ap some (all_targets-keep_if npid (values room.members))

-- A message changes nothing on the server.
pub send_room_message_after :
    (env : Env) (s : Server) (req : Option SendRoomMessageRequest)
    → (cmd_send_room_message env s req).after ≡ s
unfolding cmd_send_room_message
send_room_message_after env s none = refl
send_room_message_after env s (some req) = elim (Option-cases (my_seat env s req.room_id)) [
  | inl n ↦ rw (n, cmd_send_room_message) refl
  | inr ((room, me), y) ↦
      let cast = req.cast_type % 2 ^ 8 in
      elim (Option-cases (message_targets env.npid cast req.dst_member_ids room)) [
        | inl n ↦ rw (y, n, cmd_send_room_message) refl
        | inr ([], z) ↦ elim (Bool-cases (nat_eq.beq cast broadcast)) [
          | inl a ↦ rw (y, z, cmd_send_room_message, a) refl
          | inr b ↦ rw (y, z, cmd_send_room_message, b) refl
        ]
        | inr (m ∷ ms, z) ↦ rw (y, z, cmd_send_room_message) refl
      ]
]
