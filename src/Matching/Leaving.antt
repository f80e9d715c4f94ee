-- ===== src/Matching/Leaving.antt =====
-- What `DoLeaveRoom` and `CmdLeaveRoom` of src/cmd_matching.cpp do to a room and to the map of rooms.

use shad_net.Prelude.{
  ℕ, ◌+◌, ◌≤◌, ◌≡◌, ◌≢◌, ◌∙◌, refl, ap, sym, true, false, none, some, arith, length, Bool-cases,
  inl, inr, nat_beq, nat_eq, is_some, beq_self, beq_ne, String, string_eq, ◌==◌, ◌⊎◌,
}
use shad_net.Prelude.Assoc.{find, remove, find-insert, find-remove}
use shad_net.Prelude.Bits.{bit_and, bit_not}
use shad_net.Matching.Types.{Room, RoomMember, SharedState, full_flag}
use shad_net.Matching.Slots.{recompute_room_slot_counts}
use shad_net.Matching.Room.{remove_member, is_empty}
use shad_net.Matching.Session.{pair_eq}
use shad_net.Matching.Leave.{without_member, settle_room, drop_from_index, leave_shared}
use shad_net.Matching.Members.{IsKeyed}
use shad_net.Matching.Keyed.{remove-IsKeyed, length-remove}
use shad_net.Matching.Rooms.{IsRoom, Keeps, hand_over_room_lem}

-- The parts of a room that the invariant speaks of, once a member is taken out.
pub record IsWithout (id : ℕ) (before after : Room) : Type 0 where
  pub keyed : IsKeyed after.members
  pub fewer : length after.members + 1 ≡ length before.members
  pub limit : after.max_slot ≡ before.max_slot
  pub gone : is_some (find id after.members) ≡ false
  pub others : (j : ℕ) → j ≢ id → is_some (find j after.members) ≡ is_some (find j before.members)

without_member-owner :
    (id : ℕ) (room : Room) → (without_member id room).owner_member_id ≡ room.owner_member_id
unfolding without_member remove_member
without_member-owner id room = ground arith

pub without_member_lem :
    (id : ℕ) (m : RoomMember) (room : Room)
    → IsKeyed room.members
    → find id room.members ≡ some m
    → IsWithout id room (without_member id room)
      × ((without_member id room).owner_member_id ≡ room.owner_member_id)
unfolding without_member remove_member
without_member_lem id m room v h = (
  rw h (record {
    keyed = remove-IsKeyed id room.members v;
    fewer = length-remove id m room.members v h;
    limit = refl;
    gone = ground (arith, find-remove id id room.members);
    others = λ j ne. ground (arith, find-remove id j room.members);
  }),
  without_member-owner id room,
)

-- Settling a room keeps its members; an owner who stays remains the owner, and otherwise the new
-- owner is a member.
pub settle_room_stays :
    (room : Room)
    → IsKeyed room.members
    → Keeps room (settle_room false room)
      × ((settle_room false room).owner_member_id ≡ room.owner_member_id)
unfolding settle_room recompute_room_slot_counts
settle_room_stays room v =
    (record { keyed = v; size = refl; limit = refl; seats = λ i. refl }, refl)

settle_room_hands_over :
    (room : Room)
    → IsKeyed room.members
    → 1 ≤ length room.members
    → Keeps room (settle_room true room)
      × (is_some (find (settle_room true room).owner_member_id (settle_room true room).members)
          ≡ true)
unfolding settle_room recompute_room_slot_counts
settle_room_hands_over room v h =
    let counted = recompute_room_slot_counts room in
    let unfilled : Room = record counted {
      flag_attr = bit_and counted.flag_attr (bit_not full_flag);
    } in
    let (kept, seated) = hand_over_room_lem unfilled v h in
    (
      record { keyed = kept.keyed; size = kept.size; limit = kept.limit; seats = kept.seats },
      seated,
    )

-- The room that a leaver leaves behind is in order, without the leaver.
left_room-IsRoom :
    (room : Room) (me : RoomMember)
    → IsRoom room
    → find me.member_id room.members ≡ some me
    → 1 ≤ length (without_member me.member_id room).members
    → let room' =
        settle_room (me.member_id == room.owner_member_id) (without_member me.member_id room) in
      IsRoom room'
      × (is_some (find me.member_id room'.members) ≡ false)
      × (length room'.members + 1 ≡ length room.members)
left_room-IsRoom room me v h some_left =
    let left = without_member me.member_id room in
    let (w, same) = without_member_lem me.member_id me room v.keyed h in
    elim (Bool-cases (nat_beq me.member_id room.owner_member_id)) [
      | inl y ↦
          let (kept, seated) = settle_room_hands_over left w.keyed some_left in
          rw y (
            record {
              keyed = kept.keyed;
              fits = omega (arith, kept.size, kept.limit, w.fewer, w.limit, v.fits);
              narrow = omega (arith, kept.limit, w.limit, v.narrow);
              owned = seated;
            },
            kept.seats me.member_id ∙ w.gone,
            omega (arith, kept.size, w.fewer),
          )
      | inr z ↦
          let (kept, owner) = settle_room_stays left w.keyed in
          rw z (
            record {
              keyed = kept.keyed;
              fits = omega (arith, kept.size, kept.limit, w.fewer, w.limit, v.fits);
              narrow = omega (arith, kept.limit, w.limit, v.narrow);
              owned =
                  kept.seats (settle_room false left).owner_member_id
                  ∙ ap (λ i. is_some (find i left.members)) (owner ∙ same)
                  ∙ w.others room.owner_member_id (λ e. ground arith)
                  ∙ v.owned;
            },
            kept.seats me.member_id ∙ w.gone,
            omega (arith, kept.size, w.fewer),
          )
    ]

drop_from_index-rooms :
    (key : String) (room_id : ℕ) (room : Room) (shared : SharedState)
    → (drop_from_index key room_id room shared).rooms ≡ shared.rooms
unfolding drop_from_index
drop_from_index-rooms key room_id room shared = ground arith

-- A member leaves a room that is in order. Either nobody else was there, and the room is gone from
-- the map; or the room stays under its key, in order (its owner one of the members who are left),
-- with one member fewer and without the leaver.
pub leave_shared_lem :
    (key : String) (room_id : ℕ) (room : Room) (me : RoomMember) (shared : SharedState)
    → IsRoom room
    → find me.member_id room.members ≡ some me
    → let (after, destroyed) = leave_shared key room_id room me shared in
      ((destroyed ≡ true) × (length room.members ≡ 1) × (find (key, room_id) after.rooms ≡ none))
      ⊎ ((destroyed ≡ false)
          × ((room' : Room) × (find (key, room_id) after.rooms ≡ some room')
              × IsRoom room'
              × (is_some (find me.member_id room'.members) ≡ false)
              × (length room'.members + 1 ≡ length room.members)))
unfolding leave_shared is_empty
leave_shared_lem key room_id room me shared v h =
    let left = without_member me.member_id room in
    let (w, same) = without_member_lem me.member_id me room v.keyed h in
    elim (Bool-cases (nat_beq (length left.members) 0)) [
      | inl y ↦ rw y (
          inl (
            refl,
            omega (arith, w.fewer, (nat_eq.beq_iff (length left.members) 0).0 y),
            ap (find (key, room_id)) (
                  drop_from_index-rooms key room_id room
                    (record shared { rooms = remove (key, room_id) shared.rooms }))
                ∙ find-remove (key, room_id) (key, room_id) shared.rooms
                ∙ rw (beq_self {A = String × ℕ} (key, room_id)) refl,
          ))
      | inr z ↦
          let (ok, gone, count) = left_room-IsRoom room me v h (ground arith) in
          rw z (
            inr (
              refl,
              (
                settle_room (me.member_id == room.owner_member_id) left,
                find-insert (key, room_id) (key, room_id)
                      (settle_room (me.member_id == room.owner_member_id) left) shared.rooms
                    ∙ rw (beq_self {A = String × ℕ} (key, room_id)) refl,
                ok,
                gone,
                count,
              ),
            ))
    ]

-- A leave touches no other room.
pub leave_shared_other :
    (key : String) (room_id : ℕ) (room : Room) (me : RoomMember) (shared : SharedState)
    (k : String × ℕ)
    → k ≢ (key, room_id)
    → find k (leave_shared key room_id room me shared).0.rooms ≡ find k shared.rooms
unfolding leave_shared
leave_shared_other key room_id room me shared k ne =
    let no : pair_eq.beq (key, room_id) k ≡ false = beq_ne (key, room_id) k (λ e. ne (sym e)) in
    elim (Bool-cases (is_empty (without_member me.member_id room))) [
      | inl y ↦ rw y (
          ap (find k) (
            drop_from_index-rooms key room_id room
              (record shared { rooms = remove (key, room_id) shared.rooms }))
          ∙ find-remove (key, room_id) k shared.rooms
          ∙ rw no refl)
      | inr z ↦ rw z (find-insert (key, room_id) k _ shared.rooms ∙ rw no refl)
    ]
