-- ===== src/Matching/Rooms.antt =====
-- The invariant of a room, and what leaving does to it.

use shad_net.Prelude.{
  ℕ, ◌≤◌, ◌≡◌, ◌∙◌, refl, ap, subst, true, Option, none, some, List, [], ◌∷◌, if◌then◌else◌, arith,
  length, Bool-cases, Option-cases, inl, inr, nat_eq, is_some, string_eq, ◌==◌, ◌⊎◌,
}
use shad_net.Prelude.Assoc.{Assoc, find, insert, find-insert}
use shad_net.Prelude.Bits.{bit_or}
use shad_net.Matching.Types.{Room, RoomMember, owner_flag}
use shad_net.Matching.Leave.{next_in_line, first_member, mark_owner, hand_over_room}
use shad_net.Matching.Members.{IsKeyed, find-keyed}
use shad_net.Matching.Keyed.{insert-IsKeyed, length-insert_old}

-- A room in order: a table of members under their ids, no more of them than the room's limit,
-- which the 64 slots bound, and an owner among them.
pub record IsRoom (room : Room) : Type 0 where
  pub keyed : IsKeyed room.members
  pub fits : length room.members ≤ room.max_slot
  pub narrow : room.max_slot ≤ 64
  pub owned : is_some (find room.owner_member_id room.members) ≡ true

next_in_line-seated :
    (members : Assoc ℕ RoomMember) (ids : List ℕ)
    → ((next_in_line members ids).0 ≡ 0)
      ⊎ (is_some (find (next_in_line members ids).0 members) ≡ true)
unfolding next_in_line
next_in_line-seated members [] = inl refl
next_in_line-seated members (cand ∷ rest) = elim (Bool-cases (is_some (find cand members))) [
  | inl y ↦ inr (rw (y, next_in_line) y)
  | inr z ↦ rw (z, next_in_line) (next_in_line-seated members rest)
]

first_member-seated :
    (members : Assoc ℕ RoomMember)
    → IsKeyed members
    → 1 ≤ length members
    → is_some (find (first_member members) members) ≡ true
unfolding IsKeyed find
first_member-seated [] v h = ground arith
first_member-seated ((id, m) ∷ members) v h = ground (arith, v.0)

-- A room's table and limit after a step that takes nobody out of it.
pub record Keeps (before after : Room) : Type 0 where
  pub keyed : IsKeyed after.members
  pub size : length after.members ≡ length before.members
  pub limit : after.max_slot ≡ before.max_slot
  pub seats : (id : ℕ) → is_some (find id after.members) ≡ is_some (find id before.members)

mark_owner-Keeps :
    (id : ℕ) (room : Room)
    → IsKeyed room.members
    → Keeps room (mark_owner id (find id room.members) room)
unfolding mark_owner
mark_owner-Keeps id room v = elim (Option-cases (find id room.members)) [
  | inl n ↦ rw n (record { keyed = v; size = refl; limit = refl; seats = λ i. refl })
  | inr (m, y) ↦
      let marked : RoomMember = record m { flag_attr = bit_or m.flag_attr owner_flag } in
      rw y (record {
        keyed =
            subst (λ i. IsKeyed (insert i marked room.members)) (find-keyed id m room.members v y)
              (insert-IsKeyed marked room.members v);
        size = length-insert_old id marked m room.members y;
        limit = refl;
        seats = λ i. ground (arith, find-insert id i marked room.members, nat_eq.beq_iff id i);
      })
]

mark_owner-owner :
    (id : ℕ) (o : Option RoomMember) (room : Room)
    → (mark_owner id o room).owner_member_id ≡ room.owner_member_id
unfolding mark_owner
mark_owner-owner id none room = refl
mark_owner-owner id (some m) room = refl

new_owner : Room → ℕ
new_owner room =
    let cand = (next_in_line room.members room.owner_succession).0 in
    if cand == 0 then first_member room.members else cand

new_owner-seated :
    (room : Room)
    → IsKeyed room.members
    → 1 ≤ length room.members
    → is_some (find (new_owner room) room.members) ≡ true
unfolding new_owner
new_owner-seated room v h = ground (
  arith,
  next_in_line-seated room.members room.owner_succession,
  first_member-seated room.members v h,
)

-- A room that is handed over keeps its members, and its new owner is one of them.
pub hand_over_room_lem :
    (room : Room)
    → IsKeyed room.members
    → 1 ≤ length room.members
    → Keeps room (hand_over_room room)
      × (is_some (find (hand_over_room room).owner_member_id (hand_over_room room).members) ≡ true)
unfolding hand_over_room new_owner
hand_over_room_lem room v h =
    let owner = new_owner room in
    let named : Room = record room {
      owner_member_id = owner;
      owner_succession = (next_in_line room.members room.owner_succession).1;
    } in
    let kept : Keeps named (mark_owner owner (find owner named.members) named) =
      mark_owner-Keeps owner named v in
    (
      record { keyed = kept.keyed; size = kept.size; limit = kept.limit; seats = kept.seats },
      ap (λ i. is_some (find i (hand_over_room room).members))
            (mark_owner-owner owner (find owner named.members) named)
          ∙ kept.seats owner
          ∙ new_owner-seated room v h,
    )
