-- ===== src/Matching/Room.antt =====
-- The operations of `Room` in src/matching_types.h.
use shad_net.Prelude.{
  ℕ, zero, suc, ◌+◌, ◌*◌, ◌/◌, ◌%◌, Bool, true, false, Option, none, some, String, List, [], ◌∷◌,
  if◌then◌else◌, leb, nat_eq, string_eq, ◌==◌, is_some, length,
}
use shad_net.Prelude.Assoc.{find, insert, remove, values}
use shad_net.Matching.Types.{Room, RoomMember}

unfoldable pub slot_taken : ℕ → List RoomMember → Bool
slot_taken slot [] = false
slot_taken slot (m ∷ ms) = if m.member_id / 16 == slot then true else slot_taken slot ms

-- The loop of allocMemberId, with the rounds left; past the last round the slot is 65.
unfoldable pub free_slot : ℕ → ℕ → List RoomMember → ℕ
unfolding slot_taken
free_slot zero slot ms = slot
free_slot (suc left) slot ms = elim (slot_taken slot ms) [
  | true ↦ free_slot left (slot + 1) ms
  | false ↦ slot
]

abbrev pub next_counter : Room → ℕ
next_counter room = (room.member_id_counter + 1) % 16

-- allocMemberId: the id, beside the counter's new value. The low four bits of the shifted slot are
-- clear, so the bitwise or is a sum.
unfoldable pub alloc_member_id : Room → ℕ
unfolding free_slot
alloc_member_id room = free_slot 64 1 (values room.members) * 16 + next_counter room

-- addMember: the room, and the member as it was added.
unfoldable pub add_member : RoomMember → Room → Room × RoomMember
add_member proto room =
    let m = record proto { member_id = alloc_member_id room } in
    (
      record room {
        members = insert m.member_id m room.members;
        member_id_counter = next_counter room;
      },
      m,
    )

-- findById
abbrev pub find_by_id : ℕ → Room → Option RoomMember
find_by_id id room = find id room.members

unfoldable pub npid_in : String → List RoomMember → Option RoomMember
npid_in npid [] = none
npid_in npid (m ∷ ms) = if m.npid == npid then some m else npid_in npid ms

-- findByNpid
unfoldable pub find_by_npid : String → Room → Option RoomMember
unfolding npid_in
find_by_npid npid room = npid_in npid (values room.members)

-- removeMember: the room, and whether the member was there.
unfoldable pub remove_member : ℕ → Room → Room × Bool
remove_member id room =
    if is_some (find id room.members)
    then (record room { members = remove id room.members }, true)
    else (room, false)

-- isEmpty
unfoldable pub is_empty : Room → Bool
is_empty room = length room.members == 0

-- isFull
unfoldable pub is_full : Room → Bool
is_full room = leb room.max_slot (length room.members)
