-- ===== src/Matching/Slots.antt =====
-- The slot masks of a room and the counts kept of them, in src/cmd_matching.cpp. A shift by 64 or
-- more is undefined in C++; the word is empty there, and `max_slot ≤ 64` keeps from it.
use shad_net.Prelude.{
  ℕ, zero, suc, ◌+◌, ◌-◌, ◌/◌, Bool, true, false, ◌&&◌, List, [], ◌∷◌, if◌then◌else◌, ltb, leb,
  nat_eq, ◌==◌, replicate,
}
use shad_net.Prelude.Assoc.{values}
use shad_net.Prelude.Bits.{Word, bit_and, bit_or, bit_not, decrement, shifted_one, nonzero}
use shad_net.Matching.Types.{Room, RoomGroup, RoomMember, empty_word}

-- SlotMaskForMaxSlot
unfoldable pub slot_mask_for : ℕ → Word
slot_mask_for max_slot =
    if leb 64 max_slot
    then replicate 64 true
    else if max_slot == 0
    then empty_word 64
    else decrement (shifted_one 64 max_slot)

-- The loop of CountSlots, on fuel.
unfoldable pub count_loop : ℕ → Word → ℕ → ℕ
count_loop zero mask count = count
count_loop (suc fuel) mask count = elim (nonzero mask) [
  | true ↦ count_loop fuel (bit_and mask (decrement mask)) (count + 1)
  | false ↦ count
]

-- CountSlots; 64 rounds clear a 64-bit mask.
unfoldable pub count_slots : Word → ℕ
unfolding count_loop
count_slots mask = count_loop 64 mask 0

-- The inner loop of GroupPasswordSlotMask over the slots of one group.
unfoldable pub group_slots : ℕ → Bool → ℕ → ℕ → Word → ℕ × Word
group_slots zero with_password max_slot base mask = (base, mask)
group_slots (suc left) with_password max_slot base mask = elim (ltb base max_slot) [
  | true ↦
      group_slots left with_password max_slot (base + 1)
        (if with_password then bit_or mask (shifted_one 64 base) else mask)
  | false ↦ (base, mask)
]

unfoldable pub groups_mask : List RoomGroup → ℕ → ℕ → Word → Word
unfolding group_slots
groups_mask [] max_slot base mask = mask
groups_mask (g ∷ gs) max_slot base mask =
    let slot_count = if g.slot_num == 0 then max_slot else g.slot_num in
    let (base', mask') = group_slots slot_count g.with_password max_slot base mask in
    let rest = groups_mask gs max_slot base' mask' in if leb max_slot base' then mask' else rest

-- GroupPasswordSlotMask
unfoldable pub group_password_slot_mask : Room → Word → Word
unfolding groups_mask
group_password_slot_mask room valid_slots =
    bit_and (groups_mask room.groups room.max_slot 0 (empty_word 64)) valid_slots

unfoldable pub joined_mask : List RoomMember → Word → Word
joined_mask [] mask = mask
joined_mask (m ∷ ms) mask =
    let slot = m.member_id / 16 in
    joined_mask ms
      (if ltb 0 slot && leb slot 64 then bit_or mask (shifted_one 64 (slot - 1)) else mask)

-- Room::joinedSlotMask
unfoldable pub joined_slot_mask : Room → Word
unfolding joined_mask
joined_slot_mask room = joined_mask (values room.members) (empty_word 64)

unfoldable pub private_mask : Room → Word → Word
private_mask room valid_slots =
    let private_slots = bit_and room.passwd_slot_mask valid_slots in
    if nonzero private_slots then private_slots else group_password_slot_mask room valid_slots

-- RecomputeRoomSlotCounts
unfoldable pub recompute_room_slot_counts : Room → Room
recompute_room_slot_counts room =
    let valid_slots = slot_mask_for room.max_slot in
    let private_slots = private_mask room valid_slots in
    let public_slots = bit_and valid_slots (bit_not private_slots) in
    let joined_slots = bit_and (joined_slot_mask room) valid_slots in
    record room {
      public_slots = count_slots public_slots;
      private_slots = count_slots private_slots;
      open_public_slots = count_slots (bit_and public_slots (bit_not joined_slots));
      open_private_slots = count_slots (bit_and private_slots (bit_not joined_slots));
    }
