-- ===== src/Matching/SlotCounts/Counted.antt =====
-- What the counts of RecomputeRoomSlotCounts count.
use shad_net.Prelude.{
  ℕ, zero, suc, ◌+◌, ◌≤◌, ◌<◌, ◌≡◌, ◌∙◌, refl, ap, sym, Bool, true, false, not, ◌&&◌, ◌||◌, List,
  [], ◌∷◌, if◌then◌else◌, min, arith, length, Bool-cases, inl, inr, ltb, leb, nat_beq, nat_eq, ◌==◌,
}
use shad_net.Prelude.Assoc.{values}
use shad_net.Prelude.Bits.{
  Word, bit_and, bit_or, bit_not, shifted_one, nonzero, test_bit, length-bit_and, length-bit_or,
  length-bit_not, length-shifted_one, test_bit-bit_and, test_bit-bit_or, test_bit-bit_not,
  test_bit-replicate, test_bit-shifted_one,
}
use shad_net.Matching.Types.{Room, RoomGroup, empty_word}
use shad_net.Matching.Slots.{
  slot_mask_for, group_slots, groups_mask, joined_mask, joined_slot_mask, private_mask,
  group_password_slot_mask, recompute_room_slot_counts,
}
use shad_net.Matching.SlotCounts.{
  length-slot_mask_for, private_mask-Within, length-joined_mask, length-group_slots,
}
use shad_net.Matching.SlotCounts.Each.{
  count, any_slot, any_slot-cong, nonzero-any_slot, count_slots-count, slot_mask_for-bit, is_held,
  joined_mask-bit,
}

-- Whether a slot is in a group with a password: the groups have their slots one after another.
abbrev pub in_password_group : List RoomGroup → ℕ → ℕ → ℕ → Bool
in_password_group [] max_slot base i = false
in_password_group (g ∷ gs) max_slot base i =
    let end = base + (if g.slot_num == 0 then max_slot else g.slot_num) in
    let later = in_password_group gs max_slot end i in if ltb i end then g.with_password else later

group_slots-bit :
    (left : ℕ) (p : Bool) (max_slot base : ℕ) (mask : Word) (i : ℕ)
    → length mask ≡ 64
    → max_slot ≤ 64
    → base ≤ max_slot
    → i < max_slot
    → ((group_slots left p max_slot base mask).0 ≡ min (base + left) max_slot)
      × (test_bit (group_slots left p max_slot base mask).1 i
          ≡ (test_bit mask i || (p && leb base i && ltb i (base + left))))
unfolding group_slots
group_slots-bit zero p max_slot base mask i h m b k = (ground arith, ground arith)
group_slots-bit (suc left) p max_slot base mask i h m b k = elim (Bool-cases (ltb base max_slot)) [
  | inl y ↦
      let (l, e) = with_bit p (ground arith) in
      let (next, bits) = group_slots-bit left p max_slot (base + 1) _ i l m (ground arith) k in
      rw (y, group_slots)
        (
          next ∙ omega arith,
          bits ∙ ap (λ x. x || (p && leb (base + 1) i && ltb i (base + 1 + left))) e ∙ ground arith,
        )
  | inr n ↦ rw (n, group_slots) (ground arith, ground arith)
]
  where
    with_bit :
        (q : Bool)
        → base < max_slot
        → let next = if q then bit_or mask (shifted_one 64 base) else mask in
          (length next ≡ 64) × (test_bit next i ≡ (test_bit mask i || (q && nat_beq base i)))
    with_bit false o = (h, ground arith)
    with_bit true o =
        let l = h ∙ sym (length-shifted_one 64 base) in
        (
          length-bit_or mask (shifted_one 64 base) l ∙ h,
          test_bit-bit_or mask (shifted_one 64 base) i l
              ∙ ap (λ b. test_bit mask i || b)
                  (test_bit-shifted_one 64 base i (omega arith) ∙ ground arith),
        )

groups_mask-bit :
    (gs : List RoomGroup) (max_slot base : ℕ) (mask : Word) (i : ℕ)
    → length mask ≡ 64
    → max_slot ≤ 64
    → base ≤ max_slot
    → i < max_slot
    → test_bit (groups_mask gs max_slot base mask) i
      ≡ (test_bit mask i || (leb base i && in_password_group gs max_slot base i))
unfolding groups_mask
groups_mask-bit [] max_slot base mask i h m b k = ground arith
groups_mask-bit (g ∷ gs) max_slot base mask i h m b k =
    let n = if g.slot_num == 0 then max_slot else g.slot_num in
    let r = group_slots n g.with_password max_slot base mask in
    let l : length r.1 ≡ 64 = length-group_slots n g.with_password max_slot base mask h in
    let (end, bits) = group_slots-bit n g.with_password max_slot base mask i h m b k in
    elim (Bool-cases (leb max_slot r.0)) [
      | inl y ↦
          let all : ltb i (base + n) ≡ true = ground (arith, end) in
          rw y (bits ∙ rw all (ground arith))
      | inr z ↦
          let next : r.0 ≡ base + n = ground (arith, end) in
          let ih = groups_mask-bit gs max_slot r.0 r.1 i l m (ground (arith, end)) k in
          let ih' : test_bit (groups_mask gs max_slot r.0 r.1) i ≡ (
              test_bit r.1 i || (leb (base + n) i && in_password_group gs max_slot (base + n) i)) =
            ih ∙ ap (λ x. test_bit r.1 i || (leb x i && in_password_group gs max_slot x i)) next in
          rw z (
            ih'
            ∙ ap (λ x. x || (leb (base + n) i && in_password_group gs max_slot (base + n) i)) bits
            ∙ merge (test_bit mask i) g.with_password (in_password_group gs max_slot (base + n) i)
                base (base + n) i (omega arith))
    ]
  where
    merge :
        (x p later : Bool) (low high j : ℕ)
        → low ≤ high
        → ((x || (p && leb low j && ltb j high)) || (leb high j && later))
          ≡ (x || (leb low j && (if ltb j high then p else later)))
    merge x p later low high j o = ground arith

-- Whether a slot is private: by the room's password mask where that has a slot of the room, and else
-- by the groups.
abbrev pub is_private : Room → ℕ → Bool
is_private room i =
    if any_slot 64 (λ j. test_bit room.passwd_slot_mask j && ltb j room.max_slot)
    then test_bit room.passwd_slot_mask i
    else in_password_group room.groups room.max_slot 0 i

masked-bit :
    (w : Word) (n i : ℕ)
    → i < 64
    → test_bit (bit_and w (slot_mask_for n)) i ≡ (test_bit w i && ltb i n)
masked-bit w n i h =
    test_bit-bit_and w (slot_mask_for n) i ∙ ap (λ b. test_bit w i && b) (slot_mask_for-bit n i h)

group_mask-bit :
    (room : Room) (i : ℕ)
    → room.max_slot ≤ 64
    → i < 64
    → test_bit (group_password_slot_mask room (slot_mask_for room.max_slot)) i
      ≡ (in_password_group room.groups room.max_slot 0 i && ltb i room.max_slot)
unfolding group_password_slot_mask
group_mask-bit room i m k =
    let word = groups_mask room.groups room.max_slot 0 (empty_word 64) in
    masked-bit word room.max_slot i k ∙ elim (Bool-cases (ltb i room.max_slot)) [
      | inl y ↦
          let b =
            groups_mask-bit room.groups room.max_slot 0 (empty_word 64) i refl m (omega arith)
              (ground arith) in
          ap (λ x. x && ltb i room.max_slot)
            (b
              ∙ ap (λ x. x || (leb 0 i && in_password_group room.groups room.max_slot 0 i))
                  (test_bit-replicate 64 i)
              ∙ ground arith)
      | inr n ↦ rw n (ground arith)
    ]

private_mask-bit :
    (room : Room) (i : ℕ)
    → room.max_slot ≤ 64
    → length room.passwd_slot_mask ≡ 64
    → i < 64
    → test_bit (private_mask room (slot_mask_for room.max_slot)) i
      ≡ (is_private room i && ltb i room.max_slot)
unfolding private_mask
private_mask-bit room i m h k =
    let v = slot_mask_for room.max_slot in
    let own = bit_and room.passwd_slot_mask v in
    let lo : length own ≡ 64 =
      length-bit_and room.passwd_slot_mask v (h ∙ sym (length-slot_mask_for room.max_slot)) ∙ h in
    let some_own : nonzero own
        ≡ any_slot 64 (λ j. test_bit room.passwd_slot_mask j && ltb j room.max_slot) =
      nonzero-any_slot own
      ∙ ap (λ n. any_slot n (test_bit own)) lo
      ∙ any_slot-cong 64 (test_bit own) _
          (λ j l. masked-bit room.passwd_slot_mask room.max_slot j l) in
    elim (Bool-cases (nonzero own)) [
      | inl y ↦ rw (y, sym some_own ∙ y) (masked-bit room.passwd_slot_mask room.max_slot i k)
      | inr n ↦ rw (n, sym some_own ∙ n) (group_mask-bit room i m k)
    ]

-- The words that are counted, and their bits.
module _ (room : Room) (h : length room.passwd_slot_mask ≡ 64) (m : room.max_slot ≤ 64) where
  valid : Word
  valid = slot_mask_for room.max_slot

  closed : Word
  closed = private_mask room valid

  joined : Word
  joined = bit_and (joined_slot_mask room) valid

  length-closed : length closed ≡ 64
  unfolding closed valid
  length-closed =
      let lv = length-slot_mask_for room.max_slot in
      (private_mask-Within room (slot_mask_for room.max_slot) h lv).0 ∙ lv

  length-joined : length joined ≡ 64
  unfolding joined valid joined_slot_mask
  length-joined =
      let lj : length (joined_mask (values room.members) (empty_word 64)) ≡ 64 =
        length-joined_mask (values room.members) (empty_word 64) refl in
      length-bit_and (joined_mask (values room.members) (empty_word 64))
        (slot_mask_for room.max_slot) (lj ∙ sym (length-slot_mask_for room.max_slot))
      ∙ lj

  length-both : (w u : Word) → length w ≡ 64 → length u ≡ 64 → length (bit_and w (bit_not u)) ≡ 64
  length-both w u a b = length-bit_and w (bit_not u) (a ∙ sym (length-bit_not u ∙ b)) ∙ a

  closed-bit : (i : ℕ) → i < 64 → test_bit closed i ≡ (ltb i room.max_slot && is_private room i)
  unfolding closed valid
  closed-bit i k = private_mask-bit room i m h k ∙ ground arith

  public-bit :
      (i : ℕ)
      → i < 64
      → test_bit (bit_and valid (bit_not closed)) i
        ≡ (ltb i room.max_slot && not (is_private room i))
  unfolding valid
  public-bit i k =
      let one : test_bit valid i ≡ ltb i room.max_slot = slot_mask_for-bit room.max_slot i k in
      let two : test_bit (bit_not closed) i ≡ not (test_bit closed i) =
        test_bit-bit_not closed i (omega (arith, length-closed)) in
      test_bit-bit_and valid (bit_not closed) i ∙ ground (arith, one, two, closed-bit i k)

  open-bit :
      (w : Word) (p : Bool) (i : ℕ)
      → i < 64
      → test_bit w i ≡ (ltb i room.max_slot && p)
      → test_bit (bit_and w (bit_not joined)) i
        ≡ (ltb i room.max_slot && p && not (is_held (values room.members) i))
  unfolding joined joined_slot_mask valid
  open-bit w p i k e =
      let members = joined_mask (values room.members) (empty_word 64) in
      let one : test_bit (bit_not joined) i ≡ not (test_bit joined i) =
        test_bit-bit_not joined i (omega (arith, length-joined)) in
      let two : test_bit joined i ≡ (test_bit members i && ltb i room.max_slot) =
        masked-bit members room.max_slot i k in
      let three : test_bit members i
          ≡ (test_bit (empty_word 64) i || is_held (values room.members) i) =
        joined_mask-bit (values room.members) (empty_word 64) i refl k in
      let four : test_bit (empty_word 64) i ≡ false = test_bit-replicate 64 i in
      test_bit-bit_and w (bit_not joined) i ∙ ground (arith, one, two, three, four, e)

-- After the counts of a room of at most 64 slots are recomputed, of its slots the private ones and the
-- others are counted each, and the open ones among both: a slot is private by the room's password mask
-- where that has a slot of the room, and else by the groups with a password; and it is open if no
-- member's id holds it. The rest of the room is unchanged in its limit, its members and its flags.
-- The password mask is a 64-bit word.
pub recompute_slots :
    (room : Room)
    → length room.passwd_slot_mask ≡ 64
    → room.max_slot ≤ 64
    → let r = recompute_room_slot_counts room in
      let held = is_held (values room.members) in
      (r.public_slots ≡ count 64 (λ i. ltb i room.max_slot && not (is_private room i)))
      × (r.private_slots ≡ count 64 (λ i. ltb i room.max_slot && is_private room i))
      × (r.open_public_slots
          ≡ count 64 (λ i. ltb i room.max_slot && not (is_private room i) && not (held i)))
      × (r.open_private_slots
          ≡ count 64 (λ i. ltb i room.max_slot && is_private room i && not (held i)))
      × (r.max_slot ≡ room.max_slot)
      × (r.members ≡ room.members)
      × (r.flag_attr ≡ room.flag_attr)
unfolding recompute_room_slot_counts valid closed joined
recompute_slots room h m =
    let c = closed room h m in
    let q = bit_and (valid room h m) (bit_not c) in
    let j = joined room h m in
    let lc = length-closed room h m in
    let lq = length-both room h m (valid room h m) c (length-slot_mask_for room.max_slot) lc in
    let lj = length-joined room h m in
    (
      count_slots-count q _ lq (public-bit room h m),
      count_slots-count c _ lc (closed-bit room h m),
      count_slots-count (bit_and q (bit_not j)) _ (length-both room h m q j lq lj)
          (λ i k. open-bit room h m q (not (is_private room i)) i k (public-bit room h m i k)),
      count_slots-count (bit_and c (bit_not j)) _ (length-both room h m c j lc lj)
          (λ i k. open-bit room h m c (is_private room i) i k (closed-bit room h m i k)),
      refl,
      refl,
      refl,
    )
