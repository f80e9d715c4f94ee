-- ===== src/Matching/SlotCounts.antt =====
-- The slot counts of a room add up.
pub mod Each
pub mod Counted
use shad_net.Prelude.{
  ℕ, zero, suc, ◌+◌, ◌-◌, ◌≤◌, ◌<◌, ◌≡◌, ◌∙◌, refl, ap, sym, Bool, true, false, not, ◌&&◌, List, [],
  ◌∷◌, if◌then◌else◌, min, arith, replicate, length, length-replicate, Bool-cases, inl, inr, ltb,
  leb, nat_beq, ◌/◌,
}
use shad_net.Prelude.Assoc.{values}
use shad_net.Prelude.Bits.{
  Word, bit_and, bit_or, bit_not, decrement, shifted_one, nonzero, popcount, length-bit_and,
  length-bit_or, length-bit_not, length-shifted_one,
}
use shad_net.Matching.Types.{Room, RoomMember, RoomGroup, empty_word}
use shad_net.Matching.Slots.{
  slot_mask_for, count_loop, count_slots, group_slots, groups_mask, joined_mask, joined_slot_mask,
  private_mask, group_password_slot_mask, recompute_room_slot_counts,
}

bit_and_self : (w : Word) → bit_and w w ≡ w
bit_and_self [] = refl
bit_and_self (a ∷ w) = ground (arith, bit_and_self w)

-- One round clears one bit.
clear_lowest : (w : Word) → nonzero w ≡ true → popcount (bit_and w (decrement w)) + 1 ≡ popcount w
clear_lowest [] h = ground arith
clear_lowest (true ∷ w) h = rw (bit_and_self w) (omega arith)
clear_lowest (false ∷ w) h = clear_lowest w h

popcount-zero : (w : Word) → nonzero w ≡ false → popcount w ≡ 0
popcount-zero [] h = refl
popcount-zero (true ∷ w) h = ground arith
popcount-zero (false ∷ w) h = popcount-zero w h

-- The loop of CountSlots counts the set bits, given a round for each of them.
count_loop_lem :
    (fuel : ℕ) (w : Word) (n : ℕ) → popcount w ≤ fuel → count_loop fuel w n ≡ n + popcount w
unfolding count_loop
count_loop_lem zero w n h = omega arith
count_loop_lem (suc fuel) w n h = elim (Bool-cases (nonzero w)) [
  | inl y ↦
      rw (y, count_loop)
        (count_loop_lem fuel (bit_and w (decrement w)) (n + 1) (omega (arith, clear_lowest w y))
          ∙ omega (arith, clear_lowest w y))
  | inr z ↦ rw (z, count_loop) (omega (arith, popcount-zero w z))
]

popcount-le-length : (w : Word) → popcount w ≤ length w
popcount-le-length [] = omega arith
popcount-le-length (a ∷ w) = ground (arith, popcount-le-length w)

pub count_slots_lem : (w : Word) → length w ≡ 64 → count_slots w ≡ popcount w
unfolding count_slots
count_slots_lem w h = count_loop_lem 64 w 0 (omega (arith, popcount-le-length w)) ∙ omega arith

popcount-true : (n : ℕ) → popcount (replicate n true) ≡ n
popcount-true zero = refl
popcount-true (suc n) = ap suc (popcount-true n)

popcount-false : (n : ℕ) → popcount (replicate n false) ≡ 0
popcount-false zero = refl
popcount-false (suc n) = popcount-false n

-- (1 << n) - 1 has n bits set.
popcount-low_mask : (w n : ℕ) → n < w → popcount (decrement (shifted_one w n)) ≡ n
popcount-low_mask zero n h = absurd (omega arith)
popcount-low_mask (suc w) zero h = popcount-false w
popcount-low_mask (suc w) (suc n) h = ap suc (popcount-low_mask w n (omega arith))

length-decrement : (w : Word) → length (decrement w) ≡ length w
length-decrement [] = refl
length-decrement (true ∷ w) = refl
length-decrement (false ∷ w) = ap suc (length-decrement w)

pub length-slot_mask_for : (n : ℕ) → length (slot_mask_for n) ≡ 64
unfolding slot_mask_for
length-slot_mask_for n =
    ground (
      arith,
      length-decrement (shifted_one 64 n),
      length-shifted_one 64 n,
      length-replicate 64 true,
    )

popcount-slot_mask_for : (n : ℕ) → popcount (slot_mask_for n) ≡ min n 64
unfolding slot_mask_for
popcount-slot_mask_for n = ground (arith, popcount-low_mask 64 n)

pub length-group_slots :
    (left : ℕ) (p : Bool) (max_slot base : ℕ) (mask : Word)
    → length mask ≡ 64
    → length (group_slots left p max_slot base mask).1 ≡ 64
unfolding group_slots
length-group_slots zero p max_slot base mask h = h
length-group_slots (suc left) p max_slot base mask h = elim (Bool-cases (ltb base max_slot)) [
  | inl y ↦ rw (y, group_slots) (length-group_slots left p max_slot (base + 1) _ (marked p))
  | inr n ↦ rw (n, group_slots) h
]
  where
    marked : (b : Bool) → length (if b then bit_or mask (shifted_one 64 base) else mask) ≡ 64
    marked true =
        length-bit_or mask (shifted_one 64 base) (h ∙ sym (length-shifted_one 64 base)) ∙ h
    marked false = h

length-groups_mask :
    (gs : List RoomGroup) (max_slot base : ℕ) (mask : Word)
    → length mask ≡ 64
    → length (groups_mask gs max_slot base mask) ≡ 64
unfolding groups_mask
length-groups_mask [] max_slot base mask h = h
length-groups_mask (g ∷ gs) max_slot base mask h =
    let r =
      group_slots (if nat_beq g.slot_num 0 then max_slot else g.slot_num) g.with_password max_slot
        base mask in
    let l =
      length-group_slots (if nat_beq g.slot_num 0 then max_slot else g.slot_num) g.with_password
        max_slot base mask h in
    let rest = length-groups_mask gs max_slot r.0 r.1 l in
    elim (Bool-cases (leb max_slot r.0)) [ inl y ↦ rw y l | inr n ↦ rw n rest ]

pub length-joined_mask :
    (ms : List RoomMember) (mask : Word) → length mask ≡ 64 → length (joined_mask ms mask) ≡ 64
unfolding joined_mask
length-joined_mask [] mask h = h
length-joined_mask (m ∷ ms) mask h =
    length-joined_mask ms _ (marked (ltb 0 (m.member_id / 16) && leb (m.member_id / 16) 64))
  where
    marked :
        (b : Bool)
        → length (if b then bit_or mask (shifted_one 64 (m.member_id / 16 - 1)) else mask) ≡ 64
    marked true =
        length-bit_or mask (shifted_one 64 (m.member_id / 16 - 1))
          (h ∙ sym (length-shifted_one 64 (m.member_id / 16 - 1)))
        ∙ h
    marked false = h

length-empty_word : length (empty_word 64) ≡ 64
length-empty_word = refl

-- Part of the valid slots.
abbrev pub Within : Word → Word → Type 0
Within v w = (length w ≡ length v) × (bit_and v w ≡ w)

pub Within-bit_and : (v w : Word) → length w ≡ length v → Within v (bit_and w v)
Within-bit_and [] [] h = (refl, refl)
Within-bit_and [] (b ∷ w) h = absurd (omega arith)
Within-bit_and (a ∷ v) [] h = absurd (omega arith)
Within-bit_and (a ∷ v) (b ∷ w) h =
    let (p, q) = Within-bit_and v w (omega arith) in (ap suc p, ground arith)

pub private_mask-Within :
    (room : Room) (v : Word)
    → length room.passwd_slot_mask ≡ 64
    → length v ≡ 64
    → Within v (private_mask room v)
unfolding private_mask group_password_slot_mask
private_mask-Within room v h k = elim (Bool-cases (nonzero (bit_and room.passwd_slot_mask v))) [
  | inl y ↦ rw y (Within-bit_and v room.passwd_slot_mask (h ∙ sym k))
  | inr n ↦ rw n (
      Within-bit_and v _
        (length-groups_mask room.groups room.max_slot 0 (empty_word 64) refl ∙ sym k))
]

-- Three words: what the valid slots hold.
both :
    (m n k : ℕ) (x y : Bool)
    → (x && y) ≡ y
    → m + n ≡ k
    → (if x && not y then suc m else m) + (if y then suc n else n) ≡ (if x then suc k else k)
both m n k x y h e = ground arith

three :
    (m n k l : ℕ) (x y z : Bool)
    → (x && y) ≡ y
    → (x && z) ≡ z
    → m + n + k ≡ l
    → (if x && not y && not z then suc m else m)
        + (if y && not z then suc n else n)
        + (if z then suc k else k)
      ≡ (if x then suc l else l)
three m n k l x y z h g e = ground arith

pointwise :
    (v p j : Word)
    → Within v p
    → Within v j
    → (popcount (bit_and v (bit_not p)) + popcount p ≡ popcount v)
      × (popcount (bit_and (bit_and v (bit_not p)) (bit_not j))
            + popcount (bit_and p (bit_not j))
            + popcount j
          ≡ popcount v)
pointwise [] [] [] a b = (refl, refl)
pointwise [] (y ∷ p) j a b = absurd (omega (arith, a.0))
pointwise [] [] (z ∷ j) a b = absurd (omega (arith, b.0))
pointwise (x ∷ v) [] j a b = absurd (omega (arith, a.0))
pointwise (x ∷ v) (y ∷ p) [] a b = absurd (omega (arith, b.0))
pointwise (x ∷ v) (y ∷ p) (z ∷ j) a b =
    let a' : Within v p = (omega (arith, a.0), cc (a.1)) in
    let b' : Within v j = (omega (arith, b.0), cc (b.1)) in
    let hy : (x && y) ≡ y = cc (a.1) in
    let hz : (x && z) ≡ z = cc (b.1) in
    let (s, t) = pointwise v p j a' b' in (both _ _ _ x y hy s, three _ _ _ _ x y z hy hz t)

-- The slots that the members of a room hold, among the valid ones.
abbrev pub joined_count : Room → ℕ
joined_count room = popcount (bit_and (joined_slot_mask room) (slot_mask_for room.max_slot))

-- After the counts of a room are recomputed, public and private slots make up all its slots, at
-- most 64, and the open slots are those that no member holds; the rest of the room is unchanged in
-- its limit, its members and its flags. The password mask is a 64-bit word.
pub recompute_counts :
    (room : Room)
    → length room.passwd_slot_mask ≡ 64
    → let r = recompute_room_slot_counts room in
      (r.public_slots + r.private_slots ≡ min room.max_slot 64)
      × (r.open_public_slots + r.open_private_slots + joined_count room ≡ min room.max_slot 64)
      × (r.max_slot ≡ room.max_slot)
      × (r.members ≡ room.members)
      × (r.flag_attr ≡ room.flag_attr)
unfolding recompute_room_slot_counts joined_slot_mask
recompute_counts room h =
    let v = slot_mask_for room.max_slot in
    let lv : length v ≡ 64 = length-slot_mask_for room.max_slot in
    let p = private_mask room v in
    let wp : Within v p = private_mask-Within room v h lv in
    let lj : length (joined_slot_mask room) ≡ 64 =
      length-joined_mask (values room.members) (empty_word 64) refl in
    let j = bit_and (joined_slot_mask room) v in
    let wj : Within v j = Within-bit_and v (joined_slot_mask room) (lj ∙ sym lv) in
    let (s, t) = pointwise v p j wp wj in
    let lp : length p ≡ 64 = wp.0 ∙ lv in
    let ln : length (bit_and v (bit_not p)) ≡ 64 =
      length-bit_and v (bit_not p) (lv ∙ sym (length-bit_not p ∙ lp)) ∙ lv in
    let nj : length (bit_not j) ≡ 64 = length-bit_not j ∙ wj.0 ∙ lv in
    (
      omega (
        arith,
        count_slots_lem (bit_and v (bit_not p)) ln,
        count_slots_lem p lp,
        s,
        popcount-slot_mask_for room.max_slot,
      ),
      omega (
        arith,
        count_slots_lem (bit_and (bit_and v (bit_not p)) (bit_not j))
            (length-bit_and (bit_and v (bit_not p)) (bit_not j) (ln ∙ sym nj) ∙ ln),
        count_slots_lem (bit_and p (bit_not j)) (length-bit_and p (bit_not j) (lp ∙ sym nj) ∙ lp),
        t,
        popcount-slot_mask_for room.max_slot,
      ),
      refl,
      refl,
      refl,
    )
