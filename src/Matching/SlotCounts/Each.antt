-- ===== src/Matching/SlotCounts/Each.antt =====
-- The slots of a room, one by one: which of them the counts of RecomputeRoomSlotCounts count.
use shad_net.Prelude.{
  ℕ, zero, suc, ◌+◌, ◌-◌, ◌<◌, ◌≡◌, ◌∙◌, refl, ap, sym, Bool, true, false, ◌&&◌, ◌||◌, List, [],
  ◌∷◌, if◌then◌else◌, arith, replicate, length, Bool-cases, inl, inr, ltb, leb, nat_beq, nat_eq,
  ◌==◌, ◌/◌,
}
use shad_net.Prelude.Bits.{
  Word, bit_or, decrement, shifted_one, nonzero, popcount, test_bit, length-bit_or,
  length-shifted_one, test_bit-bit_or, test_bit-replicate, test_bit-shifted_one,
}
use shad_net.Matching.Types.{RoomMember}
use shad_net.Matching.Slots.{slot_mask_for, count_slots, joined_mask}
use shad_net.Matching.SlotCounts.{count_slots_lem}

-- How many of the first numbers pass a test, and whether one does.
abbrev pub count : ℕ → (ℕ → Bool) → ℕ
count zero p = 0
count (suc n) p = let rest = count n (λ i. p (suc i)) in if p 0 then suc rest else rest

abbrev pub any_slot : ℕ → (ℕ → Bool) → Bool
any_slot zero p = false
any_slot (suc n) p = p 0 || any_slot n (λ i. p (suc i))

pub count-cong : (n : ℕ) (p q : ℕ → Bool) → ((i : ℕ) → i < n → p i ≡ q i) → count n p ≡ count n q
count-cong zero p q h = refl
count-cong (suc n) p q h = rw (h 0 (omega arith)) (
    ap (λ k. if q 0 then suc k else k)
      (count-cong n (λ i. p (suc i)) (λ i. q (suc i)) (λ i l. h (suc i) (omega arith))))

pub any_slot-cong :
    (n : ℕ) (p q : ℕ → Bool) → ((i : ℕ) → i < n → p i ≡ q i) → any_slot n p ≡ any_slot n q
any_slot-cong zero p q h = refl
any_slot-cong (suc n) p q h = rw (h 0 (omega arith)) (
    ap (λ b. q 0 || b)
      (any_slot-cong n (λ i. p (suc i)) (λ i. q (suc i)) (λ i l. h (suc i) (omega arith))))

popcount-count : (w : Word) → popcount w ≡ count (length w) (test_bit w)
popcount-count [] = refl
popcount-count (true ∷ w) = ap suc (popcount-count w)
popcount-count (false ∷ w) = popcount-count w

pub nonzero-any_slot : (w : Word) → nonzero w ≡ any_slot (length w) (test_bit w)
nonzero-any_slot [] = refl
nonzero-any_slot (a ∷ w) = ap (λ b. a || b) (nonzero-any_slot w)

-- The count of a word whose bits are known.
pub count_slots-count :
    (w : Word) (p : ℕ → Bool)
    → length w ≡ 64
    → ((i : ℕ) → i < 64 → test_bit w i ≡ p i)
    → count_slots w ≡ count 64 p
count_slots-count w p h same =
    count_slots_lem w h
    ∙ popcount-count w
    ∙ ap (λ n. count n (test_bit w)) h
    ∙ count-cong 64 (test_bit w) p same

low_mask-bit : (w n i : ℕ) → n < w → test_bit (decrement (shifted_one w n)) i ≡ ltb i n
low_mask-bit zero n i h = absurd (omega arith)
low_mask-bit (suc w) zero zero h = ground arith
low_mask-bit (suc w) zero (suc i) h = test_bit-replicate w i ∙ ground arith
low_mask-bit (suc w) (suc n) zero h = ground arith
low_mask-bit (suc w) (suc n) (suc i) h = low_mask-bit w n i (omega arith) ∙ ground arith

ones-bit : (w i : ℕ) → i < w → test_bit (replicate w true) i ≡ true
ones-bit zero i h = absurd (omega arith)
ones-bit (suc w) zero h = refl
ones-bit (suc w) (suc i) h = ones-bit w i (omega arith)

pub slot_mask_for-bit : (n i : ℕ) → i < 64 → test_bit (slot_mask_for n) i ≡ ltb i n
unfolding slot_mask_for
slot_mask_for-bit n i h = elim (Bool-cases (leb 64 n)) [
  | inl y ↦ rw (y, slot_mask_for) (ones-bit 64 i h ∙ ground arith)
  | inr z ↦ elim (Bool-cases (n == 0)) [
    | inl y ↦ rw (z, y, slot_mask_for) (test_bit-replicate 64 i ∙ ground arith)
    | inr w ↦ rw (z, w, slot_mask_for) (low_mask-bit 64 n i (ground arith))
  ]
]

-- Whether a member's id holds a slot, the first of them 0.
abbrev pub is_held : List RoomMember → ℕ → Bool
is_held [] i = false
is_held (m ∷ ms) i = nat_beq (m.member_id / 16) (i + 1) || is_held ms i

marked-bit :
    (mask : Word) (slot i : ℕ)
    → length mask ≡ 64
    → i < 64
    → let next =
        if ltb 0 slot && leb slot 64 then bit_or mask (shifted_one 64 (slot - 1)) else mask in
      (length next ≡ 64) × (test_bit next i ≡ (test_bit mask i || nat_beq slot (i + 1)))
marked-bit mask slot i h k = elim (Bool-cases (ltb 0 slot && leb slot 64)) [
  | inl y ↦
      let l : length mask ≡ length (shifted_one 64 (slot - 1)) =
        h ∙ sym (length-shifted_one 64 (slot - 1)) in
      let one = test_bit-shifted_one 64 (slot - 1) i (ground arith) in
      rw y (
        length-bit_or mask (shifted_one 64 (slot - 1)) l ∙ h,
        test_bit-bit_or mask (shifted_one 64 (slot - 1)) i l
            ∙ ap (λ b. test_bit mask i || b) (one ∙ ground arith),
      )
  | inr n ↦ rw n (h, ground arith)
]

pub joined_mask-bit :
    (ms : List RoomMember) (mask : Word) (i : ℕ)
    → length mask ≡ 64
    → i < 64
    → test_bit (joined_mask ms mask) i ≡ (test_bit mask i || is_held ms i)
unfolding joined_mask
joined_mask-bit [] mask i h k = ground arith
joined_mask-bit (m ∷ ms) mask i h k =
    let (l, b) = marked-bit mask (m.member_id / 16) i h k in
    joined_mask-bit ms _ i l k ∙ ap (λ x. x || is_held ms i) b ∙ ground arith
