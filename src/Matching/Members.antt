-- ===== src/Matching/Members.antt =====
-- A new member's id: the slot search of `allocMemberId` finds a free slot of the room.
use shad_net.Prelude.{
  ℕ, zero, suc, ◌+◌, ◌*◌, ◌/◌, ◌≤◌, ◌<◌, ◌≡◌, ◌≢◌, ◌∙◌, refl, ap, sym, true, false, none, some,
  List, [], ◌∷◌, arith, length, keep_if, ltb, Option-cases, Bool-cases, inl, inr, nat_beq, ◌!=◌,
  nat_eq,
}
use mathlib.Core.Option.{some-injective}
use shad_net.Prelude.Assoc.{Assoc, find, values}
use shad_net.Matching.Types.{Room, RoomMember}
use shad_net.Matching.Room.{slot_taken, free_slot, next_counter, alloc_member_id}

-- The members in other slots.
abbrev off_slot : ℕ → List RoomMember → List RoomMember
off_slot slot = keep_if (λ m. m.member_id / 16 != slot)

off_slot-other :
    (slot t : ℕ) (ms : List RoomMember)
    → t ≢ slot
    → slot_taken t (off_slot slot ms) ≡ slot_taken t ms
unfolding slot_taken
off_slot-other slot t [] h = refl
off_slot-other slot t (m ∷ ms) h = ground (arith, off_slot-other slot t ms h)

length-off_slot : (slot : ℕ) (ms : List RoomMember) → length (off_slot slot ms) ≤ length ms
length-off_slot slot [] = omega arith
length-off_slot slot (m ∷ ms) = ground (arith, length-off_slot slot ms)

length-off_slot_taken :
    (slot : ℕ) (ms : List RoomMember)
    → slot_taken slot ms ≡ true
    → length (off_slot slot ms) + 1 ≤ length ms
unfolding slot_taken
length-off_slot_taken slot [] h = ground arith
length-off_slot_taken slot (m ∷ ms) h =
    ground (arith, length-off_slot slot ms, length-off_slot_taken slot ms)

-- Slots in a row that are all taken are no more than the members.
taken_row :
    (n slot : ℕ) (ms : List RoomMember)
    → ((t : ℕ) → slot ≤ t → t < slot + n → slot_taken t ms ≡ true)
    → n ≤ length ms
taken_row zero slot ms h = omega arith
taken_row (suc n) slot ms h =
    let fewer : n ≤ length (off_slot slot ms) =
      taken_row n (slot + 1) (off_slot slot ms) (λ t lo hi.
        off_slot-other slot t ms (λ e. omega arith) ∙ h t (omega arith) (omega arith)) in
    omega (arith, length-off_slot_taken slot ms (h slot (omega arith) (omega arith)))

-- A search that runs to its end has met taken slots only.
free_slot-end :
    (n slot : ℕ) (ms : List RoomMember)
    → slot + n ≤ free_slot n slot ms
    → (t : ℕ) → slot ≤ t
    → t < slot + n
    → slot_taken t ms ≡ true
unfolding free_slot
free_slot-end zero slot ms h t lo hi = absurd (omega arith)
free_slot-end (suc n) slot ms h t lo hi = elim (Bool-cases (slot_taken slot ms)) [
  | inl y ↦ elim (Bool-cases (nat_beq t slot)) [
    | inl e ↦ ground arith
    | inr e ↦ free_slot-end n (slot + 1) ms (ground arith) t (ground arith) (omega arith)
  ]
  | inr z ↦ ground arith
]

free_slot-lower : (n slot : ℕ) (ms : List RoomMember) → slot ≤ free_slot n slot ms
unfolding free_slot
free_slot-lower zero slot ms = omega arith
free_slot-lower (suc n) slot ms = ground (arith, free_slot-lower n (slot + 1) ms)

free_slot-free :
    (n slot : ℕ) (ms : List RoomMember)
    → free_slot n slot ms < slot + n
    → slot_taken (free_slot n slot ms) ms ≡ false
unfolding free_slot
free_slot-free zero slot ms h = absurd (omega arith)
free_slot-free (suc n) slot ms h = elim (Bool-cases (slot_taken slot ms)) [
  | inl y ↦ rw (y, free_slot) (free_slot-free n (slot + 1) ms (ground arith))
  | inr z ↦ rw (z, free_slot) z
]

-- With fewer members than slots the search stops at a slot from 1 to 64.
free_slot-found : (ms : List RoomMember) → length ms < 64 → free_slot 64 1 ms < 65
free_slot-found ms h = elim (Bool-cases (ltb (free_slot 64 1 ms) 65)) [
  | inl y ↦ ground arith
  | inr z ↦
      let row : 64 ≤ length ms = taken_row 64 1 ms (free_slot-end 64 1 ms (ground arith)) in
      omega arith
]

-- Each member is in the table under its own id, and once.
unfoldable pub IsKeyed : Assoc ℕ RoomMember → Type 0
IsKeyed [] = Unit
IsKeyed ((id, m) ∷ members) = (m.member_id ≡ id) × (find id members ≡ none) × IsKeyed members

pub find-keyed :
    (id : ℕ) (m : RoomMember) (members : Assoc ℕ RoomMember)
    → IsKeyed members
    → find id members ≡ some m
    → m.member_id ≡ id
unfolding find IsKeyed
find-keyed id m [] v h = ground arith
find-keyed id m ((j, n) ∷ members) v h = elim (Bool-cases (nat_beq j id)) [
  | inl y ↦ ap (λ w. w.member_id) (sym (some-injective n m (rw y at h))) ∙ v.0 ∙ ground arith
  | inr z ↦ find-keyed id m members v.2 (rw z at h)
]

slot_taken-find :
    (id : ℕ) (m : RoomMember) (members : Assoc ℕ RoomMember)
    → find id members ≡ some m
    → slot_taken (m.member_id / 16) (values members) ≡ true
unfolding find slot_taken
slot_taken-find id m [] h = ground arith
slot_taken-find id m ((j, n) ∷ members) h =
    ground (arith, slot_taken-find id m members, some-injective n m)

-- In a room of fewer than 64 members, each in the table under its own id, `allocMemberId` gives an
-- id that no member has, and whose slot, from 1 to 64, no member holds.
pub alloc_member_id_fresh :
    (room : Room)
    → IsKeyed room.members
    → length (values room.members) < 64
    → (find (alloc_member_id room) room.members ≡ none)
      × (slot_taken (alloc_member_id room / 16) (values room.members) ≡ false)
      × (1 ≤ alloc_member_id room / 16)
      × (alloc_member_id room / 16 ≤ 64)
unfolding alloc_member_id
alloc_member_id_fresh room keyed h =
    let slot = free_slot 64 1 (values room.members) in
    let id = slot * 16 + next_counter room in
    let same : id / 16 ≡ slot = omega arith in
    let empty : slot_taken (id / 16) (values room.members) ≡ false =
      rw same
        (free_slot-free 64 1 (values room.members) (free_slot-found (values room.members) h)) in
    (
      elim (Option-cases (find id room.members)) [
        | inl n ↦ n
        | inr (m, y) ↦ absurd (
            ground
              (arith, slot_taken-find id m room.members y, find-keyed id m room.members keyed y))
      ],
      empty,
      omega (arith, free_slot-lower 64 1 (values room.members)),
      omega (arith, free_slot-found (values room.members) h),
    )
