-- ===== src/Matching/Settings/Laws.antt =====
-- What the setters of rooms and members keep.
use shad_net.Prelude.{
  ℕ, ◌<◌, ◌≡◌, ◌∙◌, refl, ap, sym, subst, not, ◌&&◌, Option, none, some, if◌then◌else◌, arith,
  length, nat_eq, nat_beq, is_some, string_eq,
}
use shad_net.Prelude.Assoc.{find, insert, find-insert}
use shad_net.Prelude.Bits.{
  Word, bit_and, bit_not, test_bit, test_bit-bit_and, test_bit-bit_or, test_bit-bit_not,
  length-bit_and, length-bit_not, test_bit-shifted_one,
}
use shad_net.Matching.Types.{Room, RoomMember, full_flag, owner_flag}
use shad_net.Matching.Slots.{recompute_room_slot_counts}
use shad_net.Matching.Session.{Env}
use shad_net.Matching.Settings.{
  merge_flags, SetRoomDataInternalRequest, SetRoomMemberDataInternalRequest,
  SetRoomDataExternalRequest, internal_set, with_passwd_mask, member_set, with_member, external_set,
}
use shad_net.Matching.Members.{IsKeyed, find-keyed}
use shad_net.Matching.Keyed.{insert-IsKeyed, length-insert_old}
use shad_net.Matching.Rooms.{IsRoom}

-- Each flag by itself: a flag that the filter names, and that is not protected, takes the given
-- value; every other flag keeps the old one.
pub test_bit-merge_flags :
    (w n : ℕ) (filter attr protected old : Word)
    → length filter ≡ w
    → length attr ≡ w
    → length protected ≡ w
    → length old ≡ w
    → n < w
    → test_bit (merge_flags filter attr protected old) n ≡ (
        if test_bit filter n && not (test_bit protected n) then test_bit attr n else test_bit old n)
test_bit-merge_flags w n filter attr protected old hf ha hp ho lt =
    let effective = bit_and filter (bit_not protected) in
    let len : length effective ≡ w =
      length-bit_and filter (bit_not protected) (omega (arith, length-bit_not protected)) ∙ hf in
    let len' = length-bit_not effective in
    ground (
      arith,
      test_bit-bit_or (bit_and old (bit_not effective)) (bit_and attr effective) n
          (omega (arith, length-bit_and old (bit_not effective), length-bit_and attr effective)),
      test_bit-bit_and old (bit_not effective) n,
      test_bit-bit_and attr effective n,
      test_bit-bit_and filter (bit_not protected) n,
      test_bit-bit_not effective n (omega arith),
      test_bit-bit_not protected n (omega arith),
    )

-- A room whose table, limit and owner are another's is in order if that one is.
same_shape-IsRoom :
    (room room' : Room)
    → IsRoom room
    → room'.members ≡ room.members
    → room'.max_slot ≡ room.max_slot
    → room'.owner_member_id ≡ room.owner_member_id
    → IsRoom room'
same_shape-IsRoom room room' v ms limit owner = record {
  keyed = subst IsKeyed (sym ms) v.keyed;
  fits = omega (arith, ap (λ l. length l) ms, limit, v.fits);
  narrow = omega (arith, limit, v.narrow);
  owned =
      ap (λ l. is_some (find room'.owner_member_id l)) ms
      ∙ ap (λ i. is_some (find i room.members)) owner
      ∙ v.owned;
}

with_passwd_mask-same :
    (mask : Option Word) (room : Room)
    → let r = with_passwd_mask mask room in
      (r.members ≡ room.members)
      × (r.max_slot ≡ room.max_slot)
      × (r.owner_member_id ≡ room.owner_member_id)
      × (r.flag_attr ≡ room.flag_attr)
unfolding recompute_room_slot_counts
with_passwd_mask-same none room = (refl, refl, refl, refl)
with_passwd_mask-same (some mask) room = (refl, refl, refl, refl)

-- A request to set a room's internal data keeps the room in order, with the same members, limit and
-- owner. Each flag that its filter names, but FULL (bit 29), takes the value that it gives, and
-- every other flag stays.
pub internal_set_lem :
    (env : Env) (req : SetRoomDataInternalRequest) (room : Room) (n : ℕ)
    → IsRoom room
    → length req.flag_filter ≡ 32
    → length req.flag_attr ≡ 32
    → length room.flag_attr ≡ 32
    → n < 32
    → let room' = (internal_set env req room).0 in
      IsRoom room'
      × (room'.members ≡ room.members)
      × (room'.max_slot ≡ room.max_slot)
      × (room'.owner_member_id ≡ room.owner_member_id)
      × (test_bit room'.flag_attr n ≡ (
          if test_bit req.flag_filter n && not (nat_beq 29 n)
          then test_bit req.flag_attr n
          else test_bit room.flag_attr n))
unfolding internal_set
internal_set_lem env req room n v hf ha ho lt =
    let flagged : Room = record room {
      flag_attr = merge_flags req.flag_filter req.flag_attr full_flag room.flag_attr;
    } in
    let (ms, limit, owner, flags) = with_passwd_mask-same req.passwd_slot_mask flagged in
    (
      same_shape-IsRoom room (internal_set env req room).0 v ms limit owner,
      ms,
      limit,
      owner,
      ap (λ w. test_bit w n) flags
          ∙ test_bit-merge_flags 32 n req.flag_filter req.flag_attr full_flag room.flag_attr hf ha
              refl ho lt
          ∙ ap
              (λ b.
                if test_bit req.flag_filter n && not b
                then test_bit req.flag_attr n
                else test_bit room.flag_attr n)
              (test_bit-shifted_one 32 29 n (omega arith)),
    )

pub with_member-IsRoom :
    (id : ℕ) (m m' : RoomMember) (room : Room)
    → IsRoom room
    → find id room.members ≡ some m
    → m'.member_id ≡ m.member_id
    → IsRoom (with_member id m' room)
with_member-IsRoom id m m' room v h same =
    let key : m'.member_id ≡ id = same ∙ find-keyed id m room.members v.keyed h in
    record {
      keyed =
          subst (λ i. IsKeyed (insert i m' room.members)) key
            (insert-IsKeyed m' room.members v.keyed);
      fits = omega (arith, length-insert_old id m' m room.members h, v.fits);
      narrow = v.narrow;
      owned = ground (arith, find-insert id room.owner_member_id m' room.members, v.owned);
    }

-- A request to set a member's data keeps the room in order; the member's id and online id stay, each
-- flag that the filter names, but OWNER (bit 31), takes the value that it gives, and every other
-- flag of the member stays.
pub member_set_lem :
    (env : Env) (req : SetRoomMemberDataInternalRequest) (room : Room) (id n : ℕ) (m : RoomMember)
    → IsRoom room
    → find id room.members ≡ some m
    → length req.flag_filter ≡ 32
    → length req.flag_attr ≡ 32
    → length m.flag_attr ≡ 32
    → n < 32
    → let m' = member_set env req m in
      IsRoom (with_member id m' room)
      × (m'.member_id ≡ m.member_id)
      × (m'.npid ≡ m.npid)
      × (test_bit m'.flag_attr n ≡ (
          if test_bit req.flag_filter n && not (nat_beq 31 n)
          then test_bit req.flag_attr n
          else test_bit m.flag_attr n))
unfolding member_set
member_set_lem env req room id n m v h hf ha ho lt = (
  with_member-IsRoom id m (member_set env req m) room v h refl,
  refl,
  refl,
  test_bit-merge_flags 32 n req.flag_filter req.flag_attr owner_flag m.flag_attr hf ha refl ho lt
      ∙ ap
          (λ b.
            if test_bit req.flag_filter n && not b
            then test_bit req.flag_attr n
            else test_bit m.flag_attr n)
          (test_bit-shifted_one 32 31 n (omega arith)),
)

pub internal_set-IsRoom :
    (env : Env) (req : SetRoomDataInternalRequest) (room : Room)
    → IsRoom room
    → IsRoom (internal_set env req room).0
unfolding internal_set
internal_set-IsRoom env req room v =
    let flagged : Room = record room {
      flag_attr = merge_flags req.flag_filter req.flag_attr full_flag room.flag_attr;
    } in
    let (ms, limit, owner, flags) = with_passwd_mask-same req.passwd_slot_mask flagged in
    same_shape-IsRoom room (internal_set env req room).0 v ms limit owner

pub member_set-IsRoom :
    (env : Env) (req : SetRoomMemberDataInternalRequest) (room : Room) (id : ℕ) (m : RoomMember)
    → IsRoom room
    → find id room.members ≡ some m
    → IsRoom (with_member id (member_set env req m) room)
unfolding member_set
member_set-IsRoom env req room id m v h =
    with_member-IsRoom id m (member_set env req m) room v h refl

pub external_set-IsRoom :
    (req : SetRoomDataExternalRequest) (room : Room) → IsRoom room → IsRoom (external_set req room)
unfolding external_set
external_set-IsRoom req room v = same_shape-IsRoom room (external_set req room) v refl refl refl
