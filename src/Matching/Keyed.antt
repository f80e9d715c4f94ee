-- ===== src/Matching/Keyed.antt =====
-- Tables of members keyed by their ids: what insertions and removals keep.
use mathlib.Core.Option.{some-injective}
use shad_net.Prelude.{
  ℕ, suc, ◌+◌, ◌≡◌, ◌∙◌, refl, ap, sym, subst, none, some, List, [], ◌∷◌, arith, length, Bool-cases,
  inl, inr, nat_beq, nat_eq, beq_self, String, string_eq,
}
use shad_net.Prelude.Assoc.{Assoc, find, insert, remove, values, find-insert, find-remove}
use shad_net.Matching.Types.{RoomMember}
use shad_net.Matching.Room.{npid_in}
use shad_net.Matching.Members.{IsKeyed}

pub length-values : (members : Assoc ℕ RoomMember) → length (values members) ≡ length members
length-values [] = refl
length-values ((id, m) ∷ members) = ap suc (length-values members)

pub insert-IsKeyed :
    (m : RoomMember) (members : Assoc ℕ RoomMember)
    → IsKeyed members
    → IsKeyed (insert m.member_id m members)
unfolding insert IsKeyed find
insert-IsKeyed m [] v = (refl, refl, tt)
insert-IsKeyed m ((j, n) ∷ members) v = elim (Bool-cases (nat_beq j m.member_id)) [
  | inl y ↦ rw (y, insert, IsKeyed) (refl, ground arith, v.2)
  | inr z ↦
      rw (z, insert, IsKeyed)
        (v.0, find-insert m.member_id j m members ∙ ground arith, insert-IsKeyed m members v.2)
]

pub length-insert_new :
    (id : ℕ) (m : RoomMember) (members : Assoc ℕ RoomMember)
    → find id members ≡ none
    → length (insert id m members) ≡ length members + 1
unfolding insert find
length-insert_new id m [] h = refl
length-insert_new id m ((j, n) ∷ members) h = ground (arith, length-insert_new id m members)

pub length-insert_old :
    (id : ℕ) (m n : RoomMember) (members : Assoc ℕ RoomMember)
    → find id members ≡ some n
    → length (insert id m members) ≡ length members
unfolding insert find
length-insert_old id m n [] h = ground arith
length-insert_old id m n ((j, k) ∷ members) h = ground (arith, length-insert_old id m n members)

pub remove_absent :
    (id : ℕ) (members : Assoc ℕ RoomMember) → find id members ≡ none → remove id members ≡ members
unfolding remove find
remove_absent id [] h = refl
remove_absent id ((j, n) ∷ members) h = ground (arith, remove_absent id members)

pub remove-IsKeyed :
    (id : ℕ) (members : Assoc ℕ RoomMember) → IsKeyed members → IsKeyed (remove id members)
unfolding remove IsKeyed find
remove-IsKeyed id [] v = tt
remove-IsKeyed id ((j, n) ∷ members) v = elim (Bool-cases (nat_beq j id)) [
  | inl y ↦ rw (y, remove) (remove-IsKeyed id members v.2)
  | inr z ↦
      rw (z, remove, IsKeyed)
        (v.0, find-remove id j members ∙ ground (arith, v.1), remove-IsKeyed id members v.2)
]

pub length-remove :
    (id : ℕ) (n : RoomMember) (members : Assoc ℕ RoomMember)
    → IsKeyed members
    → find id members ≡ some n
    → length (remove id members) + 1 ≡ length members
unfolding remove IsKeyed find
length-remove id n [] v h = ground arith
length-remove id n ((j, k) ∷ members) v h = elim (Bool-cases (nat_beq j id)) [
  | inl y ↦
      rw (y, remove)
        (ap (λ l. length l + 1)
            (remove_absent id members
              (subst (λ i. find i members ≡ none) ((nat_eq.beq_iff j id).0 y) v.1))
          ∙ omega arith)
  | inr z ↦ rw (z, remove) (omega (arith, length-remove id n members v.2 (rw z at h)))
]

-- A member found by its online id is in the table under its own id.
pub find-npid_in :
    (npid : String) (m : RoomMember) (members : Assoc ℕ RoomMember)
    → IsKeyed members
    → npid_in npid (values members) ≡ some m
    → find m.member_id members ≡ some m
unfolding npid_in IsKeyed find
find-npid_in npid m [] v h = ground arith
find-npid_in npid m ((j, n) ∷ members) v h = elim (Bool-cases (string_eq.beq n.npid npid)) [
  | inl y ↦
      let same : n ≡ m = some-injective n m (rw y at h) in
      subst (λ w. find w.member_id ((j, n) ∷ members) ≡ some w) same
        (rw (v.0, beq_self j, find) refl)
  | inr z ↦ let later = find-npid_in npid m members v.2 (rw z at h) in ground (arith, later, v.1)
]

pub npid_in-npid :
    (npid : String) (m : RoomMember) (ms : List RoomMember)
    → npid_in npid ms ≡ some m
    → m.npid ≡ npid
unfolding npid_in
npid_in-npid npid m [] h = ground arith
npid_in-npid npid m (n ∷ ms) h = elim (Bool-cases (string_eq.beq n.npid npid)) [
  | inl y ↦
      ap (λ w. w.npid) (sym (some-injective n m (rw y at h))) ∙ (string_eq.beq_iff n.npid npid).0 y
  | inr z ↦ npid_in-npid npid m ms (rw z at h)
]
