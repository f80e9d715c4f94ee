-- ===== src/Session/Slots.antt =====
-- The matchmaking slots of SharedState in src/client_session.h. A QSet is the list of its elements.
use shad_net.Prelude.{
  ◌≤◌, ◌<◌, ◌≡◌, refl, Bool, true, false, not, ◌&&◌, List, [], ◌∷◌, if◌then◌else◌, arith, length,
  ltb, leb, contains, keep_if, ◌!=◌, beq_self,
}
use shad_net.Prelude.Int.{ℤ, int_eq, pos_part}

-- TryTakeMatching2Slot: whether the user has a slot, and the slots. The limit is `maxUsers > 0`.
unfoldable pub try_take_slot : ℤ → ℤ → Bool → List ℤ → Bool × List ℤ
try_take_slot user max_users bypass slots =
    if contains slots user
    then (true, slots)
    else if not bypass && ltb 0 (pos_part max_users) && leb (pos_part max_users) (length slots)
    then (false, slots)
    else (true, user ∷ slots)

-- ReleaseMatching2Slot
unfoldable pub release_slot : ℤ → List ℤ → List ℤ
release_slot user = keep_if (λ u. u != user)

contains-release_slot :
    (user : ℤ) (slots : List ℤ) → contains (release_slot user slots) user ≡ false
unfolding release_slot contains
contains-release_slot user [] = refl
contains-release_slot user (u ∷ slots) =
    ground (arith, contains-release_slot user slots, int_eq.beq_iff u user, int_eq.beq_iff user u)

-- TryTakeMatching2Slot answers whether the user then holds a slot; within a limit above 0, which
-- nobody bypasses, no more slots are held than the limit; and after a release the user holds none.
pub try_take_slot_lem :
    (user max_users : ℤ) (slots : List ℤ)
    → 0 < pos_part max_users
    → length slots ≤ pos_part max_users
    → let (held, after) = try_take_slot user max_users false slots in
      (contains after user ≡ held)
      × (length after ≤ pos_part max_users)
      × (contains (release_slot user after) user ≡ false)
unfolding try_take_slot contains
try_take_slot_lem user max_users slots some_limit h = (
  ground (arith, beq_self user),
  ground arith,
  contains-release_slot user (try_take_slot user max_users false slots).1,
)
