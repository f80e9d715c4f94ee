-- ===== src/Matching/RoomMap.antt =====
-- The map of all rooms, in order.
use mathlib.Core.Option.{some-injective}
use shad_net.Prelude.{ℕ, ◌≡◌, subst, some, Bool-cases, inl, inr, String}
use shad_net.Prelude.Assoc.{Assoc, find, insert, find-insert}
use shad_net.Matching.Types.{Room}
use shad_net.Matching.Session.{pair_eq}
use shad_net.Matching.Rooms.{IsRoom}

abbrev pub Rooms : Type 0
Rooms = Assoc (String × ℕ) Room

-- Every room of the map is in order.
unfoldable pub IsRooms : Rooms → Type 0
IsRooms rooms = (k : String × ℕ) (room : Room) → find k rooms ≡ some room → IsRoom room

pub IsRooms-insert :
    (k : String × ℕ) (room : Room) (rooms : Rooms)
    → IsRooms rooms
    → IsRoom room
    → IsRooms (insert k room rooms)
unfolding IsRooms
IsRooms-insert k room rooms v ok j other h = elim (Bool-cases (pair_eq.beq k j)) [
  | inl y ↦ subst IsRoom (some-injective room other (rw (find-insert k j room rooms, y) at h)) ok
  | inr z ↦ v j other (rw (find-insert k j room rooms, z) at h)
]
