-- ===== src/Matching/Kicking.antt =====
-- What `CmdKickoutRoomMember` does to a room.
use shad_net.Prelude.{
  ℕ, ◌%◌, ◌^◌, ◌≡◌, ◌≢◌, ◌∙◌, refl, ap, sym, true, false, not, Option, none, some, List, [], ◌∷◌,
  ◌++◌, arith, length, Bool-cases, inl, inr, nat_eq, is_some, beq_self, String, string_eq, ◌!=◌,
  contains, ◌&&◌,
}
use shad_net.Prelude.Assoc.{find}
use shad_net.Matching.Types.{Room, RoomMember}
use shad_net.Matching.Slots.{recompute_room_slot_counts}
use shad_net.Matching.Room.{remove_member}
use shad_net.Matching.Session.{Env}
use shad_net.Matching.Leave.{settle_room, without_member}
use shad_net.Matching.Join.{JoinRoomRequest, join_refusal, room_refuses}
use shad_net.Matching.Kick.{KickoutRequest, kick_refusal, block_kicked, kicked_room}
use shad_net.Matching.Rooms.{IsRoom}
use shad_net.Matching.Leaving.{IsWithout, without_member_lem, settle_room_stays}
use shad_net.Matching.Members.{find-keyed}

block_kicked-same :
    (req : KickoutRequest) (target : RoomMember) (room : Room)
    → let r = block_kicked req target room in
      (r.members ≡ room.members)
      × (r.max_slot ≡ room.max_slot)
      × (r.owner_member_id ≡ room.owner_member_id)
unfolding block_kicked
block_kicked-same req target room = ground arith

block_kicked-IsRoom :
    (req : KickoutRequest) (target : RoomMember) (room : Room)
    → IsRoom room
    → IsRoom (block_kicked req target room)
unfolding block_kicked
block_kicked-IsRoom req target room v =
    elim (Bool-cases
      ((req.block_kick_flag != 0) && not (contains room.blocked_users target.npid))) [
        | inl y ↦
            rw (y, block_kicked)
              (record { keyed = v.keyed; fits = v.fits; narrow = v.narrow; owned = v.owned })
        | inr z ↦ rw (z, block_kicked) v
      ]

-- The checks before a kick let only the owner kick, and only another member.
kick_refusal-none :
    (req : KickoutRequest) (room : Room) (me : RoomMember) (target : Option RoomMember)
    → kick_refusal req room me target ≡ none
    → (room.owner_member_id ≡ me.member_id)
      × (req.target_member_id % 2 ^ 16 ≢ me.member_id)
      × (is_some target ≡ true)
unfolding kick_refusal
kick_refusal-none req room me target h = ground arith

-- When the checks of a kick let it pass in a room that is in order, the room without the target is
-- in order: the kicker, who is its owner, remains the owner; the target is gone; and nobody else is.
pub kicked_room_lem :
    (req : KickoutRequest) (room : Room) (me target : RoomMember)
    → IsRoom room
    → find (req.target_member_id % 2 ^ 16) room.members ≡ some target
    → kick_refusal req room me (some target) ≡ none
    → let room' = kicked_room req target room in
      IsRoom room'
      × (room'.owner_member_id ≡ me.member_id)
      × IsWithout (req.target_member_id % 2 ^ 16) room room'
unfolding kicked_room
kicked_room_lem req room me target v h ok =
    let id = req.target_member_id % 2 ^ 16 in
    let (owner, other, there) = kick_refusal-none req room me (some target) ok in
    let blocked = block_kicked req target room in
    let (ms, limit, same) = block_kicked-same req target room in
    let v' : IsRoom blocked = block_kicked-IsRoom req target room v in
    let h' : find id blocked.members ≡ some target = ap (find id) ms ∙ h in
    let as_keyed : target.member_id ≡ id = find-keyed id target room.members v.keyed h in
    let (w, stays) = without_member_lem id target blocked v'.keyed h' in
    let (kept, owner') = settle_room_stays (without_member id blocked) w.keyed in
    let without : IsWithout id room (kicked_room req target room) = record {
      keyed = kept.keyed;
      fewer = omega (arith, kept.size, w.fewer, ap (λ l. length l) ms);
      limit = kept.limit ∙ w.limit ∙ limit;
      gone = kept.seats id ∙ w.gone;
      others = λ j ne. kept.seats j ∙ w.others j ne ∙ ap (λ l. is_some (find j l)) ms;
    } in
    let kicker = owner' ∙ stays ∙ same ∙ owner in
    (
      record {
        keyed = without.keyed;
        fits = omega (arith, without.fewer, without.limit, v.fits);
        narrow = omega (arith, without.limit, v.narrow);
        owned =
            ap (λ i. is_some (find i (kicked_room req target room).members)) kicker
            ∙ without.others me.member_id (λ e. other (sym e))
            ∙ ap (λ i. is_some (find i room.members)) (sym owner)
            ∙ v.owned;
      },
      kicker,
      without,
    )

contains-append_self : (xs : List String) (x : String) → contains (xs ++ x ∷ []) x ≡ true
unfolding contains
contains-append_self [] x = rw (beq_self x) refl
contains-append_self (y ∷ xs) x = ground (arith, contains-append_self xs x)

settle_room-blocked : (room : Room) → (settle_room false room).blocked_users ≡ room.blocked_users
unfolding settle_room recompute_room_slot_counts
settle_room-blocked room = refl

without_member-blocked :
    (id : ℕ) (room : Room) → (without_member id room).blocked_users ≡ room.blocked_users
unfolding without_member remove_member
without_member-blocked id room = ground arith

kicked-blocked :
    (req : KickoutRequest) (target : RoomMember) (room : Room)
    → req.block_kick_flag ≢ 0
    → contains (kicked_room req target room).blocked_users target.npid ≡ true
unfolding kicked_room block_kicked
kicked-blocked req target room h =
    ap (λ l. contains l target.npid)
      (settle_room-blocked _ ∙ without_member-blocked _ (block_kicked req target room))
    ∙ ground (arith, contains-append_self room.blocked_users target.npid)

-- A player kicked with the block flag is refused by every later join of the room as the kick left it.
pub kicked_room_refuses :
    (kick : KickoutRequest) (target : RoomMember) (room : Room) (env : Env) (join : JoinRoomRequest)
    → kick.block_kick_flag ≢ 0
    → env.npid ≡ target.npid
    → is_some (join_refusal env join (kicked_room kick target room)) ≡ true
unfolding join_refusal room_refuses
kicked_room_refuses kick target room env join h same = ground (
  arith,
  ap (contains (kicked_room kick target room).blocked_users) same,
  kicked-blocked kick target room h,
)
