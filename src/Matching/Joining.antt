-- ===== src/Matching/Joining.antt =====
-- What `Room::addMember`, `CmdJoinRoom` and `CmdCreateRoom` do to a room.
use shad_net.Prelude.{
  ℕ, ◌+◌, ◌%◌, ◌^◌, ◌≤◌, ◌<◌, ◌≡◌, ◌≢◌, ◌∙◌, refl, ap, sym, subst, false, none, some, List, [], ◌∷◌,
  ◌++◌, if◌then◌else◌, arith, length, Bool-cases, inl, inr, nat_beq, nat_eq, is_some, beq_self,
  beq_ne, string_eq, leb, ltb,
}
use shad_net.Prelude.Assoc.{find, values, find-insert}
use shad_net.Matching.Types.{Room, RoomMember, SharedState, SessionState}
use shad_net.Matching.Slots.{recompute_room_slot_counts}
use shad_net.Matching.Room.{add_member, alloc_member_id, is_full, find_by_npid}
use shad_net.Matching.Session.{Env}
use shad_net.Matching.Join.{
  JoinRoomRequest, join_refusal, joiner, flag_full, joined_room, room_refuses, any_blocks,
}
use shad_net.Matching.Create.Request.{BinAttr, CreateRoomRequest}
use shad_net.Matching.Create.Attrs.{apply_create_bin_attr, apply_create_bin_attrs}
use shad_net.Matching.Create.{blank_room, owner_member, build_room}
use shad_net.Matching.Create.Groups.{join_group}
use shad_net.Matching.Members.{IsKeyed, alloc_member_id_fresh}
use shad_net.Matching.Keyed.{insert-IsKeyed, length-insert_new, length-values}
use shad_net.Matching.Rooms.{IsRoom}

-- A room after the member `me` came in.
pub record IsWith (me : RoomMember) (before after : Room) : Type 0 where
  pub keyed : IsKeyed after.members
  pub one_more : length after.members ≡ length before.members + 1
  pub limit : after.max_slot ≡ before.max_slot
  pub owner : after.owner_member_id ≡ before.owner_member_id
  pub was_free : find me.member_id before.members ≡ none
  pub seated : find me.member_id after.members ≡ some me
  pub others : (j : ℕ) → j ≢ me.member_id → find j after.members ≡ find j before.members

-- With a slot to spare, the new member has an id of its own and everyone else stays.
pub add_member_lem :
    (proto : RoomMember) (room : Room)
    → IsKeyed room.members
    → length room.members < 64
    → let (after, me) = add_member proto room in IsWith me room after × (me.npid ≡ proto.npid)
unfolding add_member
add_member_lem proto room v h =
    let id = alloc_member_id room in
    let me : RoomMember = record proto { member_id = id } in
    let fresh : find id room.members ≡ none =
      (alloc_member_id_fresh room v (omega (arith, length-values room.members))).0 in
    (
      record {
        keyed = insert-IsKeyed me room.members v;
        one_more = length-insert_new id me room.members fresh;
        limit = refl;
        owner = refl;
        was_free = fresh;
        seated = find-insert id id me room.members ∙ rw (beq_self id) refl;
        others = λ j ne. find-insert id j me room.members ∙ rw (beq_ne id j (λ e. ne (sym e))) refl;
      },
      refl,
    )

-- A room with one more member is in order if there was a place.
with_member-IsRoom :
    (me : RoomMember) (before after : Room)
    → IsRoom before
    → IsWith me before after
    → length before.members < before.max_slot
    → IsRoom after
with_member-IsRoom me before after v w h = record {
  keyed = w.keyed;
  fits = omega (arith, w.one_more, w.limit);
  narrow = omega (arith, w.limit, v.narrow);
  owned = elim (Bool-cases (nat_beq before.owner_member_id me.member_id)) [
    | inl y ↦
        ap (λ i. is_some (find i after.members))
          (w.owner ∙ (nat_eq.beq_iff before.owner_member_id me.member_id).0 y)
        ∙ ap is_some w.seated
    | inr z ↦
        ap (λ i. is_some (find i after.members)) w.owner
        ∙ ap is_some (w.others before.owner_member_id (λ e. ground arith))
        ∙ v.owned
  ];
}

-- A player whom the checks let in finds a place, is not in the room yet, and nobody blocks them.
join_refusal-none :
    (env : Env) (req : JoinRoomRequest) (room : Room)
    → join_refusal env req room ≡ none
    → (length room.members < room.max_slot)
      × (find_by_npid env.npid room ≡ none)
      × (room_refuses env room ≡ false)
      × (any_blocks env req (values room.members) ≡ false)
unfolding join_refusal is_full
join_refusal-none env req room h = ground arith

flag_full-IsWith :
    (me : RoomMember) (before after : Room)
    → IsWith me before after
    → IsWith me before (flag_full after)
unfolding flag_full
flag_full-IsWith me before after w =
    elim (Bool-cases (leb after.max_slot (length after.members % 2 ^ 16))) [
      | inl y ↦
          rw (y, flag_full)
            (record {
              keyed = w.keyed;
              one_more = w.one_more;
              limit = w.limit;
              owner = w.owner;
              was_free = w.was_free;
              seated = w.seated;
              others = w.others;
            })
      | inr z ↦ rw (z, flag_full) w
    ]

-- A player whom the checks of CmdJoinRoom let into a room in order was not in it and had a place;
-- the room with the player is in order, has one member more, and has the player under an id that
-- was free, under the player's own online id.
pub joined_room_lem :
    (env : Env) (shared : SharedState) (req : JoinRoomRequest) (room : Room)
    → IsRoom room
    → join_refusal env req room ≡ none
    → let (room', me) = joined_room env shared req room in
      IsRoom room'
      × IsWith me room room'
      × (me.npid ≡ env.npid)
      × (find_by_npid env.npid room ≡ none)
      × (length room.members < room.max_slot)
unfolding joined_room recompute_room_slot_counts joiner
joined_room_lem env shared req room v h =
    let (place, absent, welcome, unblocked) = join_refusal-none env req room h in
    let (w, same) = add_member_lem (joiner env shared req) room v.keyed (omega (arith, v.narrow)) in
    let me = (add_member (joiner env shared req) room).1 in
    let counted = recompute_room_slot_counts (add_member (joiner env shared req) room).0 in
    let wc : IsWith me room counted = record {
      keyed = w.keyed;
      one_more = w.one_more;
      limit = w.limit;
      owner = w.owner;
      was_free = w.was_free;
      seated = w.seated;
      others = w.others;
    } in
    let wf : IsWith me room (flag_full counted) = flag_full-IsWith me room counted wc in
    (with_member-IsRoom me room (flag_full counted) v wf place, wf, same, absent, place)

-- The attributes of a new room do not touch its members, its limit or its owner.
apply_create_bin_attr-same :
    (now id : ℕ) (a : BinAttr) (room : Room)
    → let r = apply_create_bin_attr now id a room in
      (r.members ≡ room.members)
      × (r.max_slot ≡ room.max_slot)
      × (r.owner_member_id ≡ room.owner_member_id)
unfolding apply_create_bin_attr
apply_create_bin_attr-same now id a room = ground arith

apply_create_bin_attrs-same :
    (now id : ℕ) (attrs : List BinAttr) (room : Room)
    → let r = apply_create_bin_attrs now id attrs room in
      (r.members ≡ room.members)
      × (r.max_slot ≡ room.max_slot)
      × (r.owner_member_id ≡ room.owner_member_id)
unfolding apply_create_bin_attrs
apply_create_bin_attrs-same now id [] room = (refl, refl, refl)
apply_create_bin_attrs-same now id (a ∷ rest) room =
    let (m, l, o) = apply_create_bin_attrs-same now id rest (apply_create_bin_attr now id a room) in
    let (m', l', o') = apply_create_bin_attr-same now id a room in (m ∙ m', l ∙ l', o ∙ o')

limit_range : (n : ℕ) → n ≤ 64 → let limit = if ltb n 1 then 1 else n in (1 ≤ limit) × (limit ≤ 64)
limit_range n h = ground arith

-- A room of at most 64 slots, as CmdCreateRoom builds it, is in order; its creator is its owner and
-- its one member, under the creator's online id, and its limit is the request's, or 1 for 0.
pub build_room_lem :
    (env : Env) (m : SessionState) (shared : SharedState) (room_id : ℕ) (req : CreateRoomRequest)
    → req.max_slots % 2 ^ 16 ≤ 64
    → let (room, me) = build_room env m shared room_id req in
      IsRoom room
      × (room.owner_member_id ≡ me.member_id)
      × (find me.member_id room.members ≡ some me)
      × (length room.members ≡ 1)
      × (me.npid ≡ env.npid)
      × (room.max_slot ≡ (if ltb (req.max_slots % 2 ^ 16) 1 then 1 else req.max_slots % 2 ^ 16))
unfolding build_room blank_room recompute_room_slot_counts owner_member IsKeyed
build_room_lem env m shared room_id req h =
    let blank = blank_room env m room_id req in
    let (group_id, groups) = join_group req.join_group_label blank.groups in
    let proto = owner_member env shared req group_id in
    let grouped : Room = record blank { groups = groups } in
    let (w, same) = add_member_lem proto grouped tt (omega arith) in
    let (joined, me) = add_member proto grouped in
    let owned : Room = record joined { owner_member_id = me.member_id } in
    let attrs = req.internal_bin_attrs ++ req.search_bin_attrs ++ req.external_bin_attrs in
    let room =
      recompute_room_slot_counts (apply_create_bin_attrs me.join_date me.member_id attrs owned) in
    let (ms, limit, owner) = apply_create_bin_attrs-same me.join_date me.member_id attrs owned in
    let (low, high) = limit_range (req.max_slots % 2 ^ 16) h in
    let one = ap (λ l. length l) ms ∙ w.one_more in
    let seated = ap (find me.member_id) ms ∙ w.seated in
    (
      record {
        keyed = subst IsKeyed (sym ms) w.keyed;
        fits = omega (arith, one, limit, w.limit, low);
        narrow = omega (arith, limit, w.limit, high);
        owned = ap (λ i. is_some (find i room.members)) owner ∙ ap is_some seated;
      },
      owner,
      seated,
      one,
      same,
      limit ∙ w.limit,
    )
