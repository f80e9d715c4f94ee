-- ===== src/Matching/Examples.antt =====
-- Rooms at concrete requests: a player creates a room, another joins.
mod Commands
use shad_net.Prelude.{
  ◌+◌, ◌-◌, ◌%◌, ◌^◌, ◌≤◌, ◌<◌, ◌≡◌, refl, ap, sym, [], ◌∷◌, arith, some, none, ◌⊎◌, String,
  string_eq, length, min, true, false, is_some, nat_eq, ltb, contains, if◌then◌else◌, take, drop,
  ◌/◌,
}
use shad_net.Prelude.Assoc.{find, insert, values}
use shad_net.Prelude.Int.{ℤ, pos, int_eq}
use shad_net.Matching.Types.{Room, RoomMember, SharedState, SessionState, empty_word}
use shad_net.Matching.Slots.{recompute_room_slot_counts}
use shad_net.Matching.SlotCounts.{joined_count, recompute_counts}
use shad_net.Matching.SlotCounts.Each.{count, is_held}
use shad_net.Matching.SlotCounts.Counted.{is_private, recompute_slots}
use shad_net.Prelude.{ltb, ◌&&◌, not}
use shad_net.Prelude.Assoc.{values}
use shad_net.Matching.Room.{add_member, is_full, slot_taken, alloc_member_id, find_by_npid, npid_in}
use shad_net.Matching.Session.{Env, Server, pair_eq}
use shad_net.Matching.Create.Request.{CreateRoomRequest}
use shad_net.Matching.Create.{build_room, cmd_create_room}
use shad_net.Matching.Join.{
  flag_full, room_refuses, any_blocks, JoinRoomRequest, join_refusal, joined_room, cmd_join_room,
}
use shad_net.Matching.Leave.{leave_shared, cmd_leave_room}
use shad_net.Matching.Kick.{KickoutRequest, kick_refusal, kicked_room}
use shad_net.Matching.Members.{alloc_member_id_fresh}
use shad_net.Matching.Rooms.{IsRoom}
use shad_net.Matching.Leaving.{IsWithout, leave_shared_lem, leave_shared_other}
use shad_net.Matching.Joining.{IsWith, joined_room_lem, build_room_lem}
use shad_net.Matching.Kicking.{kicked_room_lem, kicked_room_refuses}
use shad_net.Matching.RoomMap.{IsRooms}
use shad_net.Matching.Invariant.{start, next, creates, joins, leaves, Reach-IsRooms}
use shad_net.Matching.Search.{
  SearchRoomRequest, matches, candidates, search_page, range_start_of, range_max_of,
}
use shad_net.Matching.Search.Pages.{AllShown, search_page_lem}
use shad_net.Matching.Worlds.{count_rooms, room_total, count_rooms-room_total}

abbrev player : String → ℤ → Env
player npid user = record {
  user_id = user;
  npid = npid;
  avatar_url = "";
  peer_address = "10.0.0.1";
  now_usec = 1000;
  npid_to_user_id = [];
  clients = [];
}

abbrev alice : Env
alice = player "alice" (pos 1)

abbrev bob : Env
bob = player "bob" (pos 2)

abbrev session : SessionState
session = record {
  ctx_id = 1;
  title_id = "CUSA00001_00";
  matching_key = "k";
  server_id = 1;
  world_id = 1;
  lobby_id = 0;
  room_id = 0;
  my_member_id = 0;
  is_room_owner = false;
  max_slots = 0;
  room_flags = empty_word 32;
  initialized = true;
}

abbrev no_rooms : SharedState
no_rooms = record {
  rooms = [];
  world_rooms = [];
  lobby_rooms = [];
  user_info = [];
  next_room_id = 1;
  world_configs = [];
  title_groups = [];
  udp_ext = [];
}

abbrev server : Server
server = record { session = session; shared = no_rooms }

abbrev creation : CreateRoomRequest
creation = record {
  max_slots = 4;
  team_id = 0;
  world_id = 7;
  lobby_id = 0;
  flags = empty_word 32;
  group_config_count = 0;
  search_int_attrs = [];
  search_bin_attrs = [];
  external_bin_attrs = [];
  member_bin_attrs = [];
  internal_bin_attrs = [];
  join_group_label_present = false;
  join_group_label = [];
  room_password_present = false;
  room_password = [];
  sig_type = 0;
  sig_flag = 0;
  sig_main_member = 0;
  allowed_online_ids = [];
  blocked_online_ids = [];
  allowed_account_ids = [];
  blocked_account_ids = [];
  group_configs = [];
  passwd_slot_mask = none;
}

abbrev entry : JoinRoomRequest
entry = record {
  room_id = 1;
  team_id = 0;
  member_bin_attrs = [];
  blocked_online_ids = [];
  blocked_account_ids = [];
}

abbrev built : Room × RoomMember
built = build_room alice session no_rooms 1 creation

abbrev room : Room
room = built.0

abbrev owner : RoomMember
owner = built.1

built-lem :
    IsRoom room
    × (room.owner_member_id ≡ owner.member_id)
    × (find owner.member_id room.members ≡ some owner)
    × (length room.members ≡ 1)
    × (owner.npid ≡ "alice")
    × (room.max_slot ≡ (if ltb (4 % 2 ^ 16) 1 then 1 else 4 % 2 ^ 16))
built-lem = build_room_lem alice session no_rooms 1 creation (omega arith)

build_room_lem_example :
    IsRoom room
    × (room.owner_member_id ≡ owner.member_id)
    × (find owner.member_id room.members ≡ some owner)
    × (length room.members ≡ 1)
    × (owner.npid ≡ "alice")
    × (room.max_slot ≡ (if ltb (4 % 2 ^ 16) 1 then 1 else 4 % 2 ^ 16))
build_room_lem_example = build_room_lem alice session no_rooms 1 creation (omega arith)

bob-welcome : join_refusal bob entry room ≡ none
unfolding join_refusal is_full room_refuses any_blocks build_room insert find_by_npid npid_in
    recompute_room_slot_counts add_member contains
bob-welcome = refl

abbrev both : Room
both = (joined_room bob no_rooms entry room).0

abbrev guest : RoomMember
guest = (joined_room bob no_rooms entry room).1

both-lem :
    IsRoom both
    × IsWith guest room both
    × (guest.npid ≡ "bob")
    × (find_by_npid "bob" room ≡ none)
    × (length room.members < room.max_slot)
both-lem = joined_room_lem bob no_rooms entry room built-lem.0 bob-welcome

joined_room_lem_example :
    IsRoom both
    × IsWith guest room both
    × (guest.npid ≡ "bob")
    × (find_by_npid "bob" room ≡ none)
    × (length room.members < room.max_slot)
joined_room_lem_example = joined_room_lem bob no_rooms entry room built-lem.0 bob-welcome

alloc_member_id_fresh_example :
    (find (alloc_member_id room) room.members ≡ none)
    × (slot_taken (alloc_member_id room / 16) (values room.members) ≡ false)
    × (1 ≤ alloc_member_id room / 16)
    × (alloc_member_id room / 16 ≤ 64)
unfolding build_room insert recompute_room_slot_counts add_member
alloc_member_id_fresh_example = alloc_member_id_fresh room built-lem.0.keyed (omega arith)

recompute_counts_case :
    let r = recompute_room_slot_counts room in
    (r.public_slots + r.private_slots ≡ min room.max_slot 64)
    × (r.open_public_slots + r.open_private_slots + joined_count room ≡ min room.max_slot 64)
    × (r.max_slot ≡ room.max_slot)
    × (r.members ≡ room.members)
    × (r.flag_attr ≡ room.flag_attr)
unfolding build_room insert recompute_room_slot_counts add_member
recompute_counts_case = recompute_counts room refl

recompute_slots_example :
    let r = recompute_room_slot_counts room in
    let held = is_held (values room.members) in
    (r.public_slots ≡ count 64 (λ i. ltb i room.max_slot && not (is_private room i)))
    × (r.private_slots ≡ count 64 (λ i. ltb i room.max_slot && is_private room i))
    × (r.open_public_slots
        ≡ count 64 (λ i. ltb i room.max_slot && not (is_private room i) && not (held i)))
    × (r.open_private_slots
        ≡ count 64 (λ i. ltb i room.max_slot && is_private room i && not (held i)))
    × (r.max_slot ≡ room.max_slot)
    × (r.members ≡ room.members)
    × (r.flag_attr ≡ room.flag_attr)
unfolding build_room insert recompute_room_slot_counts add_member
recompute_slots_example = recompute_slots room refl (omega arith)

leave_shared_lem_example :
    let (after, destroyed) = leave_shared "k" 1 both guest no_rooms in
    ((destroyed ≡ true) × (length both.members ≡ 1) × (find ("k", 1) after.rooms ≡ none))
    ⊎ ((destroyed ≡ false)
        × ((room' : Room) × (find ("k", 1) after.rooms ≡ some room')
            × IsRoom room'
            × (is_some (find guest.member_id room'.members) ≡ false)
            × (length room'.members + 1 ≡ length both.members)))
leave_shared_lem_example = leave_shared_lem "k" 1 both guest no_rooms both-lem.0 both-lem.1.seated

leave_shared_other_case :
    find ("k", 2) (leave_shared "k" 1 both guest no_rooms).0.rooms ≡ find ("k", 2) no_rooms.rooms
leave_shared_other_case =
    leave_shared_other "k" 1 both guest no_rooms ("k", 2) (λ e. cc (ap (λ p. p.1) e))

abbrev kick : KickoutRequest
kick = record { room_id = 1; target_member_id = 34; block_kick_flag = 1 }

guest-found : find (kick.target_member_id % 2 ^ 16) both.members ≡ some guest
unfolding joined_room flag_full build_room insert find recompute_room_slot_counts add_member
    alloc_member_id
guest-found = refl

kick-allowed : kick_refusal kick both owner (some guest) ≡ none
unfolding kick_refusal joined_room flag_full build_room insert recompute_room_slot_counts add_member
    alloc_member_id
kick-allowed = refl

kicked_room_lem_example :
    let room' = kicked_room kick guest both in
    IsRoom room'
    × (room'.owner_member_id ≡ owner.member_id)
    × IsWithout (kick.target_member_id % 2 ^ 16) both room'
kicked_room_lem_example = kicked_room_lem kick both owner guest both-lem.0 guest-found kick-allowed

kicked_room_refuses_case : is_some (join_refusal bob entry (kicked_room kick guest both)) ≡ true
kicked_room_refuses_case =
    kicked_room_refuses kick guest both bob entry (omega arith) (sym both-lem.2)

abbrev created : Server
created = (cmd_create_room alice server (some creation)).after

abbrev crowded : Server
crowded = (cmd_join_room bob created (some entry)).after

Reach-IsRooms_example : IsRooms (cmd_leave_room alice crowded (some 1)).after.shared.rooms
Reach-IsRooms_example = Reach-IsRooms (cmd_leave_room alice crowded (some 1)).after (
    next
      (next (next (start server refl) (creates alice server creation (omega arith)))
        (joins bob created (some entry)))
      (leaves alice crowded (some 1)))

abbrev search : SearchRoomRequest
search = record {
  world_id = 7;
  lobby_id = 0;
  range_filter_start = 0;
  range_filter_max = 0;
  flag_filter = empty_word 32;
  flag_attr = empty_word 32;
  int_filters = [];
  bin_filters = [];
  attr_ids = [];
}

search_page_lem_example :
    let page = search_page "k" search created.shared in
    (page
      ≡ take (range_max_of search) (
          drop
            (range_start_of search - 1)
            (matches "k" search created.shared (candidates "k" search created.shared))))
    × (length page ≤ 20)
    × AllShown "k" search created.shared page
search_page_lem_example = search_page_lem "k" search created.shared

count_rooms-room_total_case :
    let counts = count_rooms "k" created.shared.rooms (1 ∷ 9 ∷ []) (0, 0) in
    (counts.0 % 2 ^ 32 ≡ (0 + (room_total "k" created.shared.rooms (1 ∷ 9 ∷ [])).0) % 2 ^ 32)
    × (counts.1 % 2 ^ 32 ≡ (0 + (room_total "k" created.shared.rooms (1 ∷ 9 ∷ [])).1) % 2 ^ 32)
count_rooms-room_total_case = count_rooms-room_total "k" created.shared.rooms (1 ∷ 9 ∷ []) 0 0
