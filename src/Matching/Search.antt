-- ===== src/Matching/Search.antt =====
-- CmdSearchRoom and the search filters of src/cmd_matching.cpp.
pub mod Pages
use shad_net.Prelude.{
  ℕ, zero, suc, ◌+◌, ◌-◌, ◌%◌, ◌^◌, Bool, true, false, not, ◌&&◌, ◌||◌, Option, none, some, List,
  [], ◌∷◌, ◌++◌, if◌then◌else◌, ◌==◌, ◌!=◌, string_eq, nat_eq, String, ltb, leb, length, get_elem?,
  contains,
}
use shad_net.Prelude.Assoc.{Assoc, find}
use shad_net.Prelude.Bits.{Word, bit_and, bit_not, nonzero, word_beq}
use shad_net.Matching.Types.{
  Room, RoomMember, IntAttrSlot, BinAttrSlot, SharedState, hidden_flag, nat_type_restriction_flag,
  account_of,
}
use shad_net.Matching.Room.{find_by_id}
use shad_net.Matching.Slots.{joined_slot_mask}
use shad_net.Matching.Create.Request.{IntAttr, BinAttr}
use shad_net.Matching.Create.Groups.{bytes_beq}
use shad_net.Matching.Leave.{ids_of}
use shad_net.Matching.Session.{Server, Outcome, malformed, fail, done, pair_eq}

pub record IntFilter : Type 0 where
  pub attr_id : ℕ
  pub op : ℕ
  pub attr_value : ℕ

pub record BinFilter : Type 0 where
  pub attr_id : ℕ
  pub op : ℕ
  pub bytes : List ℕ

-- The fields of SearchRoomRequest that the handler reads.
pub record SearchRoomRequest : Type 0 where
  pub world_id : ℕ
  pub lobby_id : ℕ
  pub range_filter_start : ℕ
  pub range_filter_max : ℕ
  pub flag_filter : Word
  pub flag_attr : Word
  pub int_filters : List IntFilter
  pub bin_filters : List BinFilter
  pub attr_ids : List ℕ

-- MatchIntFilter
unfoldable pub match_int_filter : ℕ → ℕ → ℕ → Bool
match_int_filter op room_value filter_value =
    if op == 1
    then room_value == filter_value
    else if op == 2
    then room_value != filter_value
    else if op == 3
    then ltb room_value filter_value
    else if op == 4
    then leb room_value filter_value
    else if op == 5
    then ltb filter_value room_value
    else if op == 6
    then leb filter_value room_value
    else false

abbrev value_at : List IntAttrSlot → ℕ → ℕ
value_at slots i = elim (get_elem? slots i) [ none ↦ 0 | some slot ↦ slot.value ]

-- The loop over the integer filters; the attribute's id is in range where the array is read.
unfoldable pub int_filters_pass : Room → List IntFilter → Bool
unfolding match_int_filter
int_filters_pass room [] = true
int_filters_pass room (f ∷ fs) =
    let rest = int_filters_pass room fs in
    let id = f.attr_id % 2 ^ 16 in
    if id == 0
    then rest
    else if ltb id 0x4C || ltb 0x53 id
    then false
    else if not (match_int_filter f.op (value_at room.search_int_attr (id - 0x4C)) f.attr_value)
    then false
    else rest

-- The loop over the binary filters.
unfoldable pub bin_filters_pass : Room → List BinFilter → Bool
bin_filters_pass room [] = true
bin_filters_pass room (f ∷ fs) =
    let rest = bin_filters_pass room fs in
    let same = bytes_beq room.search_bin_attr.bytes f.bytes in
    if f.attr_id == 0
    then rest
    else if (f.attr_id % 2 ^ 16) != 0x54
    then false
    else if ((f.op == 1) && not same) || ((f.op == 2) && same)
    then false
    else rest

-- RoomMatchesFilters
unfoldable pub room_matches_filters : Room → SearchRoomRequest → Bool
unfolding int_filters_pass bin_filters_pass
room_matches_filters room req =
    let flag_filter = bit_and req.flag_filter (bit_not nat_type_restriction_flag) in
    let flag_attr = bit_and req.flag_attr (bit_not nat_type_restriction_flag) in
    if nonzero (bit_and room.flag_attr hidden_flag)
    then false
    else if not (word_beq (bit_and room.flag_attr flag_filter) flag_attr)
    then false
    else int_filters_pass room req.int_filters && bin_filters_pass room req.bin_filters

-- The rooms of the candidates that are there and pass the filters, in the candidates' order.
unfoldable pub matches : String → SearchRoomRequest → SharedState → List ℕ → List Room
unfolding room_matches_filters
matches key req shared [] = []
matches key req shared (rid ∷ rids) =
    let rest = matches key req shared rids in
    elim (find (key, rid) shared.rooms) [
      | none ↦ rest
      | some room ↦ if room_matches_filters room req then room ∷ rest else rest
    ]

-- The rooms of the world, or else of the lobby.
unfoldable pub candidates : String → SearchRoomRequest → SharedState → List ℕ
candidates key req shared =
    if req.world_id != 0
    then ids_of (key, req.world_id) shared.world_rooms
    else if req.lobby_id != 0
    then ids_of (key, req.lobby_id) shared.lobby_rooms
    else []

-- The loop that emits rooms, with the rounds left; each round advances `i` and `emitted`.
unfoldable pub emit : ℕ → ℕ → ℕ → ℕ → List Room → List Room
emit zero i emitted max found = []
emit (suc left) i emitted max found =
    let rest = emit left (i + 1) (emitted + 1) max found in
    if ltb emitted max then elim (get_elem? found i) [ none ↦ [] | some room ↦ room ∷ rest ] else []

-- AttrWanted
abbrev pub attr_wanted : List ℕ → ℕ → Bool
attr_wanted [] attr_id = true
attr_wanted (a ∷ ids) attr_id = contains (a ∷ ids) attr_id

-- RequestedAttrIds
abbrev pub requested_attr_ids : List ℕ → List ℕ
requested_attr_ids [] = []
requested_attr_ids (a ∷ ids) = a % 2 ^ 16 ∷ requested_attr_ids ids

unfoldable pub wanted_ints : List ℕ → List IntAttrSlot → List IntAttr
wanted_ints ids [] = []
wanted_ints ids (slot ∷ slots) =
    let rest = wanted_ints ids slots in
    if slot.is_set && attr_wanted ids slot.attr_id
    then record { attr_id = slot.attr_id; attr_value = slot.value } ∷ rest
    else rest

unfoldable pub wanted_bins : List ℕ → List BinAttrSlot → List BinAttr
wanted_bins ids [] = []
wanted_bins ids (slot ∷ slots) =
    let rest = wanted_bins ids slots in
    if slot.is_set && attr_wanted ids slot.attr_id
    then record { attr_id = slot.attr_id; bytes = slot.bytes } ∷ rest
    else rest

-- MatchingRoomDataExternal: the fields that are computed, and the room that the others copy.
pub record RoomDataExternal : Type 0 where
  pub room : Room
  pub cur_members : ℕ
  pub joined_mask : Word
  pub int_attrs : List IntAttr
  pub search_bin_attrs : List BinAttr
  pub external_bin_attrs : List BinAttr
  pub owner : Option (String × ℕ × ℕ)

abbrev owner_data : Option RoomMember → Option (String × ℕ × ℕ)
owner_data none = none
owner_data (some m) = some (m.npid, account_of m.user_id, m.platform)

-- BuildRoomDataExternal
unfoldable pub build_room_data_external : List ℕ → Room → RoomDataExternal
unfolding wanted_ints wanted_bins
build_room_data_external ids room = record {
  room = room;
  cur_members = length room.members % 2 ^ 16;
  joined_mask = joined_slot_mask room;
  int_attrs = wanted_ints ids room.search_int_attr;
  search_bin_attrs = wanted_bins ids (room.search_bin_attr ∷ []);
  external_bin_attrs = wanted_bins ids room.external_bin_attr;
  owner = owner_data (find_by_id room.owner_member_id room);
}

abbrev externals : List ℕ → List Room → List RoomDataExternal
externals ids [] = []
externals ids (room ∷ rooms) = build_room_data_external ids room ∷ externals ids rooms

pub record SearchRoomReply : Type 0 where
  pub rooms : List RoomDataExternal
  pub range_start : ℕ
  pub range_total : ℕ
  pub range_result : ℕ

abbrev pub range_start_of : SearchRoomRequest → ℕ
range_start_of req = if ltb req.range_filter_start 1 then 1 else req.range_filter_start

abbrev pub range_max_of : SearchRoomRequest → ℕ
range_max_of req =
    if (req.range_filter_max == 0) || ltb 20 req.range_filter_max then 20 else req.range_filter_max

-- The rooms that a search returns.
unfoldable pub search_page : String → SearchRoomRequest → SharedState → List Room
unfolding matches candidates emit
search_page key req shared =
    let found = matches key req shared (candidates key req shared) in
    emit (length found) (range_start_of req - 1) 0 (range_max_of req) found

-- CmdSearchRoom
unfoldable pub cmd_search_room : Server → Option SearchRoomRequest → Outcome SearchRoomReply
unfolding search_page
cmd_search_room s none = fail malformed s
cmd_search_room s (some req) =
    let key = s.session.matching_key in
    let page = search_page key req s.shared in
    done s
      (record {
        rooms = externals (requested_attr_ids req.attr_ids) page;
        range_start = range_start_of req;
        range_total = length (matches key req s.shared (candidates key req s.shared)) % 2 ^ 32;
        range_result = length page % 2 ^ 32;
      })
      []
