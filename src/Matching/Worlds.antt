-- ===== src/Matching/Worlds.antt =====
-- CmdGetWorldInfoList, CmdContextStart and CmdContextStop of src/cmd_matching.cpp.
use shad_net.Prelude.{
  ℕ, ◌+◌, ◌%◌, ◌^◌, ◌≡◌, Bool, true, false, ◌&&◌, Option, none, some, List, [], ◌∷◌, ◌++◌,
  if◌then◌else◌, ◌==◌, ◌!=◌, string_eq, nat_eq, String, length, contains, arith, Option-cases, inl,
  inr,
}
use shad_net.Prelude.Assoc.{Assoc, find}
use shad_net.Matching.Types.{Room, WorldConfig, SharedState}
use shad_net.Matching.Leave.{ids_of}
use shad_net.Matching.Session.{Server, Outcome, ErrorType, malformed, fail, done, pair_eq}

-- MatchingWorld
pub record World : Type 0 where
  pub world_id : ℕ
  pub lobbies_num : ℕ
  pub max_lobby_members : ℕ
  pub lobby_members_num : ℕ
  pub rooms_num : ℕ
  pub room_members_num : ℕ

-- countRoomsAndMembers, over the ids of the world's rooms: 32-bit counts.
unfoldable pub count_rooms : String → Assoc (String × ℕ) Room → List ℕ → ℕ × ℕ → ℕ × ℕ
count_rooms key rooms [] counts = counts
count_rooms key rooms (rid ∷ rids) counts =
    count_rooms key rooms rids (elim (find (key, rid) rooms) [
      | none ↦ counts
      | some room ↦ ((counts.0 + 1) % 2 ^ 32, (counts.1 + length room.members % 2 ^ 32) % 2 ^ 32)
    ])

unfoldable pub world_entry : String → SharedState → ℕ → ℕ → ℕ → World
unfolding count_rooms
world_entry key shared world_id lobbies_num max_lobby_members =
    let counts = count_rooms key shared.rooms (ids_of (key, world_id) shared.world_rooms) (0, 0) in
    record {
      world_id = world_id;
      lobbies_num = lobbies_num;
      max_lobby_members = max_lobby_members;
      lobby_members_num = 0;
      rooms_num = counts.0;
      room_members_num = counts.1;
    }

-- The worlds that are configured, of the server that is asked for, or of all for server 0.
unfoldable pub configured_worlds : String → SharedState → ℕ → List WorldConfig → List World
unfolding world_entry
configured_worlds key shared server_id [] = []
configured_worlds key shared server_id (wc ∷ wcs) =
    let rest = configured_worlds key shared server_id wcs in
    if (server_id != 0) && (wc.server_id != server_id)
    then rest
    else world_entry key shared wc.world_id wc.lobbies_num wc.max_lobby_members_num ∷ rest

-- The loop over the index of worlds: the ids under the key, each once.
unfoldable pub world_ids : String → Assoc (String × ℕ) (List ℕ) → List ℕ → List ℕ
world_ids key [] ids = ids
world_ids key (((k, world_id), rids) ∷ index) ids =
    world_ids key index
      (if k == key then (if contains ids world_id then ids else ids ++ world_id ∷ []) else ids)

abbrev at_least_one : List ℕ → List ℕ
at_least_one [] = 1 ∷ []
at_least_one (i ∷ ids) = i ∷ ids

abbrev found_worlds : String → SharedState → List ℕ → List World
found_worlds key shared [] = []
found_worlds key shared (i ∷ ids) = world_entry key shared i 0 0 ∷ found_worlds key shared ids

abbrev listed_worlds : String → SharedState → ℕ → List WorldConfig → List World
listed_worlds key shared server_id [] =
    found_worlds key shared (at_least_one (world_ids key shared.world_rooms []))
listed_worlds key shared server_id (wc ∷ wcs) = configured_worlds key shared server_id (wc ∷ wcs)

-- CmdGetWorldInfoList; the request is its server id.
unfoldable pub cmd_get_world_info_list : Server → Option ℕ → Outcome (List World)
cmd_get_world_info_list s none = fail malformed s
cmd_get_world_info_list s (some server_id) =
    let key = s.session.matching_key in
    let configs : List WorldConfig = elim (find key s.shared.world_configs) [
      | none ↦ []
      | some wcs ↦ wcs
    ] in
    done s (listed_worlds key s.shared (server_id % 2 ^ 16) configs) []

-- CmdContextStart; the request is its context id.
unfoldable pub cmd_context_start : Server → Option ℕ → Server × ErrorType
cmd_context_start s none = (s, ErrorType.malformed)
cmd_context_start s (some ctx_id) = (
  record s { session = record s.session { ctx_id = ctx_id; initialized = true } },
  ErrorType.no_error,
)

-- CmdContextStop; the flag says whether its request was decoded.
unfoldable pub cmd_context_stop : Server → Bool → Server × ErrorType
cmd_context_stop s false = (s, ErrorType.malformed)
cmd_context_stop s true = (
  record s { session = record s.session { ctx_id = 0; initialized = false } },
  ErrorType.no_error,
)

-- What the index of a world lists and the map has: the rooms, and their members, unbounded.
unfoldable pub room_total : String → Assoc (String × ℕ) Room → List ℕ → ℕ × ℕ
room_total key rooms [] = (0, 0)
room_total key rooms (rid ∷ rids) =
    let rest = room_total key rooms rids in
    elim (find (key, rid) rooms) [
      | none ↦ rest
      | some room ↦ (rest.0 + 1, rest.1 + length room.members)
    ]

-- Counted on from any two numbers, rooms and members come out as the true totals modulo 2 to the
-- 32, the counters' width.
pub count_rooms-room_total :
    (key : String) (rooms : Assoc (String × ℕ) Room) (rids : List ℕ) (r m : ℕ)
    → let counts = count_rooms key rooms rids (r, m) in
      (counts.0 % 2 ^ 32 ≡ (r + (room_total key rooms rids).0) % 2 ^ 32)
      × (counts.1 % 2 ^ 32 ≡ (m + (room_total key rooms rids).1) % 2 ^ 32)
unfolding count_rooms room_total
count_rooms-room_total key rooms [] r m = (omega arith, omega arith)
count_rooms-room_total key rooms (rid ∷ rids) r m = elim (Option-cases (find (key, rid) rooms)) [
  | inl n ↦ rw (n, count_rooms, room_total) (count_rooms-room_total key rooms rids r m)
  | inr (room, y) ↦
      let later =
        count_rooms-room_total key rooms rids ((r + 1) % 2 ^ 32)
          ((m + length room.members % 2 ^ 32) % 2 ^ 32) in
      rw (y, count_rooms, room_total) (omega (arith, later.0), omega (arith, later.1))
]
