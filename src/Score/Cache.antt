-- ===== src/Score/Cache.antt =====
-- ScoreCache: the boards of all titles.
pub mod Tables
pub mod Invariant
use shad_net.Prelude.{
  ℕ, zero, suc, ◌+◌, ◌-◌, Option, none, some, List, [], ◌∷◌, Bool, true, false, String, set,
  if◌then◌else◌, length, get_elem?, is_some, ◌==◌, ◌!=◌, nat_eq, string_eq, leb,
}
use shad_net.Prelude.Sorting.{sort}
use shad_net.Prelude.Int.{ℤ, int_eq}
use shad_net.Prelude.Assoc.{Assoc, find, insert, keys}
use shad_net.Score.Entry.{ScoreEntry, ScoreBoardConfig}
use shad_net.Score.Index.{index_of}
use shad_net.Score.Table
use shad_net.Score.Table.{ScoreTable}

-- m_tables: comId -> boardId -> board
abbrev pub Boards : Type 0
Boards = Assoc ℕ ScoreTable

abbrev pub Tables : Type 0
Tables = Assoc String Boards

-- enum class ScoreCacheError
pub data ScoreCacheError : Type 0 where
  not_found invalid has_data : ScoreCacheError

-- m_tables[comId], which is made empty where it is missing
unfoldable pub boards_of : String → Tables → Boards
boards_of title m = elim (find title m) [ none ↦ [] | some b ↦ b ]

-- The board, if m_tables contains it.
unfoldable pub table_of : String → ℕ → Tables → Option ScoreTable
table_of title board m = elim (find title m) [ none ↦ none | some b ↦ find board b ]

unfoldable pub put_table : String → ℕ → ScoreTable → Tables → Tables
unfolding boards_of
put_table title board t m = insert title (insert board t (boards_of title m)) m

abbrev new_table : ScoreBoardConfig → ScoreTable
new_table cfg = record { sorted = []; lookup = []; config = cfg; last_insert = 0 }

-- GetOrCreate(comId, boardId, cfg): the board that the caller goes on to change.
unfoldable pub get_or_create : String → ℕ → ScoreBoardConfig → Tables → ScoreTable
unfolding table_of
get_or_create title board cfg m = elim (table_of title board m) [
  | none ↦ new_table cfg
  | some t ↦ t
]

-- ScoreCache::LoadTable
unfoldable pub load_table : ℕ → String → ℕ → ScoreBoardConfig → List ScoreEntry → Tables → Tables
unfolding put_table get_or_create
load_table now title board cfg entries m =
    put_table title board (Table.load_table now cfg entries (get_or_create title board cfg m)) m

-- ScoreCache::InsertScore
unfoldable pub insert_score : ℕ → String → ℕ → ScoreBoardConfig → ScoreEntry → Tables → Tables × ℕ
unfolding put_table get_or_create
insert_score now title board cfg e m =
    let (t, rank) = Table.insert_score now cfg e (get_or_create title board cfg m) in
    (put_table title board t m, rank)

-- The entry of a player's slot on a board: t.sorted[t.lookup[userId][charId]].
abbrev entry_at : ScoreTable → Option ℕ → Option ScoreEntry
entry_at t none = none
entry_at t (some i) = get_elem? t.sorted i

unfoldable pub entry_of : ℤ → ℤ → Option ScoreTable → Option ScoreEntry
entry_of u c none = none
entry_of u c (some t) = entry_at t (index_of u c t.lookup)

no_data_error : ℤ → Option ScoreEntry → Option ScoreCacheError
no_data_error score none = some not_found
no_data_error score (some e) =
    if e.score != score then some invalid else if is_some e.data_id then some has_data else none

-- ScoreCache::ContainsScoreWithNoData
unfoldable pub contains_score_with_no_data :
    String → ℕ → ℤ → ℤ → ℤ → Tables → Option ScoreCacheError
unfolding no_data_error table_of entry_of
contains_score_with_no_data title board u c score m =
    no_data_error score (entry_of u c (table_of title board m))

abbrev with_data : ℕ → ScoreTable → ℕ → Option ScoreEntry → ScoreTable
with_data data_id t i none = t
with_data data_id t i (some e) = record t {
  sorted = set t.sorted i (record e { data_id = some data_id });
}

set_data_at : String → ℕ → ℕ → ScoreTable → Option ℕ → Tables → Tables × Option ScoreCacheError
unfolding put_table
set_data_at title board data_id t none m = (m, some not_found)
set_data_at title board data_id t (some i) m =
    (put_table title board (with_data data_id t i (get_elem? t.sorted i)) m, none)

-- ScoreCache::SetGameData
unfoldable pub set_game_data : String → ℕ → ℤ → ℤ → ℕ → Tables → Tables × Option ScoreCacheError
unfolding set_data_at table_of
set_game_data title board u c data_id m = elim (table_of title board m) [
  | none ↦ (m, some not_found)
  | some t ↦ set_data_at title board data_id t (index_of u c t.lookup) m
]

abbrev data_of : Option ScoreEntry → Option ℕ
data_of none = none
data_of (some e) = e.data_id

-- ScoreCache::GetGameDataId; `none` is the pair {false, 0}.
unfoldable pub get_game_data_id : String → ℕ → ℤ → ℤ → Tables → Option ℕ
unfolding table_of entry_of
get_game_data_id title board u c m = data_of (entry_of u c (table_of title board m))

remove_user_boards : ℤ → Boards → Boards × ℕ
remove_user_boards u [] = ([], 0)
remove_user_boards u ((board, t) ∷ b) =
    let (t', n) = Table.remove_user u t in
    let (b', k) = remove_user_boards u b in ((board, t') ∷ b', n + k)

-- ScoreCache::RemoveUser
unfoldable pub remove_user : ℤ → Tables → Tables × ℕ
unfolding remove_user_boards
remove_user u [] = ([], 0)
remove_user u ((title, b) ∷ m) =
    let (b', n) = remove_user_boards u b in
    let (m', k) = remove_user u m in ((title, b') ∷ m', n + k)

remove_entry_at : String → ℕ → ScoreTable × Bool → Tables → Tables × Bool
unfolding put_table
remove_entry_at title board (t, removed) m = (put_table title board t m, removed)

-- ScoreCache::RemoveEntry
unfoldable pub remove_entry : String → ℕ → ℤ → ℤ → Tables → Tables × Bool
unfolding remove_entry_at table_of
remove_entry title board u c m = elim (table_of title board m) [
  | none ↦ (m, false)
  | some t ↦ remove_entry_at title board (Table.remove_entry u c t) m
]

-- ScoreCache::ListComIds
unfoldable pub list_com_ids : Tables → List String
list_com_ids m = keys m

-- ScoreCache::ListBoards
unfoldable pub list_boards : String → Tables → List ℕ
unfolding boards_of
list_boards title m = sort (keys (boards_of title m))
