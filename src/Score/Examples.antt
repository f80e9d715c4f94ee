-- ===== src/Score/Examples.antt =====
-- A board and a cache at concrete scores.
use shad_net.Prelude.{
  ◌+◌, ◌-◌, ◌≡◌, refl, [], ◌∷◌, arith, some, none, string_eq, keep_if, not, ◌==◌, length, min,
  false, is_some, nat_eq,
}
use shad_net.Prelude.Assoc.{find}
use shad_net.Prelude.Int.{ℤ, pos, int_eq}
use shad_net.Score.Entry.{ScoreBoardConfig, ScoreEntry, ranks_before}
use shad_net.Score.Index.{index_of}
use shad_net.Score.Table
use shad_net.Score.Table.{ScoreTable, has_key}
use shad_net.Score.Position.{Distinct, position}
use shad_net.Score.Order.{IsOrdered}
use shad_net.Score.Insert.{IsBoard, insert_score-IsBoard}
use shad_net.Score.Rank.{Outcome, insert_score_rank}
use shad_net.Score.Removal.{load_table-IsBoard, remove_user_lem, remove_entry_lem}
use shad_net.Score.Cache
use shad_net.Score.Cache.{Tables, table_of}
use shad_net.Score.Cache.Invariant.{
  IsCache, IsConfigOf, start, next, inserts, loads, removes_user, Reach-IsCache,
}
use shad_net.Score.Query.{Response, get_score_range}
use shad_net.Score.Query.Ranges.{AreRows, get_score_range_lem, get_score_range_fault}

abbrev cfg : ScoreBoardConfig
cfg = record {
  rank_limit = 2;
  update_mode = 0;
  sort_mode = 0;
  upload_num_limit = 10;
  upload_size_limit = 6000000;
}

abbrev posted : ℤ → ℤ → ScoreEntry
posted user score = record {
  user_id = user;
  character_id = pos 0;
  score = score;
  comment = "";
  game_info = [];
  data_id = none;
  timestamp = 5;
  npid = "";
}

abbrev alice : ScoreEntry
alice = posted (pos 1) (pos 100)

abbrev bob : ScoreEntry
bob = posted (pos 2) (pos 50)

abbrev carol : ScoreEntry
carol = posted (pos 3) (pos 70)

abbrev empty_table : ScoreTable
empty_table = record { sorted = []; lookup = []; config = cfg; last_insert = 0 }

abbrev two : ScoreTable
two = Table.load_table 9 cfg (alice ∷ bob ∷ []) empty_table

both-Distinct : Distinct (alice ∷ bob ∷ [])
unfolding position
both-Distinct = (refl, (refl, tt))

both-IsOrdered : IsOrdered 0 (alice ∷ bob ∷ [])
unfolding ranks_before
both-IsOrdered = ((refl, tt), (tt, tt))

two-IsBoard : IsBoard 0 2 two
two-IsBoard =
    load_table-IsBoard 9 cfg (alice ∷ bob ∷ []) empty_table both-Distinct both-IsOrdered
      (omega arith)

load_table-IsBoard_case : IsBoard 0 2 two
load_table-IsBoard_case =
    load_table-IsBoard 9 cfg (alice ∷ bob ∷ []) empty_table both-Distinct both-IsOrdered
      (omega arith)

insert_score_rank_example : Outcome cfg carol two (Table.insert_score 10 cfg carol two)
insert_score_rank_example = insert_score_rank 10 cfg carol two two-IsBoard

insert_score-IsBoard_case : IsBoard 0 2 (Table.insert_score 10 cfg carol two).0
insert_score-IsBoard_case = insert_score-IsBoard 10 cfg carol two two-IsBoard

remove_user_lem_example :
    IsBoard 0 2 (Table.remove_user (pos 1) two).0
    × ((Table.remove_user (pos 1) two).0.sorted
        ≡ keep_if (λ e. not (e.user_id == pos 1)) two.sorted)
    × ((c : ℤ) → index_of (pos 1) c (Table.remove_user (pos 1) two).0.lookup ≡ none)
    × ((Table.remove_user (pos 1) two).1 + length (Table.remove_user (pos 1) two).0.sorted
        ≡ length two.sorted)
remove_user_lem_example = remove_user_lem 0 2 (pos 1) two two-IsBoard

remove_entry_lem_example :
    IsBoard 0 2 (Table.remove_entry (pos 1) (pos 0) two).0
    × ((Table.remove_entry (pos 1) (pos 0) two).0.sorted
        ≡ keep_if (λ e. not (has_key (pos 1) (pos 0) e)) two.sorted)
    × (index_of (pos 1) (pos 0) (Table.remove_entry (pos 1) (pos 0) two).0.lookup ≡ none)
    × ((Table.remove_entry (pos 1) (pos 0) two).1 ≡ is_some (index_of (pos 1) (pos 0) two.lookup))
remove_entry_lem_example = remove_entry_lem 0 2 (pos 1) (pos 0) two two-IsBoard

abbrev cache : Tables
cache = (Cache.insert_score 10 "NPWR00001_00" 1 cfg alice []).0

-- The board is loaded again, the lowest score first, after a score came in and a user went.
abbrev lowest_first : ScoreBoardConfig
lowest_first = record cfg { sort_mode = 1 }

abbrev reloaded : Tables
reloaded =
    Cache.load_table 11 "NPWR00001_00" 1 lowest_first (bob ∷ alice ∷ [])
      (Cache.remove_user (pos 1) cache).0

swapped-Distinct : Distinct (bob ∷ alice ∷ [])
unfolding position
swapped-Distinct = (refl, (refl, tt))

swapped-IsOrdered : IsOrdered 1 (bob ∷ alice ∷ [])
unfolding ranks_before
swapped-IsOrdered = ((refl, tt), (tt, tt))

Reach-IsCache_example : IsCache reloaded
unfolding table_of find IsConfigOf
Reach-IsCache_example = Reach-IsCache reloaded (
    next
      (next (next start (inserts 10 "NPWR00001_00" 1 cfg alice [] tt)) (removes_user (pos 1) cache))
      (loads 11 "NPWR00001_00" 1 lowest_first (bob ∷ alice ∷ []) (Cache.remove_user (pos 1) cache).0
        swapped-Distinct swapped-IsOrdered (omega arith)))

abbrev loaded : Tables
loaded = ("NPWR00001_00", (1, two) ∷ []) ∷ []

loaded-table_of : table_of "NPWR00001_00" 1 loaded ≡ some two
unfolding table_of find
loaded-table_of = refl

get_score_range_lem_example :
    (r : Response) × (get_score_range 9 "NPWR00001_00" 1 2 5 false false loaded ≡ some r)
    × (r.total_record ≡ length two.sorted)
    × (length r.rows ≡ min 5 (length two.sorted + 1 - 2))
    × AreRows false false two.sorted 1 r.rows
unfolding Table.load_table
get_score_range_lem_example =
    get_score_range_lem 9 "NPWR00001_00" 1 2 5 false false loaded two loaded-table_of (omega arith)
      (omega arith) (omega arith) (omega arith) (omega arith)

get_score_range_fault_case :
    get_score_range 9 "NPWR00001_00" 1 4294967295 1 false false loaded ≡ none
unfolding Table.load_table
get_score_range_fault_case =
    get_score_range_fault 9 "NPWR00001_00" 1 4294967295 1 false false loaded two loaded-table_of
      (omega arith) (omega arith) (omega arith) (omega arith) (omega arith)
