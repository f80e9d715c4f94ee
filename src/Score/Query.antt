-- ===== src/Score/Query.antt =====
-- The queries of src/score_cache.cpp that read a range of a board. An index out of the board's
-- bounds, or an `int` that overflows, has no defined result: `none`.
pub mod Ranges
use shad_net.Prelude.{
  ℕ, zero, suc, ◌+◌, ◌-◌, ◌^◌, ◌%◌, min, Option, none, some, List, [], ◌∷◌, ◌++◌, Bool, true, false,
  String, if◌then◌else◌, length, get_elem?, is_some, ◌==◌, nat_eq, leb, ltb, ◌||◌, contains,
}
use shad_net.Prelude.Sorting.{sort}
use shad_net.Prelude.Int.{ℤ, int_eq}
use shad_net.Score.Entry.{ScoreEntry}
use shad_net.Score.Index.{index_of}
use shad_net.Score.Table.{ScoreTable}
use shad_net.Score.Cache.{Tables, table_of}

-- The loop of SharedRank; the index is the board's.
unfoldable pub shared_from : ℕ → ℤ → List ScoreEntry → ℕ
shared_from zero score sorted = 0
shared_from (suc i) score sorted =
    let lower = shared_from i score sorted in
    elim (get_elem? sorted i) [ none ↦ suc i | some e ↦ if e.score == score then lower else suc i ]

-- SharedRank
unfoldable pub shared_rank : List ScoreEntry → ℕ → ScoreEntry → ℕ
unfolding shared_from
shared_rank sorted index e = (shared_from index e.score sorted + 1) % 2 ^ 32

-- ScoreRankData, as ToRankData fills it; the entry stands for the fields that are copied.
pub record RankData : Type 0 where
  pub entry : ScoreEntry
  pub rank : ℕ
  pub has_game_data : Bool
  pub shared_rank : ℕ

-- One row of a response: the rank, and the comment and the info where they are asked for.
pub record Row : Type 0 where
  pub rank : Option RankData
  pub comment : Option String
  pub info : Option (List ℕ)

-- AppendEntry and ToRankData, for the entry at the index.
unfoldable pub append_entry : Bool → Bool → List ScoreEntry → ℕ → ScoreEntry → Row
unfolding shared_rank
append_entry with_comment with_info sorted idx e = record {
  rank = some (record {
    entry = e;
    rank = (idx + 1) % 2 ^ 32;
    has_game_data = is_some e.data_id;
    shared_rank = shared_rank sorted idx e;
  });
  comment = if with_comment then some e.comment else none;
  info = if with_info then some e.game_info else none;
}

-- appendBlankEntry
abbrev pub append_blank_entry : Bool → Bool → Row
append_blank_entry with_comment with_info = record {
  rank = none;
  comment = if with_comment then some "" else none;
  info = if with_info then some [] else none;
}

pub record Response : Type 0 where
  pub total_record : ℕ
  pub last_sort_date : ℕ
  pub hits : ℕ
  pub rows : List Row

-- A row before the others, unless one of them could not be read.
abbrev pub and_row : Row → Option (List Row) → Option (List Row)
and_row r none = none
and_row r (some rows) = some (r ∷ rows)

-- The loop over indices, for so many rounds.
unfoldable pub rows_from : Bool → Bool → List ScoreEntry → ℕ → ℕ → Option (List Row)
unfolding append_entry
rows_from c g sorted zero i = some []
rows_from c g sorted (suc n) i =
    let rest = rows_from c g sorted n (i + 1) in
    elim (get_elem? sorted i) [ none ↦ none | some e ↦ and_row (append_entry c g sorted i e) rest ]

-- An `int` is kept as the number 2 ^ 33 above it. static_cast<int> of a uint32_t:
abbrev pub origin : ℕ
origin = 2 ^ 33

abbrev pub to_int : ℕ → ℕ
to_int n = if ltb n (2 ^ 31) then origin + n else origin + n - 2 ^ 32

abbrev pub overflows : ℕ → Bool
overflows x = ltb x (origin - 2 ^ 31) || leb (origin + 2 ^ 31) x

-- The indices that a loop from `start` up to `end` visits, both as above: the first and their
-- number; a first one below 0 is out of bounds.
unfoldable pub visited : ℕ → ℕ → Option (ℕ × ℕ)
visited start end =
    if leb end start
    then some (0, 0)
    else if ltb start origin
    then none
    else some (start - origin, end - start)

-- `std::min(start + static_cast<int>(num), size)`
unfoldable pub end_of : ℕ → ℕ → ℕ → Option ℕ
end_of start num size =
    let sum = start + to_int num - origin in
    if overflows sum then none else some (min sum (origin + size))

unfoldable pub range_of : ℕ → ℕ → ℕ → Option (ℕ × ℕ)
unfolding visited end_of
range_of start_rank num_ranks size =
    let start = to_int (if start_rank == 0 then 1 else start_rank) - 1 in
    if overflows start
    then none
    else elim (end_of start num_ranks size) [ none ↦ none | some e ↦ visited start e ]

abbrev rows_in : Bool → Bool → List ScoreEntry → Option (ℕ × ℕ) → Option (List Row)
rows_in c g sorted none = none
rows_in c g sorted (some (i, n)) = rows_from c g sorted n i

abbrev respond : ScoreTable → ℕ → Option (List Row) → Option Response
respond t hits none = none
respond t hits (some rows) = some (record {
  total_record = length t.sorted % 2 ^ 32;
  last_sort_date = t.last_insert;
  hits = hits;
  rows = rows;
})

abbrev no_board : ℕ → Response
no_board now = record { total_record = 0; last_sort_date = now; hits = 0; rows = [] }

-- GetScoreRange on the board, if there is one.
unfoldable pub score_range : ℕ → ℕ → ℕ → Bool → Bool → Option ScoreTable → Option Response
unfolding rows_from range_of
score_range now start_rank num_ranks c g none = some (no_board now)
score_range now start_rank num_ranks c g (some t) =
    respond t 0 (rows_in c g t.sorted (range_of start_rank num_ranks (length t.sorted)))

-- ScoreCache::GetScoreRange
unfoldable pub get_score_range : ℕ → String → ℕ → ℕ → ℕ → Bool → Bool → Tables → Option Response
unfolding score_range
get_score_range now title board start_rank num_ranks c g m =
    score_range now start_rank num_ranks c g (table_of title board m)

row_at : Bool → Bool → ScoreTable → Option ℕ → Option Row
unfolding append_entry
row_at c g t none = some (append_blank_entry c g)
row_at c g t (some i) = elim (get_elem? t.sorted i) [
  | none ↦ none
  | some e ↦ some (append_entry c g t.sorted i e)
]

-- The loop of GetScoreByIds: a row for each id, blank for one that is not on the board.
unfoldable pub rows_by_ids : Bool → Bool → ScoreTable → List (ℤ × ℤ) → Option (List Row)
unfolding row_at
rows_by_ids c g t [] = some []
rows_by_ids c g t ((u, ch) ∷ ids) =
    let rest = rows_by_ids c g t ids in
    elim (row_at c g t (index_of u ch t.lookup)) [ none ↦ none | some r ↦ and_row r rest ]

abbrev blanks : Bool → Bool → List (ℤ × ℤ) → List Row
blanks c g [] = []
blanks c g (i ∷ ids) = append_blank_entry c g ∷ blanks c g ids

-- ScoreCache::GetScoreByIds
unfoldable pub get_score_by_ids :
    ℕ → String → ℕ → List (ℤ × ℤ) → Bool → Bool → Tables → Option Response
unfolding rows_by_ids
get_score_by_ids now title board ids c g m = elim (table_of title board m) [
  | none ↦ some (record (no_board now) { rows = blanks c g ids })
  | some t ↦ respond t 0 (rows_by_ids c g t ids)
]

-- The loop that finds the positions of the players asked for, each once.
unfoldable pub found_positions : ScoreTable → List (ℤ × ℤ) → List ℕ → List ℕ
found_positions t [] found = found
found_positions t ((u, ch) ∷ ids) found = found_positions t ids (elim (index_of u ch t.lookup) [
  | none ↦ found
  | some i ↦ if contains found i then found else found ++ i ∷ []
])

-- The loop over positions, for so many rounds from one on.
unfoldable pub rows_of_found : Bool → Bool → List ScoreEntry → List ℕ → ℕ → ℕ → Option (List Row)
unfolding append_entry
rows_of_found c g sorted found zero i = some []
rows_of_found c g sorted found (suc n) i =
    let rest = rows_of_found c g sorted found n (i + 1) in
    elim (get_elem? found i) [
      | none ↦ none
      | some p ↦ elim (get_elem? sorted p) [
        | none ↦ none
        | some e ↦ and_row (append_entry c g sorted p e) rest
      ]
    ]

unfoldable pub ranked_range : ℕ → ℕ → ℕ → Option (ℕ × ℕ)
unfolding visited end_of
ranked_range start_rank max_results size =
    let start = to_int (if start_rank == 0 then 0 else start_rank - 1) in
    if max_results == 0
    then visited start (origin + size)
    else elim (end_of start max_results size) [ none ↦ none | some e ↦ visited start e ]

abbrev ranked_rows : Bool → Bool → List ScoreEntry → List ℕ → Option (ℕ × ℕ) → Option (List Row)
ranked_rows c g sorted found none = none
ranked_rows c g sorted found (some (i, n)) = rows_of_found c g sorted found n i

-- ScoreCache::GetScoreRanked
unfoldable pub get_score_ranked :
    ℕ → String → ℕ → List (ℤ × ℤ) → ℕ → ℕ → Bool → Bool → Tables → Option Response
unfolding found_positions rows_of_found ranked_range
get_score_ranked now title board ids start_rank max_results c g m = elim (table_of title board m) [
  | none ↦ some (no_board now)
  | some t ↦
      let found = sort (found_positions t ids []) in
      respond t (length found % 2 ^ 32)
        (ranked_rows c g t.sorted found (ranked_range start_rank max_results (length found)))
]
