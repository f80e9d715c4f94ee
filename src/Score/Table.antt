-- ===== src/Score/Table.antt =====
-- One board: the sorted entries and the index of them.
use shad_net.Prelude.{
  ℕ, suc, ◌+◌, ◌-◌, ◌%◌, ◌^◌, Option, none, some, List, [], ◌∷◌, ◌++◌, Bool, true, false, ◌||◌,
  if◌then◌else◌, length, take, drop, get_elem?, keep_if, ltb, ◌==◌, nat_eq, not, is_some,
}
use shad_net.Prelude.Int.{ℤ, int_eq}
use shad_net.Prelude.Assoc.{find}
use shad_net.Score.Entry.{ScoreEntry, ScoreBoardConfig, ranks_before}
use shad_net.Score.Index.{Lookup, index_of, set_index, remove_index, same_key}

-- ScoreTableCache
pub record ScoreTable : Type 0 where
  pub sorted : List ScoreEntry
  pub lookup : Lookup
  pub config : ScoreBoardConfig
  pub last_insert : ℕ

abbrev pub has_key : ℤ → ℤ → ScoreEntry → Bool
has_key u c e = same_key e.user_id e.character_id u c

-- The loop of Reindex over the entries from position i on.
unfoldable pub index_from : ℕ → List ScoreEntry → Lookup → Lookup
index_from i [] l = l
index_from i (e ∷ es) l = index_from (suc i) es (set_index e.user_id e.character_id i l)

-- Reindex(t, from)
unfoldable pub reindex : ScoreTable → ℕ → ScoreTable
reindex t from = record t { lookup = index_from from (drop from t.sorted) t.lookup }

-- LoadTable on its board; `now` is ShadNetTimestamp().
unfoldable pub load_table : ℕ → ScoreBoardConfig → List ScoreEntry → ScoreTable → ScoreTable
load_table now cfg entries t = record {
  sorted = entries;
  lookup = index_from 0 entries [];
  config = cfg;
  last_insert = now;
}

-- QVector::remove and QVector::insert
abbrev pub remove_at {ℓ} : {A : Type ℓ} → ℕ → List A → List A
remove_at i xs = take i xs ++ drop (suc i) xs

abbrev pub insert_at {ℓ} : {A : Type ℓ} → ℕ → A → List A → List A
insert_at i x xs = take i xs ++ x ∷ drop i xs

-- std::lower_bound: the first position whose entry does not rank before the new one.
unfoldable pub lower_bound : ℕ → ScoreEntry → List ScoreEntry → ℕ
lower_bound sort_mode entry [] = 0
lower_bound sort_mode entry (x ∷ xs) =
    let rest = lower_bound sort_mode entry xs in
    if ranks_before sort_mode x entry then suc rest else 0

-- The first half of InsertScore: the entry that the player's slot has is taken out, and where it was.
unfoldable pub take_out : ScoreEntry → ScoreTable → ScoreTable × Option ℕ
unfolding reindex
take_out entry t = elim (index_of entry.user_id entry.character_id t.lookup) [
  | none ↦ (t, none)
  | some pos ↦ (
    reindex
        (record t {
          sorted = remove_at pos t.sorted;
          lookup = remove_index entry.user_id entry.character_id t.lookup;
        })
        pos,
    some pos,
  )
]

-- i < (int)n, for an index i that is not negative; a limit from 2^31 on turns negative.
abbrev pub below_int : ℕ → ℕ → Bool
below_int i n = if ltb n (2 ^ 31) then ltb i n else false

unfoldable pub reindex_from : ℕ → Option ℕ → ℕ
reindex_from insert_pos none = insert_pos + 1
reindex_from insert_pos (some removed_at) =
    if ltb removed_at (insert_pos + 1) then removed_at else insert_pos + 1

-- The second half: the insertion itself.
unfoldable pub put_in : ScoreEntry → ℕ → Option ℕ → ScoreTable → ScoreTable
unfolding reindex reindex_from
put_in entry insert_pos removed_at t =
    reindex
      (record t {
        sorted = insert_at insert_pos entry t.sorted;
        lookup = set_index entry.user_id entry.character_id insert_pos t.lookup;
      })
      (reindex_from insert_pos removed_at)

drop_last : ScoreTable → ℕ → Option ScoreEntry → ScoreTable
drop_last t last none = t
drop_last t last (some e) = record t {
  sorted = remove_at last t.sorted;
  lookup = remove_index e.user_id e.character_id t.lookup;
}

-- Trim to the rank limit.
unfoldable pub trim : ℕ → ScoreTable → ScoreTable
unfolding drop_last
trim rank_limit t =
    if ltb rank_limit (length t.sorted)
    then drop_last t (length t.sorted - 1) (get_elem? t.sorted (length t.sorted - 1))
    else t

-- Whether a score makes the board.
unfoldable pub fits : ℕ → ℕ → ℕ → Bool
fits size rank_limit insert_pos = ltb size rank_limit || below_int insert_pos rank_limit

-- The rest of InsertScore, after the old entry is out.
unfoldable pub place : ScoreBoardConfig → ScoreEntry → ScoreTable × Option ℕ → ScoreTable × ℕ
place cfg entry (t, removed_at) =
    let insert_pos = lower_bound cfg.sort_mode entry t.sorted in
    if fits (length t.sorted) cfg.rank_limit insert_pos
    then (trim cfg.rank_limit (put_in entry insert_pos removed_at t), insert_pos + 1)
    else (t, (cfg.rank_limit + 1) % 2 ^ 32)

-- InsertScore on its board: the new board and the rank.
unfoldable pub insert_score : ℕ → ScoreBoardConfig → ScoreEntry → ScoreTable → ScoreTable × ℕ
unfolding place
insert_score now cfg entry t = place cfg entry (take_out entry (record t { last_insert = now }))

-- A board whose entries were filtered, with its index rebuilt.
abbrev pub rebuilt : List ScoreEntry → ScoreTable → ScoreTable
rebuilt kept t = record t { sorted = kept; lookup = index_from 0 kept [] }

-- RemoveUser on one board: the new board and how many entries went.
unfoldable pub remove_user : ℤ → ScoreTable → ScoreTable × ℕ
unfolding index_from
remove_user u t =
    let kept = keep_if (λ e. not (e.user_id == u)) t.sorted in
    if is_some (find u t.lookup) then (rebuilt kept t, length t.sorted - length kept) else (t, 0)

-- RemoveEntry on its board: the new board and whether an entry went.
unfoldable pub remove_entry : ℤ → ℤ → ScoreTable → ScoreTable × Bool
unfolding index_from
remove_entry u c t =
    let kept = keep_if (λ e. not (has_key u c e)) t.sorted in
    if length kept == length t.sorted
    then (record t { sorted = kept }, false)
    else (rebuilt kept t, true)
