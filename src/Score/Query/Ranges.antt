-- ===== src/Score/Query/Ranges.antt =====
-- A range query returns the ranks that it is asked for.

use shad_net.Prelude.{
  ℕ, zero, suc, ◌+◌, ◌-◌, ◌^◌, ◌%◌, ◌≤◌, ◌<◌, ◌≡◌, refl, ap, min, none, some, List, [], ◌∷◌, Bool,
  String, arith, length, get_elem?, nat_eq,
}
use shad_net.Score.Entry.{ScoreEntry}
use shad_net.Score.Table.{ScoreTable}
use shad_net.Score.Cache.{Tables, table_of}
use shad_net.Score.Query.{
  Row, Response, append_entry, rows_from, range_of, visited, end_of, score_range, get_score_range,
}

-- The rows are those of the entries from the index on, in order: the k-th is that of the k-th.
pub AreRows : Bool → Bool → List ScoreEntry → ℕ → List Row → Type 0
AreRows c g sorted i [] = Unit
AreRows c g sorted i (row ∷ rows) =
    ((e : ScoreEntry) × (get_elem? sorted i ≡ some e) × (row ≡ append_entry c g sorted i e))
    × AreRows c g sorted (i + 1) rows

in_bounds :
    (sorted : List ScoreEntry) (i : ℕ)
    → i < length sorted
    → (e : ScoreEntry) × (get_elem? sorted i ≡ some e)
in_bounds [] i h = absurd (omega arith)
in_bounds (x ∷ sorted) zero h = (x, refl)
in_bounds (x ∷ sorted) (suc i) h = in_bounds sorted i (omega arith)

rows_from_lem :
    (c g : Bool) (sorted : List ScoreEntry) (n i : ℕ)
    → i + n ≤ length sorted
    → (rows : List Row) × (rows_from c g sorted n i ≡ some rows)
      × (length rows ≡ n)
      × AreRows c g sorted i rows
unfolding rows_from AreRows
rows_from_lem c g sorted zero i h = ([], refl, refl, tt)
rows_from_lem c g sorted (suc n) i h =
    let (e, y) = in_bounds sorted i (omega arith) in
    let (rows, z, len, are) = rows_from_lem c g sorted n (i + 1) (omega arith) in
    (append_entry c g sorted i e ∷ rows, rw (y, z, rows_from) refl, ap suc len, ((e, y, refl), are))

range_of_lem :
    (start_rank num_ranks size : ℕ)
    → 1 ≤ start_rank
    → 1 ≤ num_ranks
    → start_rank + num_ranks ≤ 2 ^ 31
    → start_rank ≤ size
    → size < 2 ^ 31
    → range_of start_rank num_ranks size
      ≡ some (start_rank - 1, min num_ranks (size + 1 - start_rank))
unfolding range_of visited end_of
range_of_lem start_rank num_ranks size h0 h1 h2 h3 h4 = ground arith

-- Asked for ranks from 1 on that the board has, within the range of an `int`, GetScoreRange answers
-- with the board's size and the rows of those ranks in order, as many as are asked for, or up to
-- the board's end.
pub get_score_range_lem :
    (now : ℕ) (title : String) (board start_rank num_ranks : ℕ) (c g : Bool) (m : Tables)
    (t : ScoreTable)
    → table_of title board m ≡ some t
    → 1 ≤ start_rank
    → 1 ≤ num_ranks
    → start_rank + num_ranks ≤ 2 ^ 31
    → start_rank ≤ length t.sorted
    → length t.sorted < 2 ^ 31
    → (r : Response) × (get_score_range now title board start_rank num_ranks c g m ≡ some r)
      × (r.total_record ≡ length t.sorted)
      × (length r.rows ≡ min num_ranks (length t.sorted + 1 - start_rank))
      × AreRows c g t.sorted (start_rank - 1) r.rows
unfolding get_score_range score_range
get_score_range_lem now title board start_rank num_ranks c g m t found h0 h1 h2 h3 h4 =
    let n = min num_ranks (length t.sorted + 1 - start_rank) in
    let (rows, y, len, are) = rows_from_lem c g t.sorted n (start_rank - 1) (omega arith) in
    (
      record {
        total_record = length t.sorted % 2 ^ 32;
        last_sort_date = t.last_insert;
        hits = 0;
        rows = rows;
      },
      rw
          (
            found,
            range_of_lem start_rank num_ranks (length t.sorted) h0 h1 h2 h3 h4,
            y,
            get_score_range,
            score_range,
          )
          refl,
      omega arith,
      len,
      are,
    )

-- Asked for a rank from 2 to the 31 on and for at least one row, and for fewer than 2 to the 31, on a
-- board that is there and smaller, GetScoreRange goes out of the board's bounds, or overflows.
pub get_score_range_fault :
    (now : ℕ) (title : String) (board start_rank num_ranks : ℕ) (c g : Bool) (m : Tables)
    (t : ScoreTable)
    → table_of title board m ≡ some t
    → 2 ^ 31 ≤ start_rank
    → start_rank < 2 ^ 32
    → 1 ≤ num_ranks
    → num_ranks < 2 ^ 31
    → length t.sorted < 2 ^ 31
    → get_score_range now title board start_rank num_ranks c g m ≡ none
unfolding get_score_range score_range range_of visited end_of
get_score_range_fault now title board start_rank num_ranks c g m t found h1 h2 h3 h4 h5 =
    let fault : range_of start_rank num_ranks (length t.sorted) ≡ none = ground arith in
    rw (found, fault, get_score_range, score_range) refl
