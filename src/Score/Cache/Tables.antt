-- ===== src/Score/Cache/Tables.antt =====
-- What each operation of the cache does to the board under each key.
use shad_net.Prelude.{
  ℕ, ◌≡◌, refl, ◌∙◌, ap, sym, Option, none, some, [], ◌∷◌, String, arith, if◌then◌else◌, ◌&&◌, ◌==◌,
  nat_eq, string_eq, inl, inr, Bool-cases,
}
use shad_net.Prelude.Int.{ℤ}
use shad_net.Prelude.Assoc.{find, insert, find-insert}
use shad_net.Score.Table
use shad_net.Score.Table.{ScoreTable}
use shad_net.Score.Cache.{
  Tables, Boards, boards_of, table_of, put_table, remove_user, remove_user_boards,
}

find_nil : (b : ℕ) → find {V = ScoreTable} b [] ≡ none
unfolding find
find_nil b = refl

in_boards : ℕ → Option Boards → Option ScoreTable
in_boards board none = none
in_boards board (some b) = find board b

table_of-find :
    (title : String) (board : ℕ) (m : Tables)
    → table_of title board m ≡ in_boards board (find title m)
unfolding table_of in_boards
table_of-find title board m = ground arith

find-boards_of :
    (title : String) (board : ℕ) (m : Tables)
    → find board (boards_of title m) ≡ table_of title board m
unfolding boards_of table_of
find-boards_of title board m = ground (arith, find_nil board)

pub table_of-put_table :
    (title title' : String) (board board' : ℕ) (t : ScoreTable) (m : Tables)
    → table_of title' board' (put_table title board t m)
      ≡ (if (title == title') && (board == board') then some t else table_of title' board' m)
unfolding put_table in_boards
table_of-put_table title title' board board' t m =
    table_of-find title' board' (put_table title board t m)
    ∙ ap (in_boards board') (find-insert title title' (insert board t (boards_of title m)) m)
    ∙ elim (Bool-cases (string_eq.beq title title')) [
      | inl y ↦ rw y (
          find-insert board board' t (boards_of title m)
          ∙ ap (λ o. if board == board' then some t else o)
              (find-boards_of title board' m
                ∙ ap (λ s. table_of s board' m) ((string_eq.beq_iff title title').0 y)))
      | inr n ↦ rw n (sym (table_of-find title' board' m))
    ]

abbrev user_removed : ℤ → Option ScoreTable → Option ScoreTable
user_removed u none = none
user_removed u (some t) = some (Table.remove_user u t).0

find-remove_user_boards :
    (u : ℤ) (board : ℕ) (b : Boards)
    → find board (remove_user_boards u b).0 ≡ user_removed u (find board b)
unfolding remove_user_boards find
find-remove_user_boards u board [] = refl
find-remove_user_boards u board ((k, t) ∷ b) = ground (arith, find-remove_user_boards u board b)

pub table_of-remove_user :
    (u : ℤ) (title : String) (board : ℕ) (m : Tables)
    → table_of title board (remove_user u m).0 ≡ user_removed u (table_of title board m)
unfolding remove_user table_of find
table_of-remove_user u title board [] = refl
table_of-remove_user u title board ((k, b) ∷ m) = elim (Bool-cases (string_eq.beq k title)) [
  | inl y ↦ rw (y, table_of) (find-remove_user_boards u board b)
  | inr n ↦ rw (n, table_of) (table_of-remove_user u title board m)
]
