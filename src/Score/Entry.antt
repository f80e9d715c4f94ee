-- ===== src/Score/Entry.antt =====
-- src/score_types.h, and the order of entries in src/score_cache.cpp.
use shad_net.Prelude.{ℕ, String, List, Option, Bool, ltb, ◌==◌, ◌!=◌, nat_eq, if◌then◌else◌}
use shad_net.Prelude.Int.{ℤ, ltb_ℤ, int_eq}

pub record ScoreBoardConfig : Type 0 where
  pub rank_limit : ℕ
  pub update_mode : ℕ
  pub sort_mode : ℕ
  pub upload_num_limit : ℕ
  pub upload_size_limit : ℕ

pub record ScoreEntry : Type 0 where
  pub user_id : ℤ
  pub character_id : ℤ
  pub score : ℤ
  pub comment : String
  pub game_info : List ℕ
  pub data_id : Option ℕ
  pub timestamp : ℕ
  pub npid : String

-- RanksBefore(a, b, sortMode)
unfoldable pub ranks_before : ℕ → ScoreEntry → ScoreEntry → Bool
ranks_before sort_mode a b =
    if a.score != b.score
    then (if sort_mode == 0 then ltb_ℤ b.score a.score else ltb_ℤ a.score b.score)
    else if a.timestamp != b.timestamp
    then ltb a.timestamp b.timestamp
    else ltb_ℤ a.user_id b.user_id
