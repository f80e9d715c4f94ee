-- ===== src/Scoreboards.antt =====
-- The score boards that scoreboards.cfg configures: common/scoreboards/scoreboardsconfig.cpp. The size
-- of a text's UTF-8 form is a parameter. Lines are numbered from 1.
pub mod Ids
pub mod Parser
mod Examples
use shad_net.Prelude.{
  ℕ, zero, suc, ◌+◌, ◌-◌, ◌*◌, ◌^◌, Bool, true, false, not, ◌&&◌, ◌||◌, Option, none, some, List,
  [], ◌∷◌, ◌++◌, if◌then◌else◌, ◌==◌, ◌!=◌, nat_eq, ltb, leb, length, take, drop, contains,
}
use shad_net.Prelude.Text.{
  Text, Unicode, codes, text_eq, starts_with, index_of, split, trimmed, digits, within, text_beq,
}

-- ScoreboardEntry
pub record ScoreboardEntry : Type 0 where
  pub label : Text
  pub com_id : Text
  pub board_ids : List ℕ
  pub rank_limit : ℕ
  pub force_update : Bool
  pub ascending : Bool
  pub upload_num_limit : ℕ
  pub upload_size_limit : ℕ
  pub line : ℕ

-- The messages of the parser.
pub data Complaint : Type 0 where
  too_large expected_fields bad_com_id bad_boards board_again no_boards : Complaint
  bad_rank_limit bad_update_mode bad_sort_mode bad_upload_limit bad_upload_size : Complaint
  configured_before : (board line : ℕ) → Complaint

pub record ScoreboardsConfigIssue : Type 0 where
  pub line : ℕ
  pub message : Complaint

pub record ScoreboardsConfig : Type 0 where
  pub entries : List ScoreboardEntry
  pub errors : List ScoreboardsConfigIssue

-- A character between two others, so many times; the text that follows.
unfoldable pub run_of : ℕ → ℕ → ℕ → Text → Option Text
run_of zero low high s = some s
run_of (suc n) low high [] = none
run_of (suc n) low high (c ∷ s) =
    let rest = run_of n low high s in if leb low c && leb c high then rest else none

abbrev and_then : Option Text → (Text → Option Text) → Option Text
and_then none f = none
and_then (some s) f = f s

-- `$` of a regular expression: the end, or the line break at the end.
abbrev at_end : Option Text → Bool
at_end none = false
at_end (some []) = true
at_end (some (c ∷ s)) = (c == 10) && (s == [])

-- isValidCommunicationId
unfoldable pub is_valid_communication_id : Text → Bool
unfolding run_of
is_valid_communication_id s = at_end (
    and_then (and_then (and_then (run_of 4 b'A' b'Z' s) (run_of 5 b'0' b'9')) (run_of 1 b'_' b'_'))
      (run_of 2 b'0' b'9'))

-- The ids that the loop over a range adds, so many from the first: `none` at one that was seen.
unfoldable pub add_range : ℕ → ℕ → List ℕ → Option (List ℕ)
unfolding contains
add_range zero id ids = some ids
add_range (suc n) id ids =
    let more = add_range n (id + 1) (ids ++ id ∷ []) in if contains ids id then none else more

-- What a list of boards gives: its ids, or a complaint.
pub data BoardIds : Type 0 where
  boards : List ℕ → BoardIds
  bad : Complaint → BoardIds

abbrev pub added : Option (List ℕ) → BoardIds
added none = bad board_again
added (some ids) = boards ids

unfoldable pub add_bounds : List ℕ → Option ℕ → Option ℕ → BoardIds
unfolding add_range
add_bounds ids none last = bad bad_boards
add_bounds ids (some first) none = bad bad_boards
add_bounds ids (some first) (some last) =
    if ltb last first || leb 10000 (last - first)
    then bad bad_boards
    else added (add_range (last - first + 1) first ids)

module _ (u : Unicode) where
  -- unsignedNumber
  unfoldable pub unsigned_number : Text → ℕ → Option ℕ
  unfolding trimmed digits
  unsigned_number text maximum =
      let t = trimmed u text in
      if (t == []) || ltb 20 (length t) then none else within maximum (digits 0 t)

  abbrev pub max_board_id : ℕ
  max_board_id = 2 ^ 32 - 1

  add_split : List ℕ → Text → Option ℕ → BoardIds
  unfolding unsigned_number add_bounds
  add_split ids part none = let id = unsigned_number part max_board_id in add_bounds ids id id
  add_split ids part (some dash) =
      add_bounds ids (unsigned_number (take dash part) max_board_id)
        (unsigned_number (drop (dash + 1) part) max_board_id)

  -- One part between commas.
  unfoldable pub add_part : List ℕ → Text → BoardIds
  unfolding add_split trimmed index_of
  add_part ids raw = add_split ids (trimmed u raw) (index_of (codes "-") (trimmed u raw))

  unfoldable pub add_parts : BoardIds → List Text → BoardIds
  unfolding add_part
  add_parts done [] = done
  add_parts (bad why) (part ∷ parts) = bad why
  add_parts (boards ids) (part ∷ parts) = add_parts (add_part ids part) parts

  abbrev pub some_boards : BoardIds → BoardIds
  some_boards (bad why) = bad why
  some_boards (boards []) = bad no_boards
  some_boards (boards (id ∷ ids)) = boards (id ∷ ids)

  -- parseBoardIds
  unfoldable pub parse_board_ids : Text → BoardIds
  unfolding add_parts split
  parse_board_ids text = some_boards (add_parts (boards []) (split b',' text))
