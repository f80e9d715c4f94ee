-- ===== src/Scoreboards/Parser.antt =====
-- The lines of scoreboards.cfg and the loop of parseScoreboardsConfig over them.
use shad_net.Prelude.{
  ℕ, suc, ◌-◌, ◌*◌, ◌^◌, Bool, not, ◌&&◌, ◌||◌, Option, none, some, List, [], ◌∷◌, ◌++◌,
  if◌then◌else◌, ◌==◌, ◌!=◌, nat_eq, ltb, drop, contains,
}
use shad_net.Prelude.Text.{Text, Unicode, codes, text_eq, starts_with, split, trimmed, text_beq}
use shad_net.Scoreboards.{
  ScoreboardEntry, ScoreboardsConfig, Complaint, BoardIds, boards, bad, too_large, expected_fields,
  bad_com_id, bad_rank_limit, bad_update_mode, bad_sort_mode, bad_upload_limit, bad_upload_size,
  configured_before, unsigned_number, is_valid_communication_id, parse_board_ids,
}

-- A line of the file: an entry, or what is wrong with it.
pub data ReadEntry : Type 0 where
  read : ScoreboardEntry → ReadEntry
  refused : Complaint → ReadEntry

abbrev need : Option ℕ → Complaint → (ℕ → ReadEntry) → ReadEntry
need none why go = refused why
need (some n) why go = go n

abbrev need_boards : BoardIds → (List ℕ → ReadEntry) → ReadEntry
need_boards (bad why) go = refused why
need_boards (boards ids) go = go ids

-- What the loop of parseScoreboardsConfig keeps: its result, the comment above the line, and the
-- lines of the boards, each with its communication id.
pub record Progress : Type 0 where
  pub config : ScoreboardsConfig
  pub pending_label : Text
  pub board_lines : List (Text × ℕ × ℕ)

abbrev pub nothing : ScoreboardsConfig
nothing = record { entries = []; errors = [] }

abbrev pub start : Progress
start = record { config = nothing; pending_label = []; board_lines = [] }

abbrev pub complain : ℕ → Complaint → Progress → Progress
complain number why p = record p {
  config = record p.config {
    errors = p.config.errors ++ record { line = number; message = why } ∷ [];
  };
}

-- The line of a board, 0 for one that is not configured.
unfoldable pub line_of : List (Text × ℕ × ℕ) → Text → ℕ → ℕ
unfolding text_beq
line_of [] com_id id = 0
line_of ((c, i, line) ∷ rest) com_id id =
    let later = line_of rest com_id id in if (c == com_id) && (i == id) then line else later

-- The first of the boards that is configured already.
unfoldable pub configured : List (Text × ℕ × ℕ) → Text → List ℕ → Option Complaint
unfolding line_of
configured lines com_id [] = none
configured lines com_id (id ∷ ids) =
    let rest = configured lines com_id ids in
    let earlier = line_of lines com_id id in
    if earlier != 0 then some (configured_before id earlier) else rest

abbrev pub add_lines : ℕ → Text → List ℕ → List (Text × ℕ × ℕ) → List (Text × ℕ × ℕ)
add_lines number com_id [] lines = lines
add_lines number com_id (id ∷ ids) lines =
    add_lines number com_id ids ((com_id, id, number) ∷ lines)

abbrev insert_entry : ScoreboardEntry → Option Complaint → Progress → Progress
insert_entry e (some why) p = complain e.line why p
insert_entry e none p = record p {
  config = record p.config { entries = p.config.entries ++ e ∷ [] };
  board_lines = add_lines e.line e.com_id e.board_ids p.board_lines;
}

unfoldable pub add_entry : ℕ → ReadEntry → Progress → Progress
unfolding configured
add_entry number (refused why) p = complain number why p
add_entry number (read e) p = insert_entry e (configured p.board_lines e.com_id e.board_ids) p

module _ (u : Unicode) where
  -- One of two words.
  abbrev pub either_word : Text → Text → Text → Bool
  either_word t a b = (t == a) || (t == b)

  -- The fields after the ids of the boards.
  unfoldable pub read_fields :
      ℕ → Text → Text → List ℕ → Text → Text → Text → Text → Text → ReadEntry
  unfolding unsigned_number trimmed text_beq
  read_fields number label com_id ids rank update order num size =
      need (unsigned_number u rank (2 ^ 32 - 1)) bad_rank_limit (λ rank_limit.
        let force = codes "FORCE_UPDATE" in
        let ascending = codes "ASCENDING_ORDER" in
        if rank_limit == 0
        then refused bad_rank_limit
        else if not (either_word (trimmed u update) (codes "NORMAL_UPDATE") force)
        then refused bad_update_mode
        else if not (either_word (trimmed u order) (codes "DESCENDING_ORDER") ascending)
        then refused bad_sort_mode
        else need (unsigned_number u num (2 ^ 32 - 1)) bad_upload_limit (λ upload_num.
          need (unsigned_number u size (2 ^ 64 - 1)) bad_upload_size (λ upload_size. read record {
            label = label;
            com_id = com_id;
            board_ids = ids;
            rank_limit = rank_limit;
            force_update = trimmed u update == force;
            ascending = trimmed u order == ascending;
            upload_num_limit = upload_num;
            upload_size_limit = upload_size;
            line = number;
          })))

  -- The parts of a line between bars.
  unfoldable pub read_entry : ℕ → Text → List Text → ReadEntry
  unfolding trimmed is_valid_communication_id parse_board_ids read_fields
  read_entry number label (id_part ∷ ids ∷ rank ∷ update ∷ order ∷ num ∷ size ∷ []) =
      if not (is_valid_communication_id (trimmed u id_part))
      then refused bad_com_id
      else need_boards (parse_board_ids u ids) (λ board_ids.
        read_fields number label (trimmed u id_part) board_ids rank update order num size)
  read_entry number label parts = refused expected_fields

  unfoldable pub unmarked : ℕ → Text → Text
  unfolding trimmed
  unmarked number [] = []
  unmarked number (c ∷ s) = if (number == 1) && (c == 0xfeff) then trimmed u s else c ∷ s

  -- One round of the loop for line `number`.
  unfoldable pub read_line : Progress → ℕ → Text → Progress
  unfolding trimmed unmarked starts_with split read_entry add_entry
  read_line p number raw =
      let line = unmarked number (trimmed u raw) in
      if line == []
      then record p { pending_label = [] }
      else if starts_with line (codes "#")
      then record p { pending_label = trimmed u (drop 1 line) }
      else add_entry number (read_entry number p.pending_label (split b'|' line))
          record p { pending_label = [] }

  unfoldable pub read_lines : Progress → ℕ → List Text → Progress
  unfolding read_line
  read_lines p number [] = p
  read_lines p number (raw ∷ lines) = read_lines (read_line p number raw) (suc number) lines

  -- parseScoreboardsConfig
  unfoldable pub parse_scoreboards_config : (utf8_size : Text → ℕ) → Text → ScoreboardsConfig
  unfolding read_lines contains split
  parse_scoreboards_config utf8_size text =
      if ltb (512 * 1024) (utf8_size text) || contains text 0
      then record nothing { errors = record { line = 1; message = too_large } ∷ [] }
      else (read_lines start 1 (split 10 text)).config
