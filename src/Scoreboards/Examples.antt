-- ===== src/Scoreboards/Examples.antt =====
-- A concrete scoreboards.cfg.
use shad_net.Prelude.{nat_eq, ◌≡◌, ◌≢◌, refl, false, [], ◌∷◌, ◌++◌, length, contains, List, ℕ}
use shad_net.Prelude.Text.{
  Text, Unicode, codes, text_beq, split, trimmed, trim_start, trim_end, keep_unless_blank, is_space,
  starts_with, index_of, digits,
}
use shad_net.Prelude.Distinct.{IsDistinct}
use shad_net.Scoreboards.{
  boards, configured_before, parse_board_ids, add_parts, add_part, add_split, add_bounds, add_range,
  unsigned_number, run_of, is_valid_communication_id,
}
use shad_net.Scoreboards.Parser.{
  line_of, configured, add_entry, read_fields, read_entry, unmarked, read_line, read_lines,
  parse_scoreboards_config,
}
use shad_net.Scoreboards.Ids.{AllNarrow, parse_board_ids-ids}

abbrev unicode : Unicode
unicode = record { space = λ c. false; lower = λ c. c ∷ []; folded = λ c. c }

some_ids : parse_board_ids unicode (codes "1, 3,5-7") ≡ boards (1 ∷ 3 ∷ 5 ∷ 6 ∷ 7 ∷ [])
unfolding parse_board_ids add_parts add_part add_split add_bounds add_range unsigned_number split
    trimmed trim_start trim_end keep_unless_blank is_space index_of digits starts_with contains
    text_beq
some_ids = refl

abbrev five_ids : List ℕ
five_ids = 1 ∷ 3 ∷ 5 ∷ 6 ∷ 7 ∷ []

parse_board_ids-ids_example : (five_ids ≢ []) × IsDistinct five_ids × AllNarrow five_ids
parse_board_ids-ids_example = parse_board_ids-ids unicode (codes "1, 3,5-7") five_ids some_ids

abbrev file : Text
file =
    codes "#a game"
    ++ 10 ∷ codes "NPWR12345_00|0-1|9|FORCE_UPDATE|ASCENDING_ORDER|2|8"
    ++ 10 ∷ codes "NPWR12345_00|1|9|FORCE_UPDATE|ASCENDING_ORDER|2|8"

-- The second line is about a board of the first.
file_entries :
    let config = parse_scoreboards_config unicode length file in
    (length config.entries ≡ 1)
    × (config.errors ≡ record { line = 3; message = configured_before 1 2 } ∷ [])
unfolding parse_scoreboards_config read_lines read_line unmarked read_entry read_fields add_entry
    configured line_of is_valid_communication_id run_of parse_board_ids add_parts add_part add_split
    add_bounds add_range unsigned_number split trimmed trim_start trim_end keep_unless_blank
    is_space index_of digits starts_with contains text_beq
file_entries = (refl, refl)
