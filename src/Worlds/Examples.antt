-- ===== src/Worlds/Examples.antt =====
-- A concrete worlds.cfg.
use shad_net.Prelude.{◌≡◌, refl, false, [], ◌∷◌, ◌++◌, length, contains}
use shad_net.Prelude.Text.{
  digits, Text, Unicode, codes, text_beq, split, trimmed, trim_start, trim_end, keep_unless_blank,
  is_space, starts_with, index_of, to_lower,
}
use shad_net.Worlds.{
  parse_worlds_config, read_line, read_lines, enter_section, read_entry, read_group, read_world,
  read_values, read_field, unsigned_number, halves, unmarked, add_world, group_beq,
}
use shad_net.Worlds.Config.{IsConfig}
use shad_net.Worlds.Parsing.{parse_worlds_config-IsConfig}

abbrev unicode : Unicode
unicode = record { space = λ c. false; lower = λ c. c ∷ []; folded = λ c. c }

abbrev file : Text
file =
    codes "[groups]"
    ++ 10 ∷ codes "CUSA1 = g"
    ++ 10 ∷ codes "[worlds]"
    ++ 10 ∷ codes "g | 7 | 1 | 2 | 9"
    ++ 10 ∷ codes "g | 7 | 1 | 2 | 9"

-- The second world of the same id is refused.
file_worlds :
    let config = parse_worlds_config unicode length file in
    (config.worlds
      ≡ record {
        group = codes "g";
        world_id = 7;
        server_id = 1;
        lobbies = 2;
        max_lobby_members = 9;
        line = 4;
      }
        ∷ [])
    × (length config.groups ≡ 1)
    × (length config.errors ≡ 1)
unfolding parse_worlds_config read_lines read_line enter_section read_entry read_group read_world
    read_values read_field unsigned_number digits halves unmarked add_world split trimmed trim_start
    trim_end keep_unless_blank is_space starts_with index_of to_lower text_beq contains group_beq
file_worlds = (refl, refl, refl)

parse_worlds_config-IsConfig_example : IsConfig (parse_worlds_config unicode length file)
parse_worlds_config-IsConfig_example = parse_worlds_config-IsConfig unicode length file
