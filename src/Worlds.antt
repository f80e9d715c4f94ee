-- ===== src/Worlds.antt =====
-- The matchmaking worlds that worlds.cfg configures: common/worlds/worldsconfig.cpp. The size of a
-- text's UTF-8 form is a parameter. Lines are numbered from 1.
pub mod Config
pub mod Parsing
mod Examples
use shad_net.Prelude.{
  ℕ, zero, suc, ◌+◌, ◌-◌, ◌*◌, ◌^◌, ◌/◌, ◌%◌, Bool, true, false, not, ◌&&◌, ◌||◌, Option, none,
  some, List, [], ◌∷◌, ◌++◌, if◌then◌else◌, ◌==◌, nat_eq, Eq, ltb, leb, length, take, drop,
  contains, ◌≡◌, ◌↔◌, arith,
}
use shad_net.Prelude.Text.{
  Text, Unicode, codes, text_eq, text_beq, starts_with, index_of, split, to_lower, trimmed, digits,
  within,
}

pub record WorldGroupMapping : Type 0 where
  pub title_id : Text
  pub group : Text
  pub line : ℕ

pub record WorldDefinition : Type 0 where
  pub group : Text
  pub world_id : ℕ
  pub server_id : ℕ
  pub lobbies : ℕ
  pub max_lobby_members : ℕ
  pub line : ℕ

-- The messages of the parser; `not_in_range` is about a field of a world, from 0.
pub data Complaint : Type 0 where
  too_large unknown_section expected_title title_again expected_world : Complaint
  world_again misplaced : Complaint
  not_in_range : (field : ℕ) → Complaint

pub record WorldsConfigIssue : Type 0 where
  pub line : ℕ
  pub message : Complaint

pub record WorldsConfig : Type 0 where
  pub groups : List WorldGroupMapping
  pub worlds : List WorldDefinition
  pub errors : List WorldsConfigIssue

pub data Section : Type 0 where
  no_section groups_section worlds_section : Section

-- Keys that pair a group with a world's id.
pub group_beq : Text × ℕ → Text × ℕ → Bool
group_beq (s, m) (t, n) = (s == t) && (m == n)

pub group_beq_iff : (a b : Text × ℕ) → (group_beq a b ≡ true) ↔ (a ≡ b)
unfolding group_beq
group_beq_iff (s, m) (t, n) = ground (arith, text_eq.beq_iff s t)

instance abbrev pub group_eq : Eq (Text × ℕ)
group_eq = record { beq = group_beq; beq_iff = group_beq_iff }

-- What the loop of parseWorldsConfig keeps.
pub record Progress : Type 0 where
  pub config : WorldsConfig
  pub section : Section
  pub title_ids : List Text
  pub world_ids : List (Text × ℕ)

abbrev pub nothing : WorldsConfig
nothing = record { groups = []; worlds = []; errors = [] }

abbrev pub start : Progress
start = record { config = nothing; section = no_section; title_ids = []; world_ids = [] }

abbrev pub complain : ℕ → Complaint → Progress → Progress
complain number why p = record p {
  config = record p.config {
    errors = p.config.errors ++ record { line = number; message = why } ∷ [];
  };
}

-- The field's largest value: a 16-bit one of the server's id, a 32-bit one of the others.
abbrev pub maximum_of : ℕ → ℕ
maximum_of field = if field == 1 then 2 ^ 16 - 1 else 2 ^ 32 - 1

module _ (u : Unicode) where
  -- unsignedNumber
  unfoldable pub unsigned_number : Text → ℕ → Option ℕ
  unfolding trimmed digits
  unsigned_number text maximum =
      let t = trimmed u text in if t == [] then none else within maximum (digits 0 t)

  -- A field of a world; its id is not 0.
  unfoldable pub read_field : ℕ → Text → Option ℕ
  unfolding unsigned_number
  read_field field text = elim (unsigned_number text (maximum_of field)) [
    | none ↦ none
    | some n ↦ if (field == 0) && (n == 0) then none else some n
  ]

  abbrev pub field_errors : ℕ → ℕ → List (Option ℕ) → Progress → Progress
  field_errors number field [] p = p
  field_errors number field (none ∷ values) p =
      field_errors number (suc field) values (complain number (not_in_range field) p)
  field_errors number field (some n ∷ values) p = field_errors number (suc field) values p

  unfoldable pub add_world : ℕ → Text → ℕ → ℕ → ℕ → ℕ → Progress → Progress
  unfolding contains
  add_world number group world_id server_id lobbies members p =
      if contains p.world_ids (group, world_id) then complain number world_again p else record p {
        config = record p.config {
          worlds =
              p.config.worlds
              ++ record {
                group = group;
                world_id = world_id;
                server_id = server_id;
                lobbies = lobbies;
                max_lobby_members = members;
                line = number;
              }
                ∷ [];
        };
        world_ids = (group, world_id) ∷ p.world_ids;
      }

  unfoldable pub read_values :
      ℕ → Text → Option ℕ → Option ℕ → Option ℕ → Option ℕ → Progress → Progress
  unfolding add_world
  read_values number group (some w) (some s) (some l) (some m) p = add_world number group w s l m p
  read_values number group w s l m p = field_errors number 0 (w ∷ s ∷ l ∷ m ∷ []) p

  unfoldable pub read_world : ℕ → List Text → Progress → Progress
  unfolding trimmed read_field read_values
  read_world number (group ∷ w ∷ s ∷ l ∷ m ∷ []) p =
      if trimmed u group == []
      then complain number expected_world p
      else read_values number (trimmed u group) (read_field 0 w) (read_field 1 s) (read_field 2 l)
          (read_field 3 m) p
  read_world number parts p = complain number expected_world p

  unfoldable pub halves : Option ℕ → Text → Text × Text
  unfolding trimmed
  halves none line = ([], [])
  halves (some i) line = (trimmed u (take i line), trimmed u (drop (i + 1) line))

  unfoldable pub read_group : ℕ → Text → Progress → Progress
  unfolding index_of trimmed contains halves
  read_group number line p =
      let (title, group) = halves (index_of (codes "=") line) line in
      if (title == []) || (group == [])
      then complain number expected_title p
      else if contains p.title_ids title
      then complain number title_again p
      else record p {
        config = record p.config {
          groups =
              p.config.groups ++ record { title_id = title; group = group; line = number } ∷ [];
        };
        title_ids = title ∷ p.title_ids;
      }

  abbrev pub ends_bracket : Text → Bool
  ends_bracket [] = false
  ends_bracket (c ∷ []) = c == b']'
  ends_bracket (c ∷ d ∷ s) = ends_bracket (d ∷ s)

  -- A line in brackets.
  unfoldable pub enter_section : ℕ → Text → Progress → Progress
  unfolding trimmed to_lower text_beq
  enter_section number line p =
      let name = to_lower u (trimmed u (take (length line - 2) (drop 1 line))) in
      if name == codes "groups"
      then record p { section = groups_section }
      else if name == codes "worlds"
      then record p { section = worlds_section }
      else complain number unknown_section (record p { section = no_section })

  read_entry : ℕ → Text → Section → Progress → Progress
  unfolding read_group read_world split
  read_entry number line no_section p = complain number misplaced p
  read_entry number line groups_section p = read_group number line p
  read_entry number line worlds_section p = read_world number (split b'|' line) p

  unfoldable pub unmarked : ℕ → Text → Text
  unfolding trimmed
  unmarked number [] = []
  unmarked number (c ∷ s) = if (number == 1) && (c == 0xfeff) then trimmed u s else c ∷ s

  -- One round of the loop for line `number`.
  unfoldable pub read_line : Progress → ℕ → Text → Progress
  unfolding trimmed starts_with enter_section read_entry unmarked
  read_line p number raw =
      let line = unmarked number (trimmed u raw) in
      if (line == []) || starts_with line (codes "#")
      then p
      else if starts_with line (codes "[") && ends_bracket line
      then enter_section number line p
      else read_entry number line p.section p

  unfoldable pub read_lines : Progress → ℕ → List Text → Progress
  unfolding read_line
  read_lines p number [] = p
  read_lines p number (raw ∷ lines) = read_lines (read_line p number raw) (suc number) lines

  -- parseWorldsConfig
  unfoldable pub parse_worlds_config : (utf8_size : Text → ℕ) → Text → WorldsConfig
  unfolding read_lines contains split
  parse_worlds_config utf8_size text =
      if ltb (512 * 1024) (utf8_size text) || contains text 0
      then record nothing { errors = record { line = 1; message = too_large } ∷ [] }
      else (read_lines start 1 (split 10 text)).config
