-- ===== src/Worlds/Parsing.antt =====
-- The parser of worlds.cfg keeps what a configuration holds.
use shad_net.Prelude.{
  ℕ, suc, ◌*◌, ◌^◌, ◌≤◌, ◌<◌, ◌≡◌, ◌∙◌, refl, ap, sym, Bool, true, false, ◌&&◌, ◌||◌, Option, none,
  some, List, [], ◌∷◌, if◌then◌else◌, ◌==◌, nat_eq, ltb, contains, arith, Bool-cases, Option-cases,
  inl, inr,
}
use shad_net.Prelude.Text.{
  within, digits, Text, Unicode, codes, text_eq, split, trimmed, starts_with, index_of,
}
use shad_net.Prelude.Distinct.{IsDistinct-append, contains-append}
use shad_net.Worlds.{
  WorldDefinition, WorldGroupMapping, Progress, Complaint, Section, groups_section, worlds_section,
  no_section, start, unsigned_number, maximum_of, read_field, add_world, read_values, read_world,
  halves, read_group, enter_section, read_entry, read_line, read_lines, parse_worlds_config,
  group_eq, unmarked, ends_bracket,
}
use shad_net.Worlds.Config.{
  titles, world_keys, AllInRange, IsConfig, IsProgress, kept, complain-IsProgress,
  field_errors-IsProgress, titles-append, world_keys-append, AllInRange-append,
}

swap : (a b : Bool) → (if a then true else b) ≡ (if b then true else a)
swap true true = refl
swap true false = refl
swap false true = refl
swap false false = refl

within-range : (maximum n : ℕ) (o : Option ℕ) → within maximum o ≡ some n → n ≤ maximum
within-range maximum n none h = absurd (ground (arith, h))
within-range maximum n (some k) h = ground arith

unsigned_number-range :
    (u : Unicode) (text : Text) (maximum n : ℕ)
    → unsigned_number u text maximum ≡ some n
    → n ≤ maximum
unfolding unsigned_number
unsigned_number-range u text maximum n h = elim (Bool-cases (trimmed u text == [])) [
  | inl y ↦ absurd (ground (arith, (rw y at h)))
  | inr z ↦ within-range maximum n (digits 0 (trimmed u text)) (rw z at h)
]

-- A field that is read is within its range, and an id is not 0.
read_field-range :
    (u : Unicode) (field n : ℕ) (text : Text)
    → read_field u field text ≡ some n
    → n ≤ maximum_of field
unfolding read_field
read_field-range u field n text h =
    elim (Option-cases (unsigned_number u text (maximum_of field))) [
      | inl y ↦ absurd (ground (arith, (rw (y, read_field) at h)))
      | inr (k, y) ↦ ground (arith, unsigned_number-range u text (maximum_of field) k y)
    ]

read_field-id : (u : Unicode) (n : ℕ) (text : Text) → read_field u 0 text ≡ some n → 1 ≤ n
unfolding read_field
read_field-id u n text h = elim (Option-cases (unsigned_number u text (maximum_of 0))) [
  | inl y ↦ absurd (ground arith)
  | inr (k, y) ↦ ground arith
]

module _ (u : Unicode) (number : ℕ) (p : Progress) (v : IsProgress p) where
  add_world-IsProgress :
      (group : Text) (w s l m : ℕ)
      → 1 ≤ w
      → w < 2 ^ 32
      → s < 2 ^ 16
      → l < 2 ^ 32
      → m < 2 ^ 32
      → IsProgress (add_world u number group w s l m p)
  unfolding add_world AllInRange contains
  add_world-IsProgress group w s l m low hw hs hl hm =
      let key : Text × ℕ = (group, w) in
      let world : WorldDefinition = record {
        group = group;
        world_id = w;
        server_id = s;
        lobbies = l;
        max_lobby_members = m;
        line = number;
      } in
      let keys = world_keys-append p.config.worlds world in
      elim (Bool-cases (contains p.world_ids key)) [
        | inl y ↦ rw (y, add_world) (complain-IsProgress number Complaint.world_again p v)
        | inr n ↦
            rw (n, add_world)
              (record {
                config = record {
                  titles_once = v.config.titles_once;
                  worlds_once = rw keys (
                      IsDistinct-append (world_keys p.config.worlds) key v.config.worlds_once
                        (sym (v.seen_worlds key) ∙ n));
                  in_range =
                      AllInRange-append p.config.worlds world v.config.in_range
                        (low, hw, hs, hl, hm, tt);
                };
                seen_titles = v.seen_titles;
                seen_worlds = λ k.
                    ap (λ b. if group_eq.beq k key then true else b) (v.seen_worlds k)
                    ∙ swap (group_eq.beq k key) (contains (world_keys p.config.worlds) k)
                    ∙ sym (contains-append (world_keys p.config.worlds) key k)
                    ∙ ap (λ l. contains l k) (sym keys);
              })
      ]

  read_group-IsProgress : (line : Text) → IsProgress (read_group u number line p)
  unfolding read_group contains
  read_group-IsProgress line =
      let (title, group) = halves u (index_of (codes "=") line) line in
      let m : WorldGroupMapping = record { title_id = title; group = group; line = number } in
      elim (Bool-cases ((title == []) || (group == []))) [
        | inl y ↦ rw (y, read_group) (complain-IsProgress number Complaint.expected_title p v)
        | inr n ↦ elim (Bool-cases (contains p.title_ids title)) [
          | inl y ↦ rw (n, y, read_group) (complain-IsProgress number Complaint.title_again p v)
          | inr o ↦
              rw (n, o, read_group)
                (record {
                  config = record {
                    titles_once = rw (titles-append p.config.groups m) (
                        IsDistinct-append (titles p.config.groups) title v.config.titles_once
                          (sym (v.seen_titles title) ∙ o));
                    worlds_once = v.config.worlds_once;
                    in_range = v.config.in_range;
                  };
                  seen_titles = λ t.
                      ap (λ b. if text_eq.beq t title then true else b) (v.seen_titles t)
                      ∙ swap (text_eq.beq t title) (contains (titles p.config.groups) t)
                      ∙ sym (contains-append (titles p.config.groups) title t)
                      ∙ ap (λ l. contains l t) (sym (titles-append p.config.groups m));
                  seen_worlds = v.seen_worlds;
                })
        ]
      ]

  read_values-IsProgress :
      (group w s l m : Text)
      → IsProgress (
          read_values u number group
            (read_field u 0 w)
            (read_field u 1 s)
            (read_field u 2 l)
            (read_field u 3 m)
            p)
  unfolding read_values
  read_values-IsProgress group w s l m =
      go (read_field u 0 w) (read_field u 1 s) (read_field u 2 l) (read_field u 3 m) refl refl refl
        refl
    where
      go :
          (a b c d : Option ℕ)
          → read_field u 0 w ≡ a
          → read_field u 1 s ≡ b
          → read_field u 2 l ≡ c
          → read_field u 3 m ≡ d
          → IsProgress (read_values u number group a b c d p)
      go (some a) (some b) (some c) (some d) ha hb hc hd =
          add_world-IsProgress group a b c d (read_field-id u a w ha)
            (omega (arith, read_field-range u 0 a w ha))
            (omega (arith, read_field-range u 1 b s hb))
            (omega (arith, read_field-range u 2 c l hc))
            (omega (arith, read_field-range u 3 d m hd))
      go a b c d ha hb hc hd = field_errors-IsProgress u number 0 (a ∷ b ∷ c ∷ d ∷ []) p v

  read_world-IsProgress : (parts : List Text) → IsProgress (read_world u number parts p)
  unfolding read_world
  read_world-IsProgress (group ∷ w ∷ s ∷ l ∷ m ∷ []) = elim (Bool-cases (trimmed u group == [])) [
    | inl y ↦ rw (y, read_world) (complain-IsProgress number Complaint.expected_world p v)
    | inr n ↦ rw (n, read_world) (read_values-IsProgress (trimmed u group) w s l m)
  ]
  read_world-IsProgress parts = complain-IsProgress number Complaint.expected_world p v

  enter_section-IsProgress : (line : Text) → IsProgress (enter_section u number line p)
  unfolding enter_section
  enter_section-IsProgress line =
      kept p (enter_section u number line p) v (ground arith) (ground arith) (ground arith)
        (ground arith)

  read_entry-IsProgress :
      (line : Text) (section : Section) → IsProgress (read_entry u number line section p)
  unfolding read_entry
  read_entry-IsProgress line no_section = complain-IsProgress number Complaint.misplaced p v
  read_entry-IsProgress line groups_section = read_group-IsProgress line
  read_entry-IsProgress line worlds_section = read_world-IsProgress (split 124 line)

  read_line-IsProgress : (raw : Text) → IsProgress (read_line u p number raw)
  unfolding read_line
  read_line-IsProgress raw =
      let line = unmarked u number (trimmed u raw) in
      elim (Bool-cases ((line == []) || starts_with line (codes "#"))) [
        | inl y ↦ rw (y, read_line) v
        | inr n ↦ elim (Bool-cases (starts_with line (codes "[") && ends_bracket u line)) [
          | inl y ↦ rw (n, y, read_line) (enter_section-IsProgress line)
          | inr m ↦ rw (n, m, read_line) (read_entry-IsProgress line p.section)
        ]
      ]

read_lines-IsProgress :
    (u : Unicode) (p : Progress) (number : ℕ) (lines : List Text)
    → IsProgress p
    → IsProgress (read_lines u p number lines)
unfolding read_lines
read_lines-IsProgress u p number [] v = v
read_lines-IsProgress u p number (raw ∷ lines) v =
    read_lines-IsProgress u (read_line u p number raw) (suc number) lines
      (read_line-IsProgress u number p v raw)

start-IsProgress : IsProgress start
unfolding contains AllInRange
start-IsProgress = record {
  config = record { titles_once = tt; worlds_once = tt; in_range = tt };
  seen_titles = λ t. refl;
  seen_worlds = λ k. refl;
}

-- Whatever the text, the worlds and groups of its parse map no title twice, declare no world's id twice
-- in one group, and have every field in its range: a world's id is at least 1 and below 2 to the 32,
-- a server's id below 2 to the 16, and the other two below 2 to the 32.
pub parse_worlds_config-IsConfig :
    (u : Unicode) (utf8_size : Text → ℕ) (text : Text)
    → IsConfig (parse_worlds_config u utf8_size text)
unfolding parse_worlds_config
parse_worlds_config-IsConfig u utf8_size text =
    let done = read_lines-IsProgress u start 1 (split 10 text) start-IsProgress in
    elim (Bool-cases (ltb (512 * 1024) (utf8_size text) || contains text 0)) [
      | inl y ↦
          rw (y, parse_worlds_config)
            (complain-IsProgress 1 Complaint.too_large start start-IsProgress).config
      | inr n ↦ rw (n, parse_worlds_config) done.config
    ]
