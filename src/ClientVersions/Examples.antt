-- ===== src/ClientVersions/Examples.antt =====
-- Concrete rules on client versions.
use shad_net.Prelude.{◌≡◌, refl, Bool, true, false, none, [], ◌∷◌, ◌++◌}
use shad_net.Prelude.Text.{
  Text, Unicode, codes, text_beq, trimmed, trim_start, trim_end, keep_unless_blank, is_space,
  starts_with, index_of, split, nth_part, to_lower, join,
}
use shad_net.ClientVersions.{
  ClientVersionRule, Match, any, exact, prefix, Regexes, validate_client_version_rule, parse_rule,
  accepted, client_version_match_name, halves, ruled, argument, action_named, match_named,
}
use shad_net.ClientVersions.Rules.{
  hits, evaluate_client_version, AllMiss, IsRuledBy, IsUnruled, evaluate_client_version_lem,
}
use shad_net.ClientVersions.Lines.{client_version_rule_line, rule_head}
use shad_net.ClientVersions.Config.{
  parse_client_versions_config, is_pending, without_return, step, steps, note_and_rest, drop_blank,
}
use shad_net.ClientVersions.Parsing.{
  AllValid, rule_count, outcomes, parse_client_versions_config_lem,
}
use shad_net.ClientVersions.RoundTrip.{parse_rule-rule_line}

abbrev unicode : Unicode
unicode = record { space = λ c. false; lower = λ c. c ∷ []; folded = λ c. c }

abbrev regexes : Regexes
regexes = record { error_string = λ p. none; has_match = λ p s. false }

abbrev rule_of : Bool → Match → Text → Text → ClientVersionRule
rule_of allow kind text message = record {
  allow = allow;
  kind = kind;
  text = text;
  message = message;
  note = [];
  line = 2;
}

abbrev old : ClientVersionRule
old = rule_of false prefix (codes "v0.18") (codes "Update.")

abbrev mine : ClientVersionRule
mine = rule_of true exact (codes "v0.19") []

abbrev everyone : ClientVersionRule
everyone = rule_of false any [] []

evaluate_client_version_lem_example :
    IsRuledBy everyone 2 (evaluate_client_version regexes (old ∷ mine ∷ everyone ∷ []) (codes "v1"))
    × IsUnruled (evaluate_client_version regexes (old ∷ mine ∷ []) (codes "v1"))
unfolding AllMiss hits starts_with text_beq
evaluate_client_version_lem_example =
    evaluate_client_version_lem regexes (codes "v1") (old ∷ mine ∷ []) [] everyone
      (refl, (refl, tt)) refl

parse_rule-rule_line_example :
    parse_rule unicode regexes [] 2 (codes "deny prefix v0.18 | Update.") ≡ accepted old
unfolding validate_client_version_rule trimmed trim_start trim_end keep_unless_blank is_space
    index_of starts_with rule_head client_version_match_name text_beq client_version_rule_line
parse_rule-rule_line_example = parse_rule-rule_line unicode regexes old refl refl refl

abbrev file : Text
file = codes "# mine" ++ 10 ∷ codes "deny prefix v0.18 | Update." ++ 10 ∷ codes "allow all"

parse_client_versions_config_lem_example :
    AllValid unicode regexes (parse_client_versions_config unicode regexes file).rules
    × (outcomes unicode regexes (parse_client_versions_config unicode regexes file)
        ≡ rule_count unicode (split 10 file))
parse_client_versions_config_lem_example = parse_client_versions_config_lem unicode regexes file

-- The file has one rule and one error.
file_rules :
    (parse_client_versions_config unicode regexes file).rules
    ≡ record old { note = codes "mine" } ∷ []
unfolding parse_client_versions_config steps step is_pending without_return split parse_rule halves
    ruled argument action_named match_named trimmed trim_start trim_end keep_unless_blank is_space
    index_of starts_with nth_part to_lower validate_client_version_rule text_beq note_and_rest
    drop_blank join
file_rules = refl

-- A text that ends with a bar passes the validation, but its line is read back as another rule.
bar_text :
    (validate_client_version_rule unicode regexes (rule_of false exact (codes "a |") (codes "m"))
      ≡ none)
    × (parse_rule unicode regexes [] 2
          (client_version_rule_line unicode (rule_of false exact (codes "a |") (codes "m")))
        ≡ accepted (rule_of false exact (codes "a") (codes "| m")))
unfolding validate_client_version_rule parse_rule client_version_rule_line trimmed trim_start
    trim_end keep_unless_blank index_of starts_with split nth_part to_lower text_beq halves ruled
    argument action_named match_named
bar_text = (refl, refl)
