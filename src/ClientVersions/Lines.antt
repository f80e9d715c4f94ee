-- ===== src/ClientVersions/Lines.antt =====
-- clientVersionRuleLine, and that its line is read back as the rule.
use shad_net.Prelude.{Bool, true, false, [], ◌∷◌, ◌++◌, if◌then◌else◌, ◌==◌}
use shad_net.Prelude.Text.{Text, Unicode, codes, text_eq, trimmed}
use shad_net.ClientVersions.{ClientVersionRule, client_version_match_name, separator}

abbrev pub action_word : Bool → Text
action_word true = codes "allow "
action_word false = codes "deny "

-- The part of the line before its message.
unfoldable pub rule_head : ClientVersionRule → Text
unfolding client_version_match_name
rule_head rule =
    action_word rule.allow
    ++ client_version_match_name rule.kind
    ++ (if rule.text == [] then [] else 32 ∷ rule.text)

-- clientVersionRuleLine
unfoldable pub client_version_rule_line : Unicode → ClientVersionRule → Text
unfolding rule_head trimmed
client_version_rule_line u rule =
    if trimmed u rule.message == []
    then rule_head rule
    else rule_head rule ++ (separator ++ trimmed u rule.message)
