-- ===== src/ClientVersions.antt =====
-- The rules on client versions: common/clientversions/clientversionsconfig.cpp and Apply, Evaluate
-- and RuleCount of src/client_version_rules.cpp. Unicode beyond ASCII and QRegularExpression are
-- parameters. The lines of clientversions.cfg are numbered from 1.
pub mod Rules
pub mod Lines
pub mod Config
pub mod Parsing
pub mod RoundTrip
mod Examples
use shad_net.Prelude.{
  ℕ, zero, suc, ◌+◌, ◌-◌, Bool, true, false, not, ◌&&◌, ◌||◌, Option, none, some, List, [], ◌∷◌,
  ◌++◌, if◌then◌else◌, ◌==◌, ◌!=◌, nat_eq, is_some, length, take, drop, contains, ltb,
}
use shad_net.Prelude.Text.{
  Text, Unicode, codes, text_eq, starts_with, index_of, split, join, nth_part, to_lower,
  same_letters, find_letters, trimmed,
}

-- ClientVersionRule::Match
pub data Match : Type 0 where
  empty any exact prefix regex : Match

-- ClientVersionRule; its QRegularExpression is that of its text.
pub record ClientVersionRule : Type 0 where
  pub allow : Bool
  pub kind : Match
  pub text : Text
  pub message : Text
  pub note : Text
  pub line : ℕ

-- The complaints of the parser.
pub data Complaint : Type 0 where
  needs_pattern no_outer_space no_separator one_line_message : Complaint
  start_with_action name_a_match : Complaint
  needs_text takes_no_argument : Match → Complaint
  invalid_regex : Text → Complaint

-- QRegularExpression: why a pattern is not valid, and whether it matches in a text.
pub record Regexes : Type 0 where
  pub error_string : Text → Option Text
  pub has_match : (pattern subject : Text) → Bool

-- kSeparator
abbrev pub separator : Text
separator = codes " | "

abbrev pub new_line : ℕ
new_line = 10

abbrev pub carriage_return : ℕ
carriage_return = 13

abbrev pub is_comment : Text → Bool
is_comment s = starts_with s (codes "#")

-- commentText
unfoldable pub comment_text : Text → Text
unfolding starts_with
comment_text s = let text = drop 1 s in if starts_with text (codes " ") then drop 1 text else text

-- clientVersionMatchName
unfoldable pub client_version_match_name : Match → Text
client_version_match_name empty = codes "empty"
client_version_match_name any = codes "any"
client_version_match_name exact = codes "exact"
client_version_match_name prefix = codes "prefix"
client_version_match_name regex = codes "regex"

-- defaultClientVersionDenyMessage
abbrev pub default_client_version_deny_message : Text
default_client_version_deny_message =
    codes "This shadNet server doesn't accept your shadPS4 build. Please update shadPS4."

abbrev pub takes_text : Match → Bool
takes_text empty = false
takes_text any = false
takes_text exact = true
takes_text prefix = true
takes_text regex = true

abbrev missing_text : Match → Complaint
missing_text empty = needs_text empty
missing_text any = needs_text any
missing_text exact = needs_text exact
missing_text prefix = needs_text prefix
missing_text regex = needs_pattern

abbrev bad_regex : Option Text → Option Complaint
bad_regex none = none
bad_regex (some why) = some (invalid_regex why)

abbrev regex_complaint : Regexes → Match → Text → Option Complaint
regex_complaint re empty text = none
regex_complaint re any text = none
regex_complaint re exact text = none
regex_complaint re prefix text = none
regex_complaint re regex text = bad_regex (re.error_string text)

-- What a line gives.
pub data Parsed : Type 0 where
  accepted : ClientVersionRule → Parsed
  refused : Complaint → Parsed

module _ (u : Unicode) (re : Regexes) where
  -- validateClientVersionRule; `none`: the empty string
  unfoldable pub validate_client_version_rule : ClientVersionRule → Option Complaint
  unfolding trimmed index_of contains
  validate_client_version_rule rule =
      if takes_text rule.kind && (trimmed u rule.text == [])
      then some (missing_text rule.kind)
      else if not (takes_text rule.kind) && (rule.text != [])
      then some (takes_no_argument rule.kind)
      else if rule.text != trimmed u rule.text
      then some no_outer_space
      else if is_some (index_of separator rule.text) || contains rule.text new_line
      then some no_separator
      else if contains rule.message new_line || contains rule.message carriage_return
      then some one_line_message
      else regex_complaint re rule.kind rule.text

-- The match that a word names.
unfoldable pub match_named : Text → Option Match
match_named word =
    if word == codes "empty"
    then some empty
    else if word == codes "any"
    then some any
    else if word == codes "exact"
    then some exact
    else if word == codes "prefix"
    then some prefix
    else if word == codes "regex"
    then some regex
    else none

abbrev pub position : Option ℕ → ℕ → ℕ → ℕ
position none from size = size - 1
position (some i) from size = from + i + size

abbrev pub checked : ClientVersionRule → Option Complaint → Parsed
checked rule none = accepted rule
checked rule (some why) = refused why

module _ (u : Unicode) where
  -- Whether a word is `allow` or `deny`, in any case.
  unfoldable pub action_named : Text → Option Bool
  unfolding same_letters
  action_named word =
      if same_letters u word (codes "allow")
      then some true
      else if same_letters u word (codes "deny")
      then some false
      else none

  -- `argStart` after its two assignments; -1 for a word that is not found
  unfoldable pub argument_start : Text → Text → Text → ℕ
  unfolding index_of find_letters
  argument_start head action word =
      let from = position (index_of action head) 0 (length action) in
      position (find_letters u word (drop from head)) from (length word)

  unfoldable pub argument : Text → Text → Text → Text
  unfolding argument_start trimmed
  argument head action word =
      if word == [] then [] else trimmed u (drop (argument_start head action word) head)

  -- The head and the message of a line.
  unfoldable pub halves : Text → Text × Text
  unfolding index_of trimmed
  halves line = elim (index_of separator line) [
    | none ↦ (line, [])
    | some bar ↦ (trimmed u (take bar line), trimmed u (drop (bar + 3) line))
  ]

module _ (u : Unicode) (re : Regexes) where
  ruled : Text → Text → Text → ℕ → Option Bool → Option Match → Parsed
  unfolding validate_client_version_rule
  ruled text message note line none kind = refused start_with_action
  ruled text message note line (some allow) none = refused name_a_match
  ruled text message note line (some allow) (some kind) =
      let rule : ClientVersionRule = record {
        allow = allow;
        kind = kind;
        text = text;
        message = message;
        note = note;
        line = line;
      } in
      checked rule (validate_client_version_rule u re rule)

  -- What the loop of parseClientVersionsConfig makes of a line that is a rule, trimmed.
  unfoldable pub parse_rule : Text → ℕ → Text → Parsed
  unfolding ruled halves split nth_part to_lower argument action_named match_named
  parse_rule note number line =
      let (head, message) = halves u line in
      let action = nth_part 0 (split 32 head) in
      let word = to_lower u (nth_part 1 (split 32 head)) in
      let text = argument u head action word in
      ruled text message note number (action_named u action) (match_named word)
