-- ===== src/ClientVersions/Config.antt =====
-- parseClientVersionsConfig and serializeClientVersionsConfig.
use shad_net.Prelude.{
  ℕ, suc, Bool, true, false, ◌||◌, List, [], ◌∷◌, ◌++◌, if◌then◌else◌, ◌==◌, nat_eq, keep_if,
}
use shad_net.Prelude.Text.{Text, Unicode, codes, text_eq, starts_with, split, join, trimmed}
use shad_net.ClientVersions.{
  ClientVersionRule, Regexes, Complaint, Parsed, accepted, refused, parse_rule, comment_text,
  is_comment, new_line, carriage_return,
}
use shad_net.ClientVersions.Lines.{client_version_rule_line}

pub record ClientVersionsParseError : Type 0 where
  pub line : ℕ
  pub message : Complaint

pub record ClientVersionsConfig : Type 0 where
  pub header : List Text
  pub rules : List ClientVersionRule
  pub trailer : List Text
  pub errors : List ClientVersionsParseError

-- What the loop of parseClientVersionsConfig keeps; the pending lines are the newest first.
pub record Progress : Type 0 where
  pub config : ClientVersionsConfig
  pub pending : List Text
  pub saw_rule : Bool

abbrev pub start : Progress
start = record {
  config = record { header = []; rules = []; trailer = []; errors = [] };
  pending = [];
  saw_rule = false;
}

abbrev pub add : ℕ → Parsed → ClientVersionsConfig → ClientVersionsConfig
add number (accepted rule) config = record config { rules = config.rules ++ rule ∷ [] }
add number (refused why) config = record config {
  errors = config.errors ++ record { line = number; message = why } ∷ [];
}

-- `raw`, without a carriage return at its end
unfoldable pub without_return : Text → Text
without_return [] = []
without_return (c ∷ []) = if c == carriage_return then [] else c ∷ []
without_return (c ∷ d ∷ s) = c ∷ without_return (d ∷ s)

module _ (u : Unicode) where
  -- Whether a line is blank or a comment.
  unfoldable pub is_pending : Text → Bool
  unfolding trimmed starts_with
  is_pending raw = (trimmed u raw == []) || is_comment (trimmed u raw)

  -- The comments among the pending lines, newest first, from the newest on: the note's lines, oldest
  -- first, and the lines before them.
  unfoldable pub note_and_rest : List Text → List Text → List Text × List Text
  unfolding trimmed comment_text starts_with
  note_and_rest note [] = (note, [])
  note_and_rest note (raw ∷ pending) =
      let longer = note_and_rest (comment_text (trimmed u raw) ∷ note) pending in
      if is_comment (trimmed u raw) then longer else (note, raw ∷ pending)

  -- Without the blank lines at the end; the lines are the newest first.
  unfoldable pub drop_blank : List Text → List Text
  unfolding trimmed
  drop_blank [] = []
  drop_blank (raw ∷ lines) =
      let fewer = drop_blank lines in if trimmed u raw == [] then fewer else raw ∷ lines

abbrev pub oldest_first : List Text → List Text → List Text
oldest_first done [] = done
oldest_first done (raw ∷ lines) = oldest_first (raw ∷ done) lines

abbrev pub finish : Unicode → Progress → ClientVersionsConfig
unfolding drop_blank trimmed starts_with
finish u p =
    if p.saw_rule
    then record p.config {
      trailer = keep_if (λ raw. is_comment (trimmed u raw)) (oldest_first [] p.pending);
    }
    else record p.config { header = oldest_first [] (drop_blank u p.pending) }

abbrev pub without_mark : Text → Text
without_mark [] = []
without_mark (c ∷ s) = if c == 0xfeff then s else c ∷ s

module _ (u : Unicode) (re : Regexes) where
  -- One round of the loop for line `number`.
  unfoldable pub step : Progress → ℕ → Text → Progress
  unfolding trimmed parse_rule note_and_rest drop_blank without_return is_pending join
  step p number line =
      let raw = without_return line in
      if is_pending u raw
      then record p { pending = raw ∷ p.pending }
      else let (note, rest) = note_and_rest u [] p.pending in
        let headed : ClientVersionsConfig =
          if p.saw_rule
          then p.config
          else record p.config { header = oldest_first [] (drop_blank u rest) } in
        record {
          config = add number (parse_rule u re (join new_line note) number (trimmed u raw)) headed;
          pending = [];
          saw_rule = true;
        }

  unfoldable pub steps : Progress → ℕ → List Text → Progress
  unfolding step
  steps p number [] = p
  steps p number (raw ∷ lines) = steps (step p number raw) (suc number) lines

  -- parseClientVersionsConfig
  unfoldable pub parse_client_versions_config : Text → ClientVersionsConfig
  unfolding steps split drop_blank trimmed starts_with
  parse_client_versions_config input =
      finish u (steps start 1 (split new_line (without_mark input)))

abbrev has_none : List Text → Bool
has_none [] = true
has_none (raw ∷ lines) = false

abbrev note_line : Text → Text
note_line [] = codes "#"
note_line (c ∷ s) = codes "# " ++ c ∷ s

abbrev pub note_lines : List Text → List Text
note_lines [] = []
note_lines (text ∷ lines) = note_line text ∷ note_lines lines

abbrev pub rule_lines : Unicode → List ClientVersionRule → List Text
unfolding split client_version_rule_line
rule_lines u [] = []
rule_lines u (rule ∷ rules) =
    (if rule.note == [] then [] else note_lines (split new_line rule.note))
    ++ client_version_rule_line u rule ∷ rule_lines u rules

-- serializeClientVersionsConfig
unfoldable pub serialize_client_versions_config : Unicode → ClientVersionsConfig → Text
unfolding join split client_version_rule_line
serialize_client_versions_config u config =
    join new_line (
      (if has_none config.header then [] else config.header ++ [] ∷ [])
      ++ rule_lines u config.rules
      ++ (if has_none config.trailer then [] else [] ∷ config.trailer))
    ++ new_line ∷ []
