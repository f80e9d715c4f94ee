-- ===== src/ClientVersions/Parsing.antt =====
-- What parseClientVersionsConfig makes of a file.
use shad_net.Prelude.{
  ℕ, suc, ◌+◌, ◌≡◌, ◌∙◌, refl, ap, sym, subst, Bool, true, not, Option, none, some, List, [], ◌∷◌,
  ◌++◌, if◌then◌else◌, arith, length, Bool-cases, inl, inr, keep_if, length-append,
}
use shad_net.Prelude.Text.{Text, Unicode, text_eq, split, join, trimmed, nth_part, to_lower}
use shad_net.ClientVersions.{
  ClientVersionRule, Match, Regexes, Complaint, Parsed, accepted, refused, parse_rule, new_line,
  validate_client_version_rule, checked, ruled, halves, argument, action_named, match_named,
}
use shad_net.ClientVersions.Config.{
  ClientVersionsConfig, Progress, add, start, step, steps, is_pending, without_return, without_mark,
  parse_client_versions_config, note_and_rest, oldest_first, drop_blank,
}

-- The lines that are neither blank nor a comment.
abbrev pub rule_count : Unicode → List Text → ℕ
rule_count u lines = length (keep_if (λ raw. not (is_pending u (without_return raw))) lines)

module _ (u : Unicode) (re : Regexes) where
  -- Every rule of a list passes validateClientVersionRule.
  pub AllValid : List ClientVersionRule → Type 0
  AllValid [] = Unit
  AllValid (rule ∷ rules) = (validate_client_version_rule u re rule ≡ none) × AllValid rules

  AllValid-append :
      (rules : List ClientVersionRule) (rule : ClientVersionRule)
      → AllValid rules
      → validate_client_version_rule u re rule ≡ none
      → AllValid (rules ++ rule ∷ [])
  unfolding AllValid
  AllValid-append [] rule v h = (h, tt)
  AllValid-append (r ∷ rules) rule v h = (v.0, AllValid-append rules rule v.1 h)

  -- A rule that is accepted passes the validation.
  AcceptedValid : Parsed → Type 0
  AcceptedValid (accepted rule) = validate_client_version_rule u re rule ≡ none
  AcceptedValid (refused why) = Unit

  checked-valid :
      (rule : ClientVersionRule) (o : Option Complaint)
      → validate_client_version_rule u re rule ≡ o
      → AcceptedValid (checked rule o)
  unfolding AcceptedValid
  checked-valid rule none h = h
  checked-valid rule (some why) h = tt

  ruled-valid :
      (text message note : Text) (line : ℕ) (allow : Option Bool) (kind : Option Match)
      → AcceptedValid (ruled u re text message note line allow kind)
  unfolding ruled AcceptedValid
  ruled-valid text message note line none kind = tt
  ruled-valid text message note line (some allow) none = tt
  ruled-valid text message note line (some allow) (some kind) =
      checked-valid
        (record {
          allow = allow;
          kind = kind;
          text = text;
          message = message;
          note = note;
          line = line;
        })
        _ refl

  parse_rule-valid :
      (note : Text) (number : ℕ) (line : Text) → AcceptedValid (parse_rule u re note number line)
  unfolding parse_rule
  parse_rule-valid note number line =
      let (head, message) = halves u line in
      let action = nth_part 0 (split 32 head) in
      let word = to_lower u (nth_part 1 (split 32 head)) in
      let text = argument u head action word in
      ruled-valid text message note number (action_named u action) (match_named word)

  -- Rules and errors of a configuration.
  abbrev pub outcomes : ClientVersionsConfig → ℕ
  outcomes config = length config.rules + length config.errors

  add-lem :
      (number : ℕ) (parsed : Parsed) (config : ClientVersionsConfig)
      → AllValid config.rules
      → AcceptedValid parsed
      → AllValid (add number parsed config).rules
        × (outcomes (add number parsed config) ≡ outcomes config + 1)
  unfolding AcceptedValid
  add-lem number (accepted rule) config v h =
      (AllValid-append config.rules rule v h, omega (arith, length-append config.rules (rule ∷ [])))
  add-lem number (refused why) config v h =
      (v, omega (arith, length-append config.errors (record { line = number; message = why } ∷ [])))

  steps-lem :
      (p : Progress) (number : ℕ) (lines : List Text)
      → AllValid p.config.rules
      → AllValid (steps u re p number lines).config.rules
        × (outcomes (steps u re p number lines).config ≡ outcomes p.config + rule_count u lines)
  unfolding steps step
  steps-lem p number [] v = (v, omega arith)
  steps-lem p number (line ∷ lines) v =
      let raw = without_return line in
      elim (Bool-cases (is_pending u raw)) [
        | inl y ↦
            rw (y, steps, step)
              (steps-lem (record p { pending = raw ∷ p.pending }) (suc number) lines v)
        | inr n ↦
            let (note, rest) = note_and_rest u [] p.pending in
            let headed : ClientVersionsConfig =
              if p.saw_rule
              then p.config
              else record p.config { header = oldest_first [] (drop_blank u rest) } in
            let parsed = parse_rule u re (join new_line note) number (trimmed u raw) in
            let same : (headed.rules ≡ p.config.rules) × (headed.errors ≡ p.config.errors) =
              (ground arith, ground arith) in
            let (ok, more) =
              add-lem number parsed headed (subst AllValid (sym same.0) v)
                (parse_rule-valid (join new_line note) number (trimmed u raw)) in
            let (valid, total) =
              steps-lem
                (record { config = add number parsed headed; pending = []; saw_rule = true })
                (suc number) lines ok in
            rw (n, steps, step)
              (
                valid,
                total ∙ omega (arith, more, ap (λ l. length l) same.0, ap (λ l. length l) same.1),
              )
      ]

  -- Each rule that a file's parse gives has passed validateClientVersionRule, and each line that is
  -- neither blank nor a comment gives one rule or one error: no line is passed over in silence.
  pub parse_client_versions_config_lem :
      (input : Text)
      → let config = parse_client_versions_config u re input in
        AllValid config.rules
        × (outcomes config ≡ rule_count u (split new_line (without_mark input)))
  unfolding parse_client_versions_config AllValid
  parse_client_versions_config_lem input =
      let lines = split new_line (without_mark input) in ground (arith, steps-lem start 1 lines tt)
