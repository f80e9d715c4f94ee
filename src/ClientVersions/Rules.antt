-- ===== src/ClientVersions/Rules.antt =====
-- evaluateClientVersion, and the rules that a server keeps: Apply, Evaluate and RuleCount of
-- src/client_version_rules.cpp.
use shad_net.Prelude.{
  ℕ, suc, ◌+◌, ◌≡◌, ◌≢◌, ap, sym, subst, refl, Bool-cases, inl, inr, ◌⊎◌, Bool, true, false, Option,
  none, some, List, [], ◌∷◌, ◌++◌, if◌then◌else◌, ◌==◌, arith, length,
}
use shad_net.Prelude.Text.{Text, text_eq, starts_with, codes, text_beq}
use shad_net.ClientVersions.{
  ClientVersionRule, Match, empty, any, exact, prefix, regex, Regexes,
  default_client_version_deny_message,
}

-- ClientVersionDecision; the rule's index is `none` for -1.
pub record ClientVersionDecision : Type 0 where
  pub allowed : Bool
  pub message : Text
  pub rule : Option ℕ
  pub line : ℕ

abbrev pub no_rule : ClientVersionDecision
no_rule = record { allowed = true; message = []; rule = none; line = 0 }

-- A decision without a rule: the version is allowed.
pub IsUnruled : ClientVersionDecision → Type 0
IsUnruled d = (d.allowed ≡ true) × (d.message ≡ []) × (d.rule ≡ none) × (d.line ≡ 0)

-- The decision of a rule: its place, its line, whether it allows; no message where it allows, its
-- own where it denies and has one, and else the default one.
pub IsRuledBy : ClientVersionRule → ℕ → ClientVersionDecision → Type 0
IsRuledBy rule i d =
    (d.rule ≡ some i)
    × (d.line ≡ rule.line)
    × (d.allowed ≡ rule.allow)
    × (((rule.allow ≡ true) × (d.message ≡ []))
        ⊎ (((rule.allow ≡ false) × (rule.message ≢ []) × (d.message ≡ rule.message))
            ⊎ ((rule.allow ≡ false)
                × (rule.message ≡ [])
                × (d.message
                    ≡ codes
                        "This shadNet server doesn't accept your shadPS4 build. Please update shadPS4."))))

module _ (re : Regexes) where
  -- Whether a rule's match hits a version.
  unfoldable pub hits : Match → Text → Text → Bool
  unfolding starts_with
  hits empty text version = version == []
  hits any text version = true
  hits exact text version = version == text
  hits prefix text version = starts_with version text
  hits regex text version = re.has_match text version

  abbrev pub hit_by : ClientVersionRule → Text → Bool
  unfolding hits
  hit_by rule version = hits rule.kind rule.text version

  abbrev pub decided : ℕ → ClientVersionRule → ClientVersionDecision
  decided i rule = record {
    allowed = rule.allow;
    message =
        if rule.allow
        then []
        else if rule.message == []
        then default_client_version_deny_message
        else rule.message;
    rule = some i;
    line = rule.line;
  }

  -- The loop of evaluateClientVersion from an index on.
  unfoldable pub evaluate_from : ℕ → List ClientVersionRule → Text → ClientVersionDecision
  unfolding hits
  evaluate_from i [] version = no_rule
  evaluate_from i (rule ∷ rules) version =
      let later = evaluate_from (suc i) rules version in
      if hit_by rule version then decided i rule else later

  -- evaluateClientVersion
  unfoldable pub evaluate_client_version : List ClientVersionRule → Text → ClientVersionDecision
  unfolding evaluate_from
  evaluate_client_version = evaluate_from 0

  -- No rule of a list hits a version.
  unfoldable pub AllMiss : Text → List ClientVersionRule → Type 0
  unfolding hits
  AllMiss version [] = Unit
  AllMiss version (rule ∷ rules) = (hit_by rule version ≡ false) × AllMiss version rules

  evaluate_from-first :
      (i n : ℕ) (version : Text) (before after : List ClientVersionRule) (rule : ClientVersionRule)
      → AllMiss version before
      → hit_by rule version ≡ true
      → i + length before ≡ n
      → evaluate_from i (before ++ rule ∷ after) version ≡ decided n rule
  unfolding evaluate_from AllMiss hits
  evaluate_from-first i n version [] after rule missed hit e =
      rw hit (ap (λ k. decided k rule) (omega arith))
  evaluate_from-first i n version (r ∷ before) after rule missed hit e =
      rw (missed.0, evaluate_from)
        (evaluate_from-first (suc i) n version before after rule missed.1 hit (omega arith))

  evaluate_from-none :
      (i : ℕ) (version : Text) (rules : List ClientVersionRule)
      → AllMiss version rules
      → evaluate_from i rules version ≡ no_rule
  unfolding evaluate_from AllMiss
  evaluate_from-none i version [] missed = refl
  evaluate_from-none i version (r ∷ rules) missed =
      rw (missed.0, evaluate_from) (evaluate_from-none (suc i) version rules missed.1)

  decided-IsRuledBy : (i : ℕ) (rule : ClientVersionRule) → IsRuledBy rule i (decided i rule)
  unfolding IsRuledBy
  decided-IsRuledBy i rule = (
    refl,
    refl,
    refl,
    elim (Bool-cases rule.allow) [
      | inl y ↦ inl (y, rw y refl)
      | inr n ↦ inr (elim (Bool-cases (text_beq rule.message [])) [
        | inl e ↦ inr (n, (text_eq.beq_iff rule.message []).0 e, rw (n, e) refl)
        | inr m ↦ inl (n, (λ e. cc ((text_eq.beq_iff rule.message []).1 e, m)), rw (n, m) refl)
      ])
    ],
  )

  -- The first rule that hits a version decides, whatever rules follow it: its place and its line are
  -- named, it says whether the version is allowed, and a denial has its message or else the default
  -- one. A version that no rule hits is allowed, with no rule named and no message.
  pub evaluate_client_version_lem :
      (version : Text) (before after : List ClientVersionRule) (rule : ClientVersionRule)
      → AllMiss version before
      → hit_by rule version ≡ true
      → IsRuledBy rule (length before) (evaluate_client_version (before ++ rule ∷ after) version)
        × IsUnruled (evaluate_client_version before version)
  unfolding evaluate_client_version IsUnruled
  evaluate_client_version_lem version before after rule missed hit = (
    subst (IsRuledBy rule (length before))
        (sym (
          evaluate_from-first 0 (length before) version before after rule missed hit (omega arith)))
        (decided-IsRuledBy (length before) rule),
    subst IsUnruled (sym (evaluate_from-none 0 version before missed)) (refl, refl, refl, refl),
  )
