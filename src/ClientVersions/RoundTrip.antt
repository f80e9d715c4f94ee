-- ===== src/ClientVersions/RoundTrip.antt =====
-- The line of a rule is read back as the rule.

use shad_net.Prelude.{
  ℕ, suc, ◌+◌, ◌≡◌, ◌∙◌, refl, ap, sym, Bool, true, false, none, some, [], ◌∷◌, ◌++◌, if◌then◌else◌,
  ◌==◌, ◌!=◌, arith, Bool-cases, inl, inr, length, take, drop, take-append_left, nat_eq,
}
use shad_net.Prelude.Text.{
  Text, Unicode, codes, text_eq, text_beq, trimmed, trim_start, trim_end, keep_unless_blank,
  is_space, starts_with, index_of, split, nth_part, to_lower, same_letters, find_letters, fold_case,
}
use shad_net.ClientVersions.{
  ClientVersionRule, Match, empty, any, exact, prefix, regex, client_version_match_name, separator,
  Regexes, Parsed, validate_client_version_rule, takes_text, action_named, match_named, argument,
  argument_start, halves, parse_rule, ruled, accepted,
}
use shad_net.ClientVersions.Lines.{rule_head, client_version_rule_line, action_word}

module _ (u : Unicode) where
  trimmed_on :
      (c : ℕ) (s : Text)
      → trim_end u s ≡ s
      → trim_end u (keep_unless_blank u c s) ≡ keep_unless_blank u c s
  unfolding trim_end keep_unless_blank
  trimmed_on c [] h = elim (Bool-cases (is_space u c)) [
    | inl y ↦ rw (y, trim_end) refl
    | inr n ↦ rw (n, trim_end, n) refl
  ]
  trimmed_on c (d ∷ s) h = rw (h, trim_end) refl

  trim_end_idem : (s : Text) → trim_end u (trim_end u s) ≡ trim_end u s
  unfolding trim_end
  trim_end_idem [] = refl
  trim_end_idem (c ∷ s) = trimmed_on c (trim_end u s) (trim_end_idem s)

  -- A text that ends in a character other than a space stays so behind any other text.
  trim_end-append :
      (s : Text) (c : ℕ) (t : Text)
      → trim_end u (c ∷ t) ≡ c ∷ t
      → trim_end u (s ++ c ∷ t) ≡ s ++ c ∷ t
  unfolding trim_end keep_unless_blank
  trim_end-append [] c t h = h
  trim_end-append (d ∷ []) c t h = rw h refl
  trim_end-append (d ∷ e ∷ s) c t h = rw (trim_end-append (e ∷ s) c t h) refl

  trim_end-trimmed : (s : Text) → trimmed u s ≡ s → trim_end u s ≡ s
  unfolding trimmed
  trim_end-trimmed s h = ap (trim_end u) (sym h) ∙ trim_end_idem (trim_start u s) ∙ h

  head_words :
      (allow : Bool) (kind : Match) (text : Text)
      → takes_text kind ≡ (text != [])
      → trimmed u text ≡ text
      → let head =
          rule_head (record {
            allow = allow;
            kind = kind;
            text = text;
            message = [];
            note = [];
            line = 0;
          }) in
        let action = nth_part 0 (split 32 head) in
        let word = to_lower u (nth_part 1 (split 32 head)) in
        (action_named u action ≡ some allow)
        × (match_named word ≡ some kind)
        × (argument u head action word ≡ text)
  unfolding rule_head split nth_part to_lower action_named match_named argument argument_start
      trimmed trim_start index_of starts_with find_letters fold_case same_letters
      client_version_match_name text_beq
  head_words true empty [] v h = (refl, refl, refl)
  head_words true empty (c ∷ s) v h = absurd (ground arith)
  head_words true any [] v h = (refl, refl, refl)
  head_words true any (c ∷ s) v h = absurd (ground arith)
  head_words true exact [] v h = absurd (ground arith)
  head_words true exact (c ∷ s) v h = (refl, refl, h)
  head_words true prefix [] v h = absurd (ground arith)
  head_words true prefix (c ∷ s) v h = (refl, refl, h)
  head_words true regex [] v h = absurd (ground arith)
  head_words true regex (c ∷ s) v h = (refl, refl, h)
  head_words false empty [] v h = (refl, refl, refl)
  head_words false empty (c ∷ s) v h = absurd (ground arith)
  head_words false any [] v h = (refl, refl, refl)
  head_words false any (c ∷ s) v h = absurd (ground arith)
  head_words false exact [] v h = absurd (ground arith)
  head_words false exact (c ∷ s) v h = (refl, refl, h)
  head_words false prefix [] v h = absurd (ground arith)
  head_words false prefix (c ∷ s) v h = (refl, refl, h)
  head_words false regex [] v h = absurd (ground arith)
  head_words false regex (c ∷ s) v h = (refl, refl, h)

-- The separator stands in a text only as it stands in its part that ends with the separator's start.
starts_with-cut :
    (c : ℕ) (head rest : Text)
    → starts_with (c ∷ head ++ (separator ++ rest)) separator
      ≡ starts_with (c ∷ head ++ codes " |") separator
unfolding starts_with
starts_with-cut c [] rest = refl
starts_with-cut c (d ∷ []) rest = refl
starts_with-cut c (d ∷ e ∷ head) rest = refl

index_of-none :
    (t : Text) (c : ℕ) (s : Text)
    → index_of t (c ∷ s) ≡ none
    → (starts_with (c ∷ s) t ≡ false) × (index_of t s ≡ none)
unfolding index_of
index_of-none t c s h = (ground arith, ground arith)

index_of-miss :
    (t : Text) (c : ℕ) (s : Text)
    → starts_with (c ∷ s) t ≡ false
    → index_of t (c ∷ s) ≡ (elim (index_of t s) [ none ↦ none | some i ↦ some (suc i) ])
unfolding index_of
index_of-miss t c s h = rw h refl

index_of-separator :
    (head rest : Text)
    → index_of separator (head ++ codes " |") ≡ none
    → index_of separator (head ++ (separator ++ rest)) ≡ some (length head)
unfolding index_of starts_with
index_of-separator [] rest h = refl
index_of-separator (c ∷ head) rest h =
    let (missed, later) = index_of-none separator c (head ++ codes " |") h in
    index_of-miss separator c (head ++ (separator ++ rest)) (starts_with-cut c head rest ∙ missed)
    ∙ rw (index_of-separator head rest later) refl

starts_with-short :
    (c : ℕ) (head : Text)
    → starts_with (c ∷ head ++ codes " |") separator ≡ false
    → starts_with (c ∷ head) separator ≡ false
unfolding starts_with
starts_with-short c [] h = ground arith
starts_with-short c (d ∷ []) h = ground arith
starts_with-short c (d ∷ e ∷ head) h = h

index_of-short :
    (head : Text) → index_of separator (head ++ codes " |") ≡ none → index_of separator head ≡ none
unfolding index_of starts_with
index_of-short [] h = refl
index_of-short (c ∷ head) h =
    let (missed, later) = index_of-none separator c (head ++ codes " |") h in
    index_of-miss separator c head (starts_with-short c head missed)
    ∙ rw (index_of-short head later) refl

drop-separator : (head rest : Text) → drop (length head + 3) (head ++ (separator ++ rest)) ≡ rest
drop-separator [] rest = refl
drop-separator (c ∷ head) rest =
    let next : length (c ∷ head) + 3 ≡ suc (length head + 3) = omega arith in
    ap (λ n. drop n (c ∷ head ++ (separator ++ rest))) next ∙ drop-separator head rest

module _ (u : Unicode) (re : Regexes) where
  -- What the validation says of a rule's text.
  validated :
      (rule : ClientVersionRule)
      → validate_client_version_rule u re rule ≡ none
      → (takes_text rule.kind ≡ (rule.text != [])) × (trimmed u rule.text ≡ rule.text)
  unfolding validate_client_version_rule
  validated rule h =
      let same : trimmed u rule.text ≡ rule.text =
        sym ((text_eq.beq_iff rule.text (trimmed u rule.text)).0 (ground arith)) in
      (ground (arith, ap (λ t. t == []) same), same)

  -- A line that ends with its match ends in a letter.
  bare_head : (allow : Bool) (kind : Match) → Text
  unfolding client_version_match_name
  bare_head allow kind = action_word allow ++ client_version_match_name kind

  trimmed-bare_head :
      (allow : Bool) (kind : Match)
      → trimmed u (bare_head allow kind ++ []) ≡ bare_head allow kind ++ []
  unfolding trimmed trim_start trim_end keep_unless_blank bare_head client_version_match_name
  trimmed-bare_head true empty = refl
  trimmed-bare_head true any = refl
  trimmed-bare_head true exact = refl
  trimmed-bare_head true prefix = refl
  trimmed-bare_head true regex = refl
  trimmed-bare_head false empty = refl
  trimmed-bare_head false any = refl
  trimmed-bare_head false exact = refl
  trimmed-bare_head false prefix = refl
  trimmed-bare_head false regex = refl

  trim_start-bare_head :
      (allow : Bool) (kind : Match) (s : Text)
      → trim_start u (bare_head allow kind ++ s) ≡ bare_head allow kind ++ s
  unfolding trim_start bare_head
  trim_start-bare_head true kind s = refl
  trim_start-bare_head false kind s = refl

  trimmed-parts :
      (allow : Bool) (kind : Match) (text : Text)
      → trimmed u text ≡ text
      → let head = bare_head allow kind ++ (if text == [] then [] else 32 ∷ text) in
        trimmed u head ≡ head
  unfolding text_beq trimmed
  trimmed-parts allow kind [] h = trimmed-bare_head allow kind
  trimmed-parts allow kind (c ∷ s) h =
      let bare = bare_head allow kind in
      ap (trim_end u) (trim_start-bare_head allow kind (32 ∷ c ∷ s))
      ∙ trim_end-append u bare 32 (c ∷ s)
          (trim_end-append u (32 ∷ []) c s (trim_end-trimmed u (c ∷ s) h))

  trimmed-head :
      (rule : ClientVersionRule)
      → trimmed u rule.text ≡ rule.text
      → trimmed u (rule_head rule) ≡ rule_head rule
  unfolding rule_head bare_head
  trimmed-head rule h = trimmed-parts rule.allow rule.kind rule.text h

  halves-whole : (s : Text) → index_of separator s ≡ none → halves u s ≡ (s, [])
  unfolding halves
  halves-whole s h = rw (h, halves) refl

  halves-cut :
      (s : Text) (i : ℕ)
      → index_of separator s ≡ some i
      → halves u s ≡ (trimmed u (take i s), trimmed u (drop (i + 3) s))
  unfolding halves
  halves-cut s i h = rw (h, halves) refl

  halves-line :
      (rule : ClientVersionRule)
      → trimmed u rule.text ≡ rule.text
      → trimmed u rule.message ≡ rule.message
      → index_of separator (rule_head rule ++ codes " |") ≡ none
      → halves u (client_version_rule_line u rule) ≡ (rule_head rule, rule.message)
  unfolding client_version_rule_line
  halves-line rule text message clear =
      let head = rule_head rule in
      rw message (elim (Bool-cases (rule.message == [])) [
        | inl y ↦ rw y (
            halves-whole head (index_of-short head clear)
            ∙ ap (λ m. (head, m)) (sym ((text_eq.beq_iff rule.message []).0 y)))
        | inr n ↦ rw n (
            halves-cut (head ++ (separator ++ rule.message)) (length head)
              (index_of-separator head rule.message clear)
            ∙ rw
                (
                  take-append_left head (separator ++ rule.message),
                  drop-separator head rule.message,
                  trimmed-head rule text,
                  message,
                )
                refl)
      ])

  -- What parse_rule makes of a head and a message.
  parsed : ClientVersionRule → Text × Text → Parsed
  unfolding ruled split nth_part to_lower argument action_named match_named
  parsed rule (head, message) =
      let action = nth_part 0 (split 32 head) in
      let word = to_lower u (nth_part 1 (split 32 head)) in
      ruled u re (argument u head action word) message rule.note rule.line (action_named u action)
        (match_named word)

  parsed-head :
      (rule : ClientVersionRule)
      → validate_client_version_rule u re rule ≡ none
      → parsed rule (rule_head rule, rule.message) ≡ accepted rule
  unfolding parsed ruled text_beq rule_head
  parsed-head rule valid =
      let (fits, text) = validated rule valid in
      let (action, kind, arg) = head_words u rule.allow rule.kind rule.text fits text in
      rw (action, kind, arg, parsed, ruled, valid) refl

  -- A rule that passes the validation and whose message has no space at its ends is read back from its
  -- line as it was, if the separator's start after the head of the line begins its first occurrence,
  -- which validateClientVersionRule does not check of a text that begins or ends with a bar.
  pub parse_rule-rule_line :
      (rule : ClientVersionRule)
      → validate_client_version_rule u re rule ≡ none
      → trimmed u rule.message ≡ rule.message
      → index_of separator (rule_head rule ++ codes " |") ≡ none
      → parse_rule u re rule.note rule.line (client_version_rule_line u rule) ≡ accepted rule
  unfolding parse_rule parsed
  parse_rule-rule_line rule valid message clear =
      ap (parsed rule) (halves-line rule (validated rule valid).1 message clear)
      ∙ parsed-head rule valid
