-- ===== src/Prelude/Text.antt =====
-- QString: a text as the list of its UTF-16 code units, and the operations of QString that the
-- configuration files are read with.
use Prim.Native.Nat.{ℕ, zero, suc, ◌+◌, ◌-◌, ◌*◌}
use Prim.Native.Char.{code}
use Prim.Native.String.{String}
use mathlib.Core.Path.{◌≡◌}
use mathlib.Core.Logic.{◌↔◌}
use mathlib.Core.Bool.{Bool, true, false, ◌&&◌, ◌||◌}
use mathlib.Core.Option.{Option, none, some}
use mathlib.Core.List.{List, [], ◌∷◌, ◌++◌}
use native.Mathlib.Omega.{arith}
use shad_net.Prelude.Tests.{ltb, leb, if◌then◌else◌, ◌==◌, nat_eq, Eq}

abbrev pub Text : Type 0
Text = List ℕ

-- A literal of the source, which is ASCII.
abbrev pub codes : String → Text
codes String.[] = []
codes (String.◌∷◌ c s) = code c ∷ codes s

-- Qt's tables of characters beyond ASCII: its spaces, its lower-case forms and its case folding.
pub record Unicode : Type 0 where
  pub space : ℕ → Bool
  pub lower : ℕ → Text
  pub folded : ℕ → ℕ

abbrev pub is_upper : ℕ → Bool
is_upper c = leb b'A' c && leb c b'Z'

unfoldable pub text_beq : Text → Text → Bool
text_beq [] [] = true
text_beq [] (d ∷ t) = false
text_beq (c ∷ s) [] = false
text_beq (c ∷ s) (d ∷ t) = (c == d) && text_beq s t

pub text_beq_iff : (s t : Text) → (text_beq s t ≡ true) ↔ (s ≡ t)
unfolding text_beq
text_beq_iff [] [] = ground arith
text_beq_iff [] (d ∷ t) = ground arith
text_beq_iff (c ∷ s) [] = ground arith
text_beq_iff (c ∷ s) (d ∷ t) = ground (arith, text_beq_iff s t)

instance abbrev pub text_eq : Eq Text
text_eq = record { beq = text_beq; beq_iff = text_beq_iff }

-- QString::startsWith, of a text and what it may start with
unfoldable pub starts_with : Text → Text → Bool
starts_with s [] = true
starts_with [] (d ∷ t) = false
starts_with (c ∷ s) (d ∷ t) = (c == d) && starts_with s t

-- QString::indexOf: the first place in a text where another stands
unfoldable pub index_of : Text → Text → Option ℕ
unfolding starts_with
index_of t [] = if starts_with [] t then some 0 else none
index_of t (c ∷ s) =
    let later = index_of t s in
    if starts_with (c ∷ s) t then some 0 else elim later [ none ↦ none | some i ↦ some (suc i) ]

abbrev first_part : ℕ → List Text → List Text
first_part c [] = (c ∷ []) ∷ []
first_part c (part ∷ parts) = (c ∷ part) ∷ parts

-- QString::split at a code unit; there is one part more than there are such units.
unfoldable pub split : ℕ → Text → List Text
split sep [] = [] ∷ []
split sep (c ∷ s) = let rest = split sep s in if c == sep then [] ∷ rest else first_part c rest

-- QStringList::join with a code unit
unfoldable pub join : ℕ → List Text → Text
join sep [] = []
join sep (part ∷ []) = part
join sep (part ∷ next ∷ parts) = part ++ sep ∷ join sep (next ∷ parts)

-- The n-th part that is not empty: QString::section with SectionSkipEmpty
unfoldable pub nth_part : ℕ → List Text → Text
nth_part n [] = []
nth_part n ([] ∷ parts) = nth_part n parts
nth_part zero ((c ∷ s) ∷ parts) = c ∷ s
nth_part (suc n) ((c ∷ s) ∷ parts) = nth_part n parts

-- The value of a text of digits, read on from a number; none for another character.
unfoldable pub digits : ℕ → Text → Option ℕ
digits n [] = some n
digits n (c ∷ s) =
    let rest = digits (n * 10 + (c - b'0')) s in if ltb c b'0' || ltb b'9' c then none else rest

abbrev pub within : ℕ → Option ℕ → Option ℕ
within maximum none = none
within maximum (some n) = if ltb maximum n then none else some n

module _ (u : Unicode) where
  -- QChar::isSpace
  unfoldable pub is_space : ℕ → Bool
  is_space c = if ltb c 128 then (c == 32) || (leb 9 c && leb c 13) else u.space c

  -- QString::toLower
  unfoldable pub to_lower : Text → Text
  to_lower [] = []
  to_lower (c ∷ s) =
      let rest = to_lower s in
      if ltb c 128 then (if is_upper c then c + 32 else c) ∷ rest else u.lower c ++ rest

  unfoldable pub fold_case : Text → Text
  fold_case [] = []
  fold_case (c ∷ s) =
      (if ltb c 128 then if is_upper c then c + 32 else c else u.folded c) ∷ fold_case s

  -- QString::compare with Qt::CaseInsensitive is 0
  unfoldable pub same_letters : Text → Text → Bool
  unfolding fold_case
  same_letters s t = fold_case s == fold_case t

  -- QString::indexOf with Qt::CaseInsensitive, in what follows a place
  unfoldable pub find_letters : Text → Text → Option ℕ
  unfolding index_of fold_case
  find_letters t s = index_of (fold_case t) (fold_case s)

  unfoldable pub trim_start : Text → Text
  unfolding is_space
  trim_start [] = []
  trim_start (c ∷ s) = if is_space c then trim_start s else c ∷ s

  unfoldable pub keep_unless_blank : ℕ → Text → Text
  unfolding is_space
  keep_unless_blank c [] = if is_space c then [] else c ∷ []
  keep_unless_blank c (d ∷ s) = c ∷ d ∷ s

  unfoldable pub trim_end : Text → Text
  unfolding keep_unless_blank
  trim_end [] = []
  trim_end (c ∷ s) = keep_unless_blank c (trim_end s)

  -- QString::trimmed
  unfoldable pub trimmed : Text → Text
  unfolding trim_start trim_end
  trimmed s = trim_end (trim_start s)
