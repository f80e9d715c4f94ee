-- ===== src/Score/Position.antt =====
-- Where a player's entry stands on a board: the meaning of the index.
use shad_net.Prelude.{
  ℕ, suc, ◌+◌, ◌<◌, ◌≡◌, refl, ◌∙◌, ap, Option, none, some, List, [], ◌∷◌, ◌++◌, true, false, arith,
  if◌then◌else◌, length, take, drop, get_elem?, Option-cases, inl, inr,
}
use shad_net.Prelude.Int.{ℤ, beq_ℤ_iff}
use shad_net.Score.Entry.{ScoreEntry}
use shad_net.Score.Index.{Lookup, index_of, set_index, index_of-set_index}
use shad_net.Score.Table.{has_key, index_from}

-- A position found in a later part, moved by the length of the part before; else the other answer.
abbrev pub shift_or : Option ℕ → ℕ → Option ℕ → Option ℕ
shift_or none n other = other
shift_or (some j) n other = some (n + j)

-- The last position of a key.
unfoldable pub position : ℤ → ℤ → List ScoreEntry → Option ℕ
position u c [] = none
position u c (e ∷ es) = shift_or (position u c es) 1 (if has_key u c e then some 0 else none)

abbrev pub position_of : ScoreEntry → List ScoreEntry → Option ℕ
position_of e = position e.user_id e.character_id

-- No key stands twice.
abbrev pub Distinct : List ScoreEntry → Type 0
Distinct [] = Unit
Distinct (e ∷ es) = (position_of e es ≡ none) × Distinct es

pub position-nil : (u c : ℤ) → position u c [] ≡ none
unfolding position
position-nil u c = refl

pub position-append :
    (u c : ℤ) (xs ys : List ScoreEntry)
    → position u c (xs ++ ys) ≡ shift_or (position u c ys) (length xs) (position u c xs)
unfolding position
position-append u c [] ys = ground arith
position-append u c (x ∷ xs) ys = ground (arith, position-append u c xs ys)

-- Reindexing from i on overrides the index with the positions of the entries given.
pub index_of-index_from :
    (u c : ℤ) (i : ℕ) (es : List ScoreEntry) (l : Lookup)
    → index_of u c (index_from i es l) ≡ shift_or (position u c es) i (index_of u c l)
unfolding index_from position
index_of-index_from u c i [] l = refl
index_of-index_from u c i (e ∷ es) l =
    index_of-index_from u c (suc i) es (set_index e.user_id e.character_id i l)
    ∙ ground (arith, index_of-set_index e.user_id e.character_id u c i l)

-- A position found is a place of the list, and the entry there has the key.
pub position_split :
    (u c : ℤ) (es : List ScoreEntry) (i : ℕ)
    → position u c es ≡ some i
    → (e : ScoreEntry) × (es ≡ take i es ++ e ∷ drop (suc i) es)
      × (get_elem? es i ≡ some e)
      × (has_key u c e ≡ true)
      × (i < length es)
unfolding position
position_split u c [] i h = ground arith
position_split u c (x ∷ xs) i h = elim (Option-cases (position u c xs)) [
  | inl e ↦
      let here : (has_key u c x ≡ true) × (i ≡ 0) = (ground arith, ground arith) in
      rw here.1 (x, refl, refl, here.0, omega arith)
  | inr (j, e) ↦
      let (y, s, g, k, l) = position_split u c xs j e in
      let there : i ≡ suc j = ground arith in rw there (y, ap (◌∷◌ x) s, g, k, omega arith)
]

has_key_sym :
    (x e : ScoreEntry) → has_key e.user_id e.character_id x ≡ has_key x.user_id x.character_id e
has_key_sym x e = ground (
  arith,
  beq_ℤ_iff x.user_id e.user_id,
  beq_ℤ_iff e.user_id x.user_id,
  beq_ℤ_iff x.character_id e.character_id,
  beq_ℤ_iff e.character_id x.character_id,
)

-- An entry taken out of the middle, or put there.
module _ (e : ScoreEntry) (ys : List ScoreEntry) where
  pub position-middle :
      (u c : ℤ) (xs : List ScoreEntry)
      → position u c (xs ++ e ∷ ys)
        ≡ shift_or
            (position u c ys)
            (suc (length xs))
            (if has_key u c e then some (length xs) else position u c xs)
  unfolding position
  position-middle u c xs = ground (arith, position-append u c xs (e ∷ ys))

  parts :
      (x : ScoreEntry) (xs : List ScoreEntry)
      → position_of x (xs ++ e ∷ ys) ≡ none
      → (position_of x xs ≡ none)
        × (has_key x.user_id x.character_id e ≡ false)
        × (position_of x (xs ++ ys) ≡ none)
  parts x xs h = (
    ground (arith, position-middle x.user_id x.character_id xs),
    ground (arith, position-middle x.user_id x.character_id xs),
    ground (
      arith,
      position-middle x.user_id x.character_id xs,
      position-append x.user_id x.character_id xs ys,
    ),
  )

  pub Distinct-middle :
      (xs : List ScoreEntry)
      → Distinct (xs ++ e ∷ ys)
      → (position_of e xs ≡ none) × (position_of e ys ≡ none) × Distinct (xs ++ ys)
  unfolding position
  Distinct-middle [] d = (refl, d.0, d.1)
  Distinct-middle (x ∷ xs) d =
      let (p, q, r) = Distinct-middle xs d.1 in
      let (a, b, c) = parts x xs d.0 in (ground (arith, has_key_sym x e), q, (c, r))

  pub Distinct-insert :
      (xs : List ScoreEntry)
      → Distinct (xs ++ ys)
      → position_of e (xs ++ ys) ≡ none
      → Distinct (xs ++ e ∷ ys)
  unfolding position
  Distinct-insert [] d h = (h, d)
  Distinct-insert (x ∷ xs) d h = (
    ground (
      arith,
      position-middle x.user_id x.character_id xs,
      has_key_sym x e,
      position-append x.user_id x.character_id xs ys,
    ),
    Distinct-insert xs d.1 (ground arith),
  )
