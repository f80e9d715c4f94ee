-- ===== src/Scoreboards/Ids.antt =====
-- What a list of board ids gives.
use shad_net.Prelude.{
  ℕ, zero, suc, ◌+◌, ◌-◌, ◌^◌, ◌≤◌, ◌<◌, ◌≡◌, ◌≢◌, refl, subst, ◌||◌, Option, none, some, List, [],
  ◌∷◌, ◌++◌, ◌==◌, nat_eq, ltb, leb, contains, arith, Bool-cases, inl, inr, length, take, drop,
}
use mathlib.Core.Option.{some-injective}
use shad_net.Prelude.Text.{Text, Unicode, codes, text_eq, split, trimmed, index_of, digits, within}
use shad_net.Prelude.Distinct.{IsDistinct, IsDistinct-append}
use shad_net.Scoreboards.{
  BoardIds, boards, bad, add_range, added, add_bounds, unsigned_number, add_split, add_part,
  add_parts, some_boards, parse_board_ids,
}

-- Every id is one of 32 bits.
unfoldable pub AllNarrow : List ℕ → Type 0
AllNarrow [] = Unit
AllNarrow (id ∷ ids) = (id < 2 ^ 32) × AllNarrow ids

AllNarrow-append :
    (ids : List ℕ) (id : ℕ) → AllNarrow ids → id < 2 ^ 32 → AllNarrow (ids ++ id ∷ [])
unfolding AllNarrow
AllNarrow-append [] id v h = (h, tt)
AllNarrow-append (x ∷ ids) id v h = (v.0, AllNarrow-append ids id v.1 h)

-- Ids of 32 bits, none of them twice.
IsIds : List ℕ → Type 0
IsIds ids = IsDistinct ids × AllNarrow ids

add_range-IsIds :
    (n id : ℕ) (ids more : List ℕ)
    → IsIds ids
    → id + n ≤ 2 ^ 32
    → add_range n id ids ≡ some more
    → IsIds more
unfolding add_range IsIds
add_range-IsIds zero id ids more v small h = subst IsIds (some-injective ids more h) v
add_range-IsIds (suc n) id ids more v small h = elim (Bool-cases (contains ids id)) [
  | inl y ↦ absurd (ground (arith, (rw (y, add_range) at h)))
  | inr fresh ↦
      add_range-IsIds n (id + 1) (ids ++ id ∷ []) more
        (IsDistinct-append ids id v.0 fresh, AllNarrow-append ids id v.1 (omega arith))
        (omega arith) (rw (fresh, add_range) at h)
]

-- Ids, if it is no complaint.
HasIds : BoardIds → Type 0
HasIds (boards ids) = IsIds ids
HasIds (bad why) = Unit

added-HasIds :
    (o : Option (List ℕ)) → ((more : List ℕ) → o ≡ some more → IsIds more) → HasIds (added o)
unfolding HasIds
added-HasIds none h = tt
added-HasIds (some more) h = h more refl

add_bounds-HasIds :
    (ids : List ℕ) (first last : Option ℕ)
    → IsIds ids
    → ((n : ℕ) → last ≡ some n → n < 2 ^ 32)
    → HasIds (add_bounds ids first last)
unfolding add_bounds HasIds
add_bounds-HasIds ids none last v h = tt
add_bounds-HasIds ids (some first) none v h = tt
add_bounds-HasIds ids (some first) (some last) v h =
    elim (Bool-cases (ltb last first || leb 10000 (last - first))) [
      | inl y ↦ rw (y, add_bounds, HasIds) tt
      | inr n ↦
          rw (n, add_bounds)
            (added-HasIds (add_range (last - first + 1) first ids) (λ more e.
              let small = h last refl in
              add_range-IsIds (last - first + 1) first ids more v (ground (arith, n)) e))
    ]

within-range : (maximum n : ℕ) (o : Option ℕ) → within maximum o ≡ some n → n ≤ maximum
within-range maximum n none h = absurd (ground (arith, h))
within-range maximum n (some k) h = ground arith

module _ (u : Unicode) where
  unsigned_number-range :
      (text : Text) (maximum n : ℕ) → unsigned_number u text maximum ≡ some n → n ≤ maximum
  unfolding unsigned_number
  unsigned_number-range text maximum n h =
      let t = trimmed u text in
      elim (Bool-cases ((t == []) || ltb 20 (length t))) [
        | inl y ↦ absurd (ground (arith, (rw y at h)))
        | inr z ↦ within-range maximum n (digits 0 t) (rw z at h)
      ]

  add_split-HasIds :
      (ids : List ℕ) (part : Text) (dash : Option ℕ)
      → IsIds ids
      → HasIds (add_split u ids part dash)
  unfolding add_split
  add_split-HasIds ids part none v =
      let id = unsigned_number u part (2 ^ 32 - 1) in
      add_bounds-HasIds ids id id v
        (λ n e. omega (arith, unsigned_number-range part (2 ^ 32 - 1) n e))
  add_split-HasIds ids part (some dash) v =
      add_bounds-HasIds ids (unsigned_number u (take dash part) (2 ^ 32 - 1))
        (unsigned_number u (drop (dash + 1) part) (2 ^ 32 - 1)) v
        (λ n e. omega (arith, unsigned_number-range (drop (dash + 1) part) (2 ^ 32 - 1) n e))

  add_parts-HasIds :
      (done : BoardIds) (parts : List Text) → HasIds done → HasIds (add_parts u done parts)
  unfolding add_parts add_part HasIds
  add_parts-HasIds done [] v = v
  add_parts-HasIds (bad why) (part ∷ parts) v = tt
  add_parts-HasIds (boards ids) (part ∷ parts) v =
      add_parts-HasIds (add_part u ids part) parts
        (add_split-HasIds ids (trimmed u part) (index_of (codes "-") (trimmed u part)) v)

  some_boards-ids :
      (done : BoardIds) (ids : List ℕ)
      → HasIds done
      → some_boards u done ≡ boards ids
      → (ids ≢ []) × IsDistinct ids × AllNarrow ids
  unfolding HasIds IsIds
  some_boards-ids (bad why) ids v h = absurd (ground (arith, h))
  some_boards-ids (boards []) ids v h = absurd (ground (arith, h))
  some_boards-ids (boards (id ∷ rest)) ids v h =
      subst (λ l. (l ≢ []) × IsDistinct l × AllNarrow l) (ground (arith, h))
        ((λ e. absurd (ground (arith, e))), v.0, v.1)

  -- The ids that a list of boards gives are at least one, of 32 bits, and none of them twice, whatever
  -- numbers and ranges it has.
  pub parse_board_ids-ids :
      (text : Text) (ids : List ℕ)
      → parse_board_ids u text ≡ boards ids
      → (ids ≢ []) × IsDistinct ids × AllNarrow ids
  unfolding parse_board_ids HasIds IsIds AllNarrow
  parse_board_ids-ids text ids h =
      some_boards-ids (add_parts u (boards []) (split b',' text)) ids
        (add_parts-HasIds (boards []) (split b',' text) (tt, tt)) h
