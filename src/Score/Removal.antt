-- ===== src/Score/Removal.antt =====
-- Loading a board, and taking a player or one score off it.
use shad_net.Prelude.{
  ℕ, ◌+◌, ◌≤◌, ◌<◌, ◌≡◌, refl, ◌∙◌, ap, sym, Option, none, some, List, [], ◌∷◌, Bool, true, false,
  arith, length, length-keep_if, keep_if, not, Option-cases, Bool-cases, inl, inr, is_some, ◌==◌,
  nat_eq, beq_self,
}
use shad_net.Prelude.Int.{ℤ, int_eq}
use shad_net.Prelude.Assoc.{find}
use shad_net.Score.Entry.{ScoreEntry, ScoreBoardConfig}
use shad_net.Score.Index.{index_of}
use shad_net.Score.Table.{
  ScoreTable, has_key, index_from, load_table, remove_user, remove_entry, rebuilt,
}
use shad_net.Score.Position.{position, Distinct, shift_or, index_of-index_from}
use shad_net.Score.Order.{IsOrdered, IsOrdered-keep_if}
use shad_net.Score.Insert.{IsBoard}

index_of-fresh :
    (u c : ℤ) (es : List ScoreEntry) → index_of u c (index_from 0 es []) ≡ position u c es
unfolding index_of find
index_of-fresh u c es = index_of-index_from u c 0 es [] ∙ shift_zero (position u c es)
  where
    shift_zero : (o : Option ℕ) → shift_or o 0 none ≡ o
    shift_zero none = refl
    shift_zero (some j) = ap some (omega arith)

-- Loading the rows of the database onto a board makes it right, if the rows have each player slot
-- once, stand best first, and are no more than the limit.
pub load_table-IsBoard :
    (now : ℕ) (cfg : ScoreBoardConfig) (entries : List ScoreEntry) (t : ScoreTable)
    → Distinct entries
    → IsOrdered cfg.sort_mode entries
    → length entries ≤ cfg.rank_limit
    → IsBoard cfg.sort_mode cfg.rank_limit (load_table now cfg entries t)
unfolding load_table
load_table-IsBoard now cfg entries t d o b = record {
  index = record { distinct = d; indexed = λ u c. index_of-fresh u c entries };
  ordered = o;
  bounded = b;
}

position-keep_if :
    (u c : ℤ) (p : ScoreEntry → Bool) (xs : List ScoreEntry)
    → position u c xs ≡ none
    → position u c (keep_if p xs) ≡ none
unfolding position
position-keep_if u c p [] h = refl
position-keep_if u c p (x ∷ xs) h = ground (arith, position-keep_if u c p xs)

Distinct-keep_if :
    (p : ScoreEntry → Bool) (xs : List ScoreEntry) → Distinct xs → Distinct (keep_if p xs)
Distinct-keep_if p [] d = d
Distinct-keep_if p (x ∷ xs) d = elim (Bool-cases (p x)) [
  | inl y ↦ rw y (position-keep_if x.user_id x.character_id p xs d.0, Distinct-keep_if p xs d.1)
  | inr n ↦ rw n (Distinct-keep_if p xs d.1)
]

rebuilt-IsBoard :
    (mode limit : ℕ) (p : ScoreEntry → Bool) (t : ScoreTable)
    → IsBoard mode limit t
    → IsBoard mode limit (rebuilt (keep_if p t.sorted) t)
rebuilt-IsBoard mode limit p t v = record {
  index = record {
    distinct = Distinct-keep_if p t.sorted v.index.distinct;
    indexed = λ u c. index_of-fresh u c (keep_if p t.sorted);
  };
  ordered = IsOrdered-keep_if mode p t.sorted v.ordered;
  bounded = omega (arith, length-keep_if p t.sorted, v.bounded);
}

abbrev of_others : ℤ → ScoreEntry → Bool
of_others u e = not (e.user_id == u)

tail_absent :
    (u : ℤ) (x : ScoreEntry) (xs : List ScoreEntry)
    → ((c : ℤ) → position u c (x ∷ xs) ≡ none)
    → (c : ℤ) → position u c xs ≡ none
unfolding position
tail_absent u x xs h c = ground (arith, h c)

-- A user with no entry: nothing is filtered.
keep_if_absent :
    (u : ℤ) (xs : List ScoreEntry)
    → ((c : ℤ) → position u c xs ≡ none)
    → keep_if (of_others u) xs ≡ xs
unfolding position
keep_if_absent u [] h = refl
keep_if_absent u (x ∷ xs) h =
    ground (arith, h x.character_id, keep_if_absent u xs (tail_absent u x xs h))

position-of_others :
    (u c : ℤ) (xs : List ScoreEntry) → position u c (keep_if (of_others u) xs) ≡ none
unfolding position
position-of_others u c [] = refl
position-of_others u c (x ∷ xs) = ground (arith, position-of_others u c xs)

not_known :
    (mode limit : ℕ) (u : ℤ) (t : ScoreTable)
    → IsBoard mode limit t
    → is_some (find u t.lookup) ≡ false
    → (c : ℤ) → position u c t.sorted ≡ none
unfolding index_of
not_known mode limit u t v n c = ground (arith, v.index.indexed u c)

-- Removing a user from a right board leaves it right, with exactly the entries of the other users,
-- in their order, and none of the user's; the count is the number of entries that went.
pub remove_user_lem :
    (mode limit : ℕ) (u : ℤ) (t : ScoreTable)
    → IsBoard mode limit t
    → IsBoard mode limit (remove_user u t).0
      × ((remove_user u t).0.sorted ≡ keep_if (λ e. not (e.user_id == u)) t.sorted)
      × ((c : ℤ) → index_of u c (remove_user u t).0.lookup ≡ none)
      × ((remove_user u t).1 + length (remove_user u t).0.sorted ≡ length t.sorted)
unfolding remove_user
remove_user_lem mode limit u t v = elim (Bool-cases (is_some (find u t.lookup))) [
  | inl y ↦ rw y (
    rebuilt-IsBoard mode limit (of_others u) t v,
    refl,
    λ c. index_of-fresh u c (keep_if (of_others u) t.sorted) ∙ position-of_others u c t.sorted,
    omega (arith, length-keep_if (of_others u) t.sorted),
  )
  | inr n ↦
      let gone = not_known mode limit u t v n in
      rw n (v, sym (keep_if_absent u t.sorted gone), λ c. v.index.indexed u c ∙ gone c, omega arith)
]

keep_if_one :
    (u c : ℤ) (xs : List ScoreEntry)
    → position u c xs ≡ none
    → keep_if (λ e. not (has_key u c e)) xs ≡ xs
unfolding position
keep_if_one u c [] h = refl
keep_if_one u c (x ∷ xs) h = ground (arith, keep_if_one u c xs)

keep_if_shorter :
    (u c : ℤ) (xs : List ScoreEntry) (i : ℕ)
    → position u c xs ≡ some i
    → length (keep_if (λ e. not (has_key u c e)) xs) < length xs
unfolding position
keep_if_shorter u c [] i h = ground arith
keep_if_shorter u c (x ∷ xs) i h = elim (Option-cases (position u c xs)) [
  | inl e ↦ ground (arith, length-keep_if (λ e. not (has_key u c e)) xs)
  | inr (j, e) ↦ ground (arith, keep_if_shorter u c xs j e)
]

position_of_rest :
    (u c : ℤ) (xs : List ScoreEntry) → position u c (keep_if (λ e. not (has_key u c e)) xs) ≡ none
unfolding position
position_of_rest u c [] = refl
position_of_rest u c (x ∷ xs) = ground (arith, position_of_rest u c xs)

-- Removing one score from a right board leaves it right, with exactly the entries of the other
-- player slots, in their order; the slot then has no index, and the answer is whether it had one.
pub remove_entry_lem :
    (mode limit : ℕ) (u c : ℤ) (t : ScoreTable)
    → IsBoard mode limit t
    → IsBoard mode limit (remove_entry u c t).0
      × ((remove_entry u c t).0.sorted ≡ keep_if (λ e. not (has_key u c e)) t.sorted)
      × (index_of u c (remove_entry u c t).0.lookup ≡ none)
      × ((remove_entry u c t).1 ≡ is_some (index_of u c t.lookup))
unfolding remove_entry
remove_entry_lem mode limit u c t v = elim (Option-cases (position u c t.sorted)) [
  | inl e ↦
      let k = keep_if_one u c t.sorted e in
      let same : (length (keep_if (λ e. not (has_key u c e)) t.sorted) == length t.sorted) ≡ true =
        rw k (beq_self (length t.sorted)) in
      rw (same, k)
        (
          record {
            index = record { distinct = v.index.distinct; indexed = v.index.indexed };
            ordered = v.ordered;
            bounded = v.bounded;
          },
          refl,
          v.index.indexed u c ∙ e,
          sym (ap is_some (v.index.indexed u c ∙ e)),
        )
  | inr (i, e) ↦
      let fewer = keep_if_shorter u c t.sorted i e in
      let other : (length (keep_if (λ e. not (has_key u c e)) t.sorted) == length t.sorted)
          ≡ false =
        ground arith in
      rw other (
        rebuilt-IsBoard mode limit (λ e. not (has_key u c e)) t v,
        refl,
        index_of-fresh u c _ ∙ position_of_rest u c t.sorted,
        sym (ap is_some (v.index.indexed u c ∙ e)),
      )
]
