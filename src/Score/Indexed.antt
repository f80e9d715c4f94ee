-- ===== src/Score/Indexed.antt =====
-- The index of a board gives the position of every key, and each step of an insertion keeps that.

use shad_net.Prelude.{
  ℕ, zero, suc, ◌+◌, ◌≤◌, ◌<◌, ◌≡◌, refl, ◌∙◌, ap, sym, subst, Option, none, some, List, [], ◌∷◌,
  ◌++◌, true, arith, ◌⊎◌, if◌then◌else◌, length, length-take, length-drop, length-append, take,
  drop, Option-cases, Bool-cases, inl, inr, take-append-drop, drop-append_left,
}
use shad_net.Prelude.Int.{ℤ, beq_ℤ_iff}
use shad_net.Score.Entry.{ScoreEntry}
use shad_net.Score.Index.{Lookup, index_of, remove_index, index_of-remove_index, same_key}
use shad_net.Score.Table.{ScoreTable, has_key, index_from, reindex, take_out, remove_at}
use shad_net.Score.Position.{
  position, position_of, Distinct, shift_or, position-append, index_of-index_from, position_split,
  position-middle, Distinct-middle,
}
use shad_net.Score.Others.{others, others-absent, others-remove_at}

-- What a board's index promises.
pub record IsIndexed (t : ScoreTable) : Type 0 where
  pub distinct : Distinct t.sorted
  pub indexed : (u c : ℤ) → index_of u c t.lookup ≡ position u c t.sorted

pub position-take-drop :
    (u c : ℤ) (n : ℕ) (zs : List ScoreEntry)
    → n ≤ length zs
    → position u c zs ≡ shift_or (position u c (drop n zs)) n (position u c (take n zs))
position-take-drop u c n zs h =
    ap (position u c) (sym (take-append-drop n zs))
    ∙ position-append u c (take n zs) (drop n zs)
    ∙ ap (λ k. shift_or (position u c (drop n zs)) k (position u c (take n zs)))
        (omega (arith, length-take n zs))

-- Reindexing from n on mends an index that is right wherever the rest of the list does not answer.
pub index_of-reindex :
    (u c : ℤ) (n : ℕ) (zs : List ScoreEntry) (l : Lookup)
    → n ≤ length zs
    → (position u c (drop n zs) ≡ none → index_of u c l ≡ position u c zs)
    → index_of u c (index_from n (drop n zs) l) ≡ position u c zs
index_of-reindex u c n zs l h right =
    index_of-index_from u c n (drop n zs) l ∙ elim (Option-cases (position u c (drop n zs))) [
      | inl e ↦ rw e (right e)
      | inr (j, e) ↦ rw (e) (sym (position-take-drop u c n zs h ∙ rw e))
    ]

-- What stands nowhere from n on stands nowhere from a later place on.
pub position-drop-none :
    (u c : ℤ) (m n : ℕ) (zs : List ScoreEntry)
    → m ≤ n
    → position u c (drop m zs) ≡ none
    → position u c (drop n zs) ≡ none
unfolding position
position-drop-none u c m zero [] h e = refl
position-drop-none u c m (suc n) [] h e = refl
position-drop-none u c zero zero (x ∷ zs) h e = e
position-drop-none u c zero (suc n) (x ∷ zs) h e =
    position-drop-none u c zero n zs (omega arith) (ground arith)
position-drop-none u c (suc m) zero (x ∷ zs) h e = absurd (omega arith)
position-drop-none u c (suc m) (suc n) (x ∷ zs) h e = position-drop-none u c m n zs (omega arith) e

pub key_position :
    (u c : ℤ) (e : ScoreEntry) (xs : List ScoreEntry)
    → has_key u c e ≡ true
    → position_of e xs ≡ position u c xs
key_position u c e xs h =
    let p : e.user_id ≡ u = (beq_ℤ_iff e.user_id u).0 (ground arith) in
    let q : e.character_id ≡ c = (beq_ℤ_iff e.character_id c).0 (ground arith) in rw (p, q)

key_test : (u c w d : ℤ) (e : ScoreEntry) → has_key u c e ≡ true → same_key u c w d ≡ has_key w d e
key_test u c w d e h =
    let p : e.user_id ≡ u = (beq_ℤ_iff e.user_id u).0 (ground arith) in
    let q : e.character_id ≡ c = (beq_ℤ_iff e.character_id c).0 (ground arith) in rw (p, q)

module _ (e : ScoreEntry) (xs ys : List ScoreEntry) (d : Distinct (xs ++ e ∷ ys)) where
  position-removed :
      (u c : ℤ)
      → position u c ys ≡ none
      → (if has_key u c e then none else position u c (xs ++ e ∷ ys)) ≡ position u c (xs ++ ys)
  position-removed u c h =
      let (p, q, r) = Distinct-middle e ys xs d in
      elim (Bool-cases (has_key u c e)) [
        | inl k ↦ rw (k, position-append u c xs ys, h) (sym (sym (key_position u c e xs k) ∙ p))
        | inr k ↦ rw (k, position-middle e ys u c xs, h, k, position-append u c xs ys, h)
      ]

  position_of-removed : position_of e (xs ++ ys) ≡ none
  position_of-removed =
      let (p, q, r) = Distinct-middle e ys xs d in
      rw (position-append e.user_id e.character_id xs ys, q) p

pub length-take_le : (n : ℕ) (zs : List ScoreEntry) → n ≤ length zs → length (take n zs) ≡ n
length-take_le n zs h = omega (arith, length-take n zs)

drop-remove_at :
    (n : ℕ) (zs : List ScoreEntry) → n ≤ length zs → drop n (remove_at n zs) ≡ drop (suc n) zs
drop-remove_at n zs h =
    subst (λ k. drop k (remove_at n zs) ≡ drop (suc n) zs) (length-take_le n zs h)
      (drop-append_left (take n zs) (drop (suc n) zs))

pub length-remove_at :
    (n : ℕ) (zs : List ScoreEntry) → n < length zs → length (remove_at n zs) + 1 ≡ length zs
length-remove_at n zs h =
    omega
      (arith, length-append (take n zs) (drop (suc n) zs), length-take n zs, length-drop (suc n) zs)

-- The entry of a key is taken out.
module _ (u c : ℤ) (t : ScoreTable) (i : ℕ) (v : IsIndexed t)
    (at : position u c t.sorted ≡ some i) where
  pub removed-Distinct : Distinct (remove_at i t.sorted)
  removed-Distinct =
      let (e, s, g, k, l) = position_split u c t.sorted i at in
      (Distinct-middle e (drop (suc i) t.sorted) (take i t.sorted) (subst Distinct s v.distinct)).2

  pub position-remove_at : position u c (remove_at i t.sorted) ≡ none
  position-remove_at =
      let (e, s, g, k, l) = position_split u c t.sorted i at in
      sym (key_position u c e (remove_at i t.sorted) k)
      ∙ position_of-removed e (take i t.sorted) (drop (suc i) t.sorted)
          (subst Distinct s v.distinct)

  pub removed_at :
      (w d : ℤ)
      → position w d (drop (suc i) t.sorted) ≡ none
      → index_of w d (remove_index u c t.lookup) ≡ position w d (remove_at i t.sorted)
  removed_at w d h =
      let (e, s, g, k, l) = position_split u c t.sorted i at in
      index_of-remove_index u c w d t.lookup
      ∙ ap (λ b. if b then none else index_of w d t.lookup) (key_test u c w d e k)
      ∙ ap (λ o. if has_key w d e then none else o) (v.indexed w d ∙ ap (position w d) s)
      ∙ position-removed e (take i t.sorted) (drop (suc i) t.sorted) (subst Distinct s v.distinct) w
          d h

abbrev slot_removed : ℤ → ℤ → ℕ → ScoreTable → ScoreTable
slot_removed u c i t = record t {
  sorted = remove_at i t.sorted;
  lookup = remove_index u c t.lookup;
}

-- Taking a player's entry out and reindexing from its place keeps the index right.
removed-IsIndexed :
    (u c : ℤ) (t : ScoreTable) (i : ℕ)
    → IsIndexed t
    → position u c t.sorted ≡ some i
    → IsIndexed (reindex (slot_removed u c i t) i)
unfolding reindex
removed-IsIndexed u c t i v at =
    let (e, s, g, k, l) = position_split u c t.sorted i at in
    record {
      distinct = removed-Distinct u c t i v at;
      indexed = λ w d.
          index_of-reindex w d i (remove_at i t.sorted) (remove_index u c t.lookup)
            (omega (arith, length-remove_at i t.sorted l))
            (λ h.
              removed_at u c t i v at w d
                (ap (position w d) (sym (drop-remove_at i t.sorted (omega arith))) ∙ h));
    }

-- What InsertScore knows of the board once the player's old entry is out.
pub record IsTakenOut (entry : ScoreEntry) (before : ScoreTable) (r : ScoreTable × Option ℕ)
    : Type 0 where
  pub index : IsIndexed r.0
  pub absent : position_of entry r.0.sorted ≡ none
  pub config : r.0.config ≡ before.config
  pub rest : r.0.sorted ≡ others entry.user_id entry.character_id before.sorted
  pub shape :
      ((r.1 ≡ none) × (r.0.sorted ≡ before.sorted))
      ⊎ ((i : ℕ) × (r.1 ≡ some i)
          × (i < length before.sorted)
          × (r.0.sorted ≡ remove_at i before.sorted))

pub take_out-IsTakenOut :
    (entry : ScoreEntry) (t : ScoreTable) → IsIndexed t → IsTakenOut entry t (take_out entry t)
unfolding take_out
take_out-IsTakenOut entry t v =
    elim (Option-cases (index_of entry.user_id entry.character_id t.lookup)) [
      | inl e ↦
          rw (e, take_out)
            (record {
              index = v;
              absent = sym (v.indexed _ _) ∙ e;
              config = refl;
              rest = sym (
                  others-absent entry.user_id entry.character_id t.sorted
                    (sym (v.indexed _ _) ∙ e));
              shape = inl (refl, refl);
            })
      | inr (i, e) ↦
          let at : position_of entry t.sorted ≡ some i = sym (v.indexed _ _) ∙ e in
          rw (e, take_out)
            (record {
              index = removed-IsIndexed entry.user_id entry.character_id t i v at;
              absent = position-remove_at entry.user_id entry.character_id t i v at;
              config = refl;
              rest = sym (
                  others-remove_at entry.user_id entry.character_id t.sorted i at
                    (position-remove_at entry.user_id entry.character_id t i v at));
              shape = inr (
                i,
                refl,
                (position_split entry.user_id entry.character_id t.sorted i at).4,
                refl,
              );
            })
    ]
