-- ===== src/Score/Inserted.antt =====
-- An insertion and the trim keep the index of a board right.
use shad_net.Prelude.{
  ℕ, zero, suc, ◌+◌, ◌-◌, ◌≤◌, ◌<◌, ◌≡◌, refl, ◌∙◌, ap, sym, subst, Option, none, some, List, [],
  ◌∷◌, true, arith, if◌then◌else◌, length, length-take, length-drop, length-append, take, drop,
  get_elem?, Bool-cases, inl, inr, take-append-drop, ltb,
}
use shad_net.Prelude.Int.{ℤ}
use shad_net.Score.Entry.{ScoreEntry}
use shad_net.Score.Index.{index_of, set_index, index_of-set_index, remove_index}
use shad_net.Score.Table.{
  ScoreTable, has_key, reindex, put_in, trim, remove_at, insert_at, reindex_from,
}
use shad_net.Score.Position.{
  position, position-nil, position_of, Distinct, shift_or, position-middle, Distinct-insert,
}
use shad_net.Score.Indexed.{
  IsIndexed, index_of-reindex, position-take-drop, position-drop-none, length-take_le,
  removed-Distinct, removed_at,
}

pub length-insert_at :
    (n : ℕ) (e : ScoreEntry) (zs : List ScoreEntry)
    → n ≤ length zs
    → length (insert_at n e zs) ≡ length zs + 1
length-insert_at n e zs h =
    omega (arith, length-append (take n zs) (e ∷ drop n zs), length-take n zs, length-drop n zs)

drop-insert_at :
    (n : ℕ) (e : ScoreEntry) (zs : List ScoreEntry)
    → n ≤ length zs
    → drop (suc n) (insert_at n e zs) ≡ drop n zs
drop-insert_at zero e zs h = refl
drop-insert_at (suc n) e [] h = absurd (omega arith)
drop-insert_at (suc n) e (x ∷ zs) h = drop-insert_at n e zs (omega arith)

reindex_from-le : (p : ℕ) (r : Option ℕ) → reindex_from p r ≤ suc p
unfolding reindex_from
reindex_from-le p none = omega arith
reindex_from-le p (some i) = ground arith

module _ (e : ScoreEntry) (p : ℕ) (r : Option ℕ) (t : ScoreTable) (v : IsIndexed t)
    (absent : position_of e t.sorted ≡ none) (fit : p ≤ length t.sorted) where
  inserted_at :
      (u c : ℤ)
      → position u c (drop p t.sorted) ≡ none
      → index_of u c (set_index e.user_id e.character_id p t.lookup)
        ≡ position u c (insert_at p e t.sorted)
  inserted_at u c h =
      let before : index_of u c t.lookup ≡ position u c (take p t.sorted) =
        v.indexed u c
        ∙ position-take-drop u c p t.sorted fit
        ∙ ap (λ o. shift_or o p (position u c (take p t.sorted))) h in
      let after : position u c (insert_at p e t.sorted)
          ≡ (if has_key u c e then some p else position u c (take p t.sorted)) =
        position-middle e (drop p t.sorted) u c (take p t.sorted)
        ∙ rw (h, length-take_le p t.sorted fit) refl in
      index_of-set_index e.user_id e.character_id u c p t.lookup
      ∙ ap (λ o. if has_key u c e then some p else o) before
      ∙ sym after

  pub put_in-IsIndexed : IsIndexed (put_in e p r t)
  unfolding put_in reindex
  put_in-IsIndexed = record {
    distinct =
        Distinct-insert e (drop p t.sorted) (take p t.sorted)
          (subst Distinct (sym (take-append-drop p t.sorted)) v.distinct)
          (ap (position_of e) (take-append-drop p t.sorted) ∙ absent);
    indexed = λ u c.
        index_of-reindex u c (reindex_from p r) (insert_at p e t.sorted) _
          (omega (arith, reindex_from-le p r, length-insert_at p e t.sorted fit))
          (λ h. inserted_at u c (
            ap (position u c) (sym (drop-insert_at p e t.sorted fit))
            ∙ position-drop-none u c (reindex_from p r) (suc p) (insert_at p e t.sorted)
                (reindex_from-le p r) h));
  }

has_own_key : (e : ScoreEntry) → has_key e.user_id e.character_id e ≡ true
has_own_key e = ground arith

pub Distinct-at :
    (zs : List ScoreEntry) (i : ℕ) (e : ScoreEntry)
    → Distinct zs
    → get_elem? zs i ≡ some e
    → position_of e zs ≡ some i
unfolding position
Distinct-at [] i e d h = ground arith
Distinct-at (x ∷ zs) zero e d h = ground (arith, has_own_key e)
Distinct-at (x ∷ zs) (suc i) e d h = rw (Distinct-at zs i e d.1 h) (ap some (omega arith))

get_elem?_last :
    (zs : List ScoreEntry)
    → 0 < length zs
    → (e : ScoreEntry) × (get_elem? zs (length zs - 1) ≡ some e)
get_elem?_last [] h = absurd (omega arith)
get_elem?_last (x ∷ []) h = (x, refl)
get_elem?_last (x ∷ y ∷ zs) h =
    let (e, p) = get_elem?_last (y ∷ zs) (omega arith) in
    let q : suc (suc (length zs)) - 1 ≡ suc (suc (length zs) - 1) = omega arith in
    (e, ap (get_elem? (x ∷ y ∷ zs)) q ∙ p)

drop-length : (zs : List ScoreEntry) (n : ℕ) → length zs ≤ n → drop n zs ≡ []
drop-length [] zero h = refl
drop-length [] (suc n) h = refl
drop-length (x ∷ zs) zero h = absurd (omega arith)
drop-length (x ∷ zs) (suc n) h = drop-length zs n (omega arith)

-- What a trim leaves: the board, or the board without its last entry.
pub trim_cases :
    (P : ScoreTable → Type 0) (limit : ℕ) (t : ScoreTable)
    → (length t.sorted ≤ limit → P t)
    → ((e : ScoreEntry)
        → limit < length t.sorted
        → get_elem? t.sorted (length t.sorted - 1) ≡ some e
        → P (record t {
          sorted = remove_at (length t.sorted - 1) t.sorted;
          lookup = remove_index e.user_id e.character_id t.lookup;
        }))
    → P (trim limit t)
unfolding trim
trim_cases P limit t small big = elim (Bool-cases (ltb limit (length t.sorted))) [
  | inl y ↦
      let (e, p) = get_elem?_last t.sorted (ground arith) in
      rw (y, p, trim) (big e (ground arith) p)
  | inr n ↦ rw (n, trim) (small (ground arith))
]

pub trim-IsIndexed : (limit : ℕ) (t : ScoreTable) → IsIndexed t → IsIndexed (trim limit t)
trim-IsIndexed limit t v =
    trim_cases IsIndexed limit t (λ _. v)
      λ e big p.
        let last = length t.sorted - 1 in
        let at = Distinct-at t.sorted last e v.distinct p in
        record {
          distinct = removed-Distinct e.user_id e.character_id t last v at;
          indexed = λ u c. removed_at e.user_id e.character_id t last v at u c (
              ap (position u c) (drop-length t.sorted (suc last) (omega arith)) ∙ position-nil u c);
        }
