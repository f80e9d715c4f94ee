-- ===== src/Score/Others.antt =====
-- The entries of a board that are not a player slot's.
use shad_net.Prelude.{
  ℕ, suc, ◌≡◌, refl, ap, subst, none, some, List, [], ◌∷◌, arith, keep_if, not, Option-cases,
  Bool-cases, inl, inr,
}
use shad_net.Prelude.Int.{ℤ}
use shad_net.Score.Entry.{ScoreEntry}
use shad_net.Score.Table.{has_key, remove_at}
use shad_net.Score.Position.{position}

-- The entries of the other player slots.
abbrev pub others : ℤ → ℤ → List ScoreEntry → List ScoreEntry
others u c zs = keep_if (λ e. not (has_key u c e)) zs

pub others-absent : (u c : ℤ) (zs : List ScoreEntry) → position u c zs ≡ none → others u c zs ≡ zs
unfolding position
others-absent u c [] h = refl
others-absent u c (x ∷ zs) h = elim (Option-cases (position u c zs)) [
  | inl n ↦ elim (Bool-cases (has_key u c x)) [
    | inl y ↦ absurd (cc (rw (n, y, position) at h))
    | inr z ↦ rw z (ap (λ l. x ∷ l) (others-absent u c zs n))
  ]
  | inr (j, y) ↦ absurd (cc (rw (y, position) at h))
]

-- Removing the one entry of a slot leaves the others.
pub others-remove_at :
    (u c : ℤ) (zs : List ScoreEntry) (i : ℕ)
    → position u c zs ≡ some i
    → position u c (remove_at i zs) ≡ none
    → others u c zs ≡ remove_at i zs
unfolding position
others-remove_at u c [] i h k = absurd (cc)
others-remove_at u c (x ∷ zs) i h k = elim (Option-cases (position u c zs)) [
  | inl n ↦ elim (Bool-cases (has_key u c x)) [
    | inl y ↦
        let first : i ≡ 0 = ground (arith, (rw (n, y, position) at h)) in
        rw (y, first) (others-absent u c zs n)
    | inr z ↦ absurd (cc (rw (n, z, position) at h))
  ]
  | inr (j, y) ↦
      let later : i ≡ suc j = ground (arith, (rw (y, position) at h)) in
      let gone : position u c (x ∷ remove_at j zs) ≡ none =
        subst (λ n. position u c (remove_at n (x ∷ zs)) ≡ none) later k in
      elim (Option-cases (position u c (remove_at j zs))) [
        | inr (q, e) ↦ absurd (cc (rw (e, position) at gone))
        | inl n ↦ elim (Bool-cases (has_key u c x)) [
          | inl t ↦ absurd (cc (rw (n, t, position) at gone))
          | inr z ↦ rw (z, later) (ap (λ l. x ∷ l) (others-remove_at u c zs j y n))
        ]
      ]
]
