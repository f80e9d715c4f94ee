-- ===== src/Score/Order.antt =====
-- The order of a board, best first.
use shad_net.Prelude.{
  ltb, ℕ, zero, suc, ◌≤◌, ◌≡◌, List, [], ◌∷◌, Bool, true, false, arith, if◌then◌else◌, length,
  Bool-cases, inl, inr, ◌==◌, ◌!=◌, nat_eq, keep_if,
}
use shad_net.Prelude.Int.{ℤ, ltb_ℤ, beq_ℤ}
use shad_net.Score.Entry.{ScoreEntry, ranks_before}
use shad_net.Score.Table.{remove_at, insert_at, lower_bound}

-- None of the entries ranks before e.
abbrev pub NoneBefore : ℕ → ScoreEntry → List ScoreEntry → Type 0
NoneBefore mode e [] = Unit
NoneBefore mode e (x ∷ xs) = (ranks_before mode x e ≡ false) × NoneBefore mode e xs

-- No entry ranks before one that stands above it.
abbrev pub IsOrdered : ℕ → List ScoreEntry → Type 0
IsOrdered mode [] = Unit
IsOrdered mode (e ∷ es) = NoneBefore mode e es × IsOrdered mode es

ltb_ℤ_asym : (a b : ℤ) → ltb_ℤ a b ≡ true → ltb_ℤ b a ≡ false
ltb_ℤ_asym a b h = ground arith

ranks_before_asym :
    (mode : ℕ) (a b : ScoreEntry) → ranks_before mode a b ≡ true → ranks_before mode b a ≡ false
unfolding ranks_before
ranks_before_asym mode a b h = ground arith

abbrev by_score : ℕ → ℤ → ℤ → Bool
by_score mode s t = if mode == 0 then ltb_ℤ t s else ltb_ℤ s t

-- Three scores, none better than the one that follows it.
by_score_chain :
    (mode : ℕ) (a b c : ℤ)
    → by_score mode a b ≡ false
    → by_score mode b c ≡ false
    → (by_score mode a c ≡ false) × (beq_ℤ a c ≡ true → (beq_ℤ a b ≡ true) × (beq_ℤ b c ≡ true))
by_score_chain mode a b c h k = (ground arith, ground arith)

by_score_self : (mode : ℕ) (a b : ℤ) → beq_ℤ a b ≡ true → by_score mode a b ≡ false
by_score_self mode a b h = ground arith

later_chain :
    (s t u : ℕ) (a b c : ℤ)
    → (if s != t then ltb s t else ltb_ℤ a b) ≡ false
    → (if t != u then ltb t u else ltb_ℤ b c) ≡ false
    → (if s != u then ltb s u else ltb_ℤ a c) ≡ false
later_chain s t u a b c h k = ground arith

abbrev later : ScoreEntry → ScoreEntry → Bool
later a b =
    if a.timestamp != b.timestamp then ltb a.timestamp b.timestamp else ltb_ℤ a.user_id b.user_id

ranks_before_parts :
    (mode : ℕ) (a b : ScoreEntry)
    → ranks_before mode a b ≡ false
    → (by_score mode a.score b.score ≡ false) × (beq_ℤ a.score b.score ≡ true → later a b ≡ false)
unfolding ranks_before
ranks_before_parts mode a b h = elim (Bool-cases (beq_ℤ a.score b.score)) [
  | inl e ↦ (by_score_self mode a.score b.score e, λ _. rw e at h)
  | inr n ↦ (rw n at h, λ e. absurd (cc))
]

ranks_before_of_parts :
    (mode : ℕ) (a b : ScoreEntry)
    → by_score mode a.score b.score ≡ false
    → (beq_ℤ a.score b.score ≡ true → later a b ≡ false)
    → ranks_before mode a b ≡ false
unfolding ranks_before
ranks_before_of_parts mode a b h k = elim (Bool-cases (beq_ℤ a.score b.score)) [
  | inl e ↦ rw e (k e)
  | inr n ↦ rw n h
]

ranks_before_negtrans :
    (mode : ℕ) (a b c : ScoreEntry)
    → ranks_before mode a b ≡ false
    → ranks_before mode b c ≡ false
    → ranks_before mode a c ≡ false
ranks_before_negtrans mode a b c h k =
    let (p, q) = ranks_before_parts mode a b h in
    let (r, s) = ranks_before_parts mode b c k in
    let (u, v) = by_score_chain mode a.score b.score c.score p r in
    ranks_before_of_parts mode a c u λ e.
      later_chain a.timestamp b.timestamp c.timestamp a.user_id b.user_id c.user_id (q (v e).0)
        (s (v e).1)

NoneBefore-remove_at :
    (mode i : ℕ) (e : ScoreEntry) (xs : List ScoreEntry)
    → NoneBefore mode e xs
    → NoneBefore mode e (remove_at i xs)
NoneBefore-remove_at mode zero e [] h = h
NoneBefore-remove_at mode (suc i) e [] h = h
NoneBefore-remove_at mode zero e (x ∷ xs) h = h.1
NoneBefore-remove_at mode (suc i) e (x ∷ xs) h = (h.0, NoneBefore-remove_at mode i e xs h.1)

pub IsOrdered-remove_at :
    (mode i : ℕ) (xs : List ScoreEntry) → IsOrdered mode xs → IsOrdered mode (remove_at i xs)
IsOrdered-remove_at mode zero [] h = h
IsOrdered-remove_at mode (suc i) [] h = h
IsOrdered-remove_at mode zero (x ∷ xs) h = h.1
IsOrdered-remove_at mode (suc i) (x ∷ xs) h =
    (NoneBefore-remove_at mode i x xs h.0, IsOrdered-remove_at mode i xs h.1)

NoneBefore-insert_at :
    (mode i : ℕ) (e x : ScoreEntry) (xs : List ScoreEntry)
    → NoneBefore mode e xs
    → ranks_before mode x e ≡ false
    → NoneBefore mode e (insert_at i x xs)
NoneBefore-insert_at mode zero e x xs h k = (k, h)
NoneBefore-insert_at mode (suc i) e x [] h k = (k, h)
NoneBefore-insert_at mode (suc i) e x (y ∷ xs) h k = (h.0, NoneBefore-insert_at mode i e x xs h.1 k)

NoneBefore-weaken :
    (mode : ℕ) (e x : ScoreEntry) (xs : List ScoreEntry)
    → NoneBefore mode x xs
    → ranks_before mode x e ≡ false
    → NoneBefore mode e xs
NoneBefore-weaken mode e x [] h k = h
NoneBefore-weaken mode e x (y ∷ xs) h k =
    (ranks_before_negtrans mode y x e h.0 k, NoneBefore-weaken mode e x xs h.1 k)

-- An entry put at its lower bound keeps the board ordered.
pub IsOrdered-insert_at :
    (mode : ℕ) (e : ScoreEntry) (xs : List ScoreEntry)
    → IsOrdered mode xs
    → IsOrdered mode (insert_at (lower_bound mode e xs) e xs)
unfolding lower_bound
IsOrdered-insert_at mode e [] h = (tt, tt)
IsOrdered-insert_at mode e (x ∷ xs) h = elim (Bool-cases (ranks_before mode x e)) [
  | inl b ↦ rw (b) (
    NoneBefore-insert_at mode (lower_bound mode e xs) x e xs h.0 (ranks_before_asym mode x e b),
    IsOrdered-insert_at mode e xs h.1,
  )
  | inr n ↦ rw (n) ((n, NoneBefore-weaken mode e x xs h.0 n), h)
]

pub lower_bound-le-length :
    (mode : ℕ) (e : ScoreEntry) (xs : List ScoreEntry) → lower_bound mode e xs ≤ length xs
unfolding lower_bound
lower_bound-le-length mode e [] = omega arith
lower_bound-le-length mode e (x ∷ xs) = ground (arith, lower_bound-le-length mode e xs)

NoneBefore-keep_if :
    (mode : ℕ) (p : ScoreEntry → Bool) (e : ScoreEntry) (xs : List ScoreEntry)
    → NoneBefore mode e xs
    → NoneBefore mode e (keep_if p xs)
NoneBefore-keep_if mode p e [] h = h
NoneBefore-keep_if mode p e (x ∷ xs) h = elim (Bool-cases (p x)) [
  | inl y ↦ rw y (h.0, NoneBefore-keep_if mode p e xs h.1)
  | inr n ↦ rw n (NoneBefore-keep_if mode p e xs h.1)
]

pub IsOrdered-keep_if :
    (mode : ℕ) (p : ScoreEntry → Bool) (xs : List ScoreEntry)
    → IsOrdered mode xs
    → IsOrdered mode (keep_if p xs)
IsOrdered-keep_if mode p [] h = h
IsOrdered-keep_if mode p (x ∷ xs) h = elim (Bool-cases (p x)) [
  | inl y ↦ rw y (NoneBefore-keep_if mode p x xs h.0, IsOrdered-keep_if mode p xs h.1)
  | inr n ↦ rw n (IsOrdered-keep_if mode p xs h.1)
]
