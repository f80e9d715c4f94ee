-- ===== src/Score/Insert.antt =====
-- InsertScore as a whole: the invariant of a board and the rank that is returned.
use shad_net.Prelude.{
  ℕ, ◌+◌, ◌-◌, ◌≤◌, ◌≡◌, ◌%◌, ◌^◌, refl, ◌∙◌, Option, none, true, false, arith, length, Bool-cases,
  inl, inr,
}
use shad_net.Score.Entry.{ScoreEntry, ScoreBoardConfig}
use shad_net.Score.Table.{
  ScoreTable, reindex, take_out, put_in, trim, insert_at, lower_bound, fits, insert_score, place,
}
use shad_net.Score.Position.{position_of}
use shad_net.Score.Indexed.{IsIndexed, IsTakenOut, take_out-IsTakenOut, length-remove_at}
use shad_net.Score.Order.{
  IsOrdered, IsOrdered-remove_at, IsOrdered-insert_at, lower_bound-le-length,
}
use shad_net.Score.Inserted.{put_in-IsIndexed, trim-IsIndexed, trim_cases, length-insert_at}

-- Each player slot stands once, the index is right, the best stand first, and the limit is kept.
pub record IsBoard (mode limit : ℕ) (t : ScoreTable) : Type 0 where
  pub index : IsIndexed t
  pub ordered : IsOrdered mode t.sorted
  pub bounded : length t.sorted ≤ limit

pub put_in-sorted :
    (e : ScoreEntry) (p : ℕ) (r : Option ℕ) (t : ScoreTable)
    → (put_in e p r t).sorted ≡ insert_at p e t.sorted
unfolding put_in
put_in-sorted e p r t = refl

trim-sorted :
    (mode limit : ℕ) (t : ScoreTable)
    → IsOrdered mode t.sorted
    → length t.sorted ≤ limit + 1
    → IsOrdered mode (trim limit t).sorted × (length (trim limit t).sorted ≤ limit)
trim-sorted mode limit t o b =
    trim_cases (λ q. IsOrdered mode q.sorted × (length q.sorted ≤ limit)) limit t (λ h. (o, h))
      λ e big p. (
        IsOrdered-remove_at mode (length t.sorted - 1) t.sorted o,
        omega (arith, length-remove_at (length t.sorted - 1) t.sorted (omega arith)),
      )

pub taken_out-IsBoard :
    (mode limit : ℕ) (e : ScoreEntry) (t : ScoreTable) (r : ScoreTable × Option ℕ)
    → IsBoard mode limit t
    → IsTakenOut e t r
    → IsBoard mode limit r.0
taken_out-IsBoard mode limit e t r v w = elim w.shape [
  | inl (a, s) ↦ record { index = w.index; ordered = rw s v.ordered; bounded = rw s v.bounded }
  | inr (i, a, l, s) ↦ record {
    index = w.index;
    ordered = rw s (IsOrdered-remove_at mode i t.sorted v.ordered);
    bounded = rw s (omega (arith, length-remove_at i t.sorted l, v.bounded));
  }
]

placed-IsBoard :
    (cfg : ScoreBoardConfig) (e : ScoreEntry) (t : ScoreTable) (r : Option ℕ)
    → IsBoard cfg.sort_mode cfg.rank_limit t
    → position_of e t.sorted ≡ none
    → IsBoard cfg.sort_mode cfg.rank_limit
        (trim cfg.rank_limit (put_in e (lower_bound cfg.sort_mode e t.sorted) r t))
placed-IsBoard cfg e t r v absent =
    let p = lower_bound cfg.sort_mode e t.sorted in
    let fit = lower_bound-le-length cfg.sort_mode e t.sorted in
    let s = put_in-sorted e p r t in
    let (o, b) =
      trim-sorted cfg.sort_mode cfg.rank_limit (put_in e p r t)
        (rw s (IsOrdered-insert_at cfg.sort_mode e t.sorted v.ordered))
        (rw s (omega (arith, length-insert_at p e t.sorted fit, v.bounded))) in
    record {
      index =
          trim-IsIndexed cfg.rank_limit (put_in e p r t)
            (put_in-IsIndexed e p r t v.index absent fit);
      ordered = o;
      bounded = b;
    }

place_cases :
    (P : ScoreTable × ℕ → Type 0) (cfg : ScoreBoardConfig) (e : ScoreEntry)
    (r : ScoreTable × Option ℕ)
    → (fits (length r.0.sorted) cfg.rank_limit (lower_bound cfg.sort_mode e r.0.sorted) ≡ true
        → P (
          trim cfg.rank_limit (put_in e (lower_bound cfg.sort_mode e r.0.sorted) r.1 r.0),
          lower_bound cfg.sort_mode e r.0.sorted + 1,
        ))
    → (fits (length r.0.sorted) cfg.rank_limit (lower_bound cfg.sort_mode e r.0.sorted) ≡ false
        → P (r.0, (cfg.rank_limit + 1) % 2 ^ 32))
    → P (place cfg e r)
unfolding place
place_cases P cfg e r placed refused =
    elim (Bool-cases
      (fits (length r.0.sorted) cfg.rank_limit (lower_bound cfg.sort_mode e r.0.sorted))) [
        | inl y ↦ rw (y, place) (placed y)
        | inr n ↦ rw (n, place) (refused n)
      ]

-- The two outcomes of InsertScore, over the board without the player's old entry.
pub insert_score_cases :
    (P : ScoreTable × ℕ → Type 0) (now : ℕ) (cfg : ScoreBoardConfig) (e : ScoreEntry)
    (t : ScoreTable)
    → IsIndexed t
    → ((r : ScoreTable × Option ℕ)
        → IsTakenOut e (record t { last_insert = now }) r
        → fits (length r.0.sorted) cfg.rank_limit (lower_bound cfg.sort_mode e r.0.sorted) ≡ true
        → P (
          trim cfg.rank_limit (put_in e (lower_bound cfg.sort_mode e r.0.sorted) r.1 r.0),
          lower_bound cfg.sort_mode e r.0.sorted + 1,
        ))
    → ((r : ScoreTable × Option ℕ)
        → IsTakenOut e (record t { last_insert = now }) r
        → fits (length r.0.sorted) cfg.rank_limit (lower_bound cfg.sort_mode e r.0.sorted) ≡ false
        → P (r.0, (cfg.rank_limit + 1) % 2 ^ 32))
    → P (insert_score now cfg e t)
unfolding insert_score
insert_score_cases P now cfg e t v placed refused =
    let t' = record t { last_insert = now } in
    let r = take_out e t' in
    let w = take_out-IsTakenOut e t' (record { distinct = v.distinct; indexed = v.indexed }) in
    place_cases P cfg e r (placed r w) (refused r w)

-- Posting a score to a board keeps it right: every player slot stands once, the index gives each
-- its place, the best stand first, and no more than the rank limit stand there.
pub insert_score-IsBoard :
    (now : ℕ) (cfg : ScoreBoardConfig) (e : ScoreEntry) (t : ScoreTable)
    → IsBoard cfg.sort_mode cfg.rank_limit t
    → IsBoard cfg.sort_mode cfg.rank_limit (insert_score now cfg e t).0
insert_score-IsBoard now cfg e t v =
    let v' : IsBoard cfg.sort_mode cfg.rank_limit (record t { last_insert = now }) = record {
      index = record { distinct = v.index.distinct; indexed = v.index.indexed };
      ordered = v.ordered;
      bounded = v.bounded;
    } in
    insert_score_cases (λ q. IsBoard cfg.sort_mode cfg.rank_limit q.0) now cfg e t v.index
      (λ r w y.
        placed-IsBoard cfg e r.0 r.1 (taken_out-IsBoard cfg.sort_mode cfg.rank_limit e _ r v' w)
          w.absent)
      (λ r w n. taken_out-IsBoard cfg.sort_mode cfg.rank_limit e _ r v' w)

trim-config : (limit : ℕ) (t : ScoreTable) → (trim limit t).config ≡ t.config
trim-config limit t = trim_cases (λ q. q.config ≡ t.config) limit t (λ _. refl) (λ x big y. refl)

put_in-config :
    (e : ScoreEntry) (p : ℕ) (r : Option ℕ) (t : ScoreTable) → (put_in e p r t).config ≡ t.config
unfolding put_in reindex
put_in-config e p r t = refl

-- Posting a score does not change the configuration that the board keeps.
pub insert_score-config :
    (now : ℕ) (cfg : ScoreBoardConfig) (e : ScoreEntry) (t : ScoreTable)
    → IsIndexed t
    → (insert_score now cfg e t).0.config ≡ t.config
insert_score-config now cfg e t v =
    insert_score_cases (λ q. q.0.config ≡ t.config) now cfg e t v
      (λ r w y.
        trim-config cfg.rank_limit _
        ∙ put_in-config e (lower_bound cfg.sort_mode e r.0.sorted) r.1 r.0
        ∙ w.config)
      (λ r w n. w.config)
