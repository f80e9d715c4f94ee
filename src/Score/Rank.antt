-- ===== src/Score/Rank.antt =====
-- The rank that InsertScore returns.
use shad_net.Prelude.{
  ℕ, zero, suc, ◌+◌, ◌-◌, ◌≤◌, ◌<◌, ◌≡◌, ◌%◌, ◌^◌, ◌⊎◌, refl, ◌∙◌, ap, sym, Option, none, some,
  List, [], ◌∷◌, true, false, arith, length, get_elem?, take, inl, inr,
}
use shad_net.Score.Entry.{ScoreEntry, ScoreBoardConfig}
use shad_net.Score.Table.{
  ScoreTable, put_in, trim, remove_at, insert_at, lower_bound, fits, insert_score,
}
use shad_net.Score.Position.{position_of}
use shad_net.Score.Indexed.{length-remove_at}
use shad_net.Score.Others.{others}
use shad_net.Score.Order.{lower_bound-le-length}
use shad_net.Score.Inserted.{trim_cases, length-insert_at}
use shad_net.Score.Insert.{IsBoard, insert_score_cases, put_in-sorted, taken_out-IsBoard}

get_elem?-insert_at :
    (p : ℕ) (e : ScoreEntry) (zs : List ScoreEntry)
    → p ≤ length zs
    → get_elem? (insert_at p e zs) p ≡ some e
get_elem?-insert_at zero e zs h = refl
get_elem?-insert_at (suc p) e [] h = absurd (omega arith)
get_elem?-insert_at (suc p) e (x ∷ zs) h = get_elem?-insert_at p e zs (omega arith)

get_elem?-remove_at :
    (n p : ℕ) (zs : List ScoreEntry) → p < n → get_elem? (remove_at n zs) p ≡ get_elem? zs p
get_elem?-remove_at zero p zs h = absurd (omega arith)
get_elem?-remove_at (suc n) p [] h = refl
get_elem?-remove_at (suc n) zero (x ∷ zs) h = refl
get_elem?-remove_at (suc n) (suc p) (x ∷ zs) h = get_elem?-remove_at n p zs (omega arith)

fits_bound :
    (size limit p : ℕ)
    → fits size limit p ≡ true
    → size ≤ limit
    → p ≤ size
    → (p < limit) × (limit ≤ size → p < size)
unfolding fits
fits_bound size limit p h a b = (ground arith, λ c. ground arith)

fits_room : (size limit p : ℕ) → size < limit → fits size limit p ≡ false → ⊥
unfolding fits
fits_room size limit p h e = ground arith

-- The entry is where it was put, the trim included.
placed_stands :
    (limit : ℕ) (e : ScoreEntry) (p : ℕ) (r : Option ℕ) (t : ScoreTable)
    → p ≤ length t.sorted
    → length t.sorted ≤ limit
    → (limit ≤ length t.sorted → p < length t.sorted)
    → get_elem? (trim limit (put_in e p r t)).sorted p ≡ some e
placed_stands limit e p r t h b k =
    let s = put_in-sorted e p r t in
    let here = get_elem?-insert_at p e t.sorted h in
    let l = length-insert_at p e t.sorted h in
    trim_cases (λ q. get_elem? q.sorted p ≡ some e) limit (put_in e p r t) (λ _. rw s here)
      (λ x big y.
        let len : length (put_in e p r t).sorted ≡ length t.sorted + 1 = ap length s ∙ l in
        let room : p < length t.sorted = k (omega arith) in
        get_elem?-remove_at (length (put_in e p r t).sorted - 1) p (put_in e p r t).sorted
          (omega arith)
        ∙ rw s here)

take-length : (zs : List ScoreEntry) (n : ℕ) → length zs ≤ n → take n zs ≡ zs
take-length [] zero h = refl
take-length [] (suc n) h = refl
take-length (x ∷ zs) zero h = absurd (omega arith)
take-length (x ∷ zs) (suc n) h = ap (λ l. x ∷ l) (take-length zs n (omega arith))

remove_at_last : (n : ℕ) (zs : List ScoreEntry) → length zs ≡ suc n → remove_at n zs ≡ take n zs
remove_at_last n [] h = absurd (omega arith)
remove_at_last zero (x ∷ []) h = refl
remove_at_last zero (x ∷ y ∷ zs) h = absurd (omega arith)
remove_at_last (suc n) (x ∷ zs) h = ap (λ l. x ∷ l) (remove_at_last n zs (omega arith))

-- The trim leaves the first entries, as many as the limit.
trim-take :
    (limit : ℕ) (t : ScoreTable)
    → length t.sorted ≤ limit + 1
    → (trim limit t).sorted ≡ take limit t.sorted
trim-take limit t h =
    trim_cases (λ q. q.sorted ≡ take limit t.sorted) limit t
      (λ small. sym (take-length t.sorted limit small))
      (λ x big y.
        let last : length t.sorted - 1 ≡ limit = omega arith in
        ap (λ n. remove_at n t.sorted) last ∙ remove_at_last limit t.sorted (omega arith))

-- What InsertScore says of the outcome: the new board and the rank.
abbrev pub Outcome : ScoreBoardConfig → ScoreEntry → ScoreTable → ScoreTable × ℕ → Type 0
Outcome cfg e t (t', rank) =
    let rest = others e.user_id e.character_id t.sorted in
    ((p : ℕ) × (rank ≡ p + 1)
      × (p < cfg.rank_limit)
      × (get_elem? t'.sorted p ≡ some e)
      × (t'.sorted ≡ take cfg.rank_limit (insert_at p e rest)))
    ⊎ ((rank ≡ (cfg.rank_limit + 1) % 2 ^ 32)
        × (t'.sorted ≡ t.sorted)
        × (position_of e t.sorted ≡ none))

-- On a right board, InsertScore either returns a rank within the limit: then the new entry stands at
-- that place among the entries of the other player slots, which keep their order, and of all these
-- as many as the limit are left, from the first on. Or it returns the limit plus one (as a 32-bit
-- number): then the entries are as before, and the player's slot was not among them, so a score that
-- is refused costs nobody a place.
pub insert_score_rank :
    (now : ℕ) (cfg : ScoreBoardConfig) (e : ScoreEntry) (t : ScoreTable)
    → IsBoard cfg.sort_mode cfg.rank_limit t
    → Outcome cfg e t (insert_score now cfg e t)
insert_score_rank now cfg e t v =
    let t' = record t { last_insert = now } in
    let v' : IsBoard cfg.sort_mode cfg.rank_limit t' = record {
      index = record { distinct = v.index.distinct; indexed = v.index.indexed };
      ordered = v.ordered;
      bounded = v.bounded;
    } in
    insert_score_cases (Outcome cfg e t) now cfg e t v.index
      (λ r w y.
        let p = lower_bound cfg.sort_mode e r.0.sorted in
        let b = (taken_out-IsBoard cfg.sort_mode cfg.rank_limit e t' r v' w).bounded in
        let fit = lower_bound-le-length cfg.sort_mode e r.0.sorted in
        let (lt, k) = fits_bound (length r.0.sorted) cfg.rank_limit p y b fit in
        let s = put_in-sorted e p r.1 r.0 in
        let short : length (put_in e p r.1 r.0).sorted ≤ cfg.rank_limit + 1 =
          rw s (omega (arith, length-insert_at p e r.0.sorted fit)) in
        inl (
          p,
          refl,
          lt,
          placed_stands cfg.rank_limit e p r.1 r.0 fit b k,
          trim-take cfg.rank_limit (put_in e p r.1 r.0) short
              ∙ ap (take cfg.rank_limit) s
              ∙ ap (λ l. take cfg.rank_limit (insert_at p e l)) w.rest,
        ))
      (λ r w n. elim w.shape [
        | inl (a, s) ↦ inr (refl, s, ap (position_of e) (sym s) ∙ w.absent)
        | inr (i, a, l, s) ↦ absurd (
            fits_room (length r.0.sorted) cfg.rank_limit _
              (rw s (omega (arith, length-remove_at i t.sorted l, v.bounded))) n)
      ])
