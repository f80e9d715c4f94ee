-- ===== src/AuthCodes/Limit.antt =====
-- No account has more unused codes than the limit.
use shad_net.Prelude.{
  ℕ, ◌+◌, ◌≤◌, ◌≡◌, subst, false, [], ◌∷◌, if◌then◌else◌, String, arith, Bool-cases, Option-cases,
  inl, inr, string_eq, leb,
}
use shad_net.Prelude.Int.{ℤ, int_eq}
use shad_net.Prelude.Assoc.{Assoc, find, insert, remove, values}
use shad_net.AuthCodes.{
  Grant, Store, lifetime_secs, unexpired, purge_expired, fresh_key, issue_code, issue, redeem_found,
  redeem, issue_access_token, issue_token, find_access_token, outstanding, max_outstanding_per_user,
}

-- The unused codes of each account are no more than the limit.
pub IsLimited : Store → Type 0
IsLimited s = (u : ℤ) → outstanding u (values s.grants) ≤ max_outstanding_per_user

outstanding-unexpired :
    (u : ℤ) (now : ℕ) (m : Assoc String Grant)
    → outstanding u (values (unexpired now m)) ≤ outstanding u (values m)
unfolding outstanding
outstanding-unexpired u now [] = omega arith
outstanding-unexpired u now ((k, g) ∷ m) = ground (arith, outstanding-unexpired u now m)

outstanding-remove :
    (u : ℤ) (code : String) (m : Assoc String Grant)
    → outstanding u (values (remove code m)) ≤ outstanding u (values m)
unfolding outstanding remove
outstanding-remove u code [] = omega arith
outstanding-remove u code ((k, g) ∷ m) = ground (arith, outstanding-remove u code m)

outstanding-insert :
    (u : ℤ) (code : String) (g : Grant) (m : Assoc String Grant)
    → outstanding u (values (insert code g m))
      ≤ outstanding u (values m) + (if int_eq.beq g.user_id u then 1 else 0)
unfolding outstanding insert
outstanding-insert u code g [] = ground arith
outstanding-insert u code g ((k, e) ∷ m) = ground (arith, outstanding-insert u code g m)

module _ (s : Store) (v : IsLimited s) where
  unexpired-IsLimited : (now : ℕ) → IsLimited (purge_expired now s)
  unfolding IsLimited purge_expired
  unexpired-IsLimited now u = omega (arith, outstanding-unexpired u now s.grants, v u)

  redeem-IsLimited : (now : ℕ) (code : String) → IsLimited (redeem now code s).1
  unfolding IsLimited redeem purge_expired redeem_found
  redeem-IsLimited now code u = elim (Option-cases (find code (unexpired now s.grants))) [
    | inl n ↦ rw (n, redeem) (omega (arith, outstanding-unexpired u now s.grants, v u))
    | inr (g, y) ↦
        rw (y, redeem)
          (omega (
            arith,
            outstanding-remove u code (unexpired now s.grants),
            outstanding-unexpired u now s.grants,
            v u,
          ))
  ]

  issue-IsLimited :
      (fuel : ℕ) (draw : ℕ → String) (now : ℕ) (g : Grant) → IsLimited (issue fuel draw now g s).1
  unfolding IsLimited issue purge_expired issue_code
  issue-IsLimited fuel draw now g u =
      let live = unexpired now s.grants in
      let before = outstanding-unexpired u now s.grants in
      elim (Bool-cases (leb max_outstanding_per_user (outstanding g.user_id (values live)))) [
        | inl y ↦ rw (y, issue) (omega (arith, before, v u))
        | inr z ↦ elim (Option-cases (fresh_key fuel draw 0 live)) [
          | inl n ↦ rw (z, n, issue) (omega (arith, before, v u))
          | inr (c, y) ↦
              let mine : Grant = record g { issued_at = now; expires_at = now + lifetime_secs } in
              rw (z, y, issue)
                (elim (Bool-cases (int_eq.beq g.user_id u)) [
                  | inl same ↦
                      let full =
                        subst
                          (λ w. leb max_outstanding_per_user (outstanding w (values live)) ≡ false)
                          ((int_eq.beq_iff g.user_id u).0 same) z in
                      ground (arith, outstanding-insert u c mine live, full)
                  | inr other ↦ ground (arith, outstanding-insert u c mine live, before, v u)
                ])
        ]
      ]

  issue_access_token-IsLimited :
      (fuel : ℕ) (draw : ℕ → String) (now : ℕ) (g : Grant)
      → IsLimited (issue_access_token fuel draw now g s).1
  unfolding IsLimited issue_access_token purge_expired issue_token
  issue_access_token-IsLimited fuel draw now g u =
      elim (Option-cases (fresh_key fuel draw 0 (unexpired now s.access_tokens))) [
        | inl n ↦
            rw (n, issue_access_token) (omega (arith, outstanding-unexpired u now s.grants, v u))
        | inr (c, y) ↦
            rw (y, issue_access_token) (omega (arith, outstanding-unexpired u now s.grants, v u))
      ]

-- The calls that change the store.
pub data Step (s : Store) : Store → Type 0 where
  issues : (fuel : ℕ) (draw : ℕ → String) (now : ℕ) (g : Grant) → Step s (issue fuel draw now g s).1
  redeems : (now : ℕ) (code : String) → Step s (redeem now code s).1
  issues_token :
      (fuel : ℕ) (draw : ℕ → String) (now : ℕ) (g : Grant)
      → Step s (issue_access_token fuel draw now g s).1
  finds_token : (now : ℕ) (token : String) → Step s (find_access_token now token s).1

pub data Reach : Store → Type 0 where
  start : Reach (record { grants = []; access_tokens = [] })
  next : {s t : Store} → Reach s → Step s t → Reach t

Step-IsLimited : {s t : Store} → Step s t → IsLimited s → IsLimited t
unfolding find_access_token
Step-IsLimited {s = s} (issues fuel draw now g) v = issue-IsLimited s v fuel draw now g
Step-IsLimited {s = s} (redeems now code) v = redeem-IsLimited s v now code
Step-IsLimited {s = s} (issues_token fuel draw now g) v =
    issue_access_token-IsLimited s v fuel draw now g
Step-IsLimited {s = s} (finds_token now token) v = unexpired-IsLimited s v now

-- Whatever calls have been made of the store, at whatever times, no account has more than 16 codes
-- in it.
pub Reach-IsLimited : (s : Store) → Reach s → IsLimited s
unfolding IsLimited outstanding
Reach-IsLimited _ start u = omega arith
Reach-IsLimited _ (next r step) u = Step-IsLimited step (Reach-IsLimited _ r) u
