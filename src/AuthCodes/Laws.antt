-- ===== src/AuthCodes/Laws.antt =====
-- Codes and tokens live for their time, and a code is good for one use.
use mathlib.Core.Option.{some-injective}
use shad_net.Prelude.{
  ℕ, zero, suc, ◌+◌, ◌≤◌, ◌<◌, ◌≡◌, ◌∙◌, refl, ap, subst, true, none, some, [], ◌∷◌, String, arith,
  Bool-cases, Option-cases, inl, inr, string_eq, is_some, leb, ◌⊎◌, beq_self,
}
use shad_net.Prelude.Assoc.{Assoc, find, insert, remove, values, find-remove}
use shad_net.AuthCodes.{
  Grant, Store, issued, too_many, lifetime_secs, unexpired, purge_expired, fresh_key, issue_code,
  issue, redeem_found, redeem, issue_access_token, issue_token, find_access_token,
  access_token_lifetime_secs, outstanding, max_outstanding_per_user,
}

-- A key that is unused stays unused when entries expire.
find-unexpired-none :
    (now : ℕ) (k : String) (m : Assoc String Grant)
    → find k m ≡ none
    → find k (unexpired now m) ≡ none
unfolding find
find-unexpired-none now k [] h = refl
find-unexpired-none now k ((j, g) ∷ m) h = ground (arith, find-unexpired-none now k m)

-- What is left has not expired.
find-unexpired_live :
    (now : ℕ) (k : String) (g : Grant) (m : Assoc String Grant)
    → find k (unexpired now m) ≡ some g
    → now < g.expires_at
unfolding find
find-unexpired_live now k g [] h = absurd (cc)
find-unexpired_live now k g ((j, e) ∷ m) h = elim (Bool-cases (leb e.expires_at now)) [
  | inl y ↦ find-unexpired_live now k g m (rw y at h)
  | inr z ↦ elim (Bool-cases (string_eq.beq j k)) [
    | inl same ↦
        let eq : e ≡ g = some-injective e g (rw (z, same, find) at h) in
        subst (λ x. now < x.expires_at) eq (ground arith)
    | inr other ↦ find-unexpired_live now k g m (rw (z, other, find) at h)
  ]
]

-- A new entry is found until it expires.
find-insert-unexpired :
    (now : ℕ) (k : String) (g : Grant) (m : Assoc String Grant)
    → find k m ≡ none
    → now < g.expires_at
    → find k (unexpired now (insert k g m)) ≡ some g
unfolding find insert
find-insert-unexpired now k g [] h live = ground (arith, beq_self k)
find-insert-unexpired now k g ((j, e) ∷ m) h live =
    ground (arith, find-insert-unexpired now k g m, beq_self k)

fresh_key-unused :
    (fuel : ℕ) (draw : ℕ → String) (i : ℕ) (taken : Assoc String Grant) (code : String)
    → fresh_key fuel draw i taken ≡ some code
    → find code taken ≡ none
unfolding fresh_key
fresh_key-unused zero draw i taken code h = absurd (cc)
fresh_key-unused (suc fuel) draw i taken code h = elim (Option-cases (find (draw i) taken)) [
  | inl n ↦
      subst (λ c. find c taken ≡ none) (some-injective (draw i) code (rw (n, fresh_key) at h)) n
  | inr (g, y) ↦ fresh_key-unused fuel draw (i + 1) taken code (rw (y, fresh_key) at h)
]

-- What a redeem that succeeds returns has not expired, and the same code is never redeemed again,
-- at whatever time, from the store that it leaves.
pub redeem_once :
    (now later : ℕ) (code : String) (s : Store) (g : Grant)
    → (redeem now code s).0 ≡ some g
    → (now < g.expires_at) × ((redeem later code (redeem now code s).1).0 ≡ none)
unfolding redeem redeem_found purge_expired
redeem_once now later code s g h = elim (Option-cases (find code (unexpired now s.grants))) [
  | inl n ↦ absurd (cc (rw (n, redeem) at h))
  | inr (e, y) ↦
      let same : e ≡ g = some-injective e g (rw (y, redeem) at h) in
      let gone : find code (remove code (unexpired now s.grants)) ≡ none =
        find-remove code code (unexpired now s.grants) ∙ rw (beq_self code) refl in
      (
        find-unexpired_live now code g s.grants (y ∙ ap some same),
        rw (y, redeem)
            (rw (find-unexpired-none later code (remove code (unexpired now s.grants)) gone, redeem)
              refl),
      )
]

-- The key that an issue found is the one that it answers.
issued-injective : (c d : String) → issued c ≡ issued d → c ≡ d
issued-injective c d h = cc

-- A code that `Issue` returns was not in use, and redeemed within its lifetime of 300 seconds from
-- the store that `Issue` leaves it gives back the grant, stamped with its times.
pub redeem-issue :
    (fuel : ℕ) (draw : ℕ → String) (now later : ℕ) (g : Grant) (s : Store) (code : String)
    → (issue fuel draw now g s).0 ≡ issued code
    → later < now + lifetime_secs
    → ((redeem later code (issue fuel draw now g s).1).0
        ≡ some (record g { issued_at = now; expires_at = now + lifetime_secs }))
      × (find code (purge_expired now s).grants ≡ none)
unfolding issue redeem redeem_found purge_expired issue_code
redeem-issue fuel draw now later g s code h soon =
    let live = unexpired now s.grants in
    elim (Bool-cases (leb max_outstanding_per_user (outstanding g.user_id (values live)))) [
      | inl y ↦ absurd (cc (rw (y, issue) at h))
      | inr z ↦ elim (Option-cases (fresh_key fuel draw 0 live)) [
        | inl n ↦ absurd (cc (rw (z, n, issue) at h))
        | inr (c, y) ↦
            let same : c ≡ code = issued-injective c code (rw (z, y, issue) at h) in
            let unused : find code live ≡ none =
              subst (λ k. find k live ≡ none) same (fresh_key-unused fuel draw 0 live c y) in
            let mine : Grant = record g { issued_at = now; expires_at = now + lifetime_secs } in
            (
              rw (z, y, same, issue)
                  (rw (find-insert-unexpired later code mine live unused soon, redeem) refl),
              unused,
            )
      ]
    ]

-- An access token that `IssueAccessToken` returns was not in use, and for its lifetime of 3599
-- seconds it is found with its grant, stamped with its times.
pub find_access_token-issue_access_token :
    (fuel : ℕ) (draw : ℕ → String) (now later : ℕ) (g : Grant) (s : Store) (token : String)
    → (issue_access_token fuel draw now g s).0 ≡ issued token
    → later < now + access_token_lifetime_secs
    → ((find_access_token later token (issue_access_token fuel draw now g s).1).0
        ≡ some (record g { issued_at = now; expires_at = now + access_token_lifetime_secs }))
      × (find token (purge_expired now s).access_tokens ≡ none)
unfolding issue_access_token find_access_token purge_expired issue_token
find_access_token-issue_access_token fuel draw now later g s token h soon =
    let live = unexpired now s.access_tokens in
    elim (Option-cases (fresh_key fuel draw 0 live)) [
      | inl n ↦ absurd (cc (rw (n, issue_access_token) at h))
      | inr (c, y) ↦
          let same : c ≡ token = issued-injective c token (rw (y, issue_access_token) at h) in
          let unused : find token live ≡ none =
            subst (λ k. find k live ≡ none) same (fresh_key-unused fuel draw 0 live c y) in
          let mine : Grant = record g {
            issued_at = now;
            expires_at = now + access_token_lifetime_secs;
          } in
          (
            rw (y, same, issue_access_token)
                (find-insert-unexpired later token mine live unused soon),
            unused,
          )
    ]

fresh_key-found :
    (fuel : ℕ) (draw : ℕ → String) (i k : ℕ) (taken : Assoc String Grant)
    → k < fuel
    → find (draw (i + k)) taken ≡ none
    → is_some (fresh_key fuel draw i taken) ≡ true
unfolding fresh_key
fresh_key-found zero draw i k taken h free = absurd (omega arith)
fresh_key-found (suc fuel) draw i zero taken h free =
    let same : i + 0 ≡ i = omega arith in
    let free' = subst (λ n. find (draw n) taken ≡ none) same free in ground arith
fresh_key-found (suc fuel) draw i (suc k) taken h free = ground (
  arith,
  fresh_key-found fuel draw (i + 1) k taken (omega arith)
      (subst (λ n. find (draw n) taken ≡ none) (omega arith) free),
)

-- `Issue` returns as soon as a draw is an unused code: given as many draws as that takes, it answers
-- a code or that there are too many, and the limit alone decides which.
pub issue_returns :
    (fuel : ℕ) (draw : ℕ → String) (k now : ℕ) (g : Grant) (s : Store)
    → k < fuel
    → find (draw k) (purge_expired now s).grants ≡ none
    → (((issue fuel draw now g s).0 ≡ too_many)
        × (max_outstanding_per_user ≤ outstanding g.user_id (values (purge_expired now s).grants)))
      ⊎ (((code : String) × ((issue fuel draw now g s).0 ≡ issued code))
          × (outstanding g.user_id (values (purge_expired now s).grants)
              < max_outstanding_per_user))
unfolding issue purge_expired issue_code
issue_returns fuel draw k now g s h free =
    let live = unexpired now s.grants in
    let found =
      fresh_key-found fuel draw 0 k live h
        (subst (λ n. find (draw n) live ≡ none) (omega arith) free) in
    elim (Bool-cases (leb max_outstanding_per_user (outstanding g.user_id (values live)))) [
      | inl y ↦ rw (y, issue) (inl (refl, ground arith))
      | inr z ↦ elim (Option-cases (fresh_key fuel draw 0 live)) [
        | inl n ↦ absurd (cc (rw n at found))
        | inr (c, y) ↦ rw (z, y, issue) (inr ((c, refl), ground arith))
      ]
    ]
