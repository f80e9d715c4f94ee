-- ===== src/AuthCodes.antt =====
-- src/auth_code_store.cpp and src/auth_code_store.h: authorization codes and access tokens. The
-- clock is an argument, in seconds; so is the source of random codes, as the sequence of its
-- draws. Each call holds the store's mutex, so calls do not overlap.
pub mod Laws
pub mod Limit
mod Examples
use shad_net.Prelude.{
  ℕ, zero, suc, ◌+◌, Bool, true, false, not, Option, none, some, String, List, [], ◌∷◌,
  if◌then◌else◌, ◌==◌, string_eq, leb, keep_if, is_some,
}
use shad_net.Prelude.Int.{ℤ, int_eq}
use shad_net.Prelude.Assoc.{Assoc, find, insert, remove, values}

pub record Grant : Type 0 where
  pub user_id : ℤ
  pub client_id : String
  pub scope : String
  pub np_title_id : String
  pub issued_at : ℕ
  pub expires_at : ℕ

abbrev pub lifetime_secs : ℕ
lifetime_secs = 300

abbrev pub max_outstanding_per_user : ℕ
max_outstanding_per_user = 16

abbrev pub access_token_lifetime_secs : ℕ
access_token_lifetime_secs = 3599

-- AuthCodeStore
pub record Store : Type 0 where
  pub grants : Assoc String Grant
  pub access_tokens : Assoc String Grant

abbrev pub unexpired : ℕ → Assoc String Grant → Assoc String Grant
unexpired now = keep_if (λ e. not (leb e.1.expires_at now))

-- PurgeExpired
unfoldable pub purge_expired : ℕ → Store → Store
purge_expired now s = record {
  grants = unexpired now s.grants;
  access_tokens = unexpired now s.access_tokens;
}

-- The loop that counts the user's codes.
unfoldable pub outstanding : ℤ → List Grant → ℕ
outstanding u [] = 0
outstanding u (g ∷ gs) = let rest = outstanding u gs in if g.user_id == u then rest + 1 else rest

-- The loop that draws until a key is unused, for so many draws; `none`: it is still drawing.
unfoldable pub fresh_key : ℕ → (ℕ → String) → ℕ → Assoc String Grant → Option String
fresh_key zero draw i taken = none
fresh_key (suc fuel) draw i taken =
    let later = fresh_key fuel draw (i + 1) taken in
    if is_some (find (draw i) taken) then later else some (draw i)

pub data Issued : Type 0 where
  too_many : Issued
  issued : String → Issued
  drawing : Issued

abbrev stamped : ℕ → ℕ → Grant → Grant
stamped now lifetime g = record g { issued_at = now; expires_at = now + lifetime }

issue_code : Grant → Store → Option String → Issued × Store
issue_code g s none = (drawing, s)
issue_code g s (some code) = (issued code, record s { grants = insert code g s.grants })

-- Issue
unfoldable pub issue : ℕ → (ℕ → String) → ℕ → Grant → Store → Issued × Store
unfolding issue_code fresh_key outstanding purge_expired
issue fuel draw now g s =
    let live = purge_expired now s in
    if leb max_outstanding_per_user (outstanding g.user_id (values live.grants))
    then (too_many, live)
    else issue_code (stamped now lifetime_secs g) live (fresh_key fuel draw 0 live.grants)

redeem_found : String → Store → Option Grant → Option Grant × Store
redeem_found code s none = (none, s)
redeem_found code s (some g) = (some g, record s { grants = remove code s.grants })

-- Redeem
unfoldable pub redeem : ℕ → String → Store → Option Grant × Store
unfolding redeem_found purge_expired
redeem now code s = let live = purge_expired now s in redeem_found code live (find code live.grants)

issue_token : Grant → Store → Option String → Issued × Store
issue_token g s none = (drawing, s)
issue_token g s (some token) =
    (issued token, record s { access_tokens = insert token g s.access_tokens })

-- IssueAccessToken
unfoldable pub issue_access_token : ℕ → (ℕ → String) → ℕ → Grant → Store → Issued × Store
unfolding issue_token fresh_key purge_expired
issue_access_token fuel draw now g s =
    let live = purge_expired now s in
    issue_token (stamped now access_token_lifetime_secs g) live
      (fresh_key fuel draw 0 live.access_tokens)

-- FindAccessToken
unfoldable pub find_access_token : ℕ → String → Store → Option Grant × Store
unfolding purge_expired
find_access_token now token s =
    let live = purge_expired now s in (find token live.access_tokens, live)
