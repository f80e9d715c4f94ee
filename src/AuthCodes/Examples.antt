-- ===== src/AuthCodes/Examples.antt =====
-- The store of codes and tokens at concrete values.
use shad_net.Prelude.{ℕ, ◌≤◌, ◌<◌, ◌≡◌, refl, [], arith, some, none, ◌⊎◌, String, string_eq}
use shad_net.Prelude.Assoc.{find, insert, values}
use shad_net.Prelude.Int.{pos}
use shad_net.AuthCodes.{
  Grant, Store, issued, too_many, issue, redeem, issue_access_token, find_access_token,
  purge_expired, outstanding,
}
use shad_net.AuthCodes.Laws.{
  redeem_once, redeem-issue, find_access_token-issue_access_token, issue_returns,
}
use shad_net.AuthCodes.Limit.{IsLimited, start, next, issues, redeems, Reach-IsLimited}

abbrev fresh : Store
fresh = record { grants = []; access_tokens = [] }

abbrev grant : Grant
grant = record {
  user_id = pos 5;
  client_id = "c";
  scope = "s";
  np_title_id = "t";
  issued_at = 0;
  expires_at = 0;
}

abbrev drawn : ℕ → String
drawn n = "aB3dE6"

abbrev stored : Store
stored = (issue 1 drawn 1000 grant fresh).1

abbrev issued_grant : Grant
issued_grant = record grant { issued_at = 1000; expires_at = 1300 }

redeem-issue_case :
    ((redeem 1299 "aB3dE6" stored).0 ≡ some issued_grant)
    × (find "aB3dE6" (purge_expired 1000 fresh).grants ≡ none)
unfolding issue find
redeem-issue_case = redeem-issue 1 drawn 1000 1299 grant fresh "aB3dE6" refl (omega arith)

redeem_once_example :
    (1200 < 1300) × ((redeem 1201 "aB3dE6" (redeem 1200 "aB3dE6" stored).1).0 ≡ none)
unfolding issue redeem find insert
redeem_once_example = redeem_once 1200 1201 "aB3dE6" stored issued_grant refl

find_access_token-issue_access_token_case :
    ((find_access_token 2000 "aB3dE6" (issue_access_token 1 drawn 1000 grant fresh).1).0
      ≡ some (record grant { issued_at = 1000; expires_at = 4599 }))
    × (find "aB3dE6" (purge_expired 1000 fresh).access_tokens ≡ none)
unfolding issue_access_token find
find_access_token-issue_access_token_case =
    find_access_token-issue_access_token 1 drawn 1000 2000 grant fresh "aB3dE6" refl (omega arith)

issue_returns_example :
    (((issue 1 drawn 1000 grant fresh).0 ≡ too_many)
      × (16 ≤ outstanding (pos 5) (values (purge_expired 1000 fresh).grants)))
    ⊎ (((code : String) × ((issue 1 drawn 1000 grant fresh).0 ≡ issued code))
        × (outstanding (pos 5) (values (purge_expired 1000 fresh).grants) < 16))
unfolding purge_expired find
issue_returns_example = issue_returns 1 drawn 0 1000 grant fresh (omega arith) refl

Reach-IsLimited_example : IsLimited (redeem 1200 "aB3dE6" stored).1
Reach-IsLimited_example =
    Reach-IsLimited (redeem 1200 "aB3dE6" stored).1
      (next (next start (issues 1 drawn 1000 grant)) (redeems 1200 "aB3dE6"))
