-- ===== src/SignIn/Codes.antt =====
-- CmdGetAuthorizationCode: src/cmd_account.cpp, with the store of AuthCodes. The size of a text's
-- UTF-8 form is a parameter.
use shad_net.Prelude.{
  ℕ, ◌+◌, ◌<◌, ◌≡◌, ◌≢◌, ◌∙◌, refl, sym, ap, Bool, true, not, ◌||◌, Option, none, some, String,
  if◌then◌else◌, ◌==◌, string_eq, ltb, arith, Bool-cases, inl, inr, ◌⊎◌, Option-cases,
}
use mathlib.Core.Option.{some-injective}
use shad_net.Prelude.Int.{int_eq}
use shad_net.Prelude.Assoc.{find}
use shad_net.AuthCodes.{
  Grant, Store, Issued, issued, too_many, drawing, lifetime_secs, issue, redeem,
}
use shad_net.AuthCodes.Laws.{redeem-issue}
use shad_net.SignIn.{Account, Online, ClientEntry}
use shad_net.SignIn.ErrorType

-- GetAuthorizationCodeRequest
pub record CodeRequest : Type 0 where
  pub client_id : String
  pub scope : String

-- The error code, the code that the reply holds, and the store afterwards.
pub record CodeAnswer : Type 0 where
  pub code : ℕ
  pub auth_code : Option String
  pub store : Store

abbrev without_code : ℕ → Store → CodeAnswer
without_code code store = record { code = code; auth_code = none; store = store }

entry_title : Option ClientEntry → String
entry_title none = ""
entry_title (some entry) = entry.np_title_id

last_title : Option String → String
last_title none = ""
last_title (some title) = title

-- The title of a grant: that of the client that is online, else that of its last login.
unfoldable pub title_of : Account → Online → String
unfolding entry_title last_title
title_of s o =
    let title = entry_title (find s.user_id o.clients) in
    if title == "" then last_title (find s.user_id o.last_login_title_id) else title

-- No client is online for the user, or one that has no title.
IsUntitled : Account → Online → Type 0
IsUntitled s o =
    (find s.user_id o.clients ≡ none)
    ⊎ ((entry : ClientEntry) × (find s.user_id o.clients ≡ some entry) × (entry.np_title_id ≡ ""))

-- The title of a session: that of its online client, where it has one; else that of the user's last
-- login, where there was one; else none.
pub IsTitle : Account → Online → String → Type 0
IsTitle s o title =
    ((entry : ClientEntry) × (find s.user_id o.clients ≡ some entry)
      × (entry.np_title_id ≢ "")
      × (title ≡ entry.np_title_id))
    ⊎ (IsUntitled s o
        × (((last : String) × (find s.user_id o.last_login_title_id ≡ some last) × (title ≡ last))
            ⊎ ((find s.user_id o.last_login_title_id ≡ none) × (title ≡ ""))))

last_title-is :
    (o : Option String)
    → ((last : String) × (o ≡ some last) × (last_title o ≡ last))
      ⊎ ((o ≡ none) × (last_title o ≡ ""))
unfolding last_title
last_title-is none = inr (refl, refl)
last_title-is (some last) = inl (last, refl, refl)

title_of-IsTitle : (s : Account) (o : Online) → IsTitle s o (title_of s o)
unfolding IsTitle IsUntitled title_of entry_title
title_of-IsTitle s o = elim (Option-cases (find s.user_id o.clients)) [
  | inl n ↦ rw (n, title_of) (inr (inl refl, last_title-is (find s.user_id o.last_login_title_id)))
  | inr (entry, y) ↦ elim (Bool-cases (string_eq.beq entry.np_title_id "")) [
    | inl e ↦
        rw (y, title_of, e)
          (inr (
            inr (entry, refl, (string_eq.beq_iff entry.np_title_id "").0 e),
            last_title-is (find s.user_id o.last_login_title_id),
          ))
    | inr m ↦
        rw (y, title_of, m)
          (inl (entry, refl, (λ e. cc ((string_eq.beq_iff entry.np_title_id "").1 e, m)), refl))
  ]
]

abbrev pub grant_of : CodeRequest → Account → Online → Grant
unfolding title_of
grant_of req s o = record {
  user_id = s.user_id;
  client_id = req.client_id;
  scope = req.scope;
  np_title_id = title_of s o;
  issued_at = 0;
  expires_at = 0;
}

-- `none` while the store is still drawing codes.
unfoldable pub code_answer : Issued × Store → Option CodeAnswer
code_answer (too_many, store) = some (without_code ErrorType.too_soon store)
code_answer (issued code, store) =
    some (record { code = ErrorType.no_error; auth_code = some code; store = store })
code_answer (drawing, store) = none

module _ (utf8_size : String → ℕ) where
  abbrev bad_input : CodeRequest → Bool
  bad_input req =
      (req.client_id == "") || ltb 128 (utf8_size req.client_id) || ltb 1024 (utf8_size req.scope)

  -- CmdGetAuthorizationCode
  unfoldable pub cmd_get_authorization_code :
      (fuel : ℕ)
      → (draw : ℕ → String) → ℕ
      → Option CodeRequest
      → Account
      → Online
      → Store
      → Option CodeAnswer
  unfolding code_answer title_of
  cmd_get_authorization_code fuel draw now none s o store =
      some (without_code ErrorType.malformed store)
  cmd_get_authorization_code fuel draw now (some req) s o store =
      if bad_input req
      then some (without_code ErrorType.invalid_input store)
      else if not s.registered
      then some (without_code ErrorType.unauthorized store)
      else code_answer (issue fuel draw now (grant_of req s o) store)

  code_answer_lem :
      (i : Issued) (store : Store) (answer : CodeAnswer) (code : String)
      → code_answer (i, store) ≡ some answer
      → answer.auth_code ≡ some code
      → (i ≡ issued code) × (answer.code ≡ ErrorType.no_error) × (answer.store ≡ store)
  unfolding code_answer
  code_answer_lem too_many store answer code h e =
      let same = some-injective (without_code ErrorType.too_soon store) answer h in
      absurd (ground (arith, ap (λ a. a.auth_code) same ∙ e))
  code_answer_lem (issued c) store answer code h e =
      let sent : CodeAnswer = record {
        code = ErrorType.no_error;
        auth_code = some c;
        store = store;
      } in
      let same : sent ≡ answer = some-injective sent answer h in
      (
        ap issued (some-injective c code (ap (λ a. a.auth_code) same ∙ e)),
        sym (ap (λ a. a.code) same),
        sym (ap (λ a. a.store) same),
      )
  code_answer_lem drawing store answer code h e = absurd (ground (arith, h))

  no_code :
      (error : ℕ) (store : Store) (answer : CodeAnswer) (code : String)
      → some (without_code error store) ≡ some answer
      → answer.auth_code ≢ some code
  no_code error store answer code h e =
      let same = some-injective (without_code error store) answer h in
      absurd (ground (arith, ap (λ a. a.auth_code) same ∙ e))

  -- A code that CmdGetAuthorizationCode sends goes to a session that is registered, with no error, and
  -- for its lifetime of 300 seconds the store redeems it for a grant of the session's user, the
  -- request's client and scope, and the title of the session's online client, or else of the user's
  -- last login.
  pub redeem-cmd_get_authorization_code :
      (fuel : ℕ) (draw : ℕ → String) (now later : ℕ) (req : CodeRequest) (s : Account) (o : Online)
      (store : Store) (answer : CodeAnswer) (code : String)
      → cmd_get_authorization_code fuel draw now (some req) s o store ≡ some answer
      → answer.auth_code ≡ some code
      → later < now + lifetime_secs
      → (title : String) × IsTitle s o title
        × (s.registered ≡ true)
        × (answer.code ≡ ErrorType.no_error)
        × ((redeem later code answer.store).0
            ≡ some (record {
              user_id = s.user_id;
              client_id = req.client_id;
              scope = req.scope;
              np_title_id = title;
              issued_at = now;
              expires_at = now + 300;
            }))
  unfolding cmd_get_authorization_code
  redeem-cmd_get_authorization_code fuel draw now later req s o store answer code h e soon =
      elim (Bool-cases (bad_input req)) [
        | inl bad ↦ absurd (
            no_code ErrorType.invalid_input store answer code
              (rw (bad, cmd_get_authorization_code) at h) e)
        | inr good ↦ elim (Bool-cases s.registered) [
          | inr out ↦ absurd (
              no_code ErrorType.unauthorized store answer code
                (rw (good, out, cmd_get_authorization_code) at h) e)
          | inl in_ ↦
              let i = issue fuel draw now (grant_of req s o) store in
              let (code_sent, none_wrong, kept) =
                code_answer_lem i.0 i.1 answer code
                  (rw (good, in_, cmd_get_authorization_code) at h) e in
              (
                title_of s o,
                title_of-IsTitle s o,
                in_,
                none_wrong,
                ap (λ t. (redeem later code t).0) kept
                    ∙ (redeem-issue fuel draw now later (grant_of req s o) store code code_sent
                        soon).0,
              )
        ]
      ]
