-- ===== src/SignIn/Laws/Exclusive.antt =====
-- A user is signed in once.
use shad_net.Prelude.{
  ℕ, ◌≡◌, ◌≢◌, ◌∙◌, refl, ap, sym, subst, Bool, true, false, not, ◌&&◌, ◌||◌, Option, some, nat_eq,
  string_eq, arith, Bool-cases, Option-cases, inl, inr, contains, is_some, beq_self, ltb, leb,
}
use shad_net.Prelude.Int.{ℤ, int_eq}
use shad_net.Prelude.Assoc.{find, find-insert}
use shad_net.SignIn.{
  Account, Online, Database, version_cooldown_remaining, register_online, go_online, tell_friends,
}
use shad_net.SignIn.ErrorType
use shad_net.SignIn.Laws.{cmd_login-known}
use shad_net.SignIn.Login.{
  LoginRequest, UserRecord, Answer, refuse, login_known, login_free, cmd_login, sign_in, signed_in,
  version_timeout,
}

-- Whether a user is online, or held for its client version.
unfoldable pub is_present : ℤ → Online → Bool
unfolding contains find
is_present user o = is_some (find user o.clients) || contains o.pending_version_logins user

module _ (db : Database) (req : LoginRequest) (user : UserRecord) (s : Account) where
  registered-found :
      (o : Online)
      → s.registered ≡ false
      → is_some
          (find user.user_id (register_online db (signed_in db req user s o) o).online.clients)
        ≡ true
  unfolding register_online go_online
  registered-found o fresh =
      let clients =
        (tell_friends user.user_id user.username (db.friends user.user_id) o.clients).0 in
      simp (fresh, register_online, go_online)
        (ap is_some (find-insert user.user_id user.user_id _ clients)
          ∙ rw (beq_self user.user_id) refl)

  registered-present :
      (o : Online)
      → s.registered ≡ false
      → is_present user.user_id (register_online db (signed_in db req user s o) o).online ≡ true
  unfolding is_present
  registered-present o fresh = rw (registered-found o fresh) refl

  sign_in-present :
      (o : Online)
      → s.registered ≡ false
      → is_present user.user_id (sign_in db req user s o).online ≡ true
  unfolding sign_in is_present contains
  sign_in-present o fresh = elim (Bool-cases (ltb 0 (version_timeout o) && not user.stat_agent)) [
    | inl y ↦ rw (y, sign_in) (ground (arith, beq_self user.user_id))
    | inr n ↦ rw (n, sign_in) (registered-present o fresh)
  ]

  login_free-present :
      (o : Online)
      → s.registered ≡ false
      → (login_free db req user s o).code ≡ ErrorType.no_error
      → is_present user.user_id (login_free db req user s o).step.online ≡ true
  unfolding login_free is_present
  login_free-present o fresh h = elim (Bool-cases (is_present user.user_id o)) [
    | inl y ↦ absurd (ground arith)
    | inr n ↦ simp (n, login_free) (sign_in-present o fresh)
  ]

  login_known-free :
      (now : ℕ) (o : Online)
      → user.banned ≡ false
      → ltb 0 (version_cooldown_remaining now user.user_id o).0 ≡ false
      → login_known db now req user s o
        ≡ login_free db req user s (version_cooldown_remaining now user.user_id o).1
  unfolding login_known
  login_known-free now o n m = simp (n, m, login_known)

  login_known-present :
      (now : ℕ) (o : Online)
      → s.registered ≡ false
      → (login_known db now req user s o).code ≡ ErrorType.no_error
      → is_present user.user_id (login_known db now req user s o).step.online ≡ true
  unfolding login_known
  login_known-present now o fresh h =
      let (left, o') = version_cooldown_remaining now user.user_id o in
      elim (Bool-cases user.banned) [
        | inl y ↦ absurd (ground arith)
        | inr n ↦ elim (Bool-cases (ltb 0 left)) [
          | inl y ↦ absurd (ground arith)
          | inr m ↦
              let same = login_known-free now o n m in
              ap (λ a. is_present user.user_id a.step.online) same
              ∙ login_free-present o' fresh (ap (λ a. a.code) (sym same) ∙ h)
        ]
      ]

  -- A login of a user who is present is refused.
  Refused : Online → Answer → Type 0
  Refused o a =
      (a.code ≢ ErrorType.no_error) × (a.step.account ≡ s) × (a.step.online.clients ≡ o.clients)

  login_free-taken :
      (o : Online)
      → is_present user.user_id o ≡ true
      → login_free db req user s o ≡ refuse ErrorType.login_already_logged_in s o
  unfolding login_free is_present
  login_free-taken o h = simp (h, login_free)

  login_free-Refused :
      (o : Online) → is_present user.user_id o ≡ true → Refused o (login_free db req user s o)
  unfolding Refused
  login_free-Refused o h =
      subst (Refused o) (sym (login_free-taken o h)) (λ e. ground arith, refl, refl)

  remaining-clients :
      (now : ℕ) (o : Online)
      → let o' = (version_cooldown_remaining now user.user_id o).1 in
        (o'.clients ≡ o.clients) × (o'.pending_version_logins ≡ o.pending_version_logins)
  unfolding version_cooldown_remaining
  remaining-clients now o = elim (Option-cases (find user.user_id o.version_cooldown_until)) [
    | inl n ↦ rw (n, version_cooldown_remaining) (refl, refl)
    | inr (until, y) ↦ elim (Bool-cases (leb until now)) [
      | inl over ↦ rw (y, version_cooldown_remaining, over) (refl, refl)
      | inr left ↦ rw (y, version_cooldown_remaining, left) (refl, refl)
    ]
  ]

  login_known-Refused :
      (now : ℕ) (o : Online)
      → is_present user.user_id o ≡ true
      → Refused o (login_known db now req user s o)
  unfolding login_known Refused is_present
  login_known-Refused now o h =
      let (left, o') = version_cooldown_remaining now user.user_id o in
      let (clients, pending) = remaining-clients now o in
      let there : is_present user.user_id o' ≡ true = rw (clients, pending) h in
      elim (Bool-cases user.banned) [
        | inl y ↦ rw (y, login_known) (λ e. ground arith, refl, refl)
        | inr n ↦ elim (Bool-cases (ltb 0 left)) [
          | inl y ↦ rw (n, y, login_known) (λ e. ground arith, refl, clients)
          | inr m ↦
              let (code, account, same) = login_free-Refused o' there in
              subst (Refused o) (sym (login_known-free now o n m)) (code, account, same ∙ clients)
        ]
      ]

-- Once a login from a session that is not online has succeeded, no login of the same user succeeds in
-- the shared state that it leaves: the second, from whichever session and at whatever time, is
-- answered with an error, and its session and the clients stay as they are.
pub cmd_login_once :
    (db db' : Database) (check_user check_user' : LoginRequest → Option UserRecord) (now now' : ℕ)
    (req req' : LoginRequest) (user user' : UserRecord) (s s' : Account) (o : Online)
    → s.registered ≡ false
    → check_user req ≡ some user
    → check_user' req' ≡ some user'
    → user'.user_id ≡ user.user_id
    → (cmd_login db check_user now (some req) s o).code ≡ ErrorType.no_error
    → let o' = (cmd_login db check_user now (some req) s o).step.online in
      let second = cmd_login db' check_user' now' (some req') s' o' in
      (second.code ≢ ErrorType.no_error)
      × (second.step.account ≡ s')
      × (second.step.online.clients ≡ o'.clients)
unfolding Refused
cmd_login_once db db' check_user check_user' now now' req req' user user' s s' o fresh known known'
      same h =
    let first = cmd_login-known db check_user now req user s o known in
    let o' = (cmd_login db check_user now (some req) s o).step.online in
    let there : is_present user'.user_id o' ≡ true =
      rw (same, first)
        (login_known-present db req user s now o fresh (ap (λ a. a.code) (sym first) ∙ h)) in
    subst (Refused db' req' user' s' o')
      (sym (cmd_login-known db' check_user' now' req' user' s' o' known'))
      (login_known-Refused db' req' user' s' now' o' there)
