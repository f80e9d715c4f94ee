-- ===== src/SignIn/Laws.antt =====
-- What signing in promises, and what two of its paths leave behind.
pub mod Exclusive
use shad_net.Prelude.{
  ℕ, ◌+◌, ◌*◌, ◌<◌, ◌≡◌, ◌≢◌, ◌∙◌, refl, ap, sym, subst, Bool, true, false, not, ◌&&◌, ◌||◌, Option,
  none, some, List, [], ◌∷◌, if◌then◌else◌, ◌==◌, nat_eq, string_eq, arith, Bool-cases,
  Option-cases, inl, inr, contains, is_some, beq_self, beq_ne, ltb, leb,
}
use shad_net.Prelude.Int.{ℤ, int_eq, pos_part}
use shad_net.Prelude.Assoc.{Assoc, find, insert, remove, find-insert, find-remove}
use shad_net.Prelude.Text.{Text}
use shad_net.ClientVersions.{ClientVersionRule, Regexes}
use shad_net.ClientVersions.Rules.{evaluate_client_version}
use shad_net.SignIn.{
  Account, Online, Database, Step, ClientEntry, still, cooldown_seconds, start_version_cooldown,
  version_cooldown_remaining, register_online, check_rules, check_client_version,
  cleanup_on_disconnect, reject, client_rejected, disconnects,
}
use shad_net.SignIn.ErrorType
use shad_net.SignIn.Login.{
  LoginRequest, UserRecord, Answer, refuse, login_known, login_free, cmd_login, sign_in, signed_in,
  delete_known, cmd_delete, version_timeout,
}

-- A cooldown that has started is not over before its time.
cooldown_left :
    (now later : ℕ) (user seconds : ℤ) (o : Online)
    → 0 < pos_part seconds
    → later < now + pos_part seconds * 1000
    → let (left, o') =
        version_cooldown_remaining later user (start_version_cooldown now user seconds o) in
      ltb 0 left ≡ true
unfolding version_cooldown_remaining start_version_cooldown
cooldown_left now later user seconds o some_time soon = ground (
  arith,
  find-insert user user (now + pos_part seconds * 1000) o.version_cooldown_until,
  beq_self user,
)

login_known-cooling :
    (db : Database) (now : ℕ) (req : LoginRequest) (user : UserRecord) (s : Account) (o : Online)
    → ltb 0 (version_cooldown_remaining now user.user_id o).0 ≡ true
    → (login_known db now req user s o).code ≡ ErrorType.login_error
unfolding login_known
login_known-cooling db now req user s o h = elim (Bool-cases user.banned) [
  | inl y ↦ rw (y, login_known) refl
  | inr n ↦ rw (n, h, login_known) refl
]

-- The step of a client whose version the rules deny.
check_client_version-denied :
    (db : Database) (re : Regexes) (now : ℕ) (s : Account) (o : Online) (version : Text)
    (rules : List ClientVersionRule)
    → s.version_rejected ≡ false
    → s.stat_agent ≡ false
    → o.rules ≡ some rules
    → (evaluate_client_version re rules version).allowed ≡ false
    → check_client_version db re now s o version ≡ record {
      account = record s { version_rejected = true };
      online = start_version_cooldown now s.user_id (cooldown_seconds o.config) o;
      effects =
          client_rejected (evaluate_client_version re rules version).message version
          ∷ disconnects
          ∷ [];
    }
unfolding check_client_version check_rules
check_client_version-denied db re now s o version rules fresh client ruled denied =
    simp (fresh, client, ruled, check_client_version, check_rules, denied)

start_version_cooldown-clients :
    (now : ℕ) (user seconds : ℤ) (o : Online)
    → ((start_version_cooldown now user seconds o).clients ≡ o.clients)
      × ((start_version_cooldown now user seconds o).matching2_slots ≡ o.matching2_slots)
unfolding start_version_cooldown
start_version_cooldown-clients now user seconds o = elim (Bool-cases (ltb 0 (pos_part seconds))) [
  | inl y ↦ rw (y, start_version_cooldown) (refl, refl)
  | inr n ↦ rw (n, start_version_cooldown) (refl, refl)
]

pub cmd_login-known :
    (db : Database) (check_user : LoginRequest → Option UserRecord) (now : ℕ) (req : LoginRequest)
    (user : UserRecord) (s : Account) (o : Online)
    → check_user req ≡ some user
    → cmd_login db check_user now (some req) s o ≡ login_known db now req user s o
unfolding cmd_login
cmd_login-known db check_user now req user s o h = rw (h, cmd_login) refl

-- Where a cooldown is configured, a client, no stat agent and not rejected yet, whose version the rules
-- deny is told so once with the message of the decision, is disconnected and marked as rejected, and
-- the clients and the matchmaking slots stay as they are; and a login of the same user before the
-- cooldown is over, in whichever session, is answered with LoginError.
pub cmd_login-check_client_version :
    (db db' : Database) (re : Regexes) (now later : ℕ) (s s' : Account) (o : Online)
    (version : Text) (rules : List ClientVersionRule)
    (check_user : LoginRequest → Option UserRecord) (req : LoginRequest) (user : UserRecord)
    → s.version_rejected ≡ false
    → s.stat_agent ≡ false
    → o.rules ≡ some rules
    → (evaluate_client_version re rules version).allowed ≡ false
    → 0 < pos_part (cooldown_seconds o.config)
    → later < now + pos_part (cooldown_seconds o.config) * 1000
    → check_user req ≡ some user
    → user.user_id ≡ s.user_id
    → let step = check_client_version db re now s o version in
      (step.effects
        ≡ client_rejected (evaluate_client_version re rules version).message version
          ∷ disconnects
          ∷ [])
      × (step.account.version_rejected ≡ true)
      × (step.online.clients ≡ o.clients)
      × (step.online.matching2_slots ≡ o.matching2_slots)
      × ((cmd_login db' check_user later (some req) s' step.online).code ≡ ErrorType.login_error)
cmd_login-check_client_version db db' re now later s s' o version rules check_user req user fresh
      client ruled denied some_time soon known same =
    let cooling = start_version_cooldown now s.user_id (cooldown_seconds o.config) o in
    let left : ltb 0 (version_cooldown_remaining later user.user_id cooling).0 ≡ true =
      subst (λ u. ltb 0 (version_cooldown_remaining later u cooling).0 ≡ true) (sym same)
        (cooldown_left now later s.user_id (cooldown_seconds o.config) o some_time soon) in
    let step = check_client_version-denied db re now s o version rules fresh client ruled denied in
    let (clients, slots) =
      start_version_cooldown-clients now s.user_id (cooldown_seconds o.config) o in
    (
      ap (λ t. t.effects) step,
      ap (λ t. t.account.version_rejected) step,
      ap (λ t. t.online.clients) step ∙ clients,
      ap (λ t. t.online.matching2_slots) step ∙ slots,
      ap (λ t. (cmd_login db' check_user later (some req) s' t.online).code) step
          ∙ ap (λ a. a.code) (cmd_login-known db' check_user later req user s' cooling known)
          ∙ login_known-cooling db' later req user s' cooling left,
    )

-- A user who deletes the own account is no client any more, and the session is disconnected, with no
-- other effect: the room is not left. The cleanup that follows the disconnection changes nothing and
-- has no effect either: a matchmaking slot, a seat in a room and the place in the usage counts,
-- where the user has them, stay taken.
pub cleanup_on_disconnect-cmd_delete :
    (user : UserRecord) (s : Account) (o : Online)
    → user.user_id ≡ s.user_id
    → let step = (cmd_delete (some (some user)) true s o).step in
      (find s.user_id step.online.clients ≡ none)
      × (step.online.matching2_slots ≡ o.matching2_slots)
      × (step.online.usage ≡ o.usage)
      × (step.effects ≡ disconnects ∷ [])
      × (cleanup_on_disconnect step.account step.online ≡ still step.account step.online)
unfolding cmd_delete delete_known cleanup_on_disconnect
cleanup_on_disconnect-cmd_delete user s o same =
    rw (same, beq_self s.user_id)
      (
        find-remove s.user_id s.user_id o.clients ∙ ground (arith, beq_self s.user_id),
        refl,
        refl,
        refl,
        refl,
      )

register_online-registered :
    (db : Database) (s : Account) (o : Online)
    → s.registered ≡ true
    → register_online db s o ≡ still s o
unfolding register_online
register_online-registered db s o h = rw (h, register_online) refl

-- A session that is online as one user, who is among the clients, and signs in as another user is the
-- other's then, but the clients are as before: the other is not added and the first stays; and the
-- cleanup of the session, once it is disconnected, leaves the first among the clients.
pub cleanup_on_disconnect-sign_in :
    (db : Database) (req : LoginRequest) (user : UserRecord) (s : Account) (o : Online)
    (entry : ClientEntry)
    → s.registered ≡ true
    → find s.user_id o.clients ≡ some entry
    → user.user_id ≢ s.user_id
    → let step = sign_in db req user s o in
      (step.account.user_id ≡ user.user_id)
      × (step.online.clients ≡ o.clients)
      × (find s.user_id (cleanup_on_disconnect step.account step.online).online.clients
          ≡ some entry)
unfolding sign_in cleanup_on_disconnect
cleanup_on_disconnect-sign_in db req user s o entry online here other =
    let s' = signed_in db req user s o in
    let kept : find s.user_id (remove user.user_id o.clients) ≡ some entry =
      find-remove user.user_id s.user_id o.clients
      ∙ rw (beq_ne user.user_id s.user_id other) here in
    elim (Bool-cases (ltb 0 (version_timeout o) && not user.stat_agent)) [
      | inl y ↦ rw (y, online, sign_in, cleanup_on_disconnect) (refl, refl, kept)
      | inr n ↦
          rw (n, register_online-registered db s' o online, online, sign_in, cleanup_on_disconnect)
            (refl, refl, kept)
    ]
