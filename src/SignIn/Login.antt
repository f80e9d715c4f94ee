-- ===== src/SignIn/Login.antt =====
-- CmdLogin, CmdDelete and CmdSetClientVersion: src/cmd_account.cpp and src/client_session.cpp. What
-- CheckUser, SetClientVersion and DeleteAccountAndArtifacts answer is an argument.
use shad_net.Prelude.{
  ℕ, ◌-◌, Bool, true, false, not, ◌&&◌, ◌||◌, Option, none, some, List, [], ◌∷◌, ◌++◌,
  if◌then◌else◌, ◌==◌, ◌!=◌, nat_eq, string_eq, is_some, ltb, contains, String, length, take,
}
use shad_net.Prelude.Int.{ℤ, int_eq, pos_part}
use shad_net.Prelude.Assoc.{Assoc, find, insert, remove}
use shad_net.Prelude.Text.{Text}
use shad_net.ClientVersions.{Regexes}
use shad_net.SignIn.ErrorType
use shad_net.SignIn.{
  Account, Online, Database, Step, ClientEntry, still, register_online, check_client_version,
  version_cooldown_remaining, disconnects,
}

pub record LoginRequest : Type 0 where
  pub npid : String
  pub title_id : String
  pub title_name : String
  pub appear_offline : Bool

-- The fields of UserRecord that a login reads.
pub record UserRecord : Type 0 where
  pub user_id : ℤ
  pub username : String
  pub admin : Bool
  pub stat_agent : Bool
  pub banned : Bool

-- An answer: its error code, the step, and the friends that the reply of a login lists, each with
-- whether it is shown online.
pub record Answer : Type 0 where
  pub code : ℕ
  pub step : Step
  pub friends : List (String × Bool)

abbrev pub refuse : ℕ → Account → Online → Answer
refuse code s o = record { code = code; step = still s o; friends = [] }

abbrev shown_online : Option ClientEntry → Bool
shown_online none = false
shown_online (some entry) = not entry.appear_offline

unfoldable pub listed_friends : List (ℤ × String) → Assoc ℤ ClientEntry → List (String × Bool)
listed_friends [] clients = []
listed_friends ((id, name) ∷ friends) clients =
    (name, shown_online (find id clients)) ∷ listed_friends friends clients

abbrev pub version_timeout : Online → ℕ
version_timeout o = elim o.rules [
  | none ↦ 0
  | some rules ↦ elim o.config [ none ↦ 0 | some c ↦ pos_part c.version_timeout_seconds ]
]

abbrev pub matching_key_of : String → Online → String
matching_key_of title o = elim (find title o.title_groups) [ none ↦ title | some key ↦ key ]

abbrev pub signed_in : Database → LoginRequest → UserRecord → Account → Online → Account
signed_in db req user s o = record s {
  user_id = user.user_id;
  npid = user.username;
  admin = user.admin;
  stat_agent = user.stat_agent;
  authenticated = true;
  matching_key = matching_key_of req.title_id o;
  pending_online = some (record {
    appear_offline = req.appear_offline;
    title_id = req.title_id;
    title_name = req.title_name;
    matching2_access = db.matching2_access user.user_id;
  });
}

-- A login that is held for its client version, or goes online at once.
unfoldable pub sign_in : Database → LoginRequest → UserRecord → Account → Online → Step
unfolding register_online
sign_in db req user s o =
    let s' = signed_in db req user s o in
    if ltb 0 (version_timeout o) && not user.stat_agent
    then still s' (record o { pending_version_logins = user.user_id ∷ o.pending_version_logins })
    else register_online db s' o

unfoldable pub login_free : Database → LoginRequest → UserRecord → Account → Online → Answer
unfolding sign_in listed_friends
login_free db req user s o =
    if is_some (find user.user_id o.clients) || contains o.pending_version_logins user.user_id
    then refuse ErrorType.login_already_logged_in s o
    else record {
      code = ErrorType.no_error;
      step = sign_in db req user s o;
      friends = listed_friends (db.friends user.user_id) o.clients;
    }

unfoldable pub login_known : Database → ℕ → LoginRequest → UserRecord → Account → Online → Answer
unfolding login_free version_cooldown_remaining
login_known db now req user s o =
    if user.banned
    then refuse ErrorType.login_error s o
    else let (left, o') = version_cooldown_remaining now user.user_id o in
      if ltb 0 left then refuse ErrorType.login_error s o' else login_free db req user s o'

-- CmdLogin; `check_user` is what CheckUser answers to the request.
unfoldable pub cmd_login :
    Database
    → (check_user : LoginRequest → Option UserRecord) → ℕ
    → Option LoginRequest
    → Account
    → Online
    → Answer
unfolding login_known
cmd_login db check_user now none s o = refuse ErrorType.malformed s o
cmd_login db check_user now (some req) s o = elim (check_user req) [
  | none ↦ refuse ErrorType.login_invalid_password s o
  | some user ↦ login_known db now req user s o
]

unfoldable pub delete_known : Bool → UserRecord → Account → Online → Answer
delete_known deleted user s o =
    if user.user_id != s.user_id && not s.admin
    then refuse ErrorType.unauthorized s o
    else if not deleted
    then refuse ErrorType.db_fail s o
    else record {
      code = ErrorType.no_error;
      step =
          if user.user_id == s.user_id
          then record {
            account = record s { authenticated = false };
            online = record o { clients = remove s.user_id o.clients };
            effects = disconnects ∷ [];
          }
          else record { account = s; online = o; effects = disconnects ∷ [] };
      friends = [];
    }

-- CmdDelete: what CheckUser answers, if the request was read, and whether the deletion succeeds. The
-- session of another account that is deleted gets a disconnect of its own.
unfoldable pub cmd_delete : Option (Option UserRecord) → Bool → Account → Online → Answer
unfolding delete_known
cmd_delete none deleted s o = refuse ErrorType.malformed s o
cmd_delete (some none) deleted s o = refuse ErrorType.login_invalid_password s o
cmd_delete (some (some user)) deleted s o = delete_known deleted user s o

abbrev pub max_client_version_length : ℕ
max_client_version_length = 256

-- A version that is too long is cut and marked.
unfoldable pub clipped : Text → Text
clipped version =
    if ltb max_client_version_length (length version)
    then take (max_client_version_length - 1) version ++ 0x2026 ∷ []
    else version

abbrev report : Text → Account → Online → Online
report version s o = elim (find s.user_id o.clients) [
  | none ↦ o
  | some entry ↦ record o {
    clients =
        insert s.user_id (record entry { client_version = version; version_reported = true })
          o.clients;
  }
]

-- CmdSetClientVersion; `clean` is `simplified` without control characters, and `saved` what
-- SetClientVersion of the database answers.
unfoldable pub cmd_set_client_version :
    Database → Regexes → (clean : Text → Text) → Bool → ℕ → Option Text → Account → Online → Answer
unfolding check_client_version clipped
cmd_set_client_version db re clean saved now none s o = refuse ErrorType.malformed s o
cmd_set_client_version db re clean saved now (some sent) s o =
    let version = clipped (clean sent) in
    if not saved then refuse ErrorType.db_fail s o else record {
      code = ErrorType.no_error;
      step =
          check_client_version db re now
            (record s { version_reported = true; reported_version = version })
            (if s.registered then report version s o else o) version;
      friends = [];
    }
