-- ===== src/SignIn/Examples.antt =====
-- Sessions that sign in, at concrete values.
use shad_net.Prelude.{
  ℕ, ◌≡◌, ◌≢◌, ◌⊎◌, refl, true, false, Option, none, some, List, [], ◌∷◌, arith, String, string_eq,
  contains,
}
use shad_net.Prelude.Int.{ℤ, pos, int_eq}
use shad_net.Prelude.Assoc.{find}
use shad_net.Prelude.Text.{codes}
use shad_net.ClientVersions.{ClientVersionRule, any, Regexes}
use shad_net.ClientVersions.Rules.{evaluate_client_version, hits}
use shad_net.SignIn.{
  Account, Online, Database, Config, ClientEntry, client_rejected, disconnects, normal, never,
  still, check_client_version, cleanup_on_disconnect, version_cooldown_remaining,
}
use shad_net.SignIn.ErrorType
use shad_net.SignIn.Login.{
  LoginRequest, UserRecord, cmd_login, cmd_delete, sign_in, login_known, login_free,
}
use shad_net.SignIn.Access.{
  is_gated, check_matching2_access, check_matching2_access_lem, matching2_enabled, access_of,
}
use shad_net.SignIn.Dispatch.{Handler, dispatch_command}
use shad_net.SignIn.Dispatch.Gates.{IsUnauthorized, dispatch_command_shut}
use shad_net.Session.{Request}
use shad_net.AuthCodes.{Store, issue, redeem}
use shad_net.SignIn.Codes.{
  CodeRequest, CodeAnswer, IsTitle, grant_of, title_of, code_answer, cmd_get_authorization_code,
  redeem-cmd_get_authorization_code,
}
use shad_net.SignIn.Laws.{
  cmd_login-check_client_version, cleanup_on_disconnect-cmd_delete, cleanup_on_disconnect-sign_in,
}
use shad_net.SignIn.Laws.Exclusive.{cmd_login_once}

abbrev fresh : Account
fresh = record {
  user_id = pos 0;
  npid = "";
  admin = false;
  stat_agent = false;
  matching_key = "";
  authenticated = false;
  registered = false;
  pending_online = none;
  version_reported = false;
  reported_version = [];
  version_rejected = false;
  refusal_logged = false;
}

abbrev alice : Account
alice = record fresh { user_id = pos 1; npid = "alice"; authenticated = true; registered = true }

abbrev held : Account
held = record alice { registered = false }

abbrev deny_all : List ClientVersionRule
deny_all = record { allow = false; kind = any; text = []; message = []; note = []; line = 1 } ∷ []

abbrev config : Config
config = record {
  matching2_enabled = true;
  matching2_max_users = pos 2;
  version_cooldown_seconds = pos 60;
  version_timeout_seconds = pos 0;
}

abbrev online : Online
online = record {
  clients = [];
  pending_version_logins = [];
  npid_to_user_id = [];
  last_login_title_id = [];
  version_cooldown_until = [];
  matching2_slots = pos 1 ∷ [];
  usage = record { total_online = 1; game_users = []; client_game = [] };
  title_groups = [];
  rules = some deny_all;
  config = some config;
}

abbrev database : Database
database = record { friends = λ u. []; matching2_access = λ u. normal }

abbrev regexes : Regexes
regexes = record { error_string = λ p. none; has_match = λ p s. false }

abbrev user : ℤ → String → UserRecord
user id npid = record {
  user_id = id;
  username = npid;
  admin = false;
  stat_agent = false;
  banned = false;
}

abbrev request : LoginRequest
request = record { npid = "alice"; title_id = ""; title_name = ""; appear_offline = false }

abbrev known : LoginRequest → Option UserRecord
known req = some (user (pos 1) "alice")

abbrev handler : Handler
handler command payload reply s o = (ErrorType.no_error, still s o, reply)

check_matching2_access_lem_example :
    let (refusal, step) = check_matching2_access 101 alice online in
    ((refusal ≡ true) × (step.online.matching2_slots ≡ pos 1 ∷ []))
    ⊎ ((refusal ≡ false)
        × (true ≡ true)
        × (matching2_enabled (some config) ≡ true)
        × (access_of alice online ≢ never)
        × (contains step.online.matching2_slots (pos 1) ≡ true))
unfolding is_gated
check_matching2_access_lem_example = check_matching2_access_lem 101 alice online refl

abbrev knocks : List Request
knocks =
    record { command = 101; packet_id = 7; payload = 1 ∷ [] }
    ∷ record { command = 3; packet_id = 8; payload = [] }
    ∷ []

dispatch_command_shut_example :
    IsUnauthorized [] online (dispatch_command (λ b. "") handler 101 [] [] held online)
unfolding is_gated
dispatch_command_shut_example =
    dispatch_command_shut (λ b. "") handler [] [] 101 held online refl refl refl

cmd_login-check_client_version_example :
    let step = check_client_version database regexes 1000 held online (codes "v0.1") in
    (step.effects
      ≡ client_rejected
          (evaluate_client_version regexes deny_all (codes "v0.1")).message
          (codes "v0.1")
        ∷ disconnects
        ∷ [])
    × (step.account.version_rejected ≡ true)
    × (step.online.clients ≡ [])
    × (step.online.matching2_slots ≡ pos 1 ∷ [])
    × ((cmd_login database known 5000 (some request) fresh step.online).code
        ≡ ErrorType.login_error)
unfolding evaluate_client_version hits
cmd_login-check_client_version_example =
    cmd_login-check_client_version database database regexes 1000 5000 held fresh online
      (codes "v0.1") deny_all known request (user (pos 1) "alice") refl refl refl refl (omega arith)
      (omega arith) refl refl

cmd_login_once_example :
    let o' = (cmd_login database known 1 (some request) fresh online).step.online in
    let second = cmd_login database known 2 (some request) fresh o' in
    (second.code ≢ ErrorType.no_error)
    × (second.step.account ≡ fresh)
    × (second.step.online.clients ≡ o'.clients)
unfolding cmd_login login_known login_free version_cooldown_remaining find contains
cmd_login_once_example =
    cmd_login_once database database known known 1 2 request request (user (pos 1) "alice")
      (user (pos 1) "alice") fresh fresh online refl refl refl refl refl

cleanup_on_disconnect-cmd_delete_example :
    let step = (cmd_delete (some (some (user (pos 1) "alice"))) true alice online).step in
    (find (pos 1) step.online.clients ≡ none)
    × (step.online.matching2_slots ≡ pos 1 ∷ [])
    × (step.online.usage ≡ online.usage)
    × (step.effects ≡ disconnects ∷ [])
    × (cleanup_on_disconnect step.account step.online ≡ still step.account step.online)
cleanup_on_disconnect-cmd_delete_example =
    cleanup_on_disconnect-cmd_delete (user (pos 1) "alice") alice online refl

abbrev alice_entry : ClientEntry
alice_entry = record {
  npid = "alice";
  friends = [];
  np_title_id = "CUSA1";
  title_name = "";
  appear_offline = false;
  matching2_access = normal;
  client_version = [];
  version_reported = false;
}

abbrev playing : Online
playing = record online {
  clients = (pos 1, alice_entry) ∷ [];
  last_login_title_id = (pos 1, "CUSA2") ∷ [];
}

cleanup_on_disconnect-sign_in_example :
    let step = sign_in database request (user (pos 2) "bob") alice playing in
    (step.account.user_id ≡ pos 2)
    × (step.online.clients ≡ playing.clients)
    × (find (pos 1) (cleanup_on_disconnect step.account step.online).online.clients
        ≡ some alice_entry)
unfolding find
cleanup_on_disconnect-sign_in_example =
    cleanup_on_disconnect-sign_in database request (user (pos 2) "bob") alice playing alice_entry
      refl refl (λ e. ground arith)

abbrev code_store : Store
code_store = record { grants = []; access_tokens = [] }

abbrev code_request : CodeRequest
code_request = record { client_id = "c"; scope = "s" }

abbrev code_draw : ℕ → String
code_draw n = "aB3dE6"

abbrev code_sent : CodeAnswer
code_sent = record {
  code = 0;
  auth_code = some "aB3dE6";
  store = (issue 1 code_draw 1000 (grant_of code_request alice playing) code_store).1;
}

redeem-cmd_get_authorization_code_example :
    (title : String) × IsTitle alice playing title
    × (alice.registered ≡ true)
    × (code_sent.code ≡ ErrorType.no_error)
    × ((redeem 1299 "aB3dE6" code_sent.store).0
        ≡ some (record {
          user_id = pos 1;
          client_id = "c";
          scope = "s";
          np_title_id = title;
          issued_at = 1000;
          expires_at = 1300;
        }))
unfolding cmd_get_authorization_code code_answer title_of issue find
redeem-cmd_get_authorization_code_example =
    redeem-cmd_get_authorization_code (λ t. 1) 1 code_draw 1000 1299 code_request alice playing
      code_store code_sent "aB3dE6" refl refl (omega arith)
