-- ===== src/SignIn.antt =====
-- Signing in: the session flags of ClientSession, the online clients of SharedState
-- (src/client_session.h), RegisterOnline of src/cmd_account.cpp, and CheckClientVersion and
-- CleanupOnDisconnect of src/client_session.cpp. The database's answers are arguments.
pub mod ErrorType
pub mod Login
pub mod Access
pub mod Dispatch
pub mod Codes
pub mod Laws
mod Examples
use shad_net.Prelude.{
  ℕ, zero, suc, ◌+◌, ◌-◌, ◌*◌, Bool, true, false, not, ◌&&◌, ◌||◌, Option, none, some, List, [],
  ◌∷◌, ◌++◌, if◌then◌else◌, ◌==◌, ◌!=◌, string_eq, is_some, ltb, leb, contains, keep_if, String,
}
use shad_net.Prelude.Int.{ℤ, int_eq, pos_part}
use shad_net.Prelude.Assoc.{Assoc, find, insert, remove}
use shad_net.Prelude.Text.{Text}
use shad_net.ClientVersions.{ClientVersionRule, Regexes}
use shad_net.ClientVersions.Rules.{evaluate_client_version}
use shad_net.Session.Presence.{Usage, usage_on_login, usage_on_logout}
use shad_net.Session.Slots.{release_slot}

pub data Matching2Access : Type 0 where
  normal always never : Matching2Access

pub record PendingOnline : Type 0 where
  pub appear_offline : Bool
  pub title_id : String
  pub title_name : String
  pub matching2_access : Matching2Access

-- The fields of a ClientSession that signing in uses.
pub record Account : Type 0 where
  pub user_id : ℤ
  pub npid : String
  pub admin : Bool
  pub stat_agent : Bool
  pub matching_key : String
  pub authenticated : Bool
  pub registered : Bool
  pub pending_online : Option PendingOnline
  pub version_reported : Bool
  pub reported_version : Text
  pub version_rejected : Bool
  pub refusal_logged : Bool

-- SharedState::ClientEntry, without its callbacks
pub record ClientEntry : Type 0 where
  pub npid : String
  pub friends : Assoc ℤ String
  pub np_title_id : String
  pub title_name : String
  pub appear_offline : Bool
  pub matching2_access : Matching2Access
  pub client_version : Text
  pub version_reported : Bool

pub record Config : Type 0 where
  pub matching2_enabled : Bool
  pub matching2_max_users : ℤ
  pub version_cooldown_seconds : ℤ
  pub version_timeout_seconds : ℤ

-- The fields of SharedState that signing in uses; `rules`: the client version rules, if there are any.
pub record Online : Type 0 where
  pub clients : Assoc ℤ ClientEntry
  pub pending_version_logins : List ℤ
  pub npid_to_user_id : Assoc String ℤ
  pub last_login_title_id : Assoc ℤ String
  pub version_cooldown_until : Assoc ℤ ℕ
  pub matching2_slots : List ℤ
  pub usage : Usage
  pub title_groups : Assoc String String
  pub rules : Option (List ClientVersionRule)
  pub config : Option Config

-- What the database answers of a user, now: the friends, and the matchmaking access.
pub record Database : Type 0 where
  pub friends : ℤ → List (ℤ × String)
  pub matching2_access : ℤ → Matching2Access

-- What a step does outside this state: FriendStatus to a friend, with its presence event;
-- ClientRejected and ServiceUnavailable to the session; EmitPresenceGameTitleInfo;
-- CleanupMatchingOnDisconnect; PurgeUserFromSessions; and disconnectFromHost.
pub data Effect : Type 0 where
  friend_status : ℤ → (online : Bool) → Effect
  client_rejected : (message version : Text) → Effect
  service_unavailable : (reason : ℕ) (in_use limit : Option ℕ) → Effect
  title_info leaves_room purges_sessions disconnects : Effect

pub record Step : Type 0 where
  pub account : Account
  pub online : Online
  pub effects : List Effect

abbrev pub still : Account → Online → Step
still s o = record { account = s; online = o; effects = [] }

-- StartVersionCooldown; the time is in milliseconds.
unfoldable pub start_version_cooldown : ℕ → ℤ → ℤ → Online → Online
start_version_cooldown now user seconds o =
    if ltb 0 (pos_part seconds)
    then record o {
      version_cooldown_until = insert user (now + pos_part seconds * 1000) o.version_cooldown_until;
    }
    else o

-- VersionCooldownRemainingMs: what is left, and the shared state without an entry that is over.
unfoldable pub version_cooldown_remaining : ℕ → ℤ → Online → ℕ × Online
version_cooldown_remaining now user o = elim (find user o.version_cooldown_until) [
  | none ↦ (0, o)
  | some until ↦
      if leb until now
      then (0, record o { version_cooldown_until = remove user o.version_cooldown_until })
      else (until - now, o)
]

-- The loop of RegisterOnline over the friends: each that is online has the user among its friends
-- and is told; the clients, and those who are told.
unfoldable pub tell_friends :
    ℤ → String → List (ℤ × String) → Assoc ℤ ClientEntry → Assoc ℤ ClientEntry × List ℤ
tell_friends user npid [] clients = (clients, [])
tell_friends user npid ((id, name) ∷ friends) clients = elim (find id clients) [
  | none ↦ tell_friends user npid friends clients
  | some entry ↦
      let entry' : ClientEntry = record entry { friends = insert user npid entry.friends } in
      let (clients', told) = tell_friends user npid friends (insert id entry' clients) in
      (clients', id ∷ told)
]

unfoldable pub friend_table : List (ℤ × String) → Assoc ℤ String → Assoc ℤ String
friend_table [] table = table
friend_table ((id, name) ∷ friends) table = friend_table friends (insert id name table)

abbrev pub statuses : Bool → List ℤ → List Effect
statuses online [] = []
statuses online (id ∷ ids) = friend_status id online ∷ statuses online ids

abbrev new_entry : Database → Account → PendingOnline → ClientEntry
unfolding friend_table
new_entry db s pending = record {
  npid = s.npid;
  friends = friend_table (db.friends s.user_id) [];
  np_title_id = pending.title_id;
  title_name = pending.title_name;
  appear_offline = pending.appear_offline;
  matching2_access = db.matching2_access s.user_id;
  client_version = s.reported_version;
  version_reported = s.version_reported;
}

go_online : Database → Account → Online → PendingOnline → Step
unfolding tell_friends friend_table
go_online db s o pending =
    let (clients, told) = tell_friends s.user_id s.npid (db.friends s.user_id) o.clients in
    record {
      account = record s { pending_online = none; registered = true };
      online = record o {
        clients = insert s.user_id (new_entry db s pending) clients;
        pending_version_logins = keep_if (λ u. u != s.user_id) o.pending_version_logins;
        npid_to_user_id = insert s.npid s.user_id o.npid_to_user_id;
        last_login_title_id =
            if pending.title_id == ""
            then o.last_login_title_id
            else insert s.user_id pending.title_id o.last_login_title_id;
        usage = usage_on_login o.usage;
      };
      effects =
          (if pending.appear_offline then [] else statuses true told)
          ++ (if is_some (find s.user_id o.usage.client_game) then title_info ∷ [] else []);
    }

-- RegisterOnline
unfoldable pub register_online : Database → Account → Online → Step
unfolding go_online
register_online db s o =
    if s.registered || not s.authenticated
    then still s o
    else elim s.pending_online [ none ↦ still s o | some pending ↦ go_online db s o pending ]

abbrev pub cooldown_seconds : Option Config → ℤ
cooldown_seconds none = ℤ.pos 0
cooldown_seconds (some c) = c.version_cooldown_seconds

-- What CheckClientVersion does with a client whose version is denied.
abbrev reject : ℕ → Account → Online → Text → Text → Step
unfolding start_version_cooldown
reject now s o version message = record {
  account = record s { version_rejected = true };
  online = start_version_cooldown now s.user_id (cooldown_seconds o.config) o;
  effects = client_rejected message version ∷ disconnects ∷ [];
}

check_rules : Database → Regexes → ℕ → Account → Online → Text → List ClientVersionRule → Step
unfolding register_online evaluate_client_version start_version_cooldown
check_rules db re now s o version rules =
    let decision = evaluate_client_version re rules version in
    if decision.allowed then register_online db s o else reject now s o version decision.message

-- CheckClientVersion
unfoldable pub check_client_version : Database → Regexes → ℕ → Account → Online → Text → Step
unfolding check_rules register_online
check_client_version db re now s o version =
    if s.version_rejected
    then still s o
    else if s.stat_agent
    then register_online db s o
    else elim o.rules [
      | none ↦ register_online db s o
      | some rules ↦ check_rules db re now s o version rules
    ]

-- The ids of a client's friends that are online.
unfoldable pub friends_online : Assoc ℤ String → Assoc ℤ ClientEntry → List ℤ
friends_online [] clients = []
friends_online ((id, name) ∷ friends) clients =
    let rest = friends_online friends clients in
    if is_some (find id clients) then id ∷ rest else rest

abbrev farewells : Account → Online → List Effect
unfolding friends_online
farewells s o = elim (find s.user_id o.clients) [
  | none ↦ []
  | some entry ↦
      if entry.appear_offline then [] else statuses false (friends_online entry.friends o.clients)
]

-- CleanupOnDisconnect
unfoldable pub cleanup_on_disconnect : Account → Online → Step
unfolding usage_on_logout release_slot friends_online
cleanup_on_disconnect s o =
    if not s.authenticated
    then still s o
    else if not s.registered
    then record {
      account = s;
      online = record o {
        matching2_slots = release_slot s.user_id o.matching2_slots;
        pending_version_logins = keep_if (λ u. u != s.user_id) o.pending_version_logins;
        usage = usage_on_logout s.user_id false o.usage;
      };
      effects = leaves_room ∷ purges_sessions ∷ [];
    }
    else record {
      account = s;
      online = record o {
        matching2_slots = release_slot s.user_id o.matching2_slots;
        clients = remove s.user_id o.clients;
        npid_to_user_id =
            if is_some (find s.user_id o.clients)
            then remove s.npid o.npid_to_user_id
            else o.npid_to_user_id;
        usage = usage_on_logout s.user_id true o.usage;
      };
      effects = leaves_room ∷ purges_sessions ∷ farewells s o;
    }
