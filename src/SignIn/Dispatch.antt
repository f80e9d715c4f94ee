-- ===== src/SignIn/Dispatch.antt =====
-- DispatchCommand and LeadsWithComId of src/client_session.cpp. The handlers of the commands are a
-- parameter: what they do to the session, the shared state and the reply.
pub mod Gates
pub mod Packets
use shad_net.Prelude.{
  ℕ, ◌≡◌, ◌≢◌, ◌∙◌, refl, sym, subst, Bool, true, false, not, ◌&&◌, ◌||◌, Option, none, some, List,
  [], ◌∷◌, ◌++◌, if◌then◌else◌, ◌==◌, nat_eq, length, contains, String, string_eq, arith,
  Bool-cases, inl, inr, beq_ne,
}
use shad_net.Prelude.Int.{int_eq}
use shad_net.Prelude.Assoc.{find}
use shad_net.Wire.{peek_bytes}
use shad_net.Wire.Integers.{reader}
use shad_net.Session.Presence.{usage_touch_game}
use shad_net.Session.Slots.{release_slot}
use shad_net.SignIn.{Account, Online, Effect, Step, still, title_info, disconnects}
use shad_net.SignIn.ErrorType
use shad_net.SignIn.Access.{check_matching2_access, context_stop, is_gated}

abbrev pub login : ℕ
login = 0

abbrev pub terminate : ℕ
terminate = 1

abbrev pub create : ℕ
create = 2

-- The commands that the switch of DispatchCommand has: CommandType without SendToken,
-- SendResetToken, ResetPassword and ResetState, and without Terminate, which is answered before.
abbrev pub known_commands : List ℕ
known_commands =
    0 ∷ 2 ∷ 3 ∷ 8 ∷ 9 ∷ 10 ∷ 11 ∷ 40 ∷ 12 ∷ 30 ∷ 31 ∷ 32 ∷ 33 ∷ 34 ∷ 35 ∷ 36 ∷ 100 ∷ 106 ∷ 107 ∷ 101
    ∷ 102 ∷ 103 ∷ 104 ∷ 112 ∷ 114 ∷ 113 ∷ 115 ∷ 105 ∷ 108 ∷ 116 ∷ 109 ∷ 110 ∷ 111 ∷ 37 ∷ 38 ∷ 39
    ∷ 41 ∷ 42 ∷ 201 ∷ 202 ∷ 203 ∷ 204 ∷ 205 ∷ 206 ∷ 207 ∷ 208 ∷ 209 ∷ 210 ∷ 211 ∷ 212 ∷ 13 ∷ 301
    ∷ 302 ∷ 213 ∷ 214 ∷ []

-- LeadsWithComId
abbrev pub leads_with_com_id : ℕ → Bool
leads_with_com_id = contains (
    30 ∷ 31 ∷ 32 ∷ 33 ∷ 34 ∷ 35 ∷ 36 ∷ 37 ∷ 38 ∷ 201 ∷ 202 ∷ 203 ∷ 204 ∷ 205 ∷ 206 ∷ 207 ∷ 208 ∷ 209
    ∷ 210 ∷ 211 ∷ 212 ∷ 213 ∷ 214 ∷ 301 ∷ 302 ∷ [])

-- What a dispatch gives: the error code, the step, the reply, and the title name that it saves.
pub record Dispatched : Type 0 where
  pub code : ℕ
  pub step : Step
  pub reply : List ℕ
  pub saved_title : Option (String × String)

-- A command's handler: of the command, the request's payload, the reply so far and the state.
abbrev pub Handler : Type 0
Handler = ℕ → List ℕ → List ℕ → Account → Online → ℕ × Step × List ℕ

abbrev title_of : Account → Online → String
title_of s o = elim (find s.user_id o.clients) [ none ↦ "" | some entry ↦ entry.title_name ]

abbrev pub quiet : ℕ → Account → Online → List ℕ → Dispatched
quiet code s o reply = record { code = code; step = still s o; reply = reply; saved_title = none }

touch_title : String → ℕ → Account → Online → Online × Bool × Option (String × String)
unfolding usage_touch_game
touch_title com_id size s o =
    let (usage, changed) = usage_touch_game s.user_id com_id o.usage in
    let title = title_of s o in
    if size == 12
    then (
      record o { usage = usage },
      changed,
      if (com_id == "") || (title == "") then none else some (com_id, title),
    )
    else (o, false, none)

-- The game that a command is about: the state, whether the user's game has changed, and the name
-- that is saved for it. `latin1` is QString::fromLatin1.
unfoldable pub touch_game :
    (latin1 : List ℕ → String)
    → ℕ
    → List ℕ
    → Account
    → Online
    → Online × Bool × Option (String × String)
unfolding touch_title contains peek_bytes
touch_game latin1 command payload s o =
    let cid = peek_bytes 12 (reader payload 0) in
    let touched = touch_title (latin1 cid) (length cid) s o in
    if leads_with_com_id command then touched else (o, false, none)

-- The switch over the commands of a session that is let through.
unfoldable pub run_command : Handler → ℕ → List ℕ → List ℕ → Account → Online → ℕ × Step × List ℕ
unfolding contains release_slot
run_command handle command payload reply s o =
    let (code, step, reply') = handle command payload reply s o in
    if not (contains known_commands command)
    then (ErrorType.invalid, still s o, reply)
    else if command == context_stop
    then (
      code,
      record step {
        online = record step.online {
          matching2_slots = release_slot step.account.user_id step.online.matching2_slots;
        };
      },
      reply',
    )
    else (code, step, reply')

abbrev behind : List Effect → Step → Step
behind before step = record step { effects = before ++ step.effects }

-- What follows the touch of the game.
admit :
    Handler
    → ℕ
    → List ℕ
    → List ℕ
    → List Effect
    → Option (String × String)
    → Account
    → Online
    → Dispatched
unfolding check_matching2_access run_command
admit handle command payload reply touched title s o =
    if s.version_rejected
    then record {
      code = ErrorType.unauthorized;
      step = behind touched (still s o);
      reply = reply;
      saved_title = title;
    }
    else let (refused, checked) = check_matching2_access command s o in
      if refused
      then record {
        code = ErrorType.unauthorized;
        step = behind touched checked;
        reply = reply;
        saved_title = title;
      }
      else let (code, step, reply') =
          run_command handle command payload reply checked.account checked.online in
        record {
          code = code;
          step = behind (touched ++ checked.effects) step;
          reply = reply';
          saved_title = title;
        }

-- Login and Create are all that a session may do before it is authenticated.
greet : Handler → ℕ → List ℕ → List ℕ → Account → Online → Dispatched
greet handle command payload reply s o =
    let (code, step, reply') = handle command payload reply s o in
    if (command == login) || (command == create)
    then record { code = code; step = step; reply = reply'; saved_title = none }
    else quiet ErrorType.unauthorized s o reply

serve : (latin1 : List ℕ → String) → Handler → ℕ → List ℕ → List ℕ → Account → Online → Dispatched
unfolding touch_game admit
serve latin1 handle command payload reply s o =
    let (o', changed, title) = touch_game latin1 command payload s o in
    admit handle command payload reply (if changed then title_info ∷ [] else []) title s o'

-- DispatchCommand
unfoldable pub dispatch_command :
    (latin1 : List ℕ → String) → Handler → ℕ → List ℕ → List ℕ → Account → Online → Dispatched
unfolding greet serve
dispatch_command latin1 handle command payload reply s o =
    let served = serve latin1 handle command payload reply s o in
    if command == terminate
    then record {
      code = ErrorType.no_error;
      step = record { account = s; online = o; effects = disconnects ∷ [] };
      reply = reply;
      saved_title = none;
    }
    else if not s.authenticated
    then greet handle command payload reply s o
    else served
