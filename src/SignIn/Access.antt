-- ===== src/SignIn/Access.antt =====
-- Who may use matchmaking: CheckMatching2Access, Matching2AllowedForAccount and CmdGetServerFeatures
-- of src/client_session.cpp.
use shad_net.Prelude.{
  ℕ, ◌≡◌, ◌≢◌, ◌⊎◌, refl, inl, inr, Bool, true, false, not, ◌||◌, Option, none, some, List, [], ◌∷◌,
  if◌then◌else◌, ◌==◌, nat_eq, ltb, contains, length, arith, Bool-cases, Option-cases, beq_self,
}
use shad_net.Prelude.Int.{ℤ, int_eq, pos_part}
use shad_net.Prelude.Assoc.{find}
use shad_net.Session.Slots.{try_take_slot}
use shad_net.SignIn.{
  Account, Online, Config, Matching2Access, normal, always, never, Effect, service_unavailable,
  Step, still,
}

-- The values of CommandType that the gate names.
abbrev pub context_start : ℕ
context_start = 100

abbrev pub leave_room : ℕ
leave_room = 103

abbrev pub context_stop : ℕ
context_stop = 106

abbrev pub set_room_member_data_internal : ℕ
set_room_member_data_internal = 116

-- Whether the gate is about a command: matchmaking, but not what leaves it.
unfoldable pub is_gated : ℕ → Bool
is_gated command =
    if ltb command context_start || ltb set_room_member_data_internal command
    then false
    else not ((command == leave_room) || (command == context_stop))

abbrev pub matching2_enabled : Option Config → Bool
matching2_enabled none = false
matching2_enabled (some c) = c.matching2_enabled

abbrev pub matching2_max_users : Option Config → ℤ
matching2_max_users none = ℤ.pos 0
matching2_max_users (some c) = c.matching2_max_users

-- The access of a user, that of an online client.
abbrev pub access_of : Account → Online → Matching2Access
access_of s o = elim (find s.user_id o.clients) [
  | none ↦ normal
  | some entry ↦ entry.matching2_access
]

abbrev is_never : Matching2Access → Bool
is_never normal = false
is_never always = false
is_never never = true

abbrev pub bypasses : Matching2Access → Bool
bypasses normal = false
bypasses always = true
bypasses never = false

-- The gate's answer: none lets the command run; `some reason` refuses it.
pub record Gate : Type 0 where
  pub refusal : Option ℕ
  pub slots : List ℤ

unfoldable pub gate : Account → Online → Gate
unfolding try_take_slot
gate s o =
    let access = access_of s o in
    if not (matching2_enabled o.config)
    then record { refusal = some 3; slots = o.matching2_slots }
    else if is_never access
    then record { refusal = some 2; slots = o.matching2_slots }
    else let (taken, slots) =
        try_take_slot s.user_id (matching2_max_users o.config) (bypasses access)
          o.matching2_slots in
      if taken
      then record { refusal = none; slots = slots }
      else record { refusal = some 1; slots = slots }

-- The notice of a refusal; only reason 1 has the slots in use and their limit.
abbrev notice : ℕ → Online → Effect
notice reason o =
    if reason == 1
    then service_unavailable 1 (some (length o.matching2_slots))
        (some (pos_part (matching2_max_users o.config)))
    else service_unavailable reason none none

-- What a refusal logs and sends: at ContextStart always, and else once in a row of refusals.
abbrev refused : ℕ → ℕ → Account → Online → Step
refused command reason s o =
    if (command == context_start) || not s.refusal_logged
    then record {
      account = record s { refusal_logged = true };
      online = o;
      effects = notice reason o ∷ [];
    }
    else still s o

-- CheckMatching2Access: whether the command is refused, and the step.
unfoldable pub check_matching2_access : ℕ → Account → Online → Bool × Step
unfolding is_gated gate
check_matching2_access command s o =
    if not (is_gated command)
    then (false, still s o)
    else if not s.registered
    then (true, still s o)
    else let g = gate s o in
      let o' = record o { matching2_slots = g.slots } in
      elim g.refusal [
        | none ↦ (false, still (record s { refusal_logged = false }) o')
        | some reason ↦ (true, refused command reason s o')
      ]

-- Matching2AllowedForAccount
unfoldable pub matching2_allowed_for_account : Account → Online → Bool
matching2_allowed_for_account s o =
    if not (matching2_enabled o.config) then false else elim s.pending_online [
      | some pending ↦ not (is_never pending.matching2_access)
      | none ↦ not (is_never (access_of s o))
    ]

module _ (user max_users : ℤ) (bypass : Bool) (slots : List ℤ) where
  try_take_slot-taken :
      (try_take_slot user max_users bypass slots).0 ≡ true
      → contains (try_take_slot user max_users bypass slots).1 user ≡ true
  unfolding try_take_slot contains
  try_take_slot-taken h = ground (arith, beq_self user)

  try_take_slot-refused :
      (try_take_slot user max_users bypass slots).0 ≡ false
      → (try_take_slot user max_users bypass slots).1 ≡ slots
  unfolding try_take_slot
  try_take_slot-refused h = ground arith

not-never : (a : Matching2Access) → is_never a ≡ false → a ≢ never
not-never normal h e = absurd (cc)
not-never always h e = absurd (cc)
not-never never h e = absurd (ground arith)

gate-open :
    (s : Account) (o : Online)
    → (gate s o).refusal ≡ none
    → (matching2_enabled o.config ≡ true)
      × (access_of s o ≢ never)
      × (contains (gate s o).slots s.user_id ≡ true)
unfolding gate
gate-open s o h =
    let taken =
      try_take_slot-taken s.user_id (matching2_max_users o.config) (bypasses (access_of s o))
        o.matching2_slots in
    (ground arith, not-never (access_of s o) (ground arith), ground (arith, taken))

gate-shut :
    (s : Account) (o : Online) (reason : ℕ)
    → (gate s o).refusal ≡ some reason
    → (gate s o).slots ≡ o.matching2_slots
unfolding gate
gate-shut s o reason h =
    let kept =
      try_take_slot-refused s.user_id (matching2_max_users o.config) (bypasses (access_of s o))
        o.matching2_slots in
    ground (arith, kept)

-- A matchmaking command other than leaving is let through only in a session that is registered, with
-- matchmaking enabled and an account that is not barred from it, and the user then holds a slot. What
-- is refused leaves the slots as they were.
pub check_matching2_access_lem :
    (command : ℕ) (s : Account) (o : Online)
    → is_gated command ≡ true
    → let (refusal, step) = check_matching2_access command s o in
      ((refusal ≡ true) × (step.online.matching2_slots ≡ o.matching2_slots))
      ⊎ ((refusal ≡ false)
          × (s.registered ≡ true)
          × (matching2_enabled o.config ≡ true)
          × (access_of s o ≢ never)
          × (contains step.online.matching2_slots s.user_id ≡ true))
unfolding check_matching2_access
check_matching2_access_lem command s o h = elim (Bool-cases s.registered) [
  | inl y ↦ elim (Option-cases (gate s o).refusal) [
    | inl free ↦
        let (enabled, allowed, held) = gate-open s o free in
        rw (h, y, free, check_matching2_access) (inr (refl, refl, enabled, allowed, held))
    | inr (reason, shut) ↦
        rw (h, y, shut, check_matching2_access)
          (inl (refl, ground (arith, gate-shut s o reason shut)))
  ]
  | inr n ↦ rw (h, n, check_matching2_access) (inl (refl, refl))
]
