-- ===== src/SignIn/Dispatch/Gates.antt =====
-- The gates of DispatchCommand.
use shad_net.Prelude.{
  ℕ, ◌≡◌, ◌≢◌, ◌∙◌, refl, sym, subst, Bool, true, false, not, ◌&&◌, Option, List, [], ◌∷◌,
  if◌then◌else◌, ◌==◌, nat_eq, length, String, string_eq, arith, Bool-cases, inl, inr, beq_ne,
}
use shad_net.Prelude.Int.{int_eq}
use shad_net.Wire.{peek_bytes}
use shad_net.Wire.Integers.{reader}
use shad_net.SignIn.{Account, Online, Effect, title_info}
use shad_net.SignIn.ErrorType
use shad_net.SignIn.Access.{check_matching2_access, is_gated}
use shad_net.SignIn.Dispatch.{
  login, terminate, create, leads_with_com_id, Dispatched, Handler, quiet, touch_title, touch_game,
  admit, greet, serve, dispatch_command,
}

-- A command answered with Unauthorized: nothing appended to the reply, the slots and the clients kept.
pub IsUnauthorized : List ℕ → Online → Dispatched → Type 0
IsUnauthorized reply o d =
    (d.code ≡ ErrorType.unauthorized)
    × (d.reply ≡ reply)
    × (d.step.online.matching2_slots ≡ o.matching2_slots)
    × (d.step.online.clients ≡ o.clients)

IsUnauthorized-online :
    (reply : List ℕ) (o o' : Online) (d : Dispatched)
    → o'.matching2_slots ≡ o.matching2_slots
    → o'.clients ≡ o.clients
    → IsUnauthorized reply o' d
    → IsUnauthorized reply o d
unfolding IsUnauthorized
IsUnauthorized-online reply o o' d slots clients v = (v.0, v.1, v.2 ∙ slots, v.3 ∙ clients)

admit-IsUnauthorized :
    (handle : Handler) (command : ℕ) (payload reply : List ℕ) (touched : List Effect)
    (title : Option (String × String)) (s : Account) (o : Online)
    → is_gated command ≡ true
    → s.registered && not s.version_rejected ≡ false
    → IsUnauthorized reply o (admit handle command payload reply touched title s o)
unfolding admit IsUnauthorized check_matching2_access
admit-IsUnauthorized handle command payload reply touched title s o gated out =
    elim (Bool-cases s.version_rejected) [
      | inl y ↦ rw (y, admit) (refl, refl, refl, refl)
      | inr n ↦
          let unseen : s.registered ≡ false = ground arith in
          rw (n, gated, unseen, admit, check_matching2_access) (refl, refl, refl, refl)
    ]

touch_title-online :
    (com_id : String) (size : ℕ) (s : Account) (o : Online)
    → ((touch_title com_id size s o).0.matching2_slots ≡ o.matching2_slots)
      × ((touch_title com_id size s o).0.clients ≡ o.clients)
unfolding touch_title
touch_title-online com_id size s o = elim (Bool-cases (size == 12)) [
  | inl y ↦ rw (y, touch_title) (refl, refl)
  | inr n ↦ rw (n, touch_title) (refl, refl)
]

touch_game-online :
    (latin1 : List ℕ → String) (command : ℕ) (payload : List ℕ) (s : Account) (o : Online)
    → ((touch_game latin1 command payload s o).0.matching2_slots ≡ o.matching2_slots)
      × ((touch_game latin1 command payload s o).0.clients ≡ o.clients)
unfolding touch_game
touch_game-online latin1 command payload s o =
    let cid = peek_bytes 12 (reader payload 0) in
    elim (Bool-cases (leads_with_com_id command)) [
      | inl y ↦ rw (y, touch_game) (touch_title-online (latin1 cid) (length cid) s o)
      | inr n ↦ rw (n, touch_game) (refl, refl)
    ]

last_branch {ℓ} :
    {A : Type ℓ} (b c : Bool) (x y z : A)
    → b ≡ false
    → c ≡ true
    → (if b then x else if not c then y else z) ≡ z
last_branch b c x y z h k = rw (h, k) refl

module _ (latin1 : List ℕ → String) (handle : Handler) (payload reply : List ℕ) where
  -- In a session that is not authenticated, a command other than Terminate, Login and Create is
  -- answered with Unauthorized, whatever its handler does: the session and the shared state are as
  -- before, nothing is sent and nothing appended to the reply.
  pub dispatch_command_unauthenticated :
      (command : ℕ) (s : Account) (o : Online)
      → s.authenticated ≡ false
      → command ≢ terminate
      → command ≢ login
      → command ≢ create
      → dispatch_command latin1 handle command payload reply s o
        ≡ quiet ErrorType.unauthorized s o reply
  unfolding dispatch_command greet
  dispatch_command_unauthenticated command s o out t l c =
      rw
        (
          beq_ne command terminate t,
          out,
          dispatch_command,
          beq_ne command login l,
          beq_ne command create c,
        )
        refl

  dispatch_command-served :
      (command : ℕ) (s : Account) (o : Online)
      → s.authenticated ≡ true
      → command ≢ terminate
      → dispatch_command latin1 handle command payload reply s o
        ≡ serve latin1 handle command payload reply s o
  unfolding dispatch_command
  dispatch_command-served command s o signed late =
      last_branch (command == terminate) s.authenticated _ _ _ (beq_ne command terminate late)
        signed

  -- In an authenticated session that is not registered, or whose client version was rejected, every
  -- matchmaking command but leaving is answered with Unauthorized, whatever its handler does: nobody
  -- takes a matchmaking slot, the clients are as before, and nothing is appended to the reply.
  pub dispatch_command_shut :
      (command : ℕ) (s : Account) (o : Online)
      → s.authenticated ≡ true
      → is_gated command ≡ true
      → s.registered && not s.version_rejected ≡ false
      → IsUnauthorized reply o (dispatch_command latin1 handle command payload reply s o)
  unfolding serve is_gated
  dispatch_command_shut command s o signed gated out =
      let late : command ≢ terminate = λ e. ground arith in
      let (slots, clients) = touch_game-online latin1 command payload s o in
      let t = touch_game latin1 command payload s o in
      subst (IsUnauthorized reply o) (sym (dispatch_command-served command s o signed late)) (
        IsUnauthorized-online reply o t.0 _ slots clients (
          admit-IsUnauthorized handle command payload reply (if t.1 then title_info ∷ [] else [])
            t.2 s t.0 gated out))
