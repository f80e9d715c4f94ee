-- ===== src/SignIn/Dispatch/Packets.antt =====
-- The packets of a session, from the bytes that arrive to the replies: OnReadyRead, ProcessPacket and
-- DispatchCommand of src/client_session.cpp together.
use shad_net.Prelude.{ℕ, ◌≢◌, Bool, true, false, List, [], ◌∷◌, String}
use shad_net.Session.{Request, Dispatch, process_packet, reply_head}
use shad_net.Session.Framing.{reply_bytes}
use shad_net.SignIn.{Account, Online, Effect, Step, disconnects}
use shad_net.SignIn.Dispatch.{login, terminate, create, Dispatched, Handler, dispatch_command}

-- Whether disconnectFromHost is among the effects of a step.
unfoldable pub drops_session : List Effect → Bool
drops_session [] = false
drops_session (disconnects ∷ effects) = true
drops_session (effect ∷ effects) = drops_session effects

module _ (latin1 : List ℕ → String) (handle : Handler) where
  -- DispatchCommand within ProcessPacket.
  abbrev pub dispatched : Request → Account → Online → Dispatched
  unfolding dispatch_command
  dispatched req s o =
      dispatch_command latin1 handle req.command req.payload (reply_head req.command req.packet_id)
        s o

  -- DispatchCommand as ProcessPacket calls it.
  abbrev pub dispatch_of : Account → Online → ℕ → List ℕ → List ℕ → Dispatch
  unfolding dispatch_command drops_session
  dispatch_of s o command payload reply =
      let d = dispatch_command latin1 handle command payload reply s o in
      record { code = d.code; reply = d.reply; disconnects = drops_session d.step.effects }

  -- ProcessPacket: the reply, whether the session is disconnected, and the step.
  unfoldable pub serve_packet : Request → Account → Online → (List ℕ × Bool) × Step
  unfolding process_packet
  serve_packet req s o = (process_packet (dispatch_of s o) req, (dispatched req s o).step)

  -- The calls of ProcessPacket in the loop of OnReadyRead, one after another: the replies, and the
  -- session and the shared state at the end.
  unfoldable pub serve_packets :
      List Request → Account → Online → List (List ℕ × Bool) × Account × Online
  unfolding serve_packet
  serve_packets [] s o = ([], s, o)
  serve_packets (req ∷ reqs) s o =
      let (sent, step) = serve_packet req s o in
      let (more, s', o') = serve_packets reqs step.account step.online in (sent ∷ more, s', o')

  -- No command that an unauthenticated session may use.
  unfoldable pub AllClosed : List Request → Type 0
  AllClosed [] = Unit
  AllClosed (req ∷ reqs) =
      ((req.command ≢ terminate) × (req.command ≢ login) × (req.command ≢ create)) × AllClosed reqs

  -- Replies of 16 bytes: type 1, the request's command and id, and the error Unauthorized, 23.
  abbrev pub refusals : List Request → List (List ℕ × Bool)
  refusals [] = []
  refusals (req ∷ reqs) =
      (reply_bytes 16 req.command req.packet_id (23 ∷ []), false) ∷ refusals reqs
