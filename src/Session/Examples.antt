-- ===== src/Session/Examples.antt =====
-- Packets, slots and usage counts at concrete values.
use shad_net.Prelude.{
  ℕ, ◌≤◌, ◌≡◌, refl, List, [], ◌∷◌, ◌++◌, arith, true, false, length, contains, string_eq,
}
use shad_net.Prelude.Int.{pos, int_eq}
use shad_net.Wire.{le_value}
use shad_net.Session.{
  Request, Dispatch, waits, spins, incomplete, next_packet, on_ready_read, drain, process_packet,
}
use shad_net.Session.Framing.{
  on_ready_read-frames, drain_size_zero, process_packet_lem, frames, reply_bytes, IsFramable,
  AllFramable,
}
use shad_net.Session.Slots.{try_take_slot, release_slot, try_take_slot_lem}
use shad_net.Session.Presence.{
  Usage, start, next, logs_in, touches, logs_out, usage_on_login, usage_touch_game, usage_on_logout,
  IsCounted, Reach-IsCounted,
}

abbrev login : Request
login = record { command = 0; packet_id = 7; payload = 1 ∷ 2 ∷ [] }

abbrev score : Request
score = record { command = 300; packet_id = 8; payload = [] }

two-framable : AllFramable (login ∷ score ∷ [])
unfolding AllFramable IsFramable
two-framable =
    ((omega arith, omega arith, omega arith), ((omega arith, omega arith, omega arith), tt))

part-incomplete : next_packet (0 ∷ 5 ∷ []) ≡ incomplete
unfolding next_packet
part-incomplete = refl

on_ready_read-frames_example :
    on_ready_read 3 [] (frames (login ∷ score ∷ []) ++ 0 ∷ 5 ∷ [])
    ≡ record { requests = login ∷ score ∷ []; end = waits (0 ∷ 5 ∷ []) }
on_ready_read-frames_example =
    on_ready_read-frames (login ∷ score ∷ []) (0 ∷ 5 ∷ []) []
      (frames (login ∷ score ∷ []) ++ 0 ∷ 5 ∷ []) two-framable part-incomplete refl

abbrev size_zero : List ℕ
size_zero = 0 ∷ 0 ∷ 0 ∷ 0 ∷ 0 ∷ 0 ∷ 0 ∷ 0 ∷ 0 ∷ 0 ∷ 0 ∷ 0 ∷ 0 ∷ 0 ∷ 0 ∷ []

drain_size_zero_example : (drain 9 size_zero).end ≡ spins
unfolding le_value
drain_size_zero_example = drain_size_zero 9 size_zero (omega arith) refl refl

-- A command that disconnects, as Terminate does.
abbrev echo : ℕ → List ℕ → List ℕ → Dispatch
echo command payload reply = record { code = 0; reply = reply ++ payload; disconnects = true }

process_packet_lem_example : process_packet echo login ≡ (reply_bytes 18 0 7 (0 ∷ 1 ∷ 2 ∷ []), true)
process_packet_lem_example = process_packet_lem echo login 0 (1 ∷ 2 ∷ []) true refl (omega arith)

try_take_slot_lem_case :
    let (held, after) = try_take_slot (pos 5) (pos 2) false (pos 4 ∷ []) in
    (contains after (pos 5) ≡ held)
    × (length after ≤ 2)
    × (contains (release_slot (pos 5) after) (pos 5) ≡ false)
try_take_slot_lem_case = try_take_slot_lem (pos 5) (pos 2) (pos 4 ∷ []) (omega arith) (omega arith)

abbrev nobody : Usage
nobody = record { total_online = 0; game_users = []; client_game = [] }

abbrev one_player : Usage
one_player = (usage_touch_game (pos 5) "NPWR00001_00" (usage_on_login nobody)).0

Reach-IsCounted_example : IsCounted (usage_on_logout (pos 5) true one_player)
Reach-IsCounted_example =
    Reach-IsCounted (usage_on_logout (pos 5) true one_player)
      (next (next (next start logs_in) (touches (pos 5) "NPWR00001_00")) (logs_out (pos 5) true))
