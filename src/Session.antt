-- ===== src/Session.antt =====
-- src/client_session.cpp: the framing of packets. Bytes are numbers below 256. What a command does
-- is a parameter, the dispatch; so is the socket, which hands over bytes and takes packets.
pub mod Framing
pub mod Presence
pub mod Slots
mod Examples
use shad_net.Prelude.{
  ℕ, zero, suc, ◌+◌, ◌-◌, ◌%◌, ◌^◌, Bool, true, false, ◌||◌, Option, none, some, List, [], ◌∷◌,
  ◌++◌, if◌then◌else◌, ◌==◌, ◌!=◌, nat_eq, ltb, length, take, drop, set,
}
use shad_net.Wire.{slice, le_value, append_u16, append_u32, append_u64, fix_packet_size}

abbrev pub header_size : ℕ
header_size = 15

abbrev pub max_packet_size : ℕ
max_packet_size = 0x800000

-- A packet's header after its type byte.
pub record Request : Type 0 where
  pub command : ℕ
  pub packet_id : ℕ
  pub payload : List ℕ

-- What the head of the read buffer holds.
pub data Head : Type 0 where
  incomplete : Head
  disconnect : Head
  packet : Request → (rest : List ℕ) → Head

abbrev pub pkt_size : List ℕ → ℕ
pkt_size buf = le_value (slice 3 4 buf)

-- One round of the loop of OnReadyRead, the test of the loop included. The payload is
-- `mid(HEADER_SIZE, pktSize - HEADER_SIZE)`: below the header's size the difference wraps around,
-- and `mid` takes all that follows the header.
unfoldable pub next_packet : List ℕ → Head
unfolding le_value
next_packet buf =
    if ltb (length buf) header_size
    then incomplete
    else if le_value (take 1 buf) != 0
    then disconnect
    else if ltb max_packet_size (pkt_size buf)
    then disconnect
    else if ltb (length buf) (pkt_size buf)
    then incomplete
    else packet
        (record {
          command = le_value (slice 1 2 buf);
          packet_id = le_value (slice 7 8 buf);
          payload =
              if ltb (pkt_size buf) header_size
              then drop header_size buf
              else slice header_size (pkt_size buf - header_size) buf;
        })
        (drop (pkt_size buf) buf)

-- What OnReadyRead leaves: the packets that it hands to ProcessPacket, in order, and how it ended.
pub data End : Type 0 where
  waits : (buf : List ℕ) → End
  drops : End
  spins : End

pub record Drained : Type 0 where
  pub requests : List Request
  pub end : End

pub drain_head : (List ℕ → Drained) → List ℕ → Head → Drained
drain_head again buf incomplete = record { requests = []; end = waits buf }
drain_head again buf disconnect = record { requests = []; end = drops }
drain_head again buf (packet req rest) =
    let more = again rest in record { requests = req ∷ more.requests; end = more.end }

-- The loop of OnReadyRead on fuel; `spins`: it is still running.
unfoldable pub drain : ℕ → List ℕ → Drained
unfolding drain_head next_packet
drain zero buf = record { requests = []; end = spins }
drain (suc fuel) buf = drain_head (drain fuel) buf (next_packet buf)

-- OnReadyRead: the bytes that have arrived are appended to the read buffer first.
unfoldable pub on_ready_read : ℕ → List ℕ → List ℕ → Drained
unfolding drain
on_ready_read fuel read_buf arrived = drain fuel (read_buf ++ arrived)

-- A request as a client frames it.
unfoldable pub frame_request : Request → List ℕ
unfolding append_u16 append_u32 append_u64
frame_request req =
    append_u64 (append_u32 (append_u16 (0 ∷ []) req.command) (header_size + length req.payload))
      req.packet_id
    ++ req.payload

-- BuildNotification; 2 is PacketType::Notification.
unfoldable pub build_notification : ℕ → List ℕ → List ℕ
unfolding append_u16 append_u32 append_u64
build_notification type payload =
    append_u64 (append_u32 (append_u16 (2 ∷ []) type) ((header_size + length payload) % 2 ^ 32)) 0
    ++ payload

-- The reply of ProcessPacket: its header and error byte, to which the dispatch appends; 1 is
-- PacketType::Reply.
unfoldable pub reply_head : ℕ → ℕ → List ℕ
unfolding append_u16 append_u32 append_u64
reply_head command packet_id =
    append_u64 (append_u32 (append_u16 (1 ∷ []) command) header_size) packet_id ++ 0 ∷ []

-- What DispatchCommand gives: the error code, the reply with its bytes appended, and whether the
-- command has disconnected the session, as Terminate does.
pub record Dispatch : Type 0 where
  pub code : ℕ
  pub reply : List ℕ
  pub disconnects : Bool

-- ProcessPacket: the reply that it hands to SendPacket, and whether the session is disconnected when
-- it returns, by the command or for a malformed one; 1 is Malformed.
unfoldable pub process_packet :
    (dispatch : ℕ → List ℕ → List ℕ → Dispatch) → Request → List ℕ × Bool
unfolding reply_head fix_packet_size
process_packet dispatch req =
    let d = dispatch req.command req.payload (reply_head req.command req.packet_id) in
    (fix_packet_size (set d.reply header_size (d.code % 256)), d.disconnects || (d.code == 1))
