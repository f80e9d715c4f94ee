-- ===== src/Session/Framing.antt =====
-- Framed requests are what the read loop hands on.
use mathlib.Core.List.{append_assoc}
use shad_net.Prelude.{
  ℕ, zero, suc, ◌+◌, ◌-◌, ◌/◌, ◌%◌, ◌^◌, ◌≤◌, ◌<◌, ◌≡◌, ◌∙◌, refl, ap, sym, Bool, false, ◌||◌, List,
  [], ◌∷◌, ◌++◌, arith, length, take, drop, set, ltb, take-append_left, drop-append_left,
  length-append, nat_eq, ◌==◌,
}
use shad_net.Wire.{append_u16, append_u32, le_value, slice, fix_packet_size}
use shad_net.Wire.Integers.{append_u64_bytes, bytes_of_u64, le_value_u64}
use shad_net.Session.{
  Request, Dispatch, incomplete, packet, next_packet, frame_request, header_size, max_packet_size,
  pkt_size, drain, drain_head, process_packet, reply_head, waits, spins, on_ready_read,
}

-- A request that fits its frame.
unfoldable pub IsFramable : Request → Type 0
IsFramable req =
    (req.command < 2 ^ 16)
    × (req.packet_id < 2 ^ 64)
    × (header_size + length req.payload ≤ max_packet_size)

header_bytes : Request → List ℕ
header_bytes req =
    let size = header_size + length req.payload in
    0
    ∷ req.command % 256
    ∷ req.command / 2 ^ 8 % 256
    ∷ size % 256
    ∷ size / 2 ^ 8 % 256
    ∷ size / 2 ^ 16 % 256
    ∷ size / 2 ^ 24 % 256
    ∷ bytes_of_u64 req.packet_id

frame_request-bytes : (req : Request) → frame_request req ≡ header_bytes req ++ req.payload
unfolding frame_request append_u16 append_u32 header_bytes
frame_request-bytes req =
    ap (λ b. b ++ req.payload)
      (append_u64_bytes
        (append_u32 (append_u16 (0 ∷ []) req.command) (header_size + length req.payload))
        req.packet_id)

take-length : (xs rest : List ℕ) (n : ℕ) → n ≡ length xs → take n (xs ++ rest) ≡ xs
take-length xs rest n h = ap (λ k. take k (xs ++ rest)) h ∙ take-append_left xs rest

drop-length : (xs rest : List ℕ) (n : ℕ) → n ≡ length xs → drop n (xs ++ rest) ≡ rest
drop-length xs rest n h = ap (λ k. drop k (xs ++ rest)) h ∙ drop-append_left xs rest

-- The loop's next packet is the framed one, and what follows it is left.
module _ (req : Request) (rest : List ℕ) (v : IsFramable req) where
  buf : List ℕ
  unfolding header_bytes
  buf = header_bytes req ++ (req.payload ++ rest)

  buf-length : length buf ≡ header_size + (length req.payload + length rest)
  unfolding buf
  buf-length = omega (arith, length-append req.payload rest)

  buf-size : pkt_size buf ≡ header_size + length req.payload
  unfolding buf IsFramable le_value
  buf-size = let bound = v.2 in omega arith

  buf-command : le_value (slice 1 2 buf) ≡ req.command
  unfolding buf IsFramable le_value
  buf-command = let bound = v.0 in omega arith

  buf-id : le_value (slice 7 8 buf) ≡ req.packet_id
  unfolding buf IsFramable
  buf-id = le_value_u64 req.packet_id v.1

  buf-payload : slice header_size (pkt_size buf - header_size) buf ≡ req.payload
  unfolding buf
  buf-payload = take-length req.payload rest _ (omega (arith, buf-size))

  buf-rest : drop (pkt_size buf) buf ≡ rest
  unfolding buf
  buf-rest =
      ap (drop (pkt_size buf)) (sym (append_assoc (header_bytes req) req.payload rest))
      ∙ drop-length (header_bytes req ++ req.payload) rest (pkt_size buf) (omega (arith, buf-size))

  buf-type : le_value (take 1 buf) ≡ 0
  unfolding buf le_value
  buf-type = omega arith

  buf-fits : pkt_size buf ≤ max_packet_size
  unfolding IsFramable
  buf-fits = omega (arith, buf-size, v.2)

  next_packet-buf : next_packet buf ≡ packet req rest
  unfolding next_packet
  next_packet-buf =
      let long : ltb (length buf) header_size ≡ false = ground (arith, buf-length) in
      let whole : ltb (length buf) (pkt_size buf) ≡ false = ground (arith, buf-length, buf-size) in
      let small : ltb max_packet_size (pkt_size buf) ≡ false = ground (arith, buf-fits) in
      let headed : ltb (pkt_size buf) header_size ≡ false = ground (arith, buf-size) in
      rw
        (
          long, buf-type, small, whole, headed, buf-command, buf-id, buf-payload, buf-rest,
          next_packet,
        )
        refl

  next_packet-frame : next_packet (frame_request req ++ rest) ≡ packet req rest
  unfolding buf
  next_packet-frame =
      ap (λ b. next_packet (b ++ rest)) (frame_request-bytes req)
      ∙ ap next_packet (append_assoc (header_bytes req) req.payload rest)
      ∙ next_packet-buf

abbrev pub frames : List Request → List ℕ
frames [] = []
frames (req ∷ reqs) = frame_request req ++ frames reqs

unfoldable pub AllFramable : List Request → Type 0
AllFramable [] = Unit
AllFramable (req ∷ reqs) = IsFramable req × AllFramable reqs

drain-frames :
    (reqs : List Request) (rest : List ℕ)
    → AllFramable reqs
    → next_packet rest ≡ incomplete
    → drain (suc (length reqs)) (frames reqs ++ rest) ≡ record { requests = reqs; end = waits rest }
unfolding drain drain_head AllFramable
drain-frames [] rest v h = rw (h, drain) refl
drain-frames (req ∷ reqs) rest v h =
    rw
      (
        append_assoc (frame_request req) (frames reqs) rest,
        next_packet-frame req (frames reqs ++ rest) v.0,
        drain,
      )
      (ap (λ d. record { requests = req ∷ d.requests; end = d.end }) (drain-frames reqs rest v.1 h))

-- Requests that a client frames, however the buffer before and the bytes that arrive share them,
-- are handed on by OnReadyRead in their order, in a round for each and one more; a part of a packet
-- that follows them is kept for the next bytes.
pub on_ready_read-frames :
    (reqs : List Request) (rest read_buf arrived : List ℕ)
    → AllFramable reqs
    → next_packet rest ≡ incomplete
    → read_buf ++ arrived ≡ frames reqs ++ rest
    → on_ready_read (suc (length reqs)) read_buf arrived
      ≡ record { requests = reqs; end = waits rest }
unfolding on_ready_read
on_ready_read-frames reqs rest read_buf arrived v h same =
    ap (drain (suc (length reqs))) same ∙ drain-frames reqs rest v h

-- A packet of type Request whose size field is 0 is never taken off the buffer: after any number of
-- rounds the loop of OnReadyRead is still running.
pub drain_size_zero :
    (fuel : ℕ) (buf : List ℕ)
    → header_size ≤ length buf
    → le_value (take 1 buf) ≡ 0
    → pkt_size buf ≡ 0
    → (drain fuel buf).end ≡ spins
unfolding drain drain_head next_packet
drain_size_zero zero buf long typed sized = refl
drain_size_zero (suc fuel) buf long typed sized =
    let enough : ltb (length buf) header_size ≡ false = ground arith in
    let here : ltb (length buf) 0 ≡ false = ground arith in
    rw (enough, typed, sized, here, next_packet, drain) (drain_size_zero fuel buf long typed sized)

pub reply_bytes : ℕ → ℕ → ℕ → List ℕ → List ℕ
reply_bytes size command packet_id tail =
    1
      ∷ command % 256
      ∷ command / 2 ^ 8 % 256
      ∷ size % 256
      ∷ size / 2 ^ 8 % 256
      ∷ size / 2 ^ 16 % 256
      ∷ size / 2 ^ 24 % 256
      ∷ bytes_of_u64 packet_id
    ++ tail

reply_head-bytes :
    (command packet_id : ℕ)
    → reply_head command packet_id ≡ reply_bytes header_size command packet_id (0 ∷ [])
unfolding reply_head append_u16 append_u32 reply_bytes
reply_head-bytes command packet_id =
    ap (λ b. b ++ 0 ∷ [])
      (append_u64_bytes (append_u32 (append_u16 (1 ∷ []) command) header_size) packet_id)

finish_reply :
    (command packet_id code : ℕ) (body : List ℕ)
    → header_size + 1 + length body < 2 ^ 32
    → fix_packet_size
        (set (reply_bytes header_size command packet_id (0 ∷ body)) header_size (code % 256))
      ≡ reply_bytes (header_size + 1 + length body) command packet_id (code % 256 ∷ body)
unfolding fix_packet_size reply_bytes
finish_reply command packet_id code body small =
    ap (λ n. reply_bytes n command packet_id (code % 256 ∷ body)) (omega arith)

-- A reply is a packet of its own length: whatever a command appends, the reply that is handed over to
-- be sent has type 1, the request's command and id, its own size (a length below 2 to the 32), the
-- error code and what was appended; and the session is disconnected if and only if the command did
-- so or its code is that of Malformed.
pub process_packet_lem :
    (dispatch : ℕ → List ℕ → List ℕ → Dispatch) (req : Request) (code : ℕ) (body : List ℕ)
    (gone : Bool)
    → dispatch req.command req.payload (reply_head req.command req.packet_id) ≡ record {
      code = code;
      reply = reply_head req.command req.packet_id ++ body;
      disconnects = gone;
    }
    → header_size + 1 + length body < 2 ^ 32
    → process_packet dispatch req ≡ (
      reply_bytes (header_size + 1 + length body) req.command req.packet_id (code % 256 ∷ body),
      gone || (code == 1),
    )
unfolding process_packet reply_bytes
process_packet_lem dispatch req code body gone h small =
    ap
      (λ d.
        (fix_packet_size (set d.reply header_size (d.code % 256)), d.disconnects || (d.code == 1)))
      h
    ∙ ap (λ b. (fix_packet_size (set (b ++ body) header_size (code % 256)), gone || (code == 1)))
        (reply_head-bytes req.command req.packet_id)
    ∙ ap (λ b. (b, gone || (code == 1))) (finish_reply req.command req.packet_id code body small)
