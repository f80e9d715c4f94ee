-- ===== src/Wire.antt =====
-- src/stream_extractor.h: the reader of request payloads and the helpers that append to a packet.
-- Bytes are numbers below 256. The host is little-endian, so `memcpy` reads the little-endian
-- value and `fromLe` returns it.
pub mod Integers
pub mod Blobs
pub mod Strings
pub mod Bounds
mod Examples
use shad_net.Prelude.{
  ℕ, zero, suc, ◌+◌, ◌*◌, ◌/◌, ◌%◌, ◌^◌, ◌&&◌, ◌||◌, Bool, true, false, Option, none, some, List,
  [], ◌∷◌, ◌++◌, String, ltb, leb, if◌then◌else◌, length, take, drop, set, get_elem?, ◌==◌, nat_eq,
  Option-cases, ◌-◌, not,
}

pub record Extractor : Type 0 where
  pub bytes : List ℕ
  pub pos : ℕ
  pub error : Bool

-- StreamExtractor(data)
abbrev pub open_stream : List ℕ → Extractor
open_stream bytes = record { bytes = bytes; pos = 0; error = false }

unfoldable pub le_value : List ℕ → ℕ
le_value [] = 0
le_value (b ∷ bs) = b + 256 * le_value bs

-- The n bytes at the position: what `constData() + m_pos` reads when they are there.
abbrev pub slice : ℕ → ℕ → List ℕ → List ℕ
slice p n bytes = take n (drop p bytes)

-- get<T>() with n = sizeof(T)
unfoldable pub get : ℕ → Extractor → ℕ × Extractor
unfolding le_value
get n s =
    if ltb (length s.bytes) (s.pos + n)
    then (0, record s { error = true })
    else (le_value (slice s.pos n s.bytes), record s { pos = s.pos + n })

-- The characters up to the first NUL, and how many bytes were passed; `none`: no NUL.
unfoldable pub scan_string : List ℕ → Option (List ℕ × ℕ)
scan_string [] = none
scan_string (zero ∷ bs) = some ([], 0)
scan_string (suc b ∷ bs) = elim (scan_string bs) [
  | none ↦ none
  | some (cs, n) ↦ some (suc b ∷ cs, suc n)
]

abbrev is_empty : List ℕ → Bool
is_empty [] = true
is_empty (b ∷ bs) = false

string_result : Bool → Extractor → Option (List ℕ × ℕ) → List ℕ × Extractor
string_result empty s none = ([], record s { pos = length s.bytes; error = true })
string_result empty s (some (cs, n)) = (
  cs,
  record s { pos = s.pos + n + 1; error = if not empty && is_empty cs then true else s.error },
)

-- getString(empty); the characters are the bytes, read as Latin-1.
unfoldable pub get_string : Bool → Extractor → List ℕ × Extractor
unfolding scan_string string_result
get_string empty s = string_result empty s (scan_string (drop s.pos s.bytes))

-- getBytes(n)
unfoldable pub get_bytes : ℕ → Extractor → List ℕ × Extractor
get_bytes n s =
    if ltb (length s.bytes) (s.pos + n)
    then ([], record s { error = true })
    else (slice s.pos n s.bytes, record s { pos = s.pos + n })

-- peekBytes(n)
unfoldable pub peek_bytes : ℕ → Extractor → List ℕ
peek_bytes n s = if ltb (length s.bytes) (s.pos + n) then [] else slice s.pos n s.bytes

-- m_pos + (int)size > m_data.size(): the cast makes a size from 2^31 on negative.
unfoldable pub raw_too_long : ℕ → ℕ → ℕ → Bool
raw_too_long len pos size =
    if ltb size (2 ^ 31) then ltb len (pos + size) else ltb (len + 2 ^ 32) (pos + size)

-- `QByteArray out(m_data.constData() + m_pos, size)` and `m_pos += size`; `none` is a copy that
-- reads past the end of the buffer, or a position that an int does not hold.
copy_raw : ℕ → Extractor → Option (List ℕ × Extractor)
copy_raw size s =
    if ltb (length s.bytes) (s.pos + size) || leb (2 ^ 31) (s.pos + size)
    then none
    else some (slice s.pos size s.bytes, record s { pos = s.pos + size })

-- m_pos + (int)size overflows an int.
abbrev pub overflows_int : ℕ → ℕ → Bool
overflows_int pos size = ltb size (2 ^ 31) && leb (2 ^ 31) (pos + size)

-- `none` also where the sum of the check overflows, which C++ leaves undefined.
read_raw : ℕ → Extractor → Option (List ℕ × Extractor)
unfolding copy_raw raw_too_long
read_raw size s =
    if s.error
    then some ([], s)
    else if overflows_int s.pos size
    then none
    else if raw_too_long (length s.bytes) s.pos size
    then some ([], record s { error = true })
    else copy_raw size s

-- getRawData()
unfoldable pub get_raw_data : Extractor → Option (List ℕ × Extractor)
unfolding get read_raw
get_raw_data s = let (size, s') = get 4 s in read_raw size s'

unfoldable pub append_u16 : List ℕ → ℕ → List ℕ
append_u16 buf v = buf ++ v % 256 ∷ v / 2 ^ 8 % 256 ∷ []

unfoldable pub append_u32 : List ℕ → ℕ → List ℕ
append_u32 buf v = buf ++ v % 256 ∷ v / 2 ^ 8 % 256 ∷ v / 2 ^ 16 % 256 ∷ v / 2 ^ 24 % 256 ∷ []

-- The rounds of appendU64LE from i on, for k rounds.
append_bytes_from : ℕ → ℕ → List ℕ → ℕ → List ℕ
append_bytes_from zero i buf v = buf
append_bytes_from (suc k) i buf v =
    append_bytes_from k (i + 1) (buf ++ v / 2 ^ (8 * i) % 256 ∷ []) v

unfoldable pub append_u64 : List ℕ → ℕ → List ℕ
unfolding append_bytes_from
append_u64 buf v = append_bytes_from 8 0 buf v

-- appendCStr; `utf8` is Qt's QString::toUtf8.
unfoldable pub append_cstr : (String → List ℕ) → List ℕ → String → List ℕ
append_cstr utf8 buf s = (buf ++ utf8 s) ++ 0 ∷ []

unfoldable pub append_blob : List ℕ → List ℕ → List ℕ
unfolding append_u32
append_blob buf blob = append_u32 buf (length blob % 2 ^ 32) ++ blob

-- fixPacketSize: the size of the packet, at offset 3.
unfoldable pub fix_packet_size : List ℕ → List ℕ
fix_packet_size buf =
    let sz = length buf % 2 ^ 32 in
    set (set (set (set buf 3 (sz % 256)) 4 (sz / 2 ^ 8 % 256)) 5 (sz / 2 ^ 16 % 256)) 6
      (sz / 2 ^ 24 % 256)
