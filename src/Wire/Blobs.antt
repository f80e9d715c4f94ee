-- ===== src/Wire/Blobs.antt =====
-- Length-prefixed blobs.
use mathlib.Core.List.{append_assoc}
use shad_net.Prelude.{
  ℕ, ◌+◌, ◌/◌, ◌%◌, ◌^◌, ◌<◌, ◌≤◌, ◌≡◌, ap, sym, ◌∙◌, List, [], ◌∷◌, ◌++◌, arith, false, length,
  length-append, some, none,
}
use shad_net.Wire.{Extractor, get, slice, append_u32, append_blob, get_raw_data}
use shad_net.Wire.Integers.{reader, slice-append, get-append_u32}

length-append_u32 : (buf : List ℕ) (v : ℕ) → length (append_u32 buf v) ≡ length buf + 4
unfolding append_u32
length-append_u32 buf v = omega (
  arith,
  length-append buf (v % 256 ∷ v / 2 ^ 8 % 256 ∷ v / 2 ^ 16 % 256 ∷ v / 2 ^ 24 % 256 ∷ []),
)

slice_at :
    (zs xs rest : List ℕ) (n : ℕ) → length zs ≡ n → slice n (length xs) (zs ++ (xs ++ rest)) ≡ xs
slice_at zs xs rest n e =
    rw (← e)
      (ap (slice (length zs) (length xs)) (sym (append_assoc zs xs rest)) ∙ slice-append zs xs rest)

-- A blob that is appended to a packet and ends before its byte 2^31 is read back whole by
-- `getRawData` at its place, whatever follows, and the reader then stands behind it with no error.
pub get_raw_data-append_blob :
    (buf blob rest : List ℕ)
    → length buf + 4 + length blob < 2 ^ 31
    → get_raw_data (reader (append_blob buf blob ++ rest) (length buf))
      ≡ some (blob, reader (append_blob buf blob ++ rest) (length buf + 4 + length blob))
unfolding get_raw_data append_blob
get_raw_data-append_blob buf blob rest h =
    let e : (length blob % 2 ^ 32 ≡ length blob) = omega arith in
    rw e (
      rw (append_assoc (append_u32 buf (length blob)) blob rest) (
        rw (get-append_u32 buf (blob ++ rest) (length blob) (omega arith)) (
          ground (
            arith,
            slice_at (append_u32 buf (length blob)) blob rest (length buf + 4)
                (length-append_u32 buf (length blob)),
            length-append_u32 buf (length blob),
            length-append (append_u32 buf (length blob)) (blob ++ rest),
            length-append blob rest,
          ))))

-- A size field from 2^31 on passes the length check of `getRawData` whenever the four bytes are
-- there and the payload is below 2^31 bytes, and the copy then reads past the end of the payload.
pub get_raw_data_overrun :
    (s : Extractor)
    → s.error ≡ false
    → s.pos + 4 ≤ length s.bytes
    → length s.bytes < 2 ^ 31
    → 2 ^ 31 ≤ (get 4 s).0
    → (get 4 s).0 < 2 ^ 32
    → get_raw_data s ≡ none
unfolding get_raw_data get
get_raw_data_overrun s e fits short big word = ground arith
