-- ===== src/Wire/Integers.antt =====
-- Integers on the wire: what is appended is read back.
use mathlib.Core.List.{append_assoc}
use shad_net.Prelude.{
  ℕ, ◌+◌, ◌*◌, ◌/◌, ◌%◌, ◌^◌, ◌<◌, ◌≡◌, ap, ◌∙◌, List, [], ◌∷◌, ◌++◌, arith, false, length,
  length-append, take, drop, drop-append_left, take-append_left, Bool-cases, ltb, inl, inr,
}
use shad_net.Wire.{Extractor, le_value, get, slice, append_u16, append_u32, append_u64}

-- A reader at position `pos` of a stream in which no read has failed.
abbrev pub reader : List ℕ → ℕ → Extractor
reader bytes pos = record { bytes = bytes; pos = pos; error = false }

pub slice-append :
    (buf xs rest : List ℕ) → slice (length buf) (length xs) ((buf ++ xs) ++ rest) ≡ xs
slice-append buf xs rest =
    ap (λ ys. take (length xs) (drop (length buf) ys)) (append_assoc buf xs rest)
    ∙ ap (take (length xs)) (drop-append_left buf (xs ++ rest))
    ∙ take-append_left xs rest

pub get-append :
    (buf xs rest : List ℕ)
    → get (length xs) (reader ((buf ++ xs) ++ rest) (length buf))
      ≡ (le_value xs, reader ((buf ++ xs) ++ rest) (length buf + length xs))
unfolding get
get-append buf xs rest =
    elim (Bool-cases (ltb (length ((buf ++ xs) ++ rest)) (length buf + length xs))) [
      | inl short ↦ absurd (ground (arith, length-append (buf ++ xs) rest, length-append buf xs))
      | inr long ↦ rw (long, slice-append buf xs rest)
    ]

abbrev pub bytes_of_u64 : ℕ → List ℕ
bytes_of_u64 v =
    v % 256
    ∷ v / 2 ^ 8 % 256
    ∷ v / 2 ^ 16 % 256
    ∷ v / 2 ^ 24 % 256
    ∷ v / 2 ^ 32 % 256
    ∷ v / 2 ^ 40 % 256
    ∷ v / 2 ^ 48 % 256
    ∷ v / 2 ^ 56 % 256
    ∷ []

-- The loop of `append_u64`, unrolled.
pub append_u64_bytes : (buf : List ℕ) (v : ℕ) → append_u64 buf v ≡ buf ++ bytes_of_u64 v
unfolding append_u64
append_u64_bytes buf v = simp append_assoc (
    ap
      (λ (b : ℕ).
        buf
        ++ b % 256
          ∷ v / 2 ^ 8 % 256
          ∷ v / 2 ^ 16 % 256
          ∷ v / 2 ^ 24 % 256
          ∷ v / 2 ^ 32 % 256
          ∷ v / 2 ^ 40 % 256
          ∷ v / 2 ^ 48 % 256
          ∷ v / 2 ^ 56 % 256
          ∷ [])
      (omega arith))

-- What a packet helper appends for a value of n bytes is what `get` of n bytes reads.
abbrev pub ReadsBack : (List ℕ → ℕ → List ℕ) → ℕ → Type 0
ReadsBack append n =
    (buf rest : List ℕ) (v : ℕ)
    → v < 2 ^ (8 * n)
    → get n (reader (append buf v ++ rest) (length buf))
      ≡ (v, reader (append buf v ++ rest) (length buf + n))

get-append_u16 : ReadsBack append_u16 2
unfolding append_u16 le_value
get-append_u16 buf rest v h =
    get-append buf (v % 256 ∷ v / 2 ^ 8 % 256 ∷ []) rest
    ∙ ap (λ n. (n, reader (append_u16 buf v ++ rest) (length buf + 2))) (omega arith)

pub get-append_u32 : ReadsBack append_u32 4
unfolding append_u32 le_value
get-append_u32 buf rest v h =
    get-append buf (v % 256 ∷ v / 2 ^ 8 % 256 ∷ v / 2 ^ 16 % 256 ∷ v / 2 ^ 24 % 256 ∷ []) rest
    ∙ ap (λ n. (n, reader (append_u32 buf v ++ rest) (length buf + 4))) (omega arith)

pub le_value_u64 : (v : ℕ) → v < 2 ^ 64 → le_value (bytes_of_u64 v) ≡ v
unfolding le_value
le_value_u64 v h = omega arith

get-append_u64 : ReadsBack append_u64 8
get-append_u64 buf rest v h = rw append_u64_bytes (
    get-append buf (bytes_of_u64 v) rest
    ∙ ap (λ n. (n, reader ((buf ++ bytes_of_u64 v) ++ rest) (length buf + 8))) (le_value_u64 v h))

-- A 16-, 32- or 64-bit value that is appended to any packet is read back by `get` at its place,
-- whatever follows, and the reader then stands behind it with no error.
pub get-append_integers :
    (buf rest : List ℕ) (v w x : ℕ)
    → v < 2 ^ 16
    → w < 2 ^ 32
    → x < 2 ^ 64
    → (get 2 (reader (append_u16 buf v ++ rest) (length buf))
        ≡ (v, reader (append_u16 buf v ++ rest) (length buf + 2)))
      × (get 4 (reader (append_u32 buf w ++ rest) (length buf))
          ≡ (w, reader (append_u32 buf w ++ rest) (length buf + 4)))
      × (get 8 (reader (append_u64 buf x ++ rest) (length buf))
          ≡ (x, reader (append_u64 buf x ++ rest) (length buf + 8)))
get-append_integers buf rest v w x hv hw hx =
    (get-append_u16 buf rest v hv, get-append_u32 buf rest w hw, get-append_u64 buf rest x hx)
