-- ===== src/Wire/Strings.antt =====
-- NUL-terminated strings.
use mathlib.Core.List.{append_assoc}
use shad_net.Prelude.{
  ℕ, zero, suc, ◌+◌, ◌≡◌, ◌≢◌, refl, List, [], ◌∷◌, ◌++◌, arith, true, length, drop,
  drop-append_left, some, none, String, Bool,
}
use shad_net.Wire.{get_string, append_cstr, scan_string}
use shad_net.Wire.Integers.{reader}

-- No NUL among the bytes.
abbrev pub NulFree : List ℕ → Type 0
NulFree [] = Unit
NulFree (b ∷ bs) = (b ≢ 0) × NulFree bs

scan_string-append :
    (bs rest : List ℕ) → NulFree bs → scan_string (bs ++ 0 ∷ rest) ≡ some (bs, length bs)
unfolding scan_string
scan_string-append [] rest h = refl
scan_string-append (zero ∷ bs) rest h = absurd (h.0 refl)
scan_string-append (suc b ∷ bs) rest h = rw (scan_string-append bs rest h.1)

-- A non-empty text whose UTF-8 form has no NUL, appended by `appendCStr`, is read back by
-- `getString` as the bytes of that form, whether or not an empty string is allowed.
pub get_string-append_cstr :
    (utf8 : String → List ℕ) (buf rest : List ℕ) (t : String) (empty : Bool)
    → NulFree (utf8 t)
    → utf8 t ≢ []
    → get_string empty (reader (append_cstr utf8 buf t ++ rest) (length buf))
      ≡ (utf8 t, reader (append_cstr utf8 buf t ++ rest) (length buf + length (utf8 t) + 1))
unfolding append_cstr get_string
get_string-append_cstr utf8 buf rest t empty free some_text =
    rw
      (
        append_assoc (buf ++ utf8 t) (0 ∷ []) rest,
        append_assoc buf (utf8 t) (0 ∷ rest),
        drop-append_left buf (utf8 t ++ 0 ∷ rest),
        scan_string-append (utf8 t) rest free,
      )
      (ground arith)

-- An unterminated string is an error, and the reader then stands at the end of the payload.
pub get_string_unterminated :
    (bytes : List ℕ) (pos : ℕ) (empty : Bool)
    → NulFree (drop pos bytes)
    → get_string empty (reader bytes pos)
      ≡ ([], record { bytes = bytes; pos = length bytes; error = true })
unfolding get_string
get_string_unterminated bytes pos empty free = rw (no_end (drop pos bytes) free)
  where
    no_end : (bs : List ℕ) → NulFree bs → scan_string bs ≡ none
    no_end [] h = refl
    no_end (zero ∷ bs) h = absurd (h.0 refl)
    no_end (suc b ∷ bs) h = rw (no_end bs h.1)
