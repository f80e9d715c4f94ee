-- ===== src/Wire/Bounds.antt =====
-- No read but an oversized raw blob leaves the payload.
use shad_net.Prelude.{
  ◌+◌, ℕ, zero, suc, ◌^◌, ◌<◌, ◌≤◌, ◌≡◌, List, [], ◌∷◌, arith, Bool, length, length-drop, drop,
  some, none, inl, inr, Option-cases, ◌≢◌,
}
use shad_net.Wire.{Extractor, get, get_string, get_bytes, get_raw_data, scan_string}

pub record IsValid (s : Extractor) : Type 0 where
  pub within : s.pos ≤ length s.bytes

scan_string_bound : (bs cs : List ℕ) (n : ℕ) → scan_string bs ≡ some (cs, n) → n < length bs
unfolding scan_string
scan_string_bound [] cs n h = ground arith
scan_string_bound (zero ∷ bs) cs n h = ground arith
scan_string_bound (suc b ∷ bs) cs n h = elim (Option-cases (scan_string bs)) [
  | inl e ↦ ground arith
  | inr (r, e) ↦ ground (arith, scan_string_bound bs r.0 r.1)
]

get_string-IsValid : (s : Extractor) (empty : Bool) → IsValid s → IsValid (get_string empty s).1
unfolding get_string
get_string-IsValid s empty v = elim (Option-cases (scan_string (drop s.pos s.bytes))) [
  | inl e ↦ ground arith
  | inr (r, e) ↦
      ground (arith, scan_string_bound (drop s.pos s.bytes) r.0 r.1, length-drop s.pos s.bytes)
]

-- From a position within the payload, `get`, `getString` and `getBytes` end at one within it.
pub reads-IsValid :
    (s : Extractor) (n : ℕ) (empty : Bool)
    → IsValid s
    → IsValid (get n s).1 × IsValid (get_string empty s).1 × IsValid (get_bytes n s).1
unfolding get get_bytes
reads-IsValid s n empty v = (ground arith, get_string-IsValid s empty v, ground arith)

get_raw_data-ne-none :
    (s : Extractor) → IsValid s → s.pos + 4 + (get 4 s).0 < 2 ^ 31 → get_raw_data s ≢ none
unfolding get_raw_data get
get_raw_data-ne-none s v small = ground arith

get_raw_data_keeps :
    (s s' : Extractor) (blob : List ℕ)
    → IsValid s
    → s.pos + 4 + (get 4 s).0 < 2 ^ 31
    → get_raw_data s ≡ some (blob, s')
    → IsValid s'
unfolding get_raw_data get
get_raw_data_keeps s s' blob v small e = ground arith

-- With a blob that ends before byte 2^31, `getRawData` copies bytes of the payload only and ends within it.
pub get_raw_data-IsValid :
    (s : Extractor)
    → IsValid s
    → s.pos + 4 + (get 4 s).0 < 2 ^ 31
    → (blob : List ℕ) × (s' : Extractor) × (get_raw_data s ≡ some (blob, s')) × IsValid s'
get_raw_data-IsValid s v small = elim (Option-cases (get_raw_data s)) [
  | inl e ↦ absurd (get_raw_data-ne-none s v small e)
  | inr (r, e) ↦ (r.0, r.1, e, get_raw_data_keeps s r.1 r.0 v small e)
]
