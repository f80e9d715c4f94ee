-- ===== src/Wire/Examples.antt =====
-- The reader and the packet helpers at concrete payloads.
use shad_net.Prelude.{ℕ, ◌≡◌, refl, List, [], ◌∷◌, ◌++◌, String, arith, true, false, some, none}
use shad_net.Wire.{
  Extractor, get, get_string, get_bytes, get_raw_data, append_u16, append_u32, append_u64,
  append_cstr, append_blob, open_stream, le_value,
}
use shad_net.Wire.Integers.{reader, get-append_integers}
use shad_net.Wire.Blobs.{get_raw_data-append_blob, get_raw_data_overrun}
use shad_net.Wire.Strings.{get_string-append_cstr, get_string_unterminated}
use shad_net.Wire.Bounds.{IsValid, reads-IsValid, get_raw_data-IsValid}

abbrev ascii : String → List ℕ
ascii s = 0x41 ∷ 0x42 ∷ []

abbrev payload : List ℕ
payload = 3 ∷ 0 ∷ 0 ∷ 0 ∷ 7 ∷ 8 ∷ 9 ∷ []

abbrev huge : Extractor
huge = open_stream (0 ∷ 0 ∷ 0 ∷ 128 ∷ 7 ∷ [])

get-append_integers_example :
    (get 2 (reader (append_u16 (9 ∷ []) 513 ++ 5 ∷ []) 1)
      ≡ (513, reader (append_u16 (9 ∷ []) 513 ++ 5 ∷ []) 3))
    × (get 4 (reader (append_u32 (9 ∷ []) 70000 ++ 5 ∷ []) 1)
        ≡ (70000, reader (append_u32 (9 ∷ []) 70000 ++ 5 ∷ []) 5))
    × (get 8 (reader (append_u64 (9 ∷ []) 5000000000 ++ 5 ∷ []) 1)
        ≡ (5000000000, reader (append_u64 (9 ∷ []) 5000000000 ++ 5 ∷ []) 9))
get-append_integers_example =
    get-append_integers (9 ∷ []) (5 ∷ []) 513 70000 5000000000 (omega arith) (omega arith)
      (omega arith)

get_raw_data-append_blob_example :
    get_raw_data (reader (append_blob (9 ∷ []) (1 ∷ 2 ∷ []) ++ 5 ∷ []) 1)
    ≡ some (1 ∷ 2 ∷ [], reader (append_blob (9 ∷ []) (1 ∷ 2 ∷ []) ++ 5 ∷ []) 7)
get_raw_data-append_blob_example =
    get_raw_data-append_blob (9 ∷ []) (1 ∷ 2 ∷ []) (5 ∷ []) (omega arith)

get_raw_data_overrun_example : get_raw_data huge ≡ none
unfolding get le_value
get_raw_data_overrun_example =
    get_raw_data_overrun huge refl (omega arith) (omega arith) (omega arith) (omega arith)

get_string-append_cstr_case :
    get_string false (reader (append_cstr ascii (9 ∷ []) "AB" ++ 5 ∷ []) 1)
    ≡ (0x41 ∷ 0x42 ∷ [], reader (append_cstr ascii (9 ∷ []) "AB" ++ 5 ∷ []) 4)
get_string-append_cstr_case =
    get_string-append_cstr ascii (9 ∷ []) (5 ∷ []) "AB" false (omega arith, (omega arith, tt))
      (λ e. cc)

get_string_unterminated_case :
    get_string true (reader (7 ∷ 8 ∷ []) 1)
    ≡ ([], record { bytes = 7 ∷ 8 ∷ []; pos = 2; error = true })
get_string_unterminated_case = get_string_unterminated (7 ∷ 8 ∷ []) 1 true (omega arith, tt)

reads-IsValid_case :
    IsValid (get 2 (reader payload 3)).1
    × IsValid (get_string false (reader payload 3)).1
    × IsValid (get_bytes 2 (reader payload 3)).1
reads-IsValid_case = reads-IsValid (reader payload 3) 2 false (record { within = omega arith })

get_raw_data-IsValid_case :
    (blob : List ℕ) × (s' : Extractor) × (get_raw_data (reader payload 0) ≡ some (blob, s'))
    × IsValid s'
unfolding get le_value
get_raw_data-IsValid_case =
    get_raw_data-IsValid (reader payload 0) (record { within = omega arith }) (omega arith)
