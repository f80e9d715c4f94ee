-- ===== src/Matching/Search/Pages.antt =====
-- The page that a search returns, and the rooms on it.
use mathlib.Core.Option.{some-injective}
use shad_net.Prelude.{
  ℕ, zero, suc, ◌+◌, ◌-◌, ◌≤◌, ◌≡◌, ◌∙◌, refl, ap, sym, subst, true, false, none, some, List, [],
  ◌∷◌, String, arith, Bool-cases, Option-cases, inl, inr, length, take, drop, get_elem?, ltb,
  length-take,
}
use shad_net.Prelude.Assoc.{find}
use shad_net.Prelude.Bits.{bit_and, nonzero}
use shad_net.Matching.Types.{Room, SharedState, hidden_flag}
use shad_net.Matching.Session.{pair_eq}
use shad_net.Matching.Search.{
  SearchRoomRequest, room_matches_filters, matches, candidates, emit, search_page, range_start_of,
  range_max_of,
}

drop-get_elem? :
    (i : ℕ) (room : Room) (found : List Room)
    → get_elem? found i ≡ some room
    → drop i found ≡ room ∷ drop (suc i) found
drop-get_elem? i room [] h = absurd (cc)
drop-get_elem? zero room (r ∷ found) h = ap (λ x. x ∷ found) (some-injective r room h)
drop-get_elem? (suc i) room (r ∷ found) h = drop-get_elem? i room found h

drop_past : (i : ℕ) (found : List Room) → get_elem? found i ≡ none → drop i found ≡ []
drop_past zero [] h = refl
drop_past (suc i) [] h = refl
drop_past zero (r ∷ found) h = absurd (cc)
drop_past (suc i) (r ∷ found) h = drop_past i found h

drop_all : (i : ℕ) (found : List Room) → length found ≤ i → drop i found ≡ []
drop_all zero [] h = refl
drop_all (suc i) [] h = refl
drop_all zero (r ∷ found) h = absurd (omega arith)
drop_all (suc i) (r ∷ found) h = drop_all i found (omega arith)

take_none : (n : ℕ) → take {A = Room} n [] ≡ []
take_none zero = refl
take_none (suc n) = refl

-- The loop takes the rooms from `i` on, up to the most that a page holds.
emit_lem :
    (left i emitted max : ℕ) (found : List Room)
    → length found ≤ i + left
    → emit left i emitted max found ≡ take (max - emitted) (drop i found)
unfolding emit
emit_lem zero i emitted max found h =
    rw (drop_all i found (omega arith)) (sym (take_none (max - emitted)))
emit_lem (suc left) i emitted max found h = elim (Bool-cases (ltb emitted max)) [
  | inr z ↦ let over : max - emitted ≡ 0 = ground arith in rw (z, over, emit) refl
  | inl y ↦ elim (Option-cases (get_elem? found i)) [
    | inl n ↦ rw (y, n, drop_past i found n, emit) (sym (take_none (max - emitted)))
    | inr (room, e) ↦
        let next : i + 1 ≡ suc i = omega arith in
        let more : max - emitted ≡ suc (max - (emitted + 1)) = ground arith in
        rw (y, e, more, drop-get_elem? i room found e, emit)
          (ap (◌∷◌ room) (
            emit_lem left (i + 1) (emitted + 1) max found (omega arith)
            ∙ ap (λ n. take (max - (emitted + 1)) (drop n found)) next))
  ]
]

-- The rooms that a search may show: each is in the map under the session's key, passes the filters
-- and is not hidden.
pub AllShown : String → SearchRoomRequest → SharedState → List Room → Type 0
AllShown key req shared [] = Unit
AllShown key req shared (room ∷ rooms) =
    ((rid : ℕ) × (find (key, rid) shared.rooms ≡ some room))
    × (room_matches_filters room req ≡ true)
    × (nonzero (bit_and room.flag_attr hidden_flag) ≡ false)
    × AllShown key req shared rooms

module _ (key : String) (req : SearchRoomRequest) (shared : SharedState) where
  shown :
      (room : Room)
      → room_matches_filters room req ≡ true
      → nonzero (bit_and room.flag_attr hidden_flag) ≡ false
  unfolding room_matches_filters
  shown room h = ground arith

  matches-AllShown : (rids : List ℕ) → AllShown key req shared (matches key req shared rids)
  unfolding AllShown matches
  matches-AllShown [] = tt
  matches-AllShown (rid ∷ rids) = elim (Option-cases (find (key, rid) shared.rooms)) [
    | inl n ↦ rw (n, matches) (matches-AllShown rids)
    | inr (room, y) ↦ elim (Bool-cases (room_matches_filters room req)) [
      | inl p ↦ rw (y, p, matches, AllShown) ((rid, y), p, shown room p, matches-AllShown rids)
      | inr z ↦ rw (y, z, matches) (matches-AllShown rids)
    ]
  ]

  take-AllShown :
      (n : ℕ) (rooms : List Room)
      → AllShown key req shared rooms
      → AllShown key req shared (take n rooms)
  unfolding AllShown
  take-AllShown zero rooms v = tt
  take-AllShown (suc n) [] v = tt
  take-AllShown (suc n) (room ∷ rooms) (at, pass, seen, rest) =
      (at, pass, seen, take-AllShown n rooms rest)

  drop-AllShown :
      (n : ℕ) (rooms : List Room)
      → AllShown key req shared rooms
      → AllShown key req shared (drop n rooms)
  unfolding AllShown
  drop-AllShown zero rooms v = v
  drop-AllShown (suc n) [] v = tt
  drop-AllShown (suc n) (room ∷ rooms) (at, pass, seen, rest) = drop-AllShown n rooms rest

range_max_le : (req : SearchRoomRequest) → range_max_of req ≤ 20
range_max_le req = ground arith

-- A search returns the rooms that match, in the order of the index, from the start of the range
-- on and up to its limit, which is 20 at most; each of them is in the map under the session's
-- matching key, passes the filters and is not hidden.
pub search_page_lem :
    (key : String) (req : SearchRoomRequest) (shared : SharedState)
    → let page = search_page key req shared in
      (page
        ≡ take
            (range_max_of req)
            (drop (range_start_of req - 1) (matches key req shared (candidates key req shared))))
      × (length page ≤ 20)
      × AllShown key req shared page
unfolding search_page
search_page_lem key req shared =
    let found = matches key req shared (candidates key req shared) in
    let start = range_start_of req - 1 in
    let page : search_page key req shared ≡ take (range_max_of req) (drop start found) =
      emit_lem (length found) start 0 (range_max_of req) found (omega arith)
      ∙ ap (λ n. take n (drop start found)) (omega arith) in
    (
      page,
      omega (
        arith,
        ap (λ l. length l) page,
        length-take (range_max_of req) (drop start found),
        range_max_le req,
      ),
      subst (AllShown key req shared) (sym page) (
          take-AllShown key req shared (range_max_of req) (drop start found) (
            drop-AllShown key req shared start found
              (matches-AllShown key req shared (candidates key req shared)))),
    )
