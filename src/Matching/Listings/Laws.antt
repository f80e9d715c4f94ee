-- ===== src/Matching/Listings/Laws.antt =====
-- What the listings of rooms, members and users hold.
use shad_net.Prelude.{
  ℕ, ◌≡◌, ◌∙◌, refl, ap, sym, true, Option, none, some, List, [], ◌∷◌, String, arith, Option-cases,
  inl, inr, nat_eq, string_eq, contains, is_some, beq_self, beq_ne, ◌≢◌, ◌%◌, ◌^◌,
}
use shad_net.Prelude.Assoc.{Assoc, find, keys, find-insert}
use shad_net.Prelude.Sorting.{sort, IsAscending, sort-IsAscending, contains-sort}
use shad_net.Matching.Types.{Room, RoomMember, SessionState}
use shad_net.Matching.Create.Request.{BinAttr}
use shad_net.Matching.Session.{Env, Server, pair_eq}
use shad_net.Matching.Members.{IsKeyed, find-keyed}
use shad_net.Matching.Listings.{
  members_at, listed_members, cmd_set_user_info, user_info_of, user_with, user_attrs,
  wanted_user_attrs, name_pair_eq,
}

abbrev pub member_ids : List RoomMember → List ℕ
member_ids [] = []
member_ids (m ∷ ms) = m.member_id ∷ member_ids ms

contains-keys :
    (k : ℕ) (table : Assoc ℕ RoomMember) → contains (keys table) k ≡ is_some (find k table)
unfolding contains find
contains-keys k [] = refl
contains-keys k ((j, m) ∷ table) = ground (arith, contains-keys k table, nat_eq.beq_iff j k)

-- Where every id of a list is taken, the members at the ids have just these ids.
member_ids-members_at :
    (table : Assoc ℕ RoomMember) (ids : List ℕ)
    → IsKeyed table
    → ((k : ℕ) → contains ids k ≡ true → is_some (find k table) ≡ true)
    → member_ids (members_at table ids) ≡ ids
unfolding members_at contains
member_ids-members_at table [] v h = refl
member_ids-members_at table (id ∷ ids) v h =
    let later : member_ids (members_at table ids) ≡ ids =
      member_ids-members_at table ids v (λ k y. h k (ground (arith, y))) in
    elim (Option-cases (find id table)) [
      | inl n ↦ absurd (ground (arith, h id (rw (beq_self id) refl)))
      | inr (m, y) ↦ rw (y, members_at, later) (ap (λ i. i ∷ ids) (find-keyed id m table v y))
    ]

-- In a room whose members are keyed by their ids, a listing of its members has the ids of its table,
-- each once and every one of them, in ascending order.
pub listed_members_lem :
    (room : Room)
    → IsKeyed room.members
    → (member_ids (listed_members room) ≡ sort (keys room.members))
      × IsAscending (member_ids (listed_members room))
      × ((k : ℕ) → contains (member_ids (listed_members room)) k ≡ is_some (find k room.members))
unfolding listed_members
listed_members_lem room v =
    let ids = sort (keys room.members) in
    let same : (k : ℕ) → contains ids k ≡ is_some (find k room.members) =
      λ k. contains-sort k (keys room.members) ∙ contains-keys k room.members in
    let listed : member_ids (listed_members room) ≡ ids =
      member_ids-members_at room.members ids v (λ k y. sym (same k) ∙ y) in
    (
      listed,
      rw listed (sort-IsAscending (keys room.members)),
      λ k. ap (λ l. contains l k) listed ∙ same k,
    )

-- Attributes as a reply carries them: the ids are those of 16 bits.
abbrev pub as_kept : List BinAttr → List BinAttr
as_kept [] = []
as_kept (a ∷ rest) = record { attr_id = a.attr_id % 2 ^ 16; bytes = a.bytes } ∷ as_kept rest

wanted_user_attrs-user_attrs :
    (bins : List BinAttr) → wanted_user_attrs [] (user_attrs bins) ≡ as_kept bins
unfolding wanted_user_attrs user_attrs
wanted_user_attrs-user_attrs [] = refl
wanted_user_attrs-user_attrs (a ∷ rest) =
    ap (λ l. record { attr_id = a.attr_id % 2 ^ 16; bytes = a.bytes } ∷ l)
      (wanted_user_attrs-user_attrs rest)

-- What a player sets as user information, any session of the same matching key then reads back: asked
-- for without a list of attributes, all of it, in its order, with 16-bit attribute ids. The entries of
-- the other users are as before.
pub get_user_info-set_user_info :
    (env reader : Env) (s : Server) (session : SessionState) (bins : List BinAttr)
    → session.matching_key ≡ s.session.matching_key
    → let after : Server = record (cmd_set_user_info env s (some bins)).after {
      session = session;
    } in
      ((user_info_of reader after [] env.npid).user_bin_attrs ≡ as_kept bins)
      × ((ids : List ℕ) (npid : String)
          → npid ≢ env.npid
          → user_info_of reader after ids npid
            ≡ user_info_of reader (record s { session = session }) ids npid)
unfolding user_info_of user_with cmd_set_user_info
get_user_info-set_user_info env reader s session bins h =
    let key : String × String = (s.session.matching_key, env.npid) in
    let set = user_attrs bins in
    (
      rw (h, find-insert key key set s.shared.user_info, beq_self key)
          (wanted_user_attrs-user_attrs bins),
      λ ids npid other.
          rw
            (
              h,
              find-insert key (s.session.matching_key, npid) set s.shared.user_info,
              beq_ne key (s.session.matching_key, npid) (λ e. other (ap (λ p. p.1) (sym e))),
            )
            refl,
    )

pub cmd_set_user_info_rooms :
    (env : Env) (s : Server) (bins : Option (List BinAttr))
    → (cmd_set_user_info env s bins).after.shared.rooms ≡ s.shared.rooms
unfolding cmd_set_user_info
cmd_set_user_info_rooms env s none = refl
cmd_set_user_info_rooms env s (some bins) = refl
