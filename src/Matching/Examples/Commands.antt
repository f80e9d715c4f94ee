-- ===== src/Matching/Examples/Commands.antt =====
-- Settings, messages and listings at a room of two players.
use shad_net.Prelude.{
  ℕ, ◌%◌, ◌^◌, ◌≡◌, ◌≢◌, refl, some, none, List, [], ◌∷◌, arith, true, not, ◌&&◌, if◌then◌else◌,
  replicate, String, string_eq, nat_eq, nat_beq, contains, is_some,
}
use shad_net.Prelude.Assoc.{find, insert, keys}
use shad_net.Prelude.Bits.{test_bit}
use shad_net.Prelude.Sorting.{sort, IsAscending}
use shad_net.Matching.Slots.{recompute_room_slot_counts}
use shad_net.Matching.Room.{add_member, alloc_member_id}
use shad_net.Matching.Rooms.{IsRoom}
use shad_net.Matching.Create.Request.{BinAttr}
use shad_net.Matching.Create.{build_room}
use shad_net.Matching.Join.{joined_room, flag_full, joiner}
use shad_net.Matching.Session.{Server}
use shad_net.Matching.Examples.{
  alice, bob, session, server, both, guest, both-lem, guest-found, kick,
}
use shad_net.Matching.Settings.{
  SetRoomDataInternalRequest, SetRoomMemberDataInternalRequest, internal_set, member_set,
  with_member,
}
use shad_net.Matching.Settings.Laws.{internal_set_lem, member_set_lem}
use shad_net.Matching.Messages.{message_targets, targets_by_id, unicast}
use shad_net.Matching.Messages.Targets.{AllOthers, message_targets-AllOthers}
use shad_net.Matching.Listings.{listed_members, cmd_set_user_info, user_info_of}
use shad_net.Matching.Listings.Laws.{
  member_ids, listed_members_lem, as_kept, get_user_info-set_user_info,
}

abbrev hide : SetRoomDataInternalRequest
hide = record {
  room_id = 1;
  flag_filter = replicate 32 true;
  flag_attr = replicate 32 true;
  passwd_slot_mask = none;
  bin_attrs = [];
}

internal_set_lem_example :
    let room' = (internal_set alice hide both).0 in
    IsRoom room'
    × (room'.members ≡ both.members)
    × (room'.max_slot ≡ both.max_slot)
    × (room'.owner_member_id ≡ both.owner_member_id)
    × (test_bit room'.flag_attr 29
        ≡ (if true && not (nat_beq 29 29) then true else test_bit both.flag_attr 29))
unfolding joined_room flag_full build_room insert recompute_room_slot_counts add_member
    alloc_member_id joiner
internal_set_lem_example =
    internal_set_lem alice hide both 29 both-lem.0 refl refl refl (omega arith)

abbrev team : SetRoomMemberDataInternalRequest
team = record {
  room_id = 1;
  member_id = 34;
  team_id = 2;
  flag_filter = replicate 32 true;
  flag_attr = replicate 32 true;
  bin_attrs = [];
}

member_set_case :
    let m = member_set bob team guest in
    IsRoom (with_member (kick.target_member_id % 2 ^ 16) m both)
    × (m.member_id ≡ guest.member_id)
    × (m.npid ≡ guest.npid)
    × (test_bit m.flag_attr 3
        ≡ (if true && not (nat_beq 31 3) then true else test_bit guest.flag_attr 3))
unfolding joined_room flag_full build_room insert recompute_room_slot_counts add_member
    alloc_member_id joiner
member_set_case =
    member_set_lem bob team both (kick.target_member_id % 2 ^ 16) 3 guest both-lem.0 guest-found
      refl refl refl (omega arith)

message_targets-AllOthers_example : AllOthers "alice" both (guest ∷ [])
unfolding message_targets targets_by_id joined_room flag_full build_room insert find
    recompute_room_slot_counts add_member alloc_member_id joiner
message_targets-AllOthers_example =
    message_targets-AllOthers "alice" unicast (34 ∷ []) both (guest ∷ []) both-lem.0.keyed refl

listed_members_lem_example :
    (member_ids (listed_members both) ≡ sort (keys both.members))
    × IsAscending (member_ids (listed_members both))
    × ((k : ℕ) → contains (member_ids (listed_members both)) k ≡ is_some (find k both.members))
listed_members_lem_example = listed_members_lem both both-lem.0.keyed

abbrev about_me : List BinAttr
about_me = record { attr_id = 0x5f; bytes = 1 ∷ 2 ∷ [] } ∷ []

get_user_info-set_user_info_example :
    let after : Server = record (cmd_set_user_info alice server (some about_me)).after {
      session = session;
    } in
    ((user_info_of bob after [] "alice").user_bin_attrs ≡ as_kept about_me)
    × ((ids : List ℕ) (npid : String)
        → npid ≢ "alice"
        → user_info_of bob after ids npid
          ≡ user_info_of bob (record server { session = session }) ids npid)
get_user_info-set_user_info_example =
    get_user_info-set_user_info alice bob server session about_me refl
