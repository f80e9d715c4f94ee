-- ===== src/Matching/Types.antt =====
-- src/matching_types.h and src/matching.h: the data of rooms. Words of flags and slot masks are
-- their bits; a QHash is an association list.
use shad_net.Prelude.{ℕ, String, List, [], Option, none, Bool, false, replicate, ◌^◌, ◌-◌}
use shad_net.Prelude.Int.{ℤ, pos, negsuc}
use shad_net.Prelude.Assoc.{Assoc}
use shad_net.Prelude.Bits.{Word, shifted_one}

pub record IntAttrSlot : Type 0 where
  pub is_set : Bool
  pub attr_id : ℕ
  pub value : ℕ

pub record BinAttrSlot : Type 0 where
  pub is_set : Bool
  pub attr_id : ℕ
  pub bytes : List ℕ

pub record InternalBinAttrSlot : Type 0 where
  pub is_set : Bool
  pub attr_id : ℕ
  pub bytes : List ℕ
  pub update_date : ℕ
  pub update_member_id : ℕ

pub record MemberBinAttrSlot : Type 0 where
  pub is_set : Bool
  pub attr_id : ℕ
  pub bytes : List ℕ
  pub update_date : ℕ

pub record RoomGroup : Type 0 where
  pub group_id : ℕ
  pub slot_num : ℕ
  pub label : Option (List ℕ)
  pub fixed_label : Bool
  pub with_password : Bool
  pub num_members : ℕ

pub record RoomMember : Type 0 where
  pub member_id : ℕ
  pub user_id : ℤ
  pub npid : String
  pub online_name : String
  pub avatar_url : String
  pub addr : String
  pub port : ℕ
  pub platform : ℕ
  pub blocked_users : List String
  pub blocked_account_ids : List ℕ
  pub join_date : ℕ
  pub flag_attr : Word
  pub team_id : ℕ
  pub group_id : ℕ
  pub nat_type : ℕ
  pub member_bin_attr : MemberBinAttrSlot

-- MatchingSessionState
pub record SessionState : Type 0 where
  pub ctx_id : ℕ
  pub title_id : String
  pub matching_key : String
  pub server_id : ℕ
  pub world_id : ℕ
  pub lobby_id : ℕ
  pub room_id : ℕ
  pub my_member_id : ℕ
  pub is_room_owner : Bool
  pub max_slots : ℕ
  pub room_flags : Word
  pub initialized : Bool

pub record Room : Type 0 where
  pub room_id : ℕ
  pub server_id : ℕ
  pub world_id : ℕ
  pub lobby_id : ℕ
  pub max_slot : ℕ
  pub public_slots : ℕ
  pub private_slots : ℕ
  pub open_public_slots : ℕ
  pub open_private_slots : ℕ
  pub passwd_slot_mask : Word
  pub flag_attr : Word
  pub room_password : Option (List ℕ)
  pub allowed_users : List String
  pub blocked_users : List String
  pub allowed_account_ids : List ℕ
  pub blocked_account_ids : List ℕ
  pub owner_member_id : ℕ
  pub owner_succession : List ℕ
  pub groups : List RoomGroup
  pub search_int_attr : List IntAttrSlot
  pub search_bin_attr : BinAttrSlot
  pub external_bin_attr : List BinAttrSlot
  pub internal_bin_attr : List InternalBinAttrSlot
  pub signaling_type : ℕ
  pub signaling_flag : ℕ
  pub signaling_hub_member_id : ℕ
  pub members : Assoc ℕ RoomMember
  pub member_id_counter : ℕ

pub record WorldConfig : Type 0 where
  pub world_id : ℕ
  pub server_id : ℕ
  pub lobbies_num : ℕ
  pub max_lobby_members_num : ℕ

-- MatchingSharedState; the keys pair a matching key with a number or an online id.
pub record SharedState : Type 0 where
  pub rooms : Assoc (String × ℕ) Room
  pub world_rooms : Assoc (String × ℕ) (List ℕ)
  pub lobby_rooms : Assoc (String × ℕ) (List ℕ)
  pub user_info : Assoc (String × String) (List BinAttrSlot)
  pub next_room_id : ℕ
  pub world_configs : Assoc String (List WorldConfig)
  pub title_groups : Assoc String String
  pub udp_ext : Assoc String (String × ℕ)

abbrev pub empty_word : ℕ → Word
empty_word w = replicate w false

-- The values that the source gives to fields.
abbrev pub empty_int_attr : IntAttrSlot
empty_int_attr = record { is_set = false; attr_id = 0; value = 0 }

abbrev pub empty_bin_attr : BinAttrSlot
empty_bin_attr = record { is_set = false; attr_id = 0; bytes = [] }

abbrev pub empty_internal_attr : InternalBinAttrSlot
empty_internal_attr = record {
  is_set = false;
  attr_id = 0;
  bytes = [];
  update_date = 0;
  update_member_id = 0;
}

abbrev pub empty_member_attr : MemberBinAttrSlot
empty_member_attr = record { is_set = false; attr_id = 0; bytes = []; update_date = 0 }

abbrev pub new_member : RoomMember
new_member = record {
  member_id = 0;
  user_id = pos 0;
  npid = "";
  online_name = "";
  avatar_url = "";
  addr = "";
  port = 0;
  platform = 3;
  blocked_users = [];
  blocked_account_ids = [];
  join_date = 0;
  flag_attr = empty_word 32;
  team_id = 0;
  group_id = 0;
  nat_type = 0;
  member_bin_attr = empty_member_attr;
}

abbrev pub new_room : Room
new_room = record {
  room_id = 0;
  server_id = 1;
  world_id = 0;
  lobby_id = 0;
  max_slot = 0;
  public_slots = 0;
  private_slots = 0;
  open_public_slots = 0;
  open_private_slots = 0;
  passwd_slot_mask = empty_word 64;
  flag_attr = empty_word 32;
  room_password = none;
  allowed_users = [];
  blocked_users = [];
  allowed_account_ids = [];
  blocked_account_ids = [];
  owner_member_id = 0;
  owner_succession = [];
  groups = [];
  search_int_attr = replicate 8 empty_int_attr;
  search_bin_attr = empty_bin_attr;
  external_bin_attr = replicate 2 empty_bin_attr;
  internal_bin_attr = replicate 2 empty_internal_attr;
  signaling_type = 0;
  signaling_flag = 0;
  signaling_hub_member_id = 0;
  members = [];
  member_id_counter = 0;
}

-- ROOM_FLAG_ATTR_FULL, _HIDDEN and _NAT_TYPE_RESTRICTION, and ROOMMEMBER_FLAG_ATTR_OWNER
abbrev pub full_flag : Word
full_flag = shifted_one 32 29

abbrev pub hidden_flag : Word
hidden_flag = shifted_one 32 28

abbrev pub nat_type_restriction_flag : Word
nat_type_restriction_flag = shifted_one 32 26

abbrev pub owner_flag : Word
owner_flag = shifted_one 32 31

-- static_cast<uint64_t> of a signed account number
abbrev pub account_of : ℤ → ℕ
account_of (pos n) = n
account_of (negsuc n) = 2 ^ 64 - 1 - n
