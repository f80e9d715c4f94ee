-- ===== src/Matching/Create/Request.antt =====
-- The request of CmdCreateRoom, as src/shadnet.proto has it.
use shad_net.Prelude.{ℕ, Bool, Option, String, List, nat_eq}
use shad_net.Prelude.Bits.{Word}
use shad_net.Matching.Session.{pair_eq}

-- MatchingIntAttr, MatchingBinAttr and MatchingRoomGroupConfig of src/shadnet.proto
pub record IntAttr : Type 0 where
  pub attr_id : ℕ
  pub attr_value : ℕ

pub record BinAttr : Type 0 where
  pub attr_id : ℕ
  pub bytes : List ℕ

pub record GroupConfig : Type 0 where
  pub slot_count : ℕ
  pub has_passwd : Bool
  pub label : Option (List ℕ)

-- The fields of CreateRoomRequest that the handler reads.
pub record CreateRoomRequest : Type 0 where
  pub max_slots : ℕ
  pub team_id : ℕ
  pub world_id : ℕ
  pub lobby_id : ℕ
  pub flags : Word
  pub group_config_count : ℕ
  pub search_int_attrs : List IntAttr
  pub search_bin_attrs : List BinAttr
  pub external_bin_attrs : List BinAttr
  pub member_bin_attrs : List BinAttr
  pub internal_bin_attrs : List BinAttr
  pub join_group_label_present : Bool
  pub join_group_label : List ℕ
  pub room_password_present : Bool
  pub room_password : List ℕ
  pub sig_type : ℕ
  pub sig_flag : ℕ
  pub sig_main_member : ℕ
  pub allowed_online_ids : List String
  pub blocked_online_ids : List String
  pub allowed_account_ids : List ℕ
  pub blocked_account_ids : List ℕ
  pub group_configs : List GroupConfig
  pub passwd_slot_mask : Option Word
