-- ===== src/Matching/Create/Groups.antt =====
-- The groups of a room that CmdCreateRoom of src/cmd_matching.cpp makes.
use shad_net.Prelude.{
  ℕ, zero, suc, ◌+◌, ◌%◌, ◌^◌, Bool, true, false, Option, none, some, List, [], ◌∷◌, if◌then◌else◌,
  ◌==◌, nat_eq, ltb, length, set, get_elem?,
}
use shad_net.Matching.Types.{RoomGroup}
use shad_net.Matching.Session.{pair_eq}
use shad_net.Matching.Create.Request.{GroupConfig, CreateRoomRequest}

abbrev pub bytes_empty : List ℕ → Bool
bytes_empty [] = true
bytes_empty (b ∷ bs) = false

abbrev pub bytes_beq : List ℕ → List ℕ → Bool
bytes_beq [] [] = true
bytes_beq [] (y ∷ ys) = false
bytes_beq (x ∷ xs) [] = false
bytes_beq (x ∷ xs) (y ∷ ys) = if x == y then bytes_beq xs ys else false

abbrev pub is_none {ℓ} : {A : Type ℓ} → Option A → Bool
is_none none = true
is_none (some a) = false

-- One group: from its configuration, or past those from the request's own fields.
group_of : CreateRoomRequest → ℕ → Option GroupConfig → RoomGroup
group_of req g (some cfg) = record {
  group_id = (g + 1) % 2 ^ 8;
  slot_num = cfg.slot_count;
  label = cfg.label;
  fixed_label = if is_none cfg.label then false else true;
  with_password = cfg.has_passwd;
  num_members = 0;
}
group_of req g none = record {
  group_id = (g + 1) % 2 ^ 8;
  slot_num = 0;
  label = if bytes_empty req.join_group_label then none else some req.join_group_label;
  fixed_label = req.join_group_label_present;
  with_password = req.room_password_present;
  num_members = 0;
}

groups_from : CreateRoomRequest → ℕ → ℕ → List RoomGroup
unfolding group_of
groups_from req zero g = []
groups_from req (suc left) g =
    group_of req g (get_elem? req.group_configs g) ∷ groups_from req left (g + 1)

-- The loop over the groups.
unfoldable pub create_groups : CreateRoomRequest → List RoomGroup
unfolding groups_from
create_groups req =
    let configured = length req.group_configs in
    groups_from req (if ltb 0 configured then configured else req.group_config_count) 0

abbrev has_label : List ℕ → RoomGroup → Bool
has_label wanted g = elim g.label [ none ↦ false | some l ↦ bytes_beq l wanted ]

-- The position of the first group with the label, if there is one.
labelled : List ℕ → List RoomGroup → Option ℕ
labelled wanted [] = none
labelled wanted (g ∷ gs) =
    let rest = labelled wanted gs in
    if has_label wanted g then some 0 else elim rest [ none ↦ none | some i ↦ some (suc i) ]

-- `groupIt`: the group that the owner joins.
unfoldable pub owner_group : List ℕ → List RoomGroup → ℕ
unfolding labelled
owner_group wanted gs =
    if bytes_empty wanted then 0 else elim (labelled wanted gs) [ none ↦ 0 | some i ↦ i ]

-- The owner's group id, and the groups with the owner counted.
unfoldable pub join_group : List ℕ → List RoomGroup → ℕ × List RoomGroup
unfolding owner_group
join_group wanted gs = elim (get_elem? gs (owner_group wanted gs)) [
  | none ↦ (0, gs)
  | some g ↦ (
    g.group_id,
    set gs (owner_group wanted gs) (record g { num_members = (g.num_members + 1) % 2 ^ 32 }),
  )
]
