-- ===== src/Worlds/Config.antt =====
-- What a parsed worlds.cfg holds.
use shad_net.Prelude.{
  ℕ, suc, ◌^◌, ◌≤◌, ◌<◌, ◌≡◌, refl, ap, sym, subst, Option, none, some, List, [], ◌∷◌, ◌++◌, nat_eq,
  contains,
}
use shad_net.Prelude.Text.{Text, Unicode, text_eq}
use shad_net.Prelude.Distinct.{IsDistinct}
use shad_net.Worlds.{
  WorldsConfig, WorldDefinition, WorldGroupMapping, Progress, Complaint, complain, field_errors,
  group_eq, not_in_range,
}

abbrev pub titles : List WorldGroupMapping → List Text
titles [] = []
titles (m ∷ ms) = m.title_id ∷ titles ms

abbrev pub world_keys : List WorldDefinition → List (Text × ℕ)
world_keys [] = []
world_keys (w ∷ ws) = (w.group, w.world_id) ∷ world_keys ws

-- The fields of each world are in their ranges.
unfoldable pub AllInRange : List WorldDefinition → Type 0
AllInRange [] = Unit
AllInRange (w ∷ ws) =
    (1 ≤ w.world_id)
    × (w.world_id < 2 ^ 32)
    × (w.server_id < 2 ^ 16)
    × (w.lobbies < 2 ^ 32)
    × (w.max_lobby_members < 2 ^ 32)
    × AllInRange ws

-- No title is mapped twice, no group has a world's id twice, and all fields are in range.
pub record IsConfig (c : WorldsConfig) : Type 0 where
  pub titles_once : IsDistinct (titles c.groups)
  pub worlds_once : IsDistinct (world_keys c.worlds)
  pub in_range : AllInRange c.worlds

-- The configuration so far, and what the two sets of the parser hold.
pub record IsProgress (p : Progress) : Type 0 where
  pub config : IsConfig p.config
  pub seen_titles : (t : Text) → contains p.title_ids t ≡ contains (titles p.config.groups) t
  pub seen_worlds :
      (k : Text × ℕ) → contains p.world_ids k ≡ contains (world_keys p.config.worlds) k

-- The same mappings and worlds, and the same sets.
pub kept :
    (p q : Progress)
    → IsProgress p
    → q.config.groups ≡ p.config.groups
    → q.config.worlds ≡ p.config.worlds
    → q.title_ids ≡ p.title_ids
    → q.world_ids ≡ p.world_ids
    → IsProgress q
kept p q v groups worlds ts ws = record {
  config = record {
    titles_once = subst (λ g. IsDistinct (titles g)) (sym groups) v.config.titles_once;
    worlds_once = subst (λ w. IsDistinct (world_keys w)) (sym worlds) v.config.worlds_once;
    in_range = subst AllInRange (sym worlds) v.config.in_range;
  };
  seen_titles = λ t. rw (ts, groups) (v.seen_titles t);
  seen_worlds = λ k. rw (ws, worlds) (v.seen_worlds k);
}

pub complain-IsProgress :
    (number : ℕ) (why : Complaint) (p : Progress)
    → IsProgress p
    → IsProgress (complain number why p)
complain-IsProgress number why p v = kept p (complain number why p) v refl refl refl refl

pub field_errors-IsProgress :
    (u : Unicode) (number field : ℕ) (values : List (Option ℕ)) (p : Progress)
    → IsProgress p
    → IsProgress (field_errors u number field values p)
field_errors-IsProgress u number field [] p v = v
field_errors-IsProgress u number field (none ∷ values) p v =
    field_errors-IsProgress u number (suc field) values (complain number (not_in_range field) p)
      (complain-IsProgress number (not_in_range field) p v)
field_errors-IsProgress u number field (some n ∷ values) p v =
    field_errors-IsProgress u number (suc field) values p v

pub titles-append :
    (ms : List WorldGroupMapping) (m : WorldGroupMapping)
    → titles (ms ++ m ∷ []) ≡ titles ms ++ m.title_id ∷ []
titles-append [] m = refl
titles-append (n ∷ ms) m = ap (◌∷◌ n.title_id) (titles-append ms m)

pub world_keys-append :
    (ws : List WorldDefinition) (w : WorldDefinition)
    → world_keys (ws ++ w ∷ []) ≡ world_keys ws ++ (w.group, w.world_id) ∷ []
world_keys-append [] w = refl
world_keys-append (v ∷ ws) w = ap (λ l. (v.group, v.world_id) ∷ l) (world_keys-append ws w)

unfoldable pub AllInRange-append :
    (ws : List WorldDefinition) (w : WorldDefinition)
    → AllInRange ws
    → AllInRange (w ∷ [])
    → AllInRange (ws ++ w ∷ [])
unfolding AllInRange
AllInRange-append [] w v h = h
AllInRange-append (x ∷ ws) w v h =
    let (a, b, c, d, e, rest) = v in (a, b, c, d, e, AllInRange-append ws w rest h)
