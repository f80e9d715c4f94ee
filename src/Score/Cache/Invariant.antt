-- ===== src/Score/Cache/Invariant.antt =====
-- Every board of the cache stays right, whatever is called.
use mathlib.Core.Option.{some-injective}
use shad_net.Prelude.{
  ℕ, zero, suc, ◌≤◌, ◌≡◌, refl, ◌∙◌, ap, sym, subst, none, some, List, [], ◌∷◌, false, String,
  arith, if◌then◌else◌, ◌&&◌, ◌==◌, nat_eq, string_eq, Option-cases, inl, inr, length, set,
  length-set, get_elem?, Option, Bool-cases, is_some, keep_if, not,
}
use shad_net.Prelude.Int.{ℤ, int_eq}
use shad_net.Prelude.Assoc.{find}
use shad_net.Score.Entry.{ScoreEntry, ScoreBoardConfig, ranks_before}
use shad_net.Score.Index.{index_of}
use shad_net.Score.Table
use shad_net.Score.Table.{ScoreTable, has_key}
use shad_net.Score.Position.{position, position_of, Distinct, position-nil}
use shad_net.Score.Order.{IsOrdered, NoneBefore}
use shad_net.Score.Insert.{IsBoard, insert_score-IsBoard, insert_score-config}
use shad_net.Score.Removal.{load_table-IsBoard, remove_user_lem, remove_entry_lem}
use shad_net.Score.Cache
use shad_net.Score.Cache.{
  Tables, table_of, put_table, get_or_create, set_game_data, with_data, new_table,
}
use shad_net.Score.Cache.Tables.{table_of-put_table, table_of-remove_user}

-- A board is right for the configuration that it keeps.
abbrev IsRight : ScoreTable → Type 0
IsRight t = IsBoard t.config.sort_mode t.config.rank_limit t

pub record IsCache (m : Tables) : Type 0 where
  pub at :
      (title : String) (board : ℕ) (t : ScoreTable) → table_of title board m ≡ some t → IsRight t

-- Setting the data of an entry changes neither keys nor order.
module _ (d : ℕ) where
  abbrev marked : ScoreEntry → ScoreEntry
  marked e = record e { data_id = some d }

  position-set :
      (u c : ℤ) (zs : List ScoreEntry) (i : ℕ) (e : ScoreEntry)
      → get_elem? zs i ≡ some e
      → position u c (set zs i (marked e)) ≡ position u c zs
  unfolding position
  position-set u c [] i e h = refl
  position-set u c (x ∷ zs) zero e h = let s : e ≡ x = cc in ap (position u c) (ap (λ y. y ∷ zs) s)
  position-set u c (x ∷ zs) (suc i) e h = ground (arith, position-set u c zs i e)

  Distinct-set :
      (zs : List ScoreEntry) (i : ℕ) (e : ScoreEntry)
      → get_elem? zs i ≡ some e
      → Distinct zs
      → Distinct (set zs i (marked e))
  Distinct-set [] i e h k = k
  Distinct-set (x ∷ zs) zero e h k =
      let s : x ≡ e = cc in subst (λ y. (position_of y zs ≡ none) × Distinct zs) s k
  Distinct-set (x ∷ zs) (suc i) e h k =
      (position-set x.user_id x.character_id zs i e h ∙ k.0, Distinct-set zs i e h k.1)

  NoneBefore-set :
      (mode : ℕ) (y : ScoreEntry) (zs : List ScoreEntry) (i : ℕ) (e : ScoreEntry)
      → get_elem? zs i ≡ some e
      → NoneBefore mode y zs
      → NoneBefore mode y (set zs i (marked e))
  unfolding ranks_before
  NoneBefore-set mode y [] i e h k = k
  NoneBefore-set mode y (x ∷ zs) zero e h k =
      let s : x ≡ e = cc in (subst (λ z. ranks_before mode z y ≡ false) s k.0, k.1)
  NoneBefore-set mode y (x ∷ zs) (suc i) e h k = (k.0, NoneBefore-set mode y zs i e h k.1)

  NoneBefore-marked :
      (mode : ℕ) (e : ScoreEntry) (zs : List ScoreEntry)
      → NoneBefore mode e zs
      → NoneBefore mode (marked e) zs
  unfolding ranks_before
  NoneBefore-marked mode e [] k = k
  NoneBefore-marked mode e (x ∷ zs) k = (k.0, NoneBefore-marked mode e zs k.1)

  IsOrdered-set :
      (mode : ℕ) (zs : List ScoreEntry) (i : ℕ) (e : ScoreEntry)
      → get_elem? zs i ≡ some e
      → IsOrdered mode zs
      → IsOrdered mode (set zs i (marked e))
  IsOrdered-set mode [] i e h k = k
  IsOrdered-set mode (x ∷ zs) zero e h k =
      let s : x ≡ e = cc in
      (NoneBefore-marked mode e zs (subst (λ y. NoneBefore mode y zs) s k.0), k.1)
  IsOrdered-set mode (x ∷ zs) (suc i) e h k =
      (NoneBefore-set mode x zs i e h k.0, IsOrdered-set mode zs i e h k.1)

  with_data-IsRight :
      (t : ScoreTable) (i : ℕ) → IsRight t → IsRight (with_data d t i (get_elem? t.sorted i))
  with_data-IsRight t i v = elim (Option-cases (get_elem? t.sorted i)) [
    | inl e ↦ rw e v
    | inr (x, e) ↦ rw e (record {
      index = record {
        distinct = Distinct-set t.sorted i x e v.index.distinct;
        indexed = λ u c. v.index.indexed u c ∙ sym (position-set u c t.sorted i x e);
      };
      ordered = IsOrdered-set t.config.sort_mode t.sorted i x e v.ordered;
      bounded = rw (length-set t.sorted i (marked x)) v.bounded;
    })
  ]

-- Changing one board of a right cache to a right board.
put_table-IsCache :
    (title : String) (board : ℕ) (t : ScoreTable) (m : Tables)
    → IsCache m
    → IsRight t
    → IsCache (put_table title board t m)
put_table-IsCache title board t m v r = record {
  at = λ title' board' t' e.
      let e' : (if (title == title') && (board == board') then some t else table_of title' board' m)
          ≡ some t' =
        sym (table_of-put_table title title' board board' t m) ∙ e in
      elim (Bool-cases ((title == title') && (board == board'))) [
        | inl y ↦ subst IsRight (some-injective t t' (rw y at e')) r
        | inr n ↦ v.at title' board' t' (rw n at e')
      ];
}

no_index : (u c : ℤ) → index_of u c [] ≡ none
unfolding index_of find
no_index u c = refl

new_table-IsRight : (cfg : ScoreBoardConfig) → IsRight (new_table cfg)
unfolding index_of
new_table-IsRight cfg = record {
  index = record { distinct = tt; indexed = λ u c. no_index u c ∙ sym (position-nil u c) };
  ordered = tt;
  bounded = omega arith;
}

-- The configuration that a caller passes is that of the board, or the cache has no such board.
unfoldable pub IsConfigOf : ScoreBoardConfig → Option ScoreTable → Type 0
IsConfigOf cfg none = Unit
IsConfigOf cfg (some t) = t.config ≡ cfg

get_or_create-IsRight :
    (cfg : ScoreBoardConfig) (title : String) (board : ℕ) (m : Tables)
    → IsCache m
    → IsConfigOf cfg (table_of title board m)
    → IsRight (get_or_create title board cfg m) × ((get_or_create title board cfg m).config ≡ cfg)
unfolding get_or_create IsConfigOf
get_or_create-IsRight cfg title board m v same = elim (Option-cases (table_of title board m)) [
  | inl e ↦ rw (e, get_or_create) (new_table-IsRight cfg, refl)
  | inr (t, e) ↦ rw (e, get_or_create) (v.at title board t e, subst (IsConfigOf cfg) e same)
]

-- The calls that change the cache. A board can be loaded anew, under any configuration. The rows that
-- are loaded have each player slot once, in the order of the configuration, and are no more than
-- its rank limit; a score is inserted under the configuration that the board has, if it is held.
pub data Step : Tables → Tables → Type 0 where
  loads :
      (now : ℕ) (title : String) (board : ℕ) (cfg : ScoreBoardConfig) (entries : List ScoreEntry)
      (m : Tables)
      → Distinct entries
      → IsOrdered cfg.sort_mode entries
      → length entries ≤ cfg.rank_limit
      → Step m (Cache.load_table now title board cfg entries m)
  inserts :
      (now : ℕ) (title : String) (board : ℕ) (cfg : ScoreBoardConfig) (e : ScoreEntry) (m : Tables)
      → IsConfigOf cfg (table_of title board m)
      → Step m (Cache.insert_score now title board cfg e m).0
  sets_data :
      (title : String) (board : ℕ) (u c : ℤ) (d : ℕ) (m : Tables)
      → Step m (set_game_data title board u c d m).0
  removes_user : (u : ℤ) (m : Tables) → Step m (Cache.remove_user u m).0
  removes_entry :
      (title : String) (board : ℕ) (u c : ℤ) (m : Tables)
      → Step m (Cache.remove_entry title board u c m).0

pub data Reach : Tables → Type 0 where
  start : Reach []
  next : {m n : Tables} → Reach m → Step m n → Reach n

remove_user-config : (u : ℤ) (t : ScoreTable) → (Table.remove_user u t).0.config ≡ t.config
unfolding Table.remove_user
remove_user-config u t = elim (Bool-cases (is_some (find u t.lookup))) [
  | inl y ↦ rw (y, Table.remove_user) refl
  | inr n ↦ rw (n, Table.remove_user) refl
]

remove_entry-config : (u c : ℤ) (t : ScoreTable) → (Table.remove_entry u c t).0.config ≡ t.config
unfolding Table.remove_entry
remove_entry-config u c t =
    let kept = keep_if (λ e. not (has_key u c e)) t.sorted in
    elim (Bool-cases (length kept == length t.sorted)) [
      | inl y ↦ rw (y, Table.remove_entry) refl
      | inr n ↦ rw (n, Table.remove_entry) refl
    ]

-- A board that is right for a configuration, and keeps it, is right.
keeps-IsRight :
    (cfg : ScoreBoardConfig) (t : ScoreTable)
    → t.config ≡ cfg
    → IsBoard cfg.sort_mode cfg.rank_limit t
    → IsRight t
keeps-IsRight cfg t e v = subst (λ c. IsBoard c.sort_mode c.rank_limit t) (sym e) v

module _ (m : Tables) (v : IsCache m) where
  set_game_data-IsCache :
      (title : String) (board : ℕ) (u c : ℤ) (d : ℕ) → IsCache (set_game_data title board u c d m).0
  unfolding set_game_data
  set_game_data-IsCache title board u c d = elim (Option-cases (table_of title board m)) [
    | inl e ↦ rw (e, set_game_data) v
    | inr (t, e) ↦ elim (Option-cases (index_of u c t.lookup)) [
      | inl n ↦ rw (e, n, set_game_data) v
      | inr (i, y) ↦
          rw (e, y, set_game_data)
            (put_table-IsCache title board _ m v (with_data-IsRight d t i (v.at title board t e)))
    ]
  ]

  remove_entry-IsCache :
      (title : String) (board : ℕ) (u c : ℤ) → IsCache (Cache.remove_entry title board u c m).0
  unfolding Cache.remove_entry
  remove_entry-IsCache title board u c = elim (Option-cases (table_of title board m)) [
    | inl e ↦ rw (e, Cache.remove_entry) v
    | inr (t, e) ↦
        rw (e, Cache.remove_entry)
          (put_table-IsCache title board _ m v (
            keeps-IsRight t.config _ (remove_entry-config u c t)
              (remove_entry_lem _ _ u c t (v.at title board t e)).0))
  ]

  remove_user-IsCache : (u : ℤ) → IsCache (Cache.remove_user u m).0
  remove_user-IsCache u = record {
    at = λ title board t e.
        let e' = sym (table_of-remove_user u title board m) ∙ e in
        elim (Option-cases (table_of title board m)) [
          | inl n ↦ cc (rw n at e')
          | inr (t', y) ↦ subst IsRight (some-injective _ _ (rw y at e')) (
              keeps-IsRight t'.config _ (remove_user-config u t')
                (remove_user_lem t'.config.sort_mode t'.config.rank_limit u t'
                  (v.at title board t' y)).0)
        ];
  }

  insert_score-IsCache :
      (now : ℕ) (title : String) (board : ℕ) (cfg : ScoreBoardConfig) (e : ScoreEntry)
      → IsConfigOf cfg (table_of title board m)
      → IsCache (Cache.insert_score now title board cfg e m).0
  unfolding Cache.insert_score
  insert_score-IsCache now title board cfg e same =
      let t = get_or_create title board cfg m in
      let (right, kept) = get_or_create-IsRight cfg title board m v same in
      let b = subst (λ c. IsBoard c.sort_mode c.rank_limit t) kept right in
      put_table-IsCache title board _ m v (
        keeps-IsRight cfg _ (insert_score-config now cfg e t b.index ∙ kept)
          (insert_score-IsBoard now cfg e t b))

Step-IsCache : {m n : Tables} → Step m n → IsCache m → IsCache n
unfolding Cache.load_table Table.load_table
Step-IsCache (loads now title board cfg entries m d o b) v =
    put_table-IsCache title board _ m v
      (load_table-IsBoard now cfg entries (get_or_create title board cfg m) d o b)
Step-IsCache (inserts now title board cfg e m same) v =
    insert_score-IsCache m v now title board cfg e same
Step-IsCache (sets_data title board u c d m) v = set_game_data-IsCache m v title board u c d
Step-IsCache (removes_user u m) v = remove_user-IsCache m v u
Step-IsCache (removes_entry title board u c m) v = remove_entry-IsCache m v title board u c

-- Whatever calls have changed the cache, in any order, each board that it holds is right for the
-- configuration that it was last loaded or made with: every player slot stands once, the index gives
-- each its place, the best stand first by the sort mode, and no more than the rank limit stand
-- there. Boards can be loaded again under other configurations, each time with rows that have every
-- slot once, in order and within the limit; a score is inserted under the configuration of its board.
pub Reach-IsCache : (m : Tables) → Reach m → IsCache m
unfolding table_of find
Reach-IsCache _ start = record { at = λ title board t e. cc }
Reach-IsCache _ (next r s) = Step-IsCache s (Reach-IsCache _ r)
