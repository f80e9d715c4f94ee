-- ===== src/Score/Index.antt =====
-- `lookup` of a board: userId -> charId -> index, a QHash of QHashes.
use shad_net.Prelude.{ℕ, ◌≡◌, refl, Option, none, some, [], ◌&&◌, Bool, arith, if◌then◌else◌, ◌==◌}
use shad_net.Prelude.Int.{ℤ, int_eq, beq_ℤ_iff}
use shad_net.Prelude.Assoc.{Assoc, find, insert, remove, find-insert, find-remove}

abbrev pub Lookup : Type 0
Lookup = Assoc ℤ (Assoc ℤ ℕ)

-- t.lookup[user], which is made empty where it is missing
unfoldable pub row : ℤ → Lookup → Assoc ℤ ℕ
row u l = elim (find u l) [ none ↦ [] | some m ↦ m ]

-- t.lookup.contains(user) && t.lookup[user].contains(character), with the index
unfoldable pub index_of : ℤ → ℤ → Lookup → Option ℕ
index_of u c l = elim (find u l) [ none ↦ none | some m ↦ find c m ]

-- t.lookup[user][character] = i
unfoldable pub set_index : ℤ → ℤ → ℕ → Lookup → Lookup
unfolding row
set_index u c i l = insert u (insert c i (row u l)) l

-- t.lookup[user].remove(character)
unfoldable pub remove_index : ℤ → ℤ → Lookup → Lookup
unfolding row
remove_index u c l = insert u (remove c (row u l)) l

abbrev pub same_key : ℤ → ℤ → ℤ → ℤ → Bool
same_key u c v d = (u == v) && (c == d)

find_empty : (d : ℤ) → find {V = ℕ} d [] ≡ none
unfolding find
find_empty d = refl

pub index_of-set_index :
    (u c v d : ℤ) (i : ℕ) (l : Lookup)
    → index_of v d (set_index u c i l) ≡ (if same_key u c v d then some i else index_of v d l)
unfolding index_of set_index row
index_of-set_index u c v d i l = ground (
  arith,
  find-insert u v (insert c i (row u l)) l,
  find-insert c d i (row u l),
  beq_ℤ_iff u v,
  find_empty d,
)

pub index_of-remove_index :
    (u c v d : ℤ) (l : Lookup)
    → index_of v d (remove_index u c l) ≡ (if same_key u c v d then none else index_of v d l)
unfolding index_of remove_index row
index_of-remove_index u c v d l = ground (
  arith,
  find-insert u v (remove c (row u l)) l,
  find-remove c d (row u l),
  beq_ℤ_iff u v,
  find_empty d,
)
