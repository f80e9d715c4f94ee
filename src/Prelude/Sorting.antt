-- ===== src/Prelude/Sorting.antt =====
-- Sorting numbers in ascending order, as std::sort does: an insertion sort has its result.
use Prim.Native.Nat.{ℕ, ◌≤◌}
use mathlib.Core.Path.{◌≡◌, refl}
use mathlib.Core.Bool.{true}
use mathlib.Core.List.{List, [], ◌∷◌}
use native.Mathlib.Omega.{arith}
use shad_net.Prelude.Tests.{leb, if◌then◌else◌, contains, nat_eq}

insert_sorted : ℕ → List ℕ → List ℕ
insert_sorted n [] = n ∷ []
insert_sorted n (x ∷ xs) = let rest = insert_sorted n xs in if leb n x then n ∷ x ∷ xs else x ∷ rest

unfoldable pub sort : List ℕ → List ℕ
unfolding insert_sorted
sort [] = []
sort (x ∷ xs) = insert_sorted x (sort xs)

-- Every number is at least the bound, and they ascend.
abbrev AscendsFrom : ℕ → List ℕ → Type 0
AscendsFrom low [] = Unit
AscendsFrom low (x ∷ xs) = (low ≤ x) × AscendsFrom x xs

abbrev pub IsAscending : List ℕ → Type 0
IsAscending [] = Unit
IsAscending (x ∷ xs) = AscendsFrom x xs

insert_sorted-AscendsFrom :
    (low n : ℕ) (xs : List ℕ) → low ≤ n → AscendsFrom low xs → AscendsFrom low (insert_sorted n xs)
unfolding insert_sorted
insert_sorted-AscendsFrom low n [] h v = (h, tt)
insert_sorted-AscendsFrom low n (x ∷ xs) h v =
    ground (arith, insert_sorted-AscendsFrom x n xs, v.0, v.1)

insert_sorted-IsAscending :
    (n : ℕ) (xs : List ℕ) → IsAscending xs → IsAscending (insert_sorted n xs)
unfolding insert_sorted
insert_sorted-IsAscending n [] v = tt
insert_sorted-IsAscending n (x ∷ xs) v = ground (arith, insert_sorted-AscendsFrom x n xs)

pub sort-IsAscending : (xs : List ℕ) → IsAscending (sort xs)
unfolding sort
sort-IsAscending [] = tt
sort-IsAscending (x ∷ xs) = insert_sorted-IsAscending x (sort xs) (sort-IsAscending xs)

contains-insert_sorted :
    (n k : ℕ) (xs : List ℕ)
    → contains (insert_sorted n xs) k ≡ (if nat_eq.beq k n then true else contains xs k)
unfolding insert_sorted contains
contains-insert_sorted n k [] = ground arith
contains-insert_sorted n k (x ∷ xs) = ground (arith, contains-insert_sorted n k xs)

pub contains-sort : (k : ℕ) (xs : List ℕ) → contains (sort xs) k ≡ contains xs k
unfolding sort contains
contains-sort k [] = refl
contains-sort k (x ∷ xs) = ground (arith, contains-insert_sorted x k (sort xs), contains-sort k xs)
