-- ===== src/Prelude/Distinct.antt =====
-- Lists without a value twice.
use mathlib.Core.Path.{◌≡◌, refl}
use mathlib.Core.Logic.{inl, inr}
use mathlib.Core.Bool.{true, false}
use mathlib.Core.List.{List, [], ◌∷◌, ◌++◌}
use native.Mathlib.Omega.{arith}
use shad_net.Prelude.Tests.{Eq, contains, Bool-cases, if◌then◌else◌}

module _ {ℓ} {A : Type ℓ} ⦃e : Eq A⦄ where
  abbrev pub IsDistinct : List A → Type 0
  unfolding contains
  IsDistinct [] = Unit
  IsDistinct (x ∷ xs) = (contains xs x ≡ false) × IsDistinct xs

  pub contains-append :
      (xs : List A) (a b : A)
      → contains (xs ++ a ∷ []) b ≡ (if contains xs b then true else e.beq b a)
  unfolding contains
  contains-append [] a b = elim (Bool-cases (e.beq b a)) [
    | inl y ↦ rw (y, contains) refl
    | inr n ↦ rw (n, contains) refl
  ]
  contains-append (x ∷ xs) a b = ground (arith, contains-append xs a b)

  pub IsDistinct-append :
      (xs : List A) (a : A) → IsDistinct xs → contains xs a ≡ false → IsDistinct (xs ++ a ∷ [])
  unfolding contains
  IsDistinct-append [] a v h = (refl, tt)
  IsDistinct-append (x ∷ xs) a v h = (
    ground (arith, contains-append xs a x, v.0, e.beq_iff x a, e.beq_iff a x),
    IsDistinct-append xs a v.1 (ground arith),
  )
