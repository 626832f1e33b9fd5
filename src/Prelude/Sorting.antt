-- ===== src/Prelude/Sorting.antt =====
-- `sort` and `sort_by` of Rust's slices: stable insertion, by a test that is true unless the first
-- argument is the greater.
use Prim.Native.Nat.{ℕ}
use mathlib.Core.Bool.{Bool}
use mathlib.Core.List.{List, [], ◌∷◌}
use balthazar.Prelude.Tests.{leb, if◌then◌else◌}

module _ {A : Type 0} (le : A → A → Bool) where
  unfoldable pub insert_by : A → List A → List A
  insert_by x [] = x ∷ []
  insert_by x (y ∷ ys) = let rest = insert_by x ys in if le x y then x ∷ y ∷ ys else y ∷ rest

  unfoldable pub sort_by : List A → List A
  unfolding insert_by
  sort_by [] = []
  sort_by (x ∷ xs) = insert_by x (sort_by xs)

-- `sort`, where `Ord` compares a number drawn from the elements
abbrev pub sort_by_key : {A : Type 0} → (A → ℕ) → List A → List A
sort_by_key key = sort_by (λ a b. leb (key a) (key b))
