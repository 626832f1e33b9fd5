-- ===== src/Prelude/Assoc.antt =====
-- `HashMap` as an association list. The source never relies on the order of a map's entries.
use mathlib.Core.Path.{◌≡◌, refl, ap}
use mathlib.Core.Logic.{inl, inr}
use mathlib.Core.Option.{Option, none, some}
use mathlib.Core.List.{List, [], ◌∷◌}
use native.Mathlib.Omega.{arith}
use balthazar.Prelude.Tests.{if◌then◌else◌, Eq, Option-cases}

abbrev pub Assoc : Type 0 → Type 0 → Type 0
Assoc K V = List (K × V)

module _ {K V : Type 0} ⦃e : Eq K⦄ where
  -- map.get(k)
  unfoldable pub lookup : K → Assoc K V → Option V
  lookup k [] = none
  lookup k ((j, v) ∷ m) = if e.beq j k then some v else lookup k m

  -- map.insert(k, v), and a write through map.get_mut(k)
  unfoldable pub insert : K → V → Assoc K V → Assoc K V
  insert k v [] = (k, v) ∷ []
  insert k v ((j, w) ∷ m) =
      let rest = insert k v m in if e.beq j k then (k, v) ∷ m else (j, w) ∷ rest

  -- map.remove(k)
  unfoldable pub remove : K → Assoc K V → Assoc K V
  remove k [] = []
  remove k ((j, w) ∷ m) = let rest = remove k m in if e.beq j k then rest else (j, w) ∷ rest

  -- map.entry(k).or_insert(v)
  unfoldable pub or_insert : K → V → Assoc K V → Assoc K V
  or_insert k v m = elim (lookup k m) [ some w ↦ m | none ↦ insert k v m ]

  pub lookup-insert :
      (k j : K) (v : V) (m : Assoc K V)
      → lookup j (insert k v m) ≡ (if e.beq k j then some v else lookup j m)
  unfolding lookup insert
  lookup-insert k j v [] = refl
  lookup-insert k j v ((i, w) ∷ m) =
      ground (arith, e.beq_iff k j, e.beq_iff i k, e.beq_iff i j, lookup-insert k j v m)

  pub lookup-insert_self : (k : K) (v : V) (m : Assoc K V) → lookup k (insert k v m) ≡ some v
  lookup-insert_self k v m = ground (arith, lookup-insert k k v m, e.beq_iff k k)

  pub lookup-remove :
      (k j : K) (m : Assoc K V) → lookup j (remove k m) ≡ (if e.beq k j then none else lookup j m)
  unfolding lookup remove
  lookup-remove k j [] = ground arith
  lookup-remove k j ((i, w) ∷ m) =
      ground (arith, e.beq_iff k j, e.beq_iff i k, e.beq_iff i j, lookup-remove k j m)

  pub or_insert-present :
      (k : K) (v w : V) (m : Assoc K V) → lookup k m ≡ some w → or_insert k v m ≡ m
  unfolding or_insert
  or_insert-present k v w m h = ground (arith, h)

  pub or_insert-absent :
      (k : K) (v : V) (m : Assoc K V) → lookup k m ≡ none → or_insert k v m ≡ insert k v m
  unfolding or_insert
  or_insert-absent k v m h = ground (arith, h)

  -- An entry that is there stays, with its value.
  pub lookup-or_insert :
      (k j : K) (v w : V) (m : Assoc K V)
      → lookup j m ≡ some w
      → lookup j (or_insert k v m) ≡ some w
  unfolding or_insert
  lookup-or_insert k j v w m h = elim (Option-cases (lookup k m)) [
    | inl absent ↦
        ground (arith, lookup-insert k j v m, e.beq_iff k j, ap (λ i. lookup i m) {x = k} {y = j})
    | inr (u, there) ↦ ground arith
  ]

  pub lookup-or_insert_self :
      (k : K) (v : V) (m : Assoc K V) → (w : V) × (lookup k (or_insert k v m) ≡ some w)
  unfolding or_insert
  lookup-or_insert_self k v m = elim (Option-cases (lookup k m)) [
    | inl absent ↦ (v, ground (arith, lookup-insert_self k v m))
    | inr (u, there) ↦ (u, ground arith)
  ]

  -- Of two writes to one key the last one stays, and writing what is there changes nothing.
  pub insert-insert : (k : K) (v w : V) (m : Assoc K V) → insert k v (insert k w m) ≡ insert k v m
  unfolding insert
  insert-insert k v w [] = ground (arith, e.beq_iff k k)
  insert-insert k v w ((j, u) ∷ m) = ground (arith, e.beq_iff k k, insert-insert k v w m)

  pub insert-lookup : (k : K) (v : V) (m : Assoc K V) → lookup k m ≡ some v → insert k v m ≡ m
  unfolding insert lookup
  insert-lookup k v [] h = cc
  insert-lookup k v ((j, u) ∷ m) h = ground (arith, e.beq_iff j k, insert-lookup k v m)
