-- ===== src/Prelude/Lists.antt =====
-- Lists measured by native numbers, and the searches and in-place updates of Rust's iterators.
use Prim.Native.Nat.{ℕ, zero, suc, ◌+◌, ◌≤◌, ◌<◌}
use mathlib.Core.Path.{◌≡◌, refl, ap}
use mathlib.Core.Logic.{inl, inr}
use mathlib.Core.Bool.{Bool, true, false}
use mathlib.Core.List.{List, [], ◌∷◌}
use mathlib.Core.Option.{Option, none, some}
use native.Mathlib.Omega.{arith}
use balthazar.Prelude.Tests.{if◌then◌else◌, Bool-cases}

module _ {ℓ} {A : Type ℓ} where
  abbrev pub length : List A → ℕ
  length [] = 0
  length (x ∷ xs) = suc (length xs)

  abbrev pub get_elem? : List A → ℕ → Option A
  get_elem? [] i = none
  get_elem? (x ∷ xs) zero = some x
  get_elem? (x ∷ xs) (suc i) = get_elem? xs i

  abbrev pub take : ℕ → List A → List A
  take zero xs = []
  take (suc n) [] = []
  take (suc n) (x ∷ xs) = x ∷ take n xs

  abbrev pub replicate : ℕ → A → List A
  replicate zero a = []
  replicate (suc n) a = a ∷ replicate n a

  abbrev pub is_empty : List A → Bool
  is_empty [] = true
  is_empty (x ∷ xs) = false

  -- `iter().find(p)`
  abbrev pub find : (A → Bool) → List A → Option A
  find p [] = none
  find p (x ∷ xs) = if p x then some x else find p xs

  -- `iter().any(p)`
  abbrev pub any : (A → Bool) → List A → Bool
  any p [] = false
  any p (x ∷ xs) = if p x then true else any p xs

  -- `iter().filter(p).count()`
  abbrev pub count_if : (A → Bool) → List A → ℕ
  count_if p [] = 0
  count_if p (x ∷ xs) = let rest = count_if p xs in if p x then suc rest else rest

  -- `iter().filter(p).collect()`
  abbrev pub filter : (A → Bool) → List A → List A
  filter p [] = []
  filter p (x ∷ xs) = let rest = filter p xs in if p x then x ∷ rest else rest

  -- A write through `iter_mut().find(p)`.
  abbrev pub update_first : (A → Bool) → (A → A) → List A → List A
  update_first p f [] = []
  update_first p f (x ∷ xs) = let rest = update_first p f xs in if p x then f x ∷ xs else x ∷ rest

  -- A write through `iter_mut().filter(p).for_each(…)`.
  abbrev pub update_all : (A → Bool) → (A → A) → List A → List A
  update_all p f [] = []
  update_all p f (x ∷ xs) = let rest = update_all p f xs in if p x then f x ∷ rest else x ∷ rest

  -- Every element satisfies the predicate.
  abbrev pub All {κ} : (A → Type κ) → List A → Type κ
  All P [] = Unit
  All P (x ∷ xs) = P x × All P xs

  pub length-update_first :
      (p : A → Bool) (f : A → A) (xs : List A) → length (update_first p f xs) ≡ length xs
  length-update_first p f [] = refl
  length-update_first p f (x ∷ xs) = ground (arith, length-update_first p f xs)

  pub length-replicate : (n : ℕ) (a : A) → length (replicate n a) ≡ n
  length-replicate zero a = refl
  length-replicate (suc n) a = ap suc (length-replicate n a)

  pub count_if-le-length : (p : A → Bool) (xs : List A) → count_if p xs ≤ length xs
  count_if-le-length p [] = omega arith
  count_if-le-length p (x ∷ xs) = ground (arith, count_if-le-length p xs)

  pub length-take : (n : ℕ) (xs : List A) → length (take n xs) ≤ n
  length-take zero xs = omega arith
  length-take (suc n) [] = omega arith
  length-take (suc n) (x ∷ xs) = omega (arith, length-take n xs)

  pub find-none-count_if : (p : A → Bool) (xs : List A) → find p xs ≡ none → count_if p xs ≡ 0
  find-none-count_if p [] h = refl
  find-none-count_if p (x ∷ xs) h = ground (arith, find-none-count_if p xs)

  pub find-some : (p : A → Bool) (xs : List A) {a : A} → find p xs ≡ some a → p a ≡ true
  find-some p [] h = cc
  find-some p (x ∷ xs) {a} h = ground (arith, find-some p xs {a = a})

  pub find-count_if_pos :
      (p : A → Bool) (xs : List A) {a : A} → find p xs ≡ some a → 0 < count_if p xs
  find-count_if_pos p [] h = cc
  find-count_if_pos p (x ∷ xs) {a} h = ground (arith, find-count_if_pos p xs {a = a})

  pub count_if_pos-find :
      (p : A → Bool) (xs : List A) → 0 < count_if p xs → (a : A) × (find p xs ≡ some a)
  count_if_pos-find p [] h = absurd (omega arith)
  count_if_pos-find p (x ∷ xs) h = elim (Bool-cases (p x)) [
    | inl e ↦ (x, ground arith)
    | inr e ↦ let (a, found) = count_if_pos-find p xs (ground arith) in (a, ground arith)
  ]

module _ {ℓ} {A : Type ℓ} where
  -- A write at the first element that `p` selects changes a count by that element alone.
  pub count_if-update_first :
      (q p : A → Bool) (f : A → A) (xs : List A) {a : A}
      → find p xs ≡ some a
      → count_if q (update_first p f xs) + (if q a then 1 else 0)
        ≡ count_if q xs + (if q (f a) then 1 else 0)
  count_if-update_first q p f [] h = cc
  count_if-update_first q p f (x ∷ xs) {a} h =
      ground (arith, count_if-update_first q p f xs {a = a})

  pub update_first-none :
      (p : A → Bool) (f : A → A) (xs : List A) → find p xs ≡ none → update_first p f xs ≡ xs
  update_first-none p f [] h = refl
  update_first-none p f (x ∷ xs) h = ground (arith, update_first-none p f xs)

  -- A search for what neither the old element nor the new one satisfies does not see the write.
  pub find-update_first_ne :
      (q p : A → Bool) (f : A → A) (xs : List A) {a : A}
      → find p xs ≡ some a
      → q a ≡ false
      → q (f a) ≡ false
      → find q (update_first p f xs) ≡ find q xs
  find-update_first_ne q p f [] h n n' = refl
  find-update_first_ne q p f (x ∷ xs) {a} h n n' =
      ground (arith, find-update_first_ne q p f xs {a = a})

  pub count_if-replicate_zero :
      (p : A → Bool) (n : ℕ) (a : A) → p a ≡ false → count_if p (replicate n a) ≡ 0
  count_if-replicate_zero p zero a h = refl
  count_if-replicate_zero p (suc n) a h = ground (arith, count_if-replicate_zero p n a)

  pub count_if-replicate :
      (p : A → Bool) (n : ℕ) (a : A) → p a ≡ true → count_if p (replicate n a) ≡ n
  count_if-replicate p zero a h = refl
  count_if-replicate p (suc n) a h = ground (arith, count_if-replicate p n a)

module _ {ℓ} {A : Type ℓ} where
  pub any-find : (p : A → Bool) (xs : List A) → any p xs ≡ true → (a : A) × (find p xs ≡ some a)
  any-find p [] h = cc
  any-find p (x ∷ xs) h = elim (Bool-cases (p x)) [
    | inl e ↦ (x, ground arith)
    | inr e ↦ let (a, found) = any-find p xs (ground arith) in (a, ground arith)
  ]

  pub any-find-none : (p : A → Bool) (xs : List A) → any p xs ≡ false → find p xs ≡ none
  any-find-none p [] h = refl
  any-find-none p (x ∷ xs) h = ground (arith, any-find-none p xs)

  pub any_of_find : (p : A → Bool) (xs : List A) {a : A} → find p xs ≡ some a → any p xs ≡ true
  any_of_find p [] h = cc
  any_of_find p (x ∷ xs) {a} h = ground (arith, any_of_find p xs {a = a})

  pub find-none_of_count_if : (p : A → Bool) (xs : List A) → count_if p xs ≡ 0 → find p xs ≡ none
  find-none_of_count_if p [] h = refl
  find-none_of_count_if p (x ∷ xs) h = ground (arith, find-none_of_count_if p xs)

  pub any_of_find-none : (p : A → Bool) (xs : List A) → find p xs ≡ none → any p xs ≡ false
  any_of_find-none p [] h = refl
  any_of_find-none p (x ∷ xs) h = ground (arith, any_of_find-none p xs)

  -- Writing back what stood in the place written.
  pub update_first_back :
      (p q : A → Bool) (f : A → A) (xs : List A) {a : A}
      → find q xs ≡ none
      → find p xs ≡ some a
      → q (f a) ≡ true
      → update_first q (λ _. a) (update_first p f xs) ≡ xs
  update_first_back p q f [] n h t = refl
  update_first_back p q f (x ∷ xs) {a} n h t = elim (Bool-cases (p x)) [
    | inl e ↦ ground arith
    | inr e ↦ ground (arith, update_first_back p q f xs {a = a})
  ]

  -- The element just written is the first that a fresh test finds.
  pub find-update_first_self :
      (p q : A → Bool) (f : A → A) (xs : List A) {a : A}
      → find q xs ≡ none
      → find p xs ≡ some a
      → q (f a) ≡ true
      → find q (update_first p f xs) ≡ some (f a)
  find-update_first_self p q f [] n h t = cc
  find-update_first_self p q f (x ∷ xs) {a} n h t =
      ground (arith, find-update_first_self p q f xs {a = a})
