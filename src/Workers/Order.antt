-- ===== src/Workers/Order.antt =====
-- The order in which a manager picks its workers, balthalib/src/node/workers.rs.
use mathlib.Core.Path.{ap₂}
use balthazar.Prelude.{
  ◌≤◌, ◌==◌, ◌≡◌, refl, ◌∙◌, Bool, true, false, not, ◌||◌, some, List, [], ◌∷◌, ◌++◌, map, find,
  count_if, filter, ltb, All, arith, Bool-cases, inl, inr, insert_by, sort_by, find-count_if_pos,
  ◌<◌,
}
use balthazar.Ids.{PeerId}
use balthazar.Workers.{
  Worker, Workers, has_id, get_worker, get_nb_available_slots, has_unassigned, has_available,
  get_unassigned_workers, get_unassigned_workers_sorted,
}
use balthazar.Workers.Known.{IsDistinct}

-- A stable sort by a test that separates two classes puts the one before the other.
module _ (p : PeerId → Bool) where
  abbrev le : PeerId → PeerId → Bool
  le a b = p a || not (p b)

  abbrev split : List PeerId → List PeerId
  split xs = filter p xs ++ filter (λ x. not (p x)) xs

  insert_first : (x : PeerId) (ys : List PeerId) → p x ≡ true → insert_by le x ys ≡ x ∷ ys
  unfolding insert_by
  insert_first x [] e = refl
  insert_first x (y ∷ ys) e = ground arith

  insert_before :
      (x : PeerId) (ys : List PeerId)
      → p x ≡ false
      → All (λ y. p y ≡ false) ys
      → insert_by le x ys ≡ x ∷ ys
  unfolding insert_by
  insert_before x [] e h = refl
  insert_before x (y ∷ ys) e (h, hs) = ground arith

  insert_after :
      (x : PeerId) (xs ys : List PeerId)
      → p x ≡ false
      → All (λ y. p y ≡ true) xs
      → All (λ y. p y ≡ false) ys
      → insert_by le x (xs ++ ys) ≡ xs ++ x ∷ ys
  unfolding insert_by
  insert_after x [] ys e h k = insert_before x ys e k
  insert_after x (z ∷ xs) ys e (h, hs) k = ground (arith, insert_after x xs ys e hs k)

  All-filter : (xs : List PeerId) → All (λ y. p y ≡ true) (filter p xs)
  All-filter [] = tt
  All-filter (x ∷ xs) = elim (Bool-cases (p x)) [
    | inl e ↦ rw e (e, All-filter xs)
    | inr e ↦ rw e (All-filter xs)
  ]

  All-filter-not : (xs : List PeerId) → All (λ y. p y ≡ false) (filter (λ x. not (p x)) xs)
  All-filter-not [] = tt
  All-filter-not (x ∷ xs) = elim (Bool-cases (p x)) [
    | inl e ↦ rw e (All-filter-not xs)
    | inr e ↦ rw e (e, All-filter-not xs)
  ]

  sort_by-eq-split : (xs : List PeerId) → sort_by le xs ≡ split xs
  unfolding sort_by
  sort_by-eq-split [] = refl
  sort_by-eq-split (x ∷ xs) = elim (Bool-cases (p x)) [
    | inl e ↦ ground (arith, sort_by-eq-split xs, insert_first x (sort_by le xs) e)
    | inr e ↦ ground (
      arith,
      sort_by-eq-split xs,
      insert_after x (filter p xs) (filter (λ y. not (p y)) xs) e (All-filter xs)
          (All-filter-not xs),
    )
  ]

All-mono : {P Q : Worker → Type 0} (ws : Workers) → ((w : Worker) → P w → Q w) → All P ws → All Q ws
All-mono [] f h = tt
All-mono (w ∷ ws) f (h, hs) = (f w h, All-mono ws f hs)

abbrev IsFoundIn : Workers → Worker → Type 0
IsFoundIn ws w = find (has_id w.peer_id) ws ≡ some w

found_behind :
    (u : Worker) (ws : Workers) (w : Worker)
    → count_if (has_id u.peer_id) (u ∷ ws) ≤ 1
    → IsFoundIn ws w
    → IsFoundIn (u ∷ ws) w
found_behind u ws w distinct found = elim (Bool-cases (u.peer_id == w.peer_id)) [
  | inl e ↦
      let same : u.peer_id ≡ w.peer_id = ground arith in
      let twice : 0 < count_if (has_id u.peer_id) ws =
        rw same (find-count_if_pos (has_id w.peer_id) ws found) in
      absurd (ground arith)
  | inr e ↦ rw e found
]

tail-IsDistinct : (u : Worker) (ws : Workers) → IsDistinct (u ∷ ws) → IsDistinct ws
tail-IsDistinct u ws h id = ground (arith, h id)

All-IsFoundIn : (ws : Workers) → IsDistinct ws → All (IsFoundIn ws) ws
All-IsFoundIn [] h = tt
All-IsFoundIn (u ∷ ws) h = (
  ground arith,
  All-mono ws (λ w found. found_behind u ws w (h u.peer_id) found)
      (All-IsFoundIn ws (tail-IsDistinct u ws h)),
)

abbrev is_free_now : Worker → Bool
is_free_now w = ltb 0 (get_nb_available_slots w)

Agrees : Workers → Worker → Type 0
Agrees ws w = has_available ws w.peer_id ≡ is_free_now w

All-Agrees : (ws : Workers) → IsDistinct ws → All (Agrees ws) ws
unfolding Agrees has_available get_worker
All-Agrees ws h = All-mono ws (λ w found. rw found) (All-IsFoundIn ws h)

module _ (ws : Workers) where
  filter-map-id :
      (vs : Workers)
      → All (Agrees ws) vs
      → filter (has_available ws) (map (λ w. w.peer_id) (filter has_unassigned vs))
        ≡ map (λ w. w.peer_id) (filter is_free_now (filter has_unassigned vs))
  unfolding Agrees
  filter-map-id [] h = refl
  filter-map-id (v ∷ vs) (h, hs) = ground (arith, filter-map-id vs hs)

  filter-not-map-id :
      (vs : Workers)
      → All (Agrees ws) vs
      → filter (λ i. not (has_available ws i)) (map (λ w. w.peer_id) (filter has_unassigned vs))
        ≡ map (λ w. w.peer_id) (filter (λ w. not (is_free_now w)) (filter has_unassigned vs))
  unfolding Agrees
  filter-not-map-id [] h = refl
  filter-not-map-id (v ∷ vs) (h, hs) = ground (arith, filter-not-map-id vs hs)

-- Where no two workers have the same id, the sorted list is the ids of the workers with an
-- available slot, followed by those of the workers with pending slots only, each part in the order
-- of the list of workers.
pub get_unassigned_workers_sorted_lem :
    (ws : Workers)
    → IsDistinct ws
    → get_unassigned_workers_sorted ws
      ≡ map
          (λ w. w.peer_id)
          (filter (λ w. ltb 0 (get_nb_available_slots w)) (filter has_unassigned ws))
        ++ map
            (λ w. w.peer_id)
            (filter (λ w. not (ltb 0 (get_nb_available_slots w))) (filter has_unassigned ws))
unfolding get_unassigned_workers_sorted get_unassigned_workers
get_unassigned_workers_sorted_lem ws h =
    sort_by-eq-split (has_available ws) (map (λ w. w.peer_id) (filter has_unassigned ws))
    ∙ ap₂ ◌++◌ (filter-map-id ws ws (All-Agrees ws h)) (filter-not-map-id ws ws (All-Agrees ws h))
