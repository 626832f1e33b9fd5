-- ===== src/Workers/Slots.antt =====
-- The operations on the slots of one worker, balthalib/src/node/workers.rs.
use balthazar.Prelude.{
  ℕ, ◌+◌, ◌-◌, ◌*◌, ◌≡◌, refl, ap, Bool, true, false, List, [], ◌∷◌, any, count_if, update_all,
  length, ltb, arith, Bool-cases, inl, inr, any-find, any-find-none, find-some, find-none-count_if,
  find-count_if_pos, count_if-update_first, length-update_first,
}
use balthazar.Ids.HashId.{TaskId, hash_eq, hash_eq_iff}
use balthazar.Workers.{
  WorkerAssignment, available, pending, assigned, is_available, is_pending, is_assigned_to, Worker,
  get_nb_available_slots, get_nb_pending_slots, set_first, reserve_slot, unreserve_all_slots,
  assign_slot, unassign_slot,
}

-- How many slots a task holds.
abbrev pub slots_of : TaskId → Worker → ℕ
slots_of id w = count_if (is_assigned_to id) w.assignments

abbrev pub bit : Bool → ℕ
bit true = 1
bit false = 0

module _ (p : WorkerAssignment → Bool) (a : WorkerAssignment) (w : Worker) where
  -- A slot is set if the test holds of one, and a count changes by the slot set.
  set_first_found : (set_first p a w).1 ≡ ltb 0 (count_if p w.assignments)
  unfolding set_first
  set_first_found = elim (Bool-cases (any p w.assignments)) [
    | inl e ↦
        let (s, found) = any-find p w.assignments e in
        ground (arith, find-count_if_pos p w.assignments found)
    | inr e ↦ ground (arith, find-none-count_if p w.assignments (any-find-none p w.assignments e))
  ]

  set_first_count :
      (q : WorkerAssignment → Bool) (before : Bool)
      → ((s : WorkerAssignment) → p s ≡ true → q s ≡ before)
      → count_if q (set_first p a w).0.assignments + bit (set_first p a w).1 * bit before
        ≡ count_if q w.assignments + bit (set_first p a w).1 * bit (q a)
  unfolding set_first
  set_first_count q before of = elim (Bool-cases (any p w.assignments)) [
    | inl e ↦
        let (s, found) = any-find p w.assignments e in
        let same = of s (find-some p w.assignments found) in
        let counts = count_if-update_first q p (λ _. a) w.assignments found in ground arith
    | inr e ↦ ground arith
  ]

  length-set_first : length (set_first p a w).0.assignments ≡ length w.assignments
  unfolding set_first
  length-set_first = ground (arith, length-update_first p (λ _. a) w.assignments)

only_available : (s : WorkerAssignment) → is_available s ≡ true → s ≡ available
only_available available h = refl
only_available pending h = cc
only_available (assigned id) h = cc

only_pending : (s : WorkerAssignment) → is_pending s ≡ true → s ≡ pending
only_pending available h = cc
only_pending pending h = refl
only_pending (assigned id) h = cc

only_assigned : (id : TaskId) (s : WorkerAssignment) → is_assigned_to id s ≡ true → s ≡ assigned id
only_assigned id available h = cc
only_assigned id pending h = cc
only_assigned id (assigned task) h = ap assigned ((hash_eq_iff task id).0 h)

-- reserve_slot succeeds exactly if a slot is available, of which it then makes one pending; the
-- slots of each task and the number of slots stay.
pub reserve_slot_counts :
    (w : Worker) (id : TaskId)
    → let r = reserve_slot w in
      (r.1 ≡ ltb 0 (get_nb_available_slots w))
      × (get_nb_available_slots r.0 + bit r.1 ≡ get_nb_available_slots w)
      × (get_nb_pending_slots r.0 ≡ get_nb_pending_slots w + bit r.1)
      × (slots_of id r.0 ≡ slots_of id w)
      × (length r.0.assignments ≡ length w.assignments)
unfolding reserve_slot get_nb_available_slots get_nb_pending_slots
reserve_slot_counts w id =
    let count = set_first_count is_available pending w in
    (
      set_first_found is_available pending w,
      omega (arith, count is_available true (λ s h. h)),
      omega (arith, count is_pending false (λ s h. ap is_pending (only_available s h))),
      omega (
        arith,
        count (is_assigned_to id) false (λ s h. ap (is_assigned_to id) (only_available s h)),
      ),
      length-set_first is_available pending w,
    )

-- unassign_slot succeeds exactly if the task has a slot, of which it then makes one available; the
-- pending slots, the slots of the other tasks and the number of slots stay. (Whether another slot
-- is available has no part in it, unlike what its documentation says.)
pub unassign_slot_counts :
    (w : Worker) (id other : TaskId)
    → let r = unassign_slot id w in
      (r.1 ≡ ltb 0 (slots_of id w))
      × (get_nb_available_slots r.0 ≡ get_nb_available_slots w + bit r.1)
      × (get_nb_pending_slots r.0 ≡ get_nb_pending_slots w)
      × (slots_of other r.0 + bit r.1 * bit (hash_eq id other) ≡ slots_of other w)
      × (length r.0.assignments ≡ length w.assignments)
unfolding unassign_slot get_nb_available_slots get_nb_pending_slots
unassign_slot_counts w id other =
    let p = is_assigned_to id in
    let count = set_first_count p available w in
    (
      set_first_found p available w,
      omega (arith, count is_available false (λ s h. ap is_available (only_assigned id s h))),
      omega (arith, count is_pending false (λ s h. ap is_pending (only_assigned id s h))),
      omega (
        arith,
        count (is_assigned_to other) (hash_eq id other)
            (λ s h. ap (is_assigned_to other) (only_assigned id s h)),
      ),
      length-set_first p available w,
    )

any_pending : (w : Worker) → any is_pending w.assignments ≡ ltb 0 (get_nb_pending_slots w)
unfolding get_nb_pending_slots
any_pending w = elim (Bool-cases (any is_pending w.assignments)) [
  | inl e ↦
      let (s, found) = any-find is_pending w.assignments e in
      ground (arith, find-count_if_pos is_pending w.assignments found)
  | inr e ↦ ground (
    arith,
    find-none-count_if is_pending w.assignments (any-find-none is_pending w.assignments e),
  )
]

-- assign_slot succeeds exactly if a slot is pending or available; it takes a pending one if there
-- is one, and an available one else; the task assigned gains one slot on success, the other tasks
-- none, and the number of slots stays.
pub assign_slot_counts :
    (w : Worker) (id other : TaskId)
    → let r = assign_slot id w in
      (r.1 ≡ ltb 0 (get_nb_pending_slots w + get_nb_available_slots w))
      × (get_nb_pending_slots r.0 ≡ get_nb_pending_slots w - 1)
      × (get_nb_available_slots r.0
          ≡ get_nb_available_slots w - (1 - bit (ltb 0 (get_nb_pending_slots w))))
      × (slots_of other r.0 ≡ slots_of other w + bit r.1 * bit (hash_eq id other))
      × (length r.0.assignments ≡ length w.assignments)
unfolding assign_slot get_nb_available_slots get_nb_pending_slots
assign_slot_counts w id other = elim (Bool-cases (any is_pending w.assignments)) [
  | inl e ↦
      let p = is_pending in
      let count = set_first_count p (assigned id) w in
      rw e (
        ground (
          arith,
          any_pending w,
          set_first_found p (assigned id) w,
          count is_pending true (λ s h. h),
          count is_available false (λ s h. ap is_available (only_pending s h)),
          count (is_assigned_to other) false (λ s h. ap (is_assigned_to other) (only_pending s h)),
          length-set_first p (assigned id) w,
        ))
  | inr e ↦
      let p = is_available in
      let count = set_first_count p (assigned id) w in
      rw e (
        ground (
          arith,
          any_pending w,
          set_first_found p (assigned id) w,
          count is_available true (λ s h. h),
          count is_pending false (λ s h. ap is_pending (only_available s h)),
          count (is_assigned_to other) false
              (λ s h. ap (is_assigned_to other) (only_available s h)),
          length-set_first p (assigned id) w,
        ))
]

update_all_counts :
    (q : WorkerAssignment → Bool) (before after : Bool) (as' : List WorkerAssignment)
    → ((s : WorkerAssignment) → is_pending s ≡ true → q s ≡ before)
    → q available ≡ after
    → count_if q (update_all is_pending (λ _. available) as') + bit before * count_if is_pending as'
      ≡ count_if q as' + bit after * count_if is_pending as'
update_all_counts q before after [] of to = omega arith
update_all_counts q before after (available ∷ xs) of to =
    ground (arith, update_all_counts q before after xs of to)
update_all_counts q before after (pending ∷ xs) of to =
    ground (arith, update_all_counts q before after xs of to, of pending refl)
update_all_counts q before after (assigned id ∷ xs) of to =
    ground (arith, update_all_counts q before after xs of to)

-- After unreserve_all_slots no slot is pending, the pending ones are available, and each task keeps
-- its slots.
pub unreserve_all_slots_counts :
    (w : Worker) (id : TaskId)
    → let w' = unreserve_all_slots w in
      (get_nb_pending_slots w' ≡ 0)
      × (get_nb_available_slots w' ≡ get_nb_available_slots w + get_nb_pending_slots w)
      × (slots_of id w' ≡ slots_of id w)
unfolding unreserve_all_slots get_nb_available_slots get_nb_pending_slots
unreserve_all_slots_counts w id =
    let count = λ (q : WorkerAssignment → Bool) (before after : Bool).
      update_all_counts q before after w.assignments in
    (
      omega (arith, count is_pending true false (λ s h. h) refl),
      omega (arith, count is_available false true (λ s h. ap is_available (only_pending s h)) refl),
      omega (
        arith,
        count (is_assigned_to id) false false (λ s h. ap (is_assigned_to id) (only_pending s h))
            refl,
      ),
    )
