-- ===== src/Completeness/Assignment.antt =====
-- `assign` and `unassign` of balthamisc/src/shared_state.rs, as the readers of the slots see them.
use balthazar.Prelude.{
  ℕ, suc, ◌-◌, ◌<◌, ◌==◌, ◌≡◌, ◌↔◌, refl, ap, ◌∙◌, true, none, some, List, find, any, count_if,
  update_first, if◌then◌else◌, arith, Bool-cases, Option-cases, inl, inr, count_if-update_first,
  find-some, any_of_find-none, any-find-none, find-none_of_count_if, any-find, any_of_find,
  count_if_pos-find, find-count_if_pos, find-update_first_self, find-update_first_ne,
  update_first_back, update_first-none,
}
use balthazar.Ids.{PeerId}
use balthazar.Completeness.{
  WorkerPaymentInfo, Assigned, SubTasksState, TaskCompleteness, incomplete, definetely_failed,
  completed, is_free, is_worker, flatten, get_substate, get_nb_unassigned, unassign, assign,
  new_assigned,
}
use balthazar.Completeness.Slots.{SlotsAre}

-- A slot found for a worker holds that worker.
pub found_worker :
    (w : PeerId) (s : SubTasksState)
    → is_worker w s ≡ true
    → (a : Assigned) × (s ≡ some a) × (a.worker ≡ w)
found_worker w none h = cc
found_worker w (some a) h = (a, refl, ground arith)

found_free : (s : SubTasksState) → is_free s ≡ true → s ≡ none
found_free none h = refl
found_free (some a) h = cc

-- `get_substate` finds nothing exactly where no slot holds the worker.
pub flatten-none :
    (w : PeerId) (ss : List SubTasksState)
    → flatten (find (is_worker w) ss) ≡ none
    → find (is_worker w) ss ≡ none
flatten-none w ss h = elim (Option-cases (find (is_worker w) ss)) [
  | inl e ↦ e
  | inr (s, found) ↦
      let (a, is, same) = found_worker w s (find-some (is_worker w) ss found) in
      absurd (ground arith)
]

free_slot : (ss : List SubTasksState) → any is_free ss ≡ true → find is_free ss ≡ some none
free_slot ss h =
    let (s, found) = any-find is_free ss h in
    found ∙ ap some (found_free s (find-some is_free ss found))

module _ (now : ℕ) (w m : PeerId) (info : WorkerPaymentInfo) where
  abbrev pub Assigns : TaskCompleteness → Type 0
  Assigns c = (assign now w m info c).1 ≡ none

  -- What a successful call has found and done.
  pub assign_inv :
      (c : TaskCompleteness)
      → Assigns c
      → (ss : List SubTasksState) × (c ≡ incomplete ss)
        × (find (is_worker w) ss ≡ none)
        × (find is_free ss ≡ some none)
        × ((assign now w m info c).0
            ≡ incomplete (update_first is_free (λ s. some (new_assigned now w m info)) ss))
  unfolding assign
  assign_inv (incomplete ss) h = elim (Bool-cases (any (is_worker w) ss)) [
    | inl e ↦ absurd (ground arith)
    | inr e ↦ elim (Bool-cases (any is_free ss)) [
      | inl f ↦ (ss, refl, any-find-none (is_worker w) ss e, free_slot ss f, ground arith)
      | inr f ↦ absurd (ground arith)
    ]
  ]
  assign_inv (definetely_failed reason) h = cc
  assign_inv (completed result infos) h = cc

  -- assign succeeds exactly if the task is incomplete with at least one free slot and the worker
  -- has none of its slots.
  pub assign_iff :
      (c : TaskCompleteness)
      → Assigns c ↔ ((k : ℕ) × (get_nb_unassigned c ≡ some (suc k)) × (get_substate w c ≡ none))
  unfolding assign get_nb_unassigned get_substate
  assign_iff (incomplete ss) = (
    λ h.
        let (ss', is, fresh, free, out) = assign_inv (incomplete ss) h in
        let same : ss' ≡ ss = cc in
        let some_free : 0 < count_if is_free ss = find-count_if_pos is_free ss (rw same at free) in
        (count_if is_free ss - 1, ground arith, ap flatten (rw same at fresh)),
    λ (k, nb, fresh).
        let (s, free) = count_if_pos-find is_free ss (ground arith) in
        ground (
          arith,
          any_of_find is_free ss free,
          flatten-none w ss fresh,
          any_of_find-none (is_worker w) ss (flatten-none w ss fresh),
        ),
  )
  assign_iff (definetely_failed reason) = (λ h. cc, λ (k, nb, fresh). cc)
  assign_iff (completed result infos) = (λ h. cc, λ (k, nb, fresh). cc)

  -- After a successful assign the worker has the new slot, with the given time, manager and payment
  -- information, and get_substate answers for every other worker as before.
  pub get_substate-assign :
      (c : TaskCompleteness) (v : PeerId)
      → Assigns c
      → get_substate v (assign now w m info c).0
        ≡ (if w == v then some (new_assigned now w m info) else get_substate v c)
  unfolding get_substate
  get_substate-assign c v h =
      let (ss, is, fresh, free, out) = assign_inv c h in
      let a : SubTasksState = some (new_assigned now w m info) in
      rw (out, is)
        (elim (Bool-cases (w == v)) [
          | inl e ↦
              let p : w ≡ v = ground arith in
              rw (e, ← p)
                (ap flatten (
                  find-update_first_self is_free (is_worker w) (λ _. a) ss fresh free
                    (ground arith)))
          | inr e ↦
              rw e (ap flatten (find-update_first_ne (is_worker v) is_free (λ _. a) ss free refl e))
        ])

  -- A successful assign lowers the number of unassigned replicas by one.
  pub get_nb_unassigned-assign :
      (c : TaskCompleteness)
      → Assigns c
      → (k : ℕ) × (get_nb_unassigned c ≡ some (suc k))
        × (get_nb_unassigned (assign now w m info c).0 ≡ some k)
  unfolding get_nb_unassigned
  get_nb_unassigned-assign c h =
      let (ss, is, fresh, free, out) = assign_inv c h in
      let a : SubTasksState = some (new_assigned now w m info) in
      let counts = count_if-update_first is_free is_free (λ _. a) ss free in
      (count_if is_free ss - 1, rw is (ground arith), rw out (ground arith))

  -- After a successful assign, unassign of the same worker restores the task's slots and returns
  -- what was assigned.
  pub unassign-assign :
      (c : TaskCompleteness)
      → Assigns c
      → unassign w (assign now w m info c).0 ≡ (c, some (new_assigned now w m info))
  unfolding unassign
  unassign-assign c h =
      let (ss, is, fresh, free, out) = assign_inv c h in
      let a : SubTasksState = some (new_assigned now w m info) in
      let self : is_worker w a ≡ true = ground arith in
      rw (out, is)
        (λ i. (
          incomplete (update_first_back is_free (is_worker w) (λ _. a) ss fresh free self i),
          flatten (find-update_first_self is_free (is_worker w) (λ _. a) ss fresh free self i),
        ))

-- On a task where no worker holds two slots, unassign leaves the worker no slot, and get_substate
-- answers for every other worker as before.
pub get_substate-unassign :
    (n : ℕ) (c : TaskCompleteness) (w v : PeerId)
    → SlotsAre n c
    → get_substate v (unassign w c).0 ≡ (if w == v then none else get_substate v c)
unfolding get_substate unassign
get_substate-unassign n (incomplete ss) w v (len, u) = elim (Option-cases (find (is_worker w) ss)) [
  | inl e ↦ rw (update_first-none (is_worker w) (λ s. none) ss e) (elim (Bool-cases (w == v)) [
    | inl same ↦ let p : w ≡ v = ground arith in rw (same, ← p) (ap flatten e)
    | inr other ↦ rw other
  ])
  | inr (s, found) ↦ elim (Bool-cases (w == v)) [
    | inl same ↦
        let p : w ≡ v = ground arith in
        let counts = count_if-update_first (is_worker w) (is_worker w) (λ s. none) ss found in
        rw (same, ← p)
          (ap flatten (
            find-none_of_count_if (is_worker w) (update_first (is_worker w) (λ s. none) ss)
              (ground (arith, u w, find-some (is_worker w) ss found))))
    | inr other ↦
        let (a, is, held) = found_worker w s (find-some (is_worker w) ss found) in
        rw other (
          ap flatten (
            find-update_first_ne (is_worker v) (is_worker w) (λ s. none) ss found
              (rw is (ground arith)) refl))
  ]
]
get_substate-unassign n (definetely_failed reason) w v h = ground arith
get_substate-unassign n (completed result infos) w v h = ground arith
