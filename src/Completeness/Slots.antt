-- ===== src/Completeness/Slots.antt =====
-- Lemmas on the slots of a task, balthamisc/src/shared_state.rs.
use balthazar.Prelude.{
  ℕ, ◌≤◌, ◌≡◌, refl, sym, ap, ◌∙◌, Bool, true, false, none, some, List, find, any, count_if,
  update_first, length, arith, Bool-cases, Option-cases, inl, inr, count_if-update_first,
  length-update_first, find-none-count_if, count_if-replicate_zero, length-replicate,
  update_first-none, ==_iff, any-find-none,
}
use mathlib.Core.Path.{subst}
use balthazar.Ids.{PeerId}
use balthazar.Completeness.{
  WorkerPaymentInfo, Assigned, SubTasksState, TaskCompleteness, incomplete, definetely_failed,
  completed, is_free, is_worker, new_completeness, unassign, assign, new_assigned, touch,
  check_substate,
}

-- Each worker holds one slot at most.
abbrev pub Unique : List SubTasksState → Type 0
Unique ss = (w : PeerId) → count_if (is_worker w) ss ≤ 1

-- The slots of a task are as many as its replicas, and no worker holds two of them.
abbrev pub SlotsAre : ℕ → TaskCompleteness → Type 0
SlotsAre n (incomplete ss) = (length ss ≡ n) × Unique ss
SlotsAre n (definetely_failed reason) = Unit
SlotsAre n (completed result infos) = Unit

pub new_completeness-SlotsAre : (n : ℕ) → SlotsAre n (new_completeness n)
unfolding new_completeness
new_completeness-SlotsAre n = (
  length-replicate n none,
  λ w. rw (count_if-replicate_zero (is_worker w) n none refl) (omega arith),
)

-- A write that puts at most the same workers into the slot found.
Unique-update :
    (p : SubTasksState → Bool) (f : SubTasksState → SubTasksState) (ss : List SubTasksState)
    → ((s : SubTasksState) (v : PeerId) → is_worker v (f s) ≡ true → is_worker v s ≡ true)
    → Unique ss
    → Unique (update_first p f ss)
Unique-update p f ss less u v = elim (Option-cases (find p ss)) [
  | inl e ↦ rw (update_first-none p f ss e) (u v)
  | inr (s, found) ↦ ground (arith, u v, count_if-update_first (is_worker v) p f ss found, less s v)
]

pub unassign-SlotsAre :
    (n : ℕ) (w : PeerId) (c : TaskCompleteness) → SlotsAre n c → SlotsAre n (unassign w c).0
unfolding unassign
unassign-SlotsAre n w (incomplete ss) (len, u) = (
  length-update_first (is_worker w) (λ _. none) ss ∙ len,
  Unique-update (is_worker w) (λ _. none) ss (λ s v h. cc) u,
)
unassign-SlotsAre n w (definetely_failed reason) h = h
unassign-SlotsAre n w (completed result infos) h = h

touch_keeps : (now : ℕ) (s : SubTasksState) (v : PeerId) → is_worker v (touch now s) ≡ is_worker v s
unfolding touch
touch_keeps now none v = refl
touch_keeps now (some a) v = refl

pub check_substate-SlotsAre :
    (n now : ℕ) (w : PeerId) (c : TaskCompleteness) {d : TaskCompleteness}
    → check_substate now w c ≡ some d
    → SlotsAre n c
    → SlotsAre n d
unfolding check_substate
check_substate-SlotsAre n now w (incomplete ss) {d} h (len, u) =
    elim (Bool-cases (any (is_worker w) ss)) [
      | inl e ↦
          let same : incomplete (update_first (is_worker w) (touch now) ss) ≡ d = ground arith in
          subst (SlotsAre n) same (
            length-update_first (is_worker w) (touch now) ss ∙ len,
            Unique-update (is_worker w) (touch now) ss (λ s v t. sym (touch_keeps now s v) ∙ t) u,
          )
      | inr e ↦ cc
    ]
check_substate-SlotsAre n now w (definetely_failed reason) h s = cc
check_substate-SlotsAre n now w (completed result infos) h s = cc

-- The worker that takes a free slot had none.
Unique-assign :
    (a : Assigned) (ss : List SubTasksState)
    → any (is_worker a.worker) ss ≡ false
    → Unique ss
    → Unique (update_first is_free (λ _. some a) ss)
Unique-assign a ss fresh u v = elim (Option-cases (find is_free ss)) [
  | inl e ↦ rw (update_first-none is_free (λ _. some a) ss e) (u v)
  | inr (s, found) ↦ ground (
    arith,
    u v,
    count_if-update_first (is_worker v) is_free (λ _. some a) ss found,
    ==_iff a.worker v,
    find-none-count_if (is_worker a.worker) ss (any-find-none (is_worker a.worker) ss fresh),
    ap (λ t. count_if (is_worker t) ss) {x = a.worker} {y = v},
  )
]

pub assign-SlotsAre :
    (n now : ℕ) (w m : PeerId) (info : WorkerPaymentInfo) (c : TaskCompleteness)
    → SlotsAre n c
    → SlotsAre n (assign now w m info c).0
unfolding assign
assign-SlotsAre n now w m info (incomplete ss) (len, u) = elim (Bool-cases (any (is_worker w) ss)) [
  | inl e ↦ rw e (len, u)
  | inr e ↦ rw e (elim (Bool-cases (any is_free ss)) [
    | inl f ↦ rw f (
      length-update_first is_free (λ _. some (new_assigned now w m info)) ss ∙ len,
      Unique-assign (new_assigned now w m info) ss e u,
    )
    | inr f ↦ rw f (len, u)
  ])
]
assign-SlotsAre n now w m info (definetely_failed reason) h = h
assign-SlotsAre n now w m info (completed result infos) h = h
