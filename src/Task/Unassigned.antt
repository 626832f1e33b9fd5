-- ===== src/Task/Unassigned.antt =====
-- `get_nb_unassigned_per_task` of balthamisc/src/shared_state.rs.
use balthazar.Prelude.{
  ℕ, ◌<◌, Option, none, some, List, [], ◌∷◌, All, ltb, arith, Bool-cases, inl, inr,
}
use balthazar.Prelude.Assoc.{Assoc}
use balthazar.Ids.HashId.{TaskId}
use balthazar.Completeness.{get_nb_unassigned}
use balthazar.Task.{Task, SharedState, positive, unassigned_of, get_nb_unassigned_per_task}

abbrev pub ArePositive : List (TaskId × ℕ) → Type 0
ArePositive = All (λ x. 0 < x.1)

positive-ArePositive :
    (id : TaskId) (o : Option ℕ) (rest : List (TaskId × ℕ))
    → ArePositive rest
    → ArePositive (positive id o rest)
unfolding positive
positive-ArePositive id none rest h = h
positive-ArePositive id (some nb) rest h = elim (Bool-cases (ltb 0 nb)) [
  | inl e ↦ rw e (ground arith, h)
  | inr e ↦ rw e h
]

unassigned_of-ArePositive : (m : Assoc TaskId Task) → ArePositive (unassigned_of m)
unfolding unassigned_of
unassigned_of-ArePositive [] = tt
unassigned_of-ArePositive ((k, t) ∷ m) =
    positive-ArePositive t.task_id (get_nb_unassigned t.completeness) (unassigned_of m)
      (unassigned_of-ArePositive m)

-- Each task listed has a replica without a worker.
pub get_nb_unassigned_per_task-ArePositive :
    (s : SharedState) → ArePositive (get_nb_unassigned_per_task s)
unfolding get_nb_unassigned_per_task
get_nb_unassigned_per_task-ArePositive s = unassigned_of-ArePositive s.tasks
