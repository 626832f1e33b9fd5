-- ===== src/Task.antt =====
-- `Task` and `SharedState` of balthamisc/src/shared_state.rs.
pub mod Unassigned
use balthazar.Prelude.{
  ℕ, ◌==◌, Bool, true, false, not, Option, none, some, List, [], ◌∷◌, ◌++◌, Bytes, ltb,
  if◌then◌else◌,
}
use balthazar.Prelude.Assoc.{Assoc, lookup}
use balthazar.Ids.{PeerId, Address}
use balthazar.Ids.HashId.{TaskId, JobId, hash_id_eq}
use balthazar.Job.{Job}
use balthazar.Completeness.{
  WorkerPaymentInfo, Assigned, TaskCompleteness, TaskDefiniteErrorKind, AssignError, incomplete,
  definetely_failed, completed, new_completeness, is_incomplete, get_nb_unassigned, unassign,
  assign, payment_infos,
}

pub record Task : Type 0 where
  pub task_id : TaskId
  pub nb_failures : ℕ
  pub managers_addresses : List Address
  pub completeness : TaskCompleteness
  pub job_id : JobId
  pub arg_id : ℕ

-- `Task::new`
unfoldable pub new_task : TaskId → JobId → ℕ → ℕ → Task
unfolding new_completeness
new_task id job arg redundancy = record {
  task_id = id;
  nb_failures = 0;
  managers_addresses = [];
  completeness = new_completeness redundancy;
  job_id = job;
  arg_id = arg;
}

-- `set_definitely_failed`; `none` is the panic on a task that is no more incomplete
unfoldable pub set_definitely_failed : TaskDefiniteErrorKind → Task → Option Task
unfolding is_incomplete
set_definitely_failed reason t =
    if is_incomplete t.completeness
    then some (record t { completeness = definetely_failed reason })
    else none

complete : Bytes → TaskCompleteness → Option TaskCompleteness
complete result (incomplete substates) = some (completed result (payment_infos substates))
complete result (definetely_failed reason) = none
complete result (completed old infos) = none

with_completeness : Task → Option TaskCompleteness → Option Task
with_completeness t none = none
with_completeness t (some c) = some (record t { completeness = c })

-- `set_completed`; `none` is the panic on a task that is no more incomplete
unfoldable pub set_completed : Bytes → Task → Option Task
unfolding complete with_completeness
set_completed result t = with_completeness t (complete result t.completeness)

pub record SharedState : Type 0 where
  pub tasks : Assoc TaskId Task
  pub jobs : Assoc JobId Job

-- `SharedState::default()`
abbrev pub empty_state : SharedState
empty_state = record { tasks = []; jobs = [] }

positive : TaskId → Option ℕ → List (TaskId × ℕ) → List (TaskId × ℕ)
positive id none rest = rest
positive id (some nb) rest = if ltb 0 nb then (id, nb) ∷ rest else rest

unassigned_of : Assoc TaskId Task → List (TaskId × ℕ)
unfolding positive
unassigned_of [] = []
unassigned_of ((k, t) ∷ m) = positive t.task_id (get_nb_unassigned t.completeness) (unassigned_of m)

-- `get_nb_unassigned_per_task`
unfoldable pub get_nb_unassigned_per_task : SharedState → List (TaskId × ℕ)
unfolding unassigned_of
get_nb_unassigned_per_task s = unassigned_of s.tasks

job_of : Assoc JobId Job → Option Task → Option Job
job_of jobs none = none
job_of jobs (some t) = lookup t.job_id jobs

-- `get_job_from_task_id`
unfoldable pub get_job_from_task_id : TaskId → SharedState → Option Job
unfolding job_of
get_job_from_task_id id s = job_of s.jobs (lookup id s.tasks)
