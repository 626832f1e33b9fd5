-- ===== src/Failure.antt =====
-- `handle_proposal_failure` of balthalib/src/node/shared_state.rs. `u64` addition wraps, as in a
-- release build.
use balthazar.Prelude.{
  ℕ, ◌+◌, ◌==◌, Bool, Option, none, some, List, [], ◌∷◌, ◌++◌, Bytes, bytes_eq, ltb, leb, wrap64,
  if◌then◌else◌,
}
use balthazar.Prelude.Assoc.{lookup}
use balthazar.Ids.HashId.{TaskId, hash_id_eq, as_bytes}
use balthazar.Completeness.{
  SubTasksState, TaskDefiniteErrorKind, incorrect_specification, incorrect_result, get_substates,
  get_substate,
}
use balthazar.Task.{Task, SharedState}
use balthazar.Proposal.{
  TaskErrorKind, timed_out, download, runtime, aborted, unknown, error_kind_from_i32,
  try_worker_error_to_definite_error, StatusData, StatusMsg, ManTaskStatus, PingManagerForTask,
  FailureKind, ProposeFailure,
}
use balthazar.Change.{
  Env, unknown_error_kind, incorrect_error_kind, bad_original_message, ping_for_wrong_task,
  missing_ping, missing_kind, bad_nb_failures, not_incomplete, bad_worker_id, worker_not_assigned,
  Outcome, done, err, ◌>>=◌, ◌>>◌, StateChange, unassign, set_nb_failures, definetely_failed,
}
use balthazar.Handlers.{or_err, or_panic, require, is_some, check_task_is_known}

-- The triple that `handle_proposal_failure` draws from the kind of failure.
pub record Verdict : Type 0 where
  pub reason : Option TaskDefiniteErrorKind
  pub correct : Bool
  pub to_unassign : Option Bytes

-- whether the new number of failures fits a worker's error
count_fits : ℕ → ℕ → TaskErrorKind → Outcome Bool
count_fits nb new aborted = done (new == nb)
count_fits nb new timed_out = done (new == wrap64 (nb + 1))
count_fits nb new download = done (new == wrap64 (nb + 1))
count_fits nb new runtime = done (new == wrap64 (nb + 1))
count_fits nb new unknown = err incorrect_error_kind

judge_status : ℕ → ℕ → Bytes → Option StatusData → Outcome Verdict
judge_status nb new worker (some (StatusData.error code)) = do
  kind ← or_err unknown_error_kind (error_kind_from_i32 code)
  fits ← count_fits nb new kind
  let reason = try_worker_error_to_definite_error kind
  done (record { reason = reason; correct = fits; to_unassign = some worker })
judge_status nb new worker (some StatusData.pending) = err bad_original_message
judge_status nb new worker (some (StatusData.start_time t)) = err bad_original_message
judge_status nb new worker (some (StatusData.result r)) = err bad_original_message
judge_status nb new worker (some StatusData.unknown_status) = err bad_original_message
judge_status nb new worker none = err bad_original_message

judge_message : ℕ → ℕ → Bytes → Option StatusMsg → Outcome Verdict
judge_message nb new worker none = err bad_original_message
judge_message nb new worker (some st) = judge_status nb new worker st.status_data

judge_ping : TaskId → ℕ → ℕ → Option PingManagerForTask → Outcome Verdict
judge_ping id nb new none = err missing_ping
judge_ping id nb new (some p) = do
  require (bytes_eq p.task_id (as_bytes id)) ping_for_wrong_task
  done (record { reason = none; correct = new == nb; to_unassign = some p.worker })

judge_worker : ℕ → ℕ → Option ManTaskStatus → Outcome Verdict
judge_worker nb new none = err bad_original_message
judge_worker nb new (some m) = judge_message nb new m.worker m.status

-- The `match proposal.kind`, over the task's failures, the allowed ones and the proposed ones.
unfoldable pub judge : TaskId → ℕ → ℕ → ℕ → Option FailureKind → Outcome Verdict
unfolding count_fits judge_status judge_message judge_ping judge_worker
judge id nb most new none = err missing_kind
judge id nb most new (some (FailureKind.worker m)) = judge_worker nb new m
judge id nb most new (some (FailureKind.man_unavailable p)) = judge_ping id nb new p
judge id nb most new (some FailureKind.results) = done (record {
  reason = some incorrect_result;
  correct = new == wrap64 (nb + 1);
  to_unassign = none;
})
judge id nb most new (some FailureKind.specs) =
    done
      (record { reason = some incorrect_specification; correct = ltb most new; to_unassign = none })

-- `Unassign` for each slot that is assigned
unfoldable pub unassign_all : List SubTasksState → List StateChange
unassign_all [] = []
unassign_all (none ∷ ss) = unassign_all ss
unassign_all (some a ∷ ss) = unassign a.worker ∷ unassign_all ss

unassign_one : Env → Task → Bytes → Outcome (List StateChange)
unassign_one env t bytes = do
  w ← or_err bad_worker_id (env.formats.peer_from_bytes bytes)
  require (is_some (get_substate w t.completeness)) worker_not_assigned
  done (unassign w ∷ [])

unassign_every : Task → Outcome (List StateChange)
unfolding unassign_all
unassign_every t = do
  ss ← or_err not_incomplete (get_substates t.completeness)
  done (unassign_all ss)

-- Which workers stop.
unfoldable pub workers_to_unassign : Env → Task → ℕ → Option Bytes → Outcome (List StateChange)
unfolding unassign_one unassign_every
workers_to_unassign env t most none = unassign_every t
workers_to_unassign env t most (some bytes) =
    if leb most t.nb_failures then unassign_every t else unassign_one env t bytes

-- The definite failure, after more failures than allowed.
unfoldable pub definite_failure : ℕ → ℕ → Option TaskDefiniteErrorKind → Outcome (List StateChange)
definite_failure most new reason =
    if ltb most new then (do r ← or_panic reason; done (definetely_failed r ∷ [])) else done []

-- `handle_proposal_failure`
unfoldable pub handle_failure :
    Env → SharedState → TaskId → ProposeFailure → Outcome (List StateChange)
unfolding check_task_is_known definite_failure
handle_failure env s id p = do
  t ← check_task_is_known s id
  j ← or_panic (lookup t.job_id s.jobs)
  verdict ← judge id t.nb_failures j.max_failures p.new_nb_failures p.kind
  require verdict.correct bad_nb_failures
  stops ← workers_to_unassign env t j.max_failures verdict.to_unassign
  fails ← definite_failure j.max_failures p.new_nb_failures verdict.reason
  done (set_nb_failures p.new_nb_failures ∷ stops ++ fails)
