-- ===== src/Consensus.antt =====
-- `check_and_apply_proposal` of balthalib/src/node/shared_state.rs: a proposal is checked, and its
-- changes are sorted and applied. Log lines are left out.
pub mod Validity
pub mod Refusal
pub mod Run
pub mod Accepted
pub mod Grants
pub mod Granted
pub mod Twice
pub mod Updates
pub mod Others
pub mod Final
use balthazar.Prelude.{
  ℕ, ◌+◌, ◌-◌, ◌/◌, ◌==◌, Bool, true, false, not, ◌||◌, Option, none, some, List, [], ◌∷◌, ◌++◌,
  Bytes, bytes_eq, length, take, any, ltb, leb, wrap64, if◌then◌else◌, sort_by_key,
}
use balthazar.Prelude.Assoc.{lookup}
use balthazar.Ids.{PeerId, Address, Formats, address_size}
use balthazar.Ids.HashId.{TaskId, JobId, IdResult, ok, hash_id_eq, as_bytes, from_bytes}
use balthazar.Job.{Job}
use balthazar.Completeness.{
  WorkerPaymentInfo, Assigned, SubTasksState, TaskCompleteness, TaskDefiniteErrorKind,
  incorrect_specification, incorrect_result, is_worker, is_incomplete, get_substates, get_substate,
  get_nb_unassigned,
}
use balthazar.Task.{Task, SharedState}
use balthazar.Proposal.{
  TaskErrorKind, timed_out, download, runtime, aborted, unknown, error_kind_from_i32,
  try_worker_error_to_definite_error, StatusData, StatusMsg, ManTaskStatus, PingManagerForTask,
  FailureKind, ProposeFailure, Offer, ProposalKind, Proposal,
}
use balthazar.Change.{
  Env, Effect, ProposalError, task_not_known, task_already_known, chain_get_task, chain_get_job,
  unknown_error_kind, incorrect_error_kind, bad_original_message, ping_for_wrong_task, missing_ping,
  missing_kind, bad_nb_failures, not_incomplete, bad_worker_id, worker_not_assigned, fully_assigned,
  offer_for_wrong_task, bad_payment_address, worker_already_assigned, bad_manager_id,
  chain_get_parameters, clock_went_back, too_early, no_selected_result, result_for_wrong_task,
  no_result, status_for_wrong_task, Outcome, done, err, panic, ◌>>=◌, ◌>>◌, StateChange, create,
  checked, unassign, assign, add_manager, set_nb_failures, complete, definetely_failed, to_cmp_int,
  Applied, apply_state_change,
}
use balthazar.Handlers.{
  or_err, handle_new_task, handle_scheduling, handle_checked, handle_completed,
  try_bytes_to_address,
}
use balthazar.Failure.{handle_failure}

-- The `match proposal.proposal` on a proposal that is not empty.
unfoldable pub handle : Env → SharedState → TaskId → ProposalKind → Outcome (List StateChange)
handle env s id ProposalKind.new_task = handle_new_task env s id
handle env s id (ProposalKind.failure p) = handle_failure env s id p
handle env s id (ProposalKind.scheduling offers) = handle_scheduling env s id offers
handle env s id (ProposalKind.checked w) = handle_checked env s id w
handle env s id (ProposalKind.completed p) = handle_completed env s id p

-- `log_res`: an accepted proposal adds its manager, a refused one changes nothing
unfoldable pub log_res : Outcome (List StateChange) → Outcome (List StateChange)
log_res (done actions) = done (actions ++ add_manager ∷ [])
log_res (err e) = done []
log_res panic = panic

-- The answer of `apply_state_change(…).unwrap()`, before the rest of the loop.
abbrev pub unwrap_then : {S : Type 0} → Applied S → (S → Applied S) → Applied S
unwrap_then (s, effects, done u) rest = let (s', more, r) = rest s in (s', effects ++ more, r)
unwrap_then (s, effects, err e) rest = (s, effects, panic)
unwrap_then (s, effects, panic) rest = (s, effects, panic)

-- The loop over the sorted changes.
unfoldable pub apply_all :
    Env → TaskId → Address → SharedState → List StateChange → Applied SharedState
apply_all env id address s [] = (s, [], done tt)
apply_all env id address s (c ∷ cs) =
    unwrap_then (apply_state_change env id address s c) (λ s'. apply_all env id address s' cs)

decide_and_apply :
    Env → TaskId → Address → SharedState → Outcome (List StateChange) → Applied SharedState
unfolding apply_all
decide_and_apply env id address s (done actions) =
    apply_all env id address s (sort_by_key to_cmp_int actions)
decide_and_apply env id address s (err e) = (s, [], panic)
decide_and_apply env id address s panic = (s, [], panic)

-- A proposal with a readable address and task id.
unfoldable pub apply_proposal :
    Env → SharedState → TaskId → Address → ProposalKind → Applied SharedState
unfolding handle log_res decide_and_apply
apply_proposal env s id address kind =
    decide_and_apply env id address s (log_res (handle env s id kind))

on_kind : Env → SharedState → TaskId → Address → Option ProposalKind → Applied SharedState
on_kind env s id address none = (s, [], done tt)
on_kind env s id address (some kind) = apply_proposal env s id address kind

on_task_id : Env → SharedState → Address → Option ProposalKind → IdResult → Applied SharedState
unfolding on_kind
on_task_id env s address kind (ok id) = on_kind env s id address kind
on_task_id env s address kind (IdResult.err e) = (s, [], done tt)

on_address : Env → SharedState → Proposal → Option Address → Applied SharedState
unfolding on_task_id
on_address env s p none = (s, [], done tt)
on_address env s p (some address) =
    on_task_id env s address p.proposal (from_bytes env.formats p.task_id)

-- `check_and_apply_proposal`
unfoldable pub check_and_apply_proposal : Env → SharedState → Proposal → Applied SharedState
unfolding on_address try_bytes_to_address
check_and_apply_proposal env s p = on_address env s p (try_bytes_to_address p.payment_address)

-- A node that has taken a sequence of proposals, each in its own surroundings.
unfoldable pub run_proposals : SharedState → List (Env × Proposal) → SharedState
run_proposals s [] = s
run_proposals s ((env, p) ∷ ps) = run_proposals (check_and_apply_proposal env s p).0 ps
