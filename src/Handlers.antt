-- ===== src/Handlers.antt =====
-- The handlers of proposals of balthalib/src/node/shared_state.rs, but for failures. A handler
-- decides on the changes. A `SystemTime` is a number of nanoseconds.
use balthazar.Prelude.{
  ℕ, ◌-◌, ◌/◌, ◌==◌, Bool, true, false, not, Option, none, some, List, [], ◌∷◌, Bytes, bytes_eq,
  length, take, any, leb, if◌then◌else◌,
}
use balthazar.Prelude.Assoc.{lookup}
use balthazar.Ids.{Address, address_size}
use balthazar.Ids.HashId.{TaskId, JobId, hash_id_eq, as_bytes}
use balthazar.Job.{Job}
use balthazar.Completeness.{is_worker, get_substates, get_substate, get_nb_unassigned}
use balthazar.Task.{Task, SharedState}
use balthazar.Proposal.{StatusData, StatusMsg, ManTaskStatus, Offer}
use balthazar.Change.{
  Env, ProposalError, task_not_known, task_already_known, chain_get_task, chain_get_job,
  not_incomplete, bad_worker_id, worker_not_assigned, fully_assigned, offer_for_wrong_task,
  bad_payment_address, worker_already_assigned, bad_manager_id, chain_get_parameters,
  clock_went_back, too_early, no_selected_result, result_for_wrong_task, no_result,
  status_for_wrong_task, Outcome, done, err, panic, ◌>>=◌, ◌>>◌, StateChange, create, checked,
  assign, complete,
}

-- `ok_or_else` and `map_err(…)?`
abbrev pub or_err {ℓ} : {A : Type ℓ} → ProposalError → Option A → Outcome A
or_err e none = err e
or_err e (some a) = done a

-- `expect` and `unwrap`
abbrev pub or_panic {ℓ} : {A : Type ℓ} → Option A → Outcome A
or_panic none = panic
or_panic (some a) = done a

-- `if !test { return Err(…) }`
abbrev pub require : Bool → ProposalError → Outcome (Unit {0})
require true e = done tt
require false e = err e

abbrev pub is_some {ℓ} : {A : Type ℓ} → Option A → Bool
is_some none = false
is_some (some a) = true

-- `try_bytes_to_address` of balthamisc/src/job.rs
unfoldable pub try_bytes_to_address : Bytes → Option Address
try_bytes_to_address b = if length b == address_size then some b else none

-- `check_task_is_known`
unfoldable pub check_task_is_known : SharedState → TaskId → Outcome Task
check_task_is_known s id = or_err task_not_known (lookup id s.tasks)

fetch_job : Env → SharedState → JobId → Outcome (Option Job)
fetch_job env s job =
    if is_some (lookup job s.jobs)
    then done none
    else do j ← or_err chain_get_job (env.chain.jobs_get_job job); done (some j)

-- `handle_proposal_new_task`
unfoldable pub handle_new_task : Env → SharedState → TaskId → Outcome (List StateChange)
unfolding fetch_job
handle_new_task env s id = do
  require (not (is_some (lookup id s.tasks))) task_already_known
  found ← or_err chain_get_task (env.chain.jobs_get_task id)
  job ← fetch_job env s found.0
  done (create found.0 found.1 job ∷ [])

-- One round of the loop over the offers.
unfoldable pub check_offer : Env → TaskId → Task → Offer → Outcome StateChange
unfolding try_bytes_to_address
check_offer env id t o = do
  require (bytes_eq o.task_id (as_bytes id)) offer_for_wrong_task
  address ← or_err bad_payment_address (try_bytes_to_address o.payment_address)
  w ← or_err bad_worker_id (env.formats.peer_from_bytes o.worker)
  require (not (is_some (get_substate w t.completeness))) worker_already_assigned
  m ← or_err bad_manager_id (env.formats.peer_from_bytes o.workers_manager)
  done (
      assign w m (record {
        worker_address = address;
        worker_price = o.worker_price;
        network_price = o.network_price;
      }))

unfoldable pub check_offers : Env → TaskId → Task → List Offer → Outcome (List StateChange)
unfolding check_offer
check_offers env id t [] = done []
check_offers env id t (o ∷ os) = do
  c ← check_offer env id t o
  cs ← check_offers env id t os
  done (c ∷ cs)

-- `handle_proposal_scheduling`
unfoldable pub handle_scheduling :
    Env → SharedState → TaskId → List Offer → Outcome (List StateChange)
unfolding check_task_is_known check_offers
handle_scheduling env s id offers = do
  t ← check_task_is_known s id
  nb ← or_err not_incomplete (get_nb_unassigned t.completeness)
  require (not (nb == 0)) fully_assigned
  check_offers env id t (take nb offers)

-- `Duration::as_secs`
abbrev pub nanos : ℕ
nanos = 1000000000

-- `handle_proposal_checked`
unfoldable pub handle_checked : Env → SharedState → TaskId → Bytes → Outcome (List StateChange)
unfolding check_task_is_known
handle_checked env s id bytes = do
  t ← check_task_is_known s id
  w ← or_err bad_worker_id (env.formats.peer_from_bytes bytes)
  a ← or_err worker_not_assigned (get_substate w t.completeness)
  interval ← or_err chain_get_parameters (env.chain.min_check_interval t.job_id)
  require (leb a.last_check_timestamp env.now) clock_went_back
  require (leb interval ((env.now - a.last_check_timestamp) / nanos)) too_early
  done (checked w ∷ [])

-- `selected_result` with its status, taken apart
selected : Option ManTaskStatus → Outcome (Bytes × Bytes × StatusMsg)
selected none = err no_selected_result
selected (some m) = do st ← or_err no_selected_result m.status; done (m.task_id, m.worker, st)

result_of : Option StatusData → Outcome Bytes
result_of (some (StatusData.result r)) = done r
result_of (some StatusData.pending) = err no_result
result_of (some (StatusData.start_time t)) = err no_result
result_of (some (StatusData.error e)) = err no_result
result_of (some StatusData.unknown_status) = err no_result
result_of none = err no_result

-- `handle_proposal_completed`
unfoldable pub handle_completed :
    Env → SharedState → TaskId → Option ManTaskStatus → Outcome (List StateChange)
unfolding check_task_is_known selected result_of
handle_completed env s id p = do
  t ← check_task_is_known s id
  ss ← or_err not_incomplete (get_substates t.completeness)
  (id2, bytes, st) ← selected p
  w ← or_err bad_worker_id (env.formats.peer_from_bytes bytes)
  require (bytes_eq id2 (as_bytes id)) result_for_wrong_task
  require (any (is_worker w) ss) worker_not_assigned
  r ← result_of st.status_data
  require (bytes_eq st.task_id (as_bytes id)) status_for_wrong_task
  done (complete r ∷ [])
