-- ===== src/Change.antt =====
-- `StateChange` and `apply_state_change` of balthalib/src/node/shared_state.rs. What the code sends
-- on its event channel and the calls that it makes of the Jobs smart-contract are a list of effects.
pub mod Validity
use balthazar.Prelude.{
  ℕ, zero, suc, Bool, true, false, Option, none, some, List, [], ◌∷◌, ◌++◌, Bytes, replicate,
  if◌then◌else◌,
}
use balthazar.Prelude.Assoc.{lookup, insert, or_insert}
use balthazar.Ids.{PeerId, Address, Formats}
use balthazar.Ids.HashId.{TaskId, JobId, hash_id_eq}
use balthazar.Job.{Job}
use balthazar.Completeness.{
  WorkerPaymentInfo, Assigned, TaskCompleteness, TaskDefiniteErrorKind, AssignError, is_incomplete,
  unassign as take_slot, assign as fill_slot, check_substate, payment_infos, get_substates,
}
use balthazar.Task.{Task, SharedState, new_task, set_completed, set_definitely_failed}

-- The Jobs smart-contract, which balthachain reaches over web3: what it answers, and which calls
-- succeed.
pub record Chain : Type 0 where
  pub jobs_get_task : TaskId → Option (JobId × ℕ)
  pub jobs_get_job : JobId → Option Job
  pub min_check_interval : JobId → Option ℕ
  pub set_managers_succeeds : TaskId → List Address → Bool
  pub set_completed_succeeds : TaskId → Bytes → List WorkerPaymentInfo → Bool
  pub set_failed_succeeds : TaskId → TaskDefiniteErrorKind → Bool

-- What a node takes from outside while it handles one proposal.
pub record Env : Type 0 where
  pub formats : Formats
  pub chain : Chain
  pub now : ℕ

-- `shared_state::Event`
pub data Event : Type 0 where
  pending : Event
  assigned : PeerId → Event
  unassigned : PeerId → PeerId → Event

pub data Effect : Type 0 where
  notify : TaskId → Event → Effect
  set_managers : TaskId → List Address → Effect
  set_task_completed : TaskId → Bytes → List WorkerPaymentInfo → Effect
  set_task_failed : TaskId → TaskDefiniteErrorKind → Effect

-- The `String` errors, one constructor to a message.
pub data ProposalError : Type 0 where
  task_not_known task_already_known chain_get_task chain_get_job : ProposalError
  unknown_error_kind incorrect_error_kind bad_original_message : ProposalError
  ping_for_wrong_task missing_ping missing_kind bad_nb_failures : ProposalError
  not_incomplete bad_worker_id worker_not_assigned : ProposalError
  fully_assigned offer_for_wrong_task bad_payment_address worker_already_assigned : ProposalError
  bad_manager_id chain_get_parameters clock_went_back too_early : ProposalError
  no_selected_result result_for_wrong_task no_result status_for_wrong_task : ProposalError
  already_complete chain_set_managers chain_set_completed chain_set_failed : ProposalError
  assign_failed : AssignError → ProposalError

pub data Outcome {ℓ} (A : Type ℓ) : Type ℓ where
  done : A → Outcome A
  err : ProposalError → Outcome A
  panic : Outcome A

infixl 5 ◌>>=◌ ◌>>◌
abbrev pub ◌>>=◌ {ℓ κ} : {A : Type ℓ} {B : Type κ} → Outcome A → (A → Outcome B) → Outcome B
done a >>= f = f a
err e >>= f = err e
panic >>= f = panic

abbrev pub ◌>>◌ {ℓ} : {B : Type ℓ} → Outcome (Unit {0}) → Outcome B → Outcome B
m >> k = m >>= λ _. k

pub data StateChange : Type 0 where
  create : JobId → ℕ → Option Job → StateChange
  checked : PeerId → StateChange
  unassign : PeerId → StateChange
  assign : PeerId → PeerId → WorkerPaymentInfo → StateChange
  add_manager : StateChange
  set_nb_failures : ℕ → StateChange
  complete : Bytes → StateChange
  definetely_failed : TaskDefiniteErrorKind → StateChange

-- `to_cmp_int`, the whole of `Ord`
unfoldable pub to_cmp_int : StateChange → ℕ
to_cmp_int (create job arg j) = 0
to_cmp_int (checked w) = 1
to_cmp_int (unassign w) = 2
to_cmp_int (assign w m info) = 3
to_cmp_int add_manager = 4
to_cmp_int (set_nb_failures n) = 5
to_cmp_int (complete result) = 6
to_cmp_int (definetely_failed reason) = 7

abbrev pub Applied : Type 0 → Type 0
Applied S = S × List Effect × Outcome (Unit {0})

after_check : Task → Option TaskCompleteness → Applied Task
after_check t none = (t, [], err worker_not_assigned)
after_check t (some c) = (record t { completeness = c }, [], done tt)

after_unassign : TaskId → Task → TaskCompleteness × Option Assigned → Applied Task
after_unassign id t (c, none) = (record t { completeness = c }, [], err worker_not_assigned)
after_unassign id t (c, some a) = (
  record t { completeness = c },
  notify id (unassigned a.worker a.workers_manager) ∷ notify id pending ∷ [],
  done tt,
)

unfoldable pub after_assign :
    TaskId → PeerId → Task → TaskCompleteness × Option AssignError → Applied Task
after_assign id w t (c, none) =
    (record t { completeness = c }, notify id (assigned w) ∷ [], done tt)
after_assign id w t (c, some e) = (record t { completeness = c }, [], err (assign_failed e))

-- The payment information stored with a completed task.
infos_of : TaskCompleteness → List WorkerPaymentInfo
infos_of (TaskCompleteness.incomplete substates) = []
infos_of (TaskCompleteness.definetely_failed reason) = []
infos_of (TaskCompleteness.completed result infos) = infos

after_complete : Env → TaskId → Bytes → Task → Option Task → Applied Task
unfolding infos_of
after_complete env id result t none = (t, [], panic)
after_complete env id result t (some t') =
    let managers = set_managers id t'.managers_addresses in
    let infos = infos_of t'.completeness in
    if env.chain.set_managers_succeeds id t'.managers_addresses
    then (
      t',
      managers ∷ set_task_completed id result infos ∷ [],
      if env.chain.set_completed_succeeds id result infos then done tt else err chain_set_completed,
    )
    else (t', managers ∷ [], err chain_set_managers)

after_failed : Env → TaskId → TaskDefiniteErrorKind → Task → Option Task → Applied Task
after_failed env id reason t none = (t, [], panic)
after_failed env id reason t (some t') =
    let managers = set_managers id t'.managers_addresses in
    if env.chain.set_managers_succeeds id t'.managers_addresses
    then (
      t',
      managers ∷ set_task_failed id reason ∷ [],
      if env.chain.set_failed_succeeds id reason then done tt else err chain_set_failed,
    )
    else (t', managers ∷ [], err chain_set_managers)

-- The `match action` on a task that is incomplete.
unfoldable pub change_task : Env → TaskId → Address → Task → StateChange → Applied Task
unfolding after_check after_unassign after_assign after_complete after_failed
change_task env id address t (create job arg j) = (t, [], done tt)
change_task env id address t (checked w) = after_check t (check_substate env.now w t.completeness)
change_task env id address t add_manager =
    (record t { managers_addresses = t.managers_addresses ++ address ∷ [] }, [], done tt)
change_task env id address t (unassign w) = after_unassign id t (take_slot w t.completeness)
change_task env id address t (assign w m info) =
    after_assign id w t (fill_slot env.now w m info t.completeness)
change_task env id address t (set_nb_failures n) = (record t { nb_failures = n }, [], done tt)
change_task env id address t (complete result) =
    after_complete env id result t (set_completed result t)
change_task env id address t (definetely_failed reason) =
    after_failed env id reason t (set_definitely_failed reason t)

unfoldable pub create_with : TaskId → JobId → ℕ → SharedState → Option Job → Applied SharedState
create_with id job arg s none = (s, [], panic)
create_with id job arg s (some j) = (
  record s { tasks = insert id (new_task id job arg j.redundancy) s.tasks },
  replicate j.redundancy (notify id pending),
  done tt,
)

-- `shared_state.jobs.entry(job_id).or_insert(job)`, where a job is provided
unfoldable pub provide : JobId → Option Job → SharedState → SharedState
provide job none s = s
provide job (some j) s = record s { jobs = or_insert job j s.jobs }

unfoldable pub update_task : TaskId → SharedState → Applied Task → Applied SharedState
update_task id s (t, effects, r) = (record s { tasks = insert id t s.tasks }, effects, r)

unfoldable pub on_task :
    Env → TaskId → Address → StateChange → SharedState → Option Task → Applied SharedState
unfolding update_task
on_task env id address c s none = (s, [], panic)
on_task env id address c s (some t) =
    if is_incomplete t.completeness
    then update_task id s (change_task env id address t c)
    else (s, [], err already_complete)

-- `apply_state_change`
unfoldable pub apply_state_change :
    Env → TaskId → Address → SharedState → StateChange → Applied SharedState
unfolding create_with provide on_task
apply_state_change env id address s (create job arg j) =
    let s' = provide job j s in create_with id job arg s' (lookup job s'.jobs)
apply_state_change env id address s c = on_task env id address c s (lookup id s.tasks)
