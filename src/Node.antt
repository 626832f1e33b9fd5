-- ===== src/Node.antt =====
-- balthalib/src/node/mod.rs: how a manager follows its workers and the shared state. What a node
-- sends to its event channel and to its swarm is a list of outputs; log lines are left out. `none`
-- is a panic of the code.
pub mod Refused
pub mod Aborted
use Prim.Native.String.{String}
use balthazar.Prelude.{
  ℕ, zero, suc, ◌+◌, Bool, true, false, not, Option, none, some, List, [], ◌∷◌, ◌++◌, Bytes, map,
  take, wrap64,
}
use balthazar.Prelude.Assoc.{lookup}
use balthazar.Ids.{PeerId, Address, Formats}
use balthazar.Ids.HashId.{TaskId, hash_id_eq, to_bytes}
use balthazar.Message.{TaskExecute}
use balthazar.Job.{Job, ProgramKind}
use balthazar.Task.{Task, SharedState, get_nb_unassigned_per_task, get_job_from_task_id}
use balthazar.TaskStatus.{TaskStatus, into_data}
use balthazar.Proposal.{
  TaskErrorKind, timed_out, download, runtime, aborted, unknown, error_kind_into_i32, StatusData,
  StatusMsg, ManTaskStatus, FailureKind, ProposeFailure, Offer, ProposalKind, Proposal,
}
use balthazar.Change.{Event}
use balthazar.Workers.{
  Workers, WorkerAssignment, assigned, available, pending, remove, assign_worker_slot,
  unassign_worker_slot, reserve_worker_slot, unreserve_all_workers, get_unassigned_workers,
  get_unassigned_workers_sorted,
}

-- A node's own data: its peer id, and the Ethereum address of its configuration, if it has one.
pub record NodeConfig : Type 0 where
  pub formats : Formats
  pub peer_id : PeerId
  pub ethereum_address : Option Address

-- The same with an address.
pub record Config : Type 0 where
  pub formats : Formats
  pub peer_id : PeerId
  pub ethereum_address : Address

abbrev pub at_address : NodeConfig → Address → Config
at_address n a = record { formats = n.formats; peer_id = n.peer_id; ethereum_address = a }

-- `ethereum_address()`, whose error is `none`, and what follows it.
abbrev pub with_address {ℓ} :
    {B : Type ℓ} → NodeConfig → Option Address → (Config → Option B) → Option B
with_address n none act = none
with_address n (some a) act = act (at_address n a)

pub data Output : Type 0 where
  propose : Proposal → Output
  execute : PeerId → TaskExecute → Output

-- the message of every proposal
abbrev pub proposal_of : Config → TaskId → ProposalKind → Proposal
proposal_of c id kind = record {
  task_id = to_bytes c.formats id;
  payment_address = c.ethereum_address;
  proposal = some kind;
}

-- `ManTaskStatus` as `handle_task_status` and `send_abord_proposal` fill it
abbrev pub status_of : Config → PeerId → TaskId → StatusData → ManTaskStatus
status_of c peer id status = record {
  task_id = to_bytes c.formats id;
  worker = c.formats.peer_to_bytes peer;
  status = some (record { task_id = to_bytes c.formats id; status_data = some status });
}

abbrev pub failure_of : Config → PeerId → TaskId → ℕ → TaskErrorKind → ProposalKind
failure_of c peer id new kind = ProposalKind.failure (record {
  new_nb_failures = new;
  kind = some (
      FailureKind.worker
        (some (status_of c peer id (StatusData.error (error_kind_into_i32 kind)))));
})

abord_of : Config → PeerId → TaskId → Option Task → Option Output
abord_of c peer id none = none
abord_of c peer id (some t) =
    some (propose (proposal_of c id (failure_of c peer id t.nb_failures aborted)))

-- `send_abord_proposal`
unfoldable pub send_abord_proposal : NodeConfig → SharedState → PeerId → TaskId → Option Output
unfolding abord_of
send_abord_proposal n s peer id =
    with_address n n.ethereum_address (λ c. abord_of c peer id (lookup id s.tasks))

cons_option : Option Output → Option (List Output) → Option (List Output)
cons_option none rest = none
cons_option (some o) none = none
cons_option (some o) (some os) = some (o ∷ os)

abord_all : NodeConfig → SharedState → PeerId → List WorkerAssignment → Option (List Output)
unfolding send_abord_proposal cons_option
abord_all c s peer [] = some []
abord_all c s peer (available ∷ as') = abord_all c s peer as'
abord_all c s peer (pending ∷ as') = abord_all c s peer as'
abord_all c s peer (assigned id ∷ as') =
    cons_option (send_abord_proposal c s peer id) (abord_all c s peer as')

after_remove :
    NodeConfig
    → SharedState
    → PeerId
    → Workers × Option (List WorkerAssignment)
    → Option (Workers × List Output)
unfolding abord_all
after_remove c s peer (ws, none) = none
after_remove c s peer (ws, some as') = elim (abord_all c s peer as') [
  | none ↦ none
  | some os ↦ some (ws, os)
]

-- `delete_worker`
unfoldable pub delete_worker :
    NodeConfig → SharedState → Workers → PeerId → Option (Workers × List Output)
unfolding after_remove
delete_worker c s ws peer = after_remove c s peer (remove peer ws)

-- the failures that a worker's error adds
unfoldable pub nb_failures_diff : TaskErrorKind → ℕ
nb_failures_diff timed_out = 1
nb_failures_diff download = 1
nb_failures_diff runtime = 1
nb_failures_diff aborted = 0
nb_failures_diff unknown = 0

unfoldable pub completed_proposal : Config → PeerId → TaskId → TaskStatus → Proposal
unfolding into_data
completed_proposal c peer id status =
    proposal_of c id (ProposalKind.completed (some (status_of c peer id (into_data status))))

error_proposal : Config → PeerId → TaskId → TaskErrorKind → Option Task → Option Proposal
unfolding nb_failures_diff
error_proposal c peer id kind none = none
error_proposal c peer id kind (some t) =
    some (
      proposal_of c id (failure_of c peer id (wrap64 (t.nb_failures + nb_failures_diff kind)) kind))

proposed : Workers → Option Proposal → Option (Workers × List Output)
proposed ws none = none
proposed ws (some p) = some (ws, propose p ∷ [])

-- A final status, once its slot is given back.
after_status : Workers × Bool → Option Proposal → Option (Workers × List Output)
unfolding proposed
after_status (ws, false) p = none
after_status (ws, true) p = proposed ws p

-- `handle_task_status`
unfoldable pub handle_task_status :
    NodeConfig
    → SharedState
    → Workers
    → PeerId
    → TaskId
    → TaskStatus
    → Option (Workers × List Output)
unfolding completed_proposal error_proposal after_status
handle_task_status n s ws peer id TaskStatus.pending = some (ws, [])
handle_task_status n s ws peer id (TaskStatus.started t) = some (ws, [])
handle_task_status n s ws peer id TaskStatus.unknown_status = some (ws, [])
handle_task_status n s ws peer id (TaskStatus.completed r) =
    after_status (unassign_worker_slot peer id ws) (
      with_address n n.ethereum_address
        (λ c. some (completed_proposal c peer id (TaskStatus.completed r))))
handle_task_status n s ws peer id (TaskStatus.error kind) =
    after_status (unassign_worker_slot peer id ws)
      (with_address n n.ethereum_address (λ c. error_proposal c peer id kind (lookup id s.tasks)))
