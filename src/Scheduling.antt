-- ===== src/Scheduling.antt =====
-- balthalib/src/node/mod.rs: a manager proposes its workers for tasks (`propose_assignements`), and
-- follows the changes of the shared state (`handle_shared_state_change`). `none` is a panic.
pub mod Refused
use balthazar.Prelude.{
  wrap64, ℕ, zero, suc, Option, none, some, List, [], ◌∷◌, Bytes, map, take, get_elem?, is_empty,
  if◌then◌else◌,
}
use balthazar.Prelude.Assoc.{lookup}
use balthazar.Ids.{PeerId}
use balthazar.Ids.HashId.{TaskId, hash_id_eq, to_bytes}
use balthazar.Job.{Job}
use balthazar.Task.{Task, SharedState, get_nb_unassigned_per_task, get_job_from_task_id}
use balthazar.Proposal.{Offer, ProposalKind, Proposal}
use balthazar.Change.{Event}
use balthazar.Workers.{
  Workers, assign_worker_slot, unassign_worker_slot, reserve_worker_slot, unreserve_all_workers,
  get_unassigned_workers, get_unassigned_workers_sorted,
}
use balthazar.Node.{
  NodeConfig, with_address, Config, Output, propose, execute, proposal_of, send_abord_proposal,
}

-- the offer for one worker
unfoldable pub offer_of : Config → TaskId → PeerId → Offer
offer_of c id peer = record {
  task_id = to_bytes c.formats id;
  workers_manager = c.formats.peer_to_bytes c.peer_id;
  worker = c.formats.peer_to_bytes peer;
  payment_address = c.ethereum_address;
  worker_price = 1;
  network_price = 1;
}

reserve_all : Workers → List PeerId → Workers
reserve_all ws [] = ws
reserve_all ws (p ∷ ps) = reserve_all (reserve_worker_slot p ws).0 ps

unfoldable pub scheduling_proposal : Config → TaskId → List PeerId → Proposal
unfolding offer_of
scheduling_proposal c id peers =
    proposal_of c id (ProposalKind.scheduling (map (offer_of c id) peers))

-- The loop over the tasks with unassigned replicas.
unfoldable pub schedule : Config → Workers → List (TaskId × ℕ) → Workers × List Output
unfolding reserve_all scheduling_proposal
schedule c ws [] = (ws, [])
schedule c ws ((id, nb) ∷ tasks) =
    let sorted = get_unassigned_workers_sorted ws in
    let chosen = take nb sorted in
    let idle = schedule c ws tasks in
    let busy = schedule c (reserve_all ws chosen) tasks in
    if is_empty sorted then idle else (busy.0, propose (scheduling_proposal c id chosen) ∷ busy.1)

-- `propose_assignements`; here `none` is an error that it returns.
unfoldable pub propose_assignements :
    NodeConfig → SharedState → Workers → Option (Workers × List Output)
unfolding schedule
propose_assignements n s ws = with_address n n.ethereum_address (λ c. some (
    if is_empty (get_unassigned_workers ws)
    then (ws, [])
    else schedule c (unreserve_all_workers ws) (get_nb_unassigned_per_task s)))

-- `job.arguments()[task.arg_id()]`, and the message with it
unfoldable pub execution :
    NodeConfig → TaskId → PeerId → Option Job → Option Task → Option (List Output)
execution c id w none t = none
execution c id w (some j) none = none
execution c id w (some j) (some t) = elim (get_elem? j.arguments (wrap64 t.arg_id)) [
  | none ↦ none
  | some argument ↦ some (
      execute w (record {
        task_id = to_bytes c.formats id;
        program_addresses = j.program_addresses;
        program_hash = c.formats.multihash_to_bytes j.program_hash;
        program_kind = j.program_kind;
        argument = argument;
        timeout = j.timeout;
        max_network_usage = j.max_network_usage;
      })
      ∷ [])
]

with_workers : Workers → Option (List Output) → Option (Workers × List Output)
with_workers ws none = none
with_workers ws (some os) = some (ws, os)

one_output : Option Output → Option (List Output)
one_output none = none
one_output (some o) = some (o ∷ [])

-- `handle_shared_state_change`
unfoldable pub handle_shared_state_change :
    NodeConfig → SharedState → Workers → TaskId → Event → Option (Workers × List Output)
unfolding execution with_workers one_output
handle_shared_state_change c s ws id Event.pending = some (ws, [])
handle_shared_state_change c s ws id (Event.assigned w) =
    let (ws', found) = assign_worker_slot w id ws in
    with_workers ws' (
      if found
      then execution c id w (get_job_from_task_id id s) (lookup id s.tasks)
      else one_output (send_abord_proposal c s w id))
handle_shared_state_change c s ws id (Event.unassigned w m) =
    some ((unassign_worker_slot w id ws).0, [])
