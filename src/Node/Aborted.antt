-- ===== src/Node/Aborted.antt =====
-- The proposal of a manager that loses a worker: balthalib/src/node/mod.rs and
-- balthalib/src/node/shared_state.rs.
use balthazar.Prelude.{
  ℕ, ◌<◌, ◌==◌, ◌≡◌, refl, ap, ◌∙◌, true, false, some, List, [], ◌∷◌, ◌++◌, find, length, ltb, leb,
  sort_by, sort_by_key, find-some, Option-cases, inl, inr, arith,
}
use balthazar.Prelude.Assoc.{lookup, insert}
use balthazar.Ids.{PeerId, Address, FormatsLaws, address_size}
use balthazar.Ids.HashId.{TaskId, ok, hash_id_eq, from_bytes}
use balthazar.Ids.HashId.RoundTrip.{IsKeccak, from_bytes-to_bytes}
use balthazar.Job.{Job}
use balthazar.Completeness.{
  Assigned, SubTasksState, TaskCompleteness, incomplete, definetely_failed, completed, is_worker,
  flatten, is_incomplete, get_substate, unassign as take_slot,
}
use balthazar.Completeness.Assignment.{found_worker}
use balthazar.Task.{Task, SharedState}
use balthazar.Proposal.{
  aborted, error_kind_from_i32, error_kind_into_i32, try_worker_error_to_definite_error,
  ProposalKind, Proposal,
}
use balthazar.Change.{
  Env, notify, pending, unassigned, done, unassign, set_nb_failures, add_manager, change_task,
  update_task, to_cmp_int,
}
use balthazar.Handlers.{check_task_is_known}
use balthazar.Failure.{handle_failure, judge, workers_to_unassign, definite_failure}
use balthazar.Consensus.{handle, check_and_apply_proposal}
use balthazar.Consensus.Run.{run_changes}
use balthazar.Consensus.Accepted.{accepted_updates}
use balthazar.Node.{
  NodeConfig, at_address, Config, propose, proposal_of, failure_of, send_abord_proposal,
}

-- A worker's slot is in an incomplete task, and holds that worker.
substate_inv :
    (w : PeerId) (c : TaskCompleteness) {a : Assigned}
    → get_substate w c ≡ some a
    → (ss : List SubTasksState) × (c ≡ incomplete ss)
      × (flatten (find (is_worker w) ss) ≡ some a)
      × (a.worker ≡ w)
unfolding get_substate
substate_inv w (incomplete ss) h = elim (Option-cases (find (is_worker w) ss)) [
  | inl e ↦ absurd (ground arith)
  | inr (s, found) ↦
      let (b, is, same) = found_worker w s (find-some (is_worker w) ss found) in
      (ss, refl, h, ground arith)
]
substate_inv w (definetely_failed reason) h = cc
substate_inv w (completed r infos) h = cc

-- the failure of `send_abord_proposal`
abbrev abord_kind : Config → PeerId → TaskId → ℕ → ProposalKind
abord_kind c peer id nb = failure_of c peer id nb aborted

handle_abord :
    (c : Config) (env : Env) (s : SharedState) (id : TaskId) (t : Task) (j : Job) (peer : PeerId)
    (a : Assigned)
    → lookup id s.tasks ≡ some t
    → lookup t.job_id s.jobs ≡ some j
    → t.nb_failures < j.max_failures
    → env.formats.peer_from_bytes (c.formats.peer_to_bytes peer) ≡ some peer
    → get_substate peer t.completeness ≡ some a
    → handle env s id (abord_kind c peer id t.nb_failures)
      ≡ done (set_nb_failures t.nb_failures ∷ unassign peer ∷ [])
unfolding handle handle_failure check_task_is_known judge workers_to_unassign definite_failure
    error_kind_from_i32 error_kind_into_i32 try_worker_error_to_definite_error
handle_abord c env s id t j peer a known job few read works =
    let same : (t.nb_failures == t.nb_failures) ≡ true = ground arith in
    let not_most : leb j.max_failures t.nb_failures ≡ false = ground arith in
    let not_over : ltb j.max_failures t.nb_failures ≡ false = ground arith in
    rw (known, job, same, not_most, read, works, not_over) refl

run_abord :
    (env : Env) (id : TaskId) (address : Address) (t : Task) (ss : List SubTasksState)
    (peer : PeerId) (a : Assigned)
    → flatten (find (is_worker peer) ss) ≡ some a
    → run_changes env id address
        (record t { completeness = incomplete ss })
        (sort_by_key to_cmp_int (set_nb_failures t.nb_failures ∷ unassign peer ∷ add_manager ∷ []))
      ≡ (
        record t {
          managers_addresses = t.managers_addresses ++ address ∷ [];
          completeness = (take_slot peer (incomplete ss)).0;
        },
        notify id (unassigned a.worker a.workers_manager) ∷ notify id pending ∷ [],
        done tt,
      )
unfolding run_changes sort_by to_cmp_int change_task is_incomplete take_slot
run_abord env id address t ss peer a h = rw h refl

-- A manager's abort of a worker that has a slot of a task with fewer failures than allowed is
-- accepted by every node with the same state, the same formats, which obey their documentation, and
-- a configured address of the right size: the worker's slot is free again, the manager is added,
-- the number of failures stays, and the node is told of the lost worker, then of the free slot.
pub send_abord_proposal_accepted :
    (n : NodeConfig) (address : Address) (env : Env) (s : SharedState) (id : TaskId) (t : Task)
    (j : Job) (peer : PeerId) (a : Assigned) (p : Proposal)
    → FormatsLaws n.formats
    → env.formats ≡ n.formats
    → n.ethereum_address ≡ some address
    → length address ≡ address_size
    → IsKeccak n.formats id
    → lookup id s.tasks ≡ some t
    → lookup t.job_id s.jobs ≡ some j
    → t.nb_failures < j.max_failures
    → get_substate peer t.completeness ≡ some a
    → send_abord_proposal n s peer id ≡ some (propose p)
    → check_and_apply_proposal env s p ≡ (
      record s {
        tasks =
            insert id
              (record t {
                managers_addresses = t.managers_addresses ++ address ∷ [];
                completeness = (take_slot peer t.completeness).0;
              })
              s.tasks;
      },
      notify id (unassigned peer a.workers_manager) ∷ notify id pending ∷ [],
      done tt,
    )
unfolding send_abord_proposal update_task sort_by to_cmp_int
send_abord_proposal_accepted n address env s id t j peer a p laws same configured long keccak known
      job few works h =
    let c = at_address n address in
    let q = proposal_of c id (abord_kind c peer id t.nb_failures) in
    let is : p ≡ q = ground (arith, configured) in
    let (ss, open', slot, worker) = substate_inv peer t.completeness works in
    let read : from_bytes env.formats q.task_id ≡ ok id =
      rw same (from_bytes-to_bytes c.formats laws id keccak) in
    let read_peer : env.formats.peer_from_bytes (c.formats.peer_to_bytes peer) ≡ some peer =
      rw same (laws.peer_round peer) in
    ap (check_and_apply_proposal env s) is
    ∙ accepted_updates env s q id t (abord_kind c peer id t.nb_failures)
        (set_nb_failures t.nb_failures ∷ unassign peer ∷ []) long read refl
        (handle_abord c env s id t j peer a known job few read_peer works) known
        (refl, (refl, (refl, tt)))
    ∙ ap
        (λ d. update_task id s (
          run_changes env id c.ethereum_address (record t { completeness = d })
            (sort_by_key to_cmp_int
              (set_nb_failures t.nb_failures ∷ unassign peer ∷ add_manager ∷ []))))
        open'
    ∙ ap (update_task id s) (run_abord env id c.ethereum_address t ss peer a slot)
    ∙ rw (open', worker) refl
