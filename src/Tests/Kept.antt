-- ===== src/Tests/Kept.antt =====
-- Tests of what a proposal leaves as it is.
use balthazar.Prelude.{
  ℕ, ◌≡◌, refl, false, Option, none, some, List, [], ◌∷◌, ◌++◌, Bytes, map, All, arith,
}
use balthazar.Prelude.Assoc.{lookup}
use balthazar.Ids.HashId.{HashId, ok, hash_id_eq, hash_eq, from_bytes}
use balthazar.Completeness.{
  TaskCompleteness, incomplete, new_assigned, payment_infos, get_substate, unassign,
  get_nb_unassigned,
}
use balthazar.Proposal.{ProposalKind}
use balthazar.Consensus.{check_and_apply_proposal}
use balthazar.Consensus.Final.{closed_task_stays}
use balthazar.Consensus.Others.{lookup-check_and_apply_proposal}
use balthazar.Tests.{formats, task_key, env, info}
use balthazar.Tests.Accepted.{task_with, one_of_two, state_with, proposal, task_known}

abbrev closed : TaskCompleteness
closed = TaskCompleteness.completed (8 ∷ []) (info ∷ [])

is-closed : balthazar.Completeness.is_incomplete closed ≡ false
unfolding balthazar.Completeness.is_incomplete
is-closed = refl

closed_task_stays_example :
    lookup task_key
      (check_and_apply_proposal env (state_with closed) (proposal ProposalKind.new_task)).0.tasks
    ≡ some (task_with closed)
closed_task_stays_example =
    closed_task_stays env (state_with closed) (proposal ProposalKind.new_task) task_key
      (task_with closed) (task_known closed) is-closed

abbrev other_key : HashId
other_key = record { inner = record { code = 27; digest = 30 ∷ [] } }

other_key_read : from_bytes formats (27 ∷ 1 ∷ 30 ∷ []) ≡ ok other_key
unfolding from_bytes
other_key_read = refl

other-differs : hash_eq other_key task_key ≡ false
unfolding hash_eq balthazar.Prelude.bytes_eq
other-differs = refl

lookup-check_and_apply_proposal_example :
    lookup task_key
      (check_and_apply_proposal env
        (state_with one_of_two)
        (record (proposal ProposalKind.new_task) { task_id = 27 ∷ 1 ∷ 30 ∷ [] })).0.tasks
    ≡ lookup task_key (state_with one_of_two).tasks
lookup-check_and_apply_proposal_example =
    lookup-check_and_apply_proposal env (state_with one_of_two)
      (record (proposal ProposalKind.new_task) { task_id = 27 ∷ 1 ∷ 30 ∷ [] }) other_key task_key
      other_key_read other-differs
