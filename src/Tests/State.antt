-- ===== src/Tests/State.antt =====
-- Tests of the shared state: a task is created, assigned, and refused results.
use balthazar.Prelude.{
  ℕ, suc, ◌≡◌, ◌↔◌, refl, ◌==◌, true, Option, none, some, List, [], ◌∷◌, Bytes, if◌then◌else◌,
  get_elem?, map, is_empty,
}
use balthazar.Prelude.Assoc.{lookup}
use balthazar.Ids.{PeerId}
use balthazar.Ids.HashId.{TaskId, hash_id_eq, hash_eq, as_bytes, to_bytes}
use balthazar.Completeness.{
  Assigned, SubTasksState, TaskCompleteness, incomplete, assign, unassign, get_substate,
  get_nb_unassigned, new_assigned,
}
use balthazar.Completeness.Slots.{SlotsAre, new_completeness-SlotsAre, assign-SlotsAre}
use balthazar.Completeness.Assignment.{
  Assigns, assign_iff, get_substate-assign, get_nb_unassigned-assign, unassign-assign,
  get_substate-unassign,
}
use balthazar.Task.{Task, empty_state}
use balthazar.Proposal.{Proposal, ProposalKind, Offer}
use balthazar.Change.{Env}
use balthazar.Change.Validity.{IsValid}
use balthazar.Consensus.{run_proposals}
use balthazar.Consensus.Validity.{run_proposals-IsValid}
use balthazar.Tests.{task_key, account, env, info}

-- Two slots, one of them taken by worker 5 under manager 3.
abbrev one_of_two : TaskCompleteness
one_of_two = incomplete (some (new_assigned 2 5 3 info) ∷ none ∷ [])

Assigns-one_of_two : Assigns 4 6 3 info one_of_two
unfolding assign
Assigns-one_of_two = refl

assign_iff_example :
    Assigns 4 6 3 info one_of_two
    ↔ ((k : ℕ) × (get_nb_unassigned one_of_two ≡ some (suc k)) × (get_substate 6 one_of_two ≡ none))
assign_iff_example = assign_iff 4 6 3 info one_of_two

get_substate-assign_example :
    get_substate 6 (assign 4 6 3 info one_of_two).0
    ≡ (if 6 == 6 then some (new_assigned 4 6 3 info) else get_substate 6 one_of_two)
get_substate-assign_example = get_substate-assign 4 6 3 info one_of_two 6 Assigns-one_of_two

get_nb_unassigned-assign_example :
    (k : ℕ) × (get_nb_unassigned one_of_two ≡ some (suc k))
    × (get_nb_unassigned (assign 4 6 3 info one_of_two).0 ≡ some k)
get_nb_unassigned-assign_example = get_nb_unassigned-assign 4 6 3 info one_of_two Assigns-one_of_two

unassign-assign_example :
    unassign 6 (assign 4 6 3 info one_of_two).0 ≡ (one_of_two, some (new_assigned 4 6 3 info))
unassign-assign_example = unassign-assign 4 6 3 info one_of_two Assigns-one_of_two

two_slots : SlotsAre 2 (assign 2 5 3 info (incomplete (none ∷ none ∷ []))).0
unfolding balthazar.Completeness.new_completeness
two_slots =
    assign-SlotsAre 2 2 5 3 info (incomplete (none ∷ none ∷ [])) (new_completeness-SlotsAre 2)

get_substate-unassign_example :
    get_substate 5 (unassign 5 (assign 2 5 3 info (incomplete (none ∷ none ∷ []))).0).0 ≡ (
      if 5 == 5 then none else get_substate 5 (assign 2 5 3 info (incomplete (none ∷ none ∷ []))).0)
get_substate-unassign_example =
    get_substate-unassign 2 (assign 2 5 3 info (incomplete (none ∷ none ∷ []))).0 5 5 two_slots

abbrev proposal : ProposalKind → Proposal
proposal kind = record {
  task_id = 27 ∷ 2 ∷ 20 ∷ 21 ∷ [];
  payment_address = account;
  proposal = some kind;
}

-- The handlers expect the digest in an offer.
abbrev offer : ℕ → Offer
offer w = record {
  task_id = 20 ∷ 21 ∷ [];
  workers_manager = 3 ∷ [];
  worker = w ∷ [];
  payment_address = account;
  worker_price = 1;
  network_price = 1;
}

abbrev proposals : List (Env × Proposal)
proposals =
    (env, proposal ProposalKind.new_task)
    ∷ (env, proposal (ProposalKind.scheduling (offer 5 ∷ offer 6 ∷ [])))
    ∷ []

run_proposals-IsValid_example : IsValid (run_proposals empty_state proposals)
run_proposals-IsValid_example = run_proposals-IsValid proposals

abbrev slots_of_task : Option Task → Option (List SubTasksState)
slots_of_task none = none
slots_of_task (some t) = balthazar.Completeness.get_substates t.completeness

-- Both offers are taken.
both_assigned :
    slots_of_task (lookup task_key (run_proposals empty_state proposals).tasks)
    ≡ some (some (new_assigned 5 5 3 info) ∷ some (new_assigned 5 6 3 info) ∷ [])
unfolding run_proposals balthazar.Consensus.check_and_apply_proposal balthazar.Ids.HashId.from_bytes
    balthazar.Consensus.apply_proposal balthazar.Handlers.handle_scheduling
    balthazar.Handlers.handle_new_task balthazar.Prelude.sort_by balthazar.Change.apply_state_change
    balthazar.Prelude.Assoc.or_insert balthazar.Prelude.Assoc.insert balthazar.Prelude.Assoc.lookup
    hash_eq balthazar.Prelude.bytes_eq balthazar.Change.to_cmp_int
    balthazar.Completeness.is_incomplete balthazar.Task.new_task balthazar.Change.change_task
    get_nb_unassigned balthazar.Ids.HashId.as_bytes get_substate assign
    balthazar.Completeness.get_substates
both_assigned = refl
