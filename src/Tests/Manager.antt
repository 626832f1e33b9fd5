-- ===== src/Tests/Manager.antt =====
-- Tests of a manager: its workers' slots, what it proposes, and what becomes of that.
use balthazar.Prelude.{
  ℕ, ◌+◌, ◌-◌, ◌*◌, ◌≤◌, ◌==◌, ◌≡◌, refl, not, true, none, some, List, [], ◌∷◌, ◌++◌, Bytes, All,
  length, ltb, map, filter, count_if, replicate, if◌then◌else◌,
}
use balthazar.Ids.HashId.{HashId, hash_eq}
use balthazar.Job.{ProgramKind}
use balthazar.Completeness.{TaskCompleteness, incomplete}
use balthazar.Task.{Task, SharedState}
use balthazar.TaskStatus.{TaskStatus}
use balthazar.Workers.{
  WorkerSpecs, Worker, Workers, available, pending, assigned, has_id, has_unassigned, push, remove,
  get_worker, assignments_of, reserve_slot, assign_slot, unassign_slot, unreserve_all_slots,
  get_nb_available_slots, get_nb_pending_slots, get_unassigned_workers_sorted,
}
use balthazar.Workers.Slots.{
  slots_of, bit, reserve_slot_counts, assign_slot_counts, unassign_slot_counts,
  unreserve_all_slots_counts,
}
use balthazar.Workers.Known.{Call, call_all, call_all-IsDistinct, get_worker-remove}
use balthazar.Workers.Order.{get_unassigned_workers_sorted_lem}
use balthazar.Consensus.{check_and_apply_proposal}
use balthazar.Consensus.Refusal.{unchanged}
use balthazar.Node.{completed_proposal, at_address}
use balthazar.Node.Refused.{completed_refused}
use balthazar.Scheduling.{propose_assignements}
use balthazar.Scheduling.Refused.{outputs, IsRefused, propose_assignements-IsRefused}
use balthazar.Tests.{formats-FormatsLaws, job_key, task_key, job, env, config, account}

abbrev specs : WorkerSpecs
specs = record {
  worker_price = 1;
  network_price = 1;
  cpu_count = 2;
  memory = 0;
  network_speed = 0;
  supported_program_kinds = ProgramKind.wasm ∷ [];
}

abbrev other_key : HashId
other_key = record { inner = record { code = 27; digest = 30 ∷ [] } }

-- A worker with a slot of each sort.
abbrev worker_5 : Worker
worker_5 = record {
  peer_id = 5;
  assignments = available ∷ pending ∷ assigned task_key ∷ [];
  specs = specs;
}

reserve_slot_counts_example :
    let r = reserve_slot worker_5 in
    (r.1 ≡ ltb 0 (get_nb_available_slots worker_5))
    × (get_nb_available_slots r.0 + bit r.1 ≡ get_nb_available_slots worker_5)
    × (get_nb_pending_slots r.0 ≡ get_nb_pending_slots worker_5 + bit r.1)
    × (slots_of task_key r.0 ≡ slots_of task_key worker_5)
    × (length r.0.assignments ≡ length worker_5.assignments)
reserve_slot_counts_example = reserve_slot_counts worker_5 task_key

unassign_slot_counts_example :
    let r = unassign_slot task_key worker_5 in
    (r.1 ≡ ltb 0 (slots_of task_key worker_5))
    × (get_nb_available_slots r.0 ≡ get_nb_available_slots worker_5 + bit r.1)
    × (get_nb_pending_slots r.0 ≡ get_nb_pending_slots worker_5)
    × (slots_of other_key r.0 + bit r.1 * bit (hash_eq task_key other_key)
        ≡ slots_of other_key worker_5)
    × (length r.0.assignments ≡ length worker_5.assignments)
unassign_slot_counts_example = unassign_slot_counts worker_5 task_key other_key

assign_slot_counts_example :
    let r = assign_slot other_key worker_5 in
    (r.1 ≡ ltb 0 (get_nb_pending_slots worker_5 + get_nb_available_slots worker_5))
    × (get_nb_pending_slots r.0 ≡ get_nb_pending_slots worker_5 - 1)
    × (get_nb_available_slots r.0
        ≡ get_nb_available_slots worker_5 - (1 - bit (ltb 0 (get_nb_pending_slots worker_5))))
    × (slots_of task_key r.0
        ≡ slots_of task_key worker_5 + bit r.1 * bit (hash_eq other_key task_key))
    × (length r.0.assignments ≡ length worker_5.assignments)
assign_slot_counts_example = assign_slot_counts worker_5 other_key task_key

unreserve_all_slots_counts_example :
    let w' = unreserve_all_slots worker_5 in
    (get_nb_pending_slots w' ≡ 0)
    × (get_nb_available_slots w' ≡ get_nb_available_slots worker_5 + get_nb_pending_slots worker_5)
    × (slots_of task_key w' ≡ slots_of task_key worker_5)
unreserve_all_slots_counts_example = unreserve_all_slots_counts worker_5 task_key

abbrev calls : List Call
calls = Call.push_worker 5 specs ∷ Call.push_worker 6 specs ∷ Call.push_worker 5 specs ∷ []

call_all-IsDistinct_example : count_if (has_id 5) (call_all [] calls) ≤ 1
call_all-IsDistinct_example = call_all-IsDistinct calls 5

get_worker-remove_example :
    ((remove 5 (call_all [] calls)).1 ≡ assignments_of (get_worker 5 (call_all [] calls)))
    × (get_worker 6 (remove 5 (call_all [] calls)).0
        ≡ (if 5 == 6 then none else get_worker 6 (call_all [] calls)))
get_worker-remove_example = get_worker-remove (call_all [] calls) 5 6 (call_all-IsDistinct calls)

get_unassigned_workers_sorted_lem_example :
    get_unassigned_workers_sorted (call_all [] calls)
    ≡ map
        (λ w. w.peer_id)
        (filter (λ w. ltb 0 (get_nb_available_slots w)) (filter has_unassigned (call_all [] calls)))
      ++ map
          (λ w. w.peer_id)
          (filter
            (λ w. not (ltb 0 (get_nb_available_slots w)))
            (filter has_unassigned (call_all [] calls)))
get_unassigned_workers_sorted_lem_example =
    get_unassigned_workers_sorted_lem (call_all [] calls) (call_all-IsDistinct calls)

abbrev task : Task
task = record {
  task_id = task_key;
  nb_failures = 0;
  managers_addresses = [];
  completeness = incomplete (none ∷ none ∷ []);
  job_id = job_key;
  arg_id = 0;
}

abbrev state : SharedState
state = record { tasks = (task_key, task) ∷ []; jobs = (job_key, job) ∷ [] }

propose_assignements-IsRefused_example :
    All (IsRefused env state) (outputs (propose_assignements config state (worker_5 ∷ [])))
propose_assignements-IsRefused_example =
    propose_assignements-IsRefused config env state state (worker_5 ∷ []) formats-FormatsLaws refl

-- The manager does propose its worker there.
proposes_one : length (outputs (propose_assignements config state (worker_5 ∷ []))) ≡ 1
unfolding propose_assignements balthazar.Workers.get_unassigned_workers
    balthazar.Task.get_nb_unassigned_per_task balthazar.Completeness.get_nb_unassigned
    get_unassigned_workers_sorted balthazar.Prelude.sort_by balthazar.Workers.unreserve_all_workers
    unreserve_all_slots
proposes_one = refl

abbrev freed : Worker
freed = record { peer_id = 5; assignments = available ∷ pending ∷ available ∷ []; specs = specs }

completed_refused_example :
    check_and_apply_proposal env state
      (completed_proposal (at_address config account) 5 task_key (TaskStatus.completed (8 ∷ [])))
    ≡ unchanged state
unfolding balthazar.Node.handle_task_status balthazar.Workers.unassign_worker_slot unassign_slot
    hash_eq balthazar.Prelude.bytes_eq
completed_refused_example =
    completed_refused config env state state (worker_5 ∷ []) (freed ∷ []) 5 task_key (8 ∷ [])
      (completed_proposal (at_address config account) 5 task_key (TaskStatus.completed (8 ∷ [])))
      formats-FormatsLaws refl refl
