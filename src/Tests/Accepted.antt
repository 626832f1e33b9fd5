-- ===== src/Tests/Accepted.antt =====
-- Tests of proposals that are accepted.
use balthazar.Prelude.{
  take, ℕ, ◌≡◌, refl, false, Option, none, some, List, [], ◌∷◌, ◌++◌, Bytes, map, All, arith,
}
use balthazar.Prelude.Assoc.{lookup, insert}
use balthazar.Ids.HashId.{ok, hash_id_eq, hash_eq, from_bytes, as_bytes, to_bytes}
use balthazar.Completeness.{
  TaskCompleteness, incomplete, new_assigned, get_substate, unassign, get_nb_unassigned,
}
use balthazar.Task.{Task, SharedState}
use balthazar.Proposal.{
  StatusData, StatusMsg, ManTaskStatus, ProposalKind, Proposal, Offer, aborted,
}
use balthazar.Change.{notify, assigned, unassigned, pending, done, panic}
use balthazar.Handlers.{handle_scheduling}
use balthazar.Consensus.{check_and_apply_proposal}
use balthazar.Consensus.Grants.{AreOffered, Grant, grant_change, grant_all}
use balthazar.Consensus.Granted.{scheduling_granted}
use balthazar.Consensus.Twice.{scheduling_twice_panics}
use balthazar.Node.{at_address, propose, failure_of, send_abord_proposal}
use balthazar.Node.Aborted.{send_abord_proposal_accepted}
use balthazar.Tests.{
  formats, formats-FormatsLaws, job_key, task_key, account, job, env, config, info,
}

abbrev pub task_with : TaskCompleteness → Task
task_with c = record {
  task_id = task_key;
  nb_failures = 0;
  managers_addresses = [];
  completeness = c;
  job_id = job_key;
  arg_id = 0;
}

abbrev pub one_of_two : TaskCompleteness
one_of_two = incomplete (some (new_assigned 2 5 3 info) ∷ none ∷ [])

abbrev none_of_two : TaskCompleteness
none_of_two = incomplete (none ∷ none ∷ [])

abbrev pub state_with : TaskCompleteness → SharedState
state_with c = record { tasks = (task_key, task_with c) ∷ []; jobs = (job_key, job) ∷ [] }

abbrev pub proposal : ProposalKind → Proposal
proposal kind = record {
  task_id = 27 ∷ 2 ∷ 20 ∷ 21 ∷ [];
  payment_address = account;
  proposal = some kind;
}

pub task_known : (c : TaskCompleteness) → lookup task_key (state_with c).tasks ≡ some (task_with c)
unfolding lookup hash_eq balthazar.Prelude.bytes_eq
task_known c = refl

job_known : (c : TaskCompleteness) → lookup job_key (state_with c).jobs ≡ some job
unfolding lookup hash_eq balthazar.Prelude.bytes_eq
job_known c = refl

task_key_read : from_bytes formats (27 ∷ 2 ∷ 20 ∷ 21 ∷ []) ≡ ok task_key
unfolding from_bytes
task_key_read = refl

-- A result that names its task by the digest.
abbrev status : StatusMsg
status = record { task_id = 20 ∷ 21 ∷ []; status_data = some (StatusData.result (8 ∷ [])) }

abbrev message : ManTaskStatus
message = record { task_id = 20 ∷ 21 ∷ []; worker = 5 ∷ []; status = some status }

digest : as_bytes task_key ≡ 20 ∷ 21 ∷ []
unfolding as_bytes
digest = refl

abbrev grant : ℕ → Grant
grant w = record { worker = w; manager = 3; payment_info = info }

abbrev offer : ℕ → Offer
offer w = record {
  task_id = 20 ∷ 21 ∷ [];
  workers_manager = 3 ∷ [];
  worker = w ∷ [];
  payment_address = account;
  worker_price = 1;
  network_price = 1;
}

abbrev offers : ℕ → ℕ → List Offer
offers v w = offer v ∷ offer w ∷ []

offers_taken :
    (v w : ℕ)
    → handle_scheduling env (state_with none_of_two) task_key (offers v w)
      ≡ done (map grant_change (grant v ∷ grant w ∷ []))
unfolding handle_scheduling lookup hash_eq balthazar.Prelude.bytes_eq get_nb_unassigned as_bytes
    get_substate
offers_taken v w = refl

scheduling_granted_example :
    let c = grant_all 5 (grant 5 ∷ grant 6 ∷ []) none_of_two in
    (check_and_apply_proposal env
        (state_with none_of_two)
        (proposal (ProposalKind.scheduling (offers 5 6)))
      ≡ (
        record (state_with none_of_two) {
          tasks =
              insert task_key
                (record (task_with none_of_two) {
                  managers_addresses = account ∷ [];
                  completeness = c;
                })
                (state_with none_of_two).tasks;
        },
        notify task_key (assigned 5) ∷ notify task_key (assigned 6) ∷ [],
        done tt,
      ))
    × All
        (λ g. get_substate g.worker c ≡ some (new_assigned 5 g.worker g.manager g.payment_info))
        (grant 5 ∷ grant 6 ∷ [])
    × ((nb : ℕ) × (get_nb_unassigned none_of_two ≡ some nb)
        × AreOffered env (take nb (offers 5 6)) (grant 5 ∷ grant 6 ∷ []))
scheduling_granted_example =
    scheduling_granted env (state_with none_of_two)
      (proposal (ProposalKind.scheduling (offers 5 6))) task_key (task_with none_of_two)
      (offers 5 6) (grant 5 ∷ grant 6 ∷ []) refl task_key_read refl (task_known none_of_two)
      (offers_taken 5 6) ((refl, tt), (tt, tt))

scheduling_twice_panics_example :
    (check_and_apply_proposal env
      (state_with none_of_two)
      (proposal (ProposalKind.scheduling (offers 5 5)))).2
    ≡ panic
scheduling_twice_panics_example =
    scheduling_twice_panics env (state_with none_of_two)
      (proposal (ProposalKind.scheduling (offers 5 5))) task_key (task_with none_of_two)
      (offers 5 5) (grant 5) (grant 5) [] refl task_key_read refl (task_known none_of_two)
      (offers_taken 5 5) refl

abbrev abort_of_5 : Proposal
abort_of_5 = record {
  task_id = to_bytes formats task_key;
  payment_address = account;
  proposal = some (failure_of (at_address config account) 5 task_key 0 aborted);
}

aborts : send_abord_proposal config (state_with one_of_two) 5 task_key ≡ some (propose abort_of_5)
unfolding send_abord_proposal lookup hash_eq balthazar.Prelude.bytes_eq
aborts = refl

works : get_substate 5 one_of_two ≡ some (new_assigned 2 5 3 info)
unfolding get_substate
works = refl

send_abord_proposal_accepted_example :
    check_and_apply_proposal env (state_with one_of_two) abort_of_5 ≡ (
      record (state_with one_of_two) {
        tasks =
            insert task_key
              (record (task_with one_of_two) {
                managers_addresses = account ∷ [];
                completeness = (unassign 5 one_of_two).0;
              })
              (state_with one_of_two).tasks;
      },
      notify task_key (unassigned 5 3) ∷ notify task_key pending ∷ [],
      done tt,
    )
send_abord_proposal_accepted_example =
    send_abord_proposal_accepted config account env (state_with one_of_two) task_key
      (task_with one_of_two) job 5 (new_assigned 2 5 3 info) abort_of_5 formats-FormatsLaws refl
      refl refl refl (task_known one_of_two) (job_known one_of_two) (omega arith) works aborts
