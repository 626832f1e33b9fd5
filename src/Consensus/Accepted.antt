-- ===== src/Consensus/Accepted.antt =====
-- Accepted proposals, and those of a result in particular: `check_and_apply_proposal` of
-- balthalib/src/node/shared_state.rs.
use balthazar.Prelude.{◌≡◌, refl, ◌∙◌, some, List, [], ◌∷◌, ◌++◌, All, length, sort_by_key}
use balthazar.Prelude.Assoc.{lookup}
use balthazar.Ids.{address_size}
use balthazar.Ids.HashId.{TaskId, ok, hash_id_eq, from_bytes}
use balthazar.Task.{Task, SharedState}
use balthazar.Proposal.{ProposalKind, Proposal}
use balthazar.Change.{Env, done, StateChange, add_manager, update_task, to_cmp_int}
use balthazar.Handlers.{try_bytes_to_address}
use balthazar.Consensus.{
  handle, log_res, decide_and_apply, apply_proposal, apply_all, on_kind, on_task_id, on_address,
  check_and_apply_proposal,
}
use balthazar.Consensus.Run.{IsUpdate, run_changes, apply_all-run_changes}

-- A proposal that is read and accepted: its changes are applied in order, with its manager's.
pub check_and_apply_proposal_accepted :
    (env : Env) (s : SharedState) (p : Proposal) (id : TaskId) (kind : ProposalKind)
    (cs : List StateChange)
    → length p.payment_address ≡ address_size
    → from_bytes env.formats p.task_id ≡ ok id
    → p.proposal ≡ some kind
    → handle env s id kind ≡ done cs
    → check_and_apply_proposal env s p
      ≡ apply_all env id p.payment_address s (sort_by_key to_cmp_int (cs ++ add_manager ∷ []))
unfolding check_and_apply_proposal try_bytes_to_address on_address on_task_id on_kind apply_proposal
    decide_and_apply log_res
check_and_apply_proposal_accepted env s p id kind cs long read is taken =
    rw (long, read, is, taken) refl

-- On a known task, with updates alone: the task changes, and the rest of the state stays.
pub accepted_updates :
    (env : Env) (s : SharedState) (p : Proposal) (id : TaskId) (t : Task) (kind : ProposalKind)
    (cs : List StateChange)
    → length p.payment_address ≡ address_size
    → from_bytes env.formats p.task_id ≡ ok id
    → p.proposal ≡ some kind
    → handle env s id kind ≡ done cs
    → lookup id s.tasks ≡ some t
    → All IsUpdate (sort_by_key to_cmp_int (cs ++ add_manager ∷ []))
    → check_and_apply_proposal env s p
      ≡ update_task id s
          (run_changes env id p.payment_address t (sort_by_key to_cmp_int (cs ++ add_manager ∷ [])))
accepted_updates env s p id t kind cs long read is taken known us =
    check_and_apply_proposal_accepted env s p id kind cs long read is taken
    ∙ apply_all-run_changes env id p.payment_address s t
        (sort_by_key to_cmp_int (cs ++ add_manager ∷ [])) known us
