-- ===== src/Consensus/Validity.antt =====
-- Sequences of proposals: `check_and_apply_proposal` of balthalib/src/node/shared_state.rs.
use balthazar.Prelude.{Option, none, some, List, [], ◌∷◌, sort_by_key}
use balthazar.Ids.{Address}
use balthazar.Ids.HashId.{TaskId, IdResult, ok, from_bytes}
use balthazar.Task.{SharedState, empty_state}
use balthazar.Proposal.{ProposalKind, Proposal}
use balthazar.Change.{
  Env, Outcome, done, err, panic, StateChange, to_cmp_int, Applied, apply_state_change,
}
use balthazar.Change.Validity.{IsValid, empty_state-IsValid, apply_state_change-IsValid}
use balthazar.Handlers.{try_bytes_to_address}
use balthazar.Consensus.{
  handle, log_res, unwrap_then, apply_all, decide_and_apply, apply_proposal, on_kind, on_task_id,
  on_address, check_and_apply_proposal, run_proposals,
}

-- A property of the state that every single change keeps is kept by a whole proposal.
module _ (P : SharedState → Type 0)
    (step : (env : Env) (id : TaskId) (address : Address) (s : SharedState) (c : StateChange)
      → P s
      → P (apply_state_change env id address s c).0) where
  unwrap_then_keeps :
      (a : Applied SharedState) (rest : SharedState → Applied SharedState)
      → P a.0
      → ((s : SharedState) → P s → P (rest s).0)
      → P (unwrap_then a rest).0
  unwrap_then_keeps (s, effects, done u) rest h k = k s h
  unwrap_then_keeps (s, effects, err e) rest h k = h
  unwrap_then_keeps (s, effects, panic) rest h k = h

  apply_all_keeps :
      (env : Env) (id : TaskId) (address : Address) (s : SharedState) (cs : List StateChange)
      → P s
      → P (apply_all env id address s cs).0
  unfolding apply_all
  apply_all_keeps env id address s [] h = h
  apply_all_keeps env id address s (c ∷ cs) h =
      unwrap_then_keeps (apply_state_change env id address s c)
        (λ s'. apply_all env id address s' cs) (step env id address s c h)
        (λ s' h'. apply_all_keeps env id address s' cs h')

  decide_and_apply_keeps :
      (env : Env) (id : TaskId) (address : Address) (s : SharedState)
      (o : Outcome (List StateChange))
      → P s
      → P (decide_and_apply env id address s o).0
  unfolding decide_and_apply
  decide_and_apply_keeps env id address s (done cs) h =
      apply_all_keeps env id address s (sort_by_key to_cmp_int cs) h
  decide_and_apply_keeps env id address s (err e) h = h
  decide_and_apply_keeps env id address s panic h = h

  on_kind_keeps :
      (env : Env) (s : SharedState) (id : TaskId) (address : Address) (o : Option ProposalKind)
      → P s
      → P (on_kind env s id address o).0
  unfolding on_kind apply_proposal
  on_kind_keeps env s id address none h = h
  on_kind_keeps env s id address (some kind) h =
      decide_and_apply_keeps env id address s (log_res (handle env s id kind)) h

  on_task_id_keeps :
      (env : Env) (s : SharedState) (address : Address) (o : Option ProposalKind) (r : IdResult)
      → P s
      → P (on_task_id env s address o r).0
  unfolding on_task_id
  on_task_id_keeps env s address o (ok id) h = on_kind_keeps env s id address o h
  on_task_id_keeps env s address o (IdResult.err e) h = h

  on_address_keeps :
      (env : Env) (s : SharedState) (p : Proposal) (o : Option Address)
      → P s
      → P (on_address env s p o).0
  unfolding on_address
  on_address_keeps env s p none h = h
  on_address_keeps env s p (some address) h =
      on_task_id_keeps env s address p.proposal (from_bytes env.formats p.task_id) h

  pub check_and_apply_proposal_keeps :
      (env : Env) (s : SharedState) (p : Proposal) → P s → P (check_and_apply_proposal env s p).0
  unfolding check_and_apply_proposal
  check_and_apply_proposal_keeps env s p h =
      on_address_keeps env s p (try_bytes_to_address p.payment_address) h

  pub run_proposals_keeps :
      (s : SharedState) (ps : List (Env × Proposal)) → P s → P (run_proposals s ps)
  unfolding run_proposals
  run_proposals_keeps s [] h = h
  run_proposals_keeps s ((env, p) ∷ ps) h =
      run_proposals_keeps (check_and_apply_proposal env s p).0 ps
        (check_and_apply_proposal_keeps env s p h)

-- From the empty state, after any sequence of proposals, valid or not, each in its own
-- surroundings, and whatever the smart-contract answers: each task is stored under its own id, its
-- job is known, it has as many slots as the job asks replicas while it is incomplete, and no worker
-- holds two of them.
pub run_proposals-IsValid : (ps : List (Env × Proposal)) → IsValid (run_proposals empty_state ps)
run_proposals-IsValid ps =
    run_proposals_keeps IsValid apply_state_change-IsValid empty_state ps empty_state-IsValid
