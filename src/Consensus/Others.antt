-- ===== src/Consensus/Others.antt =====
-- The other tasks under a proposal: `check_and_apply_proposal` of
-- balthalib/src/node/shared_state.rs.
use balthazar.Prelude.{
  ℕ, ◌≡◌, refl, ◌∙◌, false, Option, none, some, List, [], ◌∷◌, ◌++◌, sort_by, sort_by_key,
  Bool-cases, inl, inr,
}
use balthazar.Prelude.Assoc.{lookup, lookup-insert}
use balthazar.Ids.{Address}
use balthazar.Ids.HashId.{TaskId, JobId, IdResult, ok, hash_eq, hash_id_eq, from_bytes}
use balthazar.Job.{Job}
use balthazar.Completeness.{is_incomplete}
use balthazar.Task.{Task, SharedState, new_task}
use balthazar.Proposal.{ProposalKind, Proposal}
use balthazar.Change.{
  Env, checked, unassign, assign, set_nb_failures, complete, definetely_failed, Outcome, done, err,
  panic, StateChange, create, add_manager, to_cmp_int, Applied, change_task, apply_state_change,
  on_task, update_task, create_with, provide,
}
use balthazar.Handlers.{try_bytes_to_address}
use balthazar.Consensus.{
  unwrap_then, handle, log_res, apply_all, decide_and_apply, apply_proposal, on_kind, on_task_id,
  on_address, check_and_apply_proposal,
}

module _ (env : Env) (id : TaskId) (address : Address) where
  -- Changes of another task.
  lookup-on_task :
      (k : TaskId) (s : SharedState) (c : StateChange) (o : Option Task)
      → hash_eq id k ≡ false
      → lookup k (on_task env id address c s o).0.tasks ≡ lookup k s.tasks
  unfolding on_task update_task
  lookup-on_task k s c none ne = refl
  lookup-on_task k s c (some t) ne = elim (Bool-cases (is_incomplete t.completeness)) [
    | inl e ↦ rw e (lookup-insert id k (change_task env id address t c).0 s.tasks ∙ rw ne refl)
    | inr e ↦ rw e refl
  ]

  lookup-create_with :
      (k : TaskId) (s : SharedState) (job : JobId) (arg : ℕ) (o : Option Job)
      → hash_eq id k ≡ false
      → lookup k (create_with id job arg s o).0.tasks ≡ lookup k s.tasks
  unfolding create_with
  lookup-create_with k s job arg none ne = refl
  lookup-create_with k s job arg (some j) ne =
      lookup-insert id k (new_task id job arg j.redundancy) s.tasks ∙ rw ne refl

  other-change :
      (k : TaskId) (s : SharedState) (c : StateChange)
      → hash_eq id k ≡ false
      → lookup k (apply_state_change env id address s c).0.tasks ≡ lookup k s.tasks
  unfolding apply_state_change provide
  other-change k s (create job arg none) ne = lookup-create_with k s job arg (lookup job s.jobs) ne
  other-change k s (create job arg (some j)) ne =
      lookup-create_with k (provide job (some j) s) job arg
        (lookup job (provide job (some j) s).jobs) ne
  other-change k s add_manager ne = lookup-on_task k s add_manager (lookup id s.tasks) ne
  other-change k s (checked w) ne = lookup-on_task k s (checked w) (lookup id s.tasks) ne
  other-change k s (unassign w) ne = lookup-on_task k s (unassign w) (lookup id s.tasks) ne
  other-change k s (assign w m info) ne =
      lookup-on_task k s (assign w m info) (lookup id s.tasks) ne
  other-change k s (set_nb_failures n) ne =
      lookup-on_task k s (set_nb_failures n) (lookup id s.tasks) ne
  other-change k s (complete r) ne = lookup-on_task k s (complete r) (lookup id s.tasks) ne
  other-change k s (definetely_failed r) ne =
      lookup-on_task k s (definetely_failed r) (lookup id s.tasks) ne

  lookup-unwrap_then :
      (k : TaskId) (s : SharedState) (r : Applied SharedState)
      (rest : SharedState → Applied SharedState)
      → lookup k r.0.tasks ≡ lookup k s.tasks
      → ((s' : SharedState) → lookup k (rest s').0.tasks ≡ lookup k s'.tasks)
      → lookup k (unwrap_then r rest).0.tasks ≡ lookup k s.tasks
  lookup-unwrap_then k s (s', effects, done u) rest h hs = hs s' ∙ h
  lookup-unwrap_then k s (s', effects, err e) rest h hs = h
  lookup-unwrap_then k s (s', effects, panic) rest h hs = h

  -- The changes of a proposal touch no other task.
  pub other-changes :
      (k : TaskId) (s : SharedState) (cs : List StateChange)
      → hash_eq id k ≡ false
      → lookup k (apply_all env id address s cs).0.tasks ≡ lookup k s.tasks
  unfolding apply_all
  other-changes k s [] ne = refl
  other-changes k s (c ∷ cs) ne =
      lookup-unwrap_then k s (apply_state_change env id address s c)
        (λ s'. apply_all env id address s' cs) (other-change k s c ne)
        (λ s'. other-changes k s' cs ne)

-- What holds of the state, and after the changes of any accepted handler, holds after a proposal.
module _ (Q : SharedState → Type 0) (env : Env) (s : SharedState) (p : Proposal) (q : Q s)
    (h : (id : TaskId) (address : Address) (kind : ProposalKind) (cs : List StateChange)
      → from_bytes env.formats p.task_id ≡ ok id
      → handle env s id kind ≡ done cs
      → Q (apply_all env id address s (sort_by_key to_cmp_int (cs ++ add_manager ∷ []))).0) where
  at_changes :
      (id : TaskId) (address : Address) (kind : ProposalKind)
      → from_bytes env.formats p.task_id ≡ ok id
      → (o : Outcome (List StateChange)) → handle env s id kind ≡ o
      → Q (decide_and_apply env id address s (log_res o)).0
  unfolding decide_and_apply log_res sort_by
  at_changes id address kind read (done cs) e = h id address kind cs read e
  at_changes id address kind read (err x) e = q
  at_changes id address kind read panic e = q

  at_kind :
      (id : TaskId) (address : Address) (o : Option ProposalKind)
      → from_bytes env.formats p.task_id ≡ ok id
      → Q (on_kind env s id address o).0
  unfolding on_kind apply_proposal
  at_kind id address none read = q
  at_kind id address (some kind) read = at_changes id address kind read (handle env s id kind) refl

  at_task_id :
      (address : Address) (r : IdResult)
      → from_bytes env.formats p.task_id ≡ r
      → Q (on_task_id env s address p.proposal r).0
  unfolding on_task_id
  at_task_id address (ok id) read = at_kind id address p.proposal read
  at_task_id address (IdResult.err x) read = q

  at_address : (o : Option Address) → Q (on_address env s p o).0
  unfolding on_address
  at_address none = q
  at_address (some address) = at_task_id address (from_bytes env.formats p.task_id) refl

  pub check_and_apply_proposal-state : Q (check_and_apply_proposal env s p).0
  unfolding check_and_apply_proposal
  check_and_apply_proposal-state = at_address (try_bytes_to_address p.payment_address)

-- A proposal for one task leaves every other task as it is, whatever comes of it.
pub lookup-check_and_apply_proposal :
    (env : Env) (s : SharedState) (p : Proposal) (id k : TaskId)
    → from_bytes env.formats p.task_id ≡ ok id
    → hash_eq id k ≡ false
    → lookup k (check_and_apply_proposal env s p).0.tasks ≡ lookup k s.tasks
lookup-check_and_apply_proposal env s p id k read ne =
    check_and_apply_proposal-state (λ s'. lookup k s'.tasks ≡ lookup k s.tasks) env s p refl
      (λ id' address kind cs read' e.
        let same : id ≡ id' = cc in
        other-changes env id' address k s (sort_by_key to_cmp_int (cs ++ add_manager ∷ []))
          (rw same at ne))
