-- ===== src/Consensus/Final.antt =====
-- Proposals on closed tasks: `check_and_apply_proposal` of balthalib/src/node/shared_state.rs.
use balthazar.Prelude.{
  ◌≡◌, refl, ap, sym, ◌∙◌, true, false, leb, some, List, [], ◌∷◌, ◌++◌, sort_by_key, Bool-cases,
  inl, inr, arith,
}
use balthazar.Prelude.Assoc.{lookup}
use balthazar.Ids.{Address}
use balthazar.Ids.HashId.{TaskId, hash_eq, hash_eq_iff, hash_id_eq}
use balthazar.Completeness.{is_incomplete}
use balthazar.Task.{Task, SharedState}
use balthazar.Proposal.{ProposalKind, Proposal}
use balthazar.Change.{
  Env, already_complete, done, err, StateChange, create, add_manager, to_cmp_int,
  apply_state_change, on_task,
}
use balthazar.Consensus.{handle, apply_all, check_and_apply_proposal}
use balthazar.Consensus.Run.{is_update}
use balthazar.Consensus.Updates.{
  all_updates, updates_only, all_updates-append, all_updates-sort_by, handle-updates,
}
use balthazar.Consensus.Others.{other-changes, check_and_apply_proposal-state}

module _ (env : Env) (id : TaskId) (address : Address) where
  -- Updates of a closed task.
  closed-change :
      (s : SharedState) (t : Task) (c : StateChange)
      → lookup id s.tasks ≡ some t
      → is_incomplete t.completeness ≡ false
      → is_update c ≡ true
      → apply_state_change env id address s c ≡ (s, [], err already_complete)
  unfolding apply_state_change on_task
  closed-change s t (create job arg j) known closed u = cc
  closed-change s t add_manager known closed u = rw (known, closed) refl
  closed-change s t _ known closed u = rw (known, closed) refl

  closed-changes :
      (s : SharedState) (t : Task) (cs : List StateChange)
      → lookup id s.tasks ≡ some t
      → is_incomplete t.completeness ≡ false
      → all_updates cs ≡ true
      → (apply_all env id address s cs).0 ≡ s
  unfolding apply_all
  closed-changes s t [] known closed us = refl
  closed-changes s t (c ∷ cs) known closed us =
      rw (closed-change s t c known closed (ground arith)) refl

  closed-accepted :
      (s : SharedState) (t : Task) (kind : ProposalKind) (cs : List StateChange)
      → lookup id s.tasks ≡ some t
      → is_incomplete t.completeness ≡ false
      → handle env s id kind ≡ done cs
      → (apply_all env id address s (sort_by_key to_cmp_int (cs ++ add_manager ∷ []))).0 ≡ s
  closed-accepted s t kind cs known closed e =
      let us : all_updates cs ≡ true =
        sym (ap updates_only e) ∙ handle-updates env s id t kind known in
      closed-changes s t (sort_by_key to_cmp_int (cs ++ add_manager ∷ [])) known closed (
        all_updates-sort_by (λ a b. leb (to_cmp_int a) (to_cmp_int b)) (cs ++ add_manager ∷ [])
        ∙ all_updates-append cs (add_manager ∷ [])
        ∙ rw us refl)

-- A task that is completed or definitely failed is stored unchanged after any proposal, whatever
-- the smart-contract answers.
pub closed_task_stays :
    (env : Env) (s : SharedState) (p : Proposal) (k : TaskId) (t : Task)
    → lookup k s.tasks ≡ some t
    → is_incomplete t.completeness ≡ false
    → lookup k (check_and_apply_proposal env s p).0.tasks ≡ some t
closed_task_stays env s p k t known closed =
    check_and_apply_proposal-state (λ s'. lookup k s'.tasks ≡ some t) env s p known
      (λ id address kind cs read e. elim (Bool-cases (hash_eq id k)) [
        | inl same ↦
            let is : id ≡ k = (hash_eq_iff id k).0 same in
            let here : lookup id s.tasks ≡ some t = rw is known in
            ap (λ (s' : SharedState). lookup k s'.tasks)
              (closed-accepted env id address s t kind cs here closed e)
            ∙ known
        | inr ne ↦
            other-changes env id address k s (sort_by_key to_cmp_int (cs ++ add_manager ∷ [])) ne
            ∙ known
      ])
