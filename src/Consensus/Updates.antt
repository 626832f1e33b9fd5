-- ===== src/Consensus/Updates.antt =====
-- Lemmas on the handlers of proposals on a known task, balthalib/src/node/shared_state.rs.
use balthazar.Prelude.{
  ℕ, ◌≡◌, refl, ap, sym, ◌∙◌, Bool, true, ◌&&◌, not, ◌==◌, leb, Option, none, some, List, [], ◌∷◌,
  ◌++◌, take, Bytes, insert_by, sort_by, Bool-cases, inl, inr, arith,
}
use balthazar.Prelude.Assoc.{lookup}
use balthazar.Ids.HashId.{TaskId, hash_id_eq}
use balthazar.Completeness.{SubTasksState, TaskDefiniteErrorKind, get_substates, get_nb_unassigned}
use balthazar.Task.{Task, SharedState}
use balthazar.Proposal.{Offer, ManTaskStatus, ProposeFailure, ProposalKind}
use balthazar.Change.{
  Env, not_incomplete, fully_assigned, bad_nb_failures, Outcome, done, err, panic, ◌>>=◌,
  StateChange,
}
use balthazar.Handlers.{
  or_err, or_panic, require, handle_new_task, handle_scheduling, handle_checked, handle_completed,
  check_task_is_known, check_offer, check_offers,
}
use balthazar.Failure.{judge, handle_failure, unassign_all, workers_to_unassign, definite_failure}
use balthazar.Consensus.{handle}
use balthazar.Consensus.Run.{is_update}

abbrev pub all_updates : List StateChange → Bool
all_updates [] = true
all_updates (c ∷ cs) = is_update c && all_updates cs

abbrev pub updates_only : Outcome (List StateChange) → Bool
updates_only (done cs) = all_updates cs
updates_only (err e) = true
updates_only panic = true

pub all_updates-append :
    (xs ys : List StateChange) → all_updates (xs ++ ys) ≡ (all_updates xs && all_updates ys)
all_updates-append [] ys = refl
all_updates-append (x ∷ xs) ys = ground (arith, all_updates-append xs ys)

module _ (le : StateChange → StateChange → Bool) where
  all_updates-insert_by :
      (c : StateChange) (cs : List StateChange)
      → all_updates (insert_by le c cs) ≡ (is_update c && all_updates cs)
  unfolding insert_by
  all_updates-insert_by c [] = refl
  all_updates-insert_by c (d ∷ cs) = ground (arith, all_updates-insert_by c cs)

  pub all_updates-sort_by : (cs : List StateChange) → all_updates (sort_by le cs) ≡ all_updates cs
  unfolding sort_by
  all_updates-sort_by [] = refl
  all_updates-sort_by (c ∷ cs) =
      ground (arith, all_updates-insert_by c (sort_by le cs), all_updates-sort_by cs)

-- How an outcome's changes reach the end of a handler.
updates-bind {ℓ} :
    {A : Type ℓ} (m : Outcome A) (f : A → Outcome (List StateChange))
    → ((a : A) → m ≡ done a → updates_only (f a) ≡ true)
    → updates_only (m >>= f) ≡ true
updates-bind (done a) f h = h a refl
updates-bind (err e) f h = refl
updates-bind panic f h = refl

unassign_all-updates : (ss : List SubTasksState) → all_updates (unassign_all ss) ≡ true
unfolding unassign_all
unassign_all-updates [] = refl
unassign_all-updates (none ∷ ss) = unassign_all-updates ss
unassign_all-updates (some a ∷ ss) = unassign_all-updates ss

check_offers-updates :
    (env : Env) (id : TaskId) (t : Task) (os : List Offer)
    → updates_only (check_offers env id t os) ≡ true
unfolding check_offers check_offer
check_offers-updates env id t [] = refl
check_offers-updates env id t (o ∷ os) = ground (arith, check_offers-updates env id t os)

scheduling-updates :
    (env : Env) (s : SharedState) (id : TaskId) (os : List Offer)
    → updates_only (handle_scheduling env s id os) ≡ true
unfolding handle_scheduling
scheduling-updates env s id os = updates-bind (check_task_is_known s id) _ (λ t e.
    updates-bind (or_err not_incomplete (get_nb_unassigned t.completeness)) _ (λ nb e'.
      updates-bind (require (not (nb == 0)) fully_assigned) _
        (λ u e''. check_offers-updates env id t (take nb os))))

checked-updates :
    (env : Env) (s : SharedState) (id : TaskId) (w : Bytes)
    → updates_only (handle_checked env s id w) ≡ true
unfolding handle_checked
checked-updates env s id w = ground arith

completed-updates :
    (env : Env) (s : SharedState) (id : TaskId) (m : Option ManTaskStatus)
    → updates_only (handle_completed env s id m) ≡ true
unfolding handle_completed
completed-updates env s id m = ground arith

stops-updates :
    (env : Env) (t : Task) (most : ℕ) (b : Option Bytes)
    → updates_only (workers_to_unassign env t most b) ≡ true
unfolding workers_to_unassign
stops-updates env t most none =
    updates-bind (or_err not_incomplete (get_substates t.completeness)) _
      (λ ss e. unassign_all-updates ss)
stops-updates env t most (some b) = elim (Bool-cases (leb most t.nb_failures)) [
  | inl e ↦ rw e (
      updates-bind (or_err not_incomplete (get_substates t.completeness)) _
        (λ ss e'. unassign_all-updates ss))
  | inr e ↦ rw e (ground arith)
]

fails-updates :
    (most new : ℕ) (r : Option TaskDefiniteErrorKind)
    → updates_only (definite_failure most new r) ≡ true
unfolding definite_failure
fails-updates most new r = ground arith

failure-updates :
    (env : Env) (s : SharedState) (id : TaskId) (p : ProposeFailure)
    → updates_only (handle_failure env s id p) ≡ true
unfolding handle_failure
failure-updates env s id p = updates-bind (check_task_is_known s id) _ (λ t e.
    updates-bind (or_panic (lookup t.job_id s.jobs)) _ (λ j e1.
      updates-bind (judge id t.nb_failures j.max_failures p.new_nb_failures p.kind) _ (λ v e2.
        updates-bind (require v.correct bad_nb_failures) _ (λ u e3.
          updates-bind (workers_to_unassign env t j.max_failures v.to_unassign) _ (λ stops e4.
            updates-bind (definite_failure j.max_failures p.new_nb_failures v.reason) _ (λ fails e5.
              let stop : all_updates stops ≡ true =
                sym (ap updates_only e4) ∙ stops-updates env t j.max_failures v.to_unassign in
              let fail : all_updates fails ≡ true =
                sym (ap updates_only e5)
                ∙ fails-updates j.max_failures p.new_nb_failures v.reason in
              all_updates-append stops fails ∙ rw (stop, fail) refl))))))

-- A known task is not created again.
new_task-updates :
    (env : Env) (s : SharedState) (id : TaskId) (t : Task)
    → lookup id s.tasks ≡ some t
    → updates_only (handle_new_task env s id) ≡ true
unfolding handle_new_task
new_task-updates env s id t known = rw known refl

pub handle-updates :
    (env : Env) (s : SharedState) (id : TaskId) (t : Task) (kind : ProposalKind)
    → lookup id s.tasks ≡ some t
    → updates_only (handle env s id kind) ≡ true
unfolding handle
handle-updates env s id t ProposalKind.new_task known = new_task-updates env s id t known
handle-updates env s id t (ProposalKind.failure p) known = failure-updates env s id p
handle-updates env s id t (ProposalKind.scheduling os) known = scheduling-updates env s id os
handle-updates env s id t (ProposalKind.checked w) known = checked-updates env s id w
handle-updates env s id t (ProposalKind.completed m) known = completed-updates env s id m
