-- ===== src/Consensus/Twice.antt =====
-- Scheduling proposals with one worker in two offers, `check_and_apply_proposal` of
-- balthalib/src/node/shared_state.rs.
use balthazar.Prelude.{
  ◌==◌, ◌≡◌, refl, ap, ◌∙◌, true, Option, none, some, List, [], ◌∷◌, ◌++◌, map, take, length,
  length-take, Option-cases, Bool-cases, inl, inr, arith,
}
use balthazar.Prelude.Assoc.{lookup}
use balthazar.Ids.{PeerId, Address, address_size}
use balthazar.Ids.HashId.{TaskId, ok, hash_id_eq, from_bytes}
use balthazar.Completeness.{
  TaskCompleteness, AssignError, is_incomplete, get_substate, get_nb_unassigned, new_assigned,
  assign as fill_slot,
}
use balthazar.Completeness.Assignment.{assign_iff, get_substate-assign}
use balthazar.Task.{Task, SharedState}
use balthazar.Proposal.{Offer, ProposalKind, Proposal}
use balthazar.Change.{
  Env, ProposalError, assign_failed, done, err, panic, StateChange, add_manager, Applied,
  after_assign, change_task, update_task,
}
use balthazar.Handlers.{check_task_is_known, check_offers, handle_scheduling}
use balthazar.Consensus.{unwrap_then, handle, check_and_apply_proposal}
use balthazar.Consensus.Run.{run_changes}
use balthazar.Consensus.Accepted.{accepted_updates}
use balthazar.Consensus.Grants.{
  Grant, grant_change, offers-fresh, sorted, updates, Fits, granted-Assigns, incomplete_of,
}
use balthazar.Consensus.Granted.{change-granted}

-- A change that fails is a panic of the loop.
failed_step :
    (r : Applied Task) (rest : Task → Applied Task) {e : ProposalError}
    → r.2 ≡ err e
    → (unwrap_then r rest).2 ≡ panic
failed_step (t, effects, done u) rest h = cc
failed_step (t, effects, err e) rest h = refl
failed_step (t, effects, panic) rest h = refl

module _ (env : Env) (id : TaskId) (address : Address) where
  failed_assign :
      (w : PeerId) (t : Task) (r : TaskCompleteness × Option AssignError) {e : AssignError}
      → r.1 ≡ some e
      → (after_assign id w t r).2 ≡ err (assign_failed e)
  unfolding after_assign
  failed_assign w t (c, none) h = cc
  failed_assign w t (c, some e) h = ground arith

  -- The second of two grants for one worker fails, and so does the loop over the changes.
  run_granted_twice :
      (t : Task) (g h : Grant) (rest : List StateChange)
      → Fits t.completeness (g ∷ [])
      → g.worker ≡ h.worker
      → (run_changes env id address t (grant_change g ∷ grant_change h ∷ rest)).2 ≡ panic
  unfolding run_changes change_task after_assign
  run_granted_twice t g h rest fits same =
      let ok' = granted-Assigns env.now t.completeness g [] fits in
      let c = (fill_slot env.now g.worker g.manager g.payment_info t.completeness).0 in
      let self : (g.worker == h.worker) ≡ true = ground arith in
      let has : get_substate h.worker c
          ≡ some (new_assigned env.now g.worker g.manager g.payment_info) =
        get_substate-assign env.now g.worker g.manager g.payment_info t.completeness h.worker ok'
        ∙ rw self refl in
      rw (incomplete_of t.completeness fits.free.1, change-granted env id address t g ok')
        (elim (Option-cases (fill_slot env.now h.worker h.manager h.payment_info c).1) [
          | inl e ↦
              let (k, nb, none') = (assign_iff env.now h.worker h.manager h.payment_info c).0 e in
              absurd cc
          | inr (e, is) ↦ elim (Bool-cases (is_incomplete c)) [
            | inl i ↦ rw i (
                failed_step
                  (after_assign id h.worker (record t { completeness = c })
                    (fill_slot env.now h.worker h.manager h.payment_info c))
                  (λ t'. run_changes env id address t' rest)
                  (failed_assign h.worker (record t { completeness = c })
                    (fill_slot env.now h.worker h.manager h.payment_info c) is))
            | inr i ↦ rw i refl
          ]
        ])

twice-Fits :
    (env : Env) (s : SharedState) (id : TaskId) (t : Task) (offers : List Offer) (g h : Grant)
    (gs : List Grant)
    → lookup id s.tasks ≡ some t
    → handle_scheduling env s id offers ≡ done (map grant_change (g ∷ h ∷ gs))
    → Fits t.completeness (g ∷ [])
unfolding handle_scheduling check_task_is_known
twice-Fits env s id t offers g h gs known taken =
    elim (Option-cases (get_nb_unassigned t.completeness)) [
      | inl e ↦ absurd (ground arith)
      | inr (nb, e) ↦
          let checked : check_offers env id t (take nb offers)
              ≡ done (map grant_change (g ∷ h ∷ gs)) =
            ground arith in
          let (fresh, long, offered) =
            offers-fresh env id t (take nb offers) (g ∷ h ∷ gs) checked in
          record {
            free = (nb, e, omega (arith, long, length-take nb offers));
            fresh = (fresh.0, tt);
            distinct = (tt, tt);
          }
    ]

-- A scheduling proposal that its handler accepts, with one worker in the first two offers, makes
-- the node panic: the second assignment fails, where the code unwraps.
pub scheduling_twice_panics :
    (env : Env) (s : SharedState) (p : Proposal) (id : TaskId) (t : Task) (offers : List Offer)
    (g h : Grant) (gs : List Grant)
    → length p.payment_address ≡ address_size
    → from_bytes env.formats p.task_id ≡ ok id
    → p.proposal ≡ some (ProposalKind.scheduling offers)
    → lookup id s.tasks ≡ some t
    → handle_scheduling env s id offers ≡ done (map grant_change (g ∷ h ∷ gs))
    → g.worker ≡ h.worker
    → (check_and_apply_proposal env s p).2 ≡ panic
unfolding handle update_task
scheduling_twice_panics env s p id t offers g h gs long read is known taken same =
    let fits = twice-Fits env s id t offers g h gs known taken in
    let cs = map grant_change (g ∷ h ∷ gs) in
    ap (λ (r : Applied SharedState). r.2)
      (accepted_updates env s p id t (ProposalKind.scheduling offers) cs long read is taken known
          (rw (sorted (g ∷ h ∷ gs)) (updates (g ∷ h ∷ gs)))
        ∙ ap (λ cs. update_task id s (run_changes env id p.payment_address t cs))
            (sorted (g ∷ h ∷ gs)))
    ∙ run_granted_twice env id p.payment_address t g h (map grant_change gs ++ add_manager ∷ [])
        fits same
