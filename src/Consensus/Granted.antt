-- ===== src/Consensus/Granted.antt =====
-- Accepted scheduling proposals: `check_and_apply_proposal` of balthalib/src/node/shared_state.rs.
use balthazar.Prelude.{
  ℕ, ◌≡◌, refl, ap, ◌∙◌, some, List, [], ◌∷◌, ◌++◌, All, map, take, length, length-take,
  Option-cases, inl, inr, arith,
}
use balthazar.Prelude.Assoc.{lookup, insert}
use balthazar.Ids.{Address, address_size}
use balthazar.Ids.HashId.{TaskId, ok, hash_id_eq, from_bytes}
use balthazar.Completeness.{get_substate, get_nb_unassigned, new_assigned, assign as fill_slot}
use balthazar.Completeness.Assignment.{Assigns}
use balthazar.Task.{Task, SharedState}
use balthazar.Proposal.{Offer, ProposalKind, Proposal}
use balthazar.Change.{
  Env, notify, assigned, done, add_manager, Applied, after_assign, change_task, update_task,
}
use balthazar.Handlers.{check_task_is_known, check_offers, handle_scheduling}
use balthazar.Consensus.{handle, check_and_apply_proposal}
use balthazar.Consensus.Run.{run_changes}
use balthazar.Consensus.Accepted.{accepted_updates}
use balthazar.Consensus.Grants.{
  AreOffered, Grant, grant_change, AreDistinct, grant_all, offers-fresh, sorted, updates, Fits,
  granted-Assigns, granted-Fits, grant_all-grants, incomplete_of,
}

module _ (env : Env) (id : TaskId) (address : Address) where
  pub change-granted :
      (t : Task) (g : Grant)
      → Assigns env.now g.worker g.manager g.payment_info t.completeness
      → change_task env id address t (grant_change g) ≡ (
        record t {
          completeness = (fill_slot env.now g.worker g.manager g.payment_info t.completeness).0;
        },
        notify id (assigned g.worker) ∷ [],
        done tt,
      )
  unfolding change_task after_assign
  change-granted t g ok' =
      ap
        (λ r.
          after_assign id g.worker t
            ((fill_slot env.now g.worker g.manager g.payment_info t.completeness).0, r))
        ok'

  run_granted :
      (t : Task) (gs : List Grant)
      → Fits t.completeness gs
      → run_changes env id address t (map grant_change gs ++ add_manager ∷ []) ≡ (
        record t {
          managers_addresses = t.managers_addresses ++ address ∷ [];
          completeness = grant_all env.now gs t.completeness;
        },
        map (λ g. notify id (assigned g.worker)) gs,
        done tt,
      )
  unfolding run_changes grant_all change_task
  run_granted t [] fits = rw (incomplete_of t.completeness fits.free.1) refl
  run_granted t (g ∷ gs) fits =
      let ok' = granted-Assigns env.now t.completeness g gs fits in
      let t' = record t {
        completeness = (fill_slot env.now g.worker g.manager g.payment_info t.completeness).0;
      } in
      rw (incomplete_of t.completeness fits.free.1, change-granted t g ok')
        (ap (λ (r : Applied Task). (r.0, notify id (assigned g.worker) ∷ r.1, r.2))
          (run_granted t' gs (granted-Fits env.now t.completeness g gs fits)))

scheduling-Fits :
    (env : Env) (s : SharedState) (id : TaskId) (t : Task) (offers : List Offer) (gs : List Grant)
    → lookup id s.tasks ≡ some t
    → handle_scheduling env s id offers ≡ done (map grant_change gs)
    → AreDistinct gs
    → Fits t.completeness gs
      × ((nb : ℕ) × (get_nb_unassigned t.completeness ≡ some nb)
          × AreOffered env (take nb offers) gs)
unfolding handle_scheduling check_task_is_known
scheduling-Fits env s id t offers gs known h distinct =
    elim (Option-cases (get_nb_unassigned t.completeness)) [
      | inl e ↦ absurd (ground arith)
      | inr (nb, e) ↦
          let checked : check_offers env id t (take nb offers) ≡ done (map grant_change gs) =
            ground arith in
          let (fresh, long, offered) = offers-fresh env id t (take nb offers) gs checked in
          (
            record {
              free = (nb, e, omega (arith, long, length-take nb offers));
              fresh = fresh;
              distinct = distinct;
            },
            (nb, e, offered),
          )
    ]

-- A scheduling proposal with a readable address and task id that its handler accepts, and whose
-- accepted offers name no worker twice, is applied without a panic: the grants are, one by one,
-- what the first offers say (worker, manager, payment address and both prices), as many as the task
-- has free slots; the task's slots are those after the grants, the manager is added to it, the node
-- is told of each worker assigned, and each of them has a slot, with its manager and its payment.
pub scheduling_granted :
    (env : Env) (s : SharedState) (p : Proposal) (id : TaskId) (t : Task) (offers : List Offer)
    (gs : List Grant)
    → length p.payment_address ≡ address_size
    → from_bytes env.formats p.task_id ≡ ok id
    → p.proposal ≡ some (ProposalKind.scheduling offers)
    → lookup id s.tasks ≡ some t
    → handle_scheduling env s id offers ≡ done (map grant_change gs)
    → AreDistinct gs
    → let c = grant_all env.now gs t.completeness in
      (check_and_apply_proposal env s p ≡ (
        record s {
          tasks =
              insert id
                (record t {
                  managers_addresses = t.managers_addresses ++ p.payment_address ∷ [];
                  completeness = c;
                })
                s.tasks;
        },
        map (λ g. notify id (assigned g.worker)) gs,
        done tt,
      ))
      × All
          (λ g.
            get_substate g.worker c ≡ some (new_assigned env.now g.worker g.manager g.payment_info))
          gs
      × ((nb : ℕ) × (get_nb_unassigned t.completeness ≡ some nb)
          × AreOffered env (take nb offers) gs)
unfolding handle update_task
scheduling_granted env s p id t offers gs long read is known taken distinct =
    let (fits, offered) = scheduling-Fits env s id t offers gs known taken distinct in
    (
      accepted_updates env s p id t (ProposalKind.scheduling offers) (map grant_change gs) long read
            is taken known (rw (sorted gs) (updates gs))
          ∙ ap (λ cs. update_task id s (run_changes env id p.payment_address t cs)) (sorted gs)
          ∙ ap (update_task id s) (run_granted env id p.payment_address t gs fits),
      grant_all-grants env.now t.completeness gs fits,
      offered,
    )
