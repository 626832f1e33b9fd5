-- ===== src/Scheduling/Refused.antt =====
-- The assignments that a manager proposes: balthalib/src/node/mod.rs and
-- balthalib/src/node/shared_state.rs.
use mathlib.Core.Path.{subst}
use balthazar.Prelude.{
  none, if◌then◌else◌, Option, Option-cases, ℕ, zero, suc, ◌<◌, ◌==◌, not, ◌≡◌, refl, true, false,
  some, List, [], ◌∷◌, map, take, is_empty, All, bytes_eq, arith, Bool-cases, inl, inr,
}
use balthazar.Ids.{Address, PeerId, Formats, FormatsLaws}
use balthazar.Ids.HashId.{TaskId, hash_id_eq, ok, from_bytes, to_bytes, as_bytes}
use balthazar.Completeness.{get_nb_unassigned}
use balthazar.Prelude.Assoc.{lookup}
use balthazar.Task.{Task, SharedState, get_nb_unassigned_per_task}
use balthazar.Task.Unassigned.{ArePositive, get_nb_unassigned_per_task-ArePositive}
use balthazar.Proposal.{Offer, ProposalKind}
use balthazar.Workers.{
  Workers, get_unassigned_workers, get_unassigned_workers_sorted, unreserve_all_workers,
}
use balthazar.Change.{Env, task_not_known, not_incomplete, fully_assigned}
use balthazar.Handlers.{check_offers, handle_scheduling}
use balthazar.Consensus.{handle, check_and_apply_proposal}
use balthazar.Consensus.Refusal.{
  is_err, is_err-or_err, is_err-require, unchanged, check_and_apply_proposal_refused,
}
use balthazar.Node.{NodeConfig, at_address, Config, Output, propose, execute}
use balthazar.Node.Refused.{wrong_id}
use balthazar.Scheduling.{
  offer_of, reserve_all, scheduling_proposal, schedule, propose_assignements,
}

check_offers_wrong_id :
    (env : Env) (id : TaskId) (t : Task) (nb : ℕ) (o : Offer) (os : List Offer)
    → bytes_eq o.task_id (as_bytes id) ≡ false
    → not (nb == 0) ≡ true
    → is_err (check_offers env id t (take nb (o ∷ os))) ≡ true
unfolding check_offers
check_offers_wrong_id env id t zero o os h pos = cc
check_offers_wrong_id env id t (suc k) o os h pos = rw h

handle_scheduling_wrong_id :
    (env : Env) (s : SharedState) (id : TaskId) (o : Offer) (os : List Offer)
    → bytes_eq o.task_id (as_bytes id) ≡ false
    → is_err (handle_scheduling env s id (o ∷ os)) ≡ true
unfolding handle_scheduling
handle_scheduling_wrong_id env s id o os h =
    is_err-or_err task_not_known (lookup id s.tasks) _ (λ t.
      is_err-or_err not_incomplete (get_nb_unassigned t.completeness) _ (λ nb.
        is_err-require (not (nb == 0)) fully_assigned (check_offers env id t (take nb (o ∷ os)))
          (check_offers_wrong_id env id t nb o os h)))

scheduling_refused :
    (f : Formats) (env : Env) (s : SharedState) (id id' : TaskId) (o : Offer) (os : List Offer)
    (kind : ProposalKind)
    → FormatsLaws f
    → from_bytes f (to_bytes f id) ≡ ok id'
    → o.task_id ≡ to_bytes f id
    → some (ProposalKind.scheduling (o ∷ os)) ≡ some kind
    → is_err (handle env s id' kind) ≡ true
unfolding handle
scheduling_refused f env s id id' o os kind laws back named k =
    let is : ProposalKind.scheduling (o ∷ os) ≡ kind = cc in
    subst (λ t. is_err (handle env s id' t) ≡ true) is
      (handle_scheduling_wrong_id env s id' o os (rw named (wrong_id f laws id id' back)))

-- An output that is a proposal which leaves the state as it is.
abbrev pub IsRefused : Env → SharedState → Output → Type 0
IsRefused env s (propose p) = check_and_apply_proposal env s p ≡ unchanged s
IsRefused env s (execute w t) = ⊥

module _ (c : Config) (env : Env) (s' : SharedState) (laws : FormatsLaws c.formats)
    (same : env.formats ≡ c.formats) where
  proposal_refused :
      (id : TaskId) (p : PeerId) (ps : List PeerId)
      → check_and_apply_proposal env s' (scheduling_proposal c id (p ∷ ps)) ≡ unchanged s'
  unfolding scheduling_proposal
  proposal_refused id p ps =
      check_and_apply_proposal_refused env s' (scheduling_proposal c id (p ∷ ps)) (λ id' e kind k.
        let back : from_bytes c.formats (to_bytes c.formats id) ≡ ok id' = rw same at e in
        scheduling_refused c.formats env s' id id' (offer_of c id p) (map (offer_of c id) ps) kind
          laws back refl k)

  chosen_refused :
      (id : TaskId) (nb : ℕ) (sorted : List PeerId)
      → 0 < nb
      → is_empty sorted ≡ false
      → check_and_apply_proposal env s' (scheduling_proposal c id (take nb sorted)) ≡ unchanged s'
  chosen_refused id zero sorted pos some_worker = absurd (omega arith)
  chosen_refused id (suc k) [] pos some_worker = cc
  chosen_refused id (suc k) (p ∷ ps) pos some_worker = proposal_refused id p (take k ps)

  schedule-IsRefused :
      (ws : Workers) (tasks : List (TaskId × ℕ))
      → ArePositive tasks
      → All (IsRefused env s') (schedule c ws tasks).1
  unfolding schedule
  schedule-IsRefused ws [] h = tt
  schedule-IsRefused ws ((id, nb) ∷ tasks) (pos, h) =
      elim (Bool-cases (is_empty (get_unassigned_workers_sorted ws))) [
        | inl e ↦ rw e (schedule-IsRefused ws tasks h)
        | inr e ↦
            let chosen = take nb (get_unassigned_workers_sorted ws) in
            rw e (
              chosen_refused id nb (get_unassigned_workers_sorted ws) pos e,
              schedule-IsRefused (reserve_all ws chosen) tasks h,
            )
      ]

-- What is sent; nothing if an error is returned.
abbrev pub outputs : Option (Workers × List Output) → List Output
outputs none = []
outputs (some (ws, os)) = os

assignements-IsRefused :
    (n : NodeConfig) (a : Address) (env : Env) (s s' : SharedState) (ws : Workers)
    → FormatsLaws n.formats
    → env.formats ≡ n.formats
    → All (IsRefused env s') (
        outputs (
          some (
            if is_empty (get_unassigned_workers ws)
            then (ws, [])
            else schedule
                (at_address n a)
                (unreserve_all_workers ws)
                (get_nb_unassigned_per_task s))))
assignements-IsRefused n a env s s' ws laws same =
    elim (Bool-cases (is_empty (get_unassigned_workers ws))) [
      | inl e ↦ rw e tt
      | inr e ↦ rw e (
          schedule-IsRefused (at_address n a) env s' laws same (unreserve_all_workers ws)
            (get_nb_unassigned_per_task s) (get_nb_unassigned_per_task-ArePositive s))
    ]

-- Every output of propose_assignements is a proposal that check_and_apply_proposal refuses in any
-- state, whatever the smart-contract answers: the state stays as it is and nothing is sent. It
-- supposes that both nodes use the same formats, and that these obey their documentation. (The
-- offers carry the task id with the multihash's prefix, and the handler compares them with the
-- digest alone.)
pub propose_assignements-IsRefused :
    (n : NodeConfig) (env : Env) (s s' : SharedState) (ws : Workers)
    → FormatsLaws n.formats
    → env.formats ≡ n.formats
    → All (IsRefused env s') (outputs (propose_assignements n s ws))
unfolding propose_assignements
propose_assignements-IsRefused n env s s' ws laws same = elim (Option-cases n.ethereum_address) [
  | inl e ↦ rw e tt
  | inr (a, e) ↦ rw e (assignements-IsRefused n a env s s' ws laws same)
]
