-- ===== src/Node/Refused.antt =====
-- The proposals that a manager builds of results: balthalib/src/node/mod.rs and
-- balthalib/src/node/shared_state.rs.
use mathlib.Core.Path.{subst}
use balthazar.Prelude.{
  Option-cases, ◌≡◌, refl, ap, ◌∙◌, sym, true, false, some, [], ◌∷◌, Bytes, bytes_eq, bytes_eq_iff,
  arith, Bool-cases, inl, inr,
}
use balthazar.Ids.{Address, PeerId, Formats, FormatsLaws}
use balthazar.Ids.HashId.{TaskId, ok, from_bytes, to_bytes, as_bytes}
use balthazar.Ids.HashId.RoundTrip.{as_bytes-ne-to_bytes}
use balthazar.Task.{SharedState}
use balthazar.TaskStatus.{TaskStatus, into_data}
use balthazar.Proposal.{Proposal, ProposalKind, ManTaskStatus}
use balthazar.Workers.{Workers}
use balthazar.Change.{Env}
use balthazar.Handlers.{handle_completed}
use balthazar.Consensus.{handle, check_and_apply_proposal}
use balthazar.Consensus.Refusal.{is_err, unchanged, check_and_apply_proposal_refused}
use balthazar.Node.{
  NodeConfig, at_address, propose, handle_task_status, completed_proposal, status_of,
}

-- The identifier read back from its encoding is the one written.
pub from_bytes-to_bytes_inv :
    (f : Formats)
    → FormatsLaws f
    → (id id' : TaskId) → from_bytes f (to_bytes f id) ≡ ok id'
    → id ≡ id'
unfolding from_bytes to_bytes
from_bytes-to_bytes_inv f laws id id' h = ground (arith, laws.multihash_round id.inner)

handle_completed_wrong_id :
    (env : Env) (s : SharedState) (id : TaskId) (m : ManTaskStatus)
    → bytes_eq m.task_id (as_bytes id) ≡ false
    → is_err (handle_completed env s id (some m)) ≡ true
unfolding handle_completed
handle_completed_wrong_id env s id m h = ground arith

pub wrong_id :
    (f : Formats)
    → FormatsLaws f
    → (id id' : TaskId) → from_bytes f (to_bytes f id) ≡ ok id'
    → bytes_eq (to_bytes f id) (as_bytes id') ≡ false
wrong_id f laws id id' h = elim (Bool-cases (bytes_eq (to_bytes f id) (as_bytes id'))) [
  | inl e ↦
      let same : id ≡ id' = from_bytes-to_bytes_inv f laws id id' h in
      absurd (
        as_bytes-ne-to_bytes f laws id
          ((bytes_eq_iff (to_bytes f id) (as_bytes id')).0 e ∙ ap as_bytes (sym same)))
  | inr e ↦ e
]

-- What `handle_task_status` proposes for a result.
proposal_for_result :
    (n : NodeConfig) (s : SharedState) (ws : Workers) (peer : PeerId) (id : TaskId) (r : Bytes)
    {ws' : Workers} {p : Proposal}
    → handle_task_status n s ws peer id (TaskStatus.completed r) ≡ some (ws', propose p ∷ [])
    → (a : Address) × (p ≡ completed_proposal (at_address n a) peer id (TaskStatus.completed r))
unfolding handle_task_status
proposal_for_result n s ws peer id r h = elim (Option-cases n.ethereum_address) [
  | inl e ↦ absurd (ground (arith, e))
  | inr (a, e) ↦ (a, ground (arith, e))
]

-- No handler takes the completion of a task under the longer encoding of its id.
completion_refused :
    (f : Formats) (env : Env) (s : SharedState) (id id' : TaskId) (m : ManTaskStatus)
    (kind : ProposalKind)
    → FormatsLaws f
    → from_bytes f (to_bytes f id) ≡ ok id'
    → m.task_id ≡ to_bytes f id
    → some (ProposalKind.completed (some m)) ≡ some kind
    → is_err (handle env s id' kind) ≡ true
unfolding handle
completion_refused f env s id id' m kind laws back named k =
    let is : ProposalKind.completed (some m) ≡ kind = cc in
    subst (λ t. is_err (handle env s id' t) ≡ true) is
      (handle_completed_wrong_id env s id' m (rw named (wrong_id f laws id id' back)))

-- The proposal that handle_task_status makes of a worker's result is refused by
-- check_and_apply_proposal in any state, whatever the smart-contract answers: the state stays as it
-- is and nothing is sent. It supposes that both nodes use the same formats, and that these obey
-- their documentation.
pub completed_refused :
    (n : NodeConfig) (env : Env) (s s' : SharedState) (ws ws' : Workers) (peer : PeerId)
    (id : TaskId) (r : Bytes) (p : Proposal)
    → FormatsLaws n.formats
    → env.formats ≡ n.formats
    → handle_task_status n s ws peer id (TaskStatus.completed r) ≡ some (ws', propose p ∷ [])
    → check_and_apply_proposal env s' p ≡ unchanged s'
unfolding completed_proposal
completed_refused n env s s' ws ws' peer id r p laws same h =
    let (a, q) = proposal_for_result n s ws peer id r h in
    let c = at_address n a in
    let m = status_of c peer id (into_data (TaskStatus.completed r)) in
    check_and_apply_proposal_refused env s' p (λ id' e kind k.
      let back : from_bytes c.formats (to_bytes c.formats id) ≡ ok id' = cc in
      completion_refused c.formats env s' id id' m kind laws back refl
        (sym (ap (λ (t : Proposal). t.proposal) q) ∙ k))
