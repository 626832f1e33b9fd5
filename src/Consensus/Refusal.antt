-- ===== src/Consensus/Refusal.antt =====
-- Lemmas on refused proposals, `check_and_apply_proposal` of balthalib/src/node/shared_state.rs.
use balthazar.Prelude.{◌≡◌, refl, Bool, true, false, Option, none, some, List, [], sort_by}
use balthazar.Ids.{Address}
use balthazar.Ids.HashId.{TaskId, IdResult, ok, from_bytes}
use balthazar.Task.{SharedState}
use balthazar.Proposal.{ProposalKind, Proposal}
use balthazar.Change.{
  Env, Outcome, done, err, panic, StateChange, Applied, ProposalError, ◌>>=◌, ◌>>◌,
}
use balthazar.Handlers.{try_bytes_to_address, or_err, require}
use balthazar.Consensus.{
  handle, log_res, decide_and_apply, apply_proposal, on_kind, on_task_id, on_address,
  check_and_apply_proposal,
}

abbrev pub is_err {ℓ} : {A : Type ℓ} → Outcome A → Bool
is_err (done a) = false
is_err (err e) = true
is_err panic = false

-- The state as it was, nothing sent, no panic.
abbrev pub unchanged : SharedState → Applied SharedState
unchanged s = (s, [], done tt)

refused :
    (env : Env) (s : SharedState) (id : TaskId) (address : Address) (o : Outcome (List StateChange))
    → is_err o ≡ true
    → decide_and_apply env id address s (log_res o) ≡ unchanged s
unfolding decide_and_apply log_res sort_by
refused env s id address (done cs) h = cc
refused env s id address (err e) h = refl
refused env s id address panic h = cc

on_kind_refused :
    (env : Env) (s : SharedState) (id : TaskId) (address : Address) (o : Option ProposalKind)
    → ((kind : ProposalKind) → o ≡ some kind → is_err (handle env s id kind) ≡ true)
    → on_kind env s id address o ≡ unchanged s
unfolding on_kind apply_proposal
on_kind_refused env s id address none h = refl
on_kind_refused env s id address (some kind) h =
    refused env s id address (handle env s id kind) (h kind refl)

on_task_id_refused :
    (env : Env) (s : SharedState) (address : Address) (o : Option ProposalKind) (r : IdResult)
    → ((id : TaskId)
        → r ≡ ok id
        → (kind : ProposalKind) → o ≡ some kind
        → is_err (handle env s id kind) ≡ true)
    → on_task_id env s address o r ≡ unchanged s
unfolding on_task_id
on_task_id_refused env s address o (ok id) h = on_kind_refused env s id address o (h id refl)
on_task_id_refused env s address o (IdResult.err e) h = refl

on_address_refused :
    (env : Env) (s : SharedState) (p : Proposal) (o : Option Address)
    → ((id : TaskId)
        → from_bytes env.formats p.task_id ≡ ok id
        → (kind : ProposalKind) → p.proposal ≡ some kind
        → is_err (handle env s id kind) ≡ true)
    → on_address env s p o ≡ unchanged s
unfolding on_address
on_address_refused env s p none h = refl
on_address_refused env s p (some address) h =
    on_task_id_refused env s address p.proposal (from_bytes env.formats p.task_id) h

-- Where the handler refuses the proposal for every task id that its bytes may stand for, the node
-- keeps its state, sends nothing and does not panic.
pub check_and_apply_proposal_refused :
    (env : Env) (s : SharedState) (p : Proposal)
    → ((id : TaskId)
        → from_bytes env.formats p.task_id ≡ ok id
        → (kind : ProposalKind) → p.proposal ≡ some kind
        → is_err (handle env s id kind) ≡ true)
    → check_and_apply_proposal env s p ≡ unchanged s
unfolding check_and_apply_proposal
check_and_apply_proposal_refused env s p h =
    on_address_refused env s p (try_bytes_to_address p.payment_address) h

-- How a refusal reaches the end of a handler.
pub is_err-or_err {ℓ κ} :
    {A : Type ℓ} {B : Type κ} (e : ProposalError) (o : Option A) (f : A → Outcome B)
    → ((a : A) → is_err (f a) ≡ true)
    → is_err (or_err e o >>= f) ≡ true
is_err-or_err e none f h = refl
is_err-or_err e (some a) f h = h a

pub is_err-require {ℓ} :
    {B : Type ℓ} (b : Bool) (e : ProposalError) (k : Outcome B)
    → (b ≡ true → is_err k ≡ true)
    → is_err (require b e >> k) ≡ true
is_err-require true e k h = h refl
is_err-require false e k h = refl
