-- ===== src/Consensus/Grants.antt =====
-- Lemmas on the offers of a scheduling proposal, `handle_proposal_scheduling` of
-- balthalib/src/node/shared_state.rs.
use balthazar.Prelude.{
  ℕ, suc, ◌-◌, ◌≤◌, ◌==◌, ◌≡◌, refl, ap, ◌∙◌, true, false, none, some, List, [], ◌∷◌, ◌++◌, All,
  map, length, sort_by, sort_by_key, insert_by, arith,
}
use balthazar.Ids.{PeerId}
use balthazar.Ids.HashId.{TaskId, hash_id_eq}
use balthazar.Completeness.{
  WorkerPaymentInfo, TaskCompleteness, is_incomplete, get_substate, get_nb_unassigned, new_assigned,
  assign as fill_slot,
}
use balthazar.Completeness.Assignment.{
  Assigns, assign_iff, get_substate-assign, get_nb_unassigned-assign,
}
use balthazar.Task.{Task}
use balthazar.Proposal.{Offer}
use balthazar.Change.{
  Env, Outcome, done, err, panic, StateChange, assign, add_manager, ◌>>=◌, to_cmp_int,
}
use balthazar.Handlers.{try_bytes_to_address, check_offer, check_offers}
use balthazar.Consensus.Run.{IsUpdate}

-- What an accepted offer grants: a worker, under a manager, for a payment.
pub record Grant : Type 0 where
  pub worker : PeerId
  pub manager : PeerId
  pub payment_info : WorkerPaymentInfo

abbrev pub grant_change : Grant → StateChange
grant_change g = assign g.worker g.manager g.payment_info

-- What the offer says: a worker, its manager, and the payment.
pub record IsOffered (env : Env) (o : Offer) (g : Grant) : Type 0 where
  pub worker : env.formats.peer_from_bytes o.worker ≡ some g.worker
  pub manager : env.formats.peer_from_bytes o.workers_manager ≡ some g.manager
  pub address : try_bytes_to_address o.payment_address ≡ some g.payment_info.worker_address
  pub worker_price : o.worker_price ≡ g.payment_info.worker_price
  pub network_price : o.network_price ≡ g.payment_info.network_price

-- One grant for each offer, in their order.
abbrev pub AreOffered : Env → List Offer → List Grant → Type 0
AreOffered env [] [] = Unit
AreOffered env (o ∷ os) (g ∷ gs) = IsOffered env o g × AreOffered env os gs
AreOffered env os gs = ⊥

-- Each worker once.
abbrev pub AreDistinct : List Grant → Type 0
AreDistinct [] = Unit
AreDistinct (g ∷ gs) = All (λ h. (g.worker == h.worker) ≡ false) gs × AreDistinct gs

-- A task on which no worker of the grants has a slot.
abbrev pub AreFresh : TaskCompleteness → List Grant → Type 0
AreFresh c gs = All (λ g. get_substate g.worker c ≡ none) gs

-- The slots after the grants.
unfoldable pub grant_all : ℕ → List Grant → TaskCompleteness → TaskCompleteness
grant_all now [] c = c
grant_all now (g ∷ gs) c = grant_all now gs (fill_slot now g.worker g.manager g.payment_info c).0

offer-fresh :
    (env : Env) (id : TaskId) (t : Task) (o : Offer) (g : Grant)
    → check_offer env id t o ≡ done (grant_change g)
    → get_substate g.worker t.completeness ≡ none
unfolding check_offer
offer-fresh env id t o g h = ground arith

offer-IsOffered :
    (env : Env) (id : TaskId) (t : Task) (o : Offer) (g : Grant)
    → check_offer env id t o ≡ done (grant_change g)
    → IsOffered env o g
unfolding check_offer
offer-IsOffered env id t o g h = record {
  worker = ground arith;
  manager = ground arith;
  address = ground arith;
  worker_price = ground arith;
  network_price = ground arith;
}

-- The rounds of a loop that succeeds have succeeded.
rounds :
    (a : Outcome StateChange) (b : Outcome (List StateChange)) (r : List StateChange)
    → (a >>= λ c. b >>= λ cs. done (c ∷ cs)) ≡ done r
    → (c : StateChange) × (cs : List StateChange) × (a ≡ done c) × (b ≡ done cs) × (r ≡ c ∷ cs)
rounds (done c) (done cs) r h = (c, cs, refl, refl, cc)
rounds (done c) (err e) r h = cc
rounds (done c) panic r h = cc
rounds (err e) b r h = cc
rounds panic b r h = cc

pub offers-fresh :
    (env : Env) (id : TaskId) (t : Task) (os : List Offer) (gs : List Grant)
    → check_offers env id t os ≡ done (map grant_change gs)
    → AreFresh t.completeness gs × (length gs ≡ length os) × AreOffered env os gs
unfolding check_offers
offers-fresh env id t [] [] h = (tt, refl, tt)
offers-fresh env id t [] (g ∷ gs) h = cc
offers-fresh env id t (o ∷ os) [] h =
    let (c, cs, first, rest, is) =
      rounds (check_offer env id t o) (check_offers env id t os) [] h in
    absurd cc
offers-fresh env id t (o ∷ os) (g ∷ gs) h =
    let (c, cs, first, rest, is) =
      rounds (check_offer env id t o) (check_offers env id t os) (map grant_change (g ∷ gs)) h in
    let now : check_offer env id t o ≡ done (grant_change g) = cc in
    let later : check_offers env id t os ≡ done (map grant_change gs) = cc in
    let (fresh, long, offered) = offers-fresh env id t os gs later in
    (
      (offer-fresh env id t o g now, fresh),
      omega arith,
      (offer-IsOffered env id t o g now, offered),
    )

pub sorted :
    (gs : List Grant)
    → sort_by_key to_cmp_int (map grant_change gs ++ add_manager ∷ [])
      ≡ map grant_change gs ++ add_manager ∷ []
unfolding sort_by insert_by to_cmp_int
sorted [] = refl
sorted (g ∷ []) = refl
sorted (g ∷ h ∷ gs) = rw (sorted (h ∷ gs)) refl

pub updates : (gs : List Grant) → All IsUpdate (map grant_change gs ++ add_manager ∷ [])
updates [] = (refl, tt)
updates (g ∷ gs) = (refl, updates gs)

-- Slots for all grants: as many free ones as grants, each worker once and none with a slot yet.
pub record Fits (c : TaskCompleteness) (gs : List Grant) : Type 0 where
  pub free : (k : ℕ) × (get_nb_unassigned c ≡ some k) × (length gs ≤ k)
  pub fresh : AreFresh c gs
  pub distinct : AreDistinct gs

module _ (now : ℕ) where
  pub granted-Assigns :
      (c : TaskCompleteness) (g : Grant) (gs : List Grant)
      → Fits c (g ∷ gs)
      → Assigns now g.worker g.manager g.payment_info c
  granted-Assigns c g gs fits =
      let (k, nb, long) = fits.free in
      (assign_iff now g.worker g.manager g.payment_info c).1
        (k - 1, nb ∙ ap some (omega arith), fits.fresh.0)

  fresh-assign :
      (c : TaskCompleteness) (g : Grant) (gs : List Grant)
      → Assigns now g.worker g.manager g.payment_info c
      → All (λ h. (g.worker == h.worker) ≡ false) gs
      → AreFresh c gs
      → AreFresh (fill_slot now g.worker g.manager g.payment_info c).0 gs
  fresh-assign c g [] ok' other fresh = tt
  fresh-assign c g (h ∷ gs) ok' (ne, other) (none', fresh) = (
    get_substate-assign now g.worker g.manager g.payment_info c h.worker ok' ∙ rw ne none',
    fresh-assign c g gs ok' other fresh,
  )

  pub granted-Fits :
      (c : TaskCompleteness) (g : Grant) (gs : List Grant)
      → Fits c (g ∷ gs)
      → Fits (fill_slot now g.worker g.manager g.payment_info c).0 gs
  granted-Fits c g gs fits =
      let ok' = granted-Assigns c g gs fits in
      let (k, nb, long) = fits.free in
      let (n, before, after) =
        get_nb_unassigned-assign now g.worker g.manager g.payment_info c ok' in
      let same : k ≡ suc n = cc in
      record {
        free = (n, after, omega (arith, same));
        fresh = fresh-assign c g gs ok' fits.distinct.0 fits.fresh.1;
        distinct = fits.distinct.1;
      }

  -- A worker that is granted nothing keeps what it has.
  grant_all-others :
      (c : TaskCompleteness) (gs : List Grant) (v : PeerId)
      → Fits c gs
      → All (λ h. (h.worker == v) ≡ false) gs
      → get_substate v (grant_all now gs c) ≡ get_substate v c
  unfolding grant_all
  grant_all-others c [] v fits other = refl
  grant_all-others c (g ∷ gs) v fits (ne, other) =
      let ok' = granted-Assigns c g gs fits in
      grant_all-others (fill_slot now g.worker g.manager g.payment_info c).0 gs v
        (granted-Fits c g gs fits) other
      ∙ get_substate-assign now g.worker g.manager g.payment_info c v ok'
      ∙ rw ne refl

  reversed :
      (g : Grant) (gs : List Grant)
      → All (λ h. (g.worker == h.worker) ≡ false) gs
      → All (λ h. (h.worker == g.worker) ≡ false) gs
  reversed g [] h = tt
  reversed g (h ∷ gs) (ne, nes) = (ground arith, reversed g gs nes)

  pub grant_all-grants :
      (c : TaskCompleteness) (gs : List Grant)
      → Fits c gs
      → All
          (λ g.
            get_substate g.worker (grant_all now gs c)
            ≡ some (new_assigned now g.worker g.manager g.payment_info))
          gs
  unfolding grant_all
  grant_all-grants c [] fits = tt
  grant_all-grants c (g ∷ gs) fits =
      let ok' = granted-Assigns c g gs fits in
      let next = granted-Fits c g gs fits in
      let self : (g.worker == g.worker) ≡ true = ground arith in
      (
        grant_all-others (fill_slot now g.worker g.manager g.payment_info c).0 gs g.worker next
              (reversed g gs fits.distinct.0)
            ∙ get_substate-assign now g.worker g.manager g.payment_info c g.worker ok'
            ∙ rw self refl,
        grant_all-grants (fill_slot now g.worker g.manager g.payment_info c).0 gs next,
      )

pub incomplete_of :
    (c : TaskCompleteness) {k : ℕ} → get_nb_unassigned c ≡ some k → is_incomplete c ≡ true
unfolding get_nb_unassigned is_incomplete
incomplete_of (TaskCompleteness.incomplete ss) h = refl
incomplete_of (TaskCompleteness.definetely_failed reason) h = cc
incomplete_of (TaskCompleteness.completed r infos) h = cc
