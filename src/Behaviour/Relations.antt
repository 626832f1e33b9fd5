-- ===== src/Behaviour/Relations.antt =====
-- Lemmas on the operations of `BalthBehaviour` (balthernet/src/balthazar/mod.rs): relationships
-- and peers before and after.
use balthazar.Prelude.{
  ℕ, ◌≡◌, refl, ap, sym, ◌∙◌, Bool, true, false, Option, none, some, List, [], ◌∷◌, nat_eq, ==_iff,
  ◌==◌, count_if, if◌then◌else◌, arith, if_both, Bool-cases, Option-cases, inl, inr,
}
use balthazar.Prelude.Assoc.{
  Assoc, or_insert-absent, or_insert-present, lookup, lookup-insert, lookup-remove,
}
use balthazar.Ids.{PeerId}
use balthazar.Message.{NodeType, QueryId, HandlerIn}
use balthazar.Connection.Sweep.{count_if-append}
use balthazar.Behaviour.{
  Action, send_or_dial, Link, ManagerData, WorkerData, NodeTypeData, Peer, InternalEvent,
  BalthBehaviour, node_type_of, node_type_into, new_peer, or_new, peer_at, set_peer,
  get_peer_or_insert, inject_action, is_related, is_some_link, is_manager, send_to_peer_or_dial,
  inject_send_to_peer_or_dial,
}
use balthazar.Behaviour.Events.{break_manager, break_worker, break_worker_manager_relationship}

is_some_link-if :
    (c : Bool) (o : Option Link)
    → is_some_link (if c then none else o) ≡ true
    → is_some_link o ≡ true
unfolding is_some_link
is_some_link-if true o h = cc
is_some_link-if false o h = h

module _ {A : Type 0} where
  -- An event of the queue that is still to be worked on.
  abbrev pub is_internal : InternalEvent A → Bool
  is_internal (InternalEvent.action a) = false
  is_internal _ = true

  abbrev pub internals : BalthBehaviour A → ℕ
  internals b = count_if is_internal b.events

  -- No new relationship, no type forgotten, and no new event to work on.
  pub record Narrows (b b' : BalthBehaviour A) : Type 0 where
    pub same : node_type_of b'.node_type_data ≡ node_type_of b.node_type_data
    pub related :
        (j : PeerId) → is_related j b'.node_type_data ≡ true → is_related j b.node_type_data ≡ true
    pub types :
        (j : PeerId) (t : NodeType)
        → node_type_into (peer_at j b) ≡ some t
        → node_type_into (peer_at j b') ≡ some t
    pub internal : internals b' ≡ internals b

  pub Narrows-refl : (b : BalthBehaviour A) → Narrows b b
  Narrows-refl b = record { same = refl; related = λ j h. h; types = λ j t h. h; internal = refl }

  pub Narrows-trans : (b c d : BalthBehaviour A) → Narrows b c → Narrows c d → Narrows b d
  Narrows-trans b c d n k = record {
    same = k.same ∙ n.same;
    related = λ j h. n.related j (k.related j h);
    types = λ j t h. k.types j t (n.types j t h);
    internal = k.internal ∙ n.internal;
  }

  or_new_if :
      (j : PeerId) (c : Bool) (p : Peer A) (o : Option (Peer A))
      → or_new j (if c then some p else o) ≡ (if c then p else or_new j o)
  or_new_if j true p o = refl
  or_new_if j false p o = refl

  pub peer_at-set_peer :
      (i j : PeerId) (p : Peer A) (b : BalthBehaviour A)
      → peer_at j (set_peer i p b) ≡ (if i == j then p else peer_at j b)
  peer_at-set_peer i j p b =
      ap (or_new j) (lookup-insert i j p b.peers) ∙ or_new_if j (i == j) p (lookup j b.peers)

  pub peer_at-set_peer_self :
      (i : PeerId) (p : Peer A) (b : BalthBehaviour A) → peer_at i (set_peer i p b) ≡ p
  peer_at-set_peer_self i p b = peer_at-set_peer i i p b ∙ rw ((==_iff i i).1 refl) refl

  if_new :
      (i j : PeerId) (ps : Assoc PeerId (Peer A))
      → lookup i ps ≡ none
      → (if i == j then new_peer i else or_new j (lookup j ps)) ≡ or_new j (lookup j ps)
  if_new i j ps e = elim (Bool-cases (i == j)) [
    | inl c ↦ let same : i ≡ j = (==_iff i j).0 c in rw (c, ← same, e) refl
    | inr c ↦ rw c refl
  ]

  pub peer_at-get_peer_or_insert :
      (i j : PeerId) (b : BalthBehaviour A) → peer_at j (get_peer_or_insert i b) ≡ peer_at j b
  peer_at-get_peer_or_insert i j b = elim (Option-cases (lookup i b.peers)) [
    | inl e ↦
        ap (λ ps. or_new j (lookup j ps)) (or_insert-absent i (new_peer i) b.peers e)
        ∙ peer_at-set_peer i j (new_peer i) b
        ∙ if_new i j b.peers e
    | inr (p, e) ↦ ap (λ ps. or_new j (lookup j ps)) (or_insert-present i (new_peer i) p b.peers e)
  ]

  pub Narrows-get_peer_or_insert :
      (i : PeerId) (b : BalthBehaviour A) → Narrows b (get_peer_or_insert i b)
  Narrows-get_peer_or_insert i b = record {
    same = refl;
    related = λ j h. h;
    types = λ j t h. ap node_type_into (peer_at-get_peer_or_insert i j b) ∙ h;
    internal = refl;
  }

  pub Narrows-set_peer :
      (i : PeerId) (p : Peer A) (b : BalthBehaviour A)
      → ((t : NodeType) → node_type_into (peer_at i b) ≡ some t → node_type_into p ≡ some t)
      → Narrows b (set_peer i p b)
  Narrows-set_peer i p b keeps = record {
    same = refl;
    related = λ j h. h;
    types = λ j t h. ap node_type_into (peer_at-set_peer i j p b) ∙ elim (Bool-cases (i == j)) [
      | inl e ↦ rw e (keeps t (ap (λ k. node_type_into (peer_at k b)) ((==_iff i j).0 e) ∙ h))
      | inr e ↦ rw e h
    ];
    internal = refl;
  }

  pub Narrows-inject_action : (a : Action) (b : BalthBehaviour A) → Narrows b (inject_action a b)
  Narrows-inject_action a b = record {
    same = refl;
    related = λ j h. h;
    types = λ j t h. h;
    internal = count_if-append is_internal b.events (InternalEvent.action a ∷ []) ∙ omega arith;
  }

  -- What only changes the number of the next query or the delays.
  pub Narrows-bookkeeping :
      (b : BalthBehaviour A) (n : QueryId) (ds : List ℕ) (s : Bool)
      → Narrows b (record b { next_query_unique_id = n; delays = ds; is_shutting_down = s })
  Narrows-bookkeeping b n ds s = record {
    same = refl;
    related = λ j h. h;
    types = λ j t h. h;
    internal = refl;
  }

  -- Another data on our side of the relationships.
  pub Narrows-data :
      (b : BalthBehaviour A) (d : NodeTypeData A)
      → node_type_of d ≡ node_type_of b.node_type_data
      → ((j : PeerId) → is_related j d ≡ true → is_related j b.node_type_data ≡ true)
      → Narrows b (record b { node_type_data = d })
  Narrows-data b d same related = record {
    same = same;
    related = related;
    types = λ j t h. h;
    internal = refl;
  }

  pub Narrows-inject :
      (a : Action) (b c : BalthBehaviour A) → Narrows b c → Narrows b (inject_action a c)
  Narrows-inject a b c n = Narrows-trans b c (inject_action a c) n (Narrows-inject_action a c)

  Narrows-send_or_dial :
      (i : PeerId) (e : HandlerIn) (b : BalthBehaviour A) → Narrows b (send_or_dial i e b).1
  unfolding send_or_dial
  Narrows-send_or_dial i e b =
      if_both (λ (r : Action × BalthBehaviour A). Narrows b r.1) (peer_at i b).connected
        (Narrows-refl b) (Narrows-set_peer i _ b (λ t h. h))

  pub Narrows-send_to_peer_or_dial :
      (i : PeerId) (e : HandlerIn) (b : BalthBehaviour A) → Narrows b (send_to_peer_or_dial i e b).1
  unfolding send_to_peer_or_dial
  Narrows-send_to_peer_or_dial i e b =
      if_both (λ (r : Action × BalthBehaviour A). Narrows b r.1) b.is_shutting_down (Narrows-refl b)
        (Narrows-trans b (get_peer_or_insert i b) (send_or_dial i e (get_peer_or_insert i b)).1
          (Narrows-get_peer_or_insert i b) (Narrows-send_or_dial i e (get_peer_or_insert i b)))

  pub Narrows-inject_send :
      (i : PeerId) (e : HandlerIn) (b c : BalthBehaviour A)
      → Narrows b c
      → Narrows b (inject_send_to_peer_or_dial i e c)
  Narrows-inject_send i e b c n =
      let sent = send_to_peer_or_dial i e c in
      Narrows-inject sent.0 b sent.1
        (Narrows-trans b c sent.1 n (Narrows-send_to_peer_or_dial i e c))

module _ {A : Type 0} where
  -- Breaking a relationship ends it, and no other.
  abbrev pub IsBroken : PeerId → NodeTypeData A → Option NodeType × NodeTypeData A → Type 0
  IsBroken i d (o, d') =
      (node_type_of d' ≡ node_type_of d)
      × ((j : PeerId) → is_related j d' ≡ true → is_related j d ≡ true)
      × (is_related i d' ≡ false)
      × (o ≡ (if is_related i d then some (node_type_of d) else none))

  break_manager-IsBroken :
      (i : PeerId) (d : WorkerData A) (o : Option (PeerId × Link))
      → d.manager ≡ o
      → IsBroken i (NodeTypeData.worker d) (break_manager i d o)
  unfolding break_manager is_related is_manager
  break_manager-IsBroken i d none e = rw e (refl, λ j h. h, refl, refl)
  break_manager-IsBroken i d (some (k, l)) e = elim (Bool-cases (i == k)) [
    | inl t ↦ rw (t, e) (refl, λ j h. ground arith, refl, ground (arith, ==_iff i k, ==_iff k i))
    | inr f ↦
        rw (f, e)
          (
            refl,
            λ j h. h,
            ground (arith, ==_iff i k, ==_iff k i),
            ground (arith, ==_iff i k, ==_iff k i),
          )
  ]

module _ (A : Type 0) where
  break_worker-IsBroken :
      (i : PeerId) (d : ManagerData) (o : Option Link)
      → lookup i d.workers ≡ o
      → IsBroken {A = A} i (NodeTypeData.manager d) (break_worker i d o)
  unfolding break_worker is_related is_some_link
  break_worker-IsBroken i d none e = rw e (refl, λ j h. h, refl, refl)
  break_worker-IsBroken i d (some l) e = (
    refl,
    λ j h.
        is_some_link-if (i == j) (lookup j d.workers)
          (sym (ap is_some_link (lookup-remove i j d.workers)) ∙ h),
    ap is_some_link (lookup-remove i i d.workers) ∙ ground (arith, ==_iff i i),
    rw e refl,
  )

module _ {A : Type 0} where
  -- Breaking a relationship ends it, and no other.
  pub break-IsBroken :
      (i : PeerId) (d : NodeTypeData A) → IsBroken i d (break_worker_manager_relationship i d)
  unfolding break_worker_manager_relationship
  break-IsBroken i (NodeTypeData.worker d) = break_manager-IsBroken i d d.manager refl
  break-IsBroken i (NodeTypeData.manager d) = break_worker-IsBroken A i d (lookup i d.workers) refl
