-- ===== src/Behaviour/Accepting.antt =====
-- Lemmas on `manager_request` and `manager_answer` of balthernet/src/balthazar/events.rs: whom
-- they make the node related to.
use balthazar.Prelude.{
  ℕ, ◌≡◌, refl, ap, sym, ◌∙◌, Bool, true, false, ◌⊎◌, inl, inr, Option, none, some, nat_eq, ◌==◌,
  ==_iff, if_both, Bool-cases,
}
use balthazar.Prelude.Assoc.{lookup}
use balthazar.Ids.{PeerId}
use balthazar.Workers.{WorkerSpecs}
use balthazar.Message.{NodeType, QueryId, RequestId, HandlerIn, HandlerOut}
use balthazar.Connection.{Poll}
use balthazar.Authorization.{Multiaddrs, is_manager_authorized}
use balthazar.Behaviour.{
  EventOut, Action, generate_event, PeerType, Link, ManagerData, WorkerData, NodeTypeData, Outcome,
  BalthBehaviour, node_type_of, into_type, node_type_into, peer_at, inject_generate_event,
  count_query, is_related, is_some_link, is_manager,
}
use balthazar.Behaviour.Locks.{reading, writing}
use balthazar.Behaviour.Handshake.{
  manager_request, request_to, request_of_type, manager_answer, answer_to, answer_of, answer_end,
  ping_again, take_manager,
}
use balthazar.Behaviour.Relations.{
  Narrows, Narrows-refl, Narrows-trans, Narrows-set_peer, Narrows-inject_action,
  Narrows-bookkeeping, Narrows-inject_send,
}
use balthazar.Behaviour.Joining.{other, Ends, Ends-map, is_some_link-insert, Joins, Joins-Narrows}

module _ {A : Type 0} where
  -- A peer that is known to be of the other type, and what its message begins.
  abbrev pub IsOther : PeerId → BalthBehaviour A → Type 0
  IsOther i b = node_type_into (peer_at i b) ≡ some (other (node_type_of b.node_type_data))

  -- A manager may grant the request of a peer that is known to be a worker.
  abbrev pub Granted : PeerId → BalthBehaviour A → Type 0
  Granted i b =
      (node_type_of b.node_type_data ≡ NodeType.manager)
      × (node_type_into (peer_at i b) ≡ some NodeType.worker)

  request_of_type-Joins :
      (now : ℕ) (i : PeerId) (s : WorkerSpecs) (r : RequestId) (d : ManagerData)
      (b : BalthBehaviour A) (o : Option PeerType)
      → b.node_type_data ≡ NodeTypeData.manager d
      → (peer_at i b).node_type ≡ o
      → Ends (λ x. Joins i (Granted i b) b x.1) (request_of_type now i s r d b writing o)
  unfolding request_of_type is_related
  request_of_type-Joins now i s r d b none e h = tt
  request_of_type-Joins now i s r d b (some PeerType.manager) e h = tt
  request_of_type-Joins now i s r d b (some (PeerType.worker known)) e h =
      let set =
        Narrows-set_peer i (record (peer_at i b) { node_type = some (PeerType.worker (some s)) }) b
          (λ t is. sym (ap into_type h) ∙ is) in
      record {
        same = rw e refl;
        related = λ j k. begun j (is_some_link-insert i j _ d.workers k);
        types = set.types;
        internal = (Narrows-inject_action (generate_event (EventOut.worker_new i s)) b).internal;
      }
    where
      begun :
          (j : PeerId)
          → (j ≡ i) ⊎ (is_some_link (lookup j d.workers) ≡ true)
          → (is_related j b.node_type_data ≡ true) ⊎ ((j ≡ i) × Granted i b)
      begun j (inl is) = inr (is, (rw e refl, rw h refl))
      begun j (inr there) = inl (rw e there)

  pub manager_request-Joins :
      (now : ℕ) (i : PeerId) (s : WorkerSpecs) (r : RequestId) (b : BalthBehaviour A)
      → Ends (λ x. Joins i (Granted i b) b x.1) (manager_request now i s r b)
  unfolding manager_request request_to
  manager_request-Joins now i s r b = of b.node_type_data refl
    where
      of :
          (d : NodeTypeData A)
          → b.node_type_data ≡ d
          → Ends (λ x. Joins i (Granted i b) b x.1) (request_to now i s r b d)
      of (NodeTypeData.manager d) e =
          request_of_type-Joins now i s r d b (peer_at i b).node_type e refl
      of (NodeTypeData.worker d) e = Joins-Narrows i (Granted i b) b _ (Narrows-inject_action _ b)

module _ (m : Multiaddrs) where
  -- A worker without a manager, to which the addresses that are known of the peer are authorized.
  abbrev pub Takes : PeerId → BalthBehaviour m.Addr → Type 0
  Takes i b =
      (d : WorkerData m.Addr) × (b.node_type_data ≡ NodeTypeData.worker d)
      × (d.manager ≡ none)
      × (is_manager_authorized m d.authorized_managers (some i) (peer_at i b).addrs ≡ true)

  abbrev pub Accepted : Bool → PeerId → BalthBehaviour m.Addr → Type 0
  Accepted accepted i b = (accepted ≡ true) × IsOther i b × Takes i b

  answer_end-Narrows :
      (i : PeerId) (e : EventOut) (bye : Bool) (b : BalthBehaviour m.Addr)
      → Ends (λ x. Narrows b x.1) (answer_end m i e bye b)
  unfolding answer_end
  answer_end-Narrows i e true b =
      let b' = inject_generate_event e b in
      Narrows-trans b b' (count_query b') (Narrows-inject_action (generate_event e) b)
        (Narrows-bookkeeping b' (count_query b').next_query_unique_id b'.delays b'.is_shutting_down)
  answer_end-Narrows i e false b = Narrows-refl b

  ping_again-Narrows :
      (i : PeerId) (b : BalthBehaviour m.Addr)
      → Ends (λ x. Narrows b x.1) (ping_again m i (reading 0) b)
  unfolding ping_again
  ping_again-Narrows i b =
      if_both (λ o. Ends (λ (x : Poll Action × BalthBehaviour m.Addr). Narrows b x.1) o)
        b.is_shutting_down
        (Narrows-inject_send i (HandlerIn.manager_ping b.next_query_unique_id) b (count_query b)
          (Narrows-bookkeeping b (count_query b).next_query_unique_id b.delays b.is_shutting_down))
        tt

  abbrev Answered :
      Bool → PeerId → BalthBehaviour m.Addr → Outcome (Poll Action × BalthBehaviour m.Addr) → Type 0
  Answered accepted i b o = Ends (λ x. Joins i (Accepted accepted i b) b x.1) o

  Answered-Narrows :
      (accepted : Bool) (i : PeerId) (b : BalthBehaviour m.Addr)
      (o : Outcome (Poll Action × BalthBehaviour m.Addr))
      → Ends (λ x. Narrows b x.1) o
      → Answered accepted i b o
  Answered-Narrows accepted i b o n =
      Ends-map (λ x. Narrows b x.1) (λ x. Joins i (Accepted accepted i b) b x.1) o
        (λ x. Joins-Narrows i (Accepted accepted i b) b x.1) n

  answer_end-Answered :
      (accepted : Bool) (i : PeerId) (e : EventOut) (bye : Bool) (b : BalthBehaviour m.Addr)
      → Answered accepted i b (answer_end m i e bye b)
  answer_end-Answered accepted i e bye b =
      Answered-Narrows accepted i b (answer_end m i e bye b) (answer_end-Narrows i e bye b)

  take_manager-Joins :
      (now : ℕ) (i : PeerId) (d : WorkerData m.Addr) (b : BalthBehaviour m.Addr)
      → b.node_type_data ≡ NodeTypeData.worker d
      → Accepted true i b
      → Joins i (Accepted true i b) b (take_manager m now i d b)
  unfolding take_manager is_related is_manager
  take_manager-Joins now i d b e n = record {
    same = rw e refl;
    related = λ j k. inr (sym ((==_iff i j).0 k), n);
    types = λ j t k. k;
    internal = refl;
  }

  answer_of-Joins :
      (now : ℕ) (i : PeerId) (accepted : Bool) (n : QueryId) (d : WorkerData m.Addr)
      (b : BalthBehaviour m.Addr) (man : Option (PeerId × Link)) (known : Option NodeType)
      → b.node_type_data ≡ NodeTypeData.worker d
      → d.manager ≡ man
      → node_type_into (peer_at i b) ≡ known
      → Answered accepted i b (answer_of m now i accepted n d b (reading 0) man known)
  unfolding answer_of
  answer_of-Joins now i true n d b none (some NodeType.manager) e h k =
      elim (Bool-cases
        (is_manager_authorized m d.authorized_managers (some i) (peer_at i b).addrs)) [
          | inl t ↦ rw t (take_manager-Joins now i d b e (refl, k ∙ rw e refl, (d, e, h, t)))
          | inr f ↦ rw f (answer_end-Answered true i (EventOut.manager_unauthorized i) true b)
        ]
  answer_of-Joins now i false n d b none (some NodeType.manager) e h k =
      answer_end-Answered false i (EventOut.manager_refused i) false b
  answer_of-Joins now i accepted n d b (some (j, l)) (some NodeType.manager) e h k =
      if_both (λ o. Answered accepted i b o) (j == i)
        (Answered-Narrows accepted i b (ping_again m i (reading 0) b) (ping_again-Narrows i b))
        (answer_end-Answered accepted i (EventOut.manager_already_has_one i) accepted b)
  answer_of-Joins now i accepted n d b man known e h k =
      answer_end-Answered accepted i
        (EventOut.msg_from_incorrect_node_type i known NodeType.manager
          (HandlerOut.manager_answer accepted n))
        accepted b

  pub manager_answer-Joins :
      (now : ℕ) (i : PeerId) (accepted : Bool) (n : QueryId) (b : BalthBehaviour m.Addr)
      → Ends (λ x. Joins i (Accepted accepted i b) b x.1) (manager_answer m now i accepted n b)
  unfolding manager_answer answer_to
  manager_answer-Joins now i accepted n b = of b.node_type_data refl
    where
      of :
          (d : NodeTypeData m.Addr)
          → b.node_type_data ≡ d
          → Answered accepted i b (answer_to m now i accepted n b d)
      of (NodeTypeData.worker d) e =
          answer_of-Joins now i accepted n d b d.manager (node_type_into (peer_at i b)) e refl refl
      of (NodeTypeData.manager d) e =
          answer_end-Answered accepted i
            (EventOut.msg_for_incorrect_node_type i NodeType.worker
              (HandlerOut.manager_answer accepted n))
            accepted b
