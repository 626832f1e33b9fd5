-- ===== src/Behaviour/Deadlock.antt =====
-- The locks of peers in the handlers of balthernet/src/balthazar/events.rs.
use balthazar.Prelude.{
  ℕ, ◌≡◌, refl, ap, ◌∙◌, Bool, true, false, inl, inr, Option, none, some, nat_eq, ◌==◌,
  if◌then◌else◌, Bool-cases, ◌&&◌, not,
}
use balthazar.Ids.{PeerId}
use balthazar.Workers.{WorkerSpecs}
use balthazar.Message.{NodeType, QueryId, RequestId, HandlerOut}
use balthazar.Connection.{Poll}
use balthazar.Authorization.{Multiaddrs, is_manager_authorized}
use balthazar.Behaviour.{
  EventOut, Action, PeerType, Link, ManagerData, WorkerData, NodeTypeData, Outcome, deadlocked,
  BalthBehaviour, into_type, node_type_into, peer_at, get_peer_or_insert, is_related, is_manager,
}
use balthazar.Behaviour.Locks.{reading, writing}
use balthazar.Behaviour.Handshake.{
  manager_request, request_to, request_of_type, manager_answer, answer_to, answer_of, answer_end,
  ping_again, take_manager,
}
use balthazar.Behaviour.Dispatch.{handler_event, dispatch, wrapped_outcome}
use balthazar.Behaviour.Relations.{peer_at-get_peer_or_insert}

abbrev pub is_deadlocked {ℓ} : {B : Type ℓ} → Outcome B → Bool
is_deadlocked deadlocked = true
is_deadlocked _ = false

module _ {A : Type 0} where
  -- We manage, and the peer is not known to be a worker.
  is_unexpected : NodeTypeData A → Option NodeType → Bool
  is_unexpected (NodeTypeData.manager d) (some NodeType.worker) = false
  is_unexpected (NodeTypeData.manager d) known = true
  is_unexpected (NodeTypeData.worker d) known = false

  -- The peer is our manager.
  is_current : PeerId → NodeTypeData A → Option NodeType → Bool
  is_current i (NodeTypeData.worker d) (some NodeType.manager) =
      is_related i (NodeTypeData.worker d)
  is_current i d known = false

  -- When a message blocks: a request of an unexpected peer, or an answer of our manager while the
  -- node is not leaving.
  unfoldable pub blocks : PeerId → HandlerOut → BalthBehaviour A → Bool
  unfolding is_unexpected is_current
  blocks i (HandlerOut.manager_request s r) b =
      is_unexpected b.node_type_data (node_type_into (peer_at i b))
  blocks i (HandlerOut.manager_answer accepted n) b =
      is_current i b.node_type_data (node_type_into (peer_at i b)) && not b.is_shutting_down
  blocks i e b = false

  request_of_type-deadlocked :
      (now : ℕ) (i : PeerId) (s : WorkerSpecs) (r : RequestId) (d : ManagerData)
      (b : BalthBehaviour A) (o : Option PeerType)
      → is_deadlocked (wrapped_outcome i (request_of_type now i s r d b writing o))
        ≡ is_unexpected (NodeTypeData.manager d) (into_type o)
  unfolding request_of_type wrapped_outcome is_unexpected
  request_of_type-deadlocked now i s r d b none = refl
  request_of_type-deadlocked now i s r d b (some PeerType.manager) = refl
  request_of_type-deadlocked now i s r d b (some (PeerType.worker known)) = refl

  request_to-deadlocked :
      (now : ℕ) (i : PeerId) (s : WorkerSpecs) (r : RequestId) (b : BalthBehaviour A)
      (d : NodeTypeData A)
      → is_deadlocked (wrapped_outcome i (request_to now i s r b d))
        ≡ is_unexpected d (node_type_into (peer_at i b))
  unfolding request_to wrapped_outcome is_unexpected
  request_to-deadlocked now i s r b (NodeTypeData.manager d) =
      request_of_type-deadlocked now i s r d b (peer_at i b).node_type
  request_to-deadlocked now i s r b (NodeTypeData.worker d) = refl

module _ (m : Multiaddrs) where
  answer_end-deadlocked :
      (i : PeerId) (e : EventOut) (bye : Bool) (b : BalthBehaviour m.Addr)
      → is_deadlocked (answer_end m i e bye b) ≡ false
  unfolding answer_end
  answer_end-deadlocked i e true b = refl
  answer_end-deadlocked i e false b = refl

  ping_again-deadlocked :
      (i : PeerId) (b : BalthBehaviour m.Addr)
      → is_deadlocked (ping_again m i (reading 0) b) ≡ not b.is_shutting_down
  unfolding ping_again
  ping_again-deadlocked i b = elim (Bool-cases b.is_shutting_down) [
    | inl e ↦ simp e refl
    | inr e ↦ simp e refl
  ]

  if-deadlocked :
      (c v : Bool) (x y : Outcome (Poll Action × BalthBehaviour m.Addr))
      → is_deadlocked x ≡ v
      → is_deadlocked y ≡ v
      → is_deadlocked (if c then x else y) ≡ v
  if-deadlocked true v x y h k = h
  if-deadlocked false v x y h k = k

  answer_of-deadlocked :
      (now : ℕ) (i : PeerId) (accepted : Bool) (n : QueryId) (d : WorkerData m.Addr)
      (b : BalthBehaviour m.Addr) (man : Option (PeerId × Link)) (known : Option NodeType)
      → d.manager ≡ man
      → is_deadlocked (answer_of m now i accepted n d b (reading 0) man known)
        ≡ (is_current i (NodeTypeData.worker d) known && not b.is_shutting_down)
  unfolding answer_of is_current is_related is_manager
  answer_of-deadlocked now i true n d b none (some NodeType.manager) h = rw h (
      if-deadlocked (is_manager_authorized m d.authorized_managers (some i) (peer_at i b).addrs)
        false (answer_end m i (EventOut.manager_new i) false (take_manager m now i d b))
        (answer_end m i (EventOut.manager_unauthorized i) true b)
        (answer_end-deadlocked i (EventOut.manager_new i) false (take_manager m now i d b))
        (answer_end-deadlocked i (EventOut.manager_unauthorized i) true b))
  answer_of-deadlocked now i false n d b none (some NodeType.manager) h =
      rw h (answer_end-deadlocked i (EventOut.manager_refused i) false b)
  answer_of-deadlocked now i accepted n d b (some (j, l)) (some NodeType.manager) h =
      elim (Bool-cases (j == i)) [
        | inl e ↦ rw (h, e) (ping_again-deadlocked i b)
        | inr e ↦
            rw (h, e) (answer_end-deadlocked i (EventOut.manager_already_has_one i) accepted b)
      ]
  answer_of-deadlocked now i accepted n d b man known h =
      answer_end-deadlocked i
        (EventOut.msg_from_incorrect_node_type i known NodeType.manager
          (HandlerOut.manager_answer accepted n))
        accepted b

  answer_to-deadlocked :
      (now : ℕ) (i : PeerId) (accepted : Bool) (n : QueryId) (b : BalthBehaviour m.Addr)
      (d : NodeTypeData m.Addr)
      → is_deadlocked (answer_to m now i accepted n b d)
        ≡ (is_current i d (node_type_into (peer_at i b)) && not b.is_shutting_down)
  unfolding answer_to is_current
  answer_to-deadlocked now i accepted n b (NodeTypeData.worker d) =
      answer_of-deadlocked now i accepted n d b d.manager (node_type_into (peer_at i b)) refl
  answer_to-deadlocked now i accepted n b (NodeTypeData.manager d) =
      answer_end-deadlocked i
        (EventOut.msg_for_incorrect_node_type i NodeType.worker
          (HandlerOut.manager_answer accepted n))
        accepted b

  dispatch-deadlocked :
      (now : ℕ) (i : PeerId) (e : HandlerOut) (b : BalthBehaviour m.Addr)
      → is_deadlocked (dispatch m now i e b) ≡ blocks i e b
  unfolding dispatch blocks manager_request manager_answer
  dispatch-deadlocked now i (HandlerOut.manager_request s r) b =
      request_to-deadlocked now i s r b b.node_type_data
  dispatch-deadlocked now i (HandlerOut.manager_answer accepted n) b =
      answer_to-deadlocked now i accepted n b b.node_type_data
  dispatch-deadlocked now i e b = refl

  blocks-known :
      (i : PeerId) (e : HandlerOut) (b : BalthBehaviour m.Addr)
      → blocks i e (get_peer_or_insert i b) ≡ blocks i e b
  unfolding blocks
  blocks-known i (HandlerOut.manager_request s r) b =
      ap (λ p. is_unexpected b.node_type_data (node_type_into p)) (peer_at-get_peer_or_insert i i b)
  blocks-known i (HandlerOut.manager_answer accepted n) b =
      ap (λ p. is_current i b.node_type_data (node_type_into p) && not b.is_shutting_down)
        (peer_at-get_peer_or_insert i i b)
  blocks-known i e b = refl

  -- The handler of a peer's message waits for a lock that it holds itself exactly if a manager gets
  -- the request of a peer that is not known to be a worker, or a worker that is not shutting down
  -- gets another answer of its own manager, which is known to be one.
  pub handler_event-deadlocked :
      (now : ℕ) (i : PeerId) (e : HandlerOut) (b : BalthBehaviour m.Addr)
      → is_deadlocked (handler_event m now i e b) ≡ blocks i e b
  unfolding handler_event
  handler_event-deadlocked now i e b =
      dispatch-deadlocked now i e (get_peer_or_insert i b) ∙ blocks-known i e b
