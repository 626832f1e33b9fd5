-- ===== src/Behaviour/Handshake.antt =====
-- How a worker and a manager come to their relationship, of balthernet/src/balthazar/events.rs.
use balthazar.Prelude.{
  ℕ, ◌+◌, ◌==◌, Bool, true, false, ◌&&◌, Option, none, some, [], ◌∷◌, ◌++◌, nat_eq, is_none,
  if◌then◌else◌,
}
use balthazar.Prelude.Assoc.{insert}
use balthazar.Ids.{PeerId}
use balthazar.Workers.{WorkerSpecs}
use balthazar.Message.{clone_dangerous, NodeType, QueryId, RequestId, HandlerIn, HandlerOut}
use balthazar.Connection.{Poll, ready, pending}
use balthazar.Authorization.{Multiaddrs, is_manager_authorized}
use balthazar.Behaviour.{
  EventOut, Action, notify_handler, generate_event, PeerType, Link, ManagerData, Outcome, done,
  into_type, WorkerData, NodeTypeData, Peer, BalthBehaviour, node_type_of, peer_type,
  node_type_into, peer_at, set_peer, inject_action, inject_generate_event, count_query,
  inject_send_to_peer_or_dial,
}
use balthazar.Behaviour.Locks.{Lock, free, read, write, guarded}

unfoldable pub same_type : NodeType → NodeType → Bool
same_type NodeType.manager NodeType.manager = true
same_type NodeType.worker NodeType.worker = true
same_type _ _ = false

module _ {A : Type 0} where
  abbrev pub refuse : EventOut → RequestId → BalthBehaviour A → HandlerIn × BalthBehaviour A
  refuse e r b = (HandlerIn.manager_answer false r, inject_generate_event e b)

  -- A manager's answer, by the peer's type, under the guard that the `if let` keeps alive in both
  -- branches. The `else` branch reads the same peer.
  unfoldable pub request_of_type :
      ℕ
      → PeerId
      → WorkerSpecs
      → RequestId
      → ManagerData
      → BalthBehaviour A
      → Lock
      → Option PeerType
      → Outcome (HandlerIn × BalthBehaviour A)
  request_of_type now i specs r d b guard (some (PeerType.worker known)) = done (
    HandlerIn.manager_answer true r,
    inject_generate_event (EventOut.worker_new i specs)
        (record (set_peer i
          (record (peer_at i b) { node_type = some (PeerType.worker (some specs)) }) b) {
            node_type_data = NodeTypeData.manager (record d {
              workers = insert i (record { last_ping = now; last_pong = now }) d.workers;
            });
          }),
  )
  request_of_type now i specs r d b guard known = guarded (read guard) (λ both. done (
      refuse
        (EventOut.msg_from_incorrect_node_type i (into_type known) NodeType.worker
          (HandlerOut.manager_request specs (clone_dangerous r)))
        r b))

  unfoldable pub request_to :
      ℕ
      → PeerId
      → WorkerSpecs
      → RequestId
      → BalthBehaviour A
      → NodeTypeData A
      → Outcome (HandlerIn × BalthBehaviour A)
  unfolding request_of_type
  request_to now i specs r b (NodeTypeData.manager d) =
      guarded (write free)
        (λ guard. request_of_type now i specs r d b guard (peer_at i b).node_type)
  request_to now i specs r b (NodeTypeData.worker d) = done (
      refuse
        (EventOut.msg_for_incorrect_node_type i NodeType.manager
          (HandlerOut.manager_request specs (clone_dangerous r)))
        r b)

  -- `manager_request`
  unfoldable pub manager_request :
      ℕ
      → PeerId
      → WorkerSpecs
      → RequestId
      → BalthBehaviour A
      → Outcome (HandlerIn × BalthBehaviour A)
  unfolding request_to
  manager_request now i specs r b = request_to now i specs r b b.node_type_data

module _ (m : Multiaddrs) where
  unfoldable pub requested :
      PeerId → Peer m.Addr → NodeType → NodeTypeData m.Addr → Option WorkerSpecs
  requested i p NodeType.worker d = none
  requested i p NodeType.manager (NodeTypeData.manager d) = none
  requested i p NodeType.manager (NodeTypeData.worker d) =
      if is_none d.manager && is_manager_authorized m d.authorized_managers (some p.peer_id) p.addrs
      then some d.specs
      else none

  -- The message to a manager that is not known yet, with the state after it.
  unfoldable pub request_manager :
      PeerId → BalthBehaviour m.Addr → Option WorkerSpecs → Poll Action × BalthBehaviour m.Addr
  request_manager i b none = (pending, b)
  request_manager i b (some specs) = (
    ready (notify_handler i (HandlerIn.manager_request specs b.next_query_unique_id)),
    count_query b,
  )

  unfoldable pub type_answer :
      PeerId
      → Peer m.Addr
      → NodeType
      → BalthBehaviour m.Addr
      → Option NodeType
      → Poll Action × BalthBehaviour m.Addr
  unfolding requested request_manager same_type
  type_answer i p t b (some previous) =
      if same_type previous t
      then (pending, b)
      else (ready (generate_event (EventOut.peer_gives_different_node_type i previous t)), b)
  type_answer i p t b none =
      request_manager i
        (inject_generate_event (EventOut.peer_has_new_type i t)
          (set_peer i (record p { node_type = some (peer_type t) }) b))
        (requested i p t b.node_type_data)

  -- `node_type_answer`
  unfoldable pub node_type_answer :
      PeerId → NodeType → BalthBehaviour m.Addr → Poll Action × BalthBehaviour m.Addr
  unfolding type_answer
  node_type_answer i t b = type_answer i (peer_at i b) t b (node_type_into (peer_at i b))

  unfoldable pub inject_ready : Poll Action → BalthBehaviour m.Addr → BalthBehaviour m.Addr
  inject_ready pending b = b
  inject_ready (ready a) b = inject_action a b

  -- `node_type_request`
  unfoldable pub node_type_request :
      PeerId → NodeType → RequestId → BalthBehaviour m.Addr → HandlerIn × BalthBehaviour m.Addr
  unfolding inject_ready
  node_type_request i t r b =
      let answered = node_type_answer i t b in
      let after = inject_ready answered.0 answered.1 in
      (HandlerIn.node_type_answer (node_type_of after.node_type_data) r, after)

  -- The end of `manager_answer`: the event, and whether a `ManagerBye` goes out.
  unfoldable pub answer_end :
      PeerId
      → EventOut
      → Bool
      → BalthBehaviour m.Addr
      → Outcome (Poll Action × BalthBehaviour m.Addr)
  answer_end i e true b =
      let b' = inject_generate_event e b in
      done
        (ready (notify_handler i (HandlerIn.manager_bye b'.next_query_unique_id)), count_query b')
  answer_end i e false b = done (ready (generate_event e), b)

  -- The current manager answers again, under the guard of the `match`: unless the node is shutting
  -- down, `send_to_peer_or_dial` writes the peer.
  unfoldable pub ping_again :
      PeerId → Lock → BalthBehaviour m.Addr → Outcome (Poll Action × BalthBehaviour m.Addr)
  ping_again i guard b =
      let sent =
        inject_send_to_peer_or_dial i (HandlerIn.manager_ping b.next_query_unique_id)
          (count_query b) in
      if b.is_shutting_down
      then done (pending, sent)
      else guarded (write guard) (λ both. done (pending, sent))

  unfoldable pub take_manager :
      ℕ → PeerId → WorkerData m.Addr → BalthBehaviour m.Addr → BalthBehaviour m.Addr
  take_manager now i d b = record b {
    node_type_data =
        NodeTypeData.worker
          (record d { manager = some (i, record { last_ping = now; last_pong = now }) });
    delays = b.delays ++ (now + b.manager_check_interval) ∷ [];
  }

  unfoldable pub answer_of :
      ℕ
      → PeerId
      → Bool
      → QueryId
      → WorkerData m.Addr
      → BalthBehaviour m.Addr
      → Lock
      → Option (PeerId × Link)
      → Option NodeType
      → Outcome (Poll Action × BalthBehaviour m.Addr)
  unfolding answer_end ping_again take_manager
  answer_of now i true n d b guard none (some NodeType.manager) = guarded (read guard) (λ both.
      if is_manager_authorized m d.authorized_managers (some i) (peer_at i b).addrs
      then answer_end i (EventOut.manager_new i) false (take_manager now i d b)
      else answer_end i (EventOut.manager_unauthorized i) true b)
  answer_of now i false n d b guard none (some NodeType.manager) =
      answer_end i (EventOut.manager_refused i) false b
  answer_of now i accepted n d b guard (some (j, l)) (some NodeType.manager) =
      guarded (read guard) (λ both.
        if j == i
        then ping_again i guard b
        else answer_end i (EventOut.manager_already_has_one i) accepted b)
  answer_of now i accepted n d b guard man known = guarded (read guard) (λ both.
      answer_end i
        (EventOut.msg_from_incorrect_node_type i known NodeType.manager
          (HandlerOut.manager_answer accepted n))
        accepted b)

  unfoldable pub answer_to :
      ℕ
      → PeerId
      → Bool
      → QueryId
      → BalthBehaviour m.Addr
      → NodeTypeData m.Addr
      → Outcome (Poll Action × BalthBehaviour m.Addr)
  unfolding answer_of answer_end
  answer_to now i accepted n b (NodeTypeData.worker d) =
      guarded (read free)
        (λ guard. answer_of now i accepted n d b guard d.manager (node_type_into (peer_at i b)))
  answer_to now i accepted n b (NodeTypeData.manager d) =
      answer_end i
        (EventOut.msg_for_incorrect_node_type i NodeType.worker
          (HandlerOut.manager_answer accepted n))
        accepted b

  -- `manager_answer`
  unfoldable pub manager_answer :
      ℕ
      → PeerId
      → Bool
      → QueryId
      → BalthBehaviour m.Addr
      → Outcome (Poll Action × BalthBehaviour m.Addr)
  unfolding answer_to
  manager_answer now i accepted n b = answer_to now i accepted n b b.node_type_data
