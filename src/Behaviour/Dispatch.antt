-- ===== src/Behaviour/Dispatch.antt =====
-- What the behaviour does with an event of a connection's handler and with one from the node:
-- `handler_event`, `handle_event_in` and the swarm's callbacks of balthernet/src/balthazar/mod.rs.
use balthazar.Prelude.{
  ℕ, Bool, true, false, Option, none, some, List, [], ◌∷◌, map, nat_eq, is_none, if◌then◌else◌,
}
use balthazar.Prelude.Assoc.{lookup}
use balthazar.Ids.{PeerId}
use balthazar.Message.{HandlerIn, HandlerOut, cons_some, clone_dangerous}
use balthazar.Connection.{Poll, pending}
use balthazar.Authorization.{Multiaddrs}
use balthazar.Behaviour.{
  EventIn, EventOut, Action, notify_handler, generate_event, Link, Outcome, done, deadlocked,
  panicked, out_of_rounds, NodeTypeData, Peer, InternalEvent, BalthBehaviour, peer_at, set_peer,
  get_peer_or_insert, push_event, inject_action, inject_generate_event, count_query,
  send_to_peer_or_dial, inject_send_to_peer_or_dial, send_to_peer,
}
use balthazar.Behaviour.Events.{
  wrap_answer, manager_ping, needs_relationship_with, not_mine, manager_bye, manager_pong,
  tasks_execute, tasks_ping, tasks_pong, tasks_abord, task_status,
}
use balthazar.Behaviour.Handshake.{
  manager_request, node_type_answer, node_type_request, manager_answer,
}

abbrev pub link_peer : Option (PeerId × Link) → Option PeerId
link_peer none = none
link_peer (some (i, l)) = some i

module _ {A : Type 0} where
  abbrev pub wrapped : PeerId → HandlerIn × BalthBehaviour A → Poll Action × BalthBehaviour A
  wrapped i (e, b) = (wrap_answer i e, b)

  unfoldable pub wrapped_outcome :
      PeerId → Outcome (HandlerIn × BalthBehaviour A) → Outcome (Poll Action × BalthBehaviour A)
  wrapped_outcome i (done p) = done (wrapped i p)
  wrapped_outcome i deadlocked = deadlocked
  wrapped_outcome i panicked = panicked
  wrapped_outcome i out_of_rounds = out_of_rounds

  abbrev pub manager_of : NodeTypeData A → Option PeerId
  manager_of (NodeTypeData.manager d) = none
  manager_of (NodeTypeData.worker d) = link_peer d.manager

  unfoldable pub with_manager :
      EventIn
      → BalthBehaviour A
      → Option PeerId
      → (PeerId → Action × BalthBehaviour A)
      → Action × BalthBehaviour A
  with_manager e b none act = (generate_event (EventOut.no_manager e), b)
  with_manager e b (some i) act = act i

  -- The peers told that the node leaves, with the state once the manager is taken.
  unfoldable pub leaving : NodeTypeData A → List PeerId × NodeTypeData A
  leaving (NodeTypeData.manager d) = (map (λ e. e.0) d.workers, NodeTypeData.manager d)
  leaving (NodeTypeData.worker d) =
      (cons_some (link_peer d.manager) [], NodeTypeData.worker (record d { manager = none }))

  unfoldable pub say_bye : List PeerId → BalthBehaviour A → BalthBehaviour A
  say_bye [] b = b
  say_bye (i ∷ is) b =
      say_bye is (
        inject_send_to_peer_or_dial i (HandlerIn.manager_bye b.next_query_unique_id)
          (count_query b))

  -- A message that is to be sent at once goes through `send_to_peer`.
  unfoldable pub checked_send : Action × BalthBehaviour A → BalthBehaviour A
  checked_send (notify_handler i e, b) = inject_action (send_to_peer i e b) b
  checked_send (a, b) = inject_action a b

  -- The workers that `GetWorkers` sends through its channel.
  unfoldable pub workers_of : NodeTypeData A → Option (List PeerId)
  workers_of (NodeTypeData.manager d) = some (map (λ e. e.0) d.workers)
  workers_of (NodeTypeData.worker d) = none

  -- `handle_event_in`
  unfoldable pub handle_event_in : EventIn → BalthBehaviour A → Outcome (BalthBehaviour A)
  unfolding checked_send with_manager leaving say_bye
  handle_event_in EventIn.ping b = done (checked_send (generate_event EventOut.pong, b))
  handle_event_in (EventIn.handler i e) b = done (checked_send (notify_handler i e, b))
  handle_event_in (EventIn.tasks_execute i ts) b = done (
      checked_send (
        send_to_peer_or_dial i (HandlerIn.tasks_execute ts b.next_query_unique_id) (count_query b)))
  handle_event_in (EventIn.tasks_ping i ts) b = done (
      checked_send
        (send_to_peer_or_dial i (HandlerIn.tasks_ping ts b.next_query_unique_id) (count_query b)))
  handle_event_in (EventIn.tasks_pong ss r) b = done (
      checked_send (
        with_manager (EventIn.tasks_pong ss r) b (manager_of b.node_type_data)
          (λ i. (notify_handler i (HandlerIn.tasks_pong ss r), b))))
  handle_event_in (EventIn.task_status t s) b = done (
      checked_send (
        with_manager (EventIn.task_status t s) b (manager_of b.node_type_data) (λ i.
          send_to_peer_or_dial i (HandlerIn.task_status t s b.next_query_unique_id)
            (count_query b))))
  handle_event_in (EventIn.get_workers receiver) b = if receiver then done b else panicked
  handle_event_in EventIn.bye b =
      let l = leaving b.node_type_data in
      done (record (say_bye l.0 (record b { node_type_data = l.1 })) { is_shutting_down = true })

  unfoldable pub inject_mdns_event : PeerId → A → BalthBehaviour A → BalthBehaviour A
  inject_mdns_event i a b = push_event (InternalEvent.mdns i a) b

  -- `inject_event`
  unfoldable pub inject_handler_event : PeerId → HandlerOut → BalthBehaviour A → BalthBehaviour A
  inject_handler_event i e b = push_event (InternalEvent.handler i e) b

  unfoldable pub ask_type : PeerId → Bool → BalthBehaviour A → BalthBehaviour A
  ask_type i unknown b = if unknown then push_event (InternalEvent.ask_node_type i) b else b

  unfoldable pub send_all : PeerId → List HandlerIn → BalthBehaviour A → BalthBehaviour A
  send_all i [] b = b
  send_all i (e ∷ es) b = send_all i es (push_event (InternalEvent.send_message i e) b)

  -- `inject_connected`
  unfoldable pub inject_connected : PeerId → BalthBehaviour A → BalthBehaviour A
  unfolding ask_type send_all
  inject_connected i b =
      let known = get_peer_or_insert i b in
      let p = peer_at i known in
      inject_generate_event (EventOut.peer_connected i) (
        send_all i p.pending_messages (
          ask_type i (is_none p.node_type)
            (set_peer i (record p { connected = true; pending_messages = [] }) known)))

  unfoldable pub disconnect :
      PeerId → BalthBehaviour A → Option (Peer A) → Outcome (BalthBehaviour A)
  disconnect i b none = panicked
  disconnect i b (some p) = done (
      inject_generate_event (EventOut.peer_disconnected i)
        (set_peer i (record p { connected = false }) b))

  -- `inject_disconnected`
  unfoldable pub inject_disconnected : PeerId → BalthBehaviour A → Outcome (BalthBehaviour A)
  unfolding disconnect
  inject_disconnected i b = disconnect i b (lookup i b.peers)

  -- `addresses_of_peer`
  unfoldable pub addresses_of_peer : PeerId → BalthBehaviour A → List A
  addresses_of_peer i b = (peer_at i b).addrs

module _ (m : Multiaddrs) where
  -- `handler_event`, once the peer is known
  unfoldable pub dispatch :
      ℕ
      → PeerId
      → HandlerOut
      → BalthBehaviour m.Addr
      → Outcome (Poll Action × BalthBehaviour m.Addr)
  unfolding wrapped_outcome
  dispatch now i (HandlerOut.node_type_request t r) b =
      done (wrapped i (node_type_request m i t r b))
  dispatch now i (HandlerOut.node_type_answer t n) b = done (node_type_answer m i t b)
  dispatch now i (HandlerOut.not_mine n) b = done (not_mine i b)
  dispatch now i (HandlerOut.manager_request s r) b =
      wrapped_outcome i (manager_request now i s r b)
  dispatch now i (HandlerOut.manager_answer accepted n) b = manager_answer m now i accepted n b
  dispatch now i (HandlerOut.manager_bye r) b = done (wrapped i (manager_bye i r b))
  dispatch now i (HandlerOut.manager_ping r) b = done (
      needs_relationship_with i r (λ c. wrapped i (manager_ping r, c))
        (HandlerOut.manager_ping (clone_dangerous r)) b)
  dispatch now i (HandlerOut.manager_pong n) b = done (manager_pong now i n b)
  dispatch now i (HandlerOut.tasks_execute ts r) b = done (
      needs_relationship_with i r (λ c. wrapped i (tasks_execute ts r c))
        (HandlerOut.tasks_execute [] (clone_dangerous r)) b)
  dispatch now i (HandlerOut.tasks_ping ts r) b = done (
      needs_relationship_with i r (λ c. tasks_ping ts r c)
        (HandlerOut.tasks_ping [] (clone_dangerous r)) b)
  dispatch now i (HandlerOut.tasks_pong ss n) b = done (tasks_pong i ss n b)
  dispatch now i (HandlerOut.tasks_abord ts r) b = done (
      needs_relationship_with i r (λ c. wrapped i (tasks_abord ts r c))
        (HandlerOut.tasks_abord [] (clone_dangerous r)) b)
  dispatch now i (HandlerOut.task_status t s r) b = done (
      needs_relationship_with i r (λ c. wrapped i (task_status i t s r c))
        (HandlerOut.task_status t s (clone_dangerous r)) b)
  dispatch now i (HandlerOut.query_error e n) b =
      done (pending, inject_generate_event (EventOut.handler i (HandlerOut.query_error e n)) b)

  -- `handler_event`
  unfoldable pub handler_event :
      ℕ
      → PeerId
      → HandlerOut
      → BalthBehaviour m.Addr
      → Outcome (Poll Action × BalthBehaviour m.Addr)
  unfolding dispatch
  handler_event now i e b = dispatch now i e (get_peer_or_insert i b)
