-- ===== src/Behaviour/Loop.antt =====
-- `poll` of the behaviour (balthernet/src/balthazar/mod.rs): the pings, then the queue of events.
use balthazar.Prelude.{
  ℕ, zero, suc, ◌+◌, true, Option, none, some, List, [], ◌∷◌, ◌++◌, map, nat_eq, any, length,
  is_none, if◌then◌else◌,
}
use balthazar.Ids.{PeerId}
use balthazar.Message.{NodeType, HandlerIn, filter_map}
use balthazar.Connection.{Poll, ready, pending}
use balthazar.Authorization.{Multiaddrs}
use balthazar.Behaviour.{
  EventOut, Action, notify_handler, dial_peer, Link, Outcome, done, deadlocked, panicked,
  out_of_rounds, NodeTypeData, Peer, InternalEvent, BalthBehaviour, node_type_of, peer_at, set_peer,
  get_peer_or_insert, inject_generate_event, count_query, WorkerData, send_to_peer_or_dial,
  inject_send_to_peer_or_dial,
}
use balthazar.Behaviour.Events.{
  Check, timed_out, ping, continuing, check_manager_worker_relationship,
  break_worker_manager_relationship,
}
use balthazar.Behaviour.Dispatch.{handler_event}

-- A check of a relationship that something is to be done about.
abbrev pub due : PeerId → Check → Option (PeerId × Check)
due i continuing = none
due i c = some (i, c)

module _ {A : Type 0} where
  unfoldable pub check_manager :
      ℕ → ℕ → ℕ → WorkerData A → Option (PeerId × Link) → NodeTypeData A × List (PeerId × Check)
  check_manager now interval timeout d none = (NodeTypeData.worker d, [])
  check_manager now interval timeout d (some (i, l)) =
      let c = check_manager_worker_relationship now interval timeout l in
      (NodeTypeData.worker (record d { manager = some (i, c.1) }), (i, c.0) ∷ [])

  -- The relationships after their checks, and what is to be done.
  unfoldable pub check_all : ℕ → ℕ → ℕ → NodeTypeData A → NodeTypeData A × List (PeerId × Check)
  unfolding check_manager filter_map
  check_all now interval timeout (NodeTypeData.manager d) = (
    NodeTypeData.manager (record d {
      workers =
          map (λ e. (e.0, (check_manager_worker_relationship now interval timeout e.1).1))
            d.workers;
    }),
    filter_map (λ e. due e.0 (check_manager_worker_relationship now interval timeout e.1).0)
        d.workers,
  )
  check_all now interval timeout (NodeTypeData.worker d) =
      check_manager now interval timeout d d.manager

  unfoldable pub report_timed_out :
      PeerId → BalthBehaviour A → Option NodeType → Outcome (BalthBehaviour A)
  report_timed_out i b none = panicked
  report_timed_out i b (some NodeType.manager) =
      done (inject_generate_event (EventOut.worker_timed_out i) b)
  report_timed_out i b (some NodeType.worker) =
      done (inject_generate_event (EventOut.manager_timed_out i) b)

  -- What is done about the check of one peer.
  unfoldable pub act_on : ℕ → PeerId → Check → BalthBehaviour A → Outcome (BalthBehaviour A)
  unfolding report_timed_out
  act_on now i timed_out b =
      let said =
        inject_send_to_peer_or_dial i (HandlerIn.manager_bye b.next_query_unique_id)
          (count_query b) in
      let broken = break_worker_manager_relationship i said.node_type_data in
      report_timed_out i (record said { node_type_data = broken.1 }) broken.0
  act_on now i ping b = done (
      inject_send_to_peer_or_dial i (HandlerIn.manager_ping b.next_query_unique_id)
        (record (count_query b) { delays = b.delays ++ (now + b.manager_timeout) ∷ [] }))
  act_on now i continuing b = done b

  unfoldable pub and_then {ℓ} :
      {B : Type ℓ} → (BalthBehaviour A → Outcome B) → Outcome (BalthBehaviour A) → Outcome B
  and_then f (done b) = f b
  and_then f deadlocked = deadlocked
  and_then f panicked = panicked
  and_then f out_of_rounds = out_of_rounds

  unfoldable pub act_on_all :
      ℕ → List (PeerId × Check) → BalthBehaviour A → Outcome (BalthBehaviour A)
  unfolding and_then
  act_on_all now [] b = done b
  act_on_all now ((i, c) ∷ cs) b = and_then (act_on_all now cs) (act_on now i c b)

  -- The pings at the start of `poll`
  unfoldable pub check_relationships : ℕ → BalthBehaviour A → Outcome (BalthBehaviour A)
  check_relationships now b =
      let c = check_all now b.manager_check_interval b.manager_timeout b.node_type_data in
      if b.is_shutting_down then done b else act_on_all now c.1 (record b { node_type_data = c.0 })

  unfoldable pub dial_once : PeerId → Peer A → BalthBehaviour A → Poll Action × BalthBehaviour A
  dial_once i p b =
      if p.dialed
      then (pending, set_peer i p b)
      else (ready (dial_peer i), set_peer i (record p { dialed = true }) b)

  unfoldable pub ask : PeerId → BalthBehaviour A → Poll Action × BalthBehaviour A
  ask i b =
      if is_none (peer_at i b).node_type
      then (
        ready (
            notify_handler i
              (HandlerIn.node_type_request (node_type_of b.node_type_data) b.next_query_unique_id)),
        count_query b,
      )
      else (pending, b)

  unfoldable pub continue :
      (BalthBehaviour A → Outcome (Poll Action × BalthBehaviour A))
      → Outcome (Poll Action × BalthBehaviour A)
      → Outcome (Poll Action × BalthBehaviour A)
  continue next (done (ready a, b)) = done (ready a, b)
  continue next (done (pending, b)) = next b
  continue next deadlocked = deadlocked
  continue next panicked = panicked
  continue next out_of_rounds = out_of_rounds

  abbrev pub as_ready : Action × BalthBehaviour A → Poll Action × BalthBehaviour A
  as_ready (a, b) = (ready a, b)

module _ (m : Multiaddrs) where
  -- `addrs.insert(address)`
  abbrev pub add_addr : m.Addr → Peer m.Addr → Peer m.Addr
  add_addr a p =
      if any (λ x. m.addr_eq x a) p.addrs then p else record p { addrs = p.addrs ++ a ∷ [] }

  -- What is done with one event of the queue.
  unfoldable pub internal_event :
      ℕ
      → InternalEvent m.Addr
      → BalthBehaviour m.Addr
      → Outcome (Poll Action × BalthBehaviour m.Addr)
  unfolding dial_once ask
  internal_event now (InternalEvent.action a) b = done (ready a, b)
  internal_event now (InternalEvent.mdns i a) b =
      let known = get_peer_or_insert i b in done (dial_once i (add_addr a (peer_at i known)) known)
  internal_event now (InternalEvent.send_message i e) b =
      done (as_ready (send_to_peer_or_dial i e b))
  internal_event now (InternalEvent.handler i e) b = handler_event m now i e b
  internal_event now (InternalEvent.ask_node_type i) b = done (ask i (get_peer_or_insert i b))

  unfoldable pub popped :
      ℕ
      → (BalthBehaviour m.Addr → Outcome (Poll Action × BalthBehaviour m.Addr))
      → BalthBehaviour m.Addr
      → List (InternalEvent m.Addr)
      → Outcome (Poll Action × BalthBehaviour m.Addr)
  unfolding continue
  popped now next b [] = done (pending, b)
  popped now next b (e ∷ es) = continue next (internal_event now e (record b { events = es }))

  -- `while let Some(internal_evt) = self.events.pop_back()`, over the rounds that are allowed
  unfoldable pub process_events :
      ℕ → ℕ → BalthBehaviour m.Addr → Outcome (Poll Action × BalthBehaviour m.Addr)
  unfolding popped
  process_events now zero b = out_of_rounds
  process_events now (suc rounds) b = popped now (process_events now rounds) b b.events

  -- One round more than there are events.
  abbrev pub process_queue :
      ℕ → BalthBehaviour m.Addr → Outcome (Poll Action × BalthBehaviour m.Addr)
  process_queue now b = process_events now (suc (length b.events)) b

  -- `poll`, over what `poll_expired` leaves of the delays
  unfoldable pub poll :
      (ℕ → List ℕ → List ℕ)
      → ℕ
      → BalthBehaviour m.Addr
      → Outcome (Poll Action × BalthBehaviour m.Addr)
  unfolding and_then
  poll expire now b =
      and_then (process_queue now)
        (check_relationships now (record b { delays = expire now b.delays }))
