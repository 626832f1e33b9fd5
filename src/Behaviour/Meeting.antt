-- ===== src/Behaviour/Meeting.antt =====
-- The handshake of a worker and a manager, on both sides: `node_type_request`, `node_type_answer`,
-- `manager_request` and `manager_answer` of balthernet/src/balthazar/events.rs.
use balthazar.Prelude.{ℕ, ◌≡◌, refl, ap, ◌∙◌, true, Option, none, some, nat_eq, ==_iff}
use balthazar.Prelude.Assoc.{insert, lookup-insert_self}
use balthazar.Ids.{PeerId}
use balthazar.Workers.{WorkerSpecs}
use balthazar.Message.{NodeType, QueryId, RequestId, HandlerIn, HandlerOut}
use balthazar.Connection.{ready}
use balthazar.Authorization.{Multiaddrs, is_manager_authorized}
use balthazar.Behaviour.{
  EventOut, generate_event, notify_handler, PeerType, ManagerData, WorkerData, NodeTypeData, done,
  BalthBehaviour, Peer, peer_type, peer_at, set_peer, get_peer_or_insert, inject_generate_event,
  count_query, is_related, is_some_link, is_manager, is_in_relationship_with,
}
use balthazar.Behaviour.Handshake.{
  manager_request, request_to, request_of_type, node_type_answer, type_answer, request_manager,
  requested, node_type_request, inject_ready, manager_answer, answer_to, answer_of, answer_end,
  take_manager,
}
use balthazar.Behaviour.Dispatch.{handler_event, dispatch, wrapped_outcome}
use balthazar.Behaviour.Relations.{peer_at-set_peer_self, peer_at-get_peer_or_insert}

module _ (m : Multiaddrs) where
  -- A peer that tells its type for the first time, once it is an entry.
  met : PeerId → NodeType → BalthBehaviour m.Addr → BalthBehaviour m.Addr
  met i t b =
      inject_generate_event (EventOut.peer_has_new_type i t)
        (set_peer i (record (peer_at i b) { node_type = some (peer_type t) }) b)

  node_type_answer-unknown :
      (i : PeerId) (t : NodeType) (b : BalthBehaviour m.Addr)
      → (peer_at i b).node_type ≡ none
      → node_type_answer m i t b
        ≡ request_manager m i (met i t b) (requested m i (peer_at i b) t b.node_type_data)
  unfolding node_type_answer type_answer met
  node_type_answer-unknown i t b e = rw e refl

  -- A manager answers a worker that it does not know.
  tell_worker :
      (now : ℕ) (i : PeerId) (r : RequestId) (d : ManagerData) (b : BalthBehaviour m.Addr)
      → b.node_type_data ≡ NodeTypeData.manager d
      → (peer_at i b).node_type ≡ none
      → dispatch m now i (HandlerOut.node_type_request NodeType.worker r) b
        ≡ done (
          ready (notify_handler i (HandlerIn.node_type_answer NodeType.manager r)),
          met i NodeType.worker b,
        )
  unfolding dispatch node_type_request inject_ready request_manager requested met
  tell_worker now i r d b e h = rw (node_type_answer-unknown i NodeType.worker b h, e) refl

  requested-authorized :
      (i : PeerId) (d : WorkerData m.Addr) (p : Peer m.Addr)
      → d.manager ≡ none
      → is_manager_authorized m d.authorized_managers (some p.peer_id) p.addrs ≡ true
      → requested m i p NodeType.manager (NodeTypeData.worker d) ≡ some d.specs
  unfolding requested
  requested-authorized i d p free auth = rw (free, auth) refl

  -- A worker asks an authorized manager.
  ask_manager :
      (now : ℕ) (i : PeerId) (n : QueryId) (d : WorkerData m.Addr) (b : BalthBehaviour m.Addr)
      → b.node_type_data ≡ NodeTypeData.worker d
      → d.manager ≡ none
      → (peer_at i b).node_type ≡ none
      → is_manager_authorized m d.authorized_managers
          (some (peer_at i b).peer_id)
          (peer_at i b).addrs
        ≡ true
      → dispatch m now i (HandlerOut.node_type_answer NodeType.manager n) b
        ≡ done (
          ready (notify_handler i (HandlerIn.manager_request d.specs b.next_query_unique_id)),
          count_query (met i NodeType.manager b),
        )
  unfolding dispatch request_manager requested met
  ask_manager now i n d b e free h auth =
      rw
        (
          node_type_answer-unknown i NodeType.manager b h,
          e,
          requested-authorized i d (peer_at i b) free auth,
        )
        refl

  granted : ℕ → PeerId → WorkerSpecs → ManagerData → BalthBehaviour m.Addr → BalthBehaviour m.Addr
  granted now i s d b =
      inject_generate_event (EventOut.worker_new i s)
        (record (set_peer i (record (peer_at i b) { node_type = some (PeerType.worker (some s)) })
          b) {
            node_type_data = NodeTypeData.manager (record d {
              workers = insert i (record { last_ping = now; last_pong = now }) d.workers;
            });
          })

  -- A manager grants the request of a worker.
  grant :
      (now : ℕ) (i : PeerId) (s : WorkerSpecs) (r : RequestId) (d : ManagerData)
      (known : Option WorkerSpecs) (b : BalthBehaviour m.Addr)
      → b.node_type_data ≡ NodeTypeData.manager d
      → (peer_at i b).node_type ≡ some (PeerType.worker known)
      → dispatch m now i (HandlerOut.manager_request s r) b
        ≡ done (ready (notify_handler i (HandlerIn.manager_answer true r)), granted now i s d b)
  unfolding dispatch manager_request request_to request_of_type wrapped_outcome granted
  grant now i s r d known b e h = simp (e, h) refl

  granted-related :
      (now : ℕ) (i : PeerId) (s : WorkerSpecs) (d : ManagerData) (b : BalthBehaviour m.Addr)
      → is_in_relationship_with i (granted now i s d b) ≡ true
  unfolding granted is_in_relationship_with is_related is_some_link
  granted-related now i s d b =
      ap is_some_link (lookup-insert_self i (record { last_ping = now; last_pong = now }) d.workers)

  -- A worker without a manager takes the authorized one that accepts.
  accept :
      (now : ℕ) (i : PeerId) (n : QueryId) (d : WorkerData m.Addr) (b : BalthBehaviour m.Addr)
      → b.node_type_data ≡ NodeTypeData.worker d
      → d.manager ≡ none
      → (peer_at i b).node_type ≡ some PeerType.manager
      → is_manager_authorized m d.authorized_managers (some i) (peer_at i b).addrs ≡ true
      → dispatch m now i (HandlerOut.manager_answer true n) b
        ≡ done (ready (generate_event (EventOut.manager_new i)), take_manager m now i d b)
  unfolding dispatch manager_answer answer_to answer_of answer_end
  accept now i n d b e free h auth = simp (e, h, free, auth) refl

  met-peer :
      (i : PeerId) (t : NodeType) (b : BalthBehaviour m.Addr)
      → peer_at i (met i t (get_peer_or_insert i b))
        ≡ record (peer_at i b) { node_type = some (peer_type t) }
  unfolding met
  met-peer i t b =
      let known = get_peer_or_insert i b in
      peer_at-set_peer_self i (record (peer_at i known) { node_type = some (peer_type t) }) known
      ∙ ap (λ (p : Peer m.Addr). record p { node_type = some (peer_type t) })
          (peer_at-get_peer_or_insert i i b)

  met-data :
      (i : PeerId) (t : NodeType) (b : BalthBehaviour m.Addr)
      → (met i t b).node_type_data ≡ b.node_type_data
  unfolding met
  met-data i t b = refl

  take_manager-related :
      (now : ℕ) (i : PeerId) (d : WorkerData m.Addr) (b : BalthBehaviour m.Addr)
      → is_in_relationship_with i (take_manager m now i d b) ≡ true
  unfolding take_manager is_in_relationship_with is_related is_manager
  take_manager-related now i d b = (==_iff i i).1 refl

  -- The four messages of a worker `w` and a manager `b`, and the states they leave.
  abbrev pub HaveMet :
      ℕ
      → PeerId
      → PeerId
      → WorkerSpecs
      → RequestId
      → RequestId
      → QueryId
      → QueryId
      → BalthBehaviour m.Addr
      → BalthBehaviour m.Addr
      → Type 0
  HaveMet now worker_id manager_id specs r s n k w b =
      (w' : BalthBehaviour m.Addr) × (w'' : BalthBehaviour m.Addr) × (b' : BalthBehaviour m.Addr)
      × (b'' : BalthBehaviour m.Addr) × (handler_event m now worker_id
            (HandlerOut.node_type_request NodeType.worker r) b
          ≡ done (
            ready (notify_handler worker_id (HandlerIn.node_type_answer NodeType.manager r)),
            b',
          ))
      × (handler_event m now manager_id (HandlerOut.node_type_answer NodeType.manager n) w
          ≡ done (
            ready (
                notify_handler manager_id (HandlerIn.manager_request specs w.next_query_unique_id)),
            w',
          ))
      × (handler_event m now worker_id (HandlerOut.manager_request specs s) b'
          ≡ done (ready (notify_handler worker_id (HandlerIn.manager_answer true s)), b''))
      × (handler_event m now manager_id (HandlerOut.manager_answer true k) w'
          ≡ done (ready (generate_event (EventOut.manager_new manager_id)), w''))
      × (is_in_relationship_with manager_id w'' ≡ true)
      × (is_in_relationship_with worker_id b'' ≡ true)

  -- A worker without a manager and a manager that do not know each other's type yet, where the
  -- addresses that the worker knows of the manager are authorized: the manager answers the worker's
  -- question for its type, the worker then asks it to be its manager, the manager accepts, the
  -- worker reports its new manager, and each is related to the other. (Also while a node is
  -- shutting down, unlike what the documentation of that flag says.)
  pub handler_event-HaveMet :
      (now : ℕ) (worker_id manager_id : PeerId) (r s : RequestId) (n k : QueryId)
      (d : WorkerData m.Addr) (e : ManagerData) (w b : BalthBehaviour m.Addr)
      → w.node_type_data ≡ NodeTypeData.worker d
      → d.manager ≡ none
      → (peer_at manager_id w).node_type ≡ none
      → (peer_at manager_id w).peer_id ≡ manager_id
      → is_manager_authorized m d.authorized_managers (some manager_id) (peer_at manager_id w).addrs
        ≡ true
      → b.node_type_data ≡ NodeTypeData.manager e
      → (peer_at worker_id b).node_type ≡ none
      → HaveMet now worker_id manager_id d.specs r s n k w b
  unfolding handler_event
  handler_event-HaveMet now worker_id manager_id r s n k d e w b is free new own auth is' new' =
      let w0 = get_peer_or_insert manager_id w in
      let b0 = get_peer_or_insert worker_id b in
      let w1 = met manager_id NodeType.manager w0 in
      let b1 = met worker_id NodeType.worker b0 in
      let w2 = get_peer_or_insert manager_id (count_query w1) in
      let b2 = get_peer_or_insert worker_id b1 in
      let same = peer_at-get_peer_or_insert manager_id manager_id w in
      let same' = peer_at-get_peer_or_insert worker_id worker_id b in
      let known =
        peer_at-get_peer_or_insert manager_id manager_id (count_query w1)
        ∙ met-peer manager_id NodeType.manager w in
      let known' =
        peer_at-get_peer_or_insert worker_id worker_id b1 ∙ met-peer worker_id NodeType.worker b in
      (
        count_query w1,
        take_manager m now manager_id d w2,
        b1,
        granted now worker_id d.specs e b2,
        tell_worker now worker_id r e b0 is' (ap (λ p. p.node_type) same' ∙ new'),
        ask_manager now manager_id n d w0 is free (ap (λ p. p.node_type) same ∙ new)
            (rw same (rw own auth)),
        grant now worker_id d.specs s e none b2 (met-data worker_id NodeType.worker b0 ∙ is')
            (ap (λ p. p.node_type) known'),
        accept now manager_id k d w2 (met-data manager_id NodeType.manager w0 ∙ is) free
            (ap (λ p. p.node_type) known) (rw known auth),
        take_manager-related now manager_id d w2,
        granted-related now worker_id d.specs e b2,
      )
