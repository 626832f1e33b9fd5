-- ===== src/Behaviour.antt =====
-- The peers of a node and their relationships: `BalthBehaviour` of balthernet/src/balthazar/mod.rs and
-- the types of events.rs. A `PeerRc` is its peer's key in `peers`, where entries are never removed.
pub mod Locks
pub mod Events
pub mod Handshake
pub mod Dispatch
pub mod Loop
pub mod Relations
pub mod Joining
pub mod Accepting
pub mod Granting
pub mod Pings
pub mod Rounds
pub mod Told
pub mod History
pub mod Deadlock
pub mod Queueing
pub mod Answering
pub mod Replies
pub mod Meeting
pub mod Leaving
pub mod Waiting
pub mod Sending
pub mod Silence
use balthazar.Prelude.{
  ℕ, ◌+◌, ◌==◌, Bool, true, false, Option, none, some, List, [], ◌∷◌, ◌++◌, wrap64, nat_eq,
  if◌then◌else◌,
}
use balthazar.Prelude.Assoc.{Assoc, lookup, insert, or_insert}
use balthazar.Ids.{PeerId}
use balthazar.Ids.HashId.{TaskId}
use balthazar.Workers.{WorkerSpecs}
use balthazar.TaskStatus.{TaskStatus}
use balthazar.Message.{TaskExecute, NodeType, QueryId, RequestId, HandlerIn, HandlerOut}

-- `EventIn`; the flag of `get_workers` is whether the receiver of the answer still exists.
pub data EventIn : Type 0 where
  ping : EventIn
  handler : PeerId → HandlerIn → EventIn
  tasks_execute : PeerId → List TaskExecute → EventIn
  tasks_ping : PeerId → List TaskId → EventIn
  tasks_pong : List (TaskId × TaskStatus) → RequestId → EventIn
  task_status : TaskId → TaskStatus → EventIn
  get_workers : Bool → EventIn
  bye : EventIn

-- `EventOut`
pub data EventOut : Type 0 where
  peer_has_new_type : PeerId → NodeType → EventOut
  peer_connected peer_disconnected : PeerId → EventOut
  pong : EventOut
  not_mine handler : PeerId → HandlerOut → EventOut
  worker_new : PeerId → WorkerSpecs → EventOut
  worker_pong worker_timed_out worker_bye : PeerId → EventOut
  manager_new manager_refused manager_pong manager_timed_out manager_bye : PeerId → EventOut
  manager_unauthorized manager_already_has_one : PeerId → EventOut
  msg_for_incorrect_node_type : PeerId → NodeType → HandlerOut → EventOut
  msg_from_incorrect_node_type : PeerId → Option NodeType → NodeType → HandlerOut → EventOut
  peer_gives_different_node_type : PeerId → NodeType → NodeType → EventOut
  tasks_execute : List TaskExecute → EventOut
  tasks_ping : List TaskId → RequestId → EventOut
  tasks_pong : PeerId → List (TaskId × TaskStatus) → EventOut
  tasks_abord : List TaskId → EventOut
  task_status : PeerId → TaskId → TaskStatus → EventOut
  no_manager : EventIn → EventOut
  msg_dropped : PeerId → HandlerIn → EventOut

-- `NetworkBehaviourAction`; a peer is dialed on the condition that it is disconnected.
pub data Action : Type 0 where
  notify_handler : PeerId → HandlerIn → Action
  dial_peer : PeerId → Action
  generate_event : EventOut → Action

-- `NodeTypeContainer<(), Option<WorkerSpecs>>`
pub data PeerType : Type 0 where
  manager : PeerType
  worker : Option WorkerSpecs → PeerType

-- The instants of the last ping sent and of the last pong received, in nanoseconds.
pub record Link : Type 0 where
  pub last_ping : ℕ
  pub last_pong : ℕ

pub record ManagerData : Type 0 where
  pub workers : Assoc PeerId Link

-- A call returns, waits for a lock that it holds itself, panics, or has no round left.
pub data Outcome {ℓ} (B : Type ℓ) : Type ℓ where
  done : B → Outcome B
  deadlocked panicked out_of_rounds : Outcome B

-- The addresses of peers are of any type.
pub record WorkerData (A : Type 0) : Type 0 where
  pub authorized_managers : List A
  pub specs : WorkerSpecs
  pub manager : Option (PeerId × Link)

pub data NodeTypeData (A : Type 0) : Type 0 where
  manager : ManagerData → NodeTypeData A
  worker : WorkerData A → NodeTypeData A

pub record Peer (A : Type 0) : Type 0 where
  pub peer_id : PeerId
  pub addrs : List A
  pub connected : Bool
  pub dialed : Bool
  pub node_type : Option PeerType
  pub pending_messages : List HandlerIn

pub data InternalEvent (A : Type 0) : Type 0 where
  mdns : PeerId → A → InternalEvent A
  handler : PeerId → HandlerOut → InternalEvent A
  ask_node_type : PeerId → InternalEvent A
  action : Action → InternalEvent A
  send_message : PeerId → HandlerIn → InternalEvent A

-- The first of `events` is the one that `pop_back` takes; `delays` holds the instants they end.
pub record BalthBehaviour (A : Type 0) : Type 0 where
  pub node_type_data : NodeTypeData A
  pub peers : Assoc PeerId (Peer A)
  pub events : List (InternalEvent A)
  pub next_query_unique_id : QueryId
  pub manager_check_interval : ℕ
  pub manager_timeout : ℕ
  pub delays : List ℕ
  pub is_shutting_down : Bool

abbrev pub peer_type : NodeType → PeerType
peer_type NodeType.manager = manager
peer_type NodeType.worker = worker none

abbrev pub into_type : Option PeerType → Option NodeType
into_type none = none
into_type (some manager) = some NodeType.manager
into_type (some (worker s)) = some NodeType.worker

unfoldable pub is_some_link : Option Link → Bool
is_some_link none = false
is_some_link (some l) = true

unfoldable pub is_manager : PeerId → Option (PeerId × Link) → Bool
is_manager i none = false
is_manager i (some (j, l)) = j == i

-- The argument of `new`: a manager, or a worker with the managers it takes and its specifications.
pub data NodeTypeConf (A : Type 0) : Type 0 where
  manager : NodeTypeConf A
  worker : List A → WorkerSpecs → NodeTypeConf A

module _ {A : Type 0} where
  abbrev conf_data : NodeTypeConf A → NodeTypeData A
  conf_data manager = manager (record { workers = [] })
  conf_data (worker authorized s) =
      worker (record { authorized_managers = authorized; specs = s; manager = none })

  -- `new`, of the check interval and the time-out
  unfoldable pub new_behaviour : NodeTypeConf A → ℕ → ℕ → BalthBehaviour A
  new_behaviour conf interval timeout = record {
    node_type_data = conf_data conf;
    peers = [];
    events = [];
    next_query_unique_id = 0;
    manager_check_interval = interval;
    manager_timeout = timeout;
    delays = [];
    is_shutting_down = false;
  }

  abbrev pub node_type_of : NodeTypeData A → NodeType
  node_type_of (manager d) = NodeType.manager
  node_type_of (worker d) = NodeType.worker

  abbrev pub new_peer : PeerId → Peer A
  new_peer i = record {
    peer_id = i;
    addrs = [];
    connected = false;
    dialed = false;
    node_type = none;
    pending_messages = [];
  }

  abbrev pub or_new : PeerId → Option (Peer A) → Peer A
  or_new i none = new_peer i
  or_new i (some p) = p

  -- The peer behind a `PeerRc`.
  abbrev pub peer_at : PeerId → BalthBehaviour A → Peer A
  peer_at i b = or_new i (lookup i b.peers)

  abbrev pub set_peer : PeerId → Peer A → BalthBehaviour A → BalthBehaviour A
  set_peer i p b = record b { peers = insert i p b.peers }

  abbrev pub get_peer_or_insert : PeerId → BalthBehaviour A → BalthBehaviour A
  get_peer_or_insert i b = record b { peers = or_insert i (new_peer i) b.peers }

  -- `node_type_into`
  abbrev pub node_type_into : Peer A → Option NodeType
  node_type_into p = into_type p.node_type

  -- `events.push_front`
  abbrev pub push_event : InternalEvent A → BalthBehaviour A → BalthBehaviour A
  push_event e b = record b { events = b.events ++ e ∷ [] }

  abbrev pub inject_action : Action → BalthBehaviour A → BalthBehaviour A
  inject_action a b = push_event (action a) b

  abbrev pub inject_generate_event : EventOut → BalthBehaviour A → BalthBehaviour A
  inject_generate_event e b = inject_action (generate_event e) b

  -- The state after `next_query_unique_id`, which returns the old number.
  abbrev pub count_query : BalthBehaviour A → BalthBehaviour A
  count_query b = record b { next_query_unique_id = wrap64 (b.next_query_unique_id + 1) }

  unfoldable pub is_related : PeerId → NodeTypeData A → Bool
  unfolding is_some_link is_manager
  is_related i (manager d) = is_some_link (lookup i d.workers)
  is_related i (worker d) = is_manager i d.manager

  -- `is_in_relationship_with`
  unfoldable pub is_in_relationship_with : PeerId → BalthBehaviour A → Bool
  unfolding is_related
  is_in_relationship_with i b = is_related i b.node_type_data

  unfoldable pub send_or_dial : PeerId → HandlerIn → BalthBehaviour A → Action × BalthBehaviour A
  send_or_dial i e b =
      let p = peer_at i b in
      if p.connected then (notify_handler i e, b) else (
        dial_peer i,
        set_peer i (record p { pending_messages = p.pending_messages ++ e ∷ [] }) b,
      )

  -- `send_to_peer_or_dial`
  unfoldable pub send_to_peer_or_dial :
      PeerId → HandlerIn → BalthBehaviour A → Action × BalthBehaviour A
  unfolding send_or_dial
  send_to_peer_or_dial i e b =
      if b.is_shutting_down
      then (generate_event (msg_dropped i e), b)
      else send_or_dial i e (get_peer_or_insert i b)

  abbrev pub inject_send_to_peer_or_dial : PeerId → HandlerIn → BalthBehaviour A → BalthBehaviour A
  inject_send_to_peer_or_dial i e b =
      let sent = send_to_peer_or_dial i e b in inject_action sent.0 sent.1

  -- `send_to_peer`
  unfoldable pub send_to_peer : PeerId → HandlerIn → BalthBehaviour A → Action
  send_to_peer i (HandlerIn.manager_bye n) b = notify_handler i (HandlerIn.manager_bye n)
  send_to_peer i e b =
      if b.is_shutting_down then generate_event (msg_dropped i e) else notify_handler i e
