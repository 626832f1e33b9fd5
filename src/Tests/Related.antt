-- ===== src/Tests/Related.antt =====
-- Tests of the peers of a node and their relationships.
use balthazar.Prelude.{ℕ, ◌≡◌, refl, arith, Bool, true, false, Option, none, some, List, [], ◌∷◌}
use balthazar.Prelude.Assoc.{lookup, insert, or_insert}
use balthazar.Ids.{PeerId}
use balthazar.Job.{ProgramKind}
use balthazar.Workers.{WorkerSpecs}
use balthazar.Message.{NodeType, HandlerIn, HandlerOut}
use balthazar.Authorization.{is_manager_authorized}
use balthazar.Behaviour.{
  done, notify_handler, generate_event, EventOut, is_related, EventIn, ManagerData, WorkerData,
  NodeTypeData, NodeTypeConf, Peer, PeerType, BalthBehaviour, new_behaviour, send_to_peer_or_dial,
}
use balthazar.Behaviour.Dispatch.{handler_event, handle_event_in, inject_connected}
use balthazar.Behaviour.Loop.{check_relationships}
use balthazar.Behaviour.Joining.{Ends, Joins}
use balthazar.Behaviour.Granting.{Begins, handler_event-Joins}
use balthazar.Behaviour.Rounds.{IsConsistent}
use balthazar.Behaviour.History.{
  Op, told, discovered, received, connected, disconnected, polled, operate_all,
  operate_all-IsConsistent,
}
use balthazar.Behaviour.Meeting.{HaveMet, handler_event-HaveMet}
use balthazar.Behaviour.Deadlock.{is_deadlocked, blocks, handler_event-deadlocked}
use balthazar.Behaviour.Waiting.{send_each}
use balthazar.Behaviour.Sending.{run_queue, run_queue-inject_connected}
use balthazar.Behaviour.Leaving.{IsMute, handle_event_in-IsMute}
use balthazar.Behaviour.Silence.{GivesUp, check_relationships-timed_out}
use balthazar.Tests.Authorized.{numbers}

abbrev specs : WorkerSpecs
specs = record {
  worker_price = 1;
  network_price = 1;
  cpu_count = 4;
  memory = 100;
  network_speed = 10;
  supported_program_kinds = ProgramKind.wasm ∷ [];
}

-- A peer at host 3, not connected.
abbrev peer : PeerId → Option PeerType → Peer ℕ
peer i t = record {
  peer_id = i;
  addrs = 3 ∷ [];
  connected = false;
  dialed = false;
  node_type = t;
  pending_messages = [];
}

abbrev node : NodeTypeData ℕ → PeerId → Option PeerType → Bool → BalthBehaviour ℕ
node d i t leaves = record {
  node_type_data = d;
  peers = (i, peer i t) ∷ [];
  events = [];
  next_query_unique_id = 0;
  manager_check_interval = 10;
  manager_timeout = 30;
  delays = [];
  is_shutting_down = leaves;
}

-- A worker that takes the peer 7 at host 3.
abbrev free_worker : WorkerData ℕ
free_worker = record { authorized_managers = 103 ∷ []; specs = specs; manager = none }

abbrev managed_worker : WorkerData ℕ
managed_worker = record free_worker {
  manager = some (7, record { last_ping = 20; last_pong = 10 });
}

abbrev no_workers : ManagerData
no_workers = record { workers = [] }

-- Nothing is known to have ended.
abbrev keep_delays : ℕ → List ℕ → List ℕ
keep_delays now ds = ds

-- A worker meets a manager, which accepts it; then the worker leaves, and the manager is gone.
abbrev history : List (Op ℕ)
history =
    discovered 7 3
    ∷ connected 7
    ∷ polled keep_delays 1
    ∷ received 7 (HandlerOut.node_type_answer NodeType.manager 0)
    ∷ polled keep_delays 2
    ∷ polled keep_delays 2
    ∷ received 7 (HandlerOut.manager_answer true 1)
    ∷ polled keep_delays 3
    ∷ told EventIn.bye
    ∷ disconnected 7
    ∷ []

operate_all-IsConsistent_example :
    Ends
      (λ x. IsConsistent x)
      (operate_all numbers history (new_behaviour (NodeTypeConf.worker (103 ∷ []) specs) 10 30))
operate_all-IsConsistent_example =
    operate_all-IsConsistent numbers (NodeTypeConf.worker (103 ∷ []) specs) 10 30 history

handler_event-Joins_example :
    Ends
      (λ x.
        Joins 7
          (Begins numbers 7
            (HandlerOut.manager_answer true 1)
            (node (NodeTypeData.worker free_worker) 7 (some PeerType.manager) false))
          (node (NodeTypeData.worker free_worker) 7 (some PeerType.manager) false)
          x.1)
      (handler_event numbers 5 7
        (HandlerOut.manager_answer true 1)
        (node (NodeTypeData.worker free_worker) 7 (some PeerType.manager) false))
handler_event-Joins_example =
    handler_event-Joins numbers 5 7 (HandlerOut.manager_answer true 1)
      (node (NodeTypeData.worker free_worker) 7 (some PeerType.manager) false)

handler_event-HaveMet_example :
    HaveMet numbers 5 8 7 specs 1 2 3 4
      (node (NodeTypeData.worker free_worker) 7 none false)
      (node (NodeTypeData.manager no_workers) 8 none false)
unfolding lookup is_manager_authorized
handler_event-HaveMet_example =
    handler_event-HaveMet numbers 5 8 7 1 2 3 4 free_worker no_workers
      (node (NodeTypeData.worker free_worker) 7 none false)
      (node (NodeTypeData.manager no_workers) 8 none false) refl refl refl refl refl refl refl

-- A request of a peer whose type is not known.
handler_event-deadlocked_example :
    is_deadlocked (
      handler_event numbers 5 8
        (HandlerOut.manager_request specs 9)
        (node (NodeTypeData.manager no_workers) 8 none false))
    ≡ blocks 8
        (HandlerOut.manager_request specs 9)
        (node (NodeTypeData.manager no_workers) 8 none false)
handler_event-deadlocked_example =
    handler_event-deadlocked numbers 5 8 (HandlerOut.manager_request specs 9)
      (node (NodeTypeData.manager no_workers) 8 none false)

-- That request does wait, and so does a second answer of a manager.
unknown_worker_blocks :
    blocks 8
      (HandlerOut.manager_request specs 9)
      (node (NodeTypeData.manager no_workers) 8 none false)
    ≡ true
unfolding blocks lookup
unknown_worker_blocks = refl

second_answer_blocks :
    blocks 7
      (HandlerOut.manager_answer true 1)
      (node (NodeTypeData.worker managed_worker) 7 (some PeerType.manager) false)
    ≡ true
unfolding blocks lookup is_related
second_answer_blocks = refl

run_queue-inject_connected_example :
    run_queue numbers 5 4 (
      inject_connected 7 (
        send_each 7
          (HandlerIn.manager_ping 1 ∷ HandlerIn.tasks_ping [] 2 ∷ [])
          (node (NodeTypeData.worker free_worker) 7 none false)))
    ≡ done (
        notify_handler 7 (HandlerIn.node_type_request NodeType.worker 0)
        ∷ notify_handler 7 (HandlerIn.manager_ping 1)
        ∷ notify_handler 7 (HandlerIn.tasks_ping [] 2)
        ∷ generate_event (EventOut.peer_connected 7)
        ∷ [])
unfolding lookup inject_connected or_insert send_each send_to_peer_or_dial insert
run_queue-inject_connected_example =
    run_queue-inject_connected numbers 5 7
      (HandlerIn.manager_ping 1 ∷ HandlerIn.tasks_ping [] 2 ∷ [])
      (node (NodeTypeData.worker free_worker) 7 none false) refl refl refl

handle_event_in-IsMute_example :
    Ends
      (λ x. IsMute (node (NodeTypeData.worker managed_worker) 7 (some PeerType.manager) true) x)
      (handle_event_in
        (EventIn.tasks_pong [] 3)
        (node (NodeTypeData.worker managed_worker) 7 (some PeerType.manager) true))
handle_event_in-IsMute_example =
    handle_event_in-IsMute (EventIn.tasks_pong [] 3)
      (node (NodeTypeData.worker managed_worker) 7 (some PeerType.manager) true) refl

check_relationships-timed_out_example :
    GivesUp 7 (node (NodeTypeData.worker managed_worker) 7 (some PeerType.manager) false) (
      check_relationships 40
        (node (NodeTypeData.worker managed_worker) 7 (some PeerType.manager) false))
check_relationships-timed_out_example =
    check_relationships-timed_out 40 7 (record { last_ping = 20; last_pong = 10 }) managed_worker
      (node (NodeTypeData.worker managed_worker) 7 (some PeerType.manager) false) refl refl refl
      (omega arith) (omega arith)
