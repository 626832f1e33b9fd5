-- ===== src/Lib.antt =====
-- Balthazar: a network of nodes that share the execution of WebAssembly tasks. Senders publish jobs
-- to a smart-contract, workers execute their tasks, and managers agree on the state of each task and
-- find workers for it.
--
-- A manager's parts, and how they interact. The peers' proposals enter `check_and_apply_proposal`,
-- which decides on changes of the shared state, sorts them and applies them one by one. Each change
-- tells the node's event loop, which keeps the slots of the node's own workers in step, sends tasks
-- to them, and turns their answers into new proposals. Whenever slots are free it proposes workers
-- for the tasks that lack some.
--
--   Ids, Ids/HashId    balthamisc/src/job.rs (HashId, DefaultHash, job_id, task_id)
--   Job                balthamisc/src/job.rs (Job)
--   Completeness       balthamisc/src/shared_state.rs (TaskCompleteness, Assigned)
--   Task               balthamisc/src/shared_state.rs (Task, SharedState)
--   Workers            balthalib/src/node/workers.rs
--   Proposal           balthaproto/src/manager.proto, worker.proto, lib.rs
--   TaskStatus         balthaproto/src/task_status.rs
--   Change             balthalib/src/node/shared_state.rs (StateChange, apply_state_change)
--   Handlers, Failure  balthalib/src/node/shared_state.rs (handle_proposal_*)
--   Consensus          balthalib/src/node/shared_state.rs (check_and_apply_proposal, log_res)
--   Node, Scheduling   balthalib/src/node/mod.rs (from handle_task_status to propose_assignements)
--   Authorization      balthernet/src/config.rs (WorkerConfig::is_manager_authorized)
--   Message            balthaproto/src/worker.proto, balthernet/src/balthazar/handler.rs (EventIn,
--                      EventOut, process_request, process_answer, the messages of inject_event)
--   Connection         balthernet/src/balthazar/handler.rs (Balthandler), handler/handler_misc.rs
--                      (SubstreamState, advance_substream); Connection/Polling has its poll
--   Behaviour          balthernet/src/balthazar/mod.rs (BalthBehaviour) and the types of events.rs
--   Behaviour/Events, Behaviour/Handshake   balthernet/src/balthazar/events.rs, a function each
--   Behaviour/Locks    the lock of a peer (PeerRc of balthernet/src/balthazar/mod.rs)
--   Behaviour/Dispatch balthernet/src/balthazar/mod.rs (handler_event, handle_event_in, callbacks)
--   Behaviour/Loop     balthernet/src/balthazar/mod.rs (poll)
--   Tests              concrete runs
-- Modules below these hold proofs. Prelude has the shared tests, lists, sorting and maps.
--
-- The network below it. A worker asks the managers that it is authorized to for a relationship, in
-- which both sides ping each other. `BalthBehaviour` keeps the peers, the relationships and a queue of
-- events, and hands messages to the `Balthandler` of a connection, which opens a substream for each
-- request and answers a peer's request on the substream that it came by.
--
-- How the code is represented. A struct is a record and an enum a data type. A method that changes
-- its object returns the new one, before its result. `Result` and `Option` are data types; a panic
-- is a value too (`panic` of `Outcome`, or `none`). A `HashMap` is an association list, in the
-- order of its insertions. `u64` numbers are natural numbers, whose sums and products are taken
-- modulo 2^64, as in a release build. A `SystemTime` is a number of nanoseconds. A `PeerId` is a
-- number. What a handler sends on its channels and to the smart-contract is a list in the order of
-- sending. The crates multihash, sha3 and libp2p are the records `Formats` and `Multiaddrs`, with
-- their documented behaviour in `FormatsLaws` and `MultiaddrsLaws`. The smart-contract's answers
-- are the record `Chain`, of which nothing is supposed. A `usize` has 64 bits. The code of a
-- task's error is a natural number. The locks of the shared state make each handler one step. In
-- the network a `PeerRc` is its peer's key, since peers are never removed. The handlers that keep
-- a guard of a peer's lock while they reach for it again carry the lock's state (Behaviour/Locks),
-- and `deadlocked` is what a call comes to that waits for its own guard. What a sink, the clock
-- and the queue of delays answer are arguments; a call reads the clock once. Two loops have fuel:
-- the loop on one substream, four rounds, since at most three steps of a substream go on at once;
-- and the loop on the queue of events, one round more than there are events, since none of its
-- rounds queues another event to be worked on. All other recursion is structural.
--
-- Not modelled: the transport and the swarm (balthernet), the smart-contract's client (balthachain) and
-- its Solidity code, the storage (balthastore), the execution of programs (balthurner, balthwasm),
-- the command line (balthacli), start-up and the event loop itself, log lines.
pub mod Prelude
pub mod Ids
pub mod Job
pub mod Completeness
pub mod Task
pub mod Workers
pub mod Proposal
pub mod TaskStatus
pub mod Change
pub mod Handlers
pub mod Failure
pub mod Consensus
pub mod Message
pub mod Connection
pub mod Behaviour
pub mod Node
pub mod Scheduling
pub mod Authorization
pub mod Tests
