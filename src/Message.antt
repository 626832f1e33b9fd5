-- ===== src/Message.antt =====
-- The messages between a worker and its manager (balthaproto/src/worker.proto), and the events of a
-- connection's handler that stand for them (balthernet/src/balthazar/handler.rs).
pub mod Delivery
use Prim.Native.String.{String}
use balthazar.Prelude.{ℕ, ◌==◌, Bool, Option, none, some, List, [], ◌∷◌, Bytes, map, if◌then◌else◌}
use balthazar.Ids.{Formats}
use balthazar.Ids.HashId.{TaskId, IdResult, ok, from_bytes, to_bytes}
use balthazar.Job.{ProgramKind}
use balthazar.Workers.{WorkerSpecs}
use balthazar.Proposal.{StatusData, StatusMsg}
use balthazar.TaskStatus.{TaskStatus, from_option, into_data}

-- `tasks_execute::TaskExecute`
pub record TaskExecute : Type 0 where
  pub task_id : Bytes
  pub program_addresses : List String
  pub program_hash : Bytes
  pub program_kind : ProgramKind
  pub argument : Bytes
  pub timeout : ℕ
  pub max_network_usage : ℕ

pub data NodeType : Type 0 where
  manager worker : NodeType

-- `NodeType::from_i32`, its inverse and `NodeType::default`, generated from worker.proto
unfoldable pub node_type_from_i32 : ℕ → Option NodeType
node_type_from_i32 n = if n == 0 then some manager else if n == 1 then some worker else none

unfoldable pub node_type_into_i32 : NodeType → ℕ
node_type_into_i32 manager = 0
node_type_into_i32 worker = 1

abbrev pub default_node_type : NodeType
default_node_type = manager

-- `ProgramKind::from_i32` and its inverse, generated from worker.proto
unfoldable pub program_kind_from_i32 : ℕ → Option ProgramKind
program_kind_from_i32 n = if n == 0 then some ProgramKind.wasm else none

unfoldable pub program_kind_into_i32 : ProgramKind → ℕ
program_kind_into_i32 ProgramKind.wasm = 0

pub record ManagerRequestMsg : Type 0 where
  pub worker_price : ℕ
  pub network_price : ℕ
  pub cpu_count : ℕ
  pub memory : ℕ
  pub network_speed : ℕ
  pub supported_program_kinds : List ℕ

-- `worker_msg_wrapper::Msg`
pub data WorkerMsg : Type 0 where
  node_type_request : ℕ → WorkerMsg
  node_type_answer : ℕ → WorkerMsg
  not_mine : WorkerMsg
  ack : WorkerMsg
  manager_request : ManagerRequestMsg → WorkerMsg
  manager_answer : Bool → WorkerMsg
  manager_bye : WorkerMsg
  manager_ping : WorkerMsg
  manager_pong : WorkerMsg
  tasks_execute : List TaskExecute → WorkerMsg
  tasks_ping : List Bytes → WorkerMsg
  tasks_pong : List StatusMsg → WorkerMsg
  tasks_abord : List Bytes → WorkerMsg
  task_status : StatusMsg → WorkerMsg

-- A `RequestId` is the identifier of its connection, and the user data of a query its number.
abbrev pub RequestId : Type 0
RequestId = ℕ

abbrev pub QueryId : Type 0
QueryId = ℕ

-- `RequestId::dummy_dangerous`, and `clone_dangerous`, which gives the dummy whatever it is called on.
abbrev pub dummy_dangerous : RequestId
dummy_dangerous = 0

abbrev pub clone_dangerous : RequestId → RequestId
clone_dangerous r = dummy_dangerous

-- `handler::EventIn`
pub data HandlerIn : Type 0 where
  node_type_request : NodeType → QueryId → HandlerIn
  node_type_answer : NodeType → RequestId → HandlerIn
  not_mine : RequestId → HandlerIn
  ack : RequestId → HandlerIn
  manager_request : WorkerSpecs → QueryId → HandlerIn
  manager_answer : Bool → RequestId → HandlerIn
  manager_bye : QueryId → HandlerIn
  manager_ping : QueryId → HandlerIn
  manager_pong : RequestId → HandlerIn
  tasks_execute : List TaskExecute → QueryId → HandlerIn
  tasks_ping : List TaskId → QueryId → HandlerIn
  tasks_pong : List (TaskId × TaskStatus) → RequestId → HandlerIn
  tasks_abord : List TaskId → QueryId → HandlerIn
  task_status : TaskId → TaskStatus → QueryId → HandlerIn

-- `BalthandlerQueryErr`, with the one kind of `io::Error` that the handler makes itself
pub data QueryErr : Type 0 where
  upgrade unexpected_message io unexpected_eof : QueryErr

-- `handler::EventOut`
pub data HandlerOut : Type 0 where
  node_type_request : NodeType → RequestId → HandlerOut
  node_type_answer : NodeType → QueryId → HandlerOut
  not_mine : QueryId → HandlerOut
  manager_request : WorkerSpecs → RequestId → HandlerOut
  manager_answer : Bool → QueryId → HandlerOut
  manager_bye : RequestId → HandlerOut
  manager_ping : RequestId → HandlerOut
  manager_pong : QueryId → HandlerOut
  tasks_execute : List TaskExecute → RequestId → HandlerOut
  tasks_ping : List TaskId → RequestId → HandlerOut
  tasks_pong : List (TaskId × TaskStatus) → QueryId → HandlerOut
  tasks_abord : List TaskId → RequestId → HandlerOut
  task_status : TaskId → TaskStatus → RequestId → HandlerOut
  query_error : QueryErr → QueryId → HandlerOut

-- The fields of `ManagerRequest` that `inject_event` fills, and what `process_request` reads back.
unfoldable pub specs_into_msg : WorkerSpecs → ManagerRequestMsg
unfolding program_kind_into_i32
specs_into_msg s = record {
  worker_price = s.worker_price;
  network_price = s.network_price;
  cpu_count = s.cpu_count;
  memory = s.memory;
  network_speed = s.network_speed;
  supported_program_kinds = map program_kind_into_i32 s.supported_program_kinds;
}

abbrev pub cons_some {ℓ} : {A : Type ℓ} → Option A → List A → List A
cons_some none xs = xs
cons_some (some x) xs = x ∷ xs

-- `iter().filter_map(f).collect()`
unfoldable pub filter_map {ℓ κ} : {A : Type ℓ} {B : Type κ} → (A → Option B) → List A → List B
filter_map f [] = []
filter_map f (x ∷ xs) = cons_some (f x) (filter_map f xs)

unfoldable pub specs_from_msg : ManagerRequestMsg → WorkerSpecs
unfolding filter_map program_kind_from_i32
specs_from_msg m = record {
  worker_price = m.worker_price;
  network_price = m.network_price;
  cpu_count = m.cpu_count;
  memory = m.memory;
  network_speed = m.network_speed;
  supported_program_kinds = filter_map program_kind_from_i32 m.supported_program_kinds;
}

-- `worker::TaskStatus { task_id, status_data }`
unfoldable pub status_into_msg : Formats → TaskId → TaskStatus → StatusMsg
unfolding to_bytes into_data
status_into_msg f id s = record { task_id = to_bytes f id; status_data = some (into_data s) }

-- Whether the message asks or answers, with the number that the handler keeps for it.
pub data Sent : Type 0 where
  request : QueryId → WorkerMsg → Sent
  answer : RequestId → WorkerMsg → Sent

-- The `match event` of `inject_event`.
unfoldable pub message_of : Formats → HandlerIn → Sent
unfolding node_type_into_i32 specs_into_msg status_into_msg to_bytes
message_of f (node_type_request t n) =
    request n (WorkerMsg.node_type_request (node_type_into_i32 t))
message_of f (node_type_answer t r) = answer r (WorkerMsg.node_type_answer (node_type_into_i32 t))
message_of f (not_mine r) = answer r WorkerMsg.not_mine
message_of f (ack r) = answer r WorkerMsg.ack
message_of f (manager_request s n) = request n (WorkerMsg.manager_request (specs_into_msg s))
message_of f (manager_answer b r) = answer r (WorkerMsg.manager_answer b)
message_of f (manager_bye n) = request n WorkerMsg.manager_bye
message_of f (manager_ping n) = request n WorkerMsg.manager_ping
message_of f (manager_pong r) = answer r WorkerMsg.manager_pong
message_of f (tasks_execute ts n) = request n (WorkerMsg.tasks_execute ts)
message_of f (tasks_ping ids n) = request n (WorkerMsg.tasks_ping (map (to_bytes f) ids))
message_of f (tasks_pong ss r) =
    answer r
      (WorkerMsg.tasks_pong (map (λ (s : TaskId × TaskStatus). status_into_msg f s.0 s.1) ss))
message_of f (tasks_abord ids n) = request n (WorkerMsg.tasks_abord (map (to_bytes f) ids))
message_of f (task_status id s n) = request n (WorkerMsg.task_status (status_into_msg f id s))

-- `Result::ok`
abbrev pub ok_of : IdResult → Option TaskId
ok_of (ok id) = some id
ok_of (IdResult.err e) = none

unfoldable pub read_id : Formats → Bytes → Option TaskId
unfolding from_bytes
read_id f b = ok_of (from_bytes f b)

or_default : Option NodeType → NodeType
or_default none = default_node_type
or_default (some t) = t

abbrev pub with_status : TaskStatus → Option TaskId → Option (TaskId × TaskStatus)
with_status s none = none
with_status s (some id) = some (id, s)

unfoldable pub read_status : Formats → StatusMsg → Option (TaskId × TaskStatus)
unfolding read_id from_option
read_status f m = with_status (from_option m.status_data) (read_id f m.task_id)

unfoldable pub with_request : RequestId → Option (TaskId × TaskStatus) → Option HandlerOut
with_request r none = none
with_request r (some (id, s)) = some (HandlerOut.task_status id s r)

-- `process_request`
unfoldable pub process_request : Formats → Option WorkerMsg → RequestId → Option HandlerOut
unfolding or_default node_type_from_i32 specs_from_msg filter_map read_id with_request read_status
process_request f none r = none
process_request f (some (node_type_request t)) r =
    some (HandlerOut.node_type_request (or_default (node_type_from_i32 t)) r)
process_request f (some (manager_request m)) r =
    some (HandlerOut.manager_request (specs_from_msg m) r)
process_request f (some manager_bye) r = some (HandlerOut.manager_bye r)
process_request f (some manager_ping) r = some (HandlerOut.manager_ping r)
process_request f (some (tasks_execute ts)) r = some (HandlerOut.tasks_execute ts r)
process_request f (some (tasks_ping ids)) r =
    some (HandlerOut.tasks_ping (filter_map (read_id f) ids) r)
process_request f (some (tasks_abord ids)) r =
    some (HandlerOut.tasks_abord (filter_map (read_id f) ids) r)
process_request f (some (task_status m)) r = with_request r (read_status f m)
process_request f (some (node_type_answer t)) r = none
process_request f (some not_mine) r = none
process_request f (some ack) r = none
process_request f (some (manager_answer b)) r = none
process_request f (some manager_pong) r = none
process_request f (some (tasks_pong ss)) r = none

-- `process_answer`
unfoldable pub process_answer : Formats → Option WorkerMsg → QueryId → Option HandlerOut
unfolding or_default node_type_from_i32 filter_map read_status
process_answer f none n = none
process_answer f (some (node_type_answer t)) n =
    some (HandlerOut.node_type_answer (or_default (node_type_from_i32 t)) n)
process_answer f (some not_mine) n = some (HandlerOut.not_mine n)
process_answer f (some ack) n = none
process_answer f (some (manager_answer b)) n = some (HandlerOut.manager_answer b n)
process_answer f (some manager_pong) n = some (HandlerOut.manager_pong n)
process_answer f (some (tasks_pong ss)) n =
    some (HandlerOut.tasks_pong (filter_map (read_status f) ss) n)
process_answer f (some (node_type_request t)) n = none
process_answer f (some (manager_request m)) n = none
process_answer f (some manager_bye) n = none
process_answer f (some manager_ping) n = none
process_answer f (some (tasks_execute ts)) n = none
process_answer f (some (tasks_ping ids)) n = none
process_answer f (some (tasks_abord ids)) n = none
process_answer f (some (task_status m)) n = none
