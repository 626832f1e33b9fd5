-- ===== src/Message/Delivery.antt =====
-- What one handler sends and the other one reads: balthernet/src/balthazar/handler.rs on both
-- sides.
use balthazar.Prelude.{ℕ, Option, none, some, All}
use balthazar.Ids.{Formats}
use balthazar.Ids.HashId.{TaskId}
use balthazar.Ids.HashId.RoundTrip.{IsKeccak}
use balthazar.TaskStatus.{TaskStatus}
use balthazar.Message.{
  HandlerIn, HandlerOut, Sent, request, answer, process_request, process_answer,
}

-- The task ids of an event are Keccak256 multihashes.
abbrev pub HasKeccakIds : Formats → HandlerIn → Type 0
HasKeccakIds f (HandlerIn.tasks_ping ids n) = All (IsKeccak f) ids
HasKeccakIds f (HandlerIn.tasks_abord ids n) = All (IsKeccak f) ids
HasKeccakIds f (HandlerIn.tasks_pong ss n) = All (λ (s : TaskId × TaskStatus). IsKeccak f s.0) ss
HasKeccakIds f (HandlerIn.task_status id s n) = IsKeccak f id
HasKeccakIds f _ = Unit

-- What the other side's behaviour is told of an event, under its own number.
unfoldable pub counterpart : HandlerIn → ℕ → Option HandlerOut
counterpart (HandlerIn.node_type_request t n) k = some (HandlerOut.node_type_request t k)
counterpart (HandlerIn.node_type_answer t n) k = some (HandlerOut.node_type_answer t k)
counterpart (HandlerIn.not_mine n) k = some (HandlerOut.not_mine k)
counterpart (HandlerIn.ack n) k = none
counterpart (HandlerIn.manager_request s n) k = some (HandlerOut.manager_request s k)
counterpart (HandlerIn.manager_answer b n) k = some (HandlerOut.manager_answer b k)
counterpart (HandlerIn.manager_bye n) k = some (HandlerOut.manager_bye k)
counterpart (HandlerIn.manager_ping n) k = some (HandlerOut.manager_ping k)
counterpart (HandlerIn.manager_pong n) k = some (HandlerOut.manager_pong k)
counterpart (HandlerIn.tasks_execute ts n) k = some (HandlerOut.tasks_execute ts k)
counterpart (HandlerIn.tasks_ping ids n) k = some (HandlerOut.tasks_ping ids k)
counterpart (HandlerIn.tasks_pong ss n) k = some (HandlerOut.tasks_pong ss k)
counterpart (HandlerIn.tasks_abord ids n) k = some (HandlerOut.tasks_abord ids k)
counterpart (HandlerIn.task_status id s n) k = some (HandlerOut.task_status id s k)

-- How the receiver reads a message, and how it would read it in the wrong place.
abbrev pub read_sent : Formats → Sent → ℕ → Option HandlerOut
read_sent f (request n m) k = process_request f (some m) k
read_sent f (answer r m) k = process_answer f (some m) k

abbrev pub misread : Formats → Sent → ℕ → Option HandlerOut
misread f (request n m) k = process_answer f (some m) k
misread f (answer r m) k = process_request f (some m) k
