-- ===== src/Behaviour/Events.antt =====
-- The handlers of a peer's messages, of balthernet/src/balthazar/events.rs.
use balthazar.Prelude.{
  ℕ, ◌+◌, ◌-◌, ◌==◌, ltb, leb, ◌&&◌, Option, none, some, List, [], ◌∷◌, ◌++◌, nat_eq, if◌then◌else◌,
}
use balthazar.Prelude.Assoc.{lookup, insert, remove}
use balthazar.Ids.{PeerId}
use balthazar.Ids.HashId.{TaskId}
use balthazar.TaskStatus.{TaskStatus}
use balthazar.Message.{TaskExecute, NodeType, QueryId, RequestId, HandlerIn, HandlerOut}
use balthazar.Connection.{Poll, ready, pending}
use balthazar.Behaviour.{
  EventOut, Action, notify_handler, generate_event, Link, ManagerData, WorkerData, NodeTypeData,
  BalthBehaviour, inject_generate_event, is_in_relationship_with,
}

-- `CheckManagerWorkerRelationshipAction`
pub data Check : Type 0 where
  timed_out ping continuing : Check

-- `check_manager_worker_relationship`, at an instant, with the interval and the time-out
unfoldable pub check_manager_worker_relationship : ℕ → ℕ → ℕ → Link → Check × Link
check_manager_worker_relationship now interval timeout l =
    if ltb l.last_pong l.last_ping && leb timeout (now - l.last_pong)
    then (timed_out, l)
    else if ltb interval (now - l.last_pong) && ltb interval (now - l.last_ping)
    then (ping, record l { last_ping = now })
    else (continuing, l)

abbrev pub wrap_answer : PeerId → HandlerIn → Poll Action
wrap_answer i e = ready (notify_handler i e)

-- `manager_ping`
abbrev pub manager_ping : RequestId → HandlerIn
manager_ping r = HandlerIn.manager_pong r

unfoldable pub bye_from : PeerId → Option NodeType → Poll Action
bye_from i none = pending
bye_from i (some NodeType.worker) = ready (generate_event (EventOut.manager_bye i))
bye_from i (some NodeType.manager) = ready (generate_event (EventOut.worker_bye i))

abbrev set_last_pong : ℕ → Link → Link
set_last_pong now l = record l { last_pong = now }

module _ {A : Type 0} where
  -- `needs_relationship_with`
  unfoldable pub needs_relationship_with :
      PeerId
      → RequestId
      → (BalthBehaviour A → Poll Action × BalthBehaviour A)
      → HandlerOut
      → BalthBehaviour A
      → Poll Action × BalthBehaviour A
  needs_relationship_with i r act e b =
      if is_in_relationship_with i b
      then act b
      else (wrap_answer i (HandlerIn.not_mine r), inject_generate_event (EventOut.not_mine i e) b)

  unfoldable pub break_manager :
      PeerId → WorkerData A → Option (PeerId × Link) → Option NodeType × NodeTypeData A
  break_manager i d none = (none, NodeTypeData.worker d)
  break_manager i d (some (j, l)) =
      if i == j
      then (some NodeType.worker, NodeTypeData.worker (record d { manager = none }))
      else (none, NodeTypeData.worker d)

  unfoldable pub break_worker :
      PeerId → ManagerData → Option Link → Option NodeType × NodeTypeData A
  break_worker i d none = (none, NodeTypeData.manager d)
  break_worker i d (some l) =
      (some NodeType.manager, NodeTypeData.manager (record d { workers = remove i d.workers }))

  -- `break_worker_manager_relationship`
  unfoldable pub break_worker_manager_relationship :
      PeerId → NodeTypeData A → Option NodeType × NodeTypeData A
  unfolding break_manager break_worker
  break_worker_manager_relationship i (NodeTypeData.worker d) = break_manager i d d.manager
  break_worker_manager_relationship i (NodeTypeData.manager d) =
      break_worker i d (lookup i d.workers)

  -- `not_mine`
  unfoldable pub not_mine : PeerId → BalthBehaviour A → Poll Action × BalthBehaviour A
  unfolding bye_from
  not_mine i b =
      let broken = break_worker_manager_relationship i b.node_type_data in
      (bye_from i broken.0, record b { node_type_data = broken.1 })

  unfoldable pub inject_bye : PeerId → Option NodeType → BalthBehaviour A → BalthBehaviour A
  inject_bye i none b = b
  inject_bye i (some NodeType.worker) b = inject_generate_event (EventOut.manager_bye i) b
  inject_bye i (some NodeType.manager) b = inject_generate_event (EventOut.worker_bye i) b

  -- `manager_bye`
  unfoldable pub manager_bye : PeerId → RequestId → BalthBehaviour A → HandlerIn × BalthBehaviour A
  unfolding inject_bye
  manager_bye i r b =
      let broken = break_worker_manager_relationship i b.node_type_data in
      (HandlerIn.ack r, inject_bye i broken.0 (record b { node_type_data = broken.1 }))

  unfoldable pub pong_of_worker :
      ℕ
      → PeerId
      → QueryId
      → ManagerData
      → BalthBehaviour A
      → Option Link
      → EventOut × BalthBehaviour A
  pong_of_worker now i n d b none = (EventOut.not_mine i (HandlerOut.manager_pong n), b)
  pong_of_worker now i n d b (some l) = (
    EventOut.worker_pong i,
    record b {
      node_type_data =
          NodeTypeData.manager (record d { workers = insert i (set_last_pong now l) d.workers });
    },
  )

  unfoldable pub pong_of_manager :
      ℕ
      → PeerId
      → QueryId
      → WorkerData A
      → BalthBehaviour A
      → Option (PeerId × Link)
      → EventOut × BalthBehaviour A
  pong_of_manager now i n d b none = (EventOut.not_mine i (HandlerOut.manager_pong n), b)
  pong_of_manager now i n d b (some (j, l)) =
      if j == i
      then (
        EventOut.manager_pong i,
        record b {
          node_type_data =
              NodeTypeData.worker (record d { manager = some (j, set_last_pong now l) });
          delays = b.delays ++ (now + b.manager_check_interval) ∷ [];
        },
      )
      else (EventOut.not_mine i (HandlerOut.manager_pong n), b)

  unfoldable pub pong_to :
      ℕ → PeerId → QueryId → BalthBehaviour A → NodeTypeData A → EventOut × BalthBehaviour A
  unfolding pong_of_worker pong_of_manager
  pong_to now i n b (NodeTypeData.manager d) = pong_of_worker now i n d b (lookup i d.workers)
  pong_to now i n b (NodeTypeData.worker d) = pong_of_manager now i n d b d.manager

  -- `manager_pong`
  unfoldable pub manager_pong :
      ℕ → PeerId → QueryId → BalthBehaviour A → Poll Action × BalthBehaviour A
  unfolding pong_to
  manager_pong now i n b =
      let p = pong_to now i n b b.node_type_data in (ready (generate_event p.0), p.1)

  -- `tasks_execute`, `tasks_ping`, `tasks_pong`, `tasks_abord` and `task_status`
  abbrev pub tasks_execute :
      List TaskExecute → RequestId → BalthBehaviour A → HandlerIn × BalthBehaviour A
  tasks_execute ts r b = (HandlerIn.ack r, inject_generate_event (EventOut.tasks_execute ts) b)

  abbrev pub tasks_ping :
      List TaskId → RequestId → BalthBehaviour A → Poll Action × BalthBehaviour A
  tasks_ping ts r b = (ready (generate_event (EventOut.tasks_ping ts r)), b)

  unfoldable pub tasks_pong :
      PeerId
      → List (TaskId × TaskStatus)
      → QueryId
      → BalthBehaviour A
      → Poll Action × BalthBehaviour A
  tasks_pong i ss n b = (
    ready (
        generate_event (
          if is_in_relationship_with i b
          then EventOut.tasks_pong i ss
          else EventOut.not_mine i (HandlerOut.tasks_pong ss n))),
    b,
  )

  abbrev pub tasks_abord : List TaskId → RequestId → BalthBehaviour A → HandlerIn × BalthBehaviour A
  tasks_abord ts r b = (HandlerIn.ack r, inject_generate_event (EventOut.tasks_abord ts) b)

  abbrev pub task_status :
      PeerId → TaskId → TaskStatus → RequestId → BalthBehaviour A → HandlerIn × BalthBehaviour A
  task_status i t s r b = (HandlerIn.ack r, inject_generate_event (EventOut.task_status i t s) b)
