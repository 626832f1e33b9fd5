-- ===== src/Behaviour/Answering.antt =====
-- Lemmas on `handler_event` of balthernet/src/balthazar/mod.rs: the answers in the queue of events.
use balthazar.Prelude.{
  ℕ, ◌≡◌, refl, Bool, true, false, Option, none, some, nat_eq, ◌==◌, if_both, Bool-cases, inl, inr,
}
use balthazar.Ids.{PeerId, Formats}
use balthazar.Workers.{WorkerSpecs}
use balthazar.Message.{NodeType, QueryId, HandlerIn, HandlerOut, message_of}
use balthazar.Connection.{Poll, ready, pending}
use balthazar.Authorization.{Multiaddrs, is_manager_authorized}
use balthazar.Behaviour.{
  EventOut, Action, Link, WorkerData, NodeTypeData, Outcome, BalthBehaviour, Peer, node_type_into,
  peer_at, get_peer_or_insert, send_to_peer_or_dial,
}
use balthazar.Behaviour.Events.{
  not_mine, manager_bye, manager_pong, tasks_pong, break_worker_manager_relationship,
}
use balthazar.Behaviour.Locks.{reading}
use balthazar.Behaviour.Handshake.{
  manager_request, node_type_answer, type_answer, request_manager, requested, same_type,
  node_type_request, inject_ready, manager_answer, answer_to, answer_of, answer_end, ping_again,
  take_manager,
}
use balthazar.Behaviour.Dispatch.{handler_event, dispatch}
use balthazar.Behaviour.Joining.{Ends}
use balthazar.Behaviour.Queueing.{
  answers, QueuesNone, inject-QueuesNone, report-QueuesNone, needs-QueuesNone,
  request_to-QueuesNone, bye-QueuesNone, pong_to-QueuesNone,
}

module _ (f : Formats) (m : Multiaddrs) where
  -- An action that answers nobody, and no answer queued.
  abbrev IsUnanswered : BalthBehaviour m.Addr → Poll Action × BalthBehaviour m.Addr → Type 0
  IsUnanswered b (pending, c) = QueuesNone f b c
  IsUnanswered b (ready a, c) = (answers f a ≡ false) × QueuesNone f b c

  request_manager-IsUnanswered :
      (i : PeerId) (b c : BalthBehaviour m.Addr) (o : Option WorkerSpecs)
      → QueuesNone f b c
      → IsUnanswered b (request_manager m i c o)
  unfolding request_manager message_of
  request_manager-IsUnanswered i b c none same = same
  request_manager-IsUnanswered i b c (some s) same = (refl, same)

  type_answer-IsUnanswered :
      (i : PeerId) (p : Peer m.Addr) (t : NodeType) (b : BalthBehaviour m.Addr)
      (o : Option NodeType)
      → IsUnanswered b (type_answer m i p t b o)
  unfolding type_answer
  type_answer-IsUnanswered i p t b (some previous) =
      if_both (IsUnanswered b) (same_type previous t) refl (refl, refl)
  type_answer-IsUnanswered i p t b none =
      request_manager-IsUnanswered i b _ (requested m i p t b.node_type_data)
        (report-QueuesNone f (EventOut.peer_has_new_type i t) b b refl)

  ready-QueuesNone :
      (b : BalthBehaviour m.Addr) (x : Poll Action × BalthBehaviour m.Addr)
      → IsUnanswered b x
      → QueuesNone f b (inject_ready m x.0 x.1)
  unfolding inject_ready
  ready-QueuesNone b (pending, c) same = same
  ready-QueuesNone b (ready a, c) (quiet, same) = inject-QueuesNone f a b c quiet same

  unanswered-QueuesNone :
      (b : BalthBehaviour m.Addr) (x : Poll Action × BalthBehaviour m.Addr)
      → IsUnanswered b x
      → QueuesNone f b x.1
  unanswered-QueuesNone b (pending, c) same = same
  unanswered-QueuesNone b (ready a, c) (quiet, same) = same

  Queues : BalthBehaviour m.Addr → Outcome (Poll Action × BalthBehaviour m.Addr) → Type 0
  Queues b o = Ends (λ x. QueuesNone f b x.1) o

  answer_end-Queues :
      (i : PeerId) (e : EventOut) (bye : Bool) (b c : BalthBehaviour m.Addr)
      → QueuesNone f b c
      → Queues b (answer_end m i e bye c)
  unfolding answer_end Queues
  answer_end-Queues i e true b c same = report-QueuesNone f e b c same
  answer_end-Queues i e false b c same = same

  ping_again-Queues :
      (i : PeerId) (b : BalthBehaviour m.Addr) → Queues b (ping_again m i (reading 0) b)
  unfolding ping_again Queues send_to_peer_or_dial
  ping_again-Queues i b = elim (Bool-cases b.is_shutting_down) [
    | inl e ↦ simp e (
        report-QueuesNone f (EventOut.msg_dropped i (HandlerIn.manager_ping b.next_query_unique_id))
          b b refl)
    | inr e ↦ simp e tt
  ]

  answer_of-Queues :
      (now : ℕ) (i : PeerId) (accepted : Bool) (n : QueryId) (d : WorkerData m.Addr)
      (b : BalthBehaviour m.Addr) (man : Option (PeerId × Link)) (known : Option NodeType)
      → Queues b (answer_of m now i accepted n d b (reading 0) man known)
  unfolding answer_of take_manager
  answer_of-Queues now i true n d b none (some NodeType.manager) =
      if_both (Queues b)
        (is_manager_authorized m d.authorized_managers (some i) (peer_at i b).addrs)
        (answer_end-Queues i (EventOut.manager_new i) false b (take_manager m now i d b) refl)
        (answer_end-Queues i (EventOut.manager_unauthorized i) true b b refl)
  answer_of-Queues now i false n d b none (some NodeType.manager) =
      answer_end-Queues i (EventOut.manager_refused i) false b b refl
  answer_of-Queues now i accepted n d b (some (j, l)) (some NodeType.manager) =
      if_both (Queues b) (j == i) (ping_again-Queues i b)
        (answer_end-Queues i (EventOut.manager_already_has_one i) accepted b b refl)
  answer_of-Queues now i accepted n d b man known =
      answer_end-Queues i
        (EventOut.msg_from_incorrect_node_type i known NodeType.manager
          (HandlerOut.manager_answer accepted n))
        accepted b b refl

  answer_to-Queues :
      (now : ℕ) (i : PeerId) (accepted : Bool) (n : QueryId) (b : BalthBehaviour m.Addr)
      (d : NodeTypeData m.Addr)
      → Queues b (answer_to m now i accepted n b d)
  unfolding answer_to
  answer_to-Queues now i accepted n b (NodeTypeData.worker d) =
      answer_of-Queues now i accepted n d b d.manager (node_type_into (peer_at i b))
  answer_to-Queues now i accepted n b (NodeTypeData.manager d) =
      answer_end-Queues i
        (EventOut.msg_for_incorrect_node_type i NodeType.worker
          (HandlerOut.manager_answer accepted n))
        accepted b b refl

  node_type_answer-IsUnanswered :
      (i : PeerId) (t : NodeType) (b : BalthBehaviour m.Addr)
      → IsUnanswered b (node_type_answer m i t b)
  unfolding node_type_answer
  node_type_answer-IsUnanswered i t b =
      type_answer-IsUnanswered i (peer_at i b) t b (node_type_into (peer_at i b))

  dispatch-Queues :
      (now : ℕ) (i : PeerId) (e : HandlerOut) (b : BalthBehaviour m.Addr)
      → Queues b (dispatch m now i e b)
  unfolding dispatch Queues manager_request manager_answer not_mine manager_pong tasks_pong
      node_type_request manager_bye
  dispatch-Queues now i (HandlerOut.node_type_request t r) b =
      ready-QueuesNone b (node_type_answer m i t b) (node_type_answer-IsUnanswered i t b)
  dispatch-Queues now i (HandlerOut.node_type_answer t n) b =
      unanswered-QueuesNone b (node_type_answer m i t b) (node_type_answer-IsUnanswered i t b)
  dispatch-Queues now i (HandlerOut.not_mine n) b = refl
  dispatch-Queues now i (HandlerOut.manager_request s r) b =
      request_to-QueuesNone f now i s r b b.node_type_data
  dispatch-Queues now i (HandlerOut.manager_answer accepted n) b =
      answer_to-Queues now i accepted n b b.node_type_data
  dispatch-Queues now i (HandlerOut.manager_bye r) b =
      bye-QueuesNone f i (break_worker_manager_relationship i b.node_type_data).0 b
        (record b { node_type_data = (break_worker_manager_relationship i b.node_type_data).1 })
        refl
  dispatch-Queues now i (HandlerOut.manager_ping r) b = needs-QueuesNone f i r _ _ b refl
  dispatch-Queues now i (HandlerOut.manager_pong n) b =
      pong_to-QueuesNone f now i n b b.node_type_data
  dispatch-Queues now i (HandlerOut.tasks_execute ts r) b =
      needs-QueuesNone f i r _ _ b (report-QueuesNone f _ b b refl)
  dispatch-Queues now i (HandlerOut.tasks_ping ts r) b = needs-QueuesNone f i r _ _ b refl
  dispatch-Queues now i (HandlerOut.tasks_pong ss n) b = refl
  dispatch-Queues now i (HandlerOut.tasks_abord ts r) b =
      needs-QueuesNone f i r _ _ b (report-QueuesNone f _ b b refl)
  dispatch-Queues now i (HandlerOut.task_status t s r) b =
      needs-QueuesNone f i r _ _ b (report-QueuesNone f _ b b refl)
  dispatch-Queues now i (HandlerOut.query_error e n) b = report-QueuesNone f _ b b refl

  pub handler_event-QueuesNone :
      (now : ℕ) (i : PeerId) (e : HandlerOut) (b : BalthBehaviour m.Addr)
      → Ends (λ x. QueuesNone f b x.1) (handler_event m now i e b)
  unfolding handler_event Queues
  handler_event-QueuesNone now i e b = dispatch-Queues now i e (get_peer_or_insert i b)
