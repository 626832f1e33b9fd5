-- ===== src/Behaviour/Replies.antt =====
-- The answers to a peer's messages, `handler_event` of balthernet/src/balthazar/mod.rs.
use balthazar.Prelude.{◌≡◌, false, ◌⊎◌, nat_eq}
use balthazar.Ids.{PeerId}
use balthazar.Message.{RequestId, HandlerIn, HandlerOut}
use balthazar.Connection.{Poll, ready}
use balthazar.Authorization.{Multiaddrs}
use balthazar.Behaviour.{EventOut, Action, generate_event, notify_handler, Outcome, BalthBehaviour}
use balthazar.Behaviour.Events.{manager_bye}
use balthazar.Behaviour.Handshake.{manager_request, node_type_request}
use balthazar.Behaviour.Joining.{Ends}
use balthazar.Behaviour.Queueing.{is_answer}
use balthazar.Ids.{Formats}
use balthazar.Message.{WorkerMsg, answer, message_of}

module _ (f : Formats) where
  -- An answer to the peer, under this identifier.
  abbrev IsAnswer : PeerId → RequestId → Poll Action → Type 0
  IsAnswer i r a =
      (x : HandlerIn) × (w : WorkerMsg) × (a ≡ ready (notify_handler i x))
      × (message_of f x ≡ answer r w)

  -- Nothing is answered.
  IsSilent : Poll Action → Type 0
  IsSilent (ready (notify_handler i x)) = is_answer (message_of f x) ≡ false
  IsSilent a = Unit

  -- What becomes of an event. The answer to `TasksPing` comes later, from the node.
  pub IsReply : PeerId → HandlerOut → Poll Action → Type 0
  unfolding IsSilent
  IsReply i (HandlerOut.node_type_request t r) a = IsAnswer i r a
  IsReply i (HandlerOut.manager_request s r) a = IsAnswer i r a
  IsReply i (HandlerOut.manager_bye r) a = IsAnswer i r a
  IsReply i (HandlerOut.manager_ping r) a = IsAnswer i r a
  IsReply i (HandlerOut.tasks_execute ts r) a = IsAnswer i r a
  IsReply i (HandlerOut.tasks_ping ts r) a =
      IsAnswer i r a ⊎ (a ≡ ready (generate_event (EventOut.tasks_ping ts r)))
  IsReply i (HandlerOut.tasks_abord ts r) a = IsAnswer i r a
  IsReply i (HandlerOut.task_status t s r) a = IsAnswer i r a
  IsReply i e a = IsSilent a

  module _ (m : Multiaddrs) where
    abbrev AnsweredSilently : Outcome (Poll Action × BalthBehaviour m.Addr) → Type 0
    AnsweredSilently o = Ends (λ x. IsSilent x.0) o
