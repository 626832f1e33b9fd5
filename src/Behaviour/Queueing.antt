-- ===== src/Behaviour/Queueing.antt =====
-- Lemmas on the handlers of balthernet/src/balthazar/events.rs: the answers in the queue of events.
use balthazar.Prelude.{
  ℕ, ◌≡◌, refl, ◌∙◌, Bool, true, false, Option, none, some, [], ◌∷◌, count_if, nat_eq, ◌==◌,
  if_both, arith,
}
use balthazar.Prelude.Assoc.{lookup}
use balthazar.Ids.{PeerId, Formats}
use balthazar.Workers.{WorkerSpecs}
use balthazar.Message.{NodeType, QueryId, RequestId, HandlerOut, Sent, request, answer, message_of}
use balthazar.Connection.{Poll}
use balthazar.Connection.Sweep.{count_if-append}
use balthazar.Behaviour.{
  EventOut, Action, generate_event, notify_handler, PeerType, Link, NodeTypeData, InternalEvent,
  BalthBehaviour, peer_at, inject_action, inject_generate_event, is_in_relationship_with,
}
use balthazar.Behaviour.Events.{
  needs_relationship_with, inject_bye, pong_to, pong_of_worker, pong_of_manager,
}
use balthazar.Behaviour.Locks.{writing}
use balthazar.Behaviour.Handshake.{request_to, request_of_type}
use balthazar.Behaviour.Dispatch.{wrapped_outcome}
use balthazar.Behaviour.Joining.{Ends}

abbrev pub is_answer : Sent → Bool
is_answer (request n w) = false
is_answer (answer r w) = true

module _ (f : Formats) where
  -- An action that answers a peer.
  abbrev pub answers : Action → Bool
  answers (notify_handler i x) = is_answer (message_of f x)
  answers a = false

  module _ {A : Type 0} where
    abbrev pub is_queued_answer : InternalEvent A → Bool
    is_queued_answer (InternalEvent.action a) = answers a
    is_queued_answer (InternalEvent.send_message i x) = is_answer (message_of f x)
    is_queued_answer e = false

    -- As many answers in the queue as before.
    abbrev pub QueuesNone : BalthBehaviour A → BalthBehaviour A → Type 0
    QueuesNone b c = count_if is_queued_answer c.events ≡ count_if is_queued_answer b.events

    pub inject-QueuesNone :
        (a : Action) (b c : BalthBehaviour A)
        → answers a ≡ false
        → QueuesNone b c
        → QueuesNone b (inject_action a c)
    inject-QueuesNone a b c quiet same =
        count_if-append is_queued_answer c.events (InternalEvent.action a ∷ [])
        ∙ ground (arith, quiet, same)

    pub report-QueuesNone :
        (e : EventOut) (b c : BalthBehaviour A)
        → QueuesNone b c
        → QueuesNone b (inject_generate_event e c)
    report-QueuesNone e b c same = inject-QueuesNone (generate_event e) b c refl same

    pub needs-QueuesNone :
        (i : PeerId) (r : RequestId) (act : BalthBehaviour A → Poll Action × BalthBehaviour A)
        (e : HandlerOut) (b : BalthBehaviour A)
        → QueuesNone b (act b).1
        → QueuesNone b (needs_relationship_with i r act e b).1
    unfolding needs_relationship_with
    needs-QueuesNone i r act e b h =
        if_both (λ (p : Poll Action × BalthBehaviour A). QueuesNone b p.1)
          (is_in_relationship_with i b) h (report-QueuesNone (EventOut.not_mine i e) b b refl)

    pub request_to-QueuesNone :
        (now : ℕ) (i : PeerId) (s : WorkerSpecs) (r : RequestId) (b : BalthBehaviour A)
        (d : NodeTypeData A)
        → Ends (λ x. QueuesNone b x.1) (wrapped_outcome i (request_to now i s r b d))
    unfolding request_to request_of_type wrapped_outcome
    request_to-QueuesNone now i s r b (NodeTypeData.worker d) = report-QueuesNone _ b b refl
    request_to-QueuesNone now i s r b (NodeTypeData.manager d) = of (peer_at i b).node_type
      where
        of :
            (o : Option PeerType)
            → Ends
                (λ x. QueuesNone b x.1)
                (wrapped_outcome i (request_of_type now i s r d b writing o))
        of none = tt
        of (some PeerType.manager) = tt
        of (some (PeerType.worker known)) = report-QueuesNone (EventOut.worker_new i s) b b refl

    pub bye-QueuesNone :
        (i : PeerId) (o : Option NodeType) (b c : BalthBehaviour A)
        → QueuesNone b c
        → QueuesNone b (inject_bye i o c)
    unfolding inject_bye
    bye-QueuesNone i none b c same = same
    bye-QueuesNone i (some NodeType.worker) b c same = report-QueuesNone _ b c same
    bye-QueuesNone i (some NodeType.manager) b c same = report-QueuesNone _ b c same

    pub pong_to-QueuesNone :
        (now : ℕ) (i : PeerId) (n : QueryId) (b : BalthBehaviour A) (d : NodeTypeData A)
        → QueuesNone b (pong_to now i n b d).1
    unfolding pong_to pong_of_worker pong_of_manager
    pong_to-QueuesNone now i n b (NodeTypeData.manager d) = of (lookup i d.workers)
      where
        of : (o : Option Link) → QueuesNone b (pong_of_worker now i n d b o).1
        of none = refl
        of (some l) = refl
    pong_to-QueuesNone now i n b (NodeTypeData.worker d) = of d.manager
      where
        of : (o : Option (PeerId × Link)) → QueuesNone b (pong_of_manager now i n d b o).1
        of none = refl
        of (some (j, l)) =
            if_both (λ (x : EventOut × BalthBehaviour A). QueuesNone b x.1) (j == i) refl refl
