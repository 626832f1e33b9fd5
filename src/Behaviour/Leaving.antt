-- ===== src/Behaviour/Leaving.antt =====
-- The node's events while it leaves: `handle_event_in` of balthernet/src/balthazar/mod.rs.
use balthazar.Prelude.{
  count_if, ◌≡◌, refl, ◌∙◌, Bool, true, false, Option, none, some, List, [], ◌∷◌, nat_eq, arith,
}
use balthazar.Ids.{PeerId}
use balthazar.Message.{HandlerIn}
use balthazar.Behaviour.{
  EventIn, dial_peer, EventOut, Action, generate_event, notify_handler, BalthBehaviour,
  InternalEvent, send_to_peer_or_dial, inject_action, count_query, inject_send_to_peer_or_dial,
}
use balthazar.Behaviour.Dispatch.{
  handle_event_in, checked_send, with_manager, leaving, say_bye, manager_of,
}
use balthazar.Behaviour.Joining.{Ends}
use balthazar.Behaviour.{send_to_peer}
use balthazar.Connection.Sweep.{count_if-append}

-- An action that dials no peer.
is_no_dial : Action → Bool
is_no_dial (dial_peer i) = false
is_no_dial a = true

module _ {A : Type 0} where
  -- A message on its way or a peer to dial, other than the message that says bye.
  abbrev pub is_sending : InternalEvent A → Bool
  is_sending (InternalEvent.action (notify_handler i (HandlerIn.manager_bye n))) = false
  is_sending (InternalEvent.action (notify_handler i e)) = true
  is_sending (InternalEvent.action (dial_peer i)) = true
  is_sending (InternalEvent.send_message i e) = true
  is_sending _ = false

  -- Still leaving, with no other message, no peer to dial, and the peers as they were.
  abbrev pub IsMute : BalthBehaviour A → BalthBehaviour A → Type 0
  IsMute b b' =
      (b'.is_shutting_down ≡ true)
      × (count_if is_sending b'.events ≡ count_if is_sending b.events)
      × (b'.peers ≡ b.peers)

  inject-IsMute :
      (a : Action) (b c : BalthBehaviour A)
      → is_sending (InternalEvent.action a) ≡ false
      → IsMute b c
      → IsMute b (inject_action a c)
  inject-IsMute a b c quiet (still, same, peers) = (
    still,
    count_if-append is_sending c.events (InternalEvent.action a ∷ []) ∙ ground (arith, quiet, same),
    peers,
  )

  send_to_peer-quiet :
      (i : PeerId) (e : HandlerIn) (b : BalthBehaviour A)
      → b.is_shutting_down ≡ true
      → is_sending (InternalEvent.action (send_to_peer i e b)) ≡ false
  unfolding send_to_peer
  send_to_peer-quiet i (HandlerIn.manager_bye n) b leaves = refl
  send_to_peer-quiet i e b leaves = simp leaves refl

  -- An operation's action dials no peer, and its state is as silent.
  abbrev IsQuiet : BalthBehaviour A → Action × BalthBehaviour A → Type 0
  IsQuiet b x = IsMute b x.1 × (is_no_dial x.0 ≡ true)

  checked_send-IsMute :
      (b : BalthBehaviour A) (x : Action × BalthBehaviour A)
      → IsQuiet b x
      → IsMute b (checked_send x)
  unfolding checked_send is_no_dial
  checked_send-IsMute b (notify_handler i e, c) (n, calls) =
      inject-IsMute (send_to_peer i e c) b c (send_to_peer-quiet i e c n.0) n
  checked_send-IsMute b (dial_peer i, c) (n, calls) = cc
  checked_send-IsMute b (generate_event e, c) (n, calls) =
      inject-IsMute (generate_event e) b c refl n

  send_to_peer_or_dial-dropped :
      (i : PeerId) (e : HandlerIn) (b : BalthBehaviour A)
      → b.is_shutting_down ≡ true
      → send_to_peer_or_dial i e b ≡ (generate_event (EventOut.msg_dropped i e), b)
  unfolding send_to_peer_or_dial
  send_to_peer_or_dial-dropped i e b leaves = simp leaves refl

  sent-IsMute :
      (i : PeerId) (e : HandlerIn) (b : BalthBehaviour A)
      → b.is_shutting_down ≡ true
      → IsQuiet b (send_to_peer_or_dial i e (count_query b))
  unfolding is_no_dial
  sent-IsMute i e b leaves =
      rw (send_to_peer_or_dial-dropped i e (count_query b) leaves) ((leaves, refl, refl), refl)

  with_manager-IsMute :
      (e : EventIn) (b : BalthBehaviour A) (o : Option PeerId)
      (act : PeerId → Action × BalthBehaviour A)
      → b.is_shutting_down ≡ true
      → ((i : PeerId) → IsQuiet b (act i))
      → IsQuiet b (with_manager e b o act)
  unfolding with_manager is_no_dial
  with_manager-IsMute e b none act leaves n = ((leaves, refl, refl), refl)
  with_manager-IsMute e b (some i) act leaves n = n i

  say_bye-IsMute :
      (is : List PeerId) (b c : BalthBehaviour A) → IsMute b c → IsMute b (say_bye is c)
  unfolding say_bye
  say_bye-IsMute [] b c n = n
  say_bye-IsMute (i ∷ is) b c n =
      let e = HandlerIn.manager_bye c.next_query_unique_id in
      say_bye-IsMute is b (inject_send_to_peer_or_dial i e (count_query c)) (
        rw (send_to_peer_or_dial-dropped i e (count_query c) n.0)
          (inject-IsMute (generate_event (EventOut.msg_dropped i e)) b (count_query c) refl n))

  -- While the node is shutting down, no event that it hands to the behaviour puts a message to a
  -- peer in the queue, other than one that says bye, or a peer to dial, no message is left to wait
  -- for a peer, and the shutdown goes on.
  pub handle_event_in-IsMute :
      (e : EventIn) (b : BalthBehaviour A)
      → b.is_shutting_down ≡ true
      → Ends (λ x. IsMute b x) (handle_event_in e b)
  unfolding handle_event_in is_no_dial
  handle_event_in-IsMute EventIn.ping b leaves =
      checked_send-IsMute b (generate_event EventOut.pong, b) ((leaves, refl, refl), refl)
  handle_event_in-IsMute (EventIn.handler i e) b leaves =
      checked_send-IsMute b (notify_handler i e, b) ((leaves, refl, refl), refl)
  handle_event_in-IsMute (EventIn.tasks_execute i ts) b leaves =
      checked_send-IsMute b _ (sent-IsMute i _ b leaves)
  handle_event_in-IsMute (EventIn.tasks_ping i ts) b leaves =
      checked_send-IsMute b _ (sent-IsMute i _ b leaves)
  handle_event_in-IsMute (EventIn.tasks_pong ss r) b leaves = checked_send-IsMute b _ (
      with_manager-IsMute _ b (manager_of b.node_type_data) _ leaves
        (λ i. ((leaves, refl, refl), refl)))
  handle_event_in-IsMute (EventIn.task_status t s) b leaves = checked_send-IsMute b _ (
      with_manager-IsMute _ b (manager_of b.node_type_data) _ leaves
        (λ i. sent-IsMute i _ b leaves))
  handle_event_in-IsMute (EventIn.get_workers true) b leaves = (leaves, refl, refl)
  handle_event_in-IsMute (EventIn.get_workers false) b leaves = tt
  handle_event_in-IsMute EventIn.bye b leaves =
      let l = leaving b.node_type_data in
      let said = say_bye-IsMute l.0 b (record b { node_type_data = l.1 }) (leaves, refl, refl) in
      (refl, said.1, said.2)
