-- ===== src/Behaviour/Told.antt =====
-- Lemmas on `handle_event_in` of balthernet/src/balthazar/mod.rs: relationships before and after.
use balthazar.Prelude.{◌≡◌, refl, true, false, Option, none, some, List, [], ◌∷◌, nat_eq}
use balthazar.Ids.{PeerId}
use balthazar.Message.{HandlerIn}
use balthazar.Behaviour.{
  EventIn, dial_peer, EventOut, Action, generate_event, notify_handler, NodeTypeData,
  BalthBehaviour, send_to_peer_or_dial, count_query, is_related, is_manager,
  inject_send_to_peer_or_dial,
}
use balthazar.Behaviour.Dispatch.{
  handle_event_in, checked_send, with_manager, leaving, say_bye, manager_of,
}
use balthazar.Behaviour.Relations.{
  Narrows, Narrows-refl, Narrows-trans, Narrows-inject, Narrows-bookkeeping, Narrows-data,
  Narrows-inject_send, Narrows-send_to_peer_or_dial,
}
use balthazar.Behaviour.Joining.{Ends}

module _ {A : Type 0} where
  checked_send-Narrows :
      (b : BalthBehaviour A) (x : Action × BalthBehaviour A)
      → Narrows b x.1
      → Narrows b (checked_send x)
  unfolding checked_send
  checked_send-Narrows b (notify_handler i e, c) n = Narrows-inject _ b c n
  checked_send-Narrows b (dial_peer i, c) n = Narrows-inject _ b c n
  checked_send-Narrows b (generate_event e, c) n = Narrows-inject _ b c n

  Narrows-count_query : (b : BalthBehaviour A) → Narrows b (count_query b)
  Narrows-count_query b =
      Narrows-bookkeeping b (count_query b).next_query_unique_id b.delays b.is_shutting_down

  sent-Narrows :
      (b : BalthBehaviour A) (i : PeerId) (e : HandlerIn)
      → Narrows b (send_to_peer_or_dial i e (count_query b)).1
  sent-Narrows b i e =
      Narrows-trans b (count_query b) (send_to_peer_or_dial i e (count_query b)).1
        (Narrows-count_query b) (Narrows-send_to_peer_or_dial i e (count_query b))

  with_manager-Narrows :
      (e : EventIn) (b : BalthBehaviour A) (o : Option PeerId)
      (act : PeerId → Action × BalthBehaviour A)
      → ((i : PeerId) → Narrows b (act i).1)
      → Narrows b (with_manager e b o act).1
  unfolding with_manager
  with_manager-Narrows e b none act n = Narrows-refl b
  with_manager-Narrows e b (some i) act n = n i

  say_bye-Narrows : (is : List PeerId) (b : BalthBehaviour A) → Narrows b (say_bye is b)
  unfolding say_bye
  say_bye-Narrows [] b = Narrows-refl b
  say_bye-Narrows (i ∷ is) b =
      let c =
        inject_send_to_peer_or_dial i (HandlerIn.manager_bye b.next_query_unique_id)
          (count_query b) in
      Narrows-trans b c (say_bye is c)
        (Narrows-inject_send i (HandlerIn.manager_bye b.next_query_unique_id) b (count_query b)
          (Narrows-count_query b))
        (say_bye-Narrows is c)

  leaving-Narrows :
      (b : BalthBehaviour A)
      → Narrows b (record b { node_type_data = (leaving b.node_type_data).1 })
  unfolding leaving is_related is_manager
  leaving-Narrows b = of b.node_type_data refl
    where
      of :
          (d : NodeTypeData A)
          → b.node_type_data ≡ d
          → Narrows b (record b { node_type_data = (leaving d).1 })
      of (NodeTypeData.manager d) e =
          Narrows-data b (NodeTypeData.manager d) (rw e refl) (λ j k. rw e k)
      of (NodeTypeData.worker d) e =
          Narrows-data b (NodeTypeData.worker (record d { manager = none })) (rw e refl) (λ j k. cc)

  pub handle_event_in-Narrows :
      (e : EventIn) (b : BalthBehaviour A) → Ends (λ x. Narrows b x) (handle_event_in e b)
  unfolding handle_event_in
  handle_event_in-Narrows EventIn.ping b =
      checked_send-Narrows b (generate_event EventOut.pong, b) (Narrows-refl b)
  handle_event_in-Narrows (EventIn.handler i e) b =
      checked_send-Narrows b (notify_handler i e, b) (Narrows-refl b)
  handle_event_in-Narrows (EventIn.tasks_execute i ts) b =
      checked_send-Narrows b _ (sent-Narrows b i _)
  handle_event_in-Narrows (EventIn.tasks_ping i ts) b =
      checked_send-Narrows b _ (sent-Narrows b i _)
  handle_event_in-Narrows (EventIn.tasks_pong ss r) b =
      checked_send-Narrows b _
        (with_manager-Narrows _ b (manager_of b.node_type_data) _ (λ i. Narrows-refl b))
  handle_event_in-Narrows (EventIn.task_status t s) b =
      checked_send-Narrows b _
        (with_manager-Narrows _ b (manager_of b.node_type_data) _ (λ i. sent-Narrows b i _))
  handle_event_in-Narrows (EventIn.get_workers true) b = Narrows-refl b
  handle_event_in-Narrows (EventIn.get_workers false) b = tt
  handle_event_in-Narrows EventIn.bye b =
      let l = leaving b.node_type_data in
      let left = record b { node_type_data = l.1 } in
      let said = say_bye l.0 left in
      Narrows-trans b left (record said { is_shutting_down = true }) (leaving-Narrows b)
        (Narrows-trans left said (record said { is_shutting_down = true })
          (say_bye-Narrows l.0 left)
          (Narrows-bookkeeping said said.next_query_unique_id said.delays true))
