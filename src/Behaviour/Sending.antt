-- ===== src/Behaviour/Sending.antt =====
-- Polls of the queue of events of balthernet/src/balthazar/mod.rs, once a peer is connected.
use balthazar.Prelude.{
  ℕ, zero, suc, is_none, map, length, ◌≡◌, refl, ap, ◌∙◌, Bool, true, false, ◌++◌, List, [], ◌∷◌,
  if◌then◌else◌,
}
use balthazar.Ids.{PeerId}
use balthazar.Message.{HandlerIn}
use balthazar.Connection.{Poll, ready, pending}
use balthazar.Authorization.{Multiaddrs}
use balthazar.Behaviour.{
  notify_handler, EventOut, Action, generate_event, Outcome, done, deadlocked, panicked,
  out_of_rounds, BalthBehaviour, InternalEvent, Peer, node_type_of, send_to_peer_or_dial,
  send_or_dial, peer_at, get_peer_or_insert, count_query,
}
use balthazar.Behaviour.Dispatch.{inject_connected}
use balthazar.Behaviour.Loop.{internal_event, ask, popped, process_events, process_queue, continue}
use balthazar.Behaviour.Relations.{peer_at-get_peer_or_insert}
use balthazar.Behaviour.Waiting.{send_each, inject_connected-send_each}

cons_done : Action → Outcome (List Action) → Outcome (List Action)
cons_done a (done as') = done (a ∷ as')
cons_done a o = o

module _ (m : Multiaddrs) where
  then_run :
      (BalthBehaviour m.Addr → Outcome (List Action))
      → Outcome (Poll Action × BalthBehaviour m.Addr)
      → Outcome (List Action)
  then_run next (done (ready a, b)) = cons_done a (next b)
  then_run next (done (pending, b)) = done []
  then_run next deadlocked = deadlocked
  then_run next panicked = panicked
  then_run next out_of_rounds = out_of_rounds

  -- What so many polls of the queue return, up to the first one that returns nothing.
  unfoldable pub run_queue : ℕ → ℕ → BalthBehaviour m.Addr → Outcome (List Action)
  unfolding then_run cons_done
  run_queue now zero b = done []
  run_queue now (suc n) b = then_run (run_queue now n) (process_queue m now b)

  -- A poll whose first event gives an action returns it.
  process_queue-ready :
      (now : ℕ) (e : InternalEvent m.Addr) (es : List (InternalEvent m.Addr)) (a : Action)
      (b c : BalthBehaviour m.Addr)
      → b.events ≡ e ∷ es
      → internal_event m now e (record b { events = es }) ≡ done (ready a, c)
      → process_queue m now b ≡ done (ready a, c)
  unfolding process_events popped continue
  process_queue-ready now e es a b c is h =
      ap
        (λ (xs : List (InternalEvent m.Addr)).
          popped m now (process_events m now (length b.events)) b xs)
        is
      ∙ ap (continue (process_events m now (length b.events))) h

  run_queue-ready :
      (now n : ℕ) (a : Action) (as' : List Action) (b c : BalthBehaviour m.Addr)
      → process_queue m now b ≡ done (ready a, c)
      → run_queue now n c ≡ done as'
      → run_queue now (suc n) b ≡ done (a ∷ as')
  unfolding run_queue then_run cons_done
  run_queue-ready now n a as' b c h k = ap (then_run (run_queue now n)) h ∙ ap (cons_done a) k

  -- A connected peer of a node that is not shutting down.
  abbrev IsOpen : PeerId → BalthBehaviour m.Addr → Type 0
  IsOpen i b = (b.is_shutting_down ≡ false) × ((peer_at i b).connected ≡ true)

  send_to_peer_or_dial-IsOpen :
      (i : PeerId) (e : HandlerIn) (b : BalthBehaviour m.Addr)
      → IsOpen i b
      → send_to_peer_or_dial i e b ≡ (notify_handler i e, get_peer_or_insert i b)
  unfolding send_to_peer_or_dial send_or_dial
  send_to_peer_or_dial-IsOpen i e b (stays, there) =
      let there' : (peer_at i (get_peer_or_insert i b)).connected ≡ true =
        ap (λ (p : Peer m.Addr). p.connected) (peer_at-get_peer_or_insert i i b) ∙ there in
      simp (stays, there') refl

  run_queue-sends :
      (now : ℕ) (i : PeerId) (es : List HandlerIn) (a : Action) (b : BalthBehaviour m.Addr)
      → IsOpen i b
      → b.events ≡ map (λ e. InternalEvent.send_message i e) es ++ InternalEvent.action a ∷ []
      → let as' = map (λ e. notify_handler i e) es ++ a ∷ [] in
        run_queue now (length as') b ≡ done as'
  unfolding internal_event run_queue
  run_queue-sends now i [] a b able is =
      run_queue-ready now 0 a [] b (record b { events = [] })
        (process_queue-ready now (InternalEvent.action a) [] a b (record b { events = [] }) is refl)
        refl
  run_queue-sends now i (e ∷ es) a b (stays, there) is =
      let rest = map (λ e. InternalEvent.send_message i e) es ++ InternalEvent.action a ∷ [] in
      let c = record b { events = rest } in
      let d = get_peer_or_insert i c in
      run_queue-ready now (length (map (λ e. notify_handler i e) es ++ a ∷ [])) (notify_handler i e)
        (map (λ e. notify_handler i e) es ++ a ∷ []) b d
        (process_queue-ready now (InternalEvent.send_message i e) rest (notify_handler i e) b d is (
          ap (λ (x : Action × BalthBehaviour m.Addr). done (ready x.0, x.1))
            (send_to_peer_or_dial-IsOpen i e c (stays, there))))
        (run_queue-sends now i es a d
          (stays, ap (λ (p : Peer m.Addr). p.connected) (peer_at-get_peer_or_insert i i c) ∙ there)
          refl)

  ask-unknown :
      (i : PeerId) (b : BalthBehaviour m.Addr)
      → is_none (peer_at i b).node_type ≡ true
      → ask i b ≡ (
        ready (
            notify_handler i
              (HandlerIn.node_type_request (node_type_of b.node_type_data) b.next_query_unique_id)),
        count_query b,
      )
  unfolding ask
  ask-unknown i b new = simp new refl

  -- The question for the type of a peer, if it is not known.
  abbrev pub asking : PeerId → Bool → BalthBehaviour m.Addr → List Action
  asking i unknown b =
      if unknown
      then notify_handler i
          (HandlerIn.node_type_request (node_type_of b.node_type_data) b.next_query_unique_id)
        ∷ []
      else []

  run_queue-asks :
      (now : ℕ) (i : PeerId) (es : List HandlerIn) (a : Action) (unknown : Bool)
      (b : BalthBehaviour m.Addr)
      → IsOpen i b
      → is_none (peer_at i b).node_type ≡ unknown
      → b.events
        ≡ (if unknown then InternalEvent.ask_node_type i ∷ [] else [])
          ++ map (λ e. InternalEvent.send_message i e) es
          ++ InternalEvent.action a ∷ []
      → let as' = asking i unknown b ++ map (λ e. notify_handler i e) es ++ a ∷ [] in
        run_queue now (length as') b ≡ done as'
  unfolding internal_event
  run_queue-asks now i es a false b able known is = run_queue-sends now i es a b able is
  run_queue-asks now i es a true b (stays, there) new is =
      let rest = map (λ e. InternalEvent.send_message i e) es ++ InternalEvent.action a ∷ [] in
      let c = get_peer_or_insert i (record b { events = rest }) in
      let same = peer_at-get_peer_or_insert i i (record b { events = rest }) in
      let question =
        notify_handler i
          (HandlerIn.node_type_request (node_type_of b.node_type_data) b.next_query_unique_id) in
      run_queue-ready now (length (map (λ e. notify_handler i e) es ++ a ∷ [])) question
        (map (λ e. notify_handler i e) es ++ a ∷ []) b (count_query c)
        (process_queue-ready now (InternalEvent.ask_node_type i) rest question b (count_query c) is
          (ap (λ (x : Poll Action × BalthBehaviour m.Addr). done x)
            (ask-unknown i c (ap (λ (p : Peer m.Addr). is_none p.node_type) same ∙ new))))
        (run_queue-sends now i es a (count_query c)
          (stays, ap (λ (p : Peer m.Addr). p.connected) same ∙ there) refl)

  -- Messages to a peer that is not connected, while the node is not shutting down and has no event
  -- queued, are all handed to the peer's connection once it is there: if nothing else happens, as
  -- many polls of the queue after inject_connected return the question for the peer's type if it is
  -- unknown, then each message once, in order and after those that waited already, and then the
  -- report of the connection.
  pub run_queue-inject_connected :
      (now : ℕ) (i : PeerId) (es : List HandlerIn) (b : BalthBehaviour m.Addr)
      → b.is_shutting_down ≡ false
      → (peer_at i b).connected ≡ false
      → b.events ≡ []
      → let b' = inject_connected i (send_each i es b) in
        let all = (peer_at i b).pending_messages ++ es in
        let asked = asking i (is_none (peer_at i b).node_type) b' in
        let as' =
          asked
          ++ map (λ e. notify_handler i e) all
          ++ generate_event (EventOut.peer_connected i) ∷ [] in
        run_queue now (length as') b' ≡ done as'
  run_queue-inject_connected now i es b stays away none_queued =
      let b' = inject_connected i (send_each i es b) in
      let all = (peer_at i b).pending_messages ++ es in
      let (queued, sent, there, type, stays') = inject_connected-send_each i es b stays away in
      run_queue-asks now i all (generate_event (EventOut.peer_connected i))
        (is_none (peer_at i b).node_type) b' (stays', there) type
        (queued
          ∙ ap
              (λ (before : List (InternalEvent m.Addr)).
                before
                ++ (if is_none (peer_at i b).node_type
                    then InternalEvent.ask_node_type i ∷ []
                    else [])
                ++ map (λ e. InternalEvent.send_message i e) all
                ++ InternalEvent.action (generate_event (EventOut.peer_connected i)) ∷ [])
              none_queued)
