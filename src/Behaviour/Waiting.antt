-- ===== src/Behaviour/Waiting.antt =====
-- Messages to a peer that is not connected: `send_to_peer_or_dial` and `inject_connected` of
-- balthernet/src/balthazar/mod.rs.
use balthazar.Prelude.{
  is_none, map, ◌≡◌, refl, ap, sym, ◌∙◌, Bool, true, false, ◌++◌, List, [], ◌∷◌, nat_eq,
  if◌then◌else◌,
}
use balthazar.Ids.{PeerId}
use balthazar.Message.{HandlerIn}
use balthazar.Behaviour.{
  dial_peer, EventOut, Action, generate_event, BalthBehaviour, InternalEvent, send_to_peer_or_dial,
  Peer, peer_at, set_peer, get_peer_or_insert,
}
use balthazar.Behaviour.Dispatch.{inject_connected, ask_type, send_all}
use balthazar.Behaviour.Relations.{peer_at-get_peer_or_insert}
use balthazar.Behaviour.{send_or_dial, push_event}
use balthazar.Behaviour.Relations.{peer_at-set_peer_self}

append_assoc : {A : Type 0} (xs ys zs : List A) → xs ++ (ys ++ zs) ≡ xs ++ ys ++ zs
append_assoc [] ys zs = refl
append_assoc (x ∷ xs) ys zs = ap (λ l. x ∷ l) (append_assoc xs ys zs)

append_nil : {A : Type 0} (xs : List A) → xs ≡ xs ++ []
append_nil [] = refl
append_nil (x ∷ xs) = ap (λ l. x ∷ l) (append_nil xs)

module _ {A : Type 0} where
  -- The state after messages to a peer, one by one.
  unfoldable pub send_each : PeerId → List HandlerIn → BalthBehaviour A → BalthBehaviour A
  send_each i [] b = b
  send_each i (e ∷ es) b = send_each i es (send_to_peer_or_dial i e b).1

  abbrev park : HandlerIn → Peer A → Peer A
  park e p = record p { pending_messages = p.pending_messages ++ e ∷ [] }

  send_to_peer_or_dial-parked :
      (i : PeerId) (e : HandlerIn) (b : BalthBehaviour A)
      → b.is_shutting_down ≡ false
      → (peer_at i b).connected ≡ false
      → send_to_peer_or_dial i e b ≡ (
        dial_peer i,
        set_peer i (park e (peer_at i (get_peer_or_insert i b))) (get_peer_or_insert i b),
      )
  unfolding send_to_peer_or_dial send_or_dial
  send_to_peer_or_dial-parked i e b stays away =
      let away' = ap (λ (p : Peer A). p.connected) (peer_at-get_peer_or_insert i i b) ∙ away in
      simp (stays, away') refl

  -- The peer with more messages, and the rest as before.
  abbrev Parked : PeerId → List HandlerIn → BalthBehaviour A → BalthBehaviour A → Type 0
  Parked i es b b' =
      ((peer_at i b').pending_messages ≡ (peer_at i b).pending_messages ++ es)
      × ((peer_at i b').node_type ≡ (peer_at i b).node_type)
      × (b'.events ≡ b.events)
      × (b'.is_shutting_down ≡ false)

  send_each-Parked :
      (i : PeerId) (es : List HandlerIn) (b : BalthBehaviour A)
      → b.is_shutting_down ≡ false
      → (peer_at i b).connected ≡ false
      → Parked i es b (send_each i es b)
  unfolding send_each
  send_each-Parked i [] b stays away =
      (append_nil (peer_at i b).pending_messages, refl, refl, stays)
  send_each-Parked i (e ∷ es) b stays away =
      let known = get_peer_or_insert i b in
      let p = park e (peer_at i known) in
      let c = set_peer i p known in
      let is : peer_at i c ≡ park e (peer_at i b) =
        peer_at-set_peer_self i p known ∙ ap (park e) (peer_at-get_peer_or_insert i i b) in
      let rest = send_each-Parked i es c stays (ap (λ (q : Peer A). q.connected) is ∙ away) in
      let next : send_each i (e ∷ es) b ≡ send_each i es c =
        ap (λ (x : Action × BalthBehaviour A). send_each i es x.1)
          (send_to_peer_or_dial-parked i e b stays away) in
      let old = (peer_at i b).pending_messages in
      rw next (
        rest.0
            ∙ ap (λ (q : Peer A). q.pending_messages ++ es) is
            ∙ sym (append_assoc old (e ∷ []) es),
        rest.1 ∙ ap (λ (q : Peer A). q.node_type) is,
        rest.2,
        rest.3,
      )

  -- The events that `inject_connected` adds, and the peer that it leaves.
  abbrev pub Delivers :
      PeerId → List HandlerIn → Bool → List (InternalEvent A) → BalthBehaviour A → Type 0
  Delivers i es unknown before b' =
      (b'.events
        ≡ before
          ++ (if unknown then InternalEvent.ask_node_type i ∷ [] else [])
          ++ map (λ e. InternalEvent.send_message i e) es
          ++ InternalEvent.action (generate_event (EventOut.peer_connected i)) ∷ [])
      × ((peer_at i b').pending_messages ≡ [])
      × ((peer_at i b').connected ≡ true)
      × (is_none (peer_at i b').node_type ≡ unknown)
      × (b'.is_shutting_down ≡ false)

  ask_type-events :
      (i : PeerId) (unknown : Bool) (b : BalthBehaviour A)
      → ask_type i unknown b ≡ record b {
        events = b.events ++ (if unknown then InternalEvent.ask_node_type i ∷ [] else []);
      }
  unfolding ask_type
  ask_type-events i true b = refl
  ask_type-events i false b = ap (λ es. record b { events = es }) (append_nil b.events)

  send_all-events :
      (i : PeerId) (es : List HandlerIn) (b : BalthBehaviour A)
      → send_all i es b
        ≡ record b { events = b.events ++ map (λ e. InternalEvent.send_message i e) es }
  unfolding send_all
  send_all-events i [] b = ap (λ es. record b { events = es }) (append_nil b.events)
  send_all-events i (e ∷ es) b =
      send_all-events i es (push_event (InternalEvent.send_message i e) b)
      ∙ ap (λ es. record b { events = es })
          (sym (
            append_assoc b.events (InternalEvent.send_message i e ∷ [])
              (map (λ e. InternalEvent.send_message i e) es)))

  inject_connected-Delivers :
      (i : PeerId) (b : BalthBehaviour A)
      → b.is_shutting_down ≡ false
      → Delivers i
          (peer_at i b).pending_messages
          (is_none (peer_at i b).node_type)
          b.events
          (inject_connected i b)
  unfolding inject_connected
  inject_connected-Delivers i b stays =
      let known = get_peer_or_insert i b in
      let p = peer_at i known in
      let p' = record p { connected = true; pending_messages = [] } in
      let same : p ≡ peer_at i b = peer_at-get_peer_or_insert i i b in
      let met = set_peer i p' known in
      let asked = ask_type i (is_none p.node_type) met in
      let at = peer_at-set_peer_self i p' known in
      let says : List (InternalEvent A) =
        InternalEvent.action (generate_event (EventOut.peer_connected i)) ∷ [] in
      let all = send_all-events i p.pending_messages asked in
      let types = ask_type-events i (is_none p.node_type) met in
      (
        ap (λ (x : BalthBehaviour A). x.events ++ says) all
            ∙ ap
                (λ (x : BalthBehaviour A).
                  x.events ++ map (λ e. InternalEvent.send_message i e) p.pending_messages ++ says)
                types
            ∙ ap
                (λ (q : Peer A).
                  b.events
                  ++ (if is_none q.node_type then InternalEvent.ask_node_type i ∷ [] else [])
                  ++ map (λ e. InternalEvent.send_message i e) q.pending_messages
                  ++ says)
                same,
        ap (λ (x : BalthBehaviour A). (peer_at i x).pending_messages) all
            ∙ ap (λ (x : BalthBehaviour A). (peer_at i x).pending_messages) types
            ∙ ap (λ (q : Peer A). q.pending_messages) at,
        ap (λ (x : BalthBehaviour A). (peer_at i x).connected) all
            ∙ ap (λ (x : BalthBehaviour A). (peer_at i x).connected) types
            ∙ ap (λ (q : Peer A). q.connected) at,
        ap (λ (x : BalthBehaviour A). is_none (peer_at i x).node_type) all
            ∙ ap (λ (x : BalthBehaviour A). is_none (peer_at i x).node_type) types
            ∙ ap (λ (q : Peer A). is_none q.node_type) at
            ∙ ap (λ (q : Peer A). is_none q.node_type) same,
        ap (λ (x : BalthBehaviour A). x.is_shutting_down) all
            ∙ ap (λ (x : BalthBehaviour A). x.is_shutting_down) types
            ∙ stays,
      )

  Delivers-trans :
      (i : PeerId) (es es' : List HandlerIn) (u u' : Bool) (before before' : List (InternalEvent A))
      (b : BalthBehaviour A)
      → es ≡ es'
      → u ≡ u'
      → before ≡ before'
      → Delivers i es u before b
      → Delivers i es' u' before' b
  Delivers-trans i es es' u u' before before' b p q r d = rw (← p, ← q, ← r) d

  -- Messages to a peer that is not connected, while the node is not shutting down, are all queued
  -- to be sent when it connects, after those that waited already and in their order, once each; the
  -- question for its type comes first if it is unknown, and the node is told of the connection last.
  pub inject_connected-send_each :
      (i : PeerId) (es : List HandlerIn) (b : BalthBehaviour A)
      → b.is_shutting_down ≡ false
      → (peer_at i b).connected ≡ false
      → Delivers i
          ((peer_at i b).pending_messages ++ es)
          (is_none (peer_at i b).node_type)
          b.events
          (inject_connected i (send_each i es b))
  inject_connected-send_each i es b stays away =
      let parked = send_each-Parked i es b stays away in
      Delivers-trans i _ _ _ _ _ _ (inject_connected i (send_each i es b)) parked.0
        (ap is_none parked.1) parked.2 (inject_connected-Delivers i (send_each i es b) parked.3)
