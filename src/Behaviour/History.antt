-- ===== src/Behaviour/History.antt =====
-- Sequences of the calls of `BalthBehaviour`, balthernet/src/balthazar/mod.rs.
use balthazar.Prelude.{
  ℕ, is_none, ◌≡◌, refl, ap, sym, ◌∙◌, Bool, true, false, Option, none, some, List, [], ◌∷◌, nat_eq,
}
use balthazar.Prelude.Assoc.{lookup}
use balthazar.Ids.{PeerId}
use balthazar.Message.{HandlerIn, HandlerOut}
use balthazar.Connection.{Poll}
use balthazar.Authorization.{Multiaddrs}
use balthazar.Behaviour.{
  EventIn, Action, Outcome, done, deadlocked, panicked, out_of_rounds, BalthBehaviour, Peer,
  node_type_into, peer_at, set_peer, get_peer_or_insert, is_related, is_some_link, is_manager,
}
use balthazar.Behaviour.Dispatch.{
  handle_event_in, inject_mdns_event, inject_handler_event, inject_connected, inject_disconnected,
  ask_type, send_all, disconnect,
}
use balthazar.Behaviour.Relations.{
  Narrows, Narrows-trans, Narrows-get_peer_or_insert, Narrows-set_peer,
}
use balthazar.Behaviour.Joining.{Ends, Ends-map}
use balthazar.Behaviour.Loop.{and_then, poll}
use balthazar.Behaviour.Rounds.{IsConsistent, Keeps-Narrows, poll-IsConsistent}
use balthazar.Behaviour.{NodeTypeConf, or_new, new_behaviour}
use balthazar.Behaviour.Told.{handle_event_in-Narrows}

-- What the swarm and the node call.
pub data Op (A : Type 0) : Type 0 where
  told : EventIn → Op A
  discovered : PeerId → A → Op A
  received : PeerId → HandlerOut → Op A
  connected disconnected : PeerId → Op A
  polled : (ℕ → List ℕ → List ℕ) → ℕ → Op A

module _ {A : Type 0} where
  without_action : Outcome (Poll Action × BalthBehaviour A) → Outcome (BalthBehaviour A)
  without_action (done (a, b)) = done b
  without_action deadlocked = deadlocked
  without_action panicked = panicked
  without_action out_of_rounds = out_of_rounds

module _ (m : Multiaddrs) where
  operate : Op m.Addr → BalthBehaviour m.Addr → Outcome (BalthBehaviour m.Addr)
  unfolding without_action
  operate (told e) b = handle_event_in e b
  operate (discovered i a) b = done (inject_mdns_event i a b)
  operate (received i e) b = done (inject_handler_event i e b)
  operate (connected i) b = done (inject_connected i b)
  operate (disconnected i) b = inject_disconnected i b
  operate (polled expire now) b = without_action (poll m expire now b)

  unfoldable pub operate_all :
      List (Op m.Addr) → BalthBehaviour m.Addr → Outcome (BalthBehaviour m.Addr)
  unfolding operate and_then
  operate_all [] b = done b
  operate_all (o ∷ os) b = and_then (operate_all os) (operate o b)

module _ {A : Type 0} where
  ask_type-IsConsistent :
      (i : PeerId) (unknown : Bool) (b : BalthBehaviour A)
      → IsConsistent b
      → IsConsistent (ask_type i unknown b)
  unfolding ask_type
  ask_type-IsConsistent i true b is = is
  ask_type-IsConsistent i false b is = is

  send_all-IsConsistent :
      (i : PeerId) (es : List HandlerIn) (b : BalthBehaviour A)
      → IsConsistent b
      → IsConsistent (send_all i es b)
  unfolding send_all
  send_all-IsConsistent i [] b is = is
  send_all-IsConsistent i (e ∷ es) b is = send_all-IsConsistent i es _ is

  inject_connected-IsConsistent :
      (i : PeerId) (b : BalthBehaviour A) → IsConsistent b → IsConsistent (inject_connected i b)
  unfolding inject_connected
  inject_connected-IsConsistent i b is =
      let known = get_peer_or_insert i b in
      let p = peer_at i known in
      let met = set_peer i (record p { connected = true; pending_messages = [] }) known in
      let met_Narrows =
        Narrows-trans b known met (Narrows-get_peer_or_insert i b)
          (Narrows-set_peer i _ known (λ t h. h)) in
      send_all-IsConsistent i p.pending_messages (ask_type i (is_none p.node_type) met)
        (ask_type-IsConsistent i (is_none p.node_type) met ((Keeps-Narrows b met met_Narrows).0 is))

  disconnect-IsConsistent :
      (i : PeerId) (b : BalthBehaviour A) (o : Option (Peer A))
      → lookup i b.peers ≡ o
      → IsConsistent b
      → Ends (λ x. IsConsistent x) (disconnect i b o)
  unfolding disconnect
  disconnect-IsConsistent i b none e is = tt
  disconnect-IsConsistent i b (some p) e is =
      (Keeps-Narrows b (set_peer i (record p { connected = false }) b) (
          Narrows-set_peer i (record p { connected = false }) b
            (λ t h. sym (ap (λ o. node_type_into (or_new i o)) e) ∙ h))).0
        is

  new_behaviour-IsConsistent :
      (conf : NodeTypeConf A) (interval timeout : ℕ)
      → IsConsistent (new_behaviour conf interval timeout)
  unfolding new_behaviour is_related is_some_link is_manager lookup
  new_behaviour-IsConsistent NodeTypeConf.manager interval timeout j h = cc
  new_behaviour-IsConsistent (NodeTypeConf.worker authorized s) interval timeout j h = cc

module _ (m : Multiaddrs) where
  without_action-Ends :
      (P : BalthBehaviour m.Addr → Type 0) (o : Outcome (Poll Action × BalthBehaviour m.Addr))
      → Ends (λ x. P x.1) o
      → Ends P (without_action o)
  unfolding without_action
  without_action-Ends P (done x) h = h
  without_action-Ends P deadlocked h = tt
  without_action-Ends P panicked h = tt
  without_action-Ends P out_of_rounds h = h

  operate-IsConsistent :
      (o : Op m.Addr) (b : BalthBehaviour m.Addr)
      → IsConsistent b
      → Ends (λ x. IsConsistent x) (operate m o b)
  unfolding operate inject_mdns_event inject_handler_event inject_disconnected
  operate-IsConsistent (told e) b is =
      Ends-map (λ x. Narrows b x) (λ x. IsConsistent x) (handle_event_in e b)
        (λ x n. (Keeps-Narrows b x n).0 is) (handle_event_in-Narrows e b)
  operate-IsConsistent (discovered i a) b is = is
  operate-IsConsistent (received i e) b is = is
  operate-IsConsistent (connected i) b is = inject_connected-IsConsistent i b is
  operate-IsConsistent (disconnected i) b is =
      disconnect-IsConsistent i b (lookup i b.peers) refl is
  operate-IsConsistent (polled expire now) b is =
      without_action-Ends (λ x. IsConsistent x) (poll m expire now b)
        (poll-IsConsistent m expire now b is)

  operate_all-from :
      (os : List (Op m.Addr)) (b : BalthBehaviour m.Addr)
      → IsConsistent b
      → Ends (λ x. IsConsistent x) (operate_all m os b)
  unfolding operate_all and_then
  operate_all-from [] b is = is
  operate_all-from (o ∷ os) b is =
      next (operate m o b) (operate-IsConsistent o b is) (operate_all-from os)
    where
      next :
          (x : Outcome (BalthBehaviour m.Addr))
          → Ends (λ x. IsConsistent x) x
          → ((c : BalthBehaviour m.Addr)
              → IsConsistent c
              → Ends (λ x. IsConsistent x) (operate_all m os c))
          → Ends (λ x. IsConsistent x) (and_then (operate_all m os) x)
      next (done c) h go = go c h
      next deadlocked h go = tt
      next panicked h go = tt
      next out_of_rounds h go = h

  -- From a new node, after any sequence of events from the node, callbacks of the swarm, messages
  -- of peers and polls, at any instants and whatever the queue of delays lets go: unless a call
  -- waits for a lock that it holds or panics, the last state is reached, no queue is left before
  -- its end, and every peer that the node is related to is known to be of the other type.
  pub operate_all-IsConsistent :
      (conf : NodeTypeConf m.Addr) (interval timeout : ℕ) (os : List (Op m.Addr))
      → Ends (λ x. IsConsistent x) (operate_all m os (new_behaviour conf interval timeout))
  operate_all-IsConsistent conf interval timeout os =
      operate_all-from os (new_behaviour conf interval timeout)
        (new_behaviour-IsConsistent conf interval timeout)
