-- ===== src/Behaviour/Granting.antt =====
-- The handlers of a peer's messages, `handler_event` of balthernet/src/balthazar/mod.rs: whom they
-- make the node related to.
use balthazar.Prelude.{ℕ, ◌≡◌, refl, ap, sym, ◌∙◌, Option, none, some, nat_eq, if_both}
use balthazar.Ids.{PeerId}
use balthazar.Workers.{WorkerSpecs}
use balthazar.Message.{NodeType, RequestId, HandlerIn, HandlerOut}
use balthazar.Connection.{Poll, ready, pending}
use balthazar.Authorization.{Multiaddrs, is_manager_authorized}
use balthazar.Behaviour.{
  EventOut, Action, generate_event, Outcome, done, deadlocked, panicked, out_of_rounds,
  BalthBehaviour, node_type_into, peer_type, peer_at, set_peer, get_peer_or_insert,
  inject_generate_event, count_query,
}
use balthazar.Behaviour.Handshake.{
  manager_request, node_type_answer, type_answer, request_manager, requested, same_type,
  node_type_request, inject_ready,
}
use balthazar.Behaviour.Dispatch.{handler_event, dispatch, wrapped_outcome}
use balthazar.Behaviour.Relations.{
  Narrows, Narrows-refl, Narrows-trans, Narrows-get_peer_or_insert, Narrows-set_peer,
  Narrows-inject, Narrows-inject_action, Narrows-bookkeeping, peer_at-get_peer_or_insert,
}
use balthazar.Behaviour.Joining.{
  Ends, Ends-map, Joins, Joins-Narrows, Joins-before, not_mine-Narrows, manager_bye-Narrows,
  needs-Narrows, tasks_pong-Narrows, manager_pong-Narrows,
}
use balthazar.Behaviour.Accepting.{Granted, Accepted, manager_request-Joins, manager_answer-Joins}

module _ (m : Multiaddrs) where
  request_manager-Narrows :
      (i : PeerId) (b c : BalthBehaviour m.Addr) (o : Option WorkerSpecs)
      → Narrows b c
      → Narrows b (request_manager m i c o).1
  unfolding request_manager
  request_manager-Narrows i b c none n = n
  request_manager-Narrows i b c (some s) n =
      Narrows-trans b c (count_query c) n
        (Narrows-bookkeeping c (count_query c).next_query_unique_id c.delays c.is_shutting_down)

  type_answer-Narrows :
      (i : PeerId) (t : NodeType) (b : BalthBehaviour m.Addr) (o : Option NodeType)
      → node_type_into (peer_at i b) ≡ o
      → Narrows b (type_answer m i (peer_at i b) t b o).1
  unfolding type_answer
  type_answer-Narrows i t b (some previous) e =
      if_both (λ (x : Poll Action × BalthBehaviour m.Addr). Narrows b x.1) (same_type previous t)
        (Narrows-refl b) (Narrows-refl b)
  type_answer-Narrows i t b none e =
      let p = record (peer_at i b) { node_type = some (peer_type t) } in
      request_manager-Narrows i b
        (inject_generate_event (EventOut.peer_has_new_type i t) (set_peer i p b))
        (requested m i (peer_at i b) t b.node_type_data)
        (Narrows-inject (generate_event (EventOut.peer_has_new_type i t)) b (set_peer i p b)
          (Narrows-set_peer i p b (λ u k. absurd_type (sym e ∙ k))))
    where
      absurd_type : {u : NodeType} {X : Option NodeType} → none ≡ some u → X ≡ some u
      absurd_type h = cc

  node_type_answer-Narrows :
      (i : PeerId) (t : NodeType) (b : BalthBehaviour m.Addr)
      → Narrows b (node_type_answer m i t b).1
  unfolding node_type_answer
  node_type_answer-Narrows i t b = type_answer-Narrows i t b (node_type_into (peer_at i b)) refl

  inject_ready-Narrows :
      (a : Poll Action) (b c : BalthBehaviour m.Addr) → Narrows b c → Narrows b (inject_ready m a c)
  unfolding inject_ready
  inject_ready-Narrows pending b c n = n
  inject_ready-Narrows (ready a) b c n = Narrows-inject a b c n

  node_type_request-Narrows :
      (i : PeerId) (t : NodeType) (r : RequestId) (b : BalthBehaviour m.Addr)
      → Narrows b (node_type_request m i t r b).1
  unfolding node_type_request
  node_type_request-Narrows i t r b =
      inject_ready-Narrows (node_type_answer m i t b).0 b (node_type_answer m i t b).1
        (node_type_answer-Narrows i t b)

  -- What an event may begin: a worker's request to a manager, or a manager's acceptance.
  abbrev pub Begins : PeerId → HandlerOut → BalthBehaviour m.Addr → Type 0
  Begins i (HandlerOut.manager_request s r) b = Granted i b
  Begins i (HandlerOut.manager_answer accepted n) b = Accepted m accepted i b
  Begins i e b = ⊥

  wrapped_outcome-Joins :
      (i : PeerId) (N : Type 0) (b : BalthBehaviour m.Addr)
      (o : Outcome (HandlerIn × BalthBehaviour m.Addr))
      → Ends (λ x. Joins i N b x.1) o
      → Ends (λ x. Joins i N b x.1) (wrapped_outcome i o)
  unfolding wrapped_outcome
  wrapped_outcome-Joins i N b (done x) h = h
  wrapped_outcome-Joins i N b deadlocked h = tt
  wrapped_outcome-Joins i N b panicked h = tt
  wrapped_outcome-Joins i N b out_of_rounds h = h

  dispatch-Joins :
      (now : ℕ) (i : PeerId) (e : HandlerOut) (b : BalthBehaviour m.Addr)
      → Ends (λ x. Joins i (Begins i e b) b x.1) (dispatch m now i e b)
  unfolding dispatch
  dispatch-Joins now i (HandlerOut.node_type_request t r) b =
      Joins-Narrows i ⊥ b _ (node_type_request-Narrows i t r b)
  dispatch-Joins now i (HandlerOut.node_type_answer t n) b =
      Joins-Narrows i ⊥ b _ (node_type_answer-Narrows i t b)
  dispatch-Joins now i (HandlerOut.not_mine n) b = Joins-Narrows i ⊥ b _ (not_mine-Narrows i b)
  dispatch-Joins now i (HandlerOut.manager_request s r) b =
      wrapped_outcome-Joins i (Granted i b) b (manager_request now i s r b)
        (manager_request-Joins now i s r b)
  dispatch-Joins now i (HandlerOut.manager_answer accepted n) b =
      manager_answer-Joins m now i accepted n b
  dispatch-Joins now i (HandlerOut.manager_bye r) b =
      Joins-Narrows i ⊥ b _ (manager_bye-Narrows i r b)
  dispatch-Joins now i (HandlerOut.manager_ping r) b =
      Joins-Narrows i ⊥ b _ (needs-Narrows i r _ _ b (Narrows-refl b))
  dispatch-Joins now i (HandlerOut.manager_pong n) b =
      Joins-Narrows i ⊥ b _ (manager_pong-Narrows now i n b)
  dispatch-Joins now i (HandlerOut.tasks_execute ts r) b =
      Joins-Narrows i ⊥ b _ (needs-Narrows i r _ _ b (Narrows-inject_action _ b))
  dispatch-Joins now i (HandlerOut.tasks_ping ts r) b =
      Joins-Narrows i ⊥ b _ (needs-Narrows i r _ _ b (Narrows-refl b))
  dispatch-Joins now i (HandlerOut.tasks_pong ss n) b =
      Joins-Narrows i ⊥ b _ (tasks_pong-Narrows i ss n b)
  dispatch-Joins now i (HandlerOut.tasks_abord ts r) b =
      Joins-Narrows i ⊥ b _ (needs-Narrows i r _ _ b (Narrows-inject_action _ b))
  dispatch-Joins now i (HandlerOut.task_status t s r) b =
      Joins-Narrows i ⊥ b _ (needs-Narrows i r _ _ b (Narrows-inject_action _ b))
  dispatch-Joins now i (HandlerOut.query_error e n) b =
      Joins-Narrows i ⊥ b _ (Narrows-inject_action _ b)

  Begins-known :
      (i : PeerId) (e : HandlerOut) (b : BalthBehaviour m.Addr)
      → Begins i e (get_peer_or_insert i b)
      → Begins i e b
  Begins-known i (HandlerOut.manager_request s r) b (ours, theirs) =
      (ours, ap node_type_into (sym (peer_at-get_peer_or_insert i i b)) ∙ theirs)
  Begins-known i (HandlerOut.manager_answer accepted n) b
        (accept, type, (d, is, free, authorized)) =
      let same = sym (peer_at-get_peer_or_insert i i b) in
      (
        accept,
        ap node_type_into same ∙ type,
        (
          d,
          is,
          free,
          ap (λ p. is_manager_authorized m d.authorized_managers (some i) p.addrs) same
              ∙ authorized,
        ),
      )
  Begins-known i e b h = absurd h

  -- Whatever message a peer sends, the node is related to nobody else than before, but for that
  -- peer, and then only if it asks for a manager, our node is a manager and the peer is known to be
  -- a worker, or if it accepts, it is known to be a manager, our node is a worker without a
  -- manager, and the addresses that are known of the peer are authorized. Our own type stays, no
  -- peer's type is forgotten, and the number of queued events that are still to be worked on stays.
  pub handler_event-Joins :
      (now : ℕ) (i : PeerId) (e : HandlerOut) (b : BalthBehaviour m.Addr)
      → Ends (λ x. Joins i (Begins i e b) b x.1) (handler_event m now i e b)
  unfolding handler_event
  handler_event-Joins now i e b =
      let known = get_peer_or_insert i b in
      Ends-map (λ x. Joins i (Begins i e known) known x.1) (λ x. Joins i (Begins i e b) b x.1)
        (dispatch m now i e known)
        (λ x.
          Joins-before i (Begins i e known) (Begins i e b) b known x.1
            (Narrows-get_peer_or_insert i b) (Begins-known i e b))
        (dispatch-Joins now i e known)
