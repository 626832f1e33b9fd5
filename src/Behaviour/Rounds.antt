-- ===== src/Behaviour/Rounds.antt =====
-- Lemmas on `poll` of balthernet/src/balthazar/mod.rs: relationships and the queue.
use balthazar.Prelude.{
  ℕ, length, count_if-le-length, zero, suc, is_none, any, ◌<◌, ◌≡◌, refl, ap, ◌∙◌, true, ◌⊎◌, inl,
  inr, some, List, [], ◌∷◌, nat_eq, if_both, arith,
}
use balthazar.Ids.{PeerId}
use balthazar.Message.{HandlerOut}
use balthazar.Connection.{Poll, ready, pending}
use balthazar.Authorization.{Multiaddrs}
use balthazar.Behaviour.{
  Action, Outcome, done, deadlocked, panicked, out_of_rounds, BalthBehaviour, InternalEvent,
  send_to_peer_or_dial, Peer, node_type_of, into_type, node_type_into, peer_at, get_peer_or_insert,
  count_query, is_related,
}
use balthazar.Behaviour.Dispatch.{handler_event}
use balthazar.Behaviour.Relations.{
  is_internal, internals, Narrows, Narrows-refl, Narrows-trans, Narrows-get_peer_or_insert,
  Narrows-set_peer, Narrows-bookkeeping, Narrows-send_to_peer_or_dial,
}
use balthazar.Behaviour.Joining.{other, Ends, Ends-map, Joins, Joins-Narrows}
use balthazar.Behaviour.Loop.{
  check_relationships, dial_once, ask, continue, add_addr, internal_event, popped, process_events,
  process_queue, poll,
}
use balthazar.Behaviour.Accepting.{IsOther}
use balthazar.Behaviour.Granting.{Begins, handler_event-Joins}
use balthazar.Behaviour.Pings.{and_then-Ends, check_relationships-Narrows}

module _ {A : Type 0} where
  -- Whoever is related to us is known to be of the other type.
  abbrev pub IsConsistent : BalthBehaviour A → Type 0
  IsConsistent b =
      (j : PeerId)
      → is_related j b.node_type_data ≡ true
      → node_type_into (peer_at j b) ≡ some (other (node_type_of b.node_type_data))

  -- What a round leaves: consistent relationships, and no new event to work on.
  abbrev pub Keeps : BalthBehaviour A → BalthBehaviour A → Type 0
  Keeps b b' = (IsConsistent b → IsConsistent b') × (internals b' ≡ internals b)

  pub Keeps-Joins :
      (i : PeerId) (N : Type 0) (b b' : BalthBehaviour A)
      → (N → IsOther i b)
      → Joins i N b b'
      → Keeps b b'
  Keeps-Joins i N b b' f k = (λ c j h. known c j (k.related j h), k.internal)
    where
      known :
          IsConsistent b
          → (j : PeerId) → (is_related j b.node_type_data ≡ true) ⊎ ((j ≡ i) × N)
          → node_type_into (peer_at j b') ≡ some (other (node_type_of b'.node_type_data))
      known c j (inl h) = rw k.same (k.types j _ (c j h))
      known c j (inr (is, n)) = rw (is, k.same) (k.types i _ (f n))

  pub Keeps-Narrows : (b b' : BalthBehaviour A) → Narrows b b' → Keeps b b'
  Keeps-Narrows b b' n = Keeps-Joins 0 ⊥ b b' (λ h. absurd h) (Joins-Narrows 0 ⊥ b b' n)

  dial_once-Keeps :
      (i : PeerId) (p : Peer A) (b : BalthBehaviour A)
      → p.node_type ≡ (peer_at i b).node_type
      → Narrows b (dial_once i p b).1
  unfolding dial_once
  dial_once-Keeps i p b e =
      if_both (λ (x : Poll Action × BalthBehaviour A). Narrows b x.1) p.dialed
        (Narrows-set_peer i p b (λ t h. ap into_type e ∙ h))
        (Narrows-set_peer i _ b (λ t h. ap into_type e ∙ h))

  ask-Keeps : (i : PeerId) (b : BalthBehaviour A) → Narrows b (ask i b).1
  unfolding ask
  ask-Keeps i b =
      if_both (λ (x : Poll Action × BalthBehaviour A). Narrows b x.1)
        (is_none (peer_at i b).node_type)
        (Narrows-bookkeeping b (count_query b).next_query_unique_id b.delays b.is_shutting_down)
        (Narrows-refl b)

module _ (m : Multiaddrs) where
  Begins-IsOther :
      (i : PeerId) (e : HandlerOut) (b : BalthBehaviour m.Addr) → Begins m i e b → IsOther i b
  Begins-IsOther i (HandlerOut.manager_request s r) b (ours, theirs) = theirs ∙ rw ours refl
  Begins-IsOther i (HandlerOut.manager_answer accepted n) b h = h.1
  Begins-IsOther i e b h = absurd h

  add_addr-node_type : (a : m.Addr) (p : Peer m.Addr) → (add_addr m a p).node_type ≡ p.node_type
  add_addr-node_type a p =
      if_both (λ (q : Peer m.Addr). q.node_type ≡ p.node_type) (any (λ x. m.addr_eq x a) p.addrs)
        refl refl

  internal_event-Keeps :
      (now : ℕ) (e : InternalEvent m.Addr) (b : BalthBehaviour m.Addr)
      → Ends (λ x. Keeps b x.1) (internal_event m now e b)
  unfolding internal_event
  internal_event-Keeps now (InternalEvent.action a) b = Keeps-Narrows b b (Narrows-refl b)
  internal_event-Keeps now (InternalEvent.mdns i a) b =
      let known = get_peer_or_insert i b in
      let p = add_addr m a (peer_at i known) in
      Keeps-Narrows b (dial_once i p known).1 (
        Narrows-trans b known (dial_once i p known).1 (Narrows-get_peer_or_insert i b)
          (dial_once-Keeps i p known (add_addr-node_type a (peer_at i known))))
  internal_event-Keeps now (InternalEvent.send_message i e) b =
      Keeps-Narrows b (send_to_peer_or_dial i e b).1 (Narrows-send_to_peer_or_dial i e b)
  internal_event-Keeps now (InternalEvent.handler i e) b =
      Ends-map (λ x. Joins i (Begins m i e b) b x.1) (λ x. Keeps b x.1) (handler_event m now i e b)
        (λ x. Keeps-Joins i (Begins m i e b) b x.1 (Begins-IsOther i e b))
        (handler_event-Joins m now i e b)
  internal_event-Keeps now (InternalEvent.ask_node_type i) b =
      let known = get_peer_or_insert i b in
      Keeps-Narrows b (ask i known).1
        (Narrows-trans b known (ask i known).1 (Narrows-get_peer_or_insert i b) (ask-Keeps i known))

  abbrev IsConsistentEnd : Outcome (Poll Action × BalthBehaviour m.Addr) → Type 0
  IsConsistentEnd o = Ends (λ x. IsConsistent x.1) o

  continue-IsConsistentEnd :
      (next : BalthBehaviour m.Addr → Outcome (Poll Action × BalthBehaviour m.Addr))
      (b : BalthBehaviour m.Addr) (o : Outcome (Poll Action × BalthBehaviour m.Addr))
      → Ends (λ x. Keeps b x.1) o
      → IsConsistent b
      → ((c : BalthBehaviour m.Addr)
          → internals c ≡ internals b
          → IsConsistent c
          → IsConsistentEnd (next c))
      → IsConsistentEnd (continue next o)
  unfolding continue
  continue-IsConsistentEnd next b (done (ready a, c)) k is go = k.0 is
  continue-IsConsistentEnd next b (done (pending, c)) k is go = go c k.1 (k.0 is)
  continue-IsConsistentEnd next b deadlocked k is go = tt
  continue-IsConsistentEnd next b panicked k is go = tt
  continue-IsConsistentEnd next b out_of_rounds k is go = k

  worked-IsConsistentEnd :
      (now : ℕ) (next : BalthBehaviour m.Addr → Outcome (Poll Action × BalthBehaviour m.Addr))
      (b : BalthBehaviour m.Addr) (e : InternalEvent m.Addr) (es : List (InternalEvent m.Addr))
      → b.events ≡ e ∷ es
      → is_internal e ≡ true
      → IsConsistent b
      → ((c : BalthBehaviour m.Addr)
          → internals c < internals b
          → IsConsistent c
          → IsConsistentEnd (next c))
      → IsConsistentEnd (continue next (internal_event m now e (record b { events = es })))
  worked-IsConsistentEnd now next b e es first work is go =
      let left = record b { events = es } in
      let fewer : internals left < internals b = rw (first, work) (omega arith) in
      continue-IsConsistentEnd next left (internal_event m now e left)
        (internal_event-Keeps now e left) is (λ c same consistent. go c (rw same fewer) consistent)

  popped-IsConsistentEnd :
      (now : ℕ) (next : BalthBehaviour m.Addr → Outcome (Poll Action × BalthBehaviour m.Addr))
      (b : BalthBehaviour m.Addr) (es : List (InternalEvent m.Addr))
      → b.events ≡ es
      → IsConsistent b
      → ((c : BalthBehaviour m.Addr)
          → internals c < internals b
          → IsConsistent c
          → IsConsistentEnd (next c))
      → IsConsistentEnd (popped m now next b es)
  unfolding popped continue internal_event
  popped-IsConsistentEnd now next b [] e is go = is
  popped-IsConsistentEnd now next b (InternalEvent.action a ∷ es) e is go = is
  popped-IsConsistentEnd now next b (InternalEvent.mdns i a ∷ es) e is go =
      worked-IsConsistentEnd now next b (InternalEvent.mdns i a) es e refl is go
  popped-IsConsistentEnd now next b (InternalEvent.handler i x ∷ es) e is go =
      worked-IsConsistentEnd now next b (InternalEvent.handler i x) es e refl is go
  popped-IsConsistentEnd now next b (InternalEvent.ask_node_type i ∷ es) e is go =
      worked-IsConsistentEnd now next b (InternalEvent.ask_node_type i) es e refl is go
  popped-IsConsistentEnd now next b (InternalEvent.send_message i x ∷ es) e is go =
      worked-IsConsistentEnd now next b (InternalEvent.send_message i x) es e refl is go

  process_events-IsConsistentEnd :
      (now n : ℕ) (b : BalthBehaviour m.Addr)
      → internals b < n
      → IsConsistent b
      → IsConsistentEnd (process_events m now n b)
  unfolding process_events
  process_events-IsConsistentEnd now zero b l is = absurd (omega arith)
  process_events-IsConsistentEnd now (suc n) b l is =
      popped-IsConsistentEnd now (process_events m now n) b b.events refl is
        (λ c fewer. process_events-IsConsistentEnd now n c (omega (arith, fewer, l)))

  pub process_queue-IsConsistentEnd :
      (now : ℕ) (b : BalthBehaviour m.Addr)
      → IsConsistent b
      → IsConsistentEnd (process_queue m now b)
  process_queue-IsConsistentEnd now b is =
      process_events-IsConsistentEnd now (suc (length b.events)) b
        (omega (arith, count_if-le-length is_internal b.events)) is

module _ (m : Multiaddrs) where
  pub poll-IsConsistent :
      (expire : ℕ → List ℕ → List ℕ) (now : ℕ) (b : BalthBehaviour m.Addr)
      → IsConsistent b
      → Ends (λ x. IsConsistent x.1) (poll m expire now b)
  unfolding poll
  poll-IsConsistent expire now b is =
      let c = record b { delays = expire now b.delays } in
      and_then-Ends (λ x. IsConsistent x.1) c (process_queue m now) (check_relationships now c)
        (check_relationships-Narrows now c)
        (λ d n. process_queue-IsConsistentEnd m now d ((Keeps-Narrows c d n).0 is))
