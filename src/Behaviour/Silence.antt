-- ===== src/Behaviour/Silence.antt =====
-- Time-outs: `check_manager_worker_relationship` of balthernet/src/balthazar/events.rs and the start of
-- `poll` of balthernet/src/balthazar/mod.rs.
use balthazar.Prelude.{
  ℕ, ◌≤◌, ◌-◌, ◌<◌, ◌≡◌, refl, ap, ◌∙◌, true, false, Option, none, some, ◌++◌, [], ◌∷◌, nat_eq,
  Bool, List, ==_iff, if_both, if◌then◌else◌, arith,
}
use balthazar.Ids.{PeerId}
use balthazar.Message.{NodeType, HandlerIn}
use balthazar.Behaviour.{
  EventOut, Action, notify_handler, dial_peer, generate_event, Peer, Link, WorkerData, NodeTypeData,
  Outcome, done, BalthBehaviour, InternalEvent, send_to_peer_or_dial, node_type_of, peer_at,
  set_peer, get_peer_or_insert, inject_generate_event, count_query, is_related, is_manager,
  inject_send_to_peer_or_dial,
}
use balthazar.Behaviour.Events.{break_worker_manager_relationship}
use balthazar.Behaviour.Relations.{
  break-IsBroken, peer_at-get_peer_or_insert, peer_at-set_peer_self,
}
use balthazar.Behaviour.Events.{timed_out, check_manager_worker_relationship}
use balthazar.Behaviour.Loop.{
  check_manager, check_all, report_timed_out, act_on, and_then, act_on_all, check_relationships,
}
use balthazar.Behaviour.{send_or_dial}

-- What our side of a time-out is called.
abbrev pub timed_out_event : PeerId → NodeType → EventOut
timed_out_event i NodeType.manager = EventOut.worker_timed_out i
timed_out_event i NodeType.worker = EventOut.manager_timed_out i

check-timed_out :
    (now interval timeout : ℕ) (l : Link)
    → l.last_pong < l.last_ping
    → timeout ≤ now - l.last_pong
    → check_manager_worker_relationship now interval timeout l ≡ (timed_out, l)
unfolding check_manager_worker_relationship
check-timed_out now interval timeout l unanswered late = ground (arith, unanswered, late)

module _ {A : Type 0} where
  send-data :
      (i : PeerId) (e : HandlerIn) (b : BalthBehaviour A)
      → ((send_to_peer_or_dial i e b).1.node_type_data ≡ b.node_type_data)
        × ((send_to_peer_or_dial i e b).1.events ≡ b.events)
  unfolding send_to_peer_or_dial send_or_dial
  send-data i e b =
      let P : Action × BalthBehaviour A → Type 0 =
        λ x. (x.1.node_type_data ≡ b.node_type_data) × (x.1.events ≡ b.events) in
      if_both P b.is_shutting_down (refl, refl)
        (if_both P (peer_at i (get_peer_or_insert i b)).connected (refl, refl) (refl, refl))

  -- A message handed to the connection, or a peer to dial, for which it waits.
  abbrev pub sending : PeerId → HandlerIn → Peer A → Action
  sending i e p = if p.connected then notify_handler i e else dial_peer i

  abbrev pub waiting : HandlerIn → Peer A → List HandlerIn
  waiting e p = if p.connected then p.pending_messages else p.pending_messages ++ e ∷ []

  -- What sending leaves to do, and what then waits for the peer.
  abbrev IsSent : PeerId → HandlerIn → Peer A → Action × BalthBehaviour A → Type 0
  IsSent i e p x = (x.0 ≡ sending i e p) × ((peer_at i x.1).pending_messages ≡ waiting e p)

  chosen-IsSent :
      (c : Bool) (i : PeerId) (e : HandlerIn) (q : List HandlerIn) (b b' : BalthBehaviour A)
      → (peer_at i b).pending_messages ≡ q
      → (peer_at i b').pending_messages ≡ q ++ e ∷ []
      → let x : Action × BalthBehaviour A =
          if c then (notify_handler i e, b) else (dial_peer i, b') in
        (x.0 ≡ (if c then notify_handler i e else dial_peer i))
        × ((peer_at i x.1).pending_messages ≡ (if c then q else q ++ e ∷ []))
  chosen-IsSent true i e q b b' h k = (refl, h)
  chosen-IsSent false i e q b b' h k = (refl, k)

  send_or_dial-IsSent :
      (i : PeerId) (e : HandlerIn) (b : BalthBehaviour A)
      → IsSent i e (peer_at i b) (send_or_dial i e b)
  unfolding send_or_dial
  send_or_dial-IsSent i e b =
      let p = peer_at i b in
      let p' = record p { pending_messages = p.pending_messages ++ e ∷ [] } in
      chosen-IsSent p.connected i e p.pending_messages b (set_peer i p' b) refl
        (ap (λ (q : Peer A). q.pending_messages) (peer_at-set_peer_self i p' b))

  send_to_peer_or_dial-stays :
      (i : PeerId) (e : HandlerIn) (b : BalthBehaviour A)
      → b.is_shutting_down ≡ false
      → send_to_peer_or_dial i e b ≡ send_or_dial i e (get_peer_or_insert i b)
  unfolding send_to_peer_or_dial
  send_to_peer_or_dial-stays i e b stays = simp stays refl

  IsSent-same :
      (i : PeerId) (e : HandlerIn) (p p' : Peer A) (x x' : Action × BalthBehaviour A)
      → p ≡ p'
      → x' ≡ x
      → IsSent i e p x
      → IsSent i e p' x'
  IsSent-same i e p p' x x' h k s = rw (k, ← h) s

  send-IsSent :
      (i : PeerId) (e : HandlerIn) (b : BalthBehaviour A)
      → b.is_shutting_down ≡ false
      → IsSent i e (peer_at i b) (send_to_peer_or_dial i e b)
  send-IsSent i e b stays =
      let known = get_peer_or_insert i b in
      IsSent-same i e (peer_at i known) (peer_at i b) (send_or_dial i e known)
        (send_to_peer_or_dial i e b) (peer_at-get_peer_or_insert i i b)
        (send_to_peer_or_dial-stays i e b stays) (send_or_dial-IsSent i e known)

  -- The relationship with the peer ended: the bye is on its way to it, or waits for it while it is
  -- dialed, and the node is told.
  abbrev pub GivesUp : PeerId → BalthBehaviour A → Outcome (BalthBehaviour A) → Type 0
  GivesUp i b o =
      (b' : BalthBehaviour A) × (o ≡ done b')
      × (is_related i b'.node_type_data ≡ false)
      × (b'.events
          ≡ b.events
            ++ InternalEvent.action
                (sending i (HandlerIn.manager_bye b.next_query_unique_id) (peer_at i b))
              ∷ []
            ++ InternalEvent.action
                (generate_event (timed_out_event i (node_type_of b.node_type_data)))
              ∷ [])
      × ((peer_at i b').pending_messages
          ≡ waiting (HandlerIn.manager_bye b.next_query_unique_id) (peer_at i b))

  report_timed_out-done :
      (i : PeerId) (t : NodeType) (o : Option NodeType) (b : BalthBehaviour A)
      → o ≡ some t
      → report_timed_out i b o ≡ done (inject_generate_event (timed_out_event i t) b)
  unfolding report_timed_out
  report_timed_out-done i t none b e = cc
  report_timed_out-done i NodeType.manager (some NodeType.manager) b e = refl
  report_timed_out-done i NodeType.worker (some NodeType.worker) b e = refl
  report_timed_out-done i NodeType.manager (some NodeType.worker) b e = cc
  report_timed_out-done i NodeType.worker (some NodeType.manager) b e = cc

  act_on-timed_out :
      (now : ℕ) (i : PeerId) (b : BalthBehaviour A)
      → b.is_shutting_down ≡ false
      → is_related i b.node_type_data ≡ true
      → GivesUp i b (act_on now i timed_out b)
  unfolding act_on
  act_on-timed_out now i b stays related =
      let e = HandlerIn.manager_bye b.next_query_unique_id in
      let sent = send_to_peer_or_dial i e (count_query b) in
      let said = inject_send_to_peer_or_dial i e (count_query b) in
      let same = send-data i e (count_query b) in
      let broken = break_worker_manager_relationship i said.node_type_data in
      let bye = send-IsSent i e (count_query b) stays in
      let is = break-IsBroken i said.node_type_data in
      let c = record said { node_type_data = broken.1 } in
      (
        inject_generate_event (timed_out_event i (node_type_of b.node_type_data)) c,
        report_timed_out-done i (node_type_of b.node_type_data) broken.0 c (
            is.3
            ∙ ap (λ (x : NodeTypeData A). if is_related i x then some (node_type_of x) else none)
                same.0
            ∙ rw related refl),
        is.2,
        ap
              (λ es.
                es
                ++ InternalEvent.action sent.0 ∷ []
                ++ InternalEvent.action
                    (generate_event (timed_out_event i (node_type_of b.node_type_data)))
                  ∷ [])
              same.1
            ∙ ap
                (λ (a : Action).
                  b.events
                  ++ InternalEvent.action a ∷ []
                  ++ InternalEvent.action
                      (generate_event (timed_out_event i (node_type_of b.node_type_data)))
                    ∷ [])
                bye.0,
        bye.1,
      )

  check_relationships-late :
      (now : ℕ) (i : PeerId) (l : Link) (d : WorkerData A) (b : BalthBehaviour A)
      → b.is_shutting_down ≡ false
      → b.node_type_data ≡ NodeTypeData.worker d
      → d.manager ≡ some (i, l)
      → check_manager_worker_relationship now b.manager_check_interval b.manager_timeout l
        ≡ (timed_out, l)
      → check_relationships now b
        ≡ and_then (act_on_all now []) (
            act_on now i timed_out (record b {
              node_type_data = NodeTypeData.worker (record d { manager = some (i, l) });
            }))
  unfolding check_relationships check_all check_manager act_on_all
  check_relationships-late now i l d b stays is man check = simp (stays, is, man, check) refl

  -- A worker that is not shutting down gives its manager up once the last pong is older than the
  -- last ping and at least as old as the time-out (counted from that pong, not from the ping): it
  -- is no longer related to it; a bye to it is queued if it is connected, and else waits for it
  -- while it is dialed; and the report of the time-out is queued after that.
  pub check_relationships-timed_out :
      (now : ℕ) (i : PeerId) (l : Link) (d : WorkerData A) (b : BalthBehaviour A)
      → b.is_shutting_down ≡ false
      → b.node_type_data ≡ NodeTypeData.worker d
      → d.manager ≡ some (i, l)
      → l.last_pong < l.last_ping
      → b.manager_timeout ≤ now - l.last_pong
      → GivesUp i b (check_relationships now b)
  unfolding is_related is_manager and_then act_on_all
  check_relationships-timed_out now i l d b stays is man unanswered late =
      let check =
        check-timed_out now b.manager_check_interval b.manager_timeout l unanswered late in
      let c = record b {
        node_type_data = NodeTypeData.worker (record d { manager = some (i, l) });
      } in
      let (b', ends, apart, tells, waits) = act_on-timed_out now i c stays ((==_iff i i).1 refl) in
      (
        b',
        check_relationships-late now i l d b stays is man check
            ∙ ap (λ (o : Outcome (BalthBehaviour A)). and_then (act_on_all now []) o) ends,
        apart,
        rw is tells,
        waits,
      )
