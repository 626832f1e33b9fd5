-- ===== src/Connection/Asking.antt =====
-- When a substream waits for the node's answer: `advance_substream` of balthernet/src/balthazar/handler/
-- handler_misc.rs and `poll` of balthernet/src/balthazar/handler.rs.
use balthazar.Prelude.{
  ℕ, zero, suc, ◌≤◌, ◌==◌, ◌≡◌, refl, Bool, true, false, ◌||◌, Option, none, some, List, [], ◌∷◌,
  All, count_if, arith,
}
use balthazar.Ids.{Formats}
use balthazar.Message.{
  WorkerMsg, RequestId, HandlerOut, filter_map, cons_some, process_request, with_request,
  read_status,
}
use balthazar.Ids.HashId.{TaskId}
use balthazar.TaskStatus.{TaskStatus}
use balthazar.Connection.{
  Poll, ready, pending, Next, message, failed, eof, Sink, Io, SubstreamState, out_pending_open,
  out_pending_send, out_pending_flush, out_waiting_answer, out_report_error, out_closing,
  in_waiting_message, in_waiting_user, in_pending_send, in_pending_flush, in_closing, HandlerEvent,
  outbound_substream_request, custom, Advanced, after_message, waiting_with, advance_substream,
  Left, next_round, drive, Balthandler, waits_for,
}
use balthazar.Connection.Polling.{Polled, polled, panicked, out_of_rounds, max_rounds, poll}
use balthazar.Connection.Sweep.{
  survivor_of, event_of, survivors, left, Swept, poll-Swept, count_if-append,
}
use balthazar.Connection.Requests.{after_poll}

-- A request of the peer under this identifier.
abbrev pub asks : RequestId → HandlerEvent → Bool
asks r (outbound_substream_request m n) = false
asks r (custom (HandlerOut.node_type_request t q)) = q == r
asks r (custom (HandlerOut.manager_request s q)) = q == r
asks r (custom (HandlerOut.manager_bye q)) = q == r
asks r (custom (HandlerOut.manager_ping q)) = q == r
asks r (custom (HandlerOut.tasks_execute ts q)) = q == r
asks r (custom (HandlerOut.tasks_ping ts q)) = q == r
asks r (custom (HandlerOut.tasks_abord ts q)) = q == r
asks r (custom (HandlerOut.task_status t s q)) = q == r
asks r (custom e) = false

abbrev pub asks_any : RequestId → Option HandlerEvent → Bool
asks_any r none = false
asks_any r (some e) = asks r e

-- A substream that waits for the answer to a request waited already, or the request was reported.
abbrev Waits : RequestId → SubstreamState → Option SubstreamState → Option HandlerEvent → Type 0
Waits r s none e = Unit
Waits r s (some s') e = waits_for r s' ≡ true → (waits_for r s || asks_any r e) ≡ true

Waits-some :
    (r : RequestId) (s : SubstreamState) (o : Option SubstreamState) (e : Option HandlerEvent)
    → ((s' : SubstreamState) → o ≡ some s' → waits_for r s' ≡ true → waits_for r s ≡ true)
    → Waits r s o e
Waits-some r s none e h = tt
Waits-some r s (some s') e h = λ w. rw (h s' refl w) refl

with_request-Waits :
    (r i : RequestId) (s : Sink) (o : Option (TaskId × TaskStatus))
    → Waits r
        (in_waiting_message i s)
        (waiting_with i s (with_request i o)).0
        (waiting_with i s (with_request i o)).1
unfolding waiting_with with_request
with_request-Waits r i s none = λ w. w
with_request-Waits r i s (some (id, st)) = λ w. w

process_request-Waits :
    (f : Formats) (r i : RequestId) (s : Sink) (m : Option WorkerMsg)
    → Waits r
        (in_waiting_message i s)
        (waiting_with i s (process_request f m i)).0
        (waiting_with i s (process_request f m i)).1
unfolding waiting_with process_request
process_request-Waits f r i s none = λ w. w
process_request-Waits f r i s (some (WorkerMsg.task_status m)) =
    with_request-Waits r i s (read_status f m)
process_request-Waits f r i s (some m) = λ w. w

message-Waits :
    (f : Formats) (r i : RequestId) (s : Sink) (n : Poll Next)
    → Waits r (in_waiting_message i s) (after_message f i s n).0 (after_message f i s n).1
unfolding after_message
message-Waits f r i s pending = λ w. w
message-Waits f r i s (ready (message m)) = process_request-Waits f r i s m
message-Waits f r i s (ready failed) = tt
message-Waits f r i s (ready eof) = tt

advance-other :
    (f : Formats) (io : Io) (r : RequestId) (s : SubstreamState)
    → ((s' : SubstreamState)
        → (advance_substream f io s).0 ≡ some s'
        → waits_for r s' ≡ true
        → waits_for r s ≡ true)
    → Waits r s (advance_substream f io s).0 (advance_substream f io s).1
advance-other f io r s = Waits-some r s (advance_substream f io s).0 (advance_substream f io s).1

advance-Waits :
    (f : Formats) (io : Io) (r : RequestId) (s : SubstreamState)
    → Waits r s (advance_substream f io s).0 (advance_substream f io s).1
unfolding advance_substream
advance-Waits f io r (in_waiting_message i s) = message-Waits f r i s io.poll_next
advance-Waits f io r (in_waiting_user i s) = λ w. rw w refl
advance-Waits f io r (out_pending_open m n) = tt
advance-Waits f io r (out_pending_send s m n) =
    advance-other f io r (out_pending_send s m n) (λ t h w. ground arith)
advance-Waits f io r (out_pending_flush s n) =
    advance-other f io r (out_pending_flush s n) (λ t h w. ground arith)
advance-Waits f io r (out_waiting_answer s n) =
    advance-other f io r (out_waiting_answer s n) (λ t h w. ground arith)
advance-Waits f io r (out_report_error e n) = tt
advance-Waits f io r (out_closing s) = advance-other f io r (out_closing s) (λ t h w. ground arith)
advance-Waits f io r (in_pending_send i s m) =
    advance-other f io r (in_pending_send i s m) (λ t h w. ground arith)
advance-Waits f io r (in_pending_flush i s) =
    advance-other f io r (in_pending_flush i s) (λ t h w. ground arith)
advance-Waits f io r (in_closing s) = advance-other f io r (in_closing s) (λ t h w. ground arith)

Waits-trans :
    (r : RequestId) (s s' : SubstreamState) (o : Option SubstreamState) (e : Option HandlerEvent)
    → (waits_for r s' ≡ true → (waits_for r s || false) ≡ true)
    → Waits r s' o e
    → Waits r s o e
Waits-trans r s s' none e h k = tt
Waits-trans r s s' (some t) e h k = λ w. ground (arith, h, k w)

abbrev LeftWaits : RequestId → SubstreamState → Left → Type 0
LeftWaits r s l = Waits r s (survivor_of l) (event_of l)

next_round-Waits :
    (r : RequestId) (s : SubstreamState) (a : Advanced) (again : SubstreamState → Left)
    → Waits r s a.0 a.1
    → ((s' : SubstreamState) → LeftWaits r s' (again s'))
    → LeftWaits r s (next_round again a)
unfolding next_round
next_round-Waits r s (some s', some e, b) again h hs = h
next_round-Waits r s (none, some e, b) again h hs = tt
next_round-Waits r s (some s', none, false) again h hs = h
next_round-Waits r s (some s', none, true) again h hs =
    Waits-trans r s s' (survivor_of (again s')) (event_of (again s')) h (hs s')
next_round-Waits r s (none, none, b) again h hs = tt

module _ (f : Formats) (r : RequestId) where
  drive-Waits :
      (io : ℕ → SubstreamState → Io) (n k : ℕ) (s : SubstreamState)
      → LeftWaits r s (drive f io n k s)
  unfolding drive
  drive-Waits io zero k s = tt
  drive-Waits io (suc n) k s =
      next_round-Waits r s (advance_substream f (io k s) s) (drive f io n (suc k))
        (advance-Waits f (io k s) r s) (drive-Waits io n (suc k))

  count_if-cons_some :
      (s : SubstreamState) (o : Option SubstreamState) (e : Option HandlerEvent)
      (ss : List SubstreamState)
      → Waits r s o e
      → asks_any r e ≡ false
      → count_if (waits_for r) (cons_some o ss) ≤ count_if (waits_for r) (s ∷ ss)
  count_if-cons_some s none e ss h q = ground arith
  count_if-cons_some s (some s') e ss h q = ground (arith, h, q)

  module _ (io : ℕ → SubstreamState → Io) where
    -- Substreams whose loop reports no request under the identifier.
    abbrev AreUnasked : List SubstreamState → Type 0
    AreUnasked ss = All (λ s. asks_any r (event_of (left f io 0 (waits_for r) s)) ≡ false) ss

    count_if-survivors :
        (ss : List SubstreamState)
        → AreUnasked ss
        → count_if (waits_for r) (survivors f io 0 (waits_for r) ss) ≤ count_if (waits_for r) ss
    unfolding filter_map
    count_if-survivors [] q = omega arith
    count_if-survivors (s ∷ ss) (q, qs) = ground (
      arith,
      count_if-survivors ss qs,
      count_if-cons_some s (survivor_of (drive f io max_rounds 0 s))
          (event_of (drive f io max_rounds 0 s)) (survivors f io 0 (waits_for r) ss)
          (drive-Waits io max_rounds 0 s) q,
    )

    quiet-AreUnasked :
        (ss : List SubstreamState)
        → All (λ s. event_of (left f io 0 (waits_for r) s) ≡ none) ss
        → AreUnasked ss
    quiet-AreUnasked [] q = tt
    quiet-AreUnasked (s ∷ ss) (q, qs) = (rw q refl, quiet-AreUnasked ss qs)

    -- The event that a poll reports.
    abbrev pub event_after : Polled → Option HandlerEvent
    event_after (polled (ready e) h) = some e
    event_after _ = none

    Swept-waits_for :
        (now : ℕ) (ss : List SubstreamState) (o : Polled)
        → Swept f io now (waits_for r) ss o
        → asks_any r (event_after o) ≡ false
        → count_if (waits_for r) (after_poll f r o) ≤ count_if (waits_for r) ss
    Swept-waits_for now ss (polled pending h) (quiet, counts) q =
        omega (arith, counts, count_if-survivors ss (quiet-AreUnasked ss quiet))
    Swept-waits_for now ss (polled (ready e) h) (us, u, ws, is, reports, quiet, counts) q = rw is (
        omega (
          arith,
          counts,
          count_if-survivors (u ∷ ws) (rw reports q, quiet-AreUnasked ws quiet),
          count_if-append (waits_for r) us (u ∷ ws),
        ))
    Swept-waits_for now ss panicked h q = omega arith
    Swept-waits_for now ss out_of_rounds h q = omega arith

    pub waits_for-poll :
        (now : ℕ) (h : Balthandler)
        → asks_any r (event_after (poll f io now h)) ≡ false
        → count_if (waits_for r) (after_poll f r (poll f io now h))
          ≤ count_if (waits_for r) h.substreams
    waits_for-poll now h =
        Swept-waits_for now h.substreams (poll f io now h) (poll-Swept f io now (waits_for r) h)
