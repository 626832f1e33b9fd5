-- ===== src/Connection/Once.antt =====
-- A second answer to a request, whatever happens in between: `inject_event`, `poll` and the callbacks of
-- balthernet/src/balthazar/handler.rs.
use balthazar.Prelude.{
  ℕ, ◌≤◌, ◌≡◌, refl, Bool, true, false, ◌&&◌, not, Option, none, some, List, [], ◌∷◌, count_if,
  ==_iff, arith,
}
use balthazar.Ids.{Formats}
use balthazar.Message.{WorkerMsg, QueryErr, RequestId, HandlerIn, Sent, request, answer, message_of}
use balthazar.Connection.{
  Sink, Io, SubstreamState, out_pending_open, out_pending_send, out_report_error,
  in_waiting_message, in_pending_send, HandlerEvent, Balthandler, push_substream, inject_inbound,
  inject_outbound, inject_dial_upgrade_error, waits_for, take_waiting, reply, inject_sent,
  inject_event,
}
use balthazar.Connection.Polling.{Polled, polled, panicked, out_of_rounds, poll}
use balthazar.Connection.Sweep.{Swept, poll-Swept, count_if-append}
use balthazar.Connection.Requests.{has_request, after_poll}
use balthazar.Connection.Asking.{asks_any, event_after, waits_for-poll}
use balthazar.Connection.Answers.{take_waiting-none, take_waiting-count_if, waits_for-le}
use balthazar.Connection.Identifiers.{
  Call, inbound, outbound, dial_upgrade_error, event, polled_at, after, call, and_then, calls,
}

-- The event that a call reports.
abbrev reported : Formats → Call → Balthandler → Option HandlerEvent
reported f (polled_at io now) h = event_after f 0 io (poll f io now h)
reported f c h = none

and_quiet : (Balthandler → Bool) → Option Balthandler → Bool
and_quiet next none = true
and_quiet next (some h) = next h

-- No call reports a request under the identifier.
unfoldable pub are_unasked : Formats → RequestId → List Call → Balthandler → Bool
unfolding and_quiet call
are_unasked f r [] h = true
are_unasked f r (c ∷ cs) h =
    not (asks_any r (reported f c h)) && and_quiet (are_unasked f r cs) (call f c h)

-- Some handler is left, and this holds of it.
abbrev pub Leaves : (Balthandler → Type 0) → Option Balthandler → Type 0
Leaves P none = ⊥
Leaves P (some h) = P h

take_waiting-waits_for :
    (r : RequestId) (ss : List SubstreamState)
    → (take_waiting r ss).1 ≡ none
    → count_if (waits_for r) ss ≡ 0
unfolding take_waiting
take_waiting-waits_for r [] h = refl
take_waiting-waits_for r (s ∷ ss) h = ground (arith, take_waiting-waits_for r ss)

module _ (f : Formats) (r : RequestId) where
  -- No substream waits for the answer.
  abbrev IsAnswered : Balthandler → Type 0
  IsAnswered h = count_if (waits_for r) h.substreams ≡ 0

  push-IsAnswered :
      (s : SubstreamState) (h : Balthandler)
      → waits_for r s ≡ false
      → IsAnswered h
      → IsAnswered (push_substream s h)
  push-IsAnswered s h e i =
      rw (count_if-append (waits_for r) h.substreams (s ∷ [])) (ground (arith, e, i))

  reply-IsAnswered :
      (q : RequestId) (m : WorkerMsg) (h : Balthandler) (o : Option Sink)
      → (take_waiting q h.substreams).1 ≡ o
      → IsAnswered h
      → IsAnswered (reply q m h ((take_waiting q h.substreams).0, o))
  unfolding reply
  reply-IsAnswered q m h none e i = i
  reply-IsAnswered q m h (some s) e i =
      rw
        (count_if-append (waits_for r) (take_waiting q h.substreams).0 (in_pending_send q s m ∷ []))
        (ground (arith, take_waiting-count_if (waits_for r) q h.substreams e, i))

  sent-IsAnswered : (s : Sent) (h : Balthandler) → IsAnswered h → IsAnswered (inject_sent s h)
  unfolding inject_sent
  sent-IsAnswered (request n m) h i = push-IsAnswered (out_pending_open m (some n)) h refl i
  sent-IsAnswered (answer q m) h i = reply-IsAnswered q m h (take_waiting q h.substreams).1 refl i

  after-IsAnswered :
      (io : ℕ → SubstreamState → Io) (now : ℕ) (h : Balthandler) (o : Polled)
      → Swept f io now (waits_for r) h.substreams o
      → count_if (waits_for r) (after_poll f r o) ≤ count_if (waits_for r) h.substreams
      → IsAnswered h
      → Leaves IsAnswered (after o)
  unfolding after
  after-IsAnswered io now h (polled e g) s le i = omega (arith, le, i)
  after-IsAnswered io now h panicked s le i = absurd s
  after-IsAnswered io now h out_of_rounds s le i = absurd s

  call-IsAnswered :
      (c : Call) (h : Balthandler)
      → asks_any r (reported f c h) ≡ false
      → IsAnswered h
      → Leaves IsAnswered (call f c h)
  unfolding call inject_inbound inject_outbound inject_dial_upgrade_error inject_event
  call-IsAnswered (inbound s) h q i =
      push-IsAnswered (in_waiting_message h.next_connec_unique_id s) h refl i
  call-IsAnswered (outbound s m n) h q i = push-IsAnswered (out_pending_send s m n) h refl i
  call-IsAnswered (dial_upgrade_error none) h q i = i
  call-IsAnswered (dial_upgrade_error (some n)) h q i =
      push-IsAnswered (out_report_error QueryErr.upgrade n) h refl i
  call-IsAnswered (event e) h q i = sent-IsAnswered (message_of f e) h i
  call-IsAnswered (polled_at io now) h q i =
      after-IsAnswered io now h (poll f io now h) (poll-Swept f io now (waits_for r) h)
        (waits_for-poll f r io now h q) i

  and_then-IsAnswered :
      (cs : List Call) (o : Option Balthandler)
      → ((h : Balthandler)
          → are_unasked f r cs h ≡ true
          → IsAnswered h
          → Leaves IsAnswered (calls f cs h))
      → and_quiet (are_unasked f r cs) o ≡ true
      → Leaves IsAnswered o
      → Leaves IsAnswered (and_then (calls f cs) o)
  unfolding and_then and_quiet
  and_then-IsAnswered cs none go q i = absurd i
  and_then-IsAnswered cs (some h) go q i = go h q i

  calls-IsAnswered :
      (cs : List Call) (h : Balthandler)
      → are_unasked f r cs h ≡ true
      → IsAnswered h
      → Leaves IsAnswered (calls f cs h)
  unfolding calls are_unasked
  calls-IsAnswered [] h q i = i
  calls-IsAnswered (c ∷ cs) h q i =
      and_then-IsAnswered cs (call f c h) (calls-IsAnswered cs) (ground (arith, q))
        (call-IsAnswered c h (ground (arith, q)) i)

  reply-answers :
      (m : WorkerMsg) (h : Balthandler) (o : Option Sink)
      → (take_waiting r h.substreams).1 ≡ o
      → count_if (has_request r) h.substreams ≤ 1
      → IsAnswered (reply r m h ((take_waiting r h.substreams).0, o))
  unfolding reply
  reply-answers m h none e l = take_waiting-waits_for r h.substreams e
  reply-answers m h (some s) e l =
      rw
        (count_if-append (waits_for r) (take_waiting r h.substreams).0 (in_pending_send r s m ∷ []))
        (ground (
          arith,
          waits_for-le r (take_waiting r h.substreams).0,
          take_waiting-count_if (has_request r) r h.substreams e,
          ==_iff r r,
        ))

  reply-none :
      (m : WorkerMsg) (h : Balthandler) (o : List SubstreamState × Option Sink)
      → o.1 ≡ none
      → reply r m h o ≡ h
  unfolding reply
  reply-none m h (ss, none) e = refl
  reply-none m h (ss, some s) e = cc

  answered-unchanged :
      (e : HandlerIn) (m : WorkerMsg) (h : Balthandler)
      → message_of f e ≡ answer r m
      → IsAnswered h
      → inject_event f e h ≡ h
  unfolding inject_event inject_sent
  answered-unchanged e m h is i =
      rw is (reply-none m h (take_waiting r h.substreams) (take_waiting-none r h.substreams i))

  Leaves-map :
      (P Q : Balthandler → Type 0) (o : Option Balthandler)
      → ((h : Balthandler) → P h → Q h)
      → Leaves P o
      → Leaves Q o
  Leaves-map P Q none g i = i
  Leaves-map P Q (some h) g i = g h i

-- A request whose identifier one substream has at most is answered once. After a first answer to
-- it, and then any substreams, errors, events and polls, where no poll reports another request
-- under the same identifier, a handler is left that a second answer does not change.
pub inject_event-calls :
    (f : Formats) (e e' : HandlerIn) (r : RequestId) (m m' : WorkerMsg) (cs : List Call)
    (h : Balthandler)
    → message_of f e ≡ answer r m
    → message_of f e' ≡ answer r m'
    → count_if (has_request r) h.substreams ≤ 1
    → are_unasked f r cs (inject_event f e h) ≡ true
    → Leaves (λ g. inject_event f e' g ≡ g) (calls f cs (inject_event f e h))
unfolding inject_event inject_sent
inject_event-calls f e e' r m m' cs h is is' l q =
    let answered : count_if (waits_for r) (inject_event f e h).substreams ≡ 0 =
      rw is (reply-answers f r m h (take_waiting r h.substreams).1 refl l) in
    Leaves-map f r (λ g. count_if (waits_for r) g.substreams ≡ 0) (λ g. inject_event f e' g ≡ g)
      (calls f cs (inject_event f e h)) (λ g. answered-unchanged f r e' m' g is')
      (calls-IsAnswered f r cs (inject_event f e h) q answered)
