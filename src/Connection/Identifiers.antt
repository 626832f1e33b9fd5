-- ===== src/Connection/Identifiers.antt =====
-- The identifiers of a peer's requests over sequences of calls of a handler,
-- balthernet/src/balthazar/handler.rs.
use balthazar.Prelude.{
  ℕ, suc, ◌+◌, ◌≤◌, ◌<◌, ◌≡◌, refl, false, Option, none, some, List, [], ◌∷◌, length, count_if,
  wrap64, u64_mod, ==_iff, arith,
}
use balthazar.Ids.{Formats}
use balthazar.Message.{WorkerMsg, HandlerIn, QueryErr, QueryId, RequestId, message_of}
use balthazar.Connection.{
  Sink, Io, SubstreamState, out_pending_send, out_report_error, in_waiting_message, Balthandler,
  new_handler, inject_inbound, inject_outbound, inject_dial_upgrade_error, inject_event,
}
use balthazar.Connection.Polling.{Polled, polled, panicked, out_of_rounds, poll}
use balthazar.Connection.Sweep.{count_if-append}
use balthazar.Connection.Requests.{has_request, after_poll, has_request-poll}
use balthazar.Connection.Sweep.{Swept, poll-Swept, count_if-append}
use balthazar.Connection.Answers.{inject_sent-le, inject_sent-next, push_substream-le}
use balthazar.Connection.Numbering.{KeepsNext, poll-KeepsNext}

-- What a handler is told, or a poll of it.
pub data Call : Type 0 where
  inbound : Sink → Call
  outbound : Sink → WorkerMsg → Option QueryId → Call
  dial_upgrade_error : Option QueryId → Call
  event : HandlerIn → Call
  polled_at : (ℕ → SubstreamState → Io) → ℕ → Call

unfoldable pub after : Polled → Option Balthandler
after (polled e h) = some h
after panicked = none
after out_of_rounds = none

unfoldable pub call : Formats → Call → Balthandler → Option Balthandler
unfolding after
call f (inbound s) h = some (inject_inbound s h)
call f (outbound s m n) h = some (inject_outbound s m n h)
call f (dial_upgrade_error n) h = some (inject_dial_upgrade_error n h)
call f (event e) h = some (inject_event f e h)
call f (polled_at io now) h = after (poll f io now h)

unfoldable pub and_then :
    (Balthandler → Option Balthandler) → Option Balthandler → Option Balthandler
and_then next none = none
and_then next (some h) = next h

unfoldable pub calls : Formats → List Call → Balthandler → Option Balthandler
unfolding call and_then
calls f [] h = some h
calls f (c ∷ cs) h = and_then (calls f cs) (call f c h)

-- At most `n` inbound substreams so far; each with its own identifier, below the next one.
pub record HasOwnIds (n : ℕ) (h : Balthandler) : Type 0 where
  pub few : h.next_connec_unique_id ≤ n
  pub once : (r : RequestId) → count_if (has_request r) h.substreams ≤ 1
  pub fresh :
      (r : RequestId) → h.next_connec_unique_id ≤ r → count_if (has_request r) h.substreams ≡ 0

HasOwnIds-mono :
    (n : ℕ) (h h' : Balthandler)
    → h'.next_connec_unique_id ≡ h.next_connec_unique_id
    → ((r : RequestId)
        → count_if (has_request r) h'.substreams ≤ count_if (has_request r) h.substreams)
    → HasOwnIds n h
    → HasOwnIds (suc n) h'
HasOwnIds-mono n h h' e le i = record {
  few = omega (arith, i.few, e);
  once = λ r. omega (arith, i.once r, le r);
  fresh = λ r l. omega (arith, i.fresh r (omega (arith, l, e)), le r);
}

-- Some handler is left, with its own identifiers.
abbrev pub IsWithOwnIds : ℕ → Option Balthandler → Type 0
IsWithOwnIds n none = ⊥
IsWithOwnIds n (some h) = HasOwnIds n h

after-IsWithOwnIds :
    (f : Formats) (io : ℕ → SubstreamState → Io) (now n : ℕ) (h : Balthandler) (o : Polled)
    → Swept f io now (λ s. false) h.substreams o
    → KeepsNext h.next_connec_unique_id o
    → ((r : RequestId)
        → count_if (has_request r) (after_poll f r o) ≤ count_if (has_request r) h.substreams)
    → HasOwnIds n h
    → IsWithOwnIds (suc n) (after o)
unfolding after KeepsNext
after-IsWithOwnIds f io now n h (polled e g) s k le i = HasOwnIds-mono n h g k le i
after-IsWithOwnIds f io now n h panicked s k le i = absurd s
after-IsWithOwnIds f io now n h out_of_rounds s k le i = absurd s

wrap64_next : (n : ℕ) → suc n < u64_mod → wrap64 (n + 1) ≡ suc n
wrap64_next n h = omega arith

inbound-HasOwnIds :
    (s : Sink) (n : ℕ) (h : Balthandler)
    → suc n < u64_mod
    → HasOwnIds n h
    → HasOwnIds (suc n) (inject_inbound s h)
unfolding inject_inbound
inbound-HasOwnIds s n h l i =
    let next : wrap64 (h.next_connec_unique_id + 1) ≡ suc h.next_connec_unique_id =
      wrap64_next h.next_connec_unique_id (omega (arith, i.few, l)) in
    record {
      few = omega (arith, i.few, next);
      once = λ r.
          rw
            (count_if-append (has_request r) h.substreams
              (in_waiting_message h.next_connec_unique_id s ∷ []))
            (ground (arith, i.once r, i.fresh r, ==_iff h.next_connec_unique_id r));
      fresh = λ r le.
          rw
            (count_if-append (has_request r) h.substreams
              (in_waiting_message h.next_connec_unique_id s ∷ []))
            (ground (arith, i.fresh r, ==_iff h.next_connec_unique_id r, next, le));
    }

call-IsWithOwnIds :
    (f : Formats) (c : Call) (n : ℕ) (h : Balthandler)
    → suc n < u64_mod
    → HasOwnIds n h
    → IsWithOwnIds (suc n) (call f c h)
unfolding call inject_outbound inject_event inject_dial_upgrade_error
call-IsWithOwnIds f (inbound s) n h l i = inbound-HasOwnIds s n h l i
call-IsWithOwnIds f (outbound s m q) n h l i =
    HasOwnIds-mono n h (inject_outbound s m q h) refl
      (λ r. push_substream-le r (out_pending_send s m q) h refl) i
call-IsWithOwnIds f (dial_upgrade_error none) n h l i =
    HasOwnIds-mono n h h refl (λ r. omega arith) i
call-IsWithOwnIds f (dial_upgrade_error (some q)) n h l i =
    HasOwnIds-mono n h (inject_dial_upgrade_error (some q) h) refl
      (λ r. push_substream-le r (out_report_error QueryErr.upgrade q) h refl) i
call-IsWithOwnIds f (event e) n h l i =
    HasOwnIds-mono n h (inject_event f e h) (inject_sent-next (message_of f e) h)
      (λ r. inject_sent-le r (message_of f e) h) i
call-IsWithOwnIds f (polled_at io now) n h l i =
    after-IsWithOwnIds f io now n h (poll f io now h) (poll-Swept f io now (λ s. false) h)
      (poll-KeepsNext f io now h) (λ r. has_request-poll f r io now h) i

and_then-IsWithOwnIds :
    (next : Balthandler → Option Balthandler) (n k : ℕ) (o : Option Balthandler)
    → IsWithOwnIds n o
    → ((h : Balthandler) → HasOwnIds n h → IsWithOwnIds k (next h))
    → IsWithOwnIds k (and_then next o)
unfolding and_then
and_then-IsWithOwnIds next n k none i go = absurd i
and_then-IsWithOwnIds next n k (some h) i go = go h i

calls-from :
    (f : Formats) (cs : List Call) (n k : ℕ) (h : Balthandler)
    → k ≡ n + length cs
    → k < u64_mod
    → HasOwnIds n h
    → IsWithOwnIds k (calls f cs h)
unfolding calls
calls-from f [] n k h e l i = let same : k ≡ n = omega (arith, e) in rw same i
calls-from f (c ∷ cs) n k h e l i =
    and_then-IsWithOwnIds (calls f cs) (suc n) k (call f c h)
      (call-IsWithOwnIds f c n h (omega (arith, e, l)) i)
      (λ g own. calls-from f cs (suc n) k g (omega (arith, e)) l own)

-- On a new connection, any sequence of fewer than 2^64 substreams, errors, events and polls leaves
-- a connection where each request of the peer has an identifier of its own, below the next one.
pub calls-IsWithOwnIds :
    (f : Formats) (cs : List Call) (now : ℕ)
    → length cs < u64_mod
    → IsWithOwnIds (length cs) (calls f cs (new_handler now))
unfolding new_handler
calls-IsWithOwnIds f cs now l =
    calls-from f cs 0 (length cs) (new_handler now) (omega arith) l
      (record { few = omega arith; once = λ r. omega arith; fresh = λ r e. refl })
