-- ===== src/Connection.antt =====
-- One connection with a peer: `Balthandler` of balthernet/src/balthazar/handler.rs and the states of
-- its substreams (handler/handler_misc.rs). What a substream's sink answers to a poll is an argument.
pub mod Polling
pub mod Progress
pub mod Sweep
pub mod Requests
pub mod Answers
pub mod Numbering
pub mod Identifiers
pub mod Asking
pub mod Once
use balthazar.Prelude.{
  ℕ, zero, suc, ◌+◌, ◌==◌, Bool, true, false, Option, none, some, List, [], ◌∷◌, ◌++◌, is_empty,
  length, any, wrap64, if◌then◌else◌,
}
use balthazar.Ids.{Formats}
use balthazar.Message.{
  WorkerMsg, HandlerIn, QueryErr, HandlerOut, QueryId, RequestId, Sent, request, answer, message_of,
  process_request, process_answer,
}

-- `std::task::Poll`
pub data Poll {ℓ} (A : Type ℓ) : Type ℓ where
  ready : A → Poll A
  pending : Poll A

-- A sink is known by a number.
abbrev pub Sink : Type 0
Sink = ℕ

-- `poll_next` of a sink, once it is ready
pub data Next : Type 0 where
  message : Option WorkerMsg → Next
  failed eof : Next

-- What a sink answers at one moment; `true` is `Ok`.
pub record Io : Type 0 where
  pub poll_ready : Poll Bool
  pub start_send : Bool
  pub poll_flush : Poll Bool
  pub poll_next : Poll Next
  pub poll_close : Poll Bool

pub data SubstreamState : Type 0 where
  out_pending_open : WorkerMsg → Option QueryId → SubstreamState
  out_pending_send : Sink → WorkerMsg → Option QueryId → SubstreamState
  out_pending_flush : Sink → Option QueryId → SubstreamState
  out_waiting_answer : Sink → QueryId → SubstreamState
  out_report_error : QueryErr → QueryId → SubstreamState
  out_closing : Sink → SubstreamState
  in_waiting_message : RequestId → Sink → SubstreamState
  in_waiting_user : RequestId → Sink → SubstreamState
  in_pending_send : RequestId → Sink → WorkerMsg → SubstreamState
  in_pending_flush : RequestId → Sink → SubstreamState
  in_closing : Sink → SubstreamState

-- `ProtocolsHandlerEvent`
pub data HandlerEvent : Type 0 where
  outbound_substream_request : WorkerMsg → Option QueryId → HandlerEvent
  custom : HandlerOut → HandlerEvent

-- The new state, the event, and whether to go on at once.
abbrev pub Advanced : Type 0
Advanced = Option SubstreamState × Option HandlerEvent × Bool

abbrev pub dropped : Advanced
dropped = (none, none, false)

abbrev pub report : QueryErr → Option QueryId → Advanced
report e none = dropped
report e (some n) = (none, some (custom (HandlerOut.query_error e n)), false)

after_send : Io → Sink → WorkerMsg → Option QueryId → Poll Bool → Advanced
after_send io s m n pending = (some (out_pending_send s m n), none, false)
after_send io s m n (ready false) = report QueryErr.io n
after_send io s m n (ready true) =
    if io.start_send then (some (out_pending_flush s n), none, true) else report QueryErr.io n

after_flush : Sink → Option QueryId → Poll Bool → Advanced
after_flush s n pending = (some (out_pending_flush s n), none, false)
after_flush s n (ready false) = report QueryErr.io n
after_flush s none (ready true) = (some (out_closing s), none, true)
after_flush s (some n) (ready true) = (some (out_waiting_answer s n), none, true)

closing_with : Sink → Option HandlerOut → Advanced
closing_with s none = (some (out_closing s), none, true)
closing_with s (some e) = (some (out_closing s), some (custom e), true)

after_answer : Formats → Sink → QueryId → Poll Next → Advanced
unfolding closing_with
after_answer f s n pending = (some (out_waiting_answer s n), none, false)
after_answer f s n (ready (message m)) = closing_with s (process_answer f m n)
after_answer f s n (ready failed) =
    (none, some (custom (HandlerOut.query_error QueryErr.io n)), false)
after_answer f s n (ready eof) =
    (none, some (custom (HandlerOut.query_error QueryErr.unexpected_eof n)), false)

unfoldable pub waiting_with : RequestId → Sink → Option HandlerOut → Advanced
waiting_with r s none = (some (in_closing s), none, true)
waiting_with r s (some e) = (some (in_waiting_user r s), some (custom e), false)

unfoldable pub after_message : Formats → RequestId → Sink → Poll Next → Advanced
unfolding waiting_with
after_message f r s pending = (some (in_waiting_message r s), none, false)
after_message f r s (ready (message m)) = waiting_with r s (process_request f m r)
after_message f r s (ready failed) = dropped
after_message f r s (ready eof) = dropped

after_reply : Io → RequestId → Sink → WorkerMsg → Poll Bool → Advanced
after_reply io r s m pending = (some (in_pending_send r s m), none, false)
after_reply io r s m (ready false) = dropped
after_reply io r s m (ready true) =
    if io.start_send then (some (in_pending_flush r s), none, true) else dropped

after_reply_flush : RequestId → Sink → Poll Bool → Advanced
after_reply_flush r s pending = (some (in_pending_flush r s), none, false)
after_reply_flush r s (ready false) = dropped
after_reply_flush r s (ready true) = (some (in_waiting_message r s), none, true)

after_close : SubstreamState → Poll Bool → Advanced
after_close s pending = (some s, none, false)
after_close s (ready b) = dropped

-- `advance_substream`
unfoldable pub advance_substream : Formats → Io → SubstreamState → Advanced
unfolding after_send after_flush after_answer after_message after_reply after_reply_flush
    after_close
advance_substream f io (out_pending_open m n) = (none, some (outbound_substream_request m n), false)
advance_substream f io (out_pending_send s m n) = after_send io s m n io.poll_ready
advance_substream f io (out_pending_flush s n) = after_flush s n io.poll_flush
advance_substream f io (out_waiting_answer s n) = after_answer f s n io.poll_next
advance_substream f io (out_report_error e n) =
    (none, some (custom (HandlerOut.query_error e n)), false)
advance_substream f io (out_closing s) = after_close (out_closing s) io.poll_close
advance_substream f io (in_waiting_message r s) = after_message f r s io.poll_next
advance_substream f io (in_waiting_user r s) = (some (in_waiting_user r s), none, false)
advance_substream f io (in_pending_send r s m) = after_reply io r s m io.poll_ready
advance_substream f io (in_pending_flush r s) = after_reply_flush r s io.poll_flush
advance_substream f io (in_closing s) = after_close (in_closing s) io.poll_close

-- How the inner `loop` of `poll` leaves a substream: kept, dropped, with an event, or not left yet.
pub data Left : Type 0 where
  kept : SubstreamState → Left
  gone : Left
  kept_with : SubstreamState → HandlerEvent → Left
  gone_with : HandlerEvent → Left
  unfinished : Left

-- The inner `loop`, over the rounds that are allowed and the next round's number.
next_round : (SubstreamState → Left) → Advanced → Left
next_round again (some s, some e, b) = kept_with s e
next_round again (none, some e, b) = gone_with e
next_round again (some s, none, false) = kept s
next_round again (some s, none, true) = again s
next_round again (none, none, b) = gone

unfoldable pub drive : Formats → (ℕ → SubstreamState → Io) → ℕ → ℕ → SubstreamState → Left
unfolding next_round
drive f io zero k s = unfinished
drive f io (suc rounds) k s =
    next_round (drive f io rounds (suc k)) (advance_substream f (io k s) s)

-- `Balthandler`; `keep_alive` is an instant, in nanoseconds.
pub record Balthandler : Type 0 where
  pub substreams : List SubstreamState
  pub keep_alive : ℕ
  pub next_connec_unique_id : ℕ

-- `default_keep_alive`
unfoldable pub default_keep_alive : ℕ → ℕ
default_keep_alive now = now + 10_000_000_000

unfoldable pub new_handler : ℕ → Balthandler
unfolding default_keep_alive
new_handler now = record {
  substreams = [];
  keep_alive = default_keep_alive now;
  next_connec_unique_id = 0;
}

abbrev pub push_substream : SubstreamState → Balthandler → Balthandler
push_substream s h = record h { substreams = h.substreams ++ s ∷ [] }

-- `inject_fully_negotiated_inbound`
unfoldable pub inject_inbound : Sink → Balthandler → Balthandler
inject_inbound s h =
    push_substream (in_waiting_message h.next_connec_unique_id s)
      (record h { next_connec_unique_id = wrap64 (h.next_connec_unique_id + 1) })

-- `inject_fully_negotiated_outbound`
unfoldable pub inject_outbound : Sink → WorkerMsg → Option QueryId → Balthandler → Balthandler
inject_outbound s m n h = push_substream (out_pending_send s m n) h

-- `inject_dial_upgrade_error`
unfoldable pub inject_dial_upgrade_error : Option QueryId → Balthandler → Balthandler
inject_dial_upgrade_error none h = h
inject_dial_upgrade_error (some n) h = push_substream (out_report_error QueryErr.upgrade n) h

-- The substream that waits for the answer to a request, taken out of the others, with its sink.
abbrev pub waits_for : RequestId → SubstreamState → Bool
waits_for r (in_waiting_user i s) = i == r
waits_for r _ = false

abbrev pub sink_of : SubstreamState → Sink
sink_of (in_waiting_user i s) = s
sink_of _ = 0

unfoldable pub take_waiting : RequestId → List SubstreamState → List SubstreamState × Option Sink
take_waiting r [] = ([], none)
take_waiting r (s ∷ ss) =
    let rest = take_waiting r ss in
    if waits_for r s then (ss, some (sink_of s)) else (s ∷ rest.0, rest.1)

unfoldable pub reply :
    RequestId → WorkerMsg → Balthandler → List SubstreamState × Option Sink → Balthandler
reply r m h (ss, none) = h
reply r m h (ss, some s) = record h { substreams = ss ++ in_pending_send r s m ∷ [] }

unfoldable pub inject_sent : Sent → Balthandler → Balthandler
unfolding take_waiting reply
inject_sent (request n m) h = push_substream (out_pending_open m (some n)) h
inject_sent (answer r m) h = reply r m h (take_waiting r h.substreams)

-- `inject_event`
unfoldable pub inject_event : Formats → HandlerIn → Balthandler → Balthandler
unfolding message_of inject_sent
inject_event f e h = inject_sent (message_of f e) h
