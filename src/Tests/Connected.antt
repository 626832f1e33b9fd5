-- ===== src/Tests/Connected.antt =====
-- Tests of one connection.
use balthazar.Prelude.{ℕ, ◌≡◌, ◌≢◌, refl, arith, true, some, [], ◌∷◌}
use balthazar.Message.{NodeType, HandlerIn, message_of, WorkerMsg}
use balthazar.Connection.{
  ready, pending, message, Io, SubstreamState, in_pending_send, in_waiting_message, in_waiting_user,
  out_pending_open, Balthandler, unfinished, drive, new_handler, inject_event, inject_sent,
  advance_substream, take_waiting, reply,
}
use balthazar.Connection.Polling.{poll, poll_below, swap_remove, max_rounds}
use balthazar.Connection.Progress.{drive-max_rounds}
use balthazar.Connection.Sweep.{Swept, poll-Swept}
use balthazar.Connection.Requests.{has_request}
use balthazar.Connection.Identifiers.{
  inbound, event, polled_at, calls, IsWithOwnIds, calls-IsWithOwnIds,
}
use balthazar.Connection.Once.{Leaves, are_unasked, inject_event-calls}
use balthazar.Tests.{formats}

-- A sink that takes everything, and has received the question for the node type.
abbrev open_sink : ℕ → SubstreamState → Io
open_sink k s = record {
  poll_ready = ready true;
  start_send = true;
  poll_flush = ready true;
  poll_next = ready (message (some (WorkerMsg.node_type_request 1)));
  poll_close = pending;
}

-- An answer to send, and a question to open.
abbrev connection : Balthandler
connection = record {
  substreams =
      in_pending_send 0 7 WorkerMsg.ack ∷ out_pending_open WorkerMsg.manager_ping (some 3) ∷ [];
  keep_alive = 0;
  next_connec_unique_id = 1;
}

-- One request that waits for the answer.
abbrev asked : Balthandler
asked = record {
  substreams = in_waiting_user 0 7 ∷ in_waiting_message 1 8 ∷ [];
  keep_alive = 0;
  next_connec_unique_id = 2;
}

drive-max_rounds_example :
    drive formats open_sink max_rounds 0 (in_pending_send 0 7 WorkerMsg.ack) ≢ unfinished
drive-max_rounds_example = drive-max_rounds formats open_sink 0 (in_pending_send 0 7 WorkerMsg.ack)

poll-Swept_example :
    Swept formats open_sink 5
      (has_request 0)
      connection.substreams
      (poll formats open_sink 5 connection)
poll-Swept_example = poll-Swept formats open_sink 5 (has_request 0) connection

calls-IsWithOwnIds_example : IsWithOwnIds 4 (
    calls formats
      (inbound 7
        ∷ inbound 8
        ∷ polled_at open_sink 5
        ∷ event (HandlerIn.node_type_answer NodeType.manager 1)
        ∷ [])
      (new_handler 0))
calls-IsWithOwnIds_example =
    calls-IsWithOwnIds formats
      (inbound 7
        ∷ inbound 8
        ∷ polled_at open_sink 5
        ∷ event (HandlerIn.node_type_answer NodeType.manager 1)
        ∷ [])
      0 (omega arith)

-- Nothing more comes from the peer.
abbrev silent_sink : ℕ → SubstreamState → Io
silent_sink k s = record (open_sink k s) { poll_next = pending }

inject_event-calls_example :
    Leaves
      (λ g. inject_event formats (HandlerIn.not_mine 0) g ≡ g)
      (calls formats
        (polled_at silent_sink 5 ∷ inbound 9 ∷ [])
        (inject_event formats (HandlerIn.ack 0) asked))
unfolding message_of are_unasked inject_event inject_sent poll poll_below drive advance_substream
    take_waiting reply swap_remove
inject_event-calls_example =
    inject_event-calls formats (HandlerIn.ack 0) (HandlerIn.not_mine 0) 0 WorkerMsg.ack
      WorkerMsg.not_mine (polled_at silent_sink 5 ∷ inbound 9 ∷ []) asked refl refl (omega arith)
      refl
