-- ===== src/Connection/Requests.antt =====
-- Lemmas on `poll` of balthernet/src/balthazar/handler.rs: the identifiers of requests.
use balthazar.Prelude.{
  ℕ, zero, suc, ◌≤◌, ◌==◌, ◌≡◌, refl, Bool, true, false, Option, none, some, List, [], ◌∷◌,
  count_if, arith,
}
use balthazar.Ids.{Formats}
use balthazar.Message.{RequestId, filter_map, cons_some}
use balthazar.Connection.{
  ready, pending, Io, SubstreamState, out_pending_open, out_pending_send, out_pending_flush,
  out_waiting_answer, out_report_error, out_closing, in_waiting_message, in_waiting_user,
  in_pending_send, in_pending_flush, in_closing, Advanced, advance_substream, Left, next_round,
  drive, Balthandler,
}
use balthazar.Connection.Polling.{Polled, polled, panicked, out_of_rounds, max_rounds, poll}
use balthazar.Connection.Sweep.{survivor_of, survivors, Swept, poll-Swept, count_if-append}

-- A substream that the peer opened, under this identifier.
abbrev pub has_request : RequestId → SubstreamState → Bool
has_request r (in_waiting_message i s) = i == r
has_request r (in_waiting_user i s) = i == r
has_request r (in_pending_send i s m) = i == r
has_request r (in_pending_flush i s) = i == r
has_request r _ = false

advance-has_request :
    (f : Formats) (io : Io) (r : RequestId) (s : SubstreamState) {s' : SubstreamState}
    → (advance_substream f io s).0 ≡ some s'
    → has_request r s' ≡ true
    → has_request r s ≡ true
unfolding advance_substream
advance-has_request f io r (out_pending_open m n) h t = ground arith
advance-has_request f io r (out_pending_send s m n) h t = ground arith
advance-has_request f io r (out_pending_flush s n) h t = ground arith
advance-has_request f io r (out_waiting_answer s n) h t = ground arith
advance-has_request f io r (out_report_error e n) h t = ground arith
advance-has_request f io r (out_closing s) h t = ground arith
advance-has_request f io r (in_waiting_message i s) h t = ground arith
advance-has_request f io r (in_waiting_user i s) h t = ground arith
advance-has_request f io r (in_pending_send i s m) h t = ground arith
advance-has_request f io r (in_pending_flush i s) h t = ground arith
advance-has_request f io r (in_closing s) h t = ground arith

-- A substream keeps its identifier through the loop, or loses it.
abbrev Keeps : RequestId → SubstreamState → Option SubstreamState → Type 0
Keeps r s none = Unit
Keeps r s (some s') = has_request r s' ≡ true → has_request r s ≡ true

Keeps-some :
    (r : RequestId) (s : SubstreamState) (o : Option SubstreamState)
    → ((s' : SubstreamState) → o ≡ some s' → has_request r s' ≡ true → has_request r s ≡ true)
    → Keeps r s o
Keeps-some r s none h = tt
Keeps-some r s (some s') h = h s' refl

Keeps-trans :
    (r : RequestId) (s s' : SubstreamState) (o : Option SubstreamState)
    → (has_request r s' ≡ true → has_request r s ≡ true)
    → Keeps r s' o
    → Keeps r s o
Keeps-trans r s s' none h k = tt
Keeps-trans r s s' (some t) h k = λ e. h (k e)

Keeps-next_round :
    (r : RequestId) (s : SubstreamState) (a : Advanced) (again : SubstreamState → Left)
    → Keeps r s a.0
    → ((s' : SubstreamState) → Keeps r s' (survivor_of (again s')))
    → Keeps r s (survivor_of (next_round again a))
unfolding next_round
Keeps-next_round r s (some s', some e, b) again h hs = h
Keeps-next_round r s (none, some e, b) again h hs = tt
Keeps-next_round r s (some s', none, false) again h hs = h
Keeps-next_round r s (some s', none, true) again h hs =
    Keeps-trans r s s' (survivor_of (again s')) h (hs s')
Keeps-next_round r s (none, none, b) again h hs = tt

module _ (f : Formats) (r : RequestId) where
  drive-Keeps :
      (io : ℕ → SubstreamState → Io) (n k : ℕ) (s : SubstreamState)
      → Keeps r s (survivor_of (drive f io n k s))
  unfolding drive
  drive-Keeps io zero k s = tt
  drive-Keeps io (suc n) k s =
      Keeps-next_round r s (advance_substream f (io k s) s) (drive f io n (suc k))
        (Keeps-some r s (advance_substream f (io k s) s).0
          (λ s'. advance-has_request f (io k s) r s))
        (drive-Keeps io n (suc k))

  count_if-cons_some :
      (s : SubstreamState) (o : Option SubstreamState) (ss : List SubstreamState)
      → Keeps r s o
      → count_if (has_request r) (cons_some o ss) ≤ count_if (has_request r) (s ∷ ss)
  count_if-cons_some s none ss h = ground arith
  count_if-cons_some s (some s') ss h = ground (arith, h)

  pub count_if-survivors :
      (io : ℕ → SubstreamState → Io) (ss : List SubstreamState)
      → count_if (has_request r) (survivors f io 0 (has_request r) ss) ≤ count_if (has_request r) ss
  unfolding filter_map
  count_if-survivors io [] = omega arith
  count_if-survivors io (s ∷ ss) = ground (
    arith,
    count_if-survivors io ss,
    count_if-cons_some s (survivor_of (drive f io max_rounds 0 s))
        (survivors f io 0 (has_request r) ss) (drive-Keeps io max_rounds 0 s),
  )

  -- The handler after a poll; one that panics or does not end has none.
  abbrev pub after_poll : Polled → List SubstreamState
  after_poll (polled e h) = h.substreams
  after_poll panicked = []
  after_poll out_of_rounds = []

  Swept-le :
      (io : ℕ → SubstreamState → Io) (now : ℕ) (ss : List SubstreamState) (o : Polled)
      → Swept f io now (has_request r) ss o
      → count_if (has_request r) (after_poll o) ≤ count_if (has_request r) ss
  Swept-le io now ss (polled pending h) (quiet, counts) =
      omega (arith, counts, count_if-survivors io ss)
  Swept-le io now ss (polled (ready e) h) (us, u, ws, is, reports, quiet, counts) = rw is (
      omega (
        arith,
        counts,
        count_if-survivors io (u ∷ ws),
        count_if-append (has_request r) us (u ∷ ws),
      ))
  Swept-le io now ss panicked h = omega arith
  Swept-le io now ss out_of_rounds h = omega arith

  pub has_request-poll :
      (io : ℕ → SubstreamState → Io) (now : ℕ) (h : Balthandler)
      → count_if (has_request r) (after_poll (poll f io now h))
        ≤ count_if (has_request r) h.substreams
  has_request-poll io now h =
      Swept-le io now h.substreams (poll f io now h) (poll-Swept f io now (has_request r) h)
