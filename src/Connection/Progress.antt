-- ===== src/Connection/Progress.antt =====
-- The inner loop of `poll` of balthernet/src/balthazar/handler.rs, on one substream.
use balthazar.Prelude.{ℕ, zero, suc, ◌<◌, ◌≡◌, ◌≢◌, refl, true, false, none, some, arith}
use balthazar.Ids.{Formats}
use balthazar.Connection.{
  Io, SubstreamState, out_pending_open, out_pending_send, out_pending_flush, out_waiting_answer,
  out_report_error, out_closing, in_waiting_message, in_waiting_user, in_pending_send,
  in_pending_flush, in_closing, Advanced, advance_substream, Left, unfinished, next_round, drive,
}
use balthazar.Connection.Polling.{max_rounds}

-- How many rounds a state can still go on at once.
abbrev pub rank : SubstreamState → ℕ
rank (out_pending_open m n) = 0
rank (out_pending_send s m n) = 3
rank (out_pending_flush s n) = 2
rank (out_waiting_answer s n) = 1
rank (out_report_error e n) = 0
rank (out_closing s) = 0
rank (in_waiting_message r s) = 1
rank (in_waiting_user r s) = 0
rank (in_pending_send r s m) = 3
rank (in_pending_flush r s) = 2
rank (in_closing s) = 0

-- A state to go on with has a lower rank.
rank-advance_substream :
    (f : Formats) (io : Io) (s : SubstreamState) {s' : SubstreamState}
    → advance_substream f io s ≡ (some s', none, true)
    → rank s' < rank s
unfolding advance_substream
rank-advance_substream f io (out_pending_open m n) h = ground arith
rank-advance_substream f io (out_pending_send s m n) h = ground arith
rank-advance_substream f io (out_pending_flush s n) h = ground arith
rank-advance_substream f io (out_waiting_answer s n) h = ground arith
rank-advance_substream f io (out_report_error e n) h = ground arith
rank-advance_substream f io (out_closing s) h = ground arith
rank-advance_substream f io (in_waiting_message r s) h = ground arith
rank-advance_substream f io (in_waiting_user r s) h = ground arith
rank-advance_substream f io (in_pending_send r s m) h = ground arith
rank-advance_substream f io (in_pending_flush r s) h = ground arith
rank-advance_substream f io (in_closing s) h = ground arith

next_round-finishes :
    (r : Advanced) (again : SubstreamState → Left)
    → ((s : SubstreamState) → r ≡ (some s, none, true) → again s ≢ unfinished)
    → next_round again r ≢ unfinished
unfolding next_round
next_round-finishes (some s, some e, b) again h e' = cc
next_round-finishes (none, some e, b) again h e' = cc
next_round-finishes (some s, none, false) again h e' = cc
next_round-finishes (some s, none, true) again h e' = h s refl e'
next_round-finishes (none, none, b) again h e' = cc

drive-finishes :
    (f : Formats) (io : ℕ → SubstreamState → Io) (n k : ℕ) (s : SubstreamState)
    → rank s < n
    → drive f io n k s ≢ unfinished
unfolding drive
drive-finishes f io zero k s h = absurd (omega arith)
drive-finishes f io (suc n) k s h =
    next_round-finishes (advance_substream f io' s) (drive f io n (suc k)) (λ s' e.
      drive-finishes f io n (suc k) s' (omega (arith, rank-advance_substream f io' s e, h)))
  where
    io' : Io
    io' = io k s

rank_below : (s : SubstreamState) → rank s < max_rounds
rank_below (out_pending_open m n) = omega arith
rank_below _ = omega arith

-- The loop on one substream ends after at most four rounds, whatever its sink answers in each of
-- them.
pub drive-max_rounds :
    (f : Formats) (io : ℕ → SubstreamState → Io) (k : ℕ) (s : SubstreamState)
    → drive f io max_rounds k s ≢ unfinished
drive-max_rounds f io k s = drive-finishes f io max_rounds k s (rank_below s)
