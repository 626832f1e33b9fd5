-- ===== src/Connection/Numbering.antt =====
-- Lemmas on `poll` of balthernet/src/balthazar/handler.rs: the number of the next substream.
use balthazar.Prelude.{
  ℕ, is_empty, zero, suc, ◌≡◌, refl, Option, none, some, List, length, arith, Bool-cases, inl, inr,
}
use balthazar.Ids.{Formats}
use balthazar.Connection.{
  Left, kept, gone, kept_with, gone_with, unfinished, drive, Io, SubstreamState, Balthandler,
  push_substream,
}
use balthazar.Connection.Polling.{Polled, polled, panicked, out_of_rounds, poll}
use balthazar.Connection.Polling.{poll_below, taken, leave, swap_remove, max_rounds}

-- The poll returned, and the next identifier is `n`.
unfoldable pub KeepsNext : ℕ → Polled → Type 0
KeepsNext n (polled e h) = h.next_connec_unique_id ≡ n
KeepsNext n panicked = Unit
KeepsNext n out_of_rounds = Unit

leave-KeepsNext :
    (now n : ℕ) (next : Balthandler → Polled) (h : Balthandler) (l : Left)
    → h.next_connec_unique_id ≡ n
    → ((g : Balthandler) → g.next_connec_unique_id ≡ n → KeepsNext n (next g))
    → KeepsNext n (leave now next h l)
unfolding leave KeepsNext
leave-KeepsNext now n next h (kept s) e k = k (push_substream s h) e
leave-KeepsNext now n next h gone e k = k h e
leave-KeepsNext now n next h (kept_with s x) e k = e
leave-KeepsNext now n next h (gone_with x) e k = ground (arith, e)
leave-KeepsNext now n next h unfinished e k = tt

taken-KeepsNext :
    (f : Formats) (io : ℕ → SubstreamState → Io) (now n : ℕ) (next : Balthandler → Polled)
    (h : Balthandler) (o : Option (SubstreamState × List SubstreamState))
    → h.next_connec_unique_id ≡ n
    → ((g : Balthandler) → g.next_connec_unique_id ≡ n → KeepsNext n (next g))
    → KeepsNext n (taken f io now next h o)
unfolding taken KeepsNext
taken-KeepsNext f io now n next h none e k = tt
taken-KeepsNext f io now n next h (some (s, ss)) e k =
    leave-KeepsNext now n next (record h { substreams = ss }) (drive f io max_rounds 0 s) e k

poll_below-KeepsNext :
    (f : Formats) (io : ℕ → SubstreamState → Io) (now n l : ℕ) (h : Balthandler)
    → h.next_connec_unique_id ≡ n
    → KeepsNext n (poll_below f io now l h)
unfolding poll_below KeepsNext
poll_below-KeepsNext f io now n zero h e = e
poll_below-KeepsNext f io now n (suc l) h e =
    taken-KeepsNext f io now n (poll_below f io now l) h (swap_remove l h.substreams) e
      (poll_below-KeepsNext f io now n l)

pub poll-KeepsNext :
    (f : Formats) (io : ℕ → SubstreamState → Io) (now : ℕ) (h : Balthandler)
    → KeepsNext h.next_connec_unique_id (poll f io now h)
unfolding poll KeepsNext
poll-KeepsNext f io now h = elim (Bool-cases (is_empty h.substreams)) [
  | inl e ↦ rw e refl
  | inr e ↦
      rw e (poll_below-KeepsNext f io now h.next_connec_unique_id (length h.substreams) h refl)
]
