-- ===== src/Connection/Polling.antt =====
-- `poll` of the handler of a connection, balthernet/src/balthazar/handler.rs.
use balthazar.Prelude.{
  ℕ, zero, suc, Option, none, some, List, [], ◌∷◌, is_empty, length, if◌then◌else◌,
}
use balthazar.Ids.{Formats}
use balthazar.Connection.{
  Poll, ready, pending, Io, SubstreamState, HandlerEvent, Left, kept, gone, kept_with, gone_with,
  unfinished, drive, Balthandler, default_keep_alive, push_substream,
}

-- The last element moved to the front.
unfoldable pub rotate_onto {ℓ} : {A : Type ℓ} → A → List A → A × List A
rotate_onto x [] = (x, [])
rotate_onto x (y ∷ ys) = let r = rotate_onto y ys in (r.0, x ∷ r.1)

unfoldable pub rotate {ℓ} : {A : Type ℓ} → List A → List A
unfolding rotate_onto
rotate [] = []
rotate (x ∷ xs) = let r = rotate_onto x xs in r.0 ∷ r.1

unfoldable pub cons_rest {ℓ} : {A : Type ℓ} → A → Option (A × List A) → Option (A × List A)
cons_rest x none = none
cons_rest x (some (y, ys)) = some (y, x ∷ ys)

-- `Vec::swap_remove`: the last element takes the place of the one removed. It panics out of range.
unfoldable pub swap_remove {ℓ} : {A : Type ℓ} → ℕ → List A → Option (A × List A)
unfolding rotate cons_rest
swap_remove n [] = none
swap_remove zero (x ∷ xs) = some (x, rotate xs)
swap_remove (suc n) (x ∷ xs) = cons_rest x (swap_remove n xs)

-- What `poll` returns, with the handler after it; a panic, or a loop that was not left.
pub data Polled : Type 0 where
  polled : Poll HandlerEvent → Balthandler → Polled
  panicked out_of_rounds : Polled

-- The rounds that the inner loop is allowed.
abbrev pub max_rounds : ℕ
max_rounds = 4

abbrev pub refresh : ℕ → Balthandler → Balthandler
refresh now h =
    if is_empty h.substreams then record h { keep_alive = default_keep_alive now } else h

-- A round of the outer loop, over what follows it.
unfoldable pub leave : ℕ → (Balthandler → Polled) → Balthandler → Left → Polled
leave now next h (kept s) = next (push_substream s h)
leave now next h gone = next h
leave now next h (kept_with s e) = polled (ready e) (push_substream s h)
leave now next h (gone_with e) = polled (ready e) (refresh now h)
leave now next h unfinished = out_of_rounds

unfoldable pub taken :
    Formats
    → (ℕ → SubstreamState → Io)
    → ℕ
    → (Balthandler → Polled)
    → Balthandler
    → Option (SubstreamState × List SubstreamState)
    → Polled
unfolding leave
taken f io now next h none = panicked
taken f io now next h (some (s, ss)) =
    leave now next (record h { substreams = ss }) (drive f io max_rounds 0 s)

-- `for n in (0..len).rev()`
unfoldable pub poll_below : Formats → (ℕ → SubstreamState → Io) → ℕ → ℕ → Balthandler → Polled
unfolding taken swap_remove
poll_below f io now zero h = polled pending h
poll_below f io now (suc n) h =
    taken f io now (poll_below f io now n) h (swap_remove n h.substreams)

-- `poll`
unfoldable pub poll : Formats → (ℕ → SubstreamState → Io) → ℕ → Balthandler → Polled
unfolding poll_below
poll f io now h =
    if is_empty h.substreams then polled pending h else poll_below f io now (length h.substreams) h
