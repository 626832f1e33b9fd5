-- ===== src/Connection/Sweep.antt =====
-- The outer loop of `poll` of balthernet/src/balthazar/handler.rs, over the substreams.
use mathlib.Core.Path.{subst}
use balthazar.Prelude.{
  ℕ, zero, suc, ◌+◌, ◌≡◌, refl, ap, sym, ◌∙◌, Bool, true, Option, none, some, List, [], ◌∷◌, ◌++◌,
  is_empty, length, All, count_if, arith, Bool-cases, inl, inr,
}
use balthazar.Ids.{Formats}
use balthazar.Message.{filter_map}
use balthazar.Connection.{
  ready, pending, Io, SubstreamState, HandlerEvent, Left, kept, gone, kept_with, gone_with,
  unfinished, drive, Balthandler,
}
use balthazar.Connection.Polling.{
  rotate_onto, rotate, swap_remove, cons_rest, Polled, polled, panicked, out_of_rounds, max_rounds,
  refresh, leave, taken, poll_below, poll,
}
use balthazar.Connection.Progress.{drive-max_rounds}

-- What a substream that was left leaves behind, and what it reports.
abbrev pub survivor_of : Left → Option SubstreamState
survivor_of (kept s) = some s
survivor_of gone = none
survivor_of (kept_with s e) = some s
survivor_of (gone_with e) = none
survivor_of unfinished = none

abbrev pub event_of : Left → Option HandlerEvent
event_of (kept s) = none
event_of gone = none
event_of (kept_with s e) = some e
event_of (gone_with e) = some e
event_of unfinished = none

module _ {ℓ} {A : Type ℓ} where
  append_snoc : (us : List A) (u : A) (ds : List A) → (us ++ u ∷ []) ++ ds ≡ us ++ u ∷ ds
  append_snoc [] u ds = refl
  append_snoc (x ∷ us) u ds = ap (λ l. x ∷ l) (append_snoc us u ds)

  append_assoc : (us vs ws : List A) → (us ++ vs) ++ ws ≡ us ++ (vs ++ ws)
  append_assoc [] vs ws = refl
  append_assoc (x ∷ us) vs ws = ap (λ l. x ∷ l) (append_assoc us vs ws)

  pub count_if-append :
      (p : A → Bool) (us vs : List A) → count_if p (us ++ vs) ≡ count_if p us + count_if p vs
  count_if-append p [] vs = omega arith
  count_if-append p (x ∷ us) vs = ground (arith, count_if-append p us vs)

  count_if-rotate_onto :
      (p : A → Bool) (x : A) (xs : List A)
      → count_if p ((rotate_onto x xs).0 ∷ (rotate_onto x xs).1) ≡ count_if p (x ∷ xs)
  unfolding rotate_onto
  count_if-rotate_onto p x [] = refl
  count_if-rotate_onto p x (y ∷ ys) = ground (arith, count_if-rotate_onto p y ys)

  count_if-rotate : (p : A → Bool) (xs : List A) → count_if p (rotate xs) ≡ count_if p xs
  unfolding rotate
  count_if-rotate p [] = refl
  count_if-rotate p (x ∷ xs) = count_if-rotate_onto p x xs

  swap_remove-append :
      (us : List A) (u : A) (ds : List A)
      → swap_remove (length us) (us ++ u ∷ ds) ≡ some (u, us ++ rotate ds)
  unfolding swap_remove
  swap_remove-append [] u ds = refl
  swap_remove-append (x ∷ us) u ds = ap (cons_rest x) (swap_remove-append us u ds)

  snoc :
      (x : A) (xs : List A)
      → (us : List A) × (u : A) × (x ∷ xs ≡ us ++ u ∷ []) × (length us ≡ length xs)
  snoc x [] = ([], x, refl, refl)
  snoc x (y ∷ ys) = let (us, u, is, len) = snoc y ys in (x ∷ us, u, ap (λ l. x ∷ l) is, ap suc len)

module _ (f : Formats) (io : ℕ → SubstreamState → Io) (now : ℕ) (p : SubstreamState → Bool) where
  -- The loop on one substream.
  abbrev pub left : SubstreamState → Left
  left s = drive f io max_rounds 0 s

  abbrev pub IsQuiet : SubstreamState → Type 0
  IsQuiet s = event_of (left s) ≡ none

  abbrev pub survivors : List SubstreamState → List SubstreamState
  survivors ss = filter_map (λ s. survivor_of (left s)) ss

  -- What a poll may return from these substreams.
  abbrev pub Swept : List SubstreamState → Polled → Type 0
  Swept ss (polled pending h) =
      All IsQuiet ss × (count_if p h.substreams ≡ count_if p (survivors ss))
  Swept ss (polled (ready e) h) =
      (us : List SubstreamState) × (u : SubstreamState) × (ws : List SubstreamState) × (ss
        ≡ us ++ u ∷ ws)
      × (event_of (left u) ≡ some e)
      × All IsQuiet ws
      × (count_if p h.substreams ≡ count_if p us + count_if p (survivors (u ∷ ws)))
  Swept ss panicked = ⊥
  Swept ss out_of_rounds = ⊥

  substreams-refresh : (h : Balthandler) → (refresh now h).substreams ≡ h.substreams
  substreams-refresh h = ground arith

  leave-Swept :
      (next : Balthandler → Polled) (h : Balthandler) (us : List SubstreamState)
      (u : SubstreamState) (ds ws : List SubstreamState) (l : Left)
      → l ≡ left u
      → count_if p ds ≡ count_if p (survivors ws)
      → All IsQuiet ws
      → ((g : Balthandler) (ds' : List SubstreamState)
          → g.substreams ≡ us ++ ds'
          → count_if p ds' ≡ count_if p (survivors (u ∷ ws))
          → IsQuiet u
          → Swept (us ++ u ∷ ws) (next g))
      → Swept (us ++ u ∷ ws) (leave now next (record h { substreams = us ++ rotate ds }) l)
  unfolding leave filter_map
  leave-Swept next h us u ds ws (kept s) is counts quiet rest =
      rest (record h { substreams = (us ++ rotate ds) ++ s ∷ [] }) (rotate ds ++ s ∷ [])
        (append_assoc us (rotate ds) (s ∷ []))
        (rw (← is) (
          omega (
            arith,
            counts,
            count_if-rotate p ds,
            count_if-append p (rotate ds) (s ∷ []),
            count_if-append p (s ∷ []) (survivors ws),
          )))
        (rw (← is) refl)
  leave-Swept next h us u ds ws gone is counts quiet rest =
      rest (record h { substreams = us ++ rotate ds }) (rotate ds) refl
        (rw (← is) (count_if-rotate p ds ∙ counts)) (rw (← is) refl)
  leave-Swept next h us u ds ws (kept_with s e) is counts quiet rest = (
    us,
    u,
    ws,
    refl,
    ap event_of (sym is),
    quiet,
    rw (← is) (
        omega (
          arith,
          counts,
          count_if-rotate p ds,
          count_if-append p (us ++ rotate ds) (s ∷ []),
          count_if-append p us (rotate ds),
          count_if-append p (s ∷ []) (survivors ws),
        )),
  )
  leave-Swept next h us u ds ws (gone_with e) is counts quiet rest = (
    us,
    u,
    ws,
    refl,
    ap event_of (sym is),
    quiet,
    ap (count_if p) (substreams-refresh (record h { substreams = us ++ rotate ds }))
        ∙ rw (← is) (omega (arith, counts, count_if-rotate p ds, count_if-append p us (rotate ds))),
  )
  leave-Swept next h us u ds ws unfinished is counts quiet rest =
      absurd (drive-max_rounds f io 0 u (sym is))

  split_snoc :
      (n : ℕ) (us : List SubstreamState)
      → length us ≡ suc n
      → (vs : List SubstreamState) × (u : SubstreamState) × (us ≡ vs ++ u ∷ []) × (length vs ≡ n)
  split_snoc n [] len = absurd (omega arith)
  split_snoc n (x ∷ xs) len = let (vs, u, is, same) = snoc x xs in (vs, u, is, omega arith)

  poll_below-Swept :
      (n : ℕ) (h : Balthandler) (us ds ws : List SubstreamState)
      → length us ≡ n
      → h.substreams ≡ us ++ ds
      → count_if p ds ≡ count_if p (survivors ws)
      → All IsQuiet ws
      → Swept (us ++ ws) (poll_below f io now n h)
  unfolding poll_below taken
  poll_below-Swept zero h [] ds ws len is counts quiet = (quiet, ap (count_if p) is ∙ counts)
  poll_below-Swept zero h (x ∷ us) ds ws len is counts quiet = absurd (omega arith)
  poll_below-Swept (suc n) h us ds ws len is counts quiet =
      let (vs, u, split, len') = split_snoc n us len in
      let here : h.substreams ≡ vs ++ u ∷ ds = is ∙ ap (λ l. l ++ ds) split ∙ append_snoc vs u ds in
      let all : us ++ ws ≡ vs ++ u ∷ ws = ap (λ l. l ++ ws) split ∙ append_snoc vs u ws in
      let found : swap_remove n h.substreams ≡ some (u, vs ++ rotate ds) =
        rw (here, ← len') (swap_remove-append vs u ds) in
      rw (all, found)
        (leave-Swept (poll_below f io now n) h vs u ds ws (left u) refl counts quiet
          (λ g ds' is' counts' q. poll_below-Swept n g vs ds' (u ∷ ws) len' is' counts' (q, quiet)))

  pub append_nil : (us : List SubstreamState) → us ++ [] ≡ us
  append_nil [] = refl
  append_nil (x ∷ us) = ap (λ l. x ∷ l) (append_nil us)

  -- A poll of a connection neither panics nor leaves a loop unfinished. It runs the loop of each
  -- substream once, from the last to the first, up to one that makes an event, which is returned;
  -- of the substreams that are left, as many pass any given test as of those not reached and of
  -- what the loops left of the others.
  pub poll-Swept : (h : Balthandler) → Swept h.substreams (poll f io now h)
  unfolding poll filter_map
  poll-Swept h = elim (Bool-cases (is_empty h.substreams)) [
    | inl e ↦ rw (e, empty h.substreams e) (tt, refl)
    | inr e ↦ rw e (
        subst (λ ss. Swept ss (poll_below f io now (length h.substreams) h))
          (append_nil h.substreams)
          (poll_below-Swept (length h.substreams) h h.substreams [] [] refl
            (sym (append_nil h.substreams)) refl tt))
  ]
    where
      empty : (ss : List SubstreamState) → is_empty ss ≡ true → ss ≡ []
      empty [] h' = refl
      empty (x ∷ ss) h' = cc
