-- ===== src/Connection/Answers.antt =====
-- Lemmas on `inject_event` of balthernet/src/balthazar/handler.rs: the identifiers of requests.
use balthazar.Prelude.{
  ◌≤◌, ◌≡◌, refl, ap, ◌∙◌, Bool, true, false, Option, none, some, List, [], ◌∷◌, count_if,
  if◌then◌else◌, ==_iff, arith,
}
use balthazar.Message.{WorkerMsg, RequestId, Sent, request, answer}
use balthazar.Connection.{
  Sink, SubstreamState, out_pending_open, in_waiting_user, in_pending_send, Balthandler,
  push_substream, waits_for, sink_of, take_waiting, reply, inject_sent,
}
use balthazar.Connection.Sweep.{count_if-append}
use balthazar.Connection.Requests.{has_request}

some-inj : {x y : Sink} → some x ≡ some y → x ≡ y
some-inj h = cc

chosen :
    (x : SubstreamState)
    → List SubstreamState
    → List SubstreamState × Option Sink
    → Bool
    → List SubstreamState × Option Sink
chosen x ss rest b = if b then (ss, some (sink_of x)) else (x ∷ rest.0, rest.1)

chosen-count_if :
    (p : SubstreamState → Bool) (r : RequestId) (x : SubstreamState) (ss : List SubstreamState)
    (rest : List SubstreamState × Option Sink) (b : Bool) {s : Sink}
    → (b ≡ true → x ≡ in_waiting_user r (sink_of x))
    → (rest.1 ≡ some s → count_if p ss ≡ count_if p (in_waiting_user r s ∷ rest.0))
    → (chosen x ss rest b).1 ≡ some s
    → count_if p (x ∷ ss) ≡ count_if p (in_waiting_user r s ∷ (chosen x ss rest b).0)
unfolding chosen
chosen-count_if p r x ss rest true is next h =
    ap (λ y. count_if p (y ∷ ss)) (is refl ∙ ap (in_waiting_user r) (some-inj h))
chosen-count_if p r x ss rest false is next h = ground (arith, next h)

waits_for-is :
    (r : RequestId) (x : SubstreamState) → waits_for r x ≡ true → x ≡ in_waiting_user r (sink_of x)
waits_for-is r (in_waiting_user i k) h = ap (λ j. in_waiting_user j k) ((==_iff i r).0 h)
waits_for-is r (out_pending_open m n) h = cc
waits_for-is r x h = cc

-- What taking a waiting substream out does to any count.
pub take_waiting-count_if :
    (p : SubstreamState → Bool) (r : RequestId) (ss : List SubstreamState) {s : Sink}
    → (take_waiting r ss).1 ≡ some s
    → count_if p ss ≡ count_if p (in_waiting_user r s ∷ (take_waiting r ss).0)
unfolding take_waiting chosen
take_waiting-count_if p r [] h = cc
take_waiting-count_if p r (x ∷ ss) h =
    chosen-count_if p r x ss (take_waiting r ss) (waits_for r x) (waits_for-is r x)
      (take_waiting-count_if p r ss) h

pub take_waiting-none :
    (r : RequestId) (ss : List SubstreamState)
    → count_if (waits_for r) ss ≡ 0
    → (take_waiting r ss).1 ≡ none
unfolding take_waiting
take_waiting-none r [] h = refl
take_waiting-none r (s ∷ ss) h = ground (arith, take_waiting-none r ss)

pub waits_for-le :
    (r : RequestId) (ss : List SubstreamState)
    → count_if (waits_for r) ss ≤ count_if (has_request r) ss
waits_for-le r [] = omega arith
waits_for-le r (out_pending_open m n ∷ ss) = ground (arith, waits_for-le r ss)
waits_for-le r (x ∷ ss) = ground (arith, waits_for-le r ss)

pub push_substream-le :
    (r : RequestId) (s : SubstreamState) (h : Balthandler)
    → has_request r s ≡ false
    → count_if (has_request r) (push_substream s h).substreams
      ≤ count_if (has_request r) h.substreams
push_substream-le r s h e =
    rw (count_if-append (has_request r) h.substreams (s ∷ [])) (ground (arith, e))

reply-le :
    (r q : RequestId) (m : WorkerMsg) (h : Balthandler) (o : Option Sink)
    → (take_waiting q h.substreams).1 ≡ o
    → count_if (has_request r) (reply q m h ((take_waiting q h.substreams).0, o)).substreams
      ≤ count_if (has_request r) h.substreams
unfolding reply
reply-le r q m h none e = omega arith
reply-le r q m h (some s) e =
    rw
      (count_if-append (has_request r) (take_waiting q h.substreams).0 (in_pending_send q s m ∷ []))
      (ground (arith, take_waiting-count_if (has_request r) q h.substreams e))

pub inject_sent-le :
    (r : RequestId) (s : Sent) (h : Balthandler)
    → count_if (has_request r) (inject_sent s h).substreams ≤ count_if (has_request r) h.substreams
unfolding inject_sent
inject_sent-le r (request n m) h = push_substream-le r (out_pending_open m (some n)) h refl
inject_sent-le r (answer q m) h = reply-le r q m h (take_waiting q h.substreams).1 refl

reply-next :
    (q : RequestId) (m : WorkerMsg) (h : Balthandler) (o : List SubstreamState × Option Sink)
    → (reply q m h o).next_connec_unique_id ≡ h.next_connec_unique_id
unfolding reply
reply-next q m h (ss, none) = refl
reply-next q m h (ss, some s) = refl

pub inject_sent-next :
    (s : Sent) (h : Balthandler) → (inject_sent s h).next_connec_unique_id ≡ h.next_connec_unique_id
unfolding inject_sent
inject_sent-next (request n m) h = refl
inject_sent-next (answer q m) h = reply-next q m h (take_waiting q h.substreams)
