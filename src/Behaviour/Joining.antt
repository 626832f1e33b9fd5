-- ===== src/Behaviour/Joining.antt =====
-- Lemmas on the handlers of balthernet/src/balthazar/events.rs: relationships before and after.
use balthazar.Prelude.{
  ℕ, ◌≡◌, refl, ap, sym, ◌∙◌, true, ◌⊎◌, inl, inr, Option, none, some, List, nat_eq, ◌==◌, ==_iff,
  if_both, Bool-cases,
}
use balthazar.Prelude.Assoc.{Assoc, lookup, insert, lookup-insert}
use balthazar.Ids.{PeerId}
use balthazar.Ids.HashId.{TaskId}
use balthazar.TaskStatus.{TaskStatus}
use balthazar.Message.{NodeType, QueryId, RequestId, HandlerOut}
use balthazar.Connection.{Poll}
use balthazar.Behaviour.{
  EventOut, Action, generate_event, Link, ManagerData, WorkerData, NodeTypeData, Outcome, done,
  deadlocked, panicked, out_of_rounds, BalthBehaviour, node_type_of, node_type_into, peer_at,
  is_related, is_some_link, is_manager, is_in_relationship_with,
}
use balthazar.Behaviour.Events.{
  needs_relationship_with, not_mine, manager_bye, inject_bye, manager_pong, pong_to, pong_of_worker,
  pong_of_manager, tasks_pong, break_worker_manager_relationship,
}
use balthazar.Behaviour.Relations.{
  internals, Narrows, Narrows-refl, Narrows-inject, Narrows-data, break-IsBroken,
}

abbrev pub other : NodeType → NodeType
other NodeType.manager = NodeType.worker
other NodeType.worker = NodeType.manager

-- That a call does not run out of rounds, and that this holds of its result if it returns.
abbrev pub Ends {ℓ} : {B : Type ℓ} → (B → Type 0) → Outcome B → Type 0
Ends P (done x) = P x
Ends P deadlocked = Unit
Ends P panicked = Unit
Ends P out_of_rounds = ⊥

pub Ends-map {ℓ} :
    {B : Type ℓ} (P Q : B → Type 0) (o : Outcome B) → ((x : B) → P x → Q x) → Ends P o → Ends Q o
Ends-map P Q (done x) f h = f x h
Ends-map P Q deadlocked f h = tt
Ends-map P Q panicked f h = tt
Ends-map P Q out_of_rounds f h = h

-- A manager's workers after an entry is written.
pub is_some_link-insert :
    (i k : PeerId) (l : Link) (ws : Assoc PeerId Link)
    → is_some_link (lookup k (insert i l ws)) ≡ true
    → (k ≡ i) ⊎ (is_some_link (lookup k ws) ≡ true)
is_some_link-insert i k l ws h = elim (Bool-cases (i == k)) [
  | inl e ↦ inl (sym ((==_iff i k).0 e))
  | inr e ↦
      let at : lookup k (insert i l ws) ≡ lookup k ws = lookup-insert i k l ws ∙ rw e refl in
      inr (sym (ap is_some_link at) ∙ h)
]

module _ {A : Type 0} where
  -- As `Narrows`, but for one peer, on a condition.
  pub record Joins (i : PeerId) (N : Type 0) (b b' : BalthBehaviour A) : Type 0 where
    pub same : node_type_of b'.node_type_data ≡ node_type_of b.node_type_data
    pub related :
        (j : PeerId)
        → is_related j b'.node_type_data ≡ true
        → (is_related j b.node_type_data ≡ true) ⊎ ((j ≡ i) × N)
    pub types :
        (j : PeerId) (t : NodeType)
        → node_type_into (peer_at j b) ≡ some t
        → node_type_into (peer_at j b') ≡ some t
    pub internal : internals b' ≡ internals b

  pub Joins-Narrows :
      (i : PeerId) (N : Type 0) (b b' : BalthBehaviour A) → Narrows b b' → Joins i N b b'
  Joins-Narrows i N b b' n = record {
    same = n.same;
    related = λ j h. inl (n.related j h);
    types = n.types;
    internal = n.internal;
  }

  pub Joins-before :
      (i : PeerId) (N M : Type 0) (b c d : BalthBehaviour A)
      → Narrows b c
      → (N → M)
      → Joins i N c d
      → Joins i M b d
  Joins-before i N M b c d n f k = record {
    same = k.same ∙ n.same;
    related = λ j h. before_sum j (k.related j h);
    types = λ j t h. k.types j t (n.types j t h);
    internal = k.internal ∙ n.internal;
  }
    where
      before_sum :
          (j : PeerId)
          → (is_related j c.node_type_data ≡ true) ⊎ ((j ≡ i) × N)
          → (is_related j b.node_type_data ≡ true) ⊎ ((j ≡ i) × M)
      before_sum j (inl h) = inl (n.related j h)
      before_sum j (inr (e, y)) = inr (e, f y)

  -- The handlers that make no relationship.
  pub not_mine-Narrows : (i : PeerId) (b : BalthBehaviour A) → Narrows b (not_mine i b).1
  unfolding not_mine
  not_mine-Narrows i b =
      let broken = break-IsBroken i b.node_type_data in
      Narrows-data b (break_worker_manager_relationship i b.node_type_data).1 broken.0 broken.1

  inject_bye-Narrows :
      (i : PeerId) (o : Option NodeType) (b c : BalthBehaviour A)
      → Narrows b c
      → Narrows b (inject_bye i o c)
  unfolding inject_bye
  inject_bye-Narrows i none b c n = n
  inject_bye-Narrows i (some NodeType.worker) b c n =
      Narrows-inject (generate_event (EventOut.manager_bye i)) b c n
  inject_bye-Narrows i (some NodeType.manager) b c n =
      Narrows-inject (generate_event (EventOut.worker_bye i)) b c n

  pub manager_bye-Narrows :
      (i : PeerId) (r : RequestId) (b : BalthBehaviour A) → Narrows b (manager_bye i r b).1
  unfolding manager_bye
  manager_bye-Narrows i r b =
      let is = break-IsBroken i b.node_type_data in
      let broken = break_worker_manager_relationship i b.node_type_data in
      inject_bye-Narrows i broken.0 b (record b { node_type_data = broken.1 })
        (Narrows-data b broken.1 is.0 is.1)

  pub needs-Narrows :
      (i : PeerId) (r : RequestId) (act : BalthBehaviour A → Poll Action × BalthBehaviour A)
      (e : HandlerOut) (b : BalthBehaviour A)
      → Narrows b (act b).1
      → Narrows b (needs_relationship_with i r act e b).1
  unfolding needs_relationship_with
  needs-Narrows i r act e b n =
      if_both (λ (p : Poll Action × BalthBehaviour A). Narrows b p.1) (is_in_relationship_with i b)
        n (Narrows-inject (generate_event (EventOut.not_mine i e)) b b (Narrows-refl b))

  pong_of_manager-Narrows :
      (now : ℕ) (i : PeerId) (n : QueryId) (d : WorkerData A) (b : BalthBehaviour A)
      (o : Option (PeerId × Link))
      → b.node_type_data ≡ NodeTypeData.worker d
      → d.manager ≡ o
      → Narrows b (pong_of_manager now i n d b o).1
  unfolding pong_of_manager is_related is_manager
  pong_of_manager-Narrows now i n d b none e h = Narrows-refl b
  pong_of_manager-Narrows now i n d b (some (j, l)) e h =
      if_both (λ (p : EventOut × BalthBehaviour A). Narrows b p.1) (j == i)
        (record {
          same = rw e refl;
          related = λ k r. rw (e, h) r;
          types = λ k t r. r;
          internal = refl;
        })
        (Narrows-refl b)

  pong_of_worker-Narrows :
      (now : ℕ) (i : PeerId) (n : QueryId) (d : ManagerData) (b : BalthBehaviour A)
      (o : Option Link)
      → b.node_type_data ≡ NodeTypeData.manager d
      → lookup i d.workers ≡ o
      → Narrows b (pong_of_worker now i n d b o).1
  unfolding pong_of_worker is_related is_some_link
  pong_of_worker-Narrows now i n d b none e h = Narrows-refl b
  pong_of_worker-Narrows now i n d b (some l) e h = record {
    same = rw e refl;
    related = λ k r. rw e (still k (is_some_link-insert i k _ d.workers r));
    types = λ k t r. r;
    internal = refl;
  }
    where
      still :
          (k : PeerId)
          → (k ≡ i) ⊎ (is_some_link (lookup k d.workers) ≡ true)
          → is_some_link (lookup k d.workers) ≡ true
      still k (inl same) = rw (same, h) refl
      still k (inr there) = there

  pub manager_pong-Narrows :
      (now : ℕ) (i : PeerId) (n : QueryId) (b : BalthBehaviour A)
      → Narrows b (manager_pong now i n b).1
  unfolding manager_pong pong_to
  manager_pong-Narrows now i n b = pong_to-Narrows b.node_type_data refl
    where
      pong_to-Narrows :
          (d : NodeTypeData A) → b.node_type_data ≡ d → Narrows b (pong_to now i n b d).1
      pong_to-Narrows (NodeTypeData.manager d) e =
          pong_of_worker-Narrows now i n d b (lookup i d.workers) e refl
      pong_to-Narrows (NodeTypeData.worker d) e =
          pong_of_manager-Narrows now i n d b d.manager e refl

  pub tasks_pong-Narrows :
      (i : PeerId) (ss : List (TaskId × TaskStatus)) (n : QueryId) (b : BalthBehaviour A)
      → Narrows b (tasks_pong i ss n b).1
  unfolding tasks_pong
  tasks_pong-Narrows i ss n b = Narrows-refl b
