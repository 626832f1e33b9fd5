-- ===== src/Behaviour/Pings.antt =====
-- Lemmas on the pings at the start of `poll`, balthernet/src/balthazar/mod.rs.
use balthazar.Prelude.{
  ℕ, ◌+◌, map, ◌≡◌, refl, sym, ◌∙◌, inl, inr, Option, none, some, ◌++◌, List, [], ◌∷◌, nat_eq, ◌==◌,
  if_both, Bool-cases,
}
use balthazar.Prelude.Assoc.{Assoc, lookup}
use balthazar.Ids.{PeerId}
use balthazar.Message.{NodeType, HandlerIn}
use balthazar.Behaviour.{
  Link, WorkerData, NodeTypeData, Outcome, done, deadlocked, panicked, out_of_rounds,
  BalthBehaviour, count_query, is_related, is_some_link, is_manager, inject_send_to_peer_or_dial,
}
use balthazar.Behaviour.Events.{break_worker_manager_relationship}
use balthazar.Behaviour.Relations.{
  Narrows, Narrows-refl, Narrows-trans, Narrows-inject, Narrows-bookkeeping, Narrows-data,
  Narrows-inject_send, break-IsBroken,
}
use balthazar.Behaviour.Joining.{Ends, Ends-map}
use balthazar.Behaviour.Events.{
  Check, timed_out, ping, continuing, check_manager_worker_relationship,
}
use balthazar.Behaviour.Loop.{
  check_manager, check_all, report_timed_out, act_on, and_then, act_on_all, check_relationships,
}

-- The pings keep everyone's relationship, or break it.
is_some_link-map :
    (f : Link → Link) (j : PeerId) (ws : Assoc PeerId Link)
    → is_some_link (lookup j (map (λ e. (e.0, f e.1)) ws)) ≡ is_some_link (lookup j ws)
unfolding lookup is_some_link
is_some_link-map f j [] = refl
is_some_link-map f j ((i, l) ∷ ws) = elim (Bool-cases (i == j)) [
  | inl e ↦ rw e refl
  | inr e ↦ rw e (is_some_link-map f j ws)
]

module _ {A : Type 0} where
  check_manager-Narrows :
      (now : ℕ) (d : WorkerData A) (b : BalthBehaviour A) (o : Option (PeerId × Link))
      → b.node_type_data ≡ NodeTypeData.worker d
      → d.manager ≡ o
      → Narrows b (record b {
        node_type_data = (check_manager now b.manager_check_interval b.manager_timeout d o).0;
      })
  unfolding check_manager is_related is_manager
  check_manager-Narrows now d b none e h =
      Narrows-data b (NodeTypeData.worker d) (rw e refl) (λ j k. rw e k)
  check_manager-Narrows now d b (some (i, l)) e h =
      let c = check_manager_worker_relationship now b.manager_check_interval b.manager_timeout l in
      Narrows-data b (NodeTypeData.worker (record d { manager = some (i, c.1) })) (rw e refl)
        (λ j k. rw (e, h) k)

  check_all-Narrows :
      (now : ℕ) (b : BalthBehaviour A)
      → Narrows b (record b {
        node_type_data =
            (check_all now b.manager_check_interval b.manager_timeout b.node_type_data).0;
      })
  unfolding check_all is_related
  check_all-Narrows now b = of b.node_type_data refl
    where
      of :
          (d : NodeTypeData A)
          → b.node_type_data ≡ d
          → Narrows b (record b {
            node_type_data = (check_all now b.manager_check_interval b.manager_timeout d).0;
          })
      of (NodeTypeData.manager d) e =
          let f : Link → Link = λ l.
            (check_manager_worker_relationship now b.manager_check_interval b.manager_timeout
              l).1 in
          Narrows-data b
            (NodeTypeData.manager (record d { workers = map (λ x. (x.0, f x.1)) d.workers }))
            (rw e refl) (λ j k. rw e (sym (is_some_link-map f j d.workers) ∙ k))
      of (NodeTypeData.worker d) e = check_manager-Narrows now d b d.manager e refl

  report_timed_out-Narrows :
      (i : PeerId) (o : Option NodeType) (b c : BalthBehaviour A)
      → Narrows b c
      → Ends (λ x. Narrows b x) (report_timed_out i c o)
  unfolding report_timed_out
  report_timed_out-Narrows i none b c n = tt
  report_timed_out-Narrows i (some NodeType.manager) b c n = Narrows-inject _ b c n
  report_timed_out-Narrows i (some NodeType.worker) b c n = Narrows-inject _ b c n

  act_on-Narrows :
      (now : ℕ) (i : PeerId) (c : Check) (b : BalthBehaviour A)
      → Ends (λ x. Narrows b x) (act_on now i c b)
  unfolding act_on
  act_on-Narrows now i timed_out b =
      let said =
        inject_send_to_peer_or_dial i (HandlerIn.manager_bye b.next_query_unique_id)
          (count_query b) in
      let broken = break_worker_manager_relationship i said.node_type_data in
      let is = break-IsBroken i said.node_type_data in
      report_timed_out-Narrows i broken.0 b (record said { node_type_data = broken.1 })
        (Narrows-trans b said (record said { node_type_data = broken.1 })
          (Narrows-inject_send i (HandlerIn.manager_bye b.next_query_unique_id) b (count_query b) (
            Narrows-bookkeeping b (count_query b).next_query_unique_id b.delays b.is_shutting_down))
          (Narrows-data said broken.1 is.0 is.1))
  act_on-Narrows now i ping b =
      Narrows-inject_send i (HandlerIn.manager_ping b.next_query_unique_id) b _ (
        Narrows-bookkeeping b (count_query b).next_query_unique_id
          (b.delays ++ (now + b.manager_timeout) ∷ []) b.is_shutting_down)
  act_on-Narrows now i continuing b = Narrows-refl b

  pub and_then-Ends :
      {B : Type 0} (P : B → Type 0) (b : BalthBehaviour A) (f : BalthBehaviour A → Outcome B)
      (o : Outcome (BalthBehaviour A))
      → Ends (λ x. Narrows b x) o
      → ((c : BalthBehaviour A) → Narrows b c → Ends P (f c))
      → Ends P (and_then f o)
  unfolding and_then
  and_then-Ends P b f (done c) n go = go c n
  and_then-Ends P b f deadlocked n go = tt
  and_then-Ends P b f panicked n go = tt
  and_then-Ends P b f out_of_rounds n go = n

  act_on_all-Narrows :
      (now : ℕ) (cs : List (PeerId × Check)) (b : BalthBehaviour A)
      → Ends (λ x. Narrows b x) (act_on_all now cs b)
  unfolding act_on_all
  act_on_all-Narrows now [] b = Narrows-refl b
  act_on_all-Narrows now ((i, c) ∷ cs) b =
      and_then-Ends (λ x. Narrows b x) b (act_on_all now cs) (act_on now i c b)
        (act_on-Narrows now i c b)
        (λ d n.
          Ends-map (λ x. Narrows d x) (λ x. Narrows b x) (act_on_all now cs d)
            (λ x. Narrows-trans b d x n) (act_on_all-Narrows now cs d))

  pub check_relationships-Narrows :
      (now : ℕ) (b : BalthBehaviour A) → Ends (λ x. Narrows b x) (check_relationships now b)
  unfolding check_relationships
  check_relationships-Narrows now b =
      let c = check_all now b.manager_check_interval b.manager_timeout b.node_type_data in
      let checked = record b { node_type_data = c.0 } in
      if_both (λ o. Ends (λ (x : BalthBehaviour A). Narrows b x) o) b.is_shutting_down
        (Narrows-refl b)
        (Ends-map (λ x. Narrows checked x) (λ x. Narrows b x) (act_on_all now c.1 checked)
          (λ x. Narrows-trans b checked x (check_all-Narrows now b))
          (act_on_all-Narrows now c.1 checked))
