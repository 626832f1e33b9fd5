-- ===== src/Workers/Known.antt =====
-- Sequences of the operations of `Workers`, balthalib/src/node/workers.rs.
use balthazar.Prelude.{
  ◌+◌, ◌≤◌, ◌==◌, ◌≡◌, refl, ap, Bool, false, none, List, [], ◌∷◌, ◌++◌, find, any, count_if,
  if◌then◌else◌, arith, Bool-cases, inl, inr, any-find-none, find-none-count_if,
  find-none_of_count_if,
}
use balthazar.Ids.{PeerId}
use balthazar.Ids.HashId.{TaskId}
use balthazar.Workers.{
  WorkerSpecs, Worker, Workers, has_id, new_worker, push, remove, remove_first, with_worker,
  get_worker, reserve_slot, assign_slot, unassign_slot, unreserve_all_slots, reserve_worker_slot,
  assign_worker_slot, unassign_worker_slot, unreserve_all_workers, assignments_of,
}

abbrev pub IsDistinct : Workers → Type 0
IsDistinct ws = (id : PeerId) → count_if (has_id id) ws ≤ 1

count_if_append :
    (p : Worker → Bool) (xs ys : Workers) → count_if p (xs ++ ys) ≡ count_if p xs + count_if p ys
count_if_append p [] ys = omega arith
count_if_append p (x ∷ xs) ys = ground (arith, count_if_append p xs ys)

push-IsDistinct :
    (id : PeerId) (specs : WorkerSpecs) (ws : Workers)
    → IsDistinct ws
    → IsDistinct (push id specs ws)
unfolding push
push-IsDistinct id specs ws h j = elim (Bool-cases (any (has_id id) ws)) [
  | inl e ↦ rw e (h j)
  | inr e ↦ rw e (
      ground (
        arith,
        h j,
        count_if_append (has_id j) ws (new_worker id specs ∷ []),
        find-none-count_if (has_id id) ws (any-find-none (has_id id) ws e),
        ap (λ k. count_if (has_id k) ws) {x = id} {y = j},
      ))
]

count_if-remove_first :
    (id j : PeerId) (ws : Workers)
    → count_if (has_id j) (remove_first id ws) ≤ count_if (has_id j) ws
unfolding remove_first
count_if-remove_first id j [] = omega arith
count_if-remove_first id j (w ∷ ws) = ground (arith, count_if-remove_first id j ws)

remove-IsDistinct : (id : PeerId) (ws : Workers) → IsDistinct ws → IsDistinct (remove id ws).0
unfolding remove
remove-IsDistinct id ws h j = omega (arith, h j, count_if-remove_first id j ws)

-- A worker's operation keeps its identity.
abbrev KeepsId : (Worker → Worker × Bool) → Type 0
KeepsId f = (w : Worker) → (f w).0.peer_id ≡ w.peer_id

count_if-with_worker :
    (id j : PeerId) (f : Worker → Worker × Bool) (ws : Workers)
    → KeepsId f
    → count_if (has_id j) (with_worker id f ws).0 ≡ count_if (has_id j) ws
unfolding with_worker
count_if-with_worker id j f [] keeps = refl
count_if-with_worker id j f (w ∷ ws) keeps =
    ground (arith, keeps w, count_if-with_worker id j f ws keeps)

reserve_slot-KeepsId : KeepsId reserve_slot
unfolding reserve_slot
reserve_slot-KeepsId w = ground arith

assign_slot-KeepsId : (task : TaskId) → KeepsId (assign_slot task)
unfolding assign_slot
assign_slot-KeepsId task w = ground arith

unassign_slot-KeepsId : (task : TaskId) → KeepsId (unassign_slot task)
unfolding unassign_slot
unassign_slot-KeepsId task w = ground arith

count_if-unreserve :
    (j : PeerId) (ws : Workers)
    → count_if (has_id j) (unreserve_all_workers ws) ≡ count_if (has_id j) ws
unfolding unreserve_all_workers unreserve_all_slots
count_if-unreserve j [] = refl
count_if-unreserve j (w ∷ ws) = ground (arith, count_if-unreserve j ws)

-- A call on the manager's workers.
pub data Call : Type 0 where
  push_worker : PeerId → WorkerSpecs → Call
  remove_worker : PeerId → Call
  reserve : PeerId → Call
  assign : PeerId → TaskId → Call
  unassign : PeerId → TaskId → Call
  unreserve_all : Call

unfoldable pub call : Workers → Call → Workers
call ws (push_worker id specs) = push id specs ws
call ws (remove_worker id) = (remove id ws).0
call ws (reserve id) = (reserve_worker_slot id ws).0
call ws (assign id task) = (assign_worker_slot id task ws).0
call ws (unassign id task) = (unassign_worker_slot id task ws).0
call ws unreserve_all = unreserve_all_workers ws

unfoldable pub call_all : Workers → List Call → Workers
unfolding call
call_all ws [] = ws
call_all ws (c ∷ cs) = call_all (call ws c) cs

call-IsDistinct : (ws : Workers) (c : Call) → IsDistinct ws → IsDistinct (call ws c)
unfolding call reserve_worker_slot assign_worker_slot unassign_worker_slot
call-IsDistinct ws (push_worker id specs) h j = push-IsDistinct id specs ws h j
call-IsDistinct ws (remove_worker id) h j = remove-IsDistinct id ws h j
call-IsDistinct ws (reserve id) h j =
    omega (arith, h j, count_if-with_worker id j reserve_slot ws reserve_slot-KeepsId)
call-IsDistinct ws (assign id task) h j =
    omega (arith, h j, count_if-with_worker id j (assign_slot task) ws (assign_slot-KeepsId task))
call-IsDistinct ws (unassign id task) h j =
    omega
      (arith, h j, count_if-with_worker id j (unassign_slot task) ws (unassign_slot-KeepsId task))
call-IsDistinct ws unreserve_all h j = omega (arith, h j, count_if-unreserve j ws)

call_all_from : (ws : Workers) (cs : List Call) → IsDistinct ws → IsDistinct (call_all ws cs)
unfolding call_all
call_all_from ws [] h = h
call_all_from ws (c ∷ cs) h = call_all_from (call ws c) cs (call-IsDistinct ws c h)

-- After any sequence of calls on a new Workers, no id belongs to two workers.
pub call_all-IsDistinct : (cs : List Call) (id : PeerId) → count_if (has_id id) (call_all [] cs) ≤ 1
call_all-IsDistinct cs = call_all_from [] cs (λ id. omega arith)

find-remove_first_ne :
    (id j : PeerId) (ws : Workers)
    → (id == j) ≡ false
    → find (has_id j) (remove_first id ws) ≡ find (has_id j) ws
unfolding remove_first
find-remove_first_ne id j [] ne = refl
find-remove_first_ne id j (w ∷ ws) ne = ground (arith, find-remove_first_ne id j ws ne)

count_if-remove_first_self :
    (id : PeerId) (ws : Workers)
    → count_if (has_id id) ws ≤ 1
    → count_if (has_id id) (remove_first id ws) ≡ 0
unfolding remove_first
count_if-remove_first_self id [] h = refl
count_if-remove_first_self id (w ∷ ws) h = ground (arith, count_if-remove_first_self id ws)

-- Where no two workers have the same id, remove returns the assignments of the worker that
-- get_worker finds, which is unknown afterwards, and the other workers are found as before.
pub get_worker-remove :
    (ws : Workers) (id j : PeerId)
    → IsDistinct ws
    → ((remove id ws).1 ≡ assignments_of (get_worker id ws))
      × (get_worker j (remove id ws).0 ≡ (if id == j then none else get_worker j ws))
unfolding remove get_worker
get_worker-remove ws id j h = (
  refl,
  elim (Bool-cases (id == j)) [
    | inl e ↦
        let same : id ≡ j = ground arith in
        rw (e, ← same)
          (find-none_of_count_if (has_id id) (remove_first id ws)
            (count_if-remove_first_self id ws (h id)))
    | inr e ↦ rw e (find-remove_first_ne id j ws e)
  ],
)
