-- ===== src/Workers.antt =====
-- balthalib/src/node/workers.rs: the workers that a manager knows, with the slots of each.
pub mod Slots
pub mod Known
pub mod Order
use balthazar.Prelude.{
  ℕ, zero, suc, ◌+◌, ◌==◌, Bool, true, false, not, ◌||◌, Option, none, some, List, [], ◌∷◌, ◌++◌,
  map, find, any, count_if, filter, update_first, update_all, replicate, ltb, sort_by,
  if◌then◌else◌,
}
use balthazar.Ids.{PeerId}
use balthazar.Ids.HashId.{TaskId, hash_eq}
use balthazar.Job.{ProgramKind}

-- `WorkerSpecs` of balthamisc/src/worker_specs.rs
pub record WorkerSpecs : Type 0 where
  pub worker_price : ℕ
  pub network_price : ℕ
  pub cpu_count : ℕ
  pub memory : ℕ
  pub network_speed : ℕ
  pub supported_program_kinds : List ProgramKind

pub data WorkerAssignment : Type 0 where
  available : WorkerAssignment
  pending : WorkerAssignment
  assigned : TaskId → WorkerAssignment

abbrev pub is_available : WorkerAssignment → Bool
is_available available = true
is_available pending = false
is_available (assigned id) = false

abbrev pub is_pending : WorkerAssignment → Bool
is_pending available = false
is_pending pending = true
is_pending (assigned id) = false

-- the closure of `unassign_slot`
abbrev pub is_assigned_to : TaskId → WorkerAssignment → Bool
is_assigned_to id available = false
is_assigned_to id pending = false
is_assigned_to id (assigned task) = hash_eq task id

pub record Worker : Type 0 where
  pub peer_id : PeerId
  pub assignments : List WorkerAssignment
  pub specs : WorkerSpecs

-- `Worker::new`
unfoldable pub new_worker : PeerId → WorkerSpecs → Worker
new_worker id specs = record {
  peer_id = id;
  assignments = replicate specs.cpu_count available;
  specs = specs;
}

unfoldable pub get_nb_available_slots : Worker → ℕ
get_nb_available_slots w = count_if is_available w.assignments

unfoldable pub get_nb_pending_slots : Worker → ℕ
get_nb_pending_slots w = count_if is_pending w.assignments

-- `iter_mut().find(p)`, then a write; whether a slot was found
set_first : (WorkerAssignment → Bool) → WorkerAssignment → Worker → Worker × Bool
set_first p a w =
    if any p w.assignments
    then (record w { assignments = update_first p (λ _. a) w.assignments }, true)
    else (w, false)

unfoldable pub reserve_slot : Worker → Worker × Bool
unfolding set_first
reserve_slot w = set_first is_available pending w

unfoldable pub unreserve_all_slots : Worker → Worker
unreserve_all_slots w = record w {
  assignments = update_all is_pending (λ _. available) w.assignments;
}

unfoldable pub assign_slot : TaskId → Worker → Worker × Bool
unfolding set_first
assign_slot id w =
    if any is_pending w.assignments
    then set_first is_pending (assigned id) w
    else set_first is_available (assigned id) w

unfoldable pub unassign_slot : TaskId → Worker → Worker × Bool
unfolding set_first
unassign_slot id w = set_first (is_assigned_to id) available w

-- The `workers` of `Workers`.
abbrev pub Workers : Type 0
Workers = List Worker

abbrev pub has_id : PeerId → Worker → Bool
has_id id w = w.peer_id == id

-- `Workers::get_worker`
unfoldable pub get_worker : PeerId → Workers → Option Worker
get_worker id ws = find (has_id id) ws

-- `Workers::push`
unfoldable pub push : PeerId → WorkerSpecs → Workers → Workers
unfolding new_worker
push id specs ws = if any (has_id id) ws then ws else ws ++ new_worker id specs ∷ []

pub assignments_of : Option Worker → Option (List WorkerAssignment)
assignments_of none = none
assignments_of (some w) = some w.assignments

remove_first : PeerId → Workers → Workers
remove_first id [] = []
remove_first id (w ∷ ws) = let rest = remove_first id ws in if has_id id w then ws else w ∷ rest

-- `Workers::remove`
unfoldable pub remove : PeerId → Workers → Workers × Option (List WorkerAssignment)
unfolding assignments_of remove_first
remove id ws = (remove_first id ws, assignments_of (find (has_id id) ws))

-- `get_worker_mut(peer_id).map(…)`, with `false` for an unknown worker
with_worker : PeerId → (Worker → Worker × Bool) → Workers → Workers × Bool
with_worker id f [] = ([], false)
with_worker id f (w ∷ ws) =
    let rest = with_worker id f ws in
    if has_id id w then ((f w).0 ∷ ws, (f w).1) else (w ∷ rest.0, rest.1)

-- `Workers::reserve_slot`, `assign_slot`, `unassign_slot`, `unreserve_all_slots`
unfoldable pub reserve_worker_slot : PeerId → Workers → Workers × Bool
unfolding with_worker
reserve_worker_slot id ws = with_worker id reserve_slot ws

unfoldable pub assign_worker_slot : PeerId → TaskId → Workers → Workers × Bool
unfolding with_worker
assign_worker_slot id task ws = with_worker id (assign_slot task) ws

unfoldable pub unassign_worker_slot : PeerId → TaskId → Workers → Workers × Bool
unfolding with_worker
unassign_worker_slot id task ws = with_worker id (unassign_slot task) ws

unfoldable pub unreserve_all_workers : Workers → Workers
unreserve_all_workers ws = map unreserve_all_slots ws

-- a slot that no task has
unfoldable pub has_unassigned : Worker → Bool
unfolding get_nb_available_slots get_nb_pending_slots
has_unassigned w = ltb 0 (get_nb_available_slots w) || ltb 0 (get_nb_pending_slots w)

unfoldable pub get_unassigned_workers : Workers → List PeerId
unfolding has_unassigned
get_unassigned_workers ws = map (λ w. w.peer_id) (filter has_unassigned ws)

available_of : Option Worker → Bool
unfolding get_nb_available_slots
available_of none = false
available_of (some w) = ltb 0 (get_nb_available_slots w)

-- `get_worker(id).unwrap().get_nb_available_slots() > 0`
unfoldable pub has_available : Workers → PeerId → Bool
unfolding available_of
has_available ws id = available_of (get_worker id ws)

-- The comparison is `Greater` on `(false, true)` alone.
abbrev pub not_greater : Workers → PeerId → PeerId → Bool
not_greater ws a b = has_available ws a || not (has_available ws b)

unfoldable pub get_unassigned_workers_sorted : Workers → List PeerId
get_unassigned_workers_sorted ws = sort_by (not_greater ws) (get_unassigned_workers ws)
