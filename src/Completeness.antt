-- ===== src/Completeness.antt =====
-- `TaskCompleteness` of balthamisc/src/shared_state.rs: whether a task goes on, with one slot for
-- each replica while it does. `SystemTime::now()` is an argument, in nanoseconds.
pub mod Slots
pub mod Assignment
use balthazar.Prelude.{
  ℕ, ◌==◌, Bool, true, false, Option, none, some, List, [], ◌∷◌, Bytes, find, any, count_if,
  update_first, replicate, if◌then◌else◌,
}
use balthazar.Ids.{PeerId, Address}

-- manager.proto
pub data TaskDefiniteErrorKind : Type 0 where
  timed_out download runtime aborted incorrect_specification incorrect_result :
      TaskDefiniteErrorKind

pub record WorkerPaymentInfo : Type 0 where
  pub worker_address : Address
  pub worker_price : ℕ
  pub network_price : ℕ

pub record Assigned : Type 0 where
  pub last_check_timestamp : ℕ
  pub worker : PeerId
  pub workers_manager : PeerId
  pub payment_info : WorkerPaymentInfo

abbrev pub SubTasksState : Type 0
SubTasksState = Option Assigned

pub data TaskCompleteness : Type 0 where
  incomplete : List SubTasksState → TaskCompleteness
  definetely_failed : TaskDefiniteErrorKind → TaskCompleteness
  completed : Bytes → List WorkerPaymentInfo → TaskCompleteness

-- The `String` errors of `assign`, one constructor to a message.
pub data AssignError : Type 0 where
  no_more_slots already_assigned no_more_incomplete : AssignError

-- `s.is_none()`
abbrev pub is_free : SubTasksState → Bool
is_free none = true
is_free (some a) = false

-- `s.as_ref().filter(|a| *a.worker() == *worker).is_some()`
abbrev pub is_worker : PeerId → SubTasksState → Bool
is_worker w none = false
is_worker w (some a) = a.worker == w

-- `.map(…).flatten()` after a `find`
abbrev pub flatten : Option SubTasksState → Option Assigned
flatten none = none
flatten (some s) = s

-- `TaskCompleteness::new`
unfoldable pub new_completeness : ℕ → TaskCompleteness
new_completeness redundancy = incomplete (replicate redundancy none)

unfoldable pub is_incomplete : TaskCompleteness → Bool
is_incomplete (incomplete substates) = true
is_incomplete (definetely_failed reason) = false
is_incomplete (completed result infos) = false

unfoldable pub get_substates : TaskCompleteness → Option (List SubTasksState)
get_substates (incomplete substates) = some substates
get_substates (definetely_failed reason) = none
get_substates (completed result infos) = none

unfoldable pub get_substate : PeerId → TaskCompleteness → Option Assigned
get_substate w (incomplete substates) = flatten (find (is_worker w) substates)
get_substate w (definetely_failed reason) = none
get_substate w (completed result infos) = none

unfoldable pub get_nb_unassigned : TaskCompleteness → Option ℕ
get_nb_unassigned (incomplete substates) = some (count_if is_free substates)
get_nb_unassigned (definetely_failed reason) = none
get_nb_unassigned (completed result infos) = none

-- `a.take()` on the slot found
unfoldable pub unassign : PeerId → TaskCompleteness → TaskCompleteness × Option Assigned
unassign w (incomplete substates) = (
  incomplete (update_first (is_worker w) (λ s. none) substates),
  flatten (find (is_worker w) substates),
)
unassign w (definetely_failed reason) = (definetely_failed reason, none)
unassign w (completed result infos) = (completed result infos, none)

-- `Assigned::new`
abbrev pub new_assigned : ℕ → PeerId → PeerId → WorkerPaymentInfo → Assigned
new_assigned now w m info = record {
  last_check_timestamp = now;
  worker = w;
  workers_manager = m;
  payment_info = info;
}

unfoldable pub assign :
    ℕ
    → PeerId
    → PeerId
    → WorkerPaymentInfo
    → TaskCompleteness
    → TaskCompleteness × Option AssignError
assign now w m info (incomplete substates) =
    if any (is_worker w) substates
    then (incomplete substates, some already_assigned)
    else if any is_free substates
    then (incomplete (update_first is_free (λ s. some (new_assigned now w m info)) substates), none)
    else (incomplete substates, some no_more_slots)
assign now w m info (definetely_failed reason) = (definetely_failed reason, some no_more_incomplete)
assign now w m info (completed result infos) = (completed result infos, some no_more_incomplete)

touch : ℕ → SubTasksState → SubTasksState
touch now none = none
touch now (some a) = some (record a { last_check_timestamp = now })

-- `get_substate_mut(worker)`, then `update_last_check_timestamp`; `none` where no slot is found
unfoldable pub check_substate : ℕ → PeerId → TaskCompleteness → Option TaskCompleteness
unfolding touch
check_substate now w (incomplete substates) =
    if any (is_worker w) substates
    then some (incomplete (update_first (is_worker w) (touch now) substates))
    else none
check_substate now w (definetely_failed reason) = none
check_substate now w (completed result infos) = none

-- `substates.drain(..).filter_map(|s| s.map(Assigned::into_payment_info)).collect()`
unfoldable pub payment_infos : List SubTasksState → List WorkerPaymentInfo
payment_infos [] = []
payment_infos (none ∷ ss) = payment_infos ss
payment_infos (some a ∷ ss) = a.payment_info ∷ payment_infos ss
