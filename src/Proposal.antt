-- ===== src/Proposal.antt =====
-- The messages of balthaproto/src/manager.proto and worker.proto that change the shared state, with
-- the fields that the managers read. An optional message is an `Option`, a `oneof` a data type in
-- an `Option`, an enum the number that travels.
use balthazar.Prelude.{ℕ, ◌==◌, Option, none, some, List, Bytes, if◌then◌else◌}
use balthazar.Completeness.{
  TaskDefiniteErrorKind, timed_out as definite_timed_out, download as definite_download,
  runtime as definite_runtime, aborted as definite_aborted,
}

-- worker.proto
pub data TaskErrorKind : Type 0 where
  timed_out download runtime aborted unknown : TaskErrorKind

-- `TaskErrorKind::from_i32`, generated from worker.proto
unfoldable pub error_kind_from_i32 : ℕ → Option TaskErrorKind
error_kind_from_i32 n =
    if n == 0
    then some timed_out
    else if n == 1
    then some download
    else if n == 2
    then some runtime
    else if n == 3
    then some aborted
    else if n == 4
    then some unknown
    else none

-- `i32::from(TaskErrorKind)`
unfoldable pub error_kind_into_i32 : TaskErrorKind → ℕ
error_kind_into_i32 timed_out = 0
error_kind_into_i32 download = 1
error_kind_into_i32 runtime = 2
error_kind_into_i32 aborted = 3
error_kind_into_i32 unknown = 4

-- `try_worker_error_to_definite_error` of balthaproto/src/lib.rs
unfoldable pub try_worker_error_to_definite_error : TaskErrorKind → Option TaskDefiniteErrorKind
try_worker_error_to_definite_error timed_out = some definite_timed_out
try_worker_error_to_definite_error download = some definite_download
try_worker_error_to_definite_error runtime = some definite_runtime
try_worker_error_to_definite_error aborted = some definite_aborted
try_worker_error_to_definite_error unknown = none

-- `worker::StatusData`
pub data StatusData : Type 0 where
  pending : StatusData
  start_time : ℕ → StatusData
  error : ℕ → StatusData
  result : Bytes → StatusData
  unknown_status : StatusData

-- `worker::TaskStatus`
pub record StatusMsg : Type 0 where
  pub task_id : Bytes
  pub status_data : Option StatusData

pub record ManTaskStatus : Type 0 where
  pub task_id : Bytes
  pub worker : Bytes
  pub status : Option StatusMsg

pub record PingManagerForTask : Type 0 where
  pub task_id : Bytes
  pub worker : Bytes

-- `propose_failure::Kind`
pub data FailureKind : Type 0 where
  man_unavailable : Option PingManagerForTask → FailureKind
  worker : Option ManTaskStatus → FailureKind
  specs : FailureKind
  results : FailureKind

pub record ProposeFailure : Type 0 where
  pub new_nb_failures : ℕ
  pub kind : Option FailureKind

pub record Offer : Type 0 where
  pub task_id : Bytes
  pub workers_manager : Bytes
  pub worker : Bytes
  pub payment_address : Bytes
  pub worker_price : ℕ
  pub network_price : ℕ

-- `proposal::Proposal`
pub data ProposalKind : Type 0 where
  new_task : ProposalKind
  failure : ProposeFailure → ProposalKind
  scheduling : List Offer → ProposalKind
  checked : Bytes → ProposalKind
  completed : Option ManTaskStatus → ProposalKind

pub record Proposal : Type 0 where
  pub task_id : Bytes
  pub payment_address : Bytes
  pub proposal : Option ProposalKind
