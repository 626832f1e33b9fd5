-- ===== src/TaskStatus.antt =====
-- balthaproto/src/task_status.rs: the status of a task, and its conversions from and to the message.
use balthazar.Prelude.{ℕ, ◌≡◌, refl, Option, none, some, Bytes}
use balthazar.Proposal.{
  TaskErrorKind, timed_out, download, runtime, aborted, unknown, error_kind_from_i32,
  error_kind_into_i32, StatusData,
}

pub data TaskStatus : Type 0 where
  pending : TaskStatus
  started : ℕ → TaskStatus
  error : TaskErrorKind → TaskStatus
  completed : Bytes → TaskStatus
  unknown_status : TaskStatus

or_unknown : Option TaskErrorKind → TaskErrorKind
or_unknown none = unknown
or_unknown (some kind) = kind

-- `From<ProtoTaskStatus> for TaskStatus`
unfoldable pub from_data : StatusData → TaskStatus
unfolding or_unknown error_kind_from_i32
from_data StatusData.pending = pending
from_data (StatusData.start_time timestamp) = started timestamp
from_data (StatusData.error err) = error (or_unknown (error_kind_from_i32 err))
from_data (StatusData.result res) = completed res
from_data StatusData.unknown_status = unknown_status

-- `From<TaskStatus> for ProtoTaskStatus`
unfoldable pub into_data : TaskStatus → StatusData
unfolding error_kind_into_i32
into_data pending = StatusData.pending
into_data (started timestamp) = StatusData.start_time timestamp
into_data (error kind) = StatusData.error (error_kind_into_i32 kind)
into_data (completed res) = StatusData.result res
into_data unknown_status = StatusData.unknown_status

-- `From<Option<ProtoTaskStatus>> for TaskStatus`
unfoldable pub from_option : Option StatusData → TaskStatus
unfolding from_data
from_option none = unknown_status
from_option (some status) = from_data status

-- A task status is read back from the message that it is written to.
pub from_option-into_data : (s : TaskStatus) → from_option (some (into_data s)) ≡ s
unfolding from_option into_data
from_option-into_data (error timed_out) = refl
from_option-into_data (error download) = refl
from_option-into_data (error runtime) = refl
from_option-into_data (error aborted) = refl
from_option-into_data (error unknown) = refl
from_option-into_data pending = refl
from_option-into_data (started t) = refl
from_option-into_data (completed res) = refl
from_option-into_data unknown_status = refl
