-- ===== src/PlatformUpdate.antt =====
-- apps/worker/src/jobs/platformOperation.ts: the updates of the platform's own host: the packages of
-- the system, or the platform itself, which is launched in the background and then polled.
pub mod Job
pub mod Settle
pub mod Finish
mod Tests
use yeah.Base.{ℕ, Bool, Text}
use yeah.Program.{Program}

pub data OperationStatus : Type 0 where
  operation_queued operation_running operation_success operation_failed : OperationStatus

pub data HostCommand : Type 0 where
  update_system launch_update tail_log : HostCommand

pub data LogLine : Type 0 where
  connect_error call_error not_launched timed_out : LogLine
  remote_part : Text → LogLine

-- `read_log` answers with the log that is stored. The output of a command that is stored while it
-- runs is not waited for, and is left out.
pub data PlatformCall : Type 0 where
  read_host connect_host end_host : PlatformCall
  exec_host : HostCommand → PlatformCall
  set_operation publish_operation : OperationStatus → PlatformCall
  store_log publish_log : LogLine → PlatformCall
  read_log requeue : PlatformCall

abbrev pub PlatformJob : Type 0 → Type 0
PlatformJob = Program PlatformCall Unit

pub data OperationKind : Type 0 where
  system_update platform_update : OperationKind

-- The row of the operation, the row of the host, and the clock in milliseconds.
pub record PlatformInputs : Type 0 where
  pub kind : OperationKind
  pub status : OperationStatus
  pub has_started : Bool
  pub started_at : ℕ
  pub now : ℕ
  pub has_host : Bool
