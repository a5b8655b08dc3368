-- ===== src/Tasks.antt =====
-- apps/worker/src/jobs/scheduledTask.ts: the job that runs a scheduled task of an application in its
-- container, within the task's own time limit.
pub mod Job
pub mod Finish
pub mod Passed
mod Tests
use yeah.Base.{ℕ, Bool, List, Text}
use yeah.Program.{Program}

pub data TaskStatus : Type 0 where
  task_success task_failed : TaskStatus

-- How the command ended: it ran out of time, it exited with a code, or a call threw an error with a
-- message (`String(err)` where no error object was thrown).
pub data TaskOutcome : Type 0 where
  task_timeout : TaskOutcome
  task_exited : ℕ → TaskOutcome
  task_threw : Text → TaskOutcome

-- `abandon_task` is the command when the timer ends first: its answer is not used.
pub data TaskCall : Type 0 where
  insert_run connect_task end_task run_task abandon_task : TaskCall
  finish_task : TaskStatus → TaskCall
  read_old_runs : TaskCall
  delete_run : Text → TaskCall
  notify_task forward_task_log : TaskStatus → TaskCall

abbrev pub TaskJob : Type 0 → Type 0
TaskJob = Program TaskCall Unit

-- The rows, whether the timer of the limit ends before the command does, and the message of the error
-- that a call throws, if one does.
pub record TaskInputs : Type 0 where
  pub enabled : Bool
  pub manual : Bool
  pub has_application : Bool
  pub has_task_server : Bool
  pub inserted : Bool
  pub times_out : Bool
  pub error_message : Text
  pub old_runs : List Text
