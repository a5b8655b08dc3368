-- ===== src/Restore.antt =====
-- apps/worker/src/jobs/restoreDatabase.ts: the job that puts a backup, or an uploaded file, back into
-- its database.
pub mod Job
pub mod Steps
mod Tests
use yeah.Base.{ℕ, Bool, Option, List, Text}
use yeah.Program.{Program}

-- A step of `buildRestoreSteps`, by its label.
pub record RestoreStep : Type 0 where
  pub label : Text
  pub allow_failure : Bool

pub data RestoreCommand : Type 0 where
  make_backups_folder check_file remove_temp : RestoreCommand
  restore_step : Text → RestoreCommand

pub data RestoreLine : Type 0 where
  restore_running : RestoreCommand → RestoreLine
  restore_output : Text → RestoreLine
  restore_downloading restore_completed restore_failed : RestoreLine

pub data RestoreTable : Type 0 where
  execution_row schedule_row restore_storage : RestoreTable

pub data RestoreStatus : Type 0 where
  restore_is_running restore_success restore_failure : RestoreStatus

-- `keep_temp` is no call: it records that `tempFile` was assigned.
pub data RestoreCall : Type 0 where
  set_restore : RestoreStatus → RestoreCall
  save_restore_log : RestoreLine → RestoreCall
  read_restore : RestoreTable → RestoreCall
  connect_restore end_restore download_restore notify_restore keep_temp : RestoreCall
  exec_restore : RestoreCommand → RestoreCall

pub data RestoreError : Type 0 where
  no_backup other_database storage_missing : RestoreError
  restore_exited : RestoreCommand → ℕ → RestoreError

abbrev pub RestoreJob : Type 0 → Type 0
RestoreJob = Program RestoreCall RestoreError

-- Where the file comes from.
pub data RestoreSource : Type 0 where
  uploaded_file stored_backup : RestoreSource

-- The rows that the job reads: `backup_ok` tells that the execution is there, succeeded and has a file,
-- `is_own` that its schedule belongs to the database, `in_s3` that the file is in S3. `steps` is what
-- `buildRestoreSteps` gives.
pub record RestoreInputs : Type 0 where
  pub has_rows : Bool
  pub source : RestoreSource
  pub backup_ok : Bool
  pub is_own : Bool
  pub in_s3 : Bool
  pub has_restore_storage : Bool
  pub steps : List RestoreStep
