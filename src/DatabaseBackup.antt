-- ===== src/DatabaseBackup.antt =====
-- apps/worker/src/jobs/backupDatabase.ts: the job that dumps a database, sends the dump to S3 where
-- the schedule names a storage, and removes the backups that the retention does not keep.
pub mod Retention
pub mod Oldest
pub mod Job
pub mod Finish
mod Tests
use yeah.Base.{ℕ, Bool, Option, List, Text}
use yeah.Program.{Program}

pub data BackupStatus : Type 0 where
  backup_running backup_success backup_failed : BackupStatus

pub data DumpCommand : Type 0 where
  dump measure_dump : DumpCommand

pub data BackupTable : Type 0 where
  backup_storage successful_backups : BackupTable

-- `upload_dump` answers with the number of bytes that it sent; `finish_dump` stores the path (in S3
-- or on the server) and the size.
pub data BackupCall : Type 0 where
  insert_execution : BackupCall
  publish_backup notify_backup : BackupStatus → BackupCall
  connect_dump end_dump : BackupCall
  exec_dump : DumpCommand → BackupCall
  read_backup : BackupTable → BackupCall
  open_dump_stream upload_dump remove_staged_dump : BackupCall
  finish_dump : Bool → ℕ → BackupCall
  fail_dump : BackupCall
  delete_stored remove_dump delete_execution : Text → BackupCall

pub data BackupError : Type 0 where
  dump_exited : ℕ → BackupError
  no_destination : BackupError
  sent_other : ℕ → ℕ → BackupError

abbrev pub BackupJob : Type 0 → Type 0
BackupJob = Program BackupCall BackupError

-- A row of `backup_executions`; times are in milliseconds, sizes in bytes (0 where there is none).
pub record Execution : Type 0 where
  pub id : Text
  pub created_at : ℕ
  pub size_bytes : ℕ
  pub file_path : Option Text
  pub s3_storage_id : Option Text

-- A row of `backup_schedules`.
pub record Schedule : Type 0 where
  pub enabled : Bool
  pub storage_id : Option Text
  pub retention_count : ℕ
  pub retention_days : ℕ
  pub retention_size_gb : ℕ
