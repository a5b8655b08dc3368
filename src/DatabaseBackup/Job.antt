-- ===== src/DatabaseBackup/Job.antt =====
-- backupDatabase.ts: the job and its retention. `parse_int` is the runtime's `Number.parseInt(_, 10)
-- || 0`.
use yeah.Base.{
  ℕ, Bool, true, false, ◌&&◌, not, Option, none, some, List, [], ◌∷◌, Text, ◌==◌, ltb, trim,
  or_else, includes, truthy, if◌then◌else◌,
}
use yeah.Program.{World, ◌>>=◌, ◌>>◌, pure, only_if, call, act, catch, finally}
use yeah.Program.Steps.{checked, ensure, end_open}
use yeah.DatabaseBackup.{
  backup_running, backup_success, backup_failed, dump, measure_dump, backup_storage,
  successful_backups, BackupCall, insert_execution, publish_backup, notify_backup, connect_dump,
  end_dump, exec_dump, read_backup, open_dump_stream, upload_dump, remove_staged_dump, finish_dump,
  fail_dump, delete_stored, remove_dump, delete_execution, dump_exited, no_destination, sent_other,
  BackupJob, Execution, Schedule,
}
use yeah.DatabaseBackup.Retention.{to_delete}

-- The rows that the job looks up, and the clock.
pub record BackupInputs : Type 0 where
  pub has_database : Bool
  pub has_backup_server : Bool
  pub inserted : Bool
  pub now : ℕ
  pub has_stored : Text → Bool
  pub successful : List Execution

abbrev pub connects_dump : BackupCall → Bool
connects_dump connect_dump = true
connects_dump _ = false

abbrev pub ends_dump : BackupCall → Bool
ends_dump end_dump = true
ends_dump _ = false

module _ (world : World BackupCall) (parse_int : Text → ℕ) where
  -- One backup that the retention removes; `seen` are the storages that were looked up before.
  unfoldable pub remove_execution : (Text → Bool) → List Text → Execution → BackupJob (List Text)
  remove_execution has_stored seen e =
      if truthy e.file_path && truthy e.s3_storage_id
      then (do
        only_if (not (includes seen (or_else e.s3_storage_id [])))
            (act world (read_backup backup_storage))
        only_if (has_stored (or_else e.s3_storage_id []))
            (act world (delete_stored (or_else e.file_path [])))
        act world (delete_execution e.id)
        pure (or_else e.s3_storage_id [] ∷ seen))
      else (do
        only_if (truthy e.file_path) (act world (remove_dump (or_else e.file_path [])))
        act world (delete_execution e.id)
        pure seen)

  unfoldable pub remove_executions : (Text → Bool) → List Text → List Execution → BackupJob Unit
  remove_executions has_stored seen [] = pure tt
  remove_executions has_stored seen (e ∷ rest) =
      remove_execution has_stored seen e >>= (λ seen'. remove_executions has_stored seen' rest)

  unfoldable pub retain : BackupInputs → Schedule → BackupJob Unit
  retain inputs schedule = do
    act world (read_backup successful_backups)
    remove_executions inputs.has_stored [] (to_delete schedule inputs.now inputs.successful)

  -- The dump goes to S3, and its copy on the server is removed once all its bytes are sent.
  unfoldable pub send_dump : (Text → Bool) → Text → ℕ → BackupJob Unit
  send_dump has_stored storage_id size = do
    act world (read_backup backup_storage)
    ensure (has_stored storage_id) no_destination
    act world open_dump_stream
    sent ← call world upload_dump
    ensure (not (ltb 0 size && not (sent.0 == size))) (sent_other sent.0 size)
    act world remove_staged_dump

  -- The `try`.
  unfoldable pub backup_body : BackupInputs → Schedule → BackupJob Unit
  backup_body inputs schedule = do
    act world connect_dump
    dumped ← checked world (exec_dump dump) (λ result. dump_exited result.0)
    measured ← call world (exec_dump measure_dump)
    only_if (truthy schedule.storage_id)
        (send_dump inputs.has_stored (or_else schedule.storage_id []) (parse_int (trim measured.1)))
    act world (finish_dump (truthy schedule.storage_id) (parse_int (trim measured.1)))
    retain inputs schedule
    act world (publish_backup backup_success)
    act world (notify_backup backup_success)

  -- The `catch`.
  unfoldable pub backup_failure : BackupJob Unit
  backup_failure = do
    act world fail_dump
    act world (publish_backup backup_failed)
    act world (notify_backup backup_failed)

  unfoldable pub run_backup : BackupInputs → Schedule → BackupJob Unit
  run_backup inputs schedule = do
    act world insert_execution
    only_if inputs.inserted (do
      act world (publish_backup backup_running)
      finally (catch (backup_body inputs schedule) backup_failure)
          (end_open connects_dump ends_dump end_dump))

  -- The job, with the lookups of its rows.
  unfoldable pub backup_database : BackupInputs → Option Schedule → BackupJob Unit
  backup_database inputs none = pure tt
  backup_database inputs (some schedule) =
      only_if (schedule.enabled && inputs.has_database && inputs.has_backup_server)
        (run_backup inputs schedule)
