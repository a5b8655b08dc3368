-- ===== src/Restore/Job.antt =====
-- restoreDatabase.ts: the job.
use yeah.Base.{
  Bool, true, false, ◌&&◌, ◌||◌, not, List, [], ◌∷◌, ◌==◌, equal, trim, any, if◌then◌else◌,
}
use yeah.Program.{
  History, World, ◌>>=◌, ◌>>◌, pure, only_if, attempt, call, act, note, catch, finally,
}
use yeah.Program.Steps.{ensure, when, is_open, end_open}
use yeah.Restore.{
  RestoreStep, RestoreCommand, make_backups_folder, check_file, remove_temp, restore_step,
  RestoreLine, restore_running, restore_output, restore_downloading, restore_completed,
  restore_failed, execution_row, schedule_row, restore_storage, restore_is_running, restore_success,
  restore_failure, RestoreCall, set_restore, save_restore_log, read_restore, connect_restore,
  end_restore, download_restore, notify_restore, keep_temp, exec_restore, no_backup, other_database,
  storage_missing, restore_exited, RestoreJob, RestoreSource, uploaded_file, stored_backup,
  RestoreInputs,
}

abbrev pub connects_restore : RestoreCall → Bool
connects_restore connect_restore = true
connects_restore _ = false

abbrev pub ends_restore : RestoreCall → Bool
ends_restore end_restore = true
ends_restore _ = false

abbrev pub keeps_temp : RestoreCall → Bool
keeps_temp keep_temp = true
keeps_temp _ = false

-- `conn && tempFile`
abbrev pub has_temp : History RestoreCall → Bool
has_temp h = is_open connects_restore ends_restore h && any (λ e. keeps_temp e.effect) h

module _ (world : World RestoreCall) where
  abbrev pub append_restore : RestoreLine → RestoreJob Unit
  append_restore line = act world (save_restore_log line)

  unfoldable pub run_restore : RestoreCommand → Bool → RestoreJob Unit
  run_restore command allow_failure = do
    append_restore (restore_running command)
    result ← call world (exec_restore command)
    only_if (not (equal (trim result.1) [])) (append_restore (restore_output result.1))
    ensure ((result.0 == 0) || allow_failure) (restore_exited command result.0)

  -- The file, on the server.
  unfoldable pub fetch_backup : RestoreInputs → RestoreJob Unit
  fetch_backup inputs = do
    act world (read_restore execution_row)
    ensure inputs.backup_ok no_backup
    act world (read_restore schedule_row)
    ensure inputs.is_own other_database
    (if inputs.in_s3
        then (do
          act world (read_restore restore_storage)
          ensure inputs.has_restore_storage storage_missing
          append_restore restore_downloading
          act world download_restore
          note keep_temp)
        else run_restore check_file false)

  abbrev pub fetch_from : RestoreInputs → RestoreSource → RestoreJob Unit
  fetch_from inputs uploaded_file = note keep_temp
  fetch_from inputs stored_backup = fetch_backup inputs

  unfoldable pub run_steps_of : List RestoreStep → RestoreJob Unit
  run_steps_of [] = pure tt
  run_steps_of (step ∷ rest) =
      run_restore (restore_step step.label) step.allow_failure >> run_steps_of rest

  unfoldable pub restore_body : RestoreInputs → RestoreJob Unit
  restore_body inputs = do
    act world connect_restore
    run_restore make_backups_folder false
    fetch_from inputs inputs.source
    run_steps_of inputs.steps
    append_restore restore_completed
    act world (set_restore restore_success)

  unfoldable pub restore_fails : RestoreJob Unit
  restore_fails = do
    append_restore restore_failed
    act world (set_restore restore_failure)
    act world notify_restore

  -- The `finally`.
  unfoldable pub leave_restore : RestoreJob Unit
  leave_restore = do
    when has_temp (attempt (act world (exec_restore remove_temp)))
    end_open connects_restore ends_restore end_restore

  -- The job of a restore that exists.
  unfoldable pub restore_database : RestoreInputs → RestoreJob Unit
  restore_database inputs = do
    act world (set_restore restore_is_running)
    (if inputs.has_rows
        then finally (catch (restore_body inputs) restore_fails) leave_restore
        else act world (set_restore restore_failure))
