-- ===== src/DatabaseBackup/Finish.antt =====
-- backupDatabase.ts: what goes before the success of a backup, and before the removal of the copy on
-- the server.
use yeah.Base.{
  ℕ, Bool, true, false, ◌&&◌, not, some, List, [], ◌∷◌, Text, or_else, includes, truthy, ◌≡◌, refl,
}
use yeah.Program.{World, Event, History, is_zero, act}
use yeah.Program.Order.{preceded, Fresh, Safe, Ready, Ready-more, Fresh-Safe}
use yeah.Program.Logic.{
  Assertion, Leads, Keeps, act-Keeps, bind, give, branch, only, catching, finally_done, outcome,
  calls, weaken,
}
use yeah.Program.Steps.{end_open, checked, checked-Leads, ensure-Keeps}
use yeah.Program.Success.{perhaps, late, closing, before, sound, backed, asked}
use yeah.DatabaseBackup.{
  dump, exec_dump, measure_dump, BackupCall, BackupError, finish_dump, Execution, Schedule,
  connect_dump, end_dump, open_dump_stream, upload_dump, remove_staged_dump, dump_exited,
  publish_backup, notify_backup, fail_dump, insert_execution, backup_running, backup_success,
  backup_failed, delete_execution, delete_stored, remove_dump, read_backup, backup_storage,
  successful_backups,
}
use yeah.DatabaseBackup.Retention.{to_delete}
use yeah.DatabaseBackup.Job.{
  BackupInputs, connects_dump, ends_dump, remove_execution, remove_executions, retain, send_dump,
  backup_body, backup_failure, run_backup, backup_database,
}

abbrev pub stores_dump : BackupCall → Bool
stores_dump (finish_dump stored size) = true
stores_dump _ = false

abbrev pub is_dump : BackupCall → Bool
is_dump (exec_dump dump) = true
is_dump _ = false

abbrev pub succeeds_dump : Event BackupCall → Bool
succeeds_dump e = stores_dump e.effect

abbrev pub dumped : Event BackupCall → Bool
dumped e = is_dump e.effect && is_zero e.reply

module _ (world : World BackupCall) (parse_int : Text → ℕ) where
  module _ (P : Assertion BackupCall)
      (plain : (e : Event BackupCall) (h : History BackupCall) → P h → P (e ∷ h)) where
    one : (effect : BackupCall) → Keeps {F = BackupError} P (act world effect)
    one effect = act-Keeps world (λ _. true) P (λ e h mine p. plain e h p) effect refl

    remove_execution-Keeps :
        (has_stored : Text → Bool) (seen : List Text) (e : Execution)
        → Keeps P (remove_execution world parse_int has_stored seen e)
    unfolding remove_execution
    remove_execution-Keeps has_stored seen e =
        branch (truthy e.file_path && truthy e.s3_storage_id)
          (bind
            (only (not (includes seen (or_else e.s3_storage_id [])))
              (one (read_backup backup_storage)))
            (λ _.
              bind
                (only (has_stored (or_else e.s3_storage_id []))
                  (one (delete_stored (or_else e.file_path []))))
                (λ _. bind (one (delete_execution e.id)) (λ _. give))))
          (bind (only (truthy e.file_path) (one (remove_dump (or_else e.file_path []))))
            (λ _. bind (one (delete_execution e.id)) (λ _. give)))

    remove_executions-Keeps :
        (has_stored : Text → Bool) (seen : List Text) (es : List Execution)
        → Keeps P (remove_executions world parse_int has_stored seen es)
    unfolding remove_executions
    remove_executions-Keeps has_stored seen [] = give
    remove_executions-Keeps has_stored seen (e ∷ rest) =
        bind (remove_execution-Keeps has_stored seen e)
          (λ seen'. remove_executions-Keeps has_stored seen' rest)

    retain-Keeps :
        (inputs : BackupInputs) (schedule : Schedule)
        → Keeps P (retain world parse_int inputs schedule)
    unfolding retain
    retain-Keeps inputs schedule = bind (one (read_backup successful_backups)) (λ _.
        remove_executions-Keeps inputs.has_stored []
          (to_delete schedule inputs.now inputs.successful))

    send_dump-Keeps :
        (has_stored : Text → Bool) (id : Text) (size : ℕ)
        → Keeps P (send_dump world parse_int has_stored id size)
    unfolding send_dump
    send_dump-Keeps has_stored id size = bind (one (read_backup backup_storage)) (λ _.
        bind (ensure-Keeps _ _) (λ _. bind (one open_dump_stream) (λ _.
          bind (calls world upload_dump (λ h p. plain _ h p) (λ h p. plain _ h p))
            (λ sent. bind (ensure-Keeps _ _) (λ _. one remove_staged_dump)))))

  abbrev Unsaved : Assertion BackupCall
  Unsaved = Fresh succeeds_dump dumped

  abbrev Dumped : Assertion BackupCall
  Dumped = Ready succeeds_dump dumped

  abbrev Sound : Assertion BackupCall
  Sound = Safe succeeds_dump dumped

  dump_Leads :
      Leads {F = BackupError} Unsaved Dumped Sound
        (checked world (exec_dump dump) (λ result. dump_exited result.0))
  dump_Leads =
      checked-Leads world (exec_dump dump) _
        (λ h output f e. (rw (Fresh-Safe succeeds_dump dumped h f) refl, rw e refl))
        (λ h f. Fresh-Safe succeeds_dump dumped h f)

  body-Sound :
      (inputs : BackupInputs) (schedule : Schedule)
      → Leads Unsaved Sound Sound (backup_body world parse_int inputs schedule)
  unfolding backup_body
  body-Sound inputs schedule =
      bind (before succeeds_dump dumped world connect_dump (λ h. refl)) (λ _. bind dump_Leads (λ _.
        bind (asked succeeds_dump dumped world (exec_dump measure_dump)) (λ measured.
          bind
            (late succeeds_dump dumped (
              only (truthy schedule.storage_id)
                (send_dump-Keeps Dumped (Ready-more succeeds_dump dumped) inputs.has_stored _ _)))
            (λ _. bind (backed succeeds_dump dumped world (finish_dump _ _)) (λ _.
              bind
                (late succeeds_dump dumped
                  (retain-Keeps Dumped (Ready-more succeeds_dump dumped) inputs schedule))
                (λ _. bind (backed succeeds_dump dumped world (publish_backup backup_success)) (λ _.
                  weaken (λ h p. p) (λ h r. r.0) (λ h s. s)
                    (backed succeeds_dump dumped world (notify_backup backup_success)))))))))

  failure-Sound : Keeps Sound (backup_failure world parse_int)
  unfolding backup_failure
  failure-Sound = bind (sound succeeds_dump dumped world fail_dump (λ h. refl)) (λ _.
      bind (sound succeeds_dump dumped world (publish_backup backup_failed) (λ h. refl))
        (λ _. sound succeeds_dump dumped world (notify_backup backup_failed) (λ h. refl)))

  run_backup-Sound :
      (inputs : BackupInputs) (schedule : Schedule)
      → Leads Unsaved Sound Sound (run_backup world parse_int inputs schedule)
  unfolding run_backup
  run_backup-Sound inputs schedule =
      bind (before succeeds_dump dumped world insert_execution (λ h. refl)) (λ _.
        perhaps succeeds_dump dumped inputs.inserted (
          bind (before succeeds_dump dumped world (publish_backup backup_running) (λ h. refl)) (λ _.
            finally_done (catching (body-Sound inputs schedule) failure-Sound) ending ending)))
    where
      ending : Keeps {F = BackupError} Sound (end_open connects_dump ends_dump end_dump)
      ending = closing succeeds_dump dumped connects_dump ends_dump end_dump refl

  -- Whatever the calls answer or throw, the success of a database backup is stored only after the dump
  -- command has exited with 0.
  pub backup_database-dumped :
      (inputs : BackupInputs) (schedule : Schedule)
      → preceded succeeds_dump dumped (backup_database world parse_int inputs (some schedule) []).0
        ≡ true
  unfolding backup_database
  backup_database-dumped inputs schedule =
      outcome (perhaps succeeds_dump dumped _ (run_backup-Sound inputs schedule)) [] refl
