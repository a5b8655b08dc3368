-- ===== src/VolumeBackup/Finish.antt =====
-- volumeBackup.ts: what goes before the success of a backup or a restore, and that the row always
-- gets an end status.
use yeah.Base.{Bool, true, false, ◌&&◌, not, [], ◌∷◌, truthy, ◌≡◌, refl, arith, if◌then◌else◌}
use yeah.Program.{World, Event, History, is_zero, act}
use yeah.Program.Order.{preceded, Fresh, Safe, Ready, Fresh-more, Safe-more, Ready-more, Fresh-Safe}
use yeah.Program.Logic.{
  act-Keeps, Assertion, Leads, Keeps, bind, only, event_of, catching, finally_done, outcome, calls,
  weaken,
}
use yeah.Program.Success.{early, late, sound, backed, closing}
use yeah.VolumeBackup.{
  VolumeCommand, stop_owner, start_owner, replace_volume, archive_volume, measure_archive,
  finish_backup, finish_restore, backup_completed, restore_completed, volume_failed, notify_failed,
  mark_running, make_folder, remove_staged, VolumeCall, save_log, exec_on, BackupRow, VolumeTables,
  VolumeLine, VolumeError, mark_failed, end_server,
}
use yeah.VolumeBackup.Job.{
  Target, run_volume, replace_stopped, restore_archive, back_up, volume_failure, volume_backup,
  connects_server, ends_server,
}
use yeah.VolumeBackup.Keeps.{
  runs, is_ordinary, stores_success, Ordinary, run-Leads, run-Keeps, stage-Keeps,
  build_commands-Keeps, apply_retention-Keeps, volume_body-Leads,
}

-- What a backup or a restore stands on.
abbrev pub replaces : VolumeCommand → Bool
replaces replace_volume = true
replaces _ = false

abbrev pub archives : VolumeCommand → Bool
archives archive_volume = true
archives _ = false

abbrev pub stands_on : Bool → Event VolumeCall → Bool
stands_on restoring e = runs (if restoring then replaces else archives) e.effect && is_zero e.reply

abbrev pub succeeds_volume : Event VolumeCall → Bool
succeeds_volume e = stores_success e.effect

stored_other : (b c : Bool) → not b && c ≡ true → b ≡ false
stored_other true c o = absurd (ground arith)
stored_other false c o = refl

module _ (restoring : Bool) where
  abbrev NotYet : Assertion VolumeCall
  NotYet = Fresh succeeds_volume (stands_on restoring)

  abbrev Backed : Assertion VolumeCall
  Backed = Ready succeeds_volume (stands_on restoring)

  abbrev Sound : Assertion VolumeCall
  Sound = Safe succeeds_volume (stands_on restoring)

  NotYet-Ordinary : Ordinary NotYet
  NotYet-Ordinary e h mine =
      Fresh-more succeeds_volume (stands_on restoring) e h (stored_other _ _ mine)

  Sound-Ordinary : Ordinary Sound
  Sound-Ordinary e h mine =
      Safe-more succeeds_volume (stands_on restoring) e h (stored_other _ _ mine)

  Backed-more : (e : Event VolumeCall) (h : History VolumeCall) → Backed h → Backed (e ∷ h)
  Backed-more = Ready-more succeeds_volume (stands_on restoring)

  NotYet-Sound : (h : History VolumeCall) → NotYet h → Sound h
  NotYet-Sound = Fresh-Safe succeeds_volume (stands_on restoring)

module _ (world : World VolumeCall) (restoring : Bool) where
  one :
      (P : Assertion VolumeCall)
      → Ordinary P
      → (effect : VolumeCall) → is_ordinary effect ≡ true
      → Keeps {F = VolumeError} P (act world effect)
  one = act-Keeps world is_ordinary

  -- A command that does not decide the success.
  run_sound : (command : VolumeCommand) → Keeps (Sound restoring) (run_volume world command)
  run_sound command =
      run-Leads world (Sound restoring) (Sound restoring) (Sound restoring) command
        (λ line. sound succeeds_volume (stands_on restoring) world (save_log line) (λ h. refl))
        (λ line. sound succeeds_volume (stands_on restoring) world (save_log line) (λ h. refl))
        (λ line. sound succeeds_volume (stands_on restoring) world (save_log line) (λ h. refl))
        (λ h r z s.
          Safe-more succeeds_volume (stands_on restoring)
            (record { effect = exec_on command; reply = r }) h refl s)
        (λ h r z s.
          Safe-more succeeds_volume (stands_on restoring)
            (record { effect = exec_on command; reply = r }) h refl s)

  run_backed :
      (command : VolumeCommand)
      → Leads (Backed restoring) (Backed restoring) (Sound restoring) (run_volume world command)
  run_backed command =
      run-Leads world (Backed restoring) (Backed restoring) (Sound restoring) command
        (λ line. backed succeeds_volume (stands_on restoring) world (save_log line))
        (λ line. backed succeeds_volume (stands_on restoring) world (save_log line))
        (λ line. sound succeeds_volume (stands_on restoring) world (save_log line) (λ h. refl))
        (λ h r z b. Backed-more restoring (record { effect = exec_on command; reply = r }) h b)
        (λ h r z b. (Backed-more restoring (record { effect = exec_on command; reply = r }) h b).0)

  -- The command that the success stands on.
  decisive_Leads :
      (command : VolumeCommand)
      → (if restoring then replaces else archives) command ≡ true
      → Leads (NotYet restoring) (Backed restoring) (Sound restoring) (run_volume world command)
  decisive_Leads command here =
      run-Leads world (NotYet restoring) (Backed restoring) (Sound restoring) command
        (λ line.
          early succeeds_volume (stands_on restoring)
            (one (NotYet restoring) (NotYet-Ordinary restoring) (save_log line) refl))
        (λ line. backed succeeds_volume (stands_on restoring) world (save_log line))
        (λ line. sound succeeds_volume (stands_on restoring) world (save_log line) (λ h. refl))
        (λ h r z held. (rw (NotYet-Sound restoring h held) refl, rw (here, z) refl))
        (λ h r z held. NotYet-Sound restoring h held)

  Backed-Ordinary : Ordinary (Backed restoring)
  Backed-Ordinary e h mine = Backed-more restoring e h

module _ (world : World VolumeCall) where
  back_up-Sound :
      (target : Target) (tables : VolumeTables)
      → Leads (NotYet false) (Backed false) (Sound false) (back_up world target tables)
  unfolding back_up
  back_up-Sound target tables =
      bind
        (early succeeds_volume (stands_on false)
          (run-Keeps world _ (NotYet-Ordinary false) make_folder refl))
        (λ _.
          bind
            (early succeeds_volume (stands_on false)
              (build_commands-Keeps world _ (NotYet-Ordinary false) target))
            (λ _. bind (decisive_Leads world false archive_volume refl) (λ _.
              bind (calls world (exec_on measure_archive) (λ h b. more h b) (λ h b. (more h b).0))
                (λ measured.
                  bind (backed succeeds_volume (stands_on false) world (finish_backup measured.1))
                    (λ _.
                      bind
                        (backed succeeds_volume (stands_on false) world (save_log backup_completed))
                        (λ _.
                          late succeeds_volume (stands_on false) (
                            apply_retention-Keeps world _ (Backed-Ordinary world false)
                              tables)))))))
    where
      more :
          (h : History VolumeCall)
          → Backed false h
          → Backed false (event_of world (exec_on measure_archive) h ∷ h)
      more h b = Backed-more false (event_of world (exec_on measure_archive) h) h b

  stop_early : Leads (NotYet true) (NotYet true) (Sound true) (run_volume world stop_owner)
  stop_early = early succeeds_volume (stands_on true) (
      run-Leads world (NotYet true) (NotYet true) (NotYet true) stop_owner logged logged logged
        (λ h r z p. p) (λ h r z p. p))
    where
      logged :
          (line : VolumeLine) → Keeps {F = VolumeError} (NotYet true) (act world (save_log line))
      logged line = one world true (NotYet true) (NotYet-Ordinary true) (save_log line) refl

  replace_stopped-Sound : Leads (NotYet true) (Backed true) (Sound true) (replace_stopped world)
  unfolding replace_stopped
  replace_stopped-Sound = bind stop_early (λ _.
      finally_done (decisive_Leads world true replace_volume refl)
        (run_backed world true start_owner) (run_sound world true start_owner))

  restore_archive-Sound :
      (target : Target) (source : BackupRow) (tables : VolumeTables)
      → Leads (NotYet true) (Backed true) (Sound true) (restore_archive world target source tables)
  unfolding restore_archive
  restore_archive-Sound target source tables =
      bind
        (early succeeds_volume (stands_on true) (
          only (truthy source.s3_storage_id)
            (stage-Keeps world _ (NotYet-Ordinary true) tables source)))
        (λ _.
          bind
            (early succeeds_volume (stands_on true)
              (build_commands-Keeps world _ (NotYet-Ordinary true) target))
            (λ _.
              bind
                (finally_done replace_stopped-Sound
                  (late succeeds_volume (stands_on true) (
                    only (truthy source.s3_storage_id)
                      (one world true _ (Backed-Ordinary world true) (exec_on remove_staged) refl)))
                  (only (truthy source.s3_storage_id) (
                    sound succeeds_volume (stands_on true) world (exec_on remove_staged)
                      (λ h. refl))))
                (λ _.
                  bind
                    (backed succeeds_volume (stands_on true) world
                      (finish_restore source.file_path))
                    (λ _.
                      backed succeeds_volume (stands_on true) world (save_log restore_completed)))))

  failure-Sound : (restoring : Bool) → Keeps (Sound restoring) (volume_failure world)
  unfolding volume_failure
  failure-Sound restoring =
      bind (sound succeeds_volume (stands_on restoring) world (save_log volume_failed) (λ h. refl))
        (λ _.
          bind (sound succeeds_volume (stands_on restoring) world mark_failed (λ h. refl))
            (λ _. sound succeeds_volume (stands_on restoring) world notify_failed (λ h. refl)))

  inner-Sound :
      (restoring : Bool) (target : Target) (source : BackupRow) (tables : VolumeTables)
      → Leads (NotYet restoring) (Sound restoring) (Sound restoring) (
          if restoring
          then restore_archive world target source tables
          else back_up world target tables)
  inner-Sound true target source tables =
      weaken (λ h p. p) (λ h b. b.0) (λ h p. p) (restore_archive-Sound target source tables)
  inner-Sound false target source tables =
      weaken (λ h p. p) (λ h b. b.0) (λ h p. p) (back_up-Sound target tables)

  -- Whatever the calls answer or throw, a backup's success is stored only after the archiving command has
  -- exited with 0, and that of a restore only after the command that replaces the volume has.
  pub volume_backup-stands :
      (row : BackupRow) (tables : VolumeTables)
      → preceded succeeds_volume (stands_on row.is_restore) (volume_backup world row tables []).0
        ≡ true
  unfolding volume_backup
  volume_backup-stands row tables =
      outcome
        (bind
          (early succeeds_volume (stands_on row.is_restore)
            (one world row.is_restore _ (NotYet-Ordinary row.is_restore) mark_running refl))
          (λ _.
            finally_done
              (catching
                (volume_body-Leads world (NotYet row.is_restore) (NotYet-Ordinary row.is_restore)
                  (Sound row.is_restore) (Sound row.is_restore) (NotYet-Sound row.is_restore) row
                  tables (λ target source. inner-Sound row.is_restore target source tables))
                (failure-Sound row.is_restore))
              (closing succeeds_volume (stands_on row.is_restore) connects_server ends_server
                end_server refl)
              (closing succeeds_volume (stands_on row.is_restore) connects_server ends_server
                end_server refl)))
        [] refl
