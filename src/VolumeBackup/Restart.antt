-- ===== src/VolumeBackup/Restart.antt =====
-- volumeBackup.ts: a restore starts again what it has stopped.
use yeah.Base.{Bool, true, false, ◌&&◌, [], ◌∷◌, truthy, ◌≡◌, refl, arith}
use yeah.Program.{World, Event, History, Reply, is_answered, is_zero, only_if, act}
use yeah.Program.Order.{pending}
use yeah.Program.Logic.{
  Assertion, Leads, Keeps, bind, branch, only, event_of, answers, acts, anyhow, catching,
  finally_done, outcome, calls,
}
use yeah.Program.Steps.{end_open-Keeps}
use yeah.VolumeBackup.{
  VolumeCommand, make_folder, remove_staged, stop_owner, start_owner, archive_volume, VolumeCall,
  save_log, exec_on, BackupRow, VolumeTables, VolumeLine, VolumeError,
}
use yeah.VolumeBackup.Job.{
  Target, run_volume, replace_stopped, restore_archive, back_up, volume_failure, volume_backup,
  connects_server, ends_server,
}
use yeah.VolumeBackup.Keeps.{
  runs, is_decisive, ordinary_other, Ordinary, run-Leads, run-Keeps, stage-Keeps,
  build_commands-Keeps, apply_retention-Keeps, volume_body-Leads,
}

abbrev pub is_stop : VolumeCommand → Bool
is_stop stop_owner = true
is_stop _ = false

abbrev pub is_start : VolumeCommand → Bool
is_start start_owner = true
is_start _ = false

-- The owner was stopped.
abbrev pub stops_owner : Event VolumeCall → Bool
stops_owner e = runs is_stop e.effect && is_zero e.reply

-- The command that starts the owner was sent.
abbrev pub starts_owner : Event VolumeCall → Bool
starts_owner e = runs is_start e.effect

abbrev Started : Assertion VolumeCall
Started h = pending stops_owner starts_owner h ≡ false

abbrev Anything : Assertion VolumeCall
Anything h = Unit

Started-more :
    (e : Event VolumeCall) (h : History VolumeCall)
    → runs is_stop e.effect ≡ false
    → Started h
    → Started (e ∷ h)
Started-more e h other held = ground arith

Started-Ordinary : Ordinary Started
Started-Ordinary e h mine held =
    Started-more e h (ordinary_other is_stop only_decisive e.effect mine) held
  where
    only_decisive :
        (command : VolumeCommand) → is_decisive command ≡ false → is_stop command ≡ false
    only_decisive stop_owner d = absurd (ground arith)
    only_decisive _ d = refl

module _ (world : World VolumeCall)
    (logging : (h : History VolumeCall) (line : VolumeLine)
      → is_answered (world h (save_log line)) ≡ true) where
  log_Leads :
      (line : VolumeLine) (P Q X : Assertion VolumeCall)
      → ((h : History VolumeCall) → P h → Q (event_of world (save_log line) h ∷ h))
      → Leads {F = VolumeError} P Q X (act world (save_log line))
  log_Leads line P Q X q = answers world _ (λ h. logging h line) q

  run_logged :
      (P Q X : Assertion VolumeCall) (command : VolumeCommand)
      → Ordinary P
      → Ordinary Q
      → Ordinary X
      → ((h : History VolumeCall) (r : Reply)
          → is_zero r ≡ true
          → P h
          → Q (record { effect = exec_on command; reply = r } ∷ h))
      → ((h : History VolumeCall) (r : Reply)
          → is_zero r ≡ false
          → P h
          → X (record { effect = exec_on command; reply = r } ∷ h))
      → Leads P Q X (run_volume world command)
  run_logged P Q X command p q x ok bad =
      run-Leads world P Q X command (λ line. log_Leads line P P X (λ h held. p _ h refl held))
        (λ line. log_Leads line Q Q X (λ h held. q _ h refl held))
        (λ line. log_Leads line X X X (λ h held. x _ h refl held)) ok bad

  start_Leads : Leads Anything Started Started (run_volume world start_owner)
  start_Leads =
      run_logged Anything Started Started start_owner (λ e h mine held. tt) Started-Ordinary
        Started-Ordinary (λ h r z held. refl) (λ h r z held. refl)

  replace_stopped_Leads : Keeps Started (replace_stopped world)
  unfolding replace_stopped
  replace_stopped_Leads =
      bind {R = Anything}
        (run_logged Started Anything Started stop_owner Started-Ordinary (λ e h mine held. tt)
          Started-Ordinary (λ h r z held. tt) (λ h r z held. rw (z, held) refl))
        (λ _. finally_done (anyhow Anything _) start_Leads start_Leads)

  kept :
      (effect : VolumeCall)
      → ((h : History VolumeCall) → Started h → Started (event_of world effect h ∷ h))
      → Keeps {F = VolumeError} Started (act world effect)
  kept effect keeps = acts world effect keeps keeps

  restore_Leads :
      (target : Target) (source : BackupRow) (tables : VolumeTables)
      → Keeps Started (restore_archive world target source tables)
  unfolding restore_archive
  restore_Leads target source tables =
      bind
        (only (truthy source.s3_storage_id)
          (stage-Keeps world Started Started-Ordinary tables source))
        (λ _. bind (build_commands-Keeps world Started Started-Ordinary target) (λ _.
          bind (finally_done replace_stopped_Leads remove_Leads remove_Leads) (λ _.
            bind (acts world _ (λ h p. p) (λ h p. p))
              (λ _. log_Leads _ Started Started Started (λ h p. p)))))
    where
      remove_Leads : Keeps Started (
          only_if
            (truthy source.s3_storage_id)
            (act {F = VolumeError} world (exec_on remove_staged)))
      remove_Leads = only (truthy source.s3_storage_id) (kept (exec_on remove_staged) (λ h p. p))

  archive_Leads : Keeps Started (run_volume world archive_volume)
  archive_Leads =
      run_logged Started Started Started archive_volume Started-Ordinary Started-Ordinary
        Started-Ordinary (λ h r z held. held) (λ h r z held. held)

  back_up_Leads :
      (target : Target) (tables : VolumeTables) → Keeps Started (back_up world target tables)
  unfolding back_up
  back_up_Leads target tables =
      bind (run-Keeps world Started Started-Ordinary make_folder refl) (λ _.
        bind (build_commands-Keeps world Started Started-Ordinary target) (λ _.
          bind archive_Leads (λ _. bind (calls world _ (λ h p. p) (λ h p. p)) (λ measured.
            bind (acts world _ (λ h p. p) (λ h p. p)) (λ _.
              bind (acts world _ (λ h p. p) (λ h p. p))
                (λ _. apply_retention-Keeps world Started Started-Ordinary tables))))))

  failure_Leads : Keeps Started (volume_failure world)
  unfolding volume_failure
  failure_Leads =
      bind (acts world _ (λ h p. p) (λ h p. p))
        (λ _. bind (acts world _ (λ h p. p) (λ h p. p)) (λ _. acts world _ (λ h p. p) (λ h p. p)))

  -- Where the saves of the log do not throw, every successful stop of the volume's owner is followed by
  -- the command that starts it again, whatever the other calls answer or throw.
  pub volume_backup-restarts :
      (row : BackupRow) (tables : VolumeTables)
      → pending stops_owner starts_owner (volume_backup world row tables []).0 ≡ false
  unfolding volume_backup
  volume_backup-restarts row tables =
      outcome
        (bind (acts world _ (λ h p. p) (λ h p. p)) (λ _.
          finally_done
            (catching
              (volume_body-Leads world Started Started-Ordinary Started Started (λ h p. p) row
                tables
                (λ target source.
                  branch row.is_restore (restore_Leads target source tables)
                    (back_up_Leads target tables)))
              failure_Leads)
            (end_open-Keeps connects_server ends_server _ (λ h p. p))
            (end_open-Keeps connects_server ends_server _ (λ h p. p))))
        [] refl
