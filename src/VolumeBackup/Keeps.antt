-- ===== src/VolumeBackup/Keeps.antt =====
-- volumeBackup.ts: the parts of the job whose calls neither stop, start, replace or archive anything,
-- nor store an end status.
use yeah.Base.{
  ℕ, Text, Bool-cases, inl, inr, Bool, true, false, ◌&&◌, not, Option, none, some, List, [], ◌∷◌,
  drop, or_else, truthy, ◌==◌, ◌≡◌, refl, arith, if◌then◌else◌,
}
use yeah.Program.{
  next, replied, pure, raise, call, Reply, threw, answered, is_zero, ◌>>◌, World, History, Program,
  only_if, act,
}
use yeah.Program.Logic.{
  Assertion, Leads, Keeps, Plain, bind, give, attempted, branch, only, throws, act-Keeps, After,
  taken, skipped, weaken,
}
use yeah.Program.Steps.{ensure-Keeps}
use yeah.VolumeBackup.{
  delete_object, remove_archive, delete_backup, VolumeCommand, make_folder, archive_volume,
  stop_owner, replace_volume, start_owner, VolumeCall, exec_on, finish_backup, finish_restore,
  VolumeJob, BackupRow, VolumeTables, VolumeError, VolumeSource, save_log, VolumeLine, running_line,
  output_line, volume_exited,
}
use yeah.VolumeBackup.Job.{
  run_volume, find_source, application_target, service_target, retire, retire_all, apply_retention,
  stage, volume_body, back_up, restore_archive, Target, build_commands, keep_volume_backups,
  is_blank, check_source, check_volume, keep_volume_backups,
}

abbrev pub is_decisive : VolumeCommand → Bool
is_decisive archive_volume = true
is_decisive stop_owner = true
is_decisive replace_volume = true
is_decisive start_owner = true
is_decisive _ = false

abbrev pub stores_success : VolumeCall → Bool
stores_success (finish_backup output) = true
stores_success (finish_restore path) = true
stores_success _ = false

-- Whether a call is a command of a kind.
abbrev pub runs : (VolumeCommand → Bool) → VolumeCall → Bool
runs kind (exec_on command) = kind command
runs kind _ = false

abbrev pub is_ordinary : VolumeCall → Bool
is_ordinary effect = not (stores_success effect) && not (runs is_decisive effect)

pub ordinary_other :
    (kind : VolumeCommand → Bool)
    → ((command : VolumeCommand) → is_decisive command ≡ false → kind command ≡ false)
    → (effect : VolumeCall) → is_ordinary effect ≡ true
    → runs kind effect ≡ false
ordinary_other kind only_decisive (exec_on command) o = only_decisive command (ground arith)
ordinary_other kind only_decisive _ o = refl

abbrev pub Ordinary : Assertion VolumeCall → Type 0
Ordinary P = Plain is_ordinary P

module _ (world : World VolumeCall) where
  -- A command, by whether it exits with 0.
  pub run-Leads :
      (P Q X : Assertion VolumeCall) (command : VolumeCommand)
      → ((line : VolumeLine) → Leads {F = VolumeError} P P X (act world (save_log line)))
      → ((line : VolumeLine) → Leads {F = VolumeError} Q Q X (act world (save_log line)))
      → ((line : VolumeLine) → Keeps {F = VolumeError} X (act world (save_log line)))
      → ((h : History VolumeCall) (r : Reply)
          → is_zero r ≡ true
          → P h
          → Q (record { effect = exec_on command; reply = r } ∷ h))
      → ((h : History VolumeCall) (r : Reply)
          → is_zero r ≡ false
          → P h
          → X (record { effect = exec_on command; reply = r } ∷ h))
      → Leads P Q X (run_volume world command)
  unfolding run_volume call
  run-Leads P Q X command before behind failed ok bad =
      bind (before (running_line command))
        (λ _. record { runs = λ h held. settled h (world h (exec_on command)) held })
    where
      rest : ℕ × Text → VolumeJob Unit
      rest = λ result.
          only_if (not (is_blank result.1)) (act world (save_log (output_line result.1)))
          >> (if result.0 == 0 then pure tt else raise (volume_exited command result.0))

      settled :
          (h : History VolumeCall) (r : Reply)
          → P h
          → After Q X (next (record { effect = exec_on command; reply = r } ∷ h, replied r) rest)
      settled h threw held = bad h threw refl held
      settled h (answered code output) held = elim (Bool-cases (code == 0)) [
        | inl zero_code ↦
            (bind (only (not (is_blank output)) (behind (output_line output)))
                (λ _. taken _ zero_code give)).runs
              _ (ok h (answered code output) zero_code held)
        | inr other ↦
            (bind {Q = Q} (only (not (is_blank output)) (failed (output_line output)))
                (λ _. skipped _ other (throws (λ h' b. b)))).runs
              _ (bad h (answered code output) other held)
      ]

  module _ (P : Assertion VolumeCall) (plain : Ordinary P) where
    one :
        (effect : VolumeCall)
        → is_ordinary effect ≡ true
        → Keeps {F = VolumeError} P (act world effect)
    one effect mine = act-Keeps world is_ordinary P plain effect mine

    pub run-Keeps :
        (command : VolumeCommand)
        → is_ordinary (exec_on command) ≡ true
        → Keeps P (run_volume world command)
    run-Keeps command mine =
        run-Leads P P P command (λ line. one _ refl) (λ line. one _ refl) (λ line. one _ refl)
          (λ h r z p. plain _ h mine p) (λ h r z p. plain _ h mine p)

    check_source-Keeps :
        (row : BackupRow) (found : Option BackupRow) → Keeps P (check_source world row found)
    check_source-Keeps row none = throws (λ h p. p)
    check_source-Keeps row (some source) = branch _ (throws (λ h p. p)) give

    pub find_source-Keeps :
        (row : BackupRow) (tables : VolumeTables) → Keeps P (find_source world row tables)
    unfolding find_source
    find_source-Keeps row tables =
        branch row.is_restore
          (bind (only (truthy row.source_backup_id) (one _ refl))
            (λ _. check_source-Keeps row tables.source_row))
          give

    check_volume-Keeps :
        (source : BackupRow) (volume : Option VolumeSource)
        → Keeps P (check_volume world source volume)
    check_volume-Keeps source none = throws (λ h p. p)
    check_volume-Keeps source (some volume) = branch _ give (throws (λ h p. p))

    service_target-Keeps : (tables : VolumeTables) → Keeps P (service_target world tables)
    unfolding service_target
    service_target-Keeps tables =
        bind (one _ refl) (λ _. bind (ensure-Keeps _ _) (λ _. bind (ensure-Keeps _ _) (λ _. give)))

    application_target-Keeps :
        (source : BackupRow) (tables : VolumeTables)
        → Keeps P (application_target world source tables)
    unfolding application_target
    application_target-Keeps source tables = bind (one _ refl) (λ _. bind (ensure-Keeps _ _) (λ _.
        bind (only (truthy source.volume_id) (one _ refl))
          (λ _. check_volume-Keeps source tables.volume)))

    pub build_commands-Keeps : (target : Target) → Keeps P (build_commands world target)
    build_commands-Keeps target = ensure-Keeps _ _

    retire-Keeps : (tables : VolumeTables) (old : BackupRow) → Keeps P (retire world tables old)
    unfolding retire
    retire-Keeps tables old =
        bind
          (branch (truthy old.file_path && truthy old.s3_storage_id)
            (bind (one _ refl) (λ _.
              only (tables.has_storage (or_else old.s3_storage_id []))
                (attempted (one (delete_object _) refl))))
            (only (truthy old.file_path) (one (exec_on (remove_archive _)) refl)))
          (λ _. one (delete_backup _) refl)

    retire_all-Keeps :
        (tables : VolumeTables) (olds : List BackupRow) → Keeps P (retire_all world tables olds)
    unfolding retire_all
    retire_all-Keeps tables [] = give
    retire_all-Keeps tables (old ∷ rest) =
        bind (retire-Keeps tables old) (λ _. retire_all-Keeps tables rest)

    pub apply_retention-Keeps : (tables : VolumeTables) → Keeps P (apply_retention world tables)
    unfolding apply_retention
    apply_retention-Keeps tables =
        bind (one _ refl) (λ _. retire_all-Keeps tables (drop keep_volume_backups tables.older))

    pub stage-Keeps :
        (tables : VolumeTables) (source : BackupRow) → Keeps P (stage world tables source)
    unfolding stage
    stage-Keeps tables source = bind (one _ refl) (λ _.
        bind (ensure-Keeps _ _)
          (λ _. bind (run-Keeps make_folder refl) (λ _. bind (one _ refl) (λ _. one _ refl))))

    -- The `try`, by what its restore or backup leads to.
    pub volume_body-Leads :
        (Q X : Assertion VolumeCall)
        → ((h : History VolumeCall) → P h → X h)
        → (row : BackupRow) (tables : VolumeTables)
        → ((target : Target) (source : BackupRow)
            → Leads P Q X (
                if row.is_restore
                then restore_archive world target source tables
                else back_up world target tables))
        → Leads P Q X (volume_body world row tables)
    unfolding volume_body
    volume_body-Leads Q X before row tables inner =
        bind (early (find_source-Keeps row tables)) (λ source.
          bind
            (early (
              branch row.of_service (service_target-Keeps tables)
                (application_target-Keeps source tables)))
            (λ target. bind (early (one _ refl)) (λ _.
              bind (early (ensure-Keeps _ _))
                (λ _. bind (early (one _ refl)) (λ _. inner target source)))))
      where
        early : {A : Type 0} {m : Program VolumeCall VolumeError A} → Keeps P m → Leads P P X m
        early = weaken (λ h p. p) (λ h p. p) before
