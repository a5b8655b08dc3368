-- ===== src/VolumeBackup/Job.antt =====
-- volumeBackup.ts: the job, with its targets, its steps and the retention.
use yeah.Base.{
  ℕ, Bool, true, false, ◌&&◌, ◌||◌, not, Option, none, some, List, [], ◌∷◌, Text, ◌==◌, equal, trim,
  drop, or_else, truthy, if◌then◌else◌,
}
use yeah.Program.{World, ◌>>=◌, ◌>>◌, pure, raise, only_if, attempt, call, act, catch, finally}
use yeah.Program.Steps.{ensure, end_open}
use yeah.VolumeBackup.{
  VolumeCommand, make_folder, archive_volume, measure_archive, stop_owner, replace_volume,
  start_owner, remove_staged, remove_archive, VolumeLine, running_line, output_line,
  backup_completed, restore_completed, downloading, volume_failed, source_backup, owner_row,
  volume_row, server_row, storage_row, old_backups, VolumeCall, mark_running, mark_failed,
  notify_failed, save_log, read_row, connect_server, end_server, exec_on, download_archive,
  finish_backup, finish_restore, delete_object, delete_backup, source_gone, owner_gone, volume_gone,
  server_gone, storage_gone, no_directory, volume_exited, VolumeJob, BackupRow, VolumeSource,
  VolumeTables, lacks_directory,
}

abbrev pub keep_volume_backups : ℕ
keep_volume_backups = 5

abbrev pub is_blank : Text → Bool
is_blank output = equal (trim output) []

abbrev pub connects_server : VolumeCall → Bool
connects_server connect_server = true
connects_server _ = false

abbrev pub ends_server : VolumeCall → Bool
ends_server end_server = true
ends_server _ = false

-- What the targets give: how the volume's commands are built, and whether building them throws.
pub data Target : Type 0 where
  application_volume : VolumeSource → Target
  stack_volume : Target

abbrev pub no_commands : Target → Bool
no_commands (application_volume source) = lacks_directory source
no_commands stack_volume = false

module _ (world : World VolumeCall) where
  -- `append`
  abbrev pub append_log : VolumeLine → VolumeJob Unit
  append_log line = act world (save_log line)

  unfoldable pub run_volume : VolumeCommand → VolumeJob Unit
  run_volume command = do
    append_log (running_line command)
    result ← call world (exec_on command)
    only_if (not (is_blank result.1)) (append_log (output_line result.1))
    if result.0 == 0 then pure tt else raise (volume_exited command result.0)

  abbrev pub check_source : BackupRow → Option BackupRow → VolumeJob BackupRow
  check_source row none = raise source_gone
  check_source row (some source) =
      if not (truthy row.source_backup_id)
        || not (equal source.owner_id row.owner_id)
        || not (truthy source.file_path)
      then raise source_gone
      else pure source

  -- The row that the archive comes from: the backup itself, or the source of a restore.
  unfoldable pub find_source : BackupRow → VolumeTables → VolumeJob BackupRow
  find_source row tables =
      if row.is_restore
      then (do
        only_if (truthy row.source_backup_id) (act world (read_row source_backup))
        check_source row tables.source_row)
      else pure row

  abbrev pub check_volume : BackupRow → Option VolumeSource → VolumeJob Target
  check_volume source none = raise volume_gone
  check_volume source (some volume) =
      if truthy source.volume_id then pure (application_volume volume) else raise volume_gone

  unfoldable pub application_target : BackupRow → VolumeTables → VolumeJob Target
  application_target source tables = do
    act world (read_row owner_row)
    ensure (tables.has_application) owner_gone
    only_if (truthy source.volume_id) (act world (read_row volume_row))
    check_volume source tables.volume

  unfoldable pub service_target : VolumeTables → VolumeJob Target
  service_target tables = do
    act world (read_row owner_row)
    ensure (tables.has_service && tables.has_compose) owner_gone
    ensure tables.named_volume_found volume_gone
    pure stack_volume

  -- One backup that the retention removes, its file first.
  unfoldable pub retire : VolumeTables → BackupRow → VolumeJob Unit
  retire tables old = do
    (if truthy old.file_path && truthy old.s3_storage_id
        then (do
          act world (read_row storage_row)
          only_if (tables.has_storage (or_else old.s3_storage_id []))
              (attempt (act world (delete_object (or_else old.file_path [])))))
        else only_if (truthy old.file_path)
            (act world (exec_on (remove_archive (or_else old.file_path [])))))
    act world (delete_backup old.id)

  unfoldable pub retire_all : VolumeTables → List BackupRow → VolumeJob Unit
  retire_all tables [] = pure tt
  retire_all tables (old ∷ rest) = retire tables old >> retire_all tables rest

  unfoldable pub apply_retention : VolumeTables → VolumeJob Unit
  apply_retention tables = do
    act world (read_row old_backups)
    retire_all tables (drop keep_volume_backups tables.older)

  -- `target.backup` and `target.restore` throw where the volume names no directory.
  abbrev pub build_commands : Target → VolumeJob Unit
  build_commands target = ensure (not (no_commands target)) no_directory

  unfoldable pub back_up : Target → VolumeTables → VolumeJob Unit
  back_up target tables = do
    run_volume make_folder
    build_commands target
    run_volume archive_volume
    measured ← call world (exec_on measure_archive)
    act world (finish_backup measured.1)
    append_log backup_completed
    apply_retention tables

  -- An archive in S3 is staged on the server.
  unfoldable pub stage : VolumeTables → BackupRow → VolumeJob Unit
  stage tables source = do
    act world (read_row storage_row)
    ensure (tables.has_storage (or_else source.s3_storage_id [])) storage_gone
    run_volume make_folder
    append_log downloading
    act world download_archive

  -- The owner is stopped while its volume is replaced.
  unfoldable pub replace_stopped : VolumeJob Unit
  replace_stopped = do
    run_volume stop_owner
    finally (run_volume replace_volume) (run_volume start_owner)

  unfoldable pub restore_archive : Target → BackupRow → VolumeTables → VolumeJob Unit
  restore_archive target source tables = do
    only_if (truthy source.s3_storage_id) (stage tables source)
    build_commands target
    finally replace_stopped
        (only_if (truthy source.s3_storage_id) (act world (exec_on remove_staged)))
    act world (finish_restore source.file_path)
    append_log restore_completed

  -- The `try`.
  unfoldable pub volume_body : BackupRow → VolumeTables → VolumeJob Unit
  volume_body row tables = do
    source ← find_source row tables
    target ← (if row.of_service then service_target tables else application_target source tables)
    act world (read_row server_row)
    ensure (tables.has_server_row) server_gone
    act world connect_server
    (if row.is_restore then restore_archive target source tables else back_up target tables)

  -- The `catch`.
  unfoldable pub volume_failure : VolumeJob Unit
  volume_failure = do append_log volume_failed; act world mark_failed; act world notify_failed

  -- The job of a row that exists.
  unfoldable pub volume_backup : BackupRow → VolumeTables → VolumeJob Unit
  volume_backup row tables = do
    act world mark_running
    finally (catch (volume_body row tables) volume_failure)
        (end_open connects_server ends_server end_server)
