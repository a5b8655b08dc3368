-- ===== src/VolumeBackup/Tests.antt =====
-- Runs of a backup and of a restore, and the theorems at concrete inputs.
use yeah.Base.{true, false, none, some, [], codes, any, trim, equal, ◌≡◌, refl}
use yeah.Program.{World, Reply, answered, call, note, catch, finally}
use yeah.Program.Steps.{ensure, is_open, end_open}
use yeah.Program.Order.{preceded, pending}
use yeah.VolumeBackup.{
  VolumeCall, exec_on, replace_volume, BackupRow, VolumeTables, bind_volume, lacks_directory,
}
use yeah.VolumeBackup.Job.{
  volume_backup, volume_body, volume_failure, find_source, application_target, restore_archive,
  replace_stopped, run_volume,
}
use yeah.VolumeBackup.Restart.{stops_owner, starts_owner, volume_backup-restarts}
use yeah.VolumeBackup.Finish.{succeeds_volume, stands_on, volume_backup-stands}

abbrev archived : BackupRow
archived = record {
  id = codes "b1";
  owner_id = codes "app";
  of_service = false;
  is_restore = false;
  source_backup_id = none;
  volume_id = some (codes "v1");
  file_path = some (codes "/a.tar.gz");
  s3_storage_id = none;
}

abbrev restoring : BackupRow
restoring = record archived {
  is_restore = true;
  source_backup_id = some (codes "b1");
  file_path = none;
}

abbrev tables : VolumeTables
tables = record {
  source_row = some archived;
  has_application = true;
  volume = some (record { kind = bind_volume; host_path = some (codes "/srv") });
  has_service = false;
  has_compose = false;
  named_volume_found = false;
  has_server_row = true;
  has_storage = λ id. true;
  older = [];
}

abbrev fails_replace : VolumeCall → Reply
fails_replace (exec_on replace_volume) = answered 2 []
fails_replace effect = answered 0 []

-- The command that replaces the volume fails.
abbrev broken : World VolumeCall
broken h effect = fails_replace effect

abbrev calm : World VolumeCall
calm h effect = answered 0 []

calm_restore : any succeeds_volume (volume_backup calm restoring tables []).0 ≡ true
unfolding volume_backup volume_body find_source application_target restore_archive replace_stopped
    run_volume call note catch finally ensure is_open end_open lacks_directory trim equal
    volume_failure
calm_restore = refl

broken_restore : any succeeds_volume (volume_backup broken restoring tables []).0 ≡ false
unfolding volume_backup volume_body find_source application_target restore_archive replace_stopped
    run_volume call note catch finally ensure is_open end_open lacks_directory trim equal
    volume_failure
broken_restore = refl

volume_backup-restarts_example :
    pending stops_owner starts_owner (volume_backup broken restoring tables []).0 ≡ false
volume_backup-restarts_example = volume_backup-restarts broken (λ h line. refl) restoring tables

volume_backup-stands_example :
    preceded succeeds_volume (stands_on true) (volume_backup calm restoring tables []).0 ≡ true
volume_backup-stands_example = volume_backup-stands calm restoring tables
