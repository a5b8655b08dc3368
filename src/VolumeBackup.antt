-- ===== src/VolumeBackup.antt =====
-- apps/worker/src/jobs/volumeBackup.ts: the job that archives a volume, or restores an archive of
-- it. A call is one that the job awaits; a read of rows is a call whose rows are in the inputs.
pub mod Job
pub mod Keeps
pub mod Restart
pub mod Finish
mod Tests
use yeah.Base.{ℕ, Bool, true, false, ◌||◌, not, Option, List, Text, truthy, if◌then◌else◌}
use yeah.Program.{Program}

pub data VolumeKind : Type 0 where
  named_volume bind_volume file_volume database_volume : VolumeKind

-- The commands, one constructor for each builder of the source.
pub data VolumeCommand : Type 0 where
  make_folder archive_volume measure_archive : VolumeCommand
  stop_owner replace_volume start_owner remove_staged : VolumeCommand
  remove_archive : Text → VolumeCommand

-- The lines that are appended to the log.
pub data VolumeLine : Type 0 where
  running_line : VolumeCommand → VolumeLine
  output_line : Text → VolumeLine
  backup_completed restore_completed downloading volume_failed : VolumeLine

pub data VolumeTable : Type 0 where
  source_backup owner_row volume_row server_row storage_row old_backups : VolumeTable

-- The size that `finish_backup` stores is the number at the start of the text.
pub data VolumeCall : Type 0 where
  mark_running mark_failed notify_failed : VolumeCall
  save_log : VolumeLine → VolumeCall
  read_row : VolumeTable → VolumeCall
  connect_server end_server : VolumeCall
  exec_on : VolumeCommand → VolumeCall
  download_archive : VolumeCall
  finish_backup : Text → VolumeCall
  finish_restore : Option Text → VolumeCall
  delete_object delete_backup : Text → VolumeCall

pub data VolumeError : Type 0 where
  source_gone owner_gone volume_gone server_gone storage_gone no_directory : VolumeError
  volume_exited : VolumeCommand → ℕ → VolumeError

abbrev pub VolumeJob : Type 0 → Type 0
VolumeJob = Program VolumeCall VolumeError

-- A row of `volume_backups`, as far as the job reads it.
pub record BackupRow : Type 0 where
  pub id : Text
  pub owner_id : Text
  pub of_service : Bool
  pub is_restore : Bool
  pub source_backup_id : Option Text
  pub volume_id : Option Text
  pub file_path : Option Text
  pub s3_storage_id : Option Text

-- A row of `application_volumes`.
pub record VolumeSource : Type 0 where
  pub kind : VolumeKind
  pub host_path : Option Text

-- What the reads find: `older` are the successful backups of the same volume, the newest first, and
-- `has_compose` tells whether the service has a compose file, of which `named_volume_found` finds
-- the volume.
pub record VolumeTables : Type 0 where
  pub source_row : Option BackupRow
  pub has_application : Bool
  pub volume : Option VolumeSource
  pub has_service : Bool
  pub has_compose : Bool
  pub named_volume_found : Bool
  pub has_server_row : Bool
  pub has_storage : Text → Bool
  pub older : List BackupRow

abbrev pub is_file : VolumeKind → Bool
is_file file_volume = true
is_file _ = false

abbrev pub is_named : VolumeKind → Bool
is_named named_volume = true
is_named _ = false

-- Whether the builders of the commands for a volume of an application throw: a directory or a
-- volume of a database has to be named by the row.
unfoldable pub lacks_directory : VolumeSource → Bool
lacks_directory source =
    if is_file source.kind || is_named source.kind then false else not (truthy source.host_path)
