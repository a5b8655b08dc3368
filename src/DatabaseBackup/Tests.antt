-- ===== src/DatabaseBackup/Tests.antt =====
-- Runs of a backup, and the theorems at concrete inputs.
use yeah.Base.{
  none, drop, equal, arith, ℕ, ◌+◌, true, false, some, [], ◌∷◌, Text, codes, any, trim, ◌≡◌, refl,
}
use yeah.Program.{World, Reply, answered, call, note, catch, finally}
use yeah.Program.Steps.{ensure, checked, is_open, end_open}
use yeah.Program.Order.{preceded}
use yeah.DatabaseBackup.{BackupCall, exec_dump, measure_dump, upload_dump, Schedule, Execution}
use yeah.DatabaseBackup.Oldest.{to_delete-drop}
use yeah.DatabaseBackup.Retention.{to_delete, expired_ids}
use yeah.DatabaseBackup.Job.{
  BackupInputs, backup_database, run_backup, backup_body, backup_failure, send_dump, retain,
  remove_executions,
}
use yeah.DatabaseBackup.Finish.{succeeds_dump, dumped, backup_database-dumped}

abbrev nightly : Schedule
nightly = record {
  enabled = true;
  storage_id = some (codes "s3");
  retention_count = 0;
  retention_days = 0;
  retention_size_gb = 0;
}

abbrev found : BackupInputs
found = record {
  has_database = true;
  has_backup_server = true;
  inserted = true;
  now = 0;
  has_stored = λ id. true;
  successful = [];
}

-- Stands for the runtime's parser of numbers: here the number of characters.
abbrev unary : Text → ℕ
unary [] = 0
unary (c ∷ rest) = unary rest + 1

abbrev sends : ℕ → BackupCall → Reply
sends n (exec_dump measure_dump) = answered 0 (codes "ab")
sends n upload_dump = answered n []
sends n effect = answered 0 []

-- The upload sends `n` bytes of a dump of two.
abbrev sending : ℕ → World BackupCall
sending n h effect = sends n effect

whole_upload :
    any succeeds_dump (backup_database (sending 2) unary found (some nightly) []).0 ≡ true
unfolding backup_database run_backup backup_body backup_failure send_dump retain remove_executions
    call note catch finally ensure checked is_open end_open trim to_delete expired_ids
whole_upload = refl

short_upload :
    any succeeds_dump (backup_database (sending 1) unary found (some nightly) []).0 ≡ false
unfolding backup_database run_backup backup_body backup_failure send_dump retain remove_executions
    call note catch finally ensure checked is_open end_open trim to_delete expired_ids
short_upload = refl

backup_database-dumped_example :
    preceded succeeds_dump dumped (backup_database (sending 2) unary found (some nightly) []).0
    ≡ true
backup_database-dumped_example = backup_database-dumped (sending 2) unary found nightly

abbrev newer : Execution
newer = record {
  id = codes "e2";
  created_at = 2000;
  size_bytes = 10;
  file_path = none;
  s3_storage_id = none;
}

abbrev older_one : Execution
older_one = record newer { id = codes "e1"; created_at = 1000 }

abbrev keep_one : Schedule
keep_one = record nightly { retention_count = 1 }

keeps_newest : to_delete keep_one 3000 (newer ∷ older_one ∷ []) ≡ older_one ∷ []
unfolding to_delete expired_ids equal
keeps_newest = refl

to_delete-drop_example :
    (k : ℕ) × (to_delete keep_one 3000 (newer ∷ older_one ∷ []) ≡ drop k (newer ∷ older_one ∷ []))
unfolding equal
to_delete-drop_example =
    to_delete-drop keep_one 3000 (newer ∷ older_one ∷ []) (refl, (refl, tt))
      ((omega arith, tt), (tt, tt))
