-- ===== src/InstanceBackup/Tests.antt =====
-- Runs of the job, and the theorems at concrete inputs.
use yeah.Base.{
  ℕ, ◌+◌, true, false, none, some, [], ◌∷◌, Text, codes, any, trim, is_space, equal, starts_with,
  sort_by, put_in, ◌≡◌, refl,
}
use yeah.Program.{World, Reply, threw, answered, attempt, call, note, catch, finally}
use yeah.Program.Steps.{checked, ensure}
use yeah.Program.Order.{preceded, pending}
use yeah.InstanceBackup.{
  InstanceCall, upload_panel, exec_panel, measure_panel, InstanceInputs, is_instance_backup_due,
  instance_backups_to_delete,
}
use yeah.InstanceBackup.Job.{
  instance_backup, instance_body, instance_failure, dump_and_upload, upload_whole, delete_keys,
}
use yeah.InstanceBackup.Staging.{uploads_panel, removes_copy, instance_backup-removes_copy}
use yeah.InstanceBackup.Stored.{succeeds_instance, uploaded_panel, instance_backup_uploaded}

abbrev forced : InstanceInputs
forced = record {
  schedule = record {
    enabled = false;
    storage_id = some (codes "s3");
    hour_utc = 3;
    last_at = none;
  };
  retention = 1;
  now = 0;
  force = true;
  has_storage_row = true;
  has_host_row = true;
  listed = [];
}

-- Stands for the runtime's parser of numbers: here the number of characters.
abbrev unary : Text → ℕ
unary [] = 0
unary (c ∷ rest) = unary rest + 1

abbrev sends : Reply → InstanceCall → Reply
sends reply (exec_panel measure_panel) = answered 0 (codes "ab")
sends reply upload_panel = reply
sends reply effect = answered 0 []

abbrev sending : Reply → World InstanceCall
sending reply h effect = sends reply effect

whole_upload :
    any succeeds_instance (instance_backup (sending (answered 2 [])) unary forced []).0 ≡ true
unfolding instance_backup instance_body instance_failure dump_and_upload upload_whole delete_keys
    is_instance_backup_due instance_backups_to_delete attempt call note catch finally checked ensure
    trim is_space sort_by put_in
whole_upload = refl

short_upload :
    any succeeds_instance (instance_backup (sending (answered 1 [])) unary forced []).0 ≡ false
unfolding instance_backup instance_body instance_failure dump_and_upload upload_whole delete_keys
    is_instance_backup_due instance_backups_to_delete attempt call note catch finally checked ensure
    trim is_space sort_by put_in
short_upload = refl

abbrev older : Text
older = codes "yeah-instance/yeah-20260101-030000.sql.gz"

abbrev newer : Text
newer = codes "yeah-instance/yeah-20260102-030000.sql.gz"

keeps_newest : instance_backups_to_delete (older ∷ codes "other" ∷ newer ∷ []) 1 ≡ older ∷ []
unfolding instance_backups_to_delete equal starts_with sort_by put_in
keeps_newest = refl

instance_backup-removes_copy_example :
    pending uploads_panel removes_copy (instance_backup (sending threw) unary forced []).0 ≡ false
instance_backup-removes_copy_example = instance_backup-removes_copy (sending threw) unary forced

instance_backup_uploaded_example :
    preceded succeeds_instance uploaded_panel
      (instance_backup (sending (answered 2 [])) unary forced []).0
    ≡ true
instance_backup_uploaded_example = instance_backup_uploaded (sending (answered 2 [])) unary forced
