-- ===== src/InstanceBackup.antt =====
-- apps/worker/src/jobs/instanceBackup.ts and packages/shared/src/instanceBackup.ts: the backup of the
-- panel's own database to S3.
pub mod Job
pub mod Staging
pub mod Stored
mod Tests
use Prim.Native.Nat.{Ordering}
use yeah.Base.{
  ℕ, ◌+◌, ◌*◌, ◌-◌, ◌/◌, ◌%◌, compare, Bool, true, false, ◌&&◌, ◌||◌, not, Option, none, some, List,
  [], ◌∷◌, Text, codes, ◌==◌, ltb, leb, truthy, is_digit, all, take, drop, equal, length,
  starts_with, select, sort_by, reverse, then_by, if◌then◌else◌,
}
use yeah.Program.{Program}

abbrev pub instance_backup_prefix : Text
instance_backup_prefix = codes "yeah-instance/"

abbrev pub min_gap_ms : ℕ
min_gap_ms = 20 * 60 * 60 * 1000

pub record InstanceBackupSchedule : Type 0 where
  pub enabled : Bool
  pub storage_id : Option Text
  pub hour_utc : ℕ
  pub last_at : Option ℕ

-- The hour of the day of a time in milliseconds.
abbrev pub utc_hours : ℕ → ℕ
utc_hours now = now / (60 * 60 * 1000) % 24

-- The last backup is not after the clock, so that the difference is the one on numbers.
abbrev pub is_spaced : ℕ → Option ℕ → Bool
is_spaced now none = true
is_spaced now (some last) = leb min_gap_ms (now - last)

unfoldable pub is_instance_backup_due : ℕ → InstanceBackupSchedule → Bool → Bool
is_instance_backup_due now s force =
    if not (truthy s.storage_id)
    then false
    else if force
    then true
    else if not s.enabled
    then false
    else (utc_hours now == s.hour_utc) && is_spaced now s.last_at

-- `yeah-instance/yeah-`, eight digits, a dash, six digits and `.sql.gz`.
abbrev pub is_our_key : Text → Bool
is_our_key key =
    starts_with (codes "yeah-instance/yeah-") key
    && (length key == 41)
    && all is_digit (take 8 (drop 19 key))
    && equal (take 1 (drop 27 key)) (codes "-")
    && all is_digit (take 6 (drop 28 key))
    && equal (drop 34 key) (codes ".sql.gz")

-- The order of texts by their code units.
abbrev pub text_order : Text → Text → Ordering
text_order [] [] = Ordering.eq
text_order [] (y ∷ ys) = Ordering.lt
text_order (x ∷ xs) [] = Ordering.gt
text_order (x ∷ xs) (y ∷ ys) = then_by (compare x y) (text_order xs ys)

-- A count that is below zero is not stored.
unfoldable pub instance_backups_to_delete : List Text → ℕ → List Text
instance_backups_to_delete keys keep =
    drop keep (reverse (sort_by text_order (select is_our_key keys)))

pub data InstanceCommand : Type 0 where
  dump_panel measure_panel : InstanceCommand

-- `upload_panel` answers with the number of bytes that it sent.
pub data InstanceCall : Type 0 where
  store_running store_failed notify_failure : InstanceCall
  store_backup : ℕ → InstanceCall
  connect_panel end_panel open_dump upload_panel remove_copy list_backups : InstanceCall
  exec_panel : InstanceCommand → InstanceCall
  delete_key : Text → InstanceCall

pub data InstanceError : Type 0 where
  no_storage no_host dump_failed : InstanceError
  sent_wrong : ℕ → ℕ → InstanceError

abbrev pub InstanceJob : Type 0 → Type 0
InstanceJob = Program InstanceCall InstanceError

-- The settings and the rows, and the keys that the listing finds. `has_team` tells whether a team to
-- notify is known.
pub record InstanceInputs : Type 0 where
  pub schedule : InstanceBackupSchedule
  pub retention : ℕ
  pub now : ℕ
  pub force : Bool
  pub has_storage_row : Bool
  pub has_host_row : Bool
  pub listed : List Text
