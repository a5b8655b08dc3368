-- ===== src/Restore/Tests.antt =====
-- Runs of a restore, and the theorem at a concrete input.
use yeah.Base.{if◌then◌else◌, true, false, [], ◌∷◌, codes, any, trim, equal, ◌≡◌, refl}
use yeah.Program.{World, Reply, answered, attempt, call, note, catch, finally}
use yeah.Program.Steps.{ensure, when, is_open, end_open}
use yeah.Program.Order.{preceded}
use yeah.Restore.{RestoreCall, exec_restore, restore_step, uploaded_file, RestoreInputs}
use yeah.Restore.Job.{
  restore_database, restore_body, restore_fails, leave_restore, run_restore, run_steps_of,
}
use yeah.Restore.Steps.{succeeds_restore, step_passed, restore_database-passes}

abbrev upload : RestoreInputs
upload = record {
  has_rows = true;
  source = uploaded_file;
  backup_ok = false;
  is_own = false;
  in_s3 = false;
  has_restore_storage = false;
  steps =
      record { label = codes "load"; allow_failure = false }
      ∷ record { label = codes "clean"; allow_failure = true }
      ∷ [];
}

abbrev fails_steps : RestoreCall → Reply
fails_steps (exec_restore (restore_step label)) =
    answered (if equal label (codes "clean") then 1 else 0) []
fails_steps effect = answered 0 []

-- The step that may fail does.
abbrev untidy : World RestoreCall
untidy h effect = fails_steps effect

untidy_restore : any succeeds_restore (restore_database untidy upload []).0 ≡ true
unfolding restore_database restore_body restore_fails leave_restore run_restore run_steps_of attempt
    call note catch finally ensure when is_open end_open trim equal
untidy_restore = refl

restore_database-passes_example :
    preceded succeeds_restore (step_passed (codes "load")) (restore_database untidy upload []).0
    ≡ true
unfolding equal
restore_database-passes_example = restore_database-passes (codes "load") untidy upload refl
