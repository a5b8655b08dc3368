-- ===== src/Restore/Steps.antt =====
-- restoreDatabase.ts: what the success of a restore stands on.
use yeah.Base.{
  Bool, true, false, ◌&&◌, ◌||◌, not, List, [], ◌∷◌, Text, ◌==◌, equal, trim, any, ◌≡◌, refl,
  Bool-cases, inl, inr, arith,
}
use yeah.Program.{World, Event, History, Reply, answered, is_zero, only_if, act, note}
use yeah.Program.Order.{preceded, Safe, Ready, Safe-more, Ready-more}
use yeah.Program.Logic.{
  Assertion, Leads, Keeps, bind, give, branch, only, outcome, noted, attempted, catching,
  finally_done, bind_call, weaken,
}
use yeah.Program.Steps.{ensure, ensure-Keeps, ensure_false, when-Leads}
use yeah.Program.Success.{sound, backed, late, closing}
use yeah.Restore.{
  RestoreStep, RestoreCommand, make_backups_folder, check_file, remove_temp, restore_step,
  RestoreLine, restore_running, restore_output, restore_downloading, restore_completed,
  restore_failed, execution_row, schedule_row, restore_storage, restore_is_running, restore_success,
  restore_failure, RestoreCall, RestoreError, set_restore, save_restore_log, read_restore,
  connect_restore, end_restore, download_restore, notify_restore, keep_temp, exec_restore,
  restore_exited, RestoreSource, uploaded_file, stored_backup, RestoreInputs,
}
use yeah.Restore.Job.{
  connects_restore, ends_restore, has_temp, run_restore, fetch_backup, fetch_from, run_steps_of,
  restore_body, restore_fails, leave_restore, restore_database,
}

abbrev stores_restore : RestoreCall → Bool
stores_restore (set_restore restore_success) = true
stores_restore _ = false

abbrev pub succeeds_restore : Event RestoreCall → Bool
succeeds_restore e = stores_restore e.effect

abbrev is_step : Text → RestoreCall → Bool
is_step label (exec_restore (restore_step other)) = equal label other
is_step label _ = false

-- The step exited with 0.
abbrev pub step_passed : Text → Event RestoreCall → Bool
step_passed label e = is_step label e.effect && is_zero e.reply

abbrev is_needed : Text → RestoreStep → Bool
is_needed label step = equal label step.label && not step.allow_failure

-- One of the steps has the label and may not fail.
abbrev pub needs_step : Text → List RestoreStep → Bool
needs_step label steps = any (is_needed label) steps

module _ (label : Text) where
  abbrev Sound : Assertion RestoreCall
  Sound = Safe succeeds_restore (step_passed label)

  abbrev Passed : Assertion RestoreCall
  Passed = Ready succeeds_restore (step_passed label)

  module _ (world : World RestoreCall) where
    goes :
        (effect : RestoreCall)
        → stores_restore effect ≡ false
        → Keeps {F = RestoreError} Sound (act world effect)
    goes effect other = sound succeeds_restore (step_passed label) world effect (λ h. other)

    more : (effect : RestoreCall) → Leads {F = RestoreError} Passed Passed Sound (act world effect)
    more effect = backed succeeds_restore (step_passed label) world effect

    kept :
        (command : RestoreCommand) (h : History RestoreCall) (r : Reply)
        → Sound h
        → Sound (record { effect = exec_restore command; reply = r } ∷ h)
    kept command h r s =
        Safe-more succeeds_restore (step_passed label)
          (record { effect = exec_restore command; reply = r }) h refl s

    run-Keeps :
        (command : RestoreCommand) (allowed : Bool)
        → Keeps Sound (run_restore world command allowed)
    unfolding run_restore
    run-Keeps command allowed = bind (goes (save_restore_log (restore_running command)) refl) (λ _.
        bind_call world (λ code output. Sound) (exec_restore command) _ (kept command)
          (λ h code output s. kept command h (answered code output) s)
          (λ code output.
            bind
              (only (not (equal (trim output) []))
                (goes (save_restore_log (restore_output output)) refl))
              (λ _. ensure-Keeps _ _)))

    run_late :
        (command : RestoreCommand) (allowed : Bool)
        → Leads Passed Passed Sound (run_restore world command allowed)
    unfolding run_restore
    run_late command allowed = bind (more (save_restore_log (restore_running command))) (λ _.
        bind_call world (λ code output. Passed) (exec_restore command) _
          (λ h r p.
            (Ready-more succeeds_restore (step_passed label)
              (record { effect = exec_restore command; reply = r }) h p).0)
          (λ h code output p.
            Ready-more succeeds_restore (step_passed label)
              (record { effect = exec_restore command; reply = answered code output }) h p)
          (λ code output.
            bind (once (not (equal (trim output) [])) (restore_output output))
              (λ _. late succeeds_restore (step_passed label) (ensure-Keeps _ _))))
      where
        once :
            (test : Bool) (line : RestoreLine)
            → Leads {F = RestoreError} Passed Passed Sound
                (only_if test (act world (save_restore_log line)))
        once true line = more (save_restore_log line)
        once false line = give

    -- The step that is needed passes.
    run_needed :
        (step : RestoreStep)
        → is_needed label step ≡ true
        → Leads Sound Passed Sound (run_restore world (restore_step step.label) step.allow_failure)
    unfolding run_restore
    run_needed step needed =
        bind (goes (save_restore_log (restore_running (restore_step step.label))) refl) (λ _.
          bind_call world (λ code output. Either (code == 0))
            (exec_restore (restore_step step.label)) _ (kept (restore_step step.label))
            (λ h code output s. told (code == 0) h (answered code output) refl s)
            (λ code output.
              bind (once (code == 0) (not (equal (trim output) [])) (restore_output output))
                (λ _. ended (code == 0) (restore_exited (restore_step step.label) code))))
      where
        Either : Bool → Assertion RestoreCall
        Either true = Passed
        Either false = Sound

        told :
            (b : Bool) (h : History RestoreCall) (r : Reply)
            → is_zero r ≡ b
            → Sound h
            → Either b (record { effect = exec_restore (restore_step step.label); reply = r } ∷ h)
        told true h r zero_code s = (kept (restore_step step.label) h r s, ground arith)
        told false h r other s = kept (restore_step step.label) h r s

        once :
            (b test : Bool) (line : RestoreLine)
            → Leads {F = RestoreError}
                (Either b)
                (Either b)
                Sound
                (only_if test (act world (save_restore_log line)))
        once true true line = more (save_restore_log line)
        once true false line = give
        once false true line = goes (save_restore_log line) refl
        once false false line = give

        strict : step.allow_failure ≡ false
        strict = ground arith

        ended :
            (b : Bool) (error : RestoreError)
            → Leads (Either b) Passed Sound (ensure (b || step.allow_failure) error)
        ended true error = late succeeds_restore (step_passed label) (ensure-Keeps _ _)
        ended false error = rw strict (ensure_false {P = Sound} error)

    steps-Keeps : (steps : List RestoreStep) → Keeps Sound (run_steps_of world steps)
    unfolding run_steps_of
    steps-Keeps [] = give
    steps-Keeps (step ∷ rest) =
        bind (run-Keeps (restore_step step.label) step.allow_failure) (λ _. steps-Keeps rest)

    steps_late : (steps : List RestoreStep) → Leads Passed Passed Sound (run_steps_of world steps)
    unfolding run_steps_of
    steps_late [] = give
    steps_late (step ∷ rest) =
        bind (run_late (restore_step step.label) step.allow_failure) (λ _. steps_late rest)

    steps_needed :
        (steps : List RestoreStep)
        → needs_step label steps ≡ true
        → Leads Sound Passed Sound (run_steps_of world steps)
    unfolding run_steps_of
    steps_needed [] needed = absurd (ground arith)
    steps_needed (step ∷ rest) needed = elim (Bool-cases (is_needed label step)) [
      | inl here ↦ bind (run_needed step here) (λ _. steps_late rest)
      | inr other ↦
          bind (run-Keeps (restore_step step.label) step.allow_failure)
            (λ _. steps_needed rest (rw other at needed))
    ]

    marked : Keeps {F = RestoreError} Sound (note keep_temp)
    marked = noted keep_temp (λ h s.
        Safe-more succeeds_restore (step_passed label)
          (record { effect = keep_temp; reply = answered 0 [] }) h refl s)

    fetch_from-Keeps :
        (inputs : RestoreInputs) (source : RestoreSource)
        → Keeps Sound (fetch_from world inputs source)
    unfolding fetch_backup
    fetch_from-Keeps inputs uploaded_file = marked
    fetch_from-Keeps inputs stored_backup = bind (goes (read_restore execution_row) refl) (λ _.
        bind (ensure-Keeps _ _) (λ _. bind (goes (read_restore schedule_row) refl) (λ _.
          bind (ensure-Keeps _ _) (λ _.
            branch inputs.in_s3
              (bind (goes (read_restore restore_storage) refl) (λ _. bind (ensure-Keeps _ _) (λ _.
                bind (goes (save_restore_log restore_downloading) refl)
                  (λ _. bind (goes download_restore refl) (λ _. marked)))))
              (run-Keeps check_file false)))))

    body_needed :
        (inputs : RestoreInputs)
        → needs_step label inputs.steps ≡ true
        → Leads Sound Sound Sound (restore_body world inputs)
    unfolding restore_body
    body_needed inputs needed = bind (goes connect_restore refl) (λ _.
        bind (run-Keeps make_backups_folder false) (λ _.
          bind (fetch_from-Keeps inputs inputs.source) (λ _.
            bind (steps_needed inputs.steps needed) (λ _.
              bind (more (save_restore_log restore_completed)) (λ _.
                weaken (λ h p. p) (λ h p. p.0) (λ h s. s) (more (set_restore restore_success)))))))

    fails-Keeps : Keeps Sound (restore_fails world)
    unfolding restore_fails
    fails-Keeps =
        bind (goes (save_restore_log restore_failed) refl)
          (λ _. bind (goes (set_restore restore_failure) refl) (λ _. goes notify_restore refl))

    leave-Keeps : Keeps Sound (leave_restore world)
    unfolding leave_restore
    leave-Keeps =
        bind (when-Leads has_temp _ (attempted (goes (exec_restore remove_temp) refl))) (λ _.
          closing succeeds_restore (step_passed label) connects_restore ends_restore end_restore
            refl)

    -- Whatever the calls answer or throw, the success of a restore is stored only after every step that may not
    -- fail has exited with 0.
    pub restore_database-passes :
        (inputs : RestoreInputs)
        → needs_step label inputs.steps ≡ true
        → preceded succeeds_restore (step_passed label) (restore_database world inputs []).0 ≡ true
    unfolding restore_database
    restore_database-passes inputs needed =
        outcome
          (bind (goes (set_restore restore_is_running) refl) (λ _.
            branch inputs.has_rows
              (finally_done (catching (body_needed inputs needed) fails-Keeps) leave-Keeps
                leave-Keeps)
              (goes (set_restore restore_failure) refl)))
          [] refl
