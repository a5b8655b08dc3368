-- ===== src/Tasks/Job.antt =====
-- scheduledTask.ts: the job. `old_runs` are the executions behind the newest fifty.
use yeah.Base.{
  Bool, true, false, ◌&&◌, ◌||◌, not, some, truthy, List, [], ◌∷◌, Text, ◌==◌, if◌then◌else◌,
}
use yeah.Program.{World, ◌>>=◌, ◌>>◌, pure, only_if, call, act, catch, finally, note}
use yeah.Program.Steps.{end_open}
use yeah.Tasks.{
  TaskStatus, task_success, task_failed, TaskOutcome, task_timeout, task_threw, task_exited,
  TaskCall, insert_run, connect_task, end_task, run_task, abandon_task, finish_task, read_old_runs,
  delete_run, notify_task, forward_task_log, TaskJob, TaskInputs,
}

abbrev pub connects_task : TaskCall → Bool
connects_task connect_task = true
connects_task _ = false

abbrev pub ends_task : TaskCall → Bool
ends_task end_task = true
ends_task _ = false

-- The text `failure` is set and not empty: an error without a message leaves it empty.
abbrev pub has_failure : TaskOutcome → Bool
has_failure task_timeout = true
has_failure (task_exited code) = not (code == 0)
has_failure (task_threw message) = truthy (some message)

abbrev pub task_status : TaskOutcome → TaskStatus
task_status outcome = if has_failure outcome then task_failed else task_success

module _ (world : World TaskCall) where
  -- The race of the command and the timer. A command that is still running is ended with its connection.
  unfoldable pub race_task : Bool → TaskJob TaskOutcome
  race_task times_out = do
    act world connect_task
    (if times_out
        then (do note abandon_task; note end_task; pure task_timeout)
        else (do result ← call world run_task; pure (task_exited result.0)))

  unfoldable pub run_in_time : Bool → Text → TaskJob TaskOutcome
  run_in_time times_out message =
      finally (catch (race_task times_out) (pure (task_threw message)))
        (end_open connects_task ends_task end_task)

  unfoldable pub delete_runs : List Text → TaskJob Unit
  delete_runs [] = pure tt
  delete_runs (id ∷ rest) = act world (delete_run id) >> delete_runs rest

  unfoldable pub report_task : TaskInputs → TaskOutcome → TaskJob Unit
  report_task inputs outcome = do
    act world (finish_task (task_status outcome))
    act world read_old_runs
    delete_runs inputs.old_runs
    act world (notify_task (task_status outcome))
    act world (forward_task_log (task_status outcome))

  -- The job of a task that exists.
  unfoldable pub scheduled_task : TaskInputs → TaskJob Unit
  scheduled_task inputs =
      only_if
        ((inputs.enabled || inputs.manual) && inputs.has_application && inputs.has_task_server)
        (do
          act world insert_run
          only_if inputs.inserted
              (run_in_time inputs.times_out inputs.error_message >>= report_task inputs))
