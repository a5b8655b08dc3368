-- ===== src/Tasks/Finish.antt =====
-- scheduledTask.ts: the one status of every run.
use yeah.Base.{Bool, true, false, ◌&&◌, ◌||◌, List, [], ◌∷◌, Text, ◌≡◌, refl}
use yeah.Program.{World, Event, History, is_answered, act}
use yeah.Program.Order.{Count, count_of}
use yeah.Program.Logic.{
  Assertion, Leads, Keeps, bind, give, branch, taken, event_of, catching, finally_done, outcome,
  noted, calls, answers, acts,
}
use yeah.Program.Steps.{end_open, end_open-Keeps}
use yeah.Tasks.{
  TaskOutcome, TaskCall, insert_run, connect_task, end_task, run_task, abandon_task, finish_task,
  read_old_runs, delete_run, notify_task, forward_task_log, TaskInputs,
}
use yeah.Tasks.Job.{
  connects_task, ends_task, task_status, race_task, run_in_time, delete_runs, report_task,
  scheduled_task,
}

abbrev ends_run : TaskCall → Bool
ends_run (finish_task status) = true
ends_run _ = false

abbrev pub finishes_run : Event TaskCall → Bool
finishes_run e = ends_run e.effect

-- The calls of the panel itself.
abbrev pub is_own : TaskCall → Bool
is_own connect_task = false
is_own end_task = false
is_own run_task = false
is_own abandon_task = false
is_own _ = true

abbrev pub runs_now : TaskInputs → Bool
runs_now inputs =
    (inputs.enabled || inputs.manual) && inputs.has_application && inputs.has_task_server

abbrev None : Assertion TaskCall
None = Count finishes_run 0

abbrev One : Assertion TaskCall
One = Count finishes_run 1

abbrev Never : Assertion TaskCall
Never h = ⊥

module _ (world : World TaskCall)
    (answering : (h : History TaskCall) (effect : TaskCall)
      → is_own effect ≡ true
      → is_answered (world h effect) ≡ true) where
  own :
      (P Q X : Assertion TaskCall) (effect : TaskCall)
      → is_own effect ≡ true
      → ((h : History TaskCall) → P h → Q (event_of world effect h ∷ h))
      → Leads {F = Unit} P Q X (act world effect)
  own P Q X effect mine q = answers world effect (λ h. answering h effect mine) q

  race_Leads : (times_out : Bool) → Keeps None (race_task world times_out)
  unfolding race_task
  race_Leads times_out = bind (acts world connect_task (λ h p. p) (λ h p. p)) (λ _.
      branch times_out
        (bind (noted abandon_task (λ h p. p)) (λ _. bind (noted end_task (λ h p. p)) (λ _. give)))
        (bind (calls world run_task (λ h p. p) (λ h p. p)) (λ result. give)))

  in_time_Leads :
      (times_out : Bool) (message : Text)
      → Leads None None One (run_in_time world times_out message)
  unfolding run_in_time
  in_time_Leads times_out message =
      finally_done {Y = Never} (catching (race_Leads times_out) give)
        (end_open-Keeps connects_task ends_task end_task (λ h p. p)) unthrown
    where
      unthrown : Leads {F = Unit} Never One One (end_open connects_task ends_task end_task)
      unthrown = record { runs = λ h n. absurd n }

  delete_runs_Leads : (ids : List Text) → Keeps One (delete_runs world ids)
  unfolding delete_runs
  delete_runs_Leads [] = give
  delete_runs_Leads (id ∷ rest) =
      bind (own One One One (delete_run id) refl (λ h p. p)) (λ _. delete_runs_Leads rest)

  report_Leads :
      (inputs : TaskInputs) (o : TaskOutcome) → Leads None One One (report_task world inputs o)
  unfolding report_task
  report_Leads inputs o =
      bind (own None One One (finish_task (task_status o)) refl (λ h p. rw p refl)) (λ _.
        bind (own One One One read_old_runs refl (λ h p. p)) (λ _.
          bind (delete_runs_Leads inputs.old_runs) (λ _.
            bind (own One One One (notify_task (task_status o)) refl (λ h p. p))
              (λ _. own One One One (forward_task_log (task_status o)) refl (λ h p. p)))))

  -- Where the panel's own calls do not throw, a run of a task that is enabled (or run by hand), whose
  -- application and server exist and whose execution was inserted, stores exactly one end status, whatever
  -- the server answers or throws and whether or not the time limit ends first.
  pub scheduled_task-finishes :
      (inputs : TaskInputs)
      → runs_now inputs ≡ true
      → inputs.inserted ≡ true
      → count_of finishes_run (scheduled_task world inputs []).0 ≡ 1
  unfolding scheduled_task
  scheduled_task-finishes inputs now here =
      outcome
        (taken _ now (
          bind (own None None One insert_run refl (λ h p. p)) (λ _. taken _ here (
            bind (in_time_Leads inputs.times_out inputs.error_message)
              (λ o. report_Leads inputs o)))))
        [] refl
