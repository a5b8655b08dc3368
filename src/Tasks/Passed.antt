-- ===== src/Tasks/Passed.antt =====
-- scheduledTask.ts: what the success of a task stands on.
use yeah.Base.{
  Bool, true, false, ◌&&◌, not, some, truthy, ◌≢◌, List, [], ◌∷◌, Text, ◌==◌, if◌then◌else◌, ◌≡◌,
  refl,
}
use yeah.Program.{
  World, Event, History, Reply, threw, answered, next, replied, is_zero, act, call, pure,
}
use yeah.Program.Order.{preceded, Safe, Ready, Safe-more, Ready-more}
use yeah.Program.Logic.{Assertion, Leads, Keeps, bind, give, only, outcome, noted, weaken}
use yeah.Program.Steps.{end_open, end_open-Keeps}
use yeah.Program.Success.{sound, backed, closing}
use yeah.Program.Yields.{
  AfterValue, finally_yield, Yields, yield, bind_value, then_yield, catch_yield,
}
use yeah.Tasks.{
  task_success, task_failed, TaskOutcome, task_timeout, task_threw, task_exited, TaskCall,
  insert_run, connect_task, end_task, run_task, abandon_task, finish_task, read_old_runs,
  delete_run, notify_task, forward_task_log, TaskInputs,
}
use yeah.Tasks.Job.{
  connects_task, ends_task, task_status, has_failure, race_task, run_in_time, delete_runs,
  report_task, scheduled_task,
}

abbrev stores_task : TaskCall → Bool
stores_task (finish_task task_success) = true
stores_task _ = false

abbrev pub succeeds_task : Event TaskCall → Bool
succeeds_task e = stores_task e.effect

abbrev is_run : TaskCall → Bool
is_run run_task = true
is_run _ = false

abbrev pub task_passed : Event TaskCall → Bool
task_passed e = is_run e.effect && is_zero e.reply

abbrev Sound : Assertion TaskCall
Sound = Safe succeeds_task task_passed

abbrev Passed : Assertion TaskCall
Passed = Ready succeeds_task task_passed

abbrev Unless : Bool → Assertion TaskCall
Unless true = Sound
Unless false = Passed

-- What an outcome says: without a failure, the command has passed.
abbrev Says : TaskOutcome → Assertion TaskCall
Says o = Unless (has_failure o)

filled : (message : Text) → message ≢ [] → truthy (some message) ≡ true
filled [] given = absurd (given refl)
filled (c ∷ message) given = refl

module _ (world : World TaskCall) where
  goes :
      (effect : TaskCall) → stores_task effect ≡ false → Keeps {F = Unit} Sound (act world effect)
  goes effect other = sound succeeds_task task_passed world effect (λ h. other)

  kept :
      (effect : TaskCall) (h : History TaskCall) (r : Reply)
      → stores_task effect ≡ false
      → Sound h
      → Sound (record { effect = effect; reply = r } ∷ h)
  kept effect h r other s =
      Safe-more succeeds_task task_passed (record { effect = effect; reply = r }) h other s

  told :
      (b : Bool) (h : History TaskCall) (r : Reply)
      → is_zero r ≡ b
      → Sound h
      → Unless (not b) (record { effect = run_task; reply = r } ∷ h)
  told true h r zero_code s = (kept run_task h r refl s, rw zero_code refl)
  told false h r other s = kept run_task h r refl s

  race_Says : (times_out : Bool) → Yields Sound Says Sound (race_task world times_out)
  unfolding race_task call
  race_Says true = then_yield Sound Says (goes connect_task refl) (λ _.
      then_yield Sound Says (noted abandon_task (λ h s. kept abandon_task h (answered 0 []) refl s))
        (λ _.
          then_yield Sound Says (noted end_task (λ h s. kept end_task h (answered 0 []) refl s))
            (λ _. yield Says task_timeout (λ h s. s))))
  race_Says false =
      then_yield Sound Says (goes connect_task refl)
        (λ _. record { gives = λ h s. ran h (world h run_task) s })
    where
      ran :
          (h : History TaskCall) (r : Reply)
          → Sound h
          → AfterValue {F = Unit} Says Sound (
              next
                (record { effect = run_task; reply = r } ∷ h, replied r)
                (λ result. pure (task_exited result.0)))
      ran h threw s = kept run_task h threw refl s
      ran h (answered code output) s = told (code == 0) h (answered code output) refl s

  ending_Leads :
      (o : TaskOutcome)
      → Leads {F = Unit} (Says o) (Says o) Sound (end_open connects_task ends_task end_task)
  ending_Leads o = by (has_failure o)
    where
      by :
          (b : Bool)
          → Leads {F = Unit} (Unless b) (Unless b) Sound (end_open connects_task ends_task end_task)
      by false = end_open-Keeps connects_task ends_task end_task (λ h p.
          Ready-more succeeds_task task_passed (record { effect = end_task; reply = answered 0 [] })
            h p)
      by true = closing succeeds_task task_passed connects_task ends_task end_task refl

  in_time_Says :
      (times_out : Bool) (message : Text)
      → truthy (some message) ≡ true
      → Yields Sound Says Sound (run_in_time world times_out message)
  unfolding run_in_time
  in_time_Says times_out message told_why =
      finally_yield Sound Says
        (catch_yield Sound Says (race_Says times_out)
          (yield Says (task_threw message) (λ h s. rw told_why s)))
        ending_Leads (closing succeeds_task task_passed connects_task ends_task end_task refl)

  delete_runs-Keeps : (ids : List Text) → Keeps Sound (delete_runs world ids)
  unfolding delete_runs
  delete_runs-Keeps [] = give
  delete_runs-Keeps (id ∷ rest) = bind (goes (delete_run id) refl) (λ _. delete_runs-Keeps rest)

  finish_Leads :
      (o : TaskOutcome)
      → Leads {F = Unit} (Says o) Sound Sound (act world (finish_task (task_status o)))
  finish_Leads o = by (has_failure o)
    where
      by :
          (b : Bool)
          → Leads {F = Unit}
              (Unless b)
              Sound
              Sound
              (act world (finish_task (if b then task_failed else task_success)))
      by false =
          weaken (λ h p. p) (λ h p. p.0) (λ h s. s)
            (backed succeeds_task task_passed world (finish_task task_success))
      by true = goes (finish_task task_failed) refl

  report_Leads :
      (inputs : TaskInputs) (o : TaskOutcome)
      → Leads (Says o) Sound Sound (report_task world inputs o)
  unfolding report_task
  report_Leads inputs o = bind (finish_Leads o) (λ _. bind (goes read_old_runs refl) (λ _.
      bind (delete_runs-Keeps inputs.old_runs) (λ _.
        bind (goes (notify_task (task_status o)) refl)
          (λ _. goes (forward_task_log (task_status o)) refl))))

  -- Whatever the calls answer or throw, where an error that is thrown has a message that is not empty, the
  -- success of a scheduled task is stored only after its command has exited with 0: not where the time limit ends
  -- first, nor where the connection or the command throws.
  pub scheduled_task-passed :
      (inputs : TaskInputs)
      → inputs.error_message ≢ []
      → preceded succeeds_task task_passed (scheduled_task world inputs []).0 ≡ true
  unfolding scheduled_task
  scheduled_task-passed inputs given =
      outcome
        (only _ (
          bind (goes insert_run refl) (λ _. only inputs.inserted (
            bind_value Says
              (in_time_Says inputs.times_out inputs.error_message
                (filled inputs.error_message given))
              (λ o. report_Leads inputs o)))))
        [] refl
