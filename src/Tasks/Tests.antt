-- ===== src/Tasks/Tests.antt =====
-- Runs of a task, and the theorem at a concrete input.
use yeah.Base.{Bool, true, false, [], ◌∷◌, codes, any, arith, ◌≡◌, refl}
use yeah.Program.{
  History, Event, World, Reply, is_answered, answered, threw, call, note, catch, finally,
}
use yeah.Program.Steps.{is_open, end_open}
use yeah.Program.Order.{count_of, preceded}
use yeah.Tasks.{TaskCall, run_task, finish_task, task_success, TaskInputs}
use yeah.Tasks.Job.{scheduled_task, run_in_time, race_task, report_task, delete_runs}
use yeah.Tasks.Passed.{succeeds_task, task_passed, scheduled_task-passed}
use yeah.Tasks.Finish.{is_own, finishes_run, scheduled_task-finishes}

abbrev nightly : TaskInputs
nightly = record {
  enabled = true;
  manual = false;
  has_application = true;
  has_task_server = true;
  inserted = true;
  times_out = false;
  error_message = codes "Not connected";
  old_runs = codes "r1" ∷ [];
}

abbrev lost : TaskCall → Reply
lost run_task = threw
lost effect = answered 0 []

-- The connection is lost while the task runs.
abbrev dropping : World TaskCall
dropping h effect = lost effect

abbrev calm : World TaskCall
calm h effect = answered 0 []

abbrev is_success : TaskCall → Bool
is_success (finish_task task_success) = true
is_success _ = false

abbrev passes : Event TaskCall → Bool
passes e = is_success e.effect

calm_task : any passes (scheduled_task calm nightly []).0 ≡ true
unfolding scheduled_task run_in_time race_task report_task delete_runs call note catch finally
    is_open end_open
calm_task = refl

slow_task : any passes (scheduled_task calm (record nightly { times_out = true }) []).0 ≡ false
unfolding scheduled_task run_in_time race_task report_task delete_runs call note catch finally
    is_open end_open
slow_task = refl

lost_task : any passes (scheduled_task dropping nightly []).0 ≡ false
unfolding scheduled_task run_in_time race_task report_task delete_runs call note catch finally
    is_open end_open
lost_task = refl

-- An error without a message leaves no failure.
silent_task :
    any passes (scheduled_task dropping (record nightly { error_message = [] }) []).0 ≡ true
unfolding scheduled_task run_in_time race_task report_task delete_runs call note catch finally
    is_open end_open
silent_task = refl

dropping_answers :
    (h : History TaskCall) (effect : TaskCall)
    → is_own effect ≡ true
    → is_answered (dropping h effect) ≡ true
dropping_answers h run_task mine = absurd (ground arith)
dropping_answers h _ mine = refl

scheduled_task-finishes_example : count_of finishes_run (scheduled_task dropping nightly []).0 ≡ 1
scheduled_task-finishes_example =
    scheduled_task-finishes dropping dropping_answers nightly refl refl

scheduled_task-passed_example :
    preceded succeeds_task task_passed (scheduled_task calm nightly []).0 ≡ true
scheduled_task-passed_example = scheduled_task-passed calm nightly (λ e. cc)
