-- ===== src/PlatformUpdate/Finish.antt =====
-- platformOperation.ts: what the success of an operation stands on.
use yeah.Base.{
  ◌-◌, Bool, true, false, ◌&&◌, ◌||◌, not, [], ◌∷◌, Text, ◌==◌, ltb, contains, if◌then◌else◌, ◌≡◌,
  refl,
}
use yeah.Program.{World, Event, History, Reply, threw, answered, is_zero, act, call, only_if, note}
use yeah.Program.Order.{preceded, Safe, Ready, Safe-more}
use yeah.Program.Logic.{
  Assertion, Leads, Keeps, bind, give, branch, catching, finally_done, outcome, noted, calls,
  bind_call, weaken,
}
use yeah.Program.Success.{sound, backed, asked}
use yeah.PlatformUpdate.{
  PlatformCall, set_operation, publish_operation, store_log, publish_log, read_log, requeue,
  read_host, connect_host, exec_host, tail_log, update_system, launch_update, operation_success,
  operation_failed, operation_running, operation_queued, OperationStatus, OperationKind,
  system_update, platform_update, PlatformInputs, LogLine, connect_error, call_error, not_launched,
  timed_out, end_host,
}
use yeah.PlatformUpdate.Job.{
  append_log, finish_operation, connect_to_host, update_on_host, run_system_update, launch_on_host,
  launch_platform_update, poll_on_host, poll_platform_update, run_kind, platform_operation,
  launched_word, give_up, launch_timeout_ms, run_platform_update, ok_marker, fail_marker,
}

abbrev stores_success : PlatformCall → Bool
stores_success (set_operation operation_success) = true
stores_success _ = false

abbrev pub succeeds_operation : Event PlatformCall → Bool
succeeds_operation e = stores_success e.effect

abbrev output_of : Reply → Text
output_of threw = []
output_of (answered code output) = output

abbrev proof_in : PlatformCall → Reply → Bool
proof_in (exec_host update_system) reply = is_zero reply
proof_in (exec_host tail_log) reply = contains ok_marker (output_of reply)
proof_in _ reply = false

-- The update of the system exits with 0, or the log of the launched update holds its mark of success.
abbrev pub proves_operation : Event PlatformCall → Bool
proves_operation e = proof_in e.effect e.reply

abbrev Sound : Assertion PlatformCall
Sound = Safe succeeds_operation proves_operation

abbrev Proved : Assertion PlatformCall
Proved = Ready succeeds_operation proves_operation

-- What holds behind a command that proves the success if `b`.
abbrev Either : Bool → Assertion PlatformCall
Either true = Proved
Either false = Sound

Either-Sound : (b : Bool) (h : History PlatformCall) → Either b h → Sound h
Either-Sound true h p = p.0
Either-Sound false h s = s

module _ (world : World PlatformCall) where
  goes :
      (effect : PlatformCall)
      → stores_success effect ≡ false
      → Keeps {F = Unit} Sound (act world effect)
  goes effect other = sound succeeds_operation proves_operation world effect (λ h. other)

  finish_failed : Keeps Sound (finish_operation world operation_failed)
  unfolding finish_operation
  finish_failed =
      bind (goes (set_operation operation_failed) refl)
        (λ _. goes (publish_operation operation_failed) refl)

  finish_success : Leads Proved Sound Sound (finish_operation world operation_success)
  unfolding finish_operation
  finish_success =
      bind (backed succeeds_operation proves_operation world (set_operation operation_success))
        (λ _.
          weaken (λ h p. p) (λ h p. p.0) (λ h s. s)
            (backed succeeds_operation proves_operation world
              (publish_operation operation_success)))

  append_Leads : (line : LogLine) → Keeps Sound (append_log world line)
  unfolding append_log
  append_Leads line = bind (goes (store_log line) refl) (λ _. goes (publish_log line) refl)

  give_up_Leads : (line : LogLine) → Keeps Sound (give_up world line)
  give_up_Leads line = bind (append_Leads line) (λ _. finish_failed)

  connect_Leads : (has_host : Bool) → Keeps Sound (connect_to_host world has_host)
  unfolding connect_to_host
  connect_Leads has_host =
      bind (goes read_host refl)
        (λ _. branch has_host (catching (bind (goes connect_host refl) (λ _. give)) give) give)

  leave_Leads : Keeps {F = Unit} Sound (note end_host)
  leave_Leads = noted end_host (λ h s.
      Safe-more succeeds_operation proves_operation
        (record { effect = end_host; reply = answered 0 [] }) h refl s)

  kept :
      (effect : PlatformCall) (h : History PlatformCall) (r : Reply)
      → stores_success effect ≡ false
      → Sound h
      → Sound (record { effect = effect; reply = r } ∷ h)
  kept effect h r other s =
      Safe-more succeeds_operation proves_operation (record { effect = effect; reply = r }) h other
        s

  -- The success is stored only if the command proves it.
  decided :
      (b : Bool)
      → Leads
          (Either b)
          Sound
          Sound
          (finish_operation world (if b then operation_success else operation_failed))
  decided true = finish_success
  decided false = finish_failed

  proved :
      (b : Bool) (effect : PlatformCall) (h : History PlatformCall) (r : Reply)
      → stores_success effect ≡ false
      → proof_in effect r ≡ b
      → Sound h
      → Either b (record { effect = effect; reply = r } ∷ h)
  proved true effect h r other here s = (kept effect h r other s, rw here refl)
  proved false effect h r other here s = kept effect h r other s

  update_Leads : Keeps Sound (update_on_host world)
  unfolding update_on_host
  update_Leads =
      bind_call world (λ code output. Either (code == 0)) (exec_host update_system) _
        (λ h r s. kept (exec_host update_system) h r refl s)
        (λ h code output s.
          proved (code == 0) (exec_host update_system) h (answered code output) refl refl s)
        (λ code output. decided (code == 0))

  launch_Leads : Keeps Sound (launch_on_host world)
  unfolding launch_on_host
  launch_Leads =
      bind_call world (λ code output. Sound) (exec_host launch_update) _
        (λ h r s. kept (exec_host launch_update) h r refl s)
        (λ h code output s. kept (exec_host launch_update) h (answered code output) refl s)
        (λ code output.
          branch (not (code == 0) || not (contains launched_word output))
            (give_up_Leads not_launched)
            (bind (goes (set_operation operation_running) refl) (λ _.
              bind (goes (publish_operation operation_running) refl) (λ _. goes requeue refl))))

  -- What a poll does with the log that it has read.
  read_Leads :
      (b : Bool) (remote : Text)
      → Leads (Either b) Sound Sound (
          if b
          then finish_operation world operation_success
          else if contains fail_marker remote
          then finish_operation world operation_failed
          else act world requeue)
  read_Leads true remote = finish_success
  read_Leads false remote = branch (contains fail_marker remote) finish_failed (goes requeue refl)

  keeps_either :
      (b : Bool) (effect : PlatformCall)
      → stores_success effect ≡ false
      → Leads {F = Unit} (Either b) (Either b) Sound (act world effect)
  keeps_either true effect other = backed succeeds_operation proves_operation world effect
  keeps_either false effect other = goes effect other

  append_either :
      (b : Bool) (line : LogLine) → Leads (Either b) (Either b) Sound (append_log world line)
  unfolding append_log
  append_either b line =
      bind (keeps_either b (store_log line) refl) (λ _. keeps_either b (publish_log line) refl)

  only_either :
      (b test : Bool) (line : LogLine)
      → Leads (Either b) (Either b) Sound (only_if test (append_log world line))
  only_either b true line = append_either b line
  only_either b false line = give

  asked_either : (b : Bool) → Leads {F = Unit} (Either b) (Either b) Sound (call world read_log)
  asked_either true = asked succeeds_operation proves_operation world read_log
  asked_either false =
      calls world read_log (λ h s. kept read_log h (world h read_log) refl s)
        (λ h s. kept read_log h (world h read_log) refl s)

  poll_Leads : Keeps Sound (poll_on_host world)
  unfolding poll_on_host
  poll_Leads =
      bind_call world (λ code output. Either (contains ok_marker output)) (exec_host tail_log) _
        (λ h r s. kept (exec_host tail_log) h r refl s)
        (λ h code output s.
          proved (contains ok_marker output) (exec_host tail_log) h (answered code output) refl refl
            s)
        (λ code output. bind (asked_either (contains ok_marker output)) (λ current.
          bind (only_either (contains ok_marker output) _ _)
            (λ _. read_Leads (contains ok_marker output) output)))

  system_Leads : (inputs : PlatformInputs) → Keeps Sound (run_system_update world inputs)
  unfolding run_system_update
  system_Leads inputs = bind (goes (set_operation operation_running) refl) (λ _.
      bind (goes (publish_operation operation_running) refl) (λ _.
        bind (connect_Leads inputs.has_host) (λ connected.
          branch connected
            (finally_done (catching update_Leads (give_up_Leads call_error)) leave_Leads
              leave_Leads)
            (give_up_Leads connect_error))))

  launch_update_Leads :
      (inputs : PlatformInputs) → Keeps Sound (launch_platform_update world inputs)
  unfolding launch_platform_update
  launch_update_Leads inputs = bind (connect_Leads inputs.has_host) (λ connected.
      branch connected
        (finally_done (catching launch_Leads (give_up_Leads call_error)) leave_Leads leave_Leads)
        (give_up_Leads connect_error))

  poll_update_Leads : (inputs : PlatformInputs) → Keeps Sound (poll_platform_update world inputs)
  unfolding poll_platform_update
  poll_update_Leads inputs =
      branch (inputs.has_started && ltb launch_timeout_ms (inputs.now - inputs.started_at))
        (give_up_Leads timed_out)
        (bind (connect_Leads inputs.has_host) (λ connected.
          branch connected (finally_done poll_Leads leave_Leads leave_Leads) (goes requeue refl)))

  platform_Leads :
      (inputs : PlatformInputs) (status : OperationStatus)
      → Keeps Sound (run_platform_update world inputs status)
  platform_Leads inputs operation_queued = launch_update_Leads inputs
  platform_Leads inputs operation_running = poll_update_Leads inputs
  platform_Leads inputs operation_success = give
  platform_Leads inputs operation_failed = give

  kind_Leads :
      (inputs : PlatformInputs) (kind : OperationKind) → Keeps Sound (run_kind world inputs kind)
  kind_Leads inputs system_update = system_Leads inputs
  kind_Leads inputs platform_update = platform_Leads inputs inputs.status

  -- Whatever the calls answer or throw, the success of an operation is stored only after the update of the
  -- system has exited with 0, or after the log of the launched update was read with its mark of success.
  pub platform_operation-proved :
      (inputs : PlatformInputs)
      → preceded succeeds_operation proves_operation (platform_operation world inputs []).0 ≡ true
  unfolding platform_operation
  platform_operation-proved inputs = outcome (kind_Leads inputs inputs.kind) [] refl
