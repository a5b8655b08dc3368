-- ===== src/PlatformUpdate/Settle.antt =====
-- platformOperation.ts: an operation does not stay as it is: a run of the job ends it or polls again.
use yeah.Base.{
  ◌-◌, Bool, true, false, ◌&&◌, ◌||◌, not, [], ◌∷◌, any, ◌==◌, ltb, length, contains, if◌then◌else◌,
  ◌≡◌, refl, arith,
}
use yeah.Program.{answered, World, Event, History, is_answered, act, call, note}
use yeah.Program.Logic.{
  Assertion, Leads, Keeps, bind, give, branch, only, event_of, answers, answers_call, catching,
  finally_done, outcome, noted, acts, bind_call,
}
use yeah.PlatformUpdate.{
  PlatformCall, set_operation, publish_operation, store_log, publish_log, read_log, requeue,
  read_host, connect_host, exec_host, tail_log, update_system, launch_update, operation_success,
  operation_failed, operation_running, operation_queued, OperationStatus, OperationKind,
  system_update, platform_update, PlatformInputs, LogLine, connect_error, call_error, not_launched,
  timed_out, end_host,
}
use yeah.PlatformUpdate.Job.{
  append_log, finish_operation, connect_to_host, update_on_host, run_system_update, launch_on_host,
  launch_platform_update, poll_on_host, poll_platform_update, run_kind, platform_operation,
  launched_word, give_up, launch_timeout_ms, run_platform_update, ok_marker, fail_marker,
}

-- What has to answer: the panel's database, its event channel and its queue, and the command that reads the log of
-- a launched update.
abbrev pub is_reliable : PlatformCall → Bool
is_reliable connect_host = false
is_reliable end_host = false
is_reliable (exec_host tail_log) = true
is_reliable (exec_host _) = false
is_reliable _ = true

abbrev pub is_end : OperationStatus → Bool
is_end operation_success = true
is_end operation_failed = true
is_end _ = false

abbrev settles_call : PlatformCall → Bool
settles_call (set_operation status) = is_end status
settles_call requeue = true
settles_call _ = false

-- The operation is ended, or another run is queued.
abbrev pub settles : Event PlatformCall → Bool
settles e = settles_call e.effect && is_answered e.reply

abbrev pub is_over : OperationStatus → Bool
is_over operation_queued = false
is_over operation_running = false
is_over _ = true

abbrev Settled : Assertion PlatformCall
Settled h = any settles h ≡ true

abbrev Anything : Assertion PlatformCall
Anything h = Unit

Settled-more : (e : Event PlatformCall) (h : History PlatformCall) → Settled h → Settled (e ∷ h)
Settled-more e h s = ground arith

module _ (world : World PlatformCall)
    (answering : (h : History PlatformCall) (effect : PlatformCall)
      → is_reliable effect ≡ true
      → is_answered (world h effect) ≡ true) where
  works :
      (P Q X : Assertion PlatformCall) (effect : PlatformCall)
      → is_reliable effect ≡ true
      → ((h : History PlatformCall) → P h → Q (event_of world effect h ∷ h))
      → Leads {F = Unit} P Q X (act world effect)
  works P Q X effect mine q = answers world effect (λ h. answering h effect mine) q

  goes :
      (X : Assertion PlatformCall) (effect : PlatformCall)
      → is_reliable effect ≡ true
      → Leads {F = Unit} Anything Anything X (act world effect)
  goes X effect mine = works Anything Anything X effect mine (λ h p. tt)

  ends :
      (X : Assertion PlatformCall) (effect : PlatformCall)
      → is_reliable effect ≡ true
      → settles_call effect ≡ true
      → Leads {F = Unit} Anything Settled X (act world effect)
  ends X effect mine here =
      works Anything Settled X effect mine (λ h p. rw (here, answering h effect mine) refl)

  stays :
      (X : Assertion PlatformCall) (effect : PlatformCall)
      → is_reliable effect ≡ true
      → Leads {F = Unit} Settled Settled X (act world effect)
  stays X effect mine =
      works Settled Settled X effect mine (λ h s. Settled-more (event_of world effect h) h s)

  finish_Leads :
      (X : Assertion PlatformCall) (status : OperationStatus)
      → is_end status ≡ true
      → Leads Anything Settled X (finish_operation world status)
  unfolding finish_operation
  finish_Leads X status here =
      bind (ends X (set_operation status) refl here) (λ _. stays X (publish_operation status) refl)

  append_Leads :
      (X : Assertion PlatformCall) (line : LogLine)
      → Leads Anything Anything X (append_log world line)
  unfolding append_log
  append_Leads X line = bind (goes X (store_log line) refl) (λ _. goes X (publish_log line) refl)

  give_up_Leads :
      (X : Assertion PlatformCall) (line : LogLine) → Leads Anything Settled X (give_up world line)
  give_up_Leads X line = bind (append_Leads X line) (λ _. finish_Leads X operation_failed refl)

  reaches : Keeps {F = Unit} Anything (act world connect_host)
  reaches = acts world connect_host (λ h p. tt) (λ h p. tt)

  connect_Leads :
      (X : Assertion PlatformCall) (has_host : Bool)
      → Leads Anything Anything X (connect_to_host world has_host)
  unfolding connect_to_host
  connect_Leads X has_host =
      bind (goes X read_host refl)
        (λ _. branch has_host (catching (bind reaches (λ _. give)) give) give)

  leave_Leads : Keeps {F = Unit} Settled (note end_host)
  leave_Leads =
      noted end_host (λ h s. Settled-more (record { effect = end_host; reply = answered 0 [] }) h s)

  update_Leads : Leads Anything Settled Anything (update_on_host world)
  unfolding update_on_host
  update_Leads =
      bind_call world (λ code output h. Unit) (exec_host update_system) _ (λ h r p. tt)
        (λ h code output p. tt) (λ code output. finish_Leads Anything _ (ended (code == 0)))
    where
      ended : (b : Bool) → is_end (if b then operation_success else operation_failed) ≡ true
      ended true = refl
      ended false = refl

  launch_Leads : Leads Anything Settled Anything (launch_on_host world)
  unfolding launch_on_host
  launch_Leads =
      bind_call world (λ code output h. Unit) (exec_host launch_update) _ (λ h r p. tt)
        (λ h code output p. tt)
        (λ code output.
          branch (not (code == 0) || not (contains launched_word output))
            (give_up_Leads Anything not_launched)
            (bind (goes Anything (set_operation operation_running) refl) (λ _.
              bind (goes Anything (publish_operation operation_running) refl)
                (λ _. ends Anything requeue refl refl))))

  poll_Leads : Leads Anything Settled Settled (poll_on_host world)
  unfolding poll_on_host
  poll_Leads = bind (asks (exec_host tail_log) refl) (λ remote.
      bind (asks read_log refl) (λ current.
        bind (only (ltb (length current.1) (length remote.1)) (append_Leads Settled _)) (λ _.
          branch (contains ok_marker remote.1) (finish_Leads Settled operation_success refl) (
            branch (contains fail_marker remote.1) (finish_Leads Settled operation_failed refl)
              (ends Settled requeue refl refl)))))
    where
      asks :
          (effect : PlatformCall)
          → is_reliable effect ≡ true
          → Leads {F = Unit} Anything Anything Settled (call world effect)
      asks effect mine = answers_call world effect (λ h. answering h effect mine) (λ h p. tt)

  system_Leads :
      (inputs : PlatformInputs) → Leads Anything Settled Settled (run_system_update world inputs)
  unfolding run_system_update
  system_Leads inputs = bind (goes Settled (set_operation operation_running) refl) (λ _.
      bind (goes Settled (publish_operation operation_running) refl) (λ _.
        bind (connect_Leads Settled inputs.has_host) (λ connected.
          branch connected
            (finally_done (catching update_Leads (give_up_Leads Settled call_error)) leave_Leads
              leave_Leads)
            (give_up_Leads Settled connect_error))))

  launch_update_Leads :
      (inputs : PlatformInputs)
      → Leads Anything Settled Settled (launch_platform_update world inputs)
  unfolding launch_platform_update
  launch_update_Leads inputs = bind (connect_Leads Settled inputs.has_host) (λ connected.
      branch connected
        (finally_done (catching launch_Leads (give_up_Leads Settled call_error)) leave_Leads
          leave_Leads)
        (give_up_Leads Settled connect_error))

  poll_update_Leads :
      (inputs : PlatformInputs) → Leads Anything Settled Settled (poll_platform_update world inputs)
  unfolding poll_platform_update
  poll_update_Leads inputs =
      branch (inputs.has_started && ltb launch_timeout_ms (inputs.now - inputs.started_at))
        (give_up_Leads Settled timed_out)
        (bind (connect_Leads Settled inputs.has_host) (λ connected.
          branch connected (finally_done poll_Leads leave_Leads leave_Leads)
            (ends Settled requeue refl refl)))

  platform_Leads :
      (inputs : PlatformInputs) (status : OperationStatus)
      → is_over status ≡ false
      → Leads Anything Settled Settled (run_platform_update world inputs status)
  platform_Leads inputs operation_queued unfinished = launch_update_Leads inputs
  platform_Leads inputs operation_running unfinished = poll_update_Leads inputs
  platform_Leads inputs operation_success unfinished = absurd (ground arith)
  platform_Leads inputs operation_failed unfinished = absurd (ground arith)

  kind_Leads :
      (inputs : PlatformInputs) (kind : OperationKind)
      → is_over inputs.status ≡ false
      → Leads Anything Settled Settled (run_kind world inputs kind)
  kind_Leads inputs system_update unfinished = system_Leads inputs
  kind_Leads inputs platform_update unfinished = platform_Leads inputs inputs.status unfinished

  -- Where the panel's own calls and the command that reads the log of a launched update do not throw,
  -- every run of the job for an operation that is not over stores an end status or queues another run.
  pub platform_operation-settles :
      (inputs : PlatformInputs)
      → is_over inputs.status ≡ false
      → any settles (platform_operation world inputs []).0 ≡ true
  unfolding platform_operation
  platform_operation-settles inputs unfinished =
      outcome (kind_Leads inputs inputs.kind unfinished) [] tt
