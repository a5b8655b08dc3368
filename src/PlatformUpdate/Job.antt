-- ===== src/PlatformUpdate/Job.antt =====
-- platformOperation.ts: the job.
use yeah.Base.{
  ℕ, ◌-◌, ◌*◌, Bool, true, false, ◌&&◌, ◌||◌, not, Text, codes, ◌==◌, ltb, drop, length, contains,
  if◌then◌else◌,
}
use yeah.Program.{World, ◌>>=◌, ◌>>◌, pure, only_if, call, act, catch, finally, note}
use yeah.PlatformUpdate.{
  operation_queued, operation_running, operation_success, operation_failed, OperationStatus,
  update_system, launch_update, tail_log, LogLine, connect_error, call_error, not_launched,
  timed_out, remote_part, PlatformCall, read_host, connect_host, end_host, exec_host, set_operation,
  publish_operation, store_log, publish_log, read_log, requeue, PlatformJob, system_update,
  platform_update, OperationKind, PlatformInputs,
}

abbrev pub launch_timeout_ms : ℕ
launch_timeout_ms = 15 * 60 * 1000

abbrev pub launched_word : Text
launched_word = codes "LAUNCHED"

abbrev pub ok_marker : Text
ok_marker = codes "===YEAH_OP_OK==="

abbrev pub fail_marker : Text
fail_marker = codes "===YEAH_OP_FAILED==="

module _ (world : World PlatformCall) where
  -- `appendLog`, with a chunk that is not empty.
  unfoldable pub append_log : LogLine → PlatformJob Unit
  append_log line = do act world (store_log line); act world (publish_log line)

  unfoldable pub finish_operation : OperationStatus → PlatformJob Unit
  finish_operation status = do
    act world (set_operation status)
    act world (publish_operation status)

  -- Whether the connection was made: a missing host and an error of the connection are told apart only
  -- by the message.
  unfoldable pub connect_to_host : Bool → PlatformJob Bool
  connect_to_host has_host = do
    act world read_host
    (if has_host then catch (act world connect_host >> pure true) (pure false) else pure false)

  abbrev pub give_up : LogLine → PlatformJob Unit
  give_up line = do append_log line; finish_operation operation_failed

  unfoldable pub update_on_host : PlatformJob Unit
  update_on_host = do
    result ← call world (exec_host update_system)
    finish_operation (if result.0 == 0 then operation_success else operation_failed)

  unfoldable pub run_system_update : PlatformInputs → PlatformJob Unit
  run_system_update inputs = do
    act world (set_operation operation_running)
    act world (publish_operation operation_running)
    connected ← connect_to_host inputs.has_host
    (if connected
        then finally (catch update_on_host (give_up call_error)) (note end_host)
        else give_up connect_error)

  unfoldable pub launch_on_host : PlatformJob Unit
  launch_on_host = do
    result ← call world (exec_host launch_update)
    (if not (result.0 == 0) || not (contains launched_word result.1)
        then give_up not_launched
        else (do
          act world (set_operation operation_running)
          act world (publish_operation operation_running)
          act world requeue))

  unfoldable pub launch_platform_update : PlatformInputs → PlatformJob Unit
  launch_platform_update inputs = do
    connected ← connect_to_host inputs.has_host
    (if connected
        then finally (catch launch_on_host (give_up call_error)) (note end_host)
        else give_up connect_error)

  unfoldable pub poll_on_host : PlatformJob Unit
  poll_on_host = do
    remote ← call world (exec_host tail_log)
    current ← call world read_log
    only_if (ltb (length current.1) (length remote.1))
        (append_log (remote_part (drop (length current.1) remote.1)))
    (if contains ok_marker remote.1
        then finish_operation operation_success
        else if contains fail_marker remote.1
        then finish_operation operation_failed
        else act world requeue)

  -- `startedAt` is never after the clock, so that the difference is the one on numbers.
  unfoldable pub poll_platform_update : PlatformInputs → PlatformJob Unit
  poll_platform_update inputs =
      if inputs.has_started && ltb launch_timeout_ms (inputs.now - inputs.started_at)
      then give_up timed_out
      else (do
        connected ← connect_to_host inputs.has_host
        (if connected then finally poll_on_host (note end_host) else act world requeue))

  abbrev pub run_platform_update : PlatformInputs → OperationStatus → PlatformJob Unit
  run_platform_update inputs operation_queued = launch_platform_update inputs
  run_platform_update inputs operation_running = poll_platform_update inputs
  run_platform_update inputs _ = pure tt

  abbrev pub run_kind : PlatformInputs → OperationKind → PlatformJob Unit
  run_kind inputs system_update = run_system_update inputs
  run_kind inputs platform_update = run_platform_update inputs inputs.status

  -- The job of an operation that exists.
  unfoldable pub platform_operation : PlatformInputs → PlatformJob Unit
  platform_operation inputs = run_kind inputs inputs.kind
