-- ===== src/PlatformUpdate/Tests.antt =====
-- Runs of the job, and the theorems at concrete inputs.
use yeah.Base.{true, false, [], any, contains, starts_with, ◌≡◌, refl, arith}
use yeah.Program.{History, is_answered, World, Reply, answered, threw, call, note, catch, finally}
use yeah.Program.Order.{preceded}
use yeah.PlatformUpdate.{
  PlatformCall, exec_host, tail_log, connect_host, platform_update, operation_running,
  PlatformInputs,
}
use yeah.PlatformUpdate.Job.{
  ok_marker, platform_operation, poll_platform_update, connect_to_host, poll_on_host, append_log,
  finish_operation,
}
use yeah.PlatformUpdate.Settle.{is_reliable, settles, platform_operation-settles}
use yeah.PlatformUpdate.Finish.{succeeds_operation, proves_operation, platform_operation-proved}

abbrev polled : PlatformInputs
polled = record {
  kind = platform_update;
  status = operation_running;
  has_started = true;
  started_at = 1000;
  now = 6000;
  has_host = true;
}

abbrev shows_mark : PlatformCall → Reply
shows_mark (exec_host tail_log) = answered 0 ok_marker
shows_mark effect = answered 0 []

-- The log holds the mark of success.
abbrev marked : World PlatformCall
marked h effect = shows_mark effect

abbrev is_unreachable : PlatformCall → Reply
is_unreachable connect_host = threw
is_unreachable effect = answered 0 []

-- The host is being restarted.
abbrev restarting : World PlatformCall
restarting h effect = is_unreachable effect

marked_poll : any succeeds_operation (platform_operation marked polled []).0 ≡ true
unfolding platform_operation poll_platform_update connect_to_host poll_on_host append_log
    finish_operation call note catch finally contains starts_with
marked_poll = refl

restarting_poll : any succeeds_operation (platform_operation restarting polled []).0 ≡ false
unfolding platform_operation poll_platform_update connect_to_host poll_on_host append_log
    finish_operation call note catch finally contains starts_with
restarting_poll = refl

restarting_answers :
    (h : History PlatformCall) (effect : PlatformCall)
    → is_reliable effect ≡ true
    → is_answered (restarting h effect) ≡ true
restarting_answers h connect_host reliable = absurd (ground arith)
restarting_answers h _ reliable = refl

platform_operation-settles_example : any settles (platform_operation restarting polled []).0 ≡ true
platform_operation-settles_example =
    platform_operation-settles restarting restarting_answers polled refl

platform_operation-proved_example :
    preceded succeeds_operation proves_operation (platform_operation marked polled []).0 ≡ true
platform_operation-proved_example = platform_operation-proved marked polled
