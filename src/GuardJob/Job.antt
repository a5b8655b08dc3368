-- ===== src/GuardJob/Job.antt =====
-- memoryGuard.ts: one tick of the guard.
use Prim.Native.Nat.{Ordering}
use yeah.Base.{
  ℕ, Bool, true, false, not, Option, none, some, List, [], ◌∷◌, map, Text, Dict, insert, remove,
  or_else, if◌then◌else◌,
}
use yeah.Program.{World, ◌>>=◌, ◌>>◌, pure, act, catch}
use yeah.MemoryGuard.{
  GuardCandidate, GuardState, initial_guard_state, GuardAction, stop, start, idle, guard_step,
}
use yeah.GuardJob.{
  build_guard_candidates, is_stale, stale_shed_flags, GuardCall, read_resources, flag, queue,
  insert_event, notify_guard, GuardTick, GuardServer,
}

-- What the guard does to a resource: it stops (`true`) or starts it.
abbrev pub deed_of : GuardAction → Option (GuardCandidate × Bool)
deed_of (stop target) = some (target, true)
deed_of (start target) = some (target, false)
deed_of idle = none

-- `stale.shedByGuard = false`
abbrev pub cleared : GuardCandidate → GuardCandidate
cleared c = if is_stale c then record c { shed_by_guard = false } else c

module _ (locale_compare : Text → Text → Ordering) (world : World GuardCall) where
  unfoldable pub clear_flags : List GuardCandidate → GuardTick Unit
  clear_flags [] = pure tt
  clear_flags (c ∷ rest) = act world (flag c.kind c.id false) >> clear_flags rest

  -- The candidates, with the flags that no longer apply taken off.
  unfoldable pub gather : GuardServer → GuardTick (List GuardCandidate)
  gather server = do
    act world read_resources
    clear_flags
        (stale_shed_flags (build_guard_candidates server.apps server.services server.containers))
    pure (map cleared (build_guard_candidates server.apps server.services server.containers))

  unfoldable pub carry_out : Option (GuardCandidate × Bool) → GuardTick Unit
  carry_out none = pure tt
  carry_out (some (target, stopping)) = do
    act world (flag target.kind target.id stopping)
    act world (queue target.kind target.id stopping)
    act world (insert_event stopping)
    act world (notify_guard stopping)

  abbrev pub step_of :
      Dict GuardState → GuardServer → ℕ → List GuardCandidate → GuardState × GuardAction
  step_of states server mem_percent candidates =
      guard_step locale_compare (or_else (states server.id) initial_guard_state) mem_percent
        (record { enabled = true; threshold = server.threshold; recover = server.recover })
        candidates

  -- The counters of the servers are set before the action is carried out, so that an error in it keeps them.
  abbrev pub take_step :
      Dict GuardState → GuardServer → ℕ → Option (List GuardCandidate) → GuardTick (Dict GuardState)
  take_step states server mem_percent none = pure states
  take_step states server mem_percent (some candidates) = do
    catch (carry_out (deed_of (step_of states server mem_percent candidates).1)) (pure tt)
    pure (insert server.id (step_of states server mem_percent candidates).0 states)

  -- `runMemoryGuard`, with the counters of the servers before and behind it.
  unfoldable pub run_memory_guard : Dict GuardState → GuardServer → ℕ → GuardTick (Dict GuardState)
  run_memory_guard states server mem_percent =
      if not server.memory_guard_enabled then pure (remove server.id states) else (do
        gathered ← catch (gather server >>= (λ candidates. pure (some candidates))) (pure none)
        take_step states server mem_percent gathered)
