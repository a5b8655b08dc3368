-- ===== src/MemoryGuard.antt =====
-- packages/shared/src/memoryGuard.ts: the policy that stops the least important resources of a
-- server when memory runs low, and starts them again. The limits and samples are whole numbers;
-- `localeCompare` is an argument, since the source takes it from the runtime's locale data.
pub mod Limits
pub mod Choice
pub mod Policy
mod Tests
use Prim.Native.Nat.{Ordering}
use yeah.Base.{
  ℕ, ◌+◌, ◌-◌, compare, Bool, true, false, ◌&&◌, ◌||◌, not, Option, none, some, List, select, Text,
  codes, ltb, leb, if◌then◌else◌, then_by, sort_by, first,
}

pub data GuardPriority : Type 0 where
  critical normal low : GuardPriority

pub record MemoryGuardSettings : Type 0 where
  pub enabled : Bool
  pub threshold : ℕ
  pub recover : ℕ

abbrev pub memory_guard_min_gap : ℕ
memory_guard_min_gap = 5

abbrev pub shed_after_samples : ℕ
shed_after_samples = 2

abbrev pub restore_after_samples : ℕ
restore_after_samples = 3

abbrev pub bad_threshold : Text
bad_threshold = codes "the stop threshold must be a whole number between 70 and 99"

abbrev pub bad_recover : Text
bad_recover = codes "the recover level must be a whole number of at least 40"

abbrev pub bad_gap : Text
bad_gap = codes "the recover level must be at least 5 points below the stop threshold"

-- `recover > threshold - gap`, on integers that may be below the gap.
pub validate_memory_guard_limits : ℕ → ℕ → Option Text
validate_memory_guard_limits threshold recover =
    if ltb threshold 70 || ltb 99 threshold
    then some bad_threshold
    else if ltb recover 40
    then some bad_recover
    else if ltb threshold (recover + memory_guard_min_gap)
    then some bad_gap
    else none

pub data Kind : Type 0 where
  application service : Kind

pub data Status : Type 0 where
  running stopped other : Status

pub record GuardCandidate : Type 0 where
  pub kind : Kind
  pub id : Text
  pub name : Text
  pub priority : GuardPriority
  pub mem_bytes : Option ℕ
  pub shed_by_guard : Bool
  pub status : Status

abbrev pub tier : GuardPriority → ℕ
tier low = 0
tier normal = 1
tier critical = 2

-- `memBytes ?? -1`, moved up by one.
abbrev pub mem_key : Option ℕ → ℕ
mem_key none = 0
mem_key (some n) = n + 1

abbrev pub is_running : Status → Bool
is_running running = true
is_running _ = false

abbrev pub is_stopped : Status → Bool
is_stopped stopped = true
is_stopped _ = false

abbrev pub is_critical : GuardPriority → Bool
is_critical critical = true
is_critical _ = false

abbrev pub may_shed : GuardCandidate → Bool
may_shed c = is_running c.status && not (is_critical c.priority) && not c.shed_by_guard

abbrev pub may_restore : GuardCandidate → Bool
may_restore c = c.shed_by_guard && is_stopped c.status

pub record GuardState : Type 0 where
  pub high : ℕ
  pub low_count : ℕ

abbrev pub initial_guard_state : GuardState
initial_guard_state = record { high = 0; low_count = 0 }

pub data GuardAction : Type 0 where
  stop start : GuardCandidate → GuardAction
  idle : GuardAction

module _ (locale_compare : Text → Text → Ordering) where
  abbrev pub shed_order : GuardCandidate → GuardCandidate → Ordering
  shed_order a b =
      then_by (compare (tier a.priority) (tier b.priority)) (
        then_by (compare (mem_key b.mem_bytes) (mem_key a.mem_bytes))
          (locale_compare a.name b.name))

  abbrev pub restore_order : GuardCandidate → GuardCandidate → Ordering
  restore_order a b =
      then_by (compare (tier b.priority) (tier a.priority)) (locale_compare a.name b.name)

  unfoldable pub pick_to_shed : List GuardCandidate → Option GuardCandidate
  pick_to_shed candidates = first (sort_by shed_order (select may_shed candidates))

  pub pick_to_restore : List GuardCandidate → Option GuardCandidate
  pick_to_restore candidates = first (sort_by restore_order (select may_restore candidates))

  -- `if (count >= needed) { if (target) return … }`, with what follows where it does not return.
  abbrev pub act_when :
      Bool
      → Option GuardCandidate
      → (GuardCandidate → GuardAction)
      → GuardState
      → GuardState × GuardAction
  act_when false target act counting = (counting, idle)
  act_when true none act counting = (counting, idle)
  act_when true (some target) act counting = (initial_guard_state, act target)

  unfoldable pub guard_step :
      GuardState → ℕ → MemoryGuardSettings → List GuardCandidate → GuardState × GuardAction
  guard_step state mem_percent settings candidates =
      if not settings.enabled
      then (initial_guard_state, idle)
      else if leb settings.threshold mem_percent
      then act_when (leb shed_after_samples (state.high + 1)) (pick_to_shed candidates) stop
          (record { high = state.high + 1; low_count = 0 })
      else if leb mem_percent settings.recover
      then act_when (leb restore_after_samples (state.low_count + 1)) (pick_to_restore candidates)
          start (record { high = 0; low_count = state.low_count + 1 })
      else (initial_guard_state, idle)
