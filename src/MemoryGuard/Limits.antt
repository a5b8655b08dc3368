-- ===== src/MemoryGuard/Limits.antt =====
-- What the validation of the two limits guarantees.
use yeah.Base.{ℕ, ◌+◌, ◌≤◌, ◌≡◌, ◌↔◌, none, arith}
use yeah.MemoryGuard.{validate_memory_guard_limits}

-- The two limits are accepted exactly if the threshold lies in 70 to 99, the recover level is at
-- least 40, and it lies at least 5 points below the threshold.
pub validate_memory_guard_limits-none_iff :
    (threshold recover : ℕ)
    → (validate_memory_guard_limits threshold recover ≡ none)
      ↔ ((70 ≤ threshold) × (threshold ≤ 99) × (40 ≤ recover) × (recover + 5 ≤ threshold))
unfolding validate_memory_guard_limits
validate_memory_guard_limits-none_iff threshold recover = ground arith
