-- ===== src/Breaker.antt =====
-- apps/worker/src/lib/circuitBreaker.ts: the circuit breaker of the jobs that poll servers.
-- A class instance is its `states` map; a method takes the map and returns the new one. The clock
-- reading `now` is an argument, as in the source.
pub mod Lifecycle
pub mod Cooldown
mod Tests
use yeah.Base.{
  ℕ, ◌+◌, ◌-◌, ◌*◌, ◌^◌, min, Bool, true, ◌&&◌, not, Option, none, some, Text, Dict, insert, remove,
  leb, if◌then◌else◌, or_else,
}

pub record BreakerOptions : Type 0 where
  pub threshold : ℕ
  pub base_cooldown_ms : ℕ
  pub max_cooldown_ms : ℕ

pub record State : Type 0 where
  pub failures : ℕ
  pub open_until : ℕ

-- `null` is `none` of an `Option`.
pub data BreakerTransition : Type 0 where
  opened closed : BreakerTransition

pub should_attempt : Dict State → Text → ℕ → Bool
should_attempt states key now = elim (states key) [
  | none ↦ true
  | some state ↦ leb state.open_until now
]

module _ (options : BreakerOptions) where
  abbrev pub tripped : State → Bool
  tripped state = leb options.threshold state.failures

  pub record_success : Dict State → Text → Dict State × Option BreakerTransition
  record_success states key = (
    remove key states,
    elim (states key) [ none ↦ none | some state ↦ if tripped state then some closed else none ],
  )

  -- The time that the circuit stays open after failure number `failures`.
  pub cooldown : ℕ → ℕ
  cooldown failures =
      let doublings = failures - options.threshold in
      min (options.base_cooldown_ms * 2 ^ doublings) options.max_cooldown_ms

  pub fail_state : State → ℕ → State
  fail_state state now =
      let failures = state.failures + 1 in
      record {
        failures = failures;
        open_until =
            if leb options.threshold failures then now + cooldown failures else state.open_until;
      }

  pub record_failure : Dict State → Text → ℕ → Dict State × Option BreakerTransition
  record_failure states key now =
      let state = or_else (states key) (record { failures = 0; open_until = 0 }) in
      let after = fail_state state now in
      (insert key after states, if not (tripped state) && tripped after then some opened else none)

-- Forget a key entirely.
pub reset : Dict State → Text → Dict State
reset states key = remove key states
