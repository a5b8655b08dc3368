-- ===== src/Breaker/Tests.antt =====
-- Runs of the breaker, and instances of its theorems.
use yeah.Base.{◌≡◌, refl, true, false, List, [], ◌∷◌, empty, equal, codes, leb}
use yeah.Breaker.{BreakerOptions, should_attempt, fail_state, record_failure, cooldown}
use yeah.Breaker.Lifecycle.{Event, failure, after, hold, should_attempt-hold}

abbrev options : BreakerOptions
options = record { threshold = 3; base_cooldown_ms = 60_000; max_cooldown_ms = 600_000 }

abbrev events : List Event
events =
    failure (codes "a") 10
    ∷ failure (codes "b") 11
    ∷ failure (codes "a") 20
    ∷ failure (codes "a") 30
    ∷ failure (codes "a") 70_000
    ∷ []

skipped :
    (should_attempt (after options empty events) (codes "a") 189_999 ≡ false)
    × (should_attempt (after options empty events) (codes "a") 190_000 ≡ true)
    × (should_attempt (after options empty events) (codes "b") 12 ≡ true)
unfolding should_attempt record_failure fail_state cooldown equal
skipped = (refl, refl, refl)

should_attempt-hold_example :
    should_attempt (after options empty events) (codes "a") 5
    ≡ leb (hold options (codes "a") 0 0 events) 5
should_attempt-hold_example = should_attempt-hold options (codes "a") events 5
