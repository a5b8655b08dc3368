-- ===== src/Breaker/Cooldown.antt =====
-- The growth of the cooldown.
use native.Mathlib.Nat.{pow-suc, mul_assoc}
use yeah.Base.{ℕ, zero, suc, ◌+◌, ◌-◌, ◌*◌, ◌^◌, ◌≤◌, ◌≡◌, min, arith, leb, if◌then◌else◌}
use yeah.Breaker.{BreakerOptions, cooldown}

module _ (options : BreakerOptions) where
  abbrev raw : ℕ → ℕ
  raw n = options.base_cooldown_ms * 2 ^ (n - options.threshold)

  raw-suc : (n : ℕ) → options.threshold ≤ n → raw (n + 1) ≡ 2 * raw n
  raw-suc n h =
      let e : n + 1 - options.threshold ≡ suc (n - options.threshold) = omega arith in
      rw (e, pow-suc)
        (omega (arith, mul_assoc options.base_cooldown_ms (2 ^ (n - options.threshold)) 2))

  -- Once the circuit is open, one more failure doubles the cooldown, up to the maximum; so it never
  -- shrinks from failure to failure, and never exceeds the maximum.
  pub cooldown-doubles :
      (n : ℕ)
      → options.threshold ≤ n
      → (cooldown options (n + 1) ≡ min (2 * cooldown options n) options.max_cooldown_ms)
        × (cooldown options n ≤ cooldown options (n + 1))
        × (cooldown options (n + 1) ≤ options.max_cooldown_ms)
  unfolding cooldown
  cooldown-doubles n h = omega (arith, raw-suc n h)

-- A time that is doubled `k` times.
abbrev doubled : ℕ → ℕ → ℕ
doubled ms zero = ms
doubled ms (suc k) = 2 * doubled ms k

doubled-pow : (ms k : ℕ) → ms * 2 ^ k ≡ doubled ms k
doubled-pow ms zero = omega arith
doubled-pow ms (suc k) = rw (pow-suc) (omega (arith, mul_assoc ms (2 ^ k) 2, doubled-pow ms k))

-- The wait after `failures` failures in a row: the base at the threshold, doubled for each further failure,
-- and the maximum where that is less.
abbrev pub wait_after : BreakerOptions → ℕ → ℕ
wait_after options failures =
    let ms = doubled options.base_cooldown_ms (failures - options.threshold) in
    if leb options.max_cooldown_ms ms then options.max_cooldown_ms else ms

pub cooldown-wait_after :
    (options : BreakerOptions) (failures : ℕ)
    → cooldown options failures ≡ wait_after options failures
unfolding cooldown
cooldown-wait_after options failures =
    rw (doubled-pow options.base_cooldown_ms (failures - options.threshold)) (ground arith)
