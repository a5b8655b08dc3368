-- ===== src/RateLimit.antt =====
-- apps/api/src/lib/rateLimit.ts: the fixed-window rate limiter of the API, and which requests it
-- counts. A `RateLimiter` instance is a record of its two private fields.
pub mod Windows
pub mod Sweep
pub mod Rules
mod Tests
use yeah.Base.{
  ℕ, ◌+◌, ◌-◌, ◌/◌, ◌*◌, max, Bool, ◌&&◌, ◌||◌, Option, none, some, ◌++◌, Text, codes, Dict, insert,
  equal, trim, ends_with, leb, if◌then◌else◌, or_else,
}

pub record RateRule : Type 0 where
  pub name : Text
  pub limit : ℕ
  pub window_ms : ℕ

pub record RateResult : Type 0 where
  pub allowed : Bool
  pub remaining : ℕ
  pub retry_after_sec : ℕ

pub record Bucket : Type 0 where
  pub count : ℕ
  pub reset_at : ℕ

pub record RateLimiter : Type 0 where
  pub buckets : Dict Bucket
  pub since_sweep : ℕ

pub bucket_id : RateRule → Text → Text
bucket_id rule key = rule.name ++ (codes ":" ++ key)

-- What a sweep leaves of an entry.
abbrev pub keep_live : ℕ → Option Bucket → Option Bucket
keep_live now none = none
keep_live now (some b) = if leb b.reset_at now then none else some b

pub sweep : RateLimiter → ℕ → RateLimiter
sweep limiter now = record { buckets = λ id. keep_live now (limiter.buckets id); since_sweep = 0 }

abbrev pub fresh : RateRule → ℕ → Bucket
fresh rule now = record { count = 0; reset_at = now + rule.window_ms }

-- The bucket that a hit counts in, before it is counted.
abbrev pub current : Option Bucket → RateRule → ℕ → Bucket
current none rule now = fresh rule now
current (some b) rule now = if leb b.reset_at now then fresh rule now else b

abbrev pub counted : Bucket → Bucket
counted b = record b { count = b.count + 1 }

abbrev pub answer : RateRule → ℕ → Bucket → RateResult
answer rule now bucket =
    let allowed = leb bucket.count rule.limit in
    record {
      allowed = allowed;
      remaining = rule.limit - bucket.count;
      retry_after_sec = if allowed then 0 else max 1 ((bucket.reset_at - now + 999) / 1000);
    }

-- `++this.sinceSweep`, and the sweep that it may start.
pub tick : RateLimiter → ℕ → RateLimiter
tick limiter now =
    let since = limiter.since_sweep + 1 in
    if leb 500 since then sweep limiter now else record limiter { since_sweep = since }

pub hit : RateLimiter → Text → RateRule → ℕ → RateLimiter × RateResult
hit limiter key rule now =
    let ticked = tick limiter now in
    let id = bucket_id rule key in
    let bucket = counted (current (ticked.buckets id) rule now) in
    (record ticked { buckets = insert id bucket ticked.buckets }, answer rule now bucket)

abbrev pub auth_rule : RateRule
auth_rule = record { name = codes "auth"; limit = 10; window_ms = 5 * 60_000 }

abbrev pub webhook_rule : RateRule
webhook_rule = record { name = codes "webhook"; limit = 600; window_ms = 60_000 }

abbrev pub write_rule : RateRule
write_rule = record { name = codes "write"; limit = 120; window_ms = 60_000 }

pub rule_for : Text → Text → Option RateRule
rule_for method pathname =
    if equal method (codes "POST")
      && (ends_with pathname (codes "/auth/login")
          || ends_with pathname (codes "/auth/passkeys/login/verify")
          || ends_with pathname (codes "/auth/passkeys/login/options")
          || ends_with pathname (codes "/auth/register")
          || ends_with pathname (codes "/auth/2fa/disable"))
    then some auth_rule
    else if equal method (codes "POST") && ends_with pathname (codes "/webhooks/github")
    then some webhook_rule
    else if equal method (codes "POST")
        || equal method (codes "PUT")
        || equal method (codes "PATCH")
        || equal method (codes "DELETE")
    then some write_rule
    else none

-- `value || next`, where an absent or empty value is passed over.
abbrev pub or_next : Option Text → Text → Text
or_next none next = next
or_next (some v) next = if equal v (codes "") then next else v

-- The header's value and the fallback are `none` where the source has null or undefined.
pub client_ip : Option Text → Option Text → Text
client_ip header fallback =
    let next = or_next fallback (codes "unknown") in
    elim header [ none ↦ next | some h ↦ or_next (some (trim h)) next ]
