-- ===== src/Challenges.antt =====
-- apps/api/src/lib/webauthnChallenges.ts: the one-shot challenges of passkey logins. A store is its
-- map; each reading of the clock is an argument.
pub mod OneShot
mod Tests
use yeah.Base.{
  ℕ, ◌+◌, ◌*◌, Option, none, some, Text, Dict, insert, remove, equal, ltb, if◌then◌else◌,
}

pub record Entry : Type 0 where
  pub challenge : Text
  pub expires : ℕ

abbrev pub ttl_ms : ℕ
ttl_ms = 5 * 60 * 1000

-- What a sweep leaves of an entry.
abbrev pub keep_fresh : ℕ → Option Entry → Option Entry
keep_fresh t none = none
keep_fresh t (some entry) = if ltb entry.expires t then none else some entry

abbrev pub sweep_store : Dict Entry → ℕ → Dict Entry
sweep_store map t k = keep_fresh t (map k)

-- The clock is read for the sweep and once more for the new entry.
pub put : Dict Entry → Text → Text → ℕ → ℕ → Dict Entry
put map key challenge swept_at now =
    insert key (record { challenge = challenge; expires = now + ttl_ms }) (sweep_store map swept_at)

abbrev pub take_entry : ℕ → Option Entry → Option Text
take_entry now none = none
take_entry now (some entry) = if ltb entry.expires now then none else some entry.challenge

-- `take`, with the store that it leaves.
pub take_challenge : Dict Entry → Text → ℕ → Dict Entry × Option Text
take_challenge map key now = (remove key map, take_entry now (map key))
