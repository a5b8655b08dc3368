-- ===== src/Breaker/Lifecycle.antt =====
-- Whole histories of one breaker: what it counts, what it skips, and what it announces.
use yeah.Base.{
  ℕ, ◌+◌, ◌≤◌, ◌<◌, ◌≡◌, ◌∙◌, refl, ◌↔◌, inl, inr, true, Option, none, some, List, [], ◌∷◌, Text,
  Dict, empty, equal, equal_iff, leb, if◌then◌else◌, arith, Bool-cases, Option-cases, or_else,
}
use yeah.Breaker.{
  BreakerOptions, State, opened, closed, should_attempt, record_success, fail_state, record_failure,
  reset,
}
use yeah.Breaker.Cooldown.{wait_after, cooldown-wait_after}

-- A call of one of the methods that change the map, with its key and the clock.
pub data Event : Type 0 where
  success : Text → Event
  failure : Text → ℕ → Event
  forget : Text → Event

abbrev failures_in : Option State → ℕ
failures_in none = 0
failures_in (some s) = s.failures

abbrev open_until_in : Option State → ℕ
open_until_in none = 0
open_until_in (some s) = s.open_until

module _ (options : BreakerOptions) where
  abbrev apply : Dict State → Event → Dict State
  apply states (success key) = (record_success options states key).0
  apply states (failure key now) = (record_failure options states key now).0
  apply states (forget key) = reset states key

  -- The map after the events, the first event first.
  abbrev pub after : Dict State → List Event → Dict State
  after states [] = states
  after states (e ∷ es) = after (apply states e) es

-- What an event makes of the number of consecutive failures of `key`.
abbrev count_event : Text → ℕ → Event → ℕ
count_event key n (success k) = if equal k key then 0 else n
count_event key n (failure k now) = if equal k key then n + 1 else n
count_event key n (forget k) = if equal k key then 0 else n

-- The failures of `key` since its last success or reset, where there were `n` before.
abbrev pub streak : Text → ℕ → List Event → ℕ
streak key n [] = n
streak key n (e ∷ es) = streak key (count_event key n e) es

module _ (options : BreakerOptions) where
  -- What an event makes of the time until which `key` is skipped, after `n` failures in a row.
  abbrev hold_event : Text → ℕ → ℕ → Event → ℕ
  hold_event key n until (success k) = if equal k key then 0 else until
  hold_event key n until (failure k now) =
      if equal k key
      then if leb options.threshold (n + 1) then now + wait_after options (n + 1) else 0
      else until
  hold_event key n until (forget k) = if equal k key then 0 else until

  -- The time until which `key` is skipped, as a function of the history alone.
  abbrev pub hold : Text → ℕ → ℕ → List Event → ℕ
  hold key n until [] = until
  hold key n until (e ∷ es) = hold key (count_event key n e) (hold_event key n until e) es

  -- What an event makes of the entry of `key`.
  abbrev entry_event : Text → Option State → Event → Option State
  entry_event key o (success k) = if equal k key then none else o
  entry_event key o (failure k now) =
      if equal k key
      then some (fail_state options (or_else o (record { failures = 0; open_until = 0 })) now)
      else o
  entry_event key o (forget k) = if equal k key then none else o

  apply-entry_event :
      (key : Text) (states : Dict State) (e : Event)
      → apply options states e key ≡ entry_event key (states key) e
  unfolding record_success record_failure reset
  apply-entry_event key states (success k) = refl
  apply-entry_event key states (failure k now) = elim (Bool-cases (equal k key)) [
    | inl same ↦ rw (same, (equal_iff k key).0 same)
    | inr other ↦ rw other
  ]
  apply-entry_event key states (forget k) = refl

  -- The entry of a key holds the count `n` and the time `until`.
  record Knows (o : Option State) (n until : ℕ) : Type 0 where
    count : failures_in o ≡ n
    time : open_until_in o ≡ until
    calm : n < options.threshold → until ≡ 0

  entry_event-Knows :
      (key : Text) (o : Option State) (n until : ℕ) (e : Event)
      → Knows o n until
      → Knows (entry_event key o e) (count_event key n e) (hold_event key n until e)
  unfolding fail_state
  entry_event-Knows key o n until (success k) w = ground arith
  entry_event-Knows key none n until (failure k now) w =
      rw (cooldown-wait_after options 1) (ground arith)
  entry_event-Knows key (some s) n until (failure k now) w =
      rw (cooldown-wait_after options (s.failures + 1)) (ground arith)
  entry_event-Knows key o n until (forget k) w = ground arith

  after-Knows :
      (key : Text) (es : List Event) (n until : ℕ) (states : Dict State)
      → Knows (states key) n until
      → Knows (after options states es key) (streak key n es) (hold key n until es)
  after-Knows key [] n until states w = w
  after-Knows key (e ∷ es) n until states w =
      after-Knows key es (count_event key n e) (hold_event key n until e) (apply options states e)
        (rw (apply-entry_event key states e) (entry_event-Knows key (states key) n until e w))

  empty-Knows : Knows none 0 0
  empty-Knows = record { count = refl; time = refl; calm = λ _. refl }

  should_attempt-leb :
      (states : Dict State) (key : Text) (now : ℕ)
      → should_attempt states key now ≡ leb (open_until_in (states key)) now
  unfolding should_attempt
  should_attempt-leb states key now = elim (Option-cases (states key)) [
    | inl e ↦ rw (e, should_attempt) (ground arith)
    | inr (s, e) ↦ rw (e, should_attempt)
  ]

  -- From an empty breaker, after any events, every attempt on a key at the time `now` is let through
  -- exactly if the time computed from the history alone has come: 0 unless the last event of the key is
  -- at least the `threshold`-th failure in a row, else that failure's time plus the base cooldown, doubled
  -- for each failure beyond the `threshold`-th, and at most the maximum.
  pub should_attempt-hold :
      (key : Text) (es : List Event) (now : ℕ)
      → should_attempt (after options empty es) key now ≡ leb (hold key 0 0 es) now
  should_attempt-hold key es now =
      should_attempt-leb (after options empty es) key now
      ∙ rw ((after-Knows key es 0 0 empty empty-Knows).time)

  -- A key with fewer than `threshold` failures in a row is attempted at any time, whatever happened
  -- before those failures and whatever happens to other keys.
  pub should_attempt_below_threshold :
      (key : Text) (es : List Event) (now : ℕ)
      → streak key 0 es < options.threshold
      → should_attempt (after options empty es) key now ≡ true
  should_attempt_below_threshold key es now h =
      should_attempt-hold key es now
      ∙ rw ((after-Knows key es 0 0 empty empty-Knows).calm h) (ground arith)

  record_failure-announce :
      (states : Dict State) (key : Text) (now : ℕ)
      → 0 < options.threshold
      → ((record_failure options states key now).1 ≡ some opened)
        ↔ (failures_in (states key) + 1 ≡ options.threshold)
  unfolding record_failure fail_state
  record_failure-announce states key now h = elim (Option-cases (states key)) [
    | inl e ↦ rw (e, record_failure) (ground arith)
    | inr (s, e) ↦ rw (e, record_failure) (ground arith)
  ]

  record_success-announce :
      (states : Dict State) (key : Text)
      → 0 < options.threshold
      → ((record_success options states key).1 ≡ some closed)
        ↔ (options.threshold ≤ failures_in (states key))
  unfolding record_success
  record_success-announce states key h = elim (Option-cases (states key)) [
    | inl e ↦ rw (e, record_success) (ground arith)
    | inr (s, e) ↦ rw (e, record_success) (ground arith)
  ]

  -- From an empty breaker with a positive threshold, after any events: the next failure of a key
  -- announces "opened" exactly if it is the `threshold`-th in a row, and the next success announces
  -- "closed" exactly if at least `threshold` failures came in a row before it.
  pub announces :
      (key : Text) (es : List Event) (now : ℕ)
      → 0 < options.threshold
      → (((record_failure options (after options empty es) key now).1 ≡ some opened)
          ↔ (streak key 0 es + 1 ≡ options.threshold))
        × (((record_success options (after options empty es) key).1 ≡ some closed)
            ↔ (options.threshold ≤ streak key 0 es))
  announces key es now h =
      let states = after options empty es in
      rw (← (after-Knows key es 0 0 empty empty-Knows).count)
        (record_failure-announce states key now h, record_success-announce states key h)
