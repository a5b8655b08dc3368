-- ===== src/MemoryGuard/Policy.antt =====
-- The policy over a history of samples.
use Prim.Native.Nat.{Ordering}
use yeah.Base.{
  ℕ, ◌+◌, ◌≤◌, ◌≡◌, ◌≢◌, refl, Bool, true, ◌&&◌, not, some, List, [], ◌∷◌, Text, leb, if◌then◌else◌,
  arith, ◌⊎◌, inl, inr,
}
use yeah.MemoryGuard.{
  MemoryGuardSettings, GuardState, GuardCandidate, GuardAction, stop, start, idle,
  initial_guard_state, guard_step, pick_to_shed, pick_to_restore,
}

-- What the worker feeds the policy in one round.
pub record Sample : Type 0 where
  pub mem_percent : ℕ
  pub settings : MemoryGuardSettings
  pub candidates : List GuardCandidate

abbrev pub is_high : Sample → Bool
is_high s = s.settings.enabled && leb s.settings.threshold s.mem_percent

abbrev pub is_low : Sample → Bool
is_low s = s.settings.enabled && not (is_high s) && leb s.mem_percent s.settings.recover

-- How many of the latest samples in a row meet the test; the latest sample comes first.
abbrev pub latest : (Sample → Bool) → List Sample → ℕ
latest p [] = 0
latest p (s ∷ past) = if p s then 1 + latest p past else 0

module _ (locale_compare : Text → Text → Ordering) where
  abbrev pub act : GuardState → Sample → GuardState × GuardAction
  act state s = guard_step locale_compare state s.mem_percent s.settings s.candidates

  -- The counters after a history, the latest sample first.
  abbrev pub state_after : List Sample → GuardState
  state_after [] = initial_guard_state
  state_after (s ∷ past) = (act (state_after past) s).0

  -- One round, with what it would pick left open.
  guard_step-counts :
      (state : GuardState) (s : Sample) (highs lows : ℕ)
      → state.high ≤ highs
      → state.low_count ≤ lows
      → ((act state s).0.high ≤ (if is_high s then 1 + highs else 0))
        × ((act state s).0.low_count ≤ (if is_low s then 1 + lows else 0))
  unfolding guard_step
  guard_step-counts state s highs lows h l = ground arith

  state_after-counts :
      (past : List Sample)
      → ((state_after past).high ≤ latest is_high past)
        × ((state_after past).low_count ≤ latest is_low past)
  state_after-counts [] = omega arith
  state_after-counts (s ∷ past) =
      let (h, l) = state_after-counts past in
      guard_step-counts (state_after past) s (latest is_high past) (latest is_low past) h l

  pub guard_step-acts :
      (state : GuardState) (s : Sample) (c : GuardCandidate)
      → ((act state s).1 ≡ stop c
          → (is_high s ≡ true)
            × (1 ≤ state.high)
            × (pick_to_shed locale_compare s.candidates ≡ some c))
        × ((act state s).1 ≡ start c
            → (is_low s ≡ true)
              × (2 ≤ state.low_count)
              × (pick_to_restore locale_compare s.candidates ≡ some c))
  unfolding guard_step
  guard_step-acts state s c = (λ e. ground arith, λ e. ground arith)

  -- After any history, something is stopped only if at least the two latest samples in a row were at
  -- or above their threshold with the guard enabled, and then it is what `pick_to_shed` picks.
  pub stops_after_streak :
      (past : List Sample) (s : Sample) (c : GuardCandidate)
      → (act (state_after past) s).1 ≡ stop c
      → (2 ≤ latest is_high (s ∷ past)) × (pick_to_shed locale_compare s.candidates ≡ some c)
  stops_after_streak past s c e =
      let (high, before, picked) = (guard_step-acts (state_after past) s c).0 e in
      (rw high (omega (arith, (state_after-counts past).0, before)), picked)

  -- After any history, something is started only if at least the three latest samples in a row were
  -- at or below their recover level and below their threshold with the guard enabled, and then it is
  -- what `pick_to_restore` picks.
  pub starts_after_streak :
      (past : List Sample) (s : Sample) (c : GuardCandidate)
      → (act (state_after past) s).1 ≡ start c
      → (3 ≤ latest is_low (s ∷ past)) × (pick_to_restore locale_compare s.candidates ≡ some c)
  starts_after_streak past s c e =
      let (low, before, picked) = (guard_step-acts (state_after past) s c).1 e in
      (rw low (omega (arith, (state_after-counts past).1, before)), picked)

  guard_step-reset :
      (state : GuardState) (s : Sample)
      → (act state s).1 ≢ idle
      → (act state s).0 ≡ initial_guard_state
  unfolding guard_step
  guard_step-reset state s h = ground arith

  guard_step-initial : (s : Sample) → (act initial_guard_state s).1 ≡ idle
  unfolding guard_step
  guard_step-initial s = ground arith

  -- Two rounds in a row never both act, whatever the state before them, the samples, the settings
  -- and the candidates.
  pub acts_apart :
      (state : GuardState) (s next : Sample)
      → (act state s).1 ≢ idle
      → (act (act state s).0 next).1 ≡ idle
  acts_apart state s next h = rw (guard_step-reset state s h) (guard_step-initial next)

  guard_step-high :
      (state : GuardState) (s : Sample)
      → is_high s ≡ true
      → (act state s).1 ≡ idle
      → 1 ≤ (act state s).0.high
  unfolding guard_step
  guard_step-high state s h e = ground arith

  guard_step-stops :
      (state : GuardState) (s : Sample) (c : GuardCandidate)
      → is_high s ≡ true
      → 1 ≤ state.high
      → pick_to_shed locale_compare s.candidates ≡ some c
      → (act state s).1 ≡ stop c
  unfolding guard_step
  guard_step-stops state s c h k e = ground arith

  -- If two samples in a row are at or above their threshold with the guard enabled, and the second
  -- comes with a resource to pick, then the guard acts in the first of the two rounds or stops that
  -- resource in the second.
  pub high_samples_stop :
      (state : GuardState) (s next : Sample) (c : GuardCandidate)
      → is_high s ≡ true
      → is_high next ≡ true
      → pick_to_shed locale_compare next.candidates ≡ some c
      → ((act state s).1 ≢ idle) ⊎ ((act (act state s).0 next).1 ≡ stop c)
  high_samples_stop state s next c h k picked = go (act state s).1 refl
    where
      go :
          (a : GuardAction)
          → (act state s).1 ≡ a
          → ((act state s).1 ≢ idle) ⊎ ((act (act state s).0 next).1 ≡ stop c)
      go idle e =
          inr (guard_step-stops (act state s).0 next c k (guard_step-high state s h e) picked)
      go (stop d) e = inl (λ i. cc)
      go (start d) e = inl (λ i. cc)
