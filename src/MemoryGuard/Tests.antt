-- ===== src/MemoryGuard/Tests.antt =====
-- Runs of the guard, and instances of its theorems.
use Prim.Native.Nat.{Ordering}
use yeah.Base.{
  ℕ, ◌≡◌, ◌≢◌, ◌≤◌, refl, true, false, some, List, [], ◌∷◌, arith, Text, codes, IsComparison,
  sort_by, compare, length,
}
use yeah.MemoryGuard.{
  GuardCandidate, GuardState, GuardPriority, Status, application, running, stopped, critical,
  normal, stop, start, idle, guard_step, pick_to_shed, pick_to_restore,
}
use yeah.MemoryGuard.Choice.{IsShedChoice, pick_to_shed_lem}
use yeah.MemoryGuard.Policy.{Sample, act, state_after, latest, is_high, stops_after_streak}

-- A stand-in for the runtime's order on names: by length.
abbrev by_length : Text → Text → Ordering
by_length a b = compare (length a) (length b)

by_length-IsComparison : IsComparison by_length
by_length-IsComparison = record { total = λ a b h. ground arith; trans = λ a b c h k. ground arith }

abbrev candidate : Text → GuardPriority → ℕ → Status → GuardCandidate
candidate name priority mem status = record {
  kind = application;
  id = name;
  name = name;
  priority = priority;
  mem_bytes = some mem;
  shed_by_guard = false;
  status = status;
}

abbrev big : GuardCandidate
big = candidate (codes "big") normal 900 running

abbrev asleep : GuardCandidate
asleep = record (candidate (codes "asleep") normal 0 stopped) { shed_by_guard = true }

abbrev all_candidates : List GuardCandidate
all_candidates =
    candidate (codes "db") critical 5000 running
    ∷ candidate (codes "small") normal 100 running
    ∷ big
    ∷ asleep
    ∷ []

abbrev sample : ℕ → Sample
sample mem = record {
  mem_percent = mem;
  settings = record { enabled = true; threshold = 92; recover = 80 };
  candidates = all_candidates;
}

picks :
    (pick_to_shed by_length all_candidates ≡ some big)
    × (pick_to_restore by_length all_candidates ≡ some asleep)
unfolding pick_to_shed pick_to_restore sort_by
picks = (refl, refl)

stops : (act by_length (state_after by_length (sample 95 ∷ [])) (sample 96)).1 ≡ stop big
unfolding guard_step pick_to_shed sort_by
stops = refl

pick_to_shed_lem_example : IsShedChoice all_candidates (pick_to_shed by_length all_candidates)
pick_to_shed_lem_example = pick_to_shed_lem by_length by_length-IsComparison all_candidates

stops_after_streak_example :
    (2 ≤ latest is_high (sample 96 ∷ sample 95 ∷ []))
    × (pick_to_shed by_length all_candidates ≡ some big)
stops_after_streak_example = stops_after_streak by_length (sample 95 ∷ []) (sample 96) big stops

abbrev calm : List Sample
calm = sample 60 ∷ sample 80 ∷ []

starts : (act by_length (state_after by_length calm) (sample 70)).1 ≡ start asleep
unfolding guard_step pick_to_restore sort_by
starts = refl

abbrev one_high : GuardState
one_high = record { high = 1; low_count = 0 }

acts : (act by_length one_high (sample 96)).1 ≢ idle
unfolding guard_step pick_to_shed sort_by
acts e = cc
