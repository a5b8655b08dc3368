-- ===== src/ContainerWatch.antt =====
-- packages/shared/src/containerWatch.ts: containers that restart in a loop, and the tracker that
-- turns polls of their states into notifications. A row is what `docker inspect` printed, already
-- split into fields; counts are whole numbers.
pub mod PerContainer
pub mod Reports
pub mod Problems
mod Tests
use yeah.Base.{
  ℕ, ◌+◌, ◌-◌, Bool, true, false, ◌&&◌, ◌||◌, not, Option, none, some, List, [], ◌∷◌, ◌++◌, Text,
  codes, Dict, insert, equal, includes, starts_with, to_text, ltb, leb, if◌then◌else◌,
}

pub record WatchedContainer : Type 0 where
  pub name : Text
  pub status : Text
  pub exit_code : ℕ
  pub oom_killed : Bool
  pub restart_count : ℕ
  pub restart_policy : Text
  pub health : Text

pub data Reason : Type 0 where
  restarting restart_loop oom : Reason

pub record ContainerProblem : Type 0 where
  pub name : Text
  pub reason : Reason
  pub detail : Text

-- The problem of a container that was seen before with the restart count `before`.
pub judge : WatchedContainer → ℕ → Option ContainerProblem
judge c before =
    if equal c.status (codes "restarting")
    then some (record {
      name = c.name;
      reason = restarting;
      detail =
          codes "restarting in a loop (exit code "
          ++ (to_text c.exit_code
              ++ (codes ", " ++ (to_text c.restart_count ++ codes " restarts)")));
    })
    else if c.oom_killed && leb (before + 1) c.restart_count
    then some (record {
      name = c.name;
      reason = oom;
      detail = codes "was killed for running out of memory (OOM)";
    })
    else if leb (before + 3) c.restart_count
    then some (record {
      name = c.name;
      reason = restart_loop;
      detail =
          codes "restarted "
          ++ (to_text (c.restart_count - before) ++ codes " times since the last check");
    })
    else none

abbrev pub cons_some {ℓ} : {A : Type ℓ} → Option A → List A → List A
cons_some none l = l
cons_some (some a) l = a ∷ l

pub problem_of : List Text → Option ℕ → WatchedContainer → Option ContainerProblem
problem_of ignore none c = none
problem_of ignore (some before) c = if includes ignore c.name then none else judge c before

-- The counts that the pass leaves in `previous`, and the problems in the order of the rows.
pub detect_container_problems :
    Dict ℕ → List WatchedContainer → List Text → Dict ℕ × List ContainerProblem
detect_container_problems previous [] ignore = (previous, [])
detect_container_problems previous (c ∷ rows) ignore =
    let later = detect_container_problems (insert c.name c.restart_count previous) rows ignore in
    (later.0, cons_some (problem_of ignore (previous c.name) c) later.1)

pub is_managed_container_name : Text → Bool
is_managed_container_name name =
    starts_with (codes "yeah-app-") name
    || starts_with (codes "yeah-db-") name
    || starts_with (codes "yeah-svc-") name

pub effective_container_state : WatchedContainer → Text
effective_container_state c =
    if equal c.status (codes "running") && equal c.health (codes "unhealthy")
    then codes "unhealthy"
    else c.status

pub record ContainerStatusChange : Type 0 where
  pub name : Text
  pub from : Text
  pub to : Text

-- `candidate` is `none` for null, `last_reported_at` is `none` for minus infinity.
pub record TrackedState : Type 0 where
  pub reported : Text
  pub candidate : Option Text
  pub candidate_polls : ℕ
  pub last_reported_at : Option ℕ

-- The constructor's options.
pub record TrackerOptions : Type 0 where
  pub confirm_polls : ℕ
  pub min_interval_ms : ℕ

abbrev pub is_candidate : Text → Option Text → Bool
is_candidate state none = false
is_candidate state (some candidate) = equal state candidate

-- `t - lastReportedAt < minIntervalMs`
abbrev pub too_soon : ℕ → Option ℕ → ℕ → Bool
too_soon t none interval = false
too_soon t (some last) interval = ltb t (last + interval)

module _ (options : TrackerOptions) (t : ℕ) where
  -- What the loop does with a container that is tracked, in the state `state`.
  pub follow : Text → TrackedState → Text → TrackedState × Option ContainerStatusChange
  follow name tracked state =
      let polls = if is_candidate state tracked.candidate then tracked.candidate_polls + 1 else 1 in
      if equal state tracked.reported
      then (record tracked { candidate = none; candidate_polls = 0 }, none)
      else if ltb polls options.confirm_polls
          || too_soon t tracked.last_reported_at options.min_interval_ms
      then (record tracked { candidate = some state; candidate_polls = polls }, none)
      else (
        record {
          reported = state;
          candidate = none;
          candidate_polls = 0;
          last_reported_at = some t;
        },
        some (record { name = name; from = tracked.reported; to = state }),
      )

  abbrev pub first_seen : Text → TrackedState
  first_seen state = record {
    reported = state;
    candidate = none;
    candidate_polls = 0;
    last_reported_at = none;
  }

  -- What the loop does with the entry of a container.
  pub observe_entry :
      Text → Option TrackedState → Text → TrackedState × Option ContainerStatusChange
  observe_entry name none state = (first_seen state, none)
  observe_entry name (some tracked) state = follow name tracked state

  abbrev pub is_watched : List Text → WatchedContainer → Bool
  is_watched ignore c = is_managed_container_name c.name && not (includes ignore c.name)

  -- The loop over the rows: the new map and the changes.
  pub observe_rows :
      Dict TrackedState
      → List WatchedContainer
      → List Text
      → Dict TrackedState × List ContainerStatusChange
  observe_rows states [] ignore = (states, [])
  observe_rows states (c ∷ rows) ignore =
      let seen = observe_entry c.name (states c.name) (effective_container_state c) in
      let entered = observe_rows (insert c.name seen.0 states) rows ignore in
      let passed = observe_rows states rows ignore in
      if is_watched ignore c then (entered.0, cons_some seen.1 entered.1) else passed

  -- `seen.has(name)` after the loop.
  pub was_seen : Text → List WatchedContainer → List Text → Bool
  was_seen name [] ignore = false
  was_seen name (c ∷ rows) ignore =
      (is_watched ignore c && equal c.name name) || was_seen name rows ignore

  pub observe :
      Dict TrackedState
      → List WatchedContainer
      → List Text
      → Dict TrackedState × List ContainerStatusChange
  observe states rows ignore =
      let after = observe_rows states rows ignore in
      (λ name. if was_seen name rows ignore then after.0 name else none, after.1)
