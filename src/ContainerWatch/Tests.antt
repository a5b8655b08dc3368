-- ===== src/ContainerWatch/Tests.antt =====
-- Runs of the watch, and instances of its theorems.
use yeah.Base.{
  ℕ, ◌≡◌, ◌≢◌, ◌≤◌, refl, false, some, none, List, [], ◌∷◌, Text, codes, empty, insert, equal,
  to_text,
}
use yeah.ContainerWatch.{
  WatchedContainer, TrackedState, TrackerOptions, ContainerStatusChange, restart_loop, judge,
  problem_of, detect_container_problems, observe_entry, follow,
}
use yeah.ContainerWatch.Reports.{Poll, latest, answer, entry_after, reports_confirmed}

abbrev container : Text → Text → ℕ → WatchedContainer
container name status count = record {
  name = name;
  status = status;
  exit_code = 1;
  oom_killed = false;
  restart_count = count;
  restart_policy = codes "always";
  health = codes "";
}

abbrev web : Text
web = codes "yeah-app-web"

abbrev options : TrackerOptions
options = record { confirm_polls = 2; min_interval_ms = 300_000 }

problems :
    (detect_container_problems (insert web 2 empty) (container web (codes "running") 6 ∷ []) []).1
    ≡ record {
      name = web;
      reason = restart_loop;
      detail = codes "restarted 4 times since the last check";
    }
      ∷ []
unfolding detect_container_problems problem_of judge equal to_text
problems = refl

abbrev poll : ℕ → Text → Poll
poll at state = record { at = at; state = state }

abbrev polls : List Poll
polls = poll 20 (codes "exited") ∷ poll 10 (codes "running") ∷ []

abbrev down : ContainerStatusChange
down = record { name = web; from = codes "running"; to = codes "exited" }

abbrev up : ContainerStatusChange
up = record { name = web; from = codes "exited"; to = codes "running" }

reported :
    (answer options web (entry_after options web polls) (poll 30 (codes "exited"))).1 ≡ some down
unfolding observe_entry follow equal
reported = refl

abbrev later : List Poll
later = poll 40 (codes "running") ∷ poll 30 (codes "exited") ∷ polls

reports_confirmed_example :
    (2 ≤ latest (codes "exited") (poll 30 (codes "exited") ∷ polls))
    × (down.to ≡ codes "exited")
    × (down.from ≢ down.to)
    × (down.name ≡ web)
reports_confirmed_example =
    reports_confirmed options web polls (poll 30 (codes "exited")) down reported

abbrev waiting : TrackedState
waiting = record {
  reported = codes "running";
  candidate = some (codes "exited");
  candidate_polls = 1;
  last_reported_at = none;
}

held : entry_after options web polls ≡ some waiting
unfolding observe_entry follow equal
held = refl

abbrev rows : List WatchedContainer
rows = container web (codes "running") 0 ∷ container (codes "other") (codes "exited") 0 ∷ []
