-- ===== src/GuardJob.antt =====
-- apps/worker/src/jobs/memoryGuard.ts and memoryGuard.commands.ts: the memory guard of a server, which
-- applies the policy of MemoryGuard to the rows of the panel and the containers that run.
pub mod Job
pub mod Flags
pub mod Critical
mod Tests
use yeah.Base.{
  ℕ, Bool, true, false, ◌&&◌, ◌||◌, not, Option, none, some, List, [], ◌∷◌, ◌++◌, map, Text, codes,
  equal, select, Dict, empty, insert, is_some, if◌then◌else◌,
}
use yeah.Program.{Program}
use yeah.MemoryGuard.{
  GuardPriority, Kind, application, service, Status, running, stopped, other, is_running,
  is_stopped, GuardCandidate,
}

-- A row of `applications` or `services`; `has_many` tells that it runs several containers.
pub record GuardRow : Type 0 where
  pub id : Text
  pub name : Text
  pub priority : GuardPriority
  pub shed_by_guard : Bool
  pub status : Text
  pub has_many : Bool

pub record RunningContainer : Type 0 where
  pub name : Text
  pub mem_used_bytes : Option ℕ

abbrev pub as_status : Text → Status
as_status status =
    if equal status (codes "running")
    then running
    else if equal status (codes "stopped")
    then stopped
    else other

-- `new Map(running.map((c) => [c.name, c]))`
abbrev pub by_name : List RunningContainer → Dict RunningContainer → Dict RunningContainer
by_name [] known = known
by_name (c ∷ rest) known = by_name rest (insert c.name c known)

abbrev pub memory_of : Option RunningContainer → Option ℕ
memory_of none = none
memory_of (some c) = c.mem_used_bytes

-- The status of a resource, whose container is not there though the row says that it runs.
abbrev pub seen_status : GuardRow → Option RunningContainer → Status
seen_status row container =
    if is_running (as_status row.status) && not row.has_many && not (is_some container)
    then other
    else as_status row.status

abbrev pub container_of : Text → Dict RunningContainer → GuardRow → Option RunningContainer
container_of prefix known row = if row.has_many then none else known (prefix ++ row.id)

abbrev pub candidate_of : Kind → Option RunningContainer → GuardRow → GuardCandidate
candidate_of kind container row = record {
  kind = kind;
  id = row.id;
  name = row.name;
  priority = row.priority;
  mem_bytes = memory_of container;
  shed_by_guard = row.shed_by_guard;
  status = seen_status row container;
}

unfoldable pub build_guard_candidates :
    List GuardRow → List GuardRow → List RunningContainer → List GuardCandidate
build_guard_candidates apps services containers =
    let known = by_name containers empty in
    map (λ a. candidate_of application (container_of (codes "yeah-app-") known a) a) apps
    ++ map (λ s. candidate_of service (container_of (codes "yeah-svc-") known s) s) services

abbrev pub is_stale : GuardCandidate → Bool
is_stale c = c.shed_by_guard && not (is_stopped c.status)

abbrev pub stale_shed_flags : List GuardCandidate → List GuardCandidate
stale_shed_flags candidates = select is_stale candidates

-- `flag` writes `shedByGuard`, `queue` adds a stop (`true`) or a start of the resource.
pub data GuardCall : Type 0 where
  read_resources : GuardCall
  flag queue : Kind → Text → Bool → GuardCall
  insert_event notify_guard : Bool → GuardCall

abbrev pub GuardTick : Type 0 → Type 0
GuardTick = Program GuardCall Unit

-- The server, with the rows that the reads find and the containers that run.
pub record GuardServer : Type 0 where
  pub id : Text
  pub memory_guard_enabled : Bool
  pub threshold : ℕ
  pub recover : ℕ
  pub apps : List GuardRow
  pub services : List GuardRow
  pub containers : List RunningContainer
