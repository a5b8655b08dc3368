-- ===== src/Lib.antt =====
-- A verification library for yeah, the self-hosted deployment panel of this repository.
--
-- The panel's API (apps/api) and worker (apps/worker) share pure policies and text builders
-- (packages/shared). The library models the policies that decide what runs, what is refused and what
-- reaches a shell on a managed server, and proves what they promise.
--
-- Files and code:
-- Base and its children: shared types, list, text and map operations of the standard library that
--   the code uses. A string is the list of its UTF-16 code units; a `Map` whose order is never read
--   is a function from keys; `sort` is a stable insertion sort; `String(n)` is decimal.
-- Shell: packages/shared/src/shell.ts, shellQuote, parseDockerOptions and resourceSlug. Shell/Posix
--   is the reading of words by a POSIX shell, against which quoting is stated.
-- Paths: the path and name validators of packages/shared/src/shell.ts, compose.ts, fileBrowser.ts and
--   stackFiles.ts; regular expressions are written out as tests of characters.
-- Program: what the worker's jobs are written in. A job is a program over the answers of its awaited
--   calls, which any `World` gives or throws; the history of the calls is its state. Program/Logic
--   has a rule for each way to build a program (await, if, throw, try, catch, finally), Program/Order
--   the order and number of events, Program/Steps commands that must exit with 0 and connections, Program/Success
--   jobs that store a success only after a decisive event, Program/Yields results that matter.
-- Deploy: apps/worker/src/jobs/deployApplication.ts (with writeAppRouting of
--   apps/worker/src/lib/appRouting.ts and buildImageSteps of deployApplication.commands.ts), the job
--   that deploys an application. Deploy/Phases, Pipeline and Job are the job; Deploy/Prepare, Stages,
--   Exchange, Container and Whole are the reasoning on it, part by part; Deploy/Release, Rollback,
--   Connections and Finish are what the job promises.
--   A command is a constructor for the builder that prints it, and a file is named by its role: the
--   texts of commands, files and log lines are not modelled, nor are the chunks of a command's
--   output, which the job sends to the log without waiting. Whether the listing of the images holds
--   one beyond the retention count is an argument, `has_stale`. The rows that the
--   job reads are `Inputs`; reading them is not a call of the model.
-- VolumeBackup: apps/worker/src/jobs/volumeBackup.ts, the archive of a volume and its restore, with the
--   retention. VolumeBackup/Job is the job; Keeps is the reasoning on its parts; Restart and Finish
--   are what it promises. In this and the next jobs a read of rows is a call, and what it finds is
--   an input; a command or a file is a constructor, as for Deploy.
-- DatabaseBackup: apps/worker/src/jobs/backupDatabase.ts, the dump of a database, its upload and the
--   retention. `parse_int`, the runtime's parser of numbers, is an argument.
-- InstanceBackup: apps/worker/src/jobs/instanceBackup.ts and packages/shared/src/instanceBackup.ts, the
--   backup of the panel's own database.
-- Restore: apps/worker/src/jobs/restoreDatabase.ts, a backup put back into its database. The steps that
--   databaseDump.commands.ts builds are an input.
-- PlatformUpdate: apps/worker/src/jobs/platformOperation.ts, the updates of the panel's own host. The
--   output of a command is taken as one chunk, and what is stored of it while it runs is left out.
-- Stacks: apps/worker/src/jobs/provisionService.ts, everyContainerUp of provisionService.commands.ts and
--   applyServiceMaintenance of apps/worker/src/lib/serviceMaintenance.ts, the start of a service.
--   Stacks/Listing is the list of containers, line by line.
-- Tasks: apps/worker/src/jobs/scheduledTask.ts, the scheduled tasks. Which of the command and the timer
--   ends first is an input, and so is the message of the error where a call throws.
-- GuardJob: apps/worker/src/jobs/memoryGuard.ts and memoryGuard.commands.ts, the tick that applies the
--   policy of MemoryGuard; the statistics of the containers are an input.
-- Traefik: packages/shared/src/traefik.ts, the routing of hostnames, the labels and the proxy's file.
-- MemoryGuard: packages/shared/src/memoryGuard.ts, the policy that stops and restarts resources.
-- ContainerWatch: packages/shared/src/containerWatch.ts, restart loops and the status tracker.
-- RateLimit: apps/api/src/lib/rateLimit.ts, the fixed-window limiter of every API request.
-- ImagePrune: packages/shared/src/rollbackImages.ts, selectImagesToRemove, the cleanup of Docker images.
-- Challenges: apps/api/src/lib/webauthnChallenges.ts, the one-shot challenges of passkey logins.
-- Breaker: apps/worker/src/lib/circuitBreaker.ts, the circuit breaker of the polling jobs.
--
-- A class is a record of its fields, or its map where it has one field; a method returns the new
-- state with its result. Clock readings are arguments, in milliseconds. Numbers are natural numbers:
-- the code keeps counts and times that stay below 2^53, where a double is exact. `null` and
-- `undefined` are `none`. What the runtime's locale decides (localeCompare, toLowerCase) is an
-- argument, with a named hypothesis where a theorem relies on it. No loop needs fuel except
-- `to_text`, which is given one round more than the number it prints, more than its digits.
--
-- Not modelled: HTTP routing, the database, SSH and Docker, of which a job sees the answers
-- only, and the dashboard; the number parsing of `Number()` in parseContainerWatch; isGuardPriority and isSshGitUrl.
pub mod Base
pub mod Breaker
pub mod Challenges
pub mod ContainerWatch
pub mod DatabaseBackup
pub mod Deploy
pub mod GuardJob
pub mod ImagePrune
pub mod InstanceBackup
pub mod MemoryGuard
pub mod Paths
pub mod PlatformUpdate
pub mod Program
pub mod RateLimit
pub mod Restore
pub mod Shell
pub mod Stacks
pub mod Tasks
pub mod Traefik
pub mod VolumeBackup
