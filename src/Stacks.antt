-- ===== src/Stacks.antt =====
-- apps/worker/src/jobs/provisionService.ts: the job that starts a service: a single container, or a
-- stack of containers from a compose file.
pub mod Job
pub mod Listing
pub mod Running
pub mod Reports
mod Tests
use yeah.Base.{ℕ, Bool, Option, List, Text}
use yeah.Program.{Program}

pub data ServiceStatus : Type 0 where
  service_running service_stopped service_error : ServiceStatus

pub data StackAction : Type 0 where
  start_stack stop_stack restart_stack : StackAction

pub data ServiceAction : Type 0 where
  deploy_service apply_routing : ServiceAction
  lifecycle : StackAction → ServiceAction

-- The commands, one constructor for each builder of the source.
pub data StackCommand : Type 0 where
  make_env_dir run_service : StackCommand
  run_action : StackAction → StackCommand
  make_stack_dir make_file_dirs ensure_network pull_stack up_stack stack_state : StackCommand
  make_executable : Text → StackCommand
  join_stack_network remove_maintenance : StackCommand

pub data StackFile : Type 0 where
  compose_file env_file override_file wake_json dynamic_yaml : StackFile
  template_file : Text → StackFile

-- `install_waker` stands for `installWaker`, which copies the waker to the server.
pub data StackCall : Type 0 where
  connect_stack end_stack install_waker : StackCall
  exec_stack : StackCommand → StackCall
  write_stack : StackFile → StackCall
  set_service publish_service : ServiceStatus → StackCall

pub data StackError : Type 0 where
  stack_exited : StackCommand → ℕ → StackError
  bad_compose up_failed : StackError

abbrev pub StackJob : Type 0 → Type 0
StackJob = Program StackCall StackError

-- A file of the template, by its path, and whether it is made executable.
pub record FileWrite : Type 0 where
  pub path : Text
  pub executable : Bool

-- The service, as far as the job reads it: `compose_ok` tells whether its compose file parses, and
-- `in_maintenance` whether it has files of the maintenance page.
pub record ServiceInputs : Type 0 where
  pub has_server : Bool
  pub compose_content : Option Text
  pub compose_ok : Bool
  pub stack_files : Option (List FileWrite)
  pub in_maintenance : Bool
