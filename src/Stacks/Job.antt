-- ===== src/Stacks/Job.antt =====
-- provisionService.ts: the job.
use yeah.Base.{
  Bool, true, false, ◌&&◌, ◌||◌, not, Option, none, some, List, [], ◌∷◌, Text, codes, equal, trim,
  split_on, select, map, all, truthy, if◌then◌else◌,
}
use yeah.Program.{World, ◌>>=◌, ◌>>◌, pure, raise, only_if, call, act, catch, finally, note}
use yeah.Program.Steps.{checked, ensure, end_open}
use yeah.Stacks.{
  ServiceStatus, service_running, service_stopped, service_error, StackAction, stop_stack,
  ServiceAction, apply_routing, lifecycle, StackCommand, make_env_dir, run_service, run_action,
  make_stack_dir, make_file_dirs, ensure_network, pull_stack, up_stack, stack_state,
  make_executable, join_stack_network, remove_maintenance, compose_file, env_file, override_file,
  wake_json, dynamic_yaml, template_file, StackCall, connect_stack, end_stack, install_waker,
  exec_stack, write_stack, set_service, publish_service, stack_exited, bad_compose, up_failed,
  StackJob, FileWrite, ServiceInputs,
}

-- The second field of a line, as in `line.split("|")[1]`; nothing where there is none.
abbrev pub second : List Text → Text
second (a ∷ b ∷ rest) = b
second _ = []

abbrev pub state_of : Text → Text
state_of line = second (split_on 124 (trim line))

abbrev pub is_filled : Text → Bool
is_filled [] = false
is_filled _ = true

abbrev pub is_up : Text → Bool
is_up state = equal state (codes "running") || equal state (codes "restarting")

abbrev pub some_line : List Text → Bool
some_line [] = false
some_line _ = true

-- The lines end in a line feed; a carriage return before it is trimmed.
unfoldable pub every_container_up : Text → Bool
every_container_up output =
    let states = select is_filled (map state_of (split_on 10 output)) in
    some_line states && all is_up states

abbrev pub connects_stack : StackCall → Bool
connects_stack connect_stack = true
connects_stack _ = false

abbrev pub ends_stack : StackCall → Bool
ends_stack end_stack = true
ends_stack _ = false

abbrev pub action_status : StackAction → ServiceStatus
action_status stop_stack = service_stopped
action_status _ = service_running

abbrev pub stack_action : ServiceAction → Option StackAction
stack_action (lifecycle action) = some action
stack_action _ = none

abbrev pub is_routing : ServiceAction → Bool
is_routing apply_routing = true
is_routing _ = false

module _ (world : World StackCall) where
  unfoldable pub set_status : ServiceStatus → StackJob Unit
  set_status status = do act world (set_service status); act world (publish_service status)

  unfoldable pub run_stack : StackCommand → StackJob Unit
  run_stack command =
      checked world (exec_stack command) (λ result. stack_exited command result.0) >> pure tt

  unfoldable pub write_template : FileWrite → StackJob Unit
  write_template file = do
    act world (write_stack (template_file file.path))
    only_if file.executable (run_stack (make_executable file.path))

  unfoldable pub write_templates : List FileWrite → StackJob Unit
  write_templates [] = pure tt
  write_templates (file ∷ rest) = write_template file >> write_templates rest

  unfoldable pub write_stack_files : Option (List FileWrite) → StackJob Unit
  write_stack_files none = pure tt
  write_stack_files (some files) = do run_stack make_file_dirs; write_templates files

  -- A stack of which a container is not healthy in time passes where all of its containers run;
  -- otherwise the error of its start is thrown again.
  unfoldable pub check_up : StackJob Unit
  check_up = do
    state ← call world (exec_stack stack_state)
    (if every_container_up state.1 then pure tt else raise up_failed)

  -- Everything before the stack is started.
  unfoldable pub prepare_stack : ServiceInputs → StackJob Unit
  prepare_stack inputs = do
    ensure inputs.compose_ok bad_compose
    run_stack make_stack_dir
    act world (write_stack compose_file)
    act world (write_stack env_file)
    write_stack_files inputs.stack_files
    act world (write_stack override_file)
    run_stack ensure_network
    run_stack pull_stack

  unfoldable pub deploy_stack : ServiceInputs → StackJob Unit
  deploy_stack inputs = do
    prepare_stack inputs
    catch (run_stack up_stack) check_up
    run_stack join_stack_network
    set_status service_running

  unfoldable pub act_on_stack : StackAction → StackJob Unit
  act_on_stack action = do run_stack (run_action action); set_status (action_status action)

  abbrev pub stack_work : ServiceInputs → Option StackAction → StackJob Unit
  stack_work inputs none = deploy_stack inputs
  stack_work inputs (some action) = act_on_stack action

  unfoldable pub provision_stack : ServiceInputs → Option StackAction → StackJob Unit
  provision_stack inputs action =
      finally
        (catch (act world connect_stack >> stack_work inputs action) (set_status service_error))
        (end_open connects_stack ends_stack end_stack)

  unfoldable pub apply_service_maintenance : ServiceInputs → StackJob Unit
  apply_service_maintenance inputs =
      if inputs.in_maintenance
      then (do
        act world install_waker
        act world (write_stack wake_json)
        act world (write_stack dynamic_yaml))
      else act world (exec_stack remove_maintenance)

  -- The error is logged and thrown again.
  unfoldable pub route_service : ServiceInputs → StackJob Unit
  route_service inputs = do
    act world connect_stack
    finally (apply_service_maintenance inputs) (note end_stack)

  unfoldable pub start_container : StackJob Unit
  start_container = do
    run_stack make_env_dir
    act world (write_stack env_file)
    run_stack run_service
    act world (set_service service_running)
    act world (publish_service service_running)

  unfoldable pub provision_container : StackJob Unit
  provision_container =
      catch (do act world connect_stack; finally start_container (note end_stack))
        (set_status service_error)

  -- The job of a service that exists.
  unfoldable pub provision_service : ServiceInputs → ServiceAction → StackJob Unit
  provision_service inputs action =
      if not inputs.has_server
      then act world (set_service service_error)
      else if is_routing action
      then route_service inputs
      else if truthy inputs.compose_content
      then provision_stack inputs (stack_action action)
      else provision_container
