-- ===== src/Stacks/Running.antt =====
-- provisionService.ts: what the status "running" of a service stands on.
use yeah.Base.{
  Bool, true, false, not, Option, none, some, List, [], ◌∷◌, Text, truthy, if◌then◌else◌, ◌≡◌, refl,
}
use yeah.Program.{World, Event, History, Reply, threw, answered, is_zero, act, pure, raise, note}
use yeah.Program.Order.{preceded, Safe, Ready, Safe-more, Ready-more}
use yeah.Program.Logic.{
  Assertion, Leads, Keeps, bind, give, throws, branch, only, event_of, catching, finally_done,
  outcome, noted, bind_call, weaken,
}
use yeah.Program.Steps.{checked-Leads, checked-Keeps, ensure-Keeps, end_open}
use yeah.Program.Success.{sound, backed, late, closing}
use yeah.Stacks.{
  service_running, service_stopped, service_error, StackAction, start_stack, stop_stack,
  restart_stack, ServiceAction, StackCommand, run_service, run_action, up_stack, stack_state,
  make_env_dir, make_stack_dir, make_file_dirs, make_executable, ensure_network, pull_stack,
  join_stack_network, remove_maintenance, compose_file, env_file, override_file, wake_json,
  dynamic_yaml, template_file, StackCall, StackError, connect_stack, end_stack, install_waker,
  exec_stack, write_stack, set_service, publish_service, FileWrite, ServiceInputs, up_failed,
}
use yeah.Stacks.Listing.{lists_running, every_container_up_lem}
use yeah.Stacks.Job.{
  every_container_up, connects_stack, ends_stack, set_status, run_stack, write_template,
  write_templates, write_stack_files, check_up, prepare_stack, deploy_stack, act_on_stack,
  stack_work, provision_stack, apply_service_maintenance, route_service, start_container,
  provision_container, is_routing, stack_action, provision_service,
}

abbrev sets_running : StackCall → Bool
sets_running (set_service service_running) = true
sets_running _ = false

abbrev pub runs_service : Event StackCall → Bool
runs_service e = sets_running e.effect

abbrev output_of : Reply → Text
output_of threw = []
output_of (answered code output) = output

abbrev proof_in : StackCall → Reply → Bool
proof_in (exec_stack up_stack) reply = is_zero reply
proof_in (exec_stack run_service) reply = is_zero reply
proof_in (exec_stack (run_action start_stack)) reply = is_zero reply
proof_in (exec_stack (run_action restart_stack)) reply = is_zero reply
proof_in (exec_stack stack_state) reply = lists_running (output_of reply)
proof_in _ reply = false

-- The command that starts or restarts the containers exits with 0, or the list of the containers
-- names the state of at least one, and each state named is running or restarting.
abbrev pub proves_running : Event StackCall → Bool
proves_running e = proof_in e.effect e.reply

abbrev Sound : Assertion StackCall
Sound = Safe runs_service proves_running

abbrev Proved : Assertion StackCall
Proved = Ready runs_service proves_running

abbrev Either : Bool → Assertion StackCall
Either true = Proved
Either false = Sound

module _ (world : World StackCall) where
  kept :
      (effect : StackCall) (h : History StackCall) (r : Reply)
      → sets_running effect ≡ false
      → Sound h
      → Sound (record { effect = effect; reply = r } ∷ h)
  kept effect h r other s =
      Safe-more runs_service proves_running (record { effect = effect; reply = r }) h other s

  goes :
      (effect : StackCall)
      → sets_running effect ≡ false
      → Keeps {F = StackError} Sound (act world effect)
  goes effect other = sound runs_service proves_running world effect (λ h. other)

  run_stack-Keeps : (command : StackCommand) → Keeps Sound (run_stack world command)
  unfolding run_stack
  run_stack-Keeps command =
      bind
        (checked-Keeps world (exec_stack command) _
          (λ h s. kept (exec_stack command) h (world h (exec_stack command)) refl s))
        (λ _. give)

  run_late : (command : StackCommand) → Leads Proved Proved Sound (run_stack world command)
  unfolding run_stack
  run_late command = late runs_service proves_running (
      bind
        (checked-Keeps world (exec_stack command) _ (λ h p.
          Ready-more runs_service proves_running (event_of world (exec_stack command) h) h p))
        (λ _. give))

  -- A command whose success proves that the service runs.
  run_stack-proves :
      (command : StackCommand)
      → ((output : Text) → proof_in (exec_stack command) (answered 0 output) ≡ true)
      → Leads Sound Proved Sound (run_stack world command)
  unfolding run_stack
  run_stack-proves command here =
      bind
        (checked-Leads world (exec_stack command) _
          (λ h output s e. (
            kept (exec_stack command) h (world h (exec_stack command)) refl s,
            rw (e, here output) refl,
          ))
          (λ h s. kept (exec_stack command) h (world h (exec_stack command)) refl s))
        (λ _. give)

  running_Leads : Leads Proved Sound Sound (set_status world service_running)
  unfolding set_status
  running_Leads =
      bind (backed runs_service proves_running world (set_service service_running)) (λ _.
        weaken (λ h p. p) (λ h p. p.0) (λ h s. s)
          (backed runs_service proves_running world (publish_service service_running)))

  error_Leads : Keeps Sound (set_status world service_error)
  unfolding set_status
  error_Leads =
      bind (goes (set_service service_error) refl) (λ _. goes (publish_service service_error) refl)

  check_up_Leads : Leads Sound Proved Sound (check_up world)
  unfolding check_up
  check_up_Leads =
      bind_call world (λ code output. Either (every_container_up output)) (exec_stack stack_state) _
        (λ h r s. kept (exec_stack stack_state) h r refl s)
        (λ h code output s. proved (every_container_up output) h (answered code output) refl s)
        (λ code output. passed (every_container_up output))
    where
      proved :
          (b : Bool) (h : History StackCall) (r : Reply)
          → every_container_up (output_of r) ≡ b
          → Sound h
          → Either b (record { effect = exec_stack stack_state; reply = r } ∷ h)
      proved true h r here s =
          let listed = every_container_up_lem (output_of r) in
          (kept (exec_stack stack_state) h r refl s, rw (← listed, here) refl)
      proved false h r here s = kept (exec_stack stack_state) h r refl s

      passed :
          (b : Bool)
          → Leads {F = StackError} (Either b) Proved Sound (if b then pure tt else raise up_failed)
      passed true = give
      passed false = throws (λ h s. s)

  write_templates-Keeps : (files : List FileWrite) → Keeps Sound (write_templates world files)
  unfolding write_templates write_template
  write_templates-Keeps [] = give
  write_templates-Keeps (file ∷ rest) =
      bind
        (bind (goes (write_stack (template_file file.path)) refl)
          (λ _. only file.executable (run_stack-Keeps (make_executable file.path))))
        (λ _. write_templates-Keeps rest)

  write_stack_files-Keeps :
      (files : Option (List FileWrite)) → Keeps Sound (write_stack_files world files)
  unfolding write_stack_files
  write_stack_files-Keeps none = give
  write_stack_files-Keeps (some files) =
      bind (run_stack-Keeps make_file_dirs) (λ _. write_templates-Keeps files)

  prepare_stack-Keeps : (inputs : ServiceInputs) → Keeps Sound (prepare_stack world inputs)
  unfolding prepare_stack
  prepare_stack-Keeps inputs = bind (ensure-Keeps _ _) (λ _.
      bind (run_stack-Keeps make_stack_dir) (λ _. bind (goes (write_stack compose_file) refl) (λ _.
        bind (goes (write_stack env_file) refl) (λ _.
          bind (write_stack_files-Keeps inputs.stack_files) (λ _.
            bind (goes (write_stack override_file) refl)
              (λ _. bind (run_stack-Keeps ensure_network) (λ _. run_stack-Keeps pull_stack)))))))

  deploy_stack-Keeps : (inputs : ServiceInputs) → Keeps Sound (deploy_stack world inputs)
  unfolding deploy_stack
  deploy_stack-Keeps inputs = bind (prepare_stack-Keeps inputs) (λ _.
      bind (catching (run_stack-proves up_stack (λ output. refl)) check_up_Leads)
        (λ _. bind (run_late join_stack_network) (λ _. running_Leads)))

  act_on_stack-Keeps : (action : StackAction) → Keeps Sound (act_on_stack world action)
  unfolding act_on_stack set_status
  act_on_stack-Keeps stop_stack = bind (run_stack-Keeps (run_action stop_stack)) (λ _.
      bind (goes (set_service service_stopped) refl)
        (λ _. goes (publish_service service_stopped) refl))
  act_on_stack-Keeps start_stack =
      bind (run_stack-proves (run_action start_stack) (λ output. refl)) (λ _. running_Leads)
  act_on_stack-Keeps restart_stack =
      bind (run_stack-proves (run_action restart_stack) (λ output. refl)) (λ _. running_Leads)

  stack_work-Keeps :
      (inputs : ServiceInputs) (action : Option StackAction)
      → Keeps Sound (stack_work world inputs action)
  stack_work-Keeps inputs none = deploy_stack-Keeps inputs
  stack_work-Keeps inputs (some action) = act_on_stack-Keeps action

  provision_stack-Keeps :
      (inputs : ServiceInputs) (action : Option StackAction)
      → Keeps Sound (provision_stack world inputs action)
  unfolding provision_stack
  provision_stack-Keeps inputs action =
      finally_done
        (catching (bind (goes connect_stack refl) (λ _. stack_work-Keeps inputs action))
          error_Leads)
        ending ending
    where
      ending : Keeps {F = StackError} Sound (end_open connects_stack ends_stack end_stack)
      ending = closing runs_service proves_running connects_stack ends_stack end_stack refl

  left : Keeps {F = StackError} Sound (note end_stack)
  left = noted end_stack (λ h s. kept end_stack h (answered 0 []) refl s)

  route_service-Keeps : (inputs : ServiceInputs) → Keeps Sound (route_service world inputs)
  unfolding route_service apply_service_maintenance
  route_service-Keeps inputs = bind (goes connect_stack refl) (λ _.
      finally_done
        (branch inputs.in_maintenance
          (bind (goes install_waker refl) (λ _.
            bind (goes (write_stack wake_json) refl) (λ _. goes (write_stack dynamic_yaml) refl)))
          (goes (exec_stack remove_maintenance) refl))
        left left)

  provision_container-Keeps : Keeps Sound (provision_container world)
  unfolding provision_container start_container
  provision_container-Keeps =
      catching (bind (goes connect_stack refl) (λ _. finally_done started left left)) error_Leads
    where
      started : Keeps Sound (start_container world)
      started = bind (run_stack-Keeps make_env_dir) (λ _.
          bind (goes (write_stack env_file) refl) (λ _.
            bind (run_stack-proves run_service (λ output. refl)) (λ _.
              bind (backed runs_service proves_running world (set_service service_running)) (λ _.
                weaken (λ h p. p) (λ h p. p.0) (λ h s. s)
                  (backed runs_service proves_running world (publish_service service_running))))))

  -- Whatever the calls answer or throw, a service is set to running only after the command that starts its
  -- container or its stack, or starts or restarts its stack on request, has exited with 0, or after the list of
  -- the stack's containers has named the state of at least one, and each state named is running or restarting.
  pub provision_service-proved :
      (inputs : ServiceInputs) (action : ServiceAction)
      → preceded runs_service proves_running (provision_service world inputs action []).0 ≡ true
  unfolding provision_service
  provision_service-proved inputs action =
      outcome
        (branch (not inputs.has_server) (goes (set_service service_error) refl) (
          branch (is_routing action) (route_service-Keeps inputs) (
            branch (truthy inputs.compose_content)
              (provision_stack-Keeps inputs (stack_action action)) provision_container-Keeps)))
        [] refl
