-- ===== src/Stacks/Tests.antt =====
-- Runs of the job, and the theorems at concrete inputs.
use yeah.Base.{
  true, false, none, some, [], ◌∷◌, ◌++◌, Text, codes, any, equal, trim, split_on, is_space, ◌≡◌,
  refl,
}
use yeah.Program.{History, World, Reply, is_answered, answered, call, note, catch, finally}
use yeah.Program.Steps.{checked, ensure, is_open, end_open}
use yeah.Program.Order.{preceded}
use yeah.Stacks.{StackCall, exec_stack, up_stack, stack_state, deploy_service, ServiceInputs}
use yeah.Stacks.Job.{
  every_container_up, provision_service, provision_stack, deploy_stack, prepare_stack, run_stack,
  write_stack_files, set_status, check_up,
}
use yeah.Stacks.Running.{runs_service, proves_running, provision_service-proved}
use yeah.Stacks.Reports.{is_panel, reports_status, provision_service-reports}

abbrev blog : ServiceInputs
blog = record {
  has_server = true;
  compose_content = some (codes "services:");
  compose_ok = true;
  stack_files = none;
  in_maintenance = false;
}

abbrev unhealthy : Text → StackCall → Reply
unhealthy state (exec_stack up_stack) = answered 1 []
unhealthy state (exec_stack stack_state) = answered 0 state
unhealthy state effect = answered 0 []

-- The stack is not healthy in time, and its containers are listed as given.
abbrev listing : Text → World StackCall
listing state h effect = unhealthy state effect

abbrev all_up : Text
all_up = codes "web|running" ++ 10 ∷ codes "db|running" ++ 10 ∷ []

abbrev one_down : Text
one_down = codes "web|running" ++ 10 ∷ codes "db|exited"

up_run : any runs_service (provision_service (listing all_up) blog deploy_service []).0 ≡ true
unfolding provision_service provision_stack deploy_stack prepare_stack run_stack write_stack_files
    set_status check_up every_container_up call note catch finally checked ensure is_open end_open
    equal trim split_on is_space
up_run = refl

down_run : any runs_service (provision_service (listing one_down) blog deploy_service []).0 ≡ false
unfolding provision_service provision_stack deploy_stack prepare_stack run_stack write_stack_files
    set_status check_up every_container_up call note catch finally checked ensure is_open end_open
    equal trim split_on is_space
down_run = refl

listing_answers :
    (h : History StackCall) (effect : StackCall)
    → is_panel effect ≡ true
    → is_answered (listing one_down h effect) ≡ true
listing_answers h (exec_stack up_stack) mine = refl
listing_answers h (exec_stack stack_state) mine = refl
listing_answers h _ mine = refl

provision_service-proved_example :
    preceded runs_service proves_running
      (provision_service (listing all_up) blog deploy_service []).0
    ≡ true
provision_service-proved_example = provision_service-proved (listing all_up) blog deploy_service

provision_service-reports_example :
    any reports_status (provision_service (listing one_down) blog deploy_service []).0 ≡ true
provision_service-reports_example =
    provision_service-reports (listing one_down) listing_answers blog deploy_service refl
