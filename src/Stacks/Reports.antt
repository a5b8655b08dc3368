-- ===== src/Stacks/Reports.antt =====
-- provisionService.ts: a run of the job that is not about routing stores a status of the service.
use yeah.Base.{
  Bool, true, false, ◌&&◌, not, Option, none, some, [], ◌∷◌, any, truthy, ◌≡◌, refl, arith,
}
use yeah.Program.{World, Event, History, is_answered, answered, act, catch, note}
use yeah.Program.Logic.{
  Assertion, Leads, Keeps, bind, branch, event_of, catching, finally_done, outcome, noted, anyhow,
  answers,
}
use yeah.Program.Steps.{end_open, end_open-Keeps}
use yeah.Stacks.{
  up_stack, join_stack_network, run_action, make_env_dir, env_file, run_service, write_stack,
  ServiceStatus, service_running, service_error, StackAction, ServiceAction, StackCall, StackError,
  connect_stack, end_stack, set_service, publish_service, ServiceInputs,
}
use yeah.Stacks.Job.{
  connects_stack, ends_stack, action_status, set_status, run_stack, check_up, prepare_stack,
  deploy_stack, act_on_stack, stack_work, provision_stack, start_container, provision_container,
  is_routing, stack_action, provision_service,
}

-- The panel's own calls: its database and its event channel.
abbrev pub is_panel : StackCall → Bool
is_panel (set_service status) = true
is_panel (publish_service status) = true
is_panel _ = false

abbrev sets_status : StackCall → Bool
sets_status (set_service status) = true
sets_status _ = false

abbrev pub reports_status : Event StackCall → Bool
reports_status e = sets_status e.effect && is_answered e.reply

abbrev Reported : Assertion StackCall
Reported h = any reports_status h ≡ true

abbrev Anything : Assertion StackCall
Anything h = Unit

more : (e : Event StackCall) (h : History StackCall) → Reported h → Reported (e ∷ h)
more e h r = ground arith

module _ (world : World StackCall)
    (answering : (h : History StackCall) (effect : StackCall)
      → is_panel effect ≡ true
      → is_answered (world h effect) ≡ true) where
  sets :
      (X : Assertion StackCall) (status : ServiceStatus)
      → Leads {F = StackError} Anything Reported X (act world (set_service status))
  sets X status =
      answers world (set_service status) (λ h. answering h (set_service status) refl)
        (λ h p. rw (answering h (set_service status) refl) refl)

  status_Leads :
      (X : Assertion StackCall) (status : ServiceStatus)
      → Leads Anything Reported X (set_status world status)
  unfolding set_status
  status_Leads X status = bind (sets X status) (λ _.
      answers world (publish_service status) (λ h. answering h (publish_service status) refl)
        (λ h r. more (event_of world (publish_service status) h) h r))

  work_Leads :
      (inputs : ServiceInputs) (action : Option StackAction)
      → Leads Anything Reported Anything (stack_work world inputs action)
  unfolding deploy_stack act_on_stack
  work_Leads inputs none = bind (anyhow Anything (prepare_stack world inputs)) (λ _.
      bind (anyhow Anything (catch (run_stack world up_stack) (check_up world))) (λ _.
        bind (anyhow Anything (run_stack world join_stack_network))
          (λ _. status_Leads Anything service_running)))
  work_Leads inputs (some action) =
      bind (anyhow Anything (run_stack world (run_action action)))
        (λ _. status_Leads Anything (action_status action))

  stack_Leads :
      (inputs : ServiceInputs) (action : Option StackAction)
      → Leads Anything Reported Reported (provision_stack world inputs action)
  unfolding provision_stack
  stack_Leads inputs action =
      finally_done
        (catching (bind (anyhow Anything (act world connect_stack)) (λ _. work_Leads inputs action))
          (status_Leads Reported service_error))
        ending ending
    where
      ending : Keeps {F = StackError} Reported (end_open connects_stack ends_stack end_stack)
      ending =
          end_open-Keeps connects_stack ends_stack end_stack
            (λ h r. more (record { effect = end_stack; reply = answered 0 [] }) h r)

  container_Leads : Leads Anything Reported Reported (provision_container world)
  unfolding provision_container start_container
  container_Leads =
      catching
        (bind (anyhow Anything (act world connect_stack))
          (λ _. finally_done started left (anyhow Anything (note end_stack))))
        (status_Leads Reported service_error)
    where
      left : Leads {F = StackError} Reported Reported Anything (note end_stack)
      left =
          noted end_stack (λ h r. more (record { effect = end_stack; reply = answered 0 [] }) h r)

      started : Leads Anything Reported Anything (start_container world)
      started = bind (anyhow Anything (run_stack world make_env_dir)) (λ _.
          bind (anyhow Anything (act world (write_stack env_file))) (λ _.
            bind (anyhow Anything (run_stack world run_service)) (λ _.
              bind (sets Anything service_running) (λ _.
                answers world (publish_service service_running)
                  (λ h. answering h (publish_service service_running) refl)
                  (λ h r. more (event_of world (publish_service service_running) h) h r)))))

  -- Where the panel's database and its event channel do not throw, every run of the job that is not about
  -- the routing stores a status of the service, whatever the server answers or throws.
  pub provision_service-reports :
      (inputs : ServiceInputs) (action : ServiceAction)
      → is_routing action ≡ false
      → any reports_status (provision_service world inputs action []).0 ≡ true
  unfolding provision_service
  provision_service-reports inputs action other =
      outcome
        (branch (not inputs.has_server) (sets Reported service_error) (
          rw other (
            branch (truthy inputs.compose_content) (stack_Leads inputs (stack_action action))
              container_Leads)))
        [] tt
