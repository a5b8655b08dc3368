-- ===== src/Deploy/Release.antt =====
-- The order in which a deployment runs its release commands, exchanges the containers and reports
-- success.
use yeah.Base.{truthy, Bool, true, false, ◌&&◌, [], Text, ◌≡◌, refl, arith}
use yeah.Deploy.{finish, success, Command, stop_old, exec, Inputs, is_rollback, is_compose, Effect}
use yeah.Program.{History, Event, World, is_zero}
use yeah.Program.Logic.{bind, weaken, branch, event_of}
use yeah.Program.Order.{preceded, Fresh, Safe, Ready, Fresh-more, Safe-more, Ready-more, Fresh-Safe}
use yeah.Deploy.Prepare.{
  is_plain_command, is_exec_of, is_plain-exec, is_plain-success, is_success, is_start, is_stop_old,
  is_health_wait, is_pre_deploy,
}
use yeah.Deploy.Exchange.{Plain, start_compose-Leads, switch_container-Leads, succeed-Leads}
use yeah.Deploy.Container.{
  prepare_container-Leads, prepare_container-Own, after_switch-Own, after_switch-Leads,
}
use yeah.Deploy.Whole.{deploy_body-Leads, deploy_application_end}
use yeah.Deploy.Job.{deploy_application}

-- The old container is told to stop.
abbrev pub stops : Event Effect → Bool
stops e = is_exec_of is_stop_old e.effect

-- The pre-deploy command exits with 0.
abbrev pub pre_deployed : Event Effect → Bool
pre_deployed e = is_exec_of is_pre_deploy e.effect && is_zero e.reply

plain-stop : (c : Command) → is_plain_command c ≡ true → is_stop_old c ≡ false
plain-stop c e = ground arith

-- A deployment with a pre-deploy command that is not a rollback, in any world: the old container is
-- told to stop only after the pre-deploy command has exited with 0.
pub pre_deploy_before_stop :
    (world : World Effect) (has_stale : Text → Bool) (inputs : Inputs)
    → truthy inputs.pre_deploy_command ≡ true
    → is_rollback inputs ≡ false
    → preceded stops pre_deployed (deploy_application world has_stale inputs []).0 ≡ true
pre_deploy_before_stop world has_stale inputs command fresh_build =
    deploy_application_end world safe plain_safe (λ h p. p) fresh has_stale inputs plain_fresh
      starts
      (deploy_body-Leads world fresh safe safe safe has_stale inputs plain_fresh starts
        (λ built commit.
          branch (is_compose inputs.build_pack)
            (weaken (λ h p. p) starts (λ h p. p)
              (start_compose-Leads world fresh fresh safe inputs plain_fresh plain_fresh starts
                starts (λ test host r h p. p) (λ test host output h p. p)))
            (bind
              (prepare_container-Leads world inputs fresh ready safe built commit
                (rw (command, fresh_build) refl) plain_fresh starts (λ host r h p. p)
                (λ host output h p. (starts h p, refl)))
              (λ _.
                weaken (λ h p. p) (λ h p. p.0) (λ h p. p)
                  (switch_container-Leads world ready ready safe plain_ready plain_ready
                    (λ h p. p.0) (λ h p. p.0)
                    (λ host r h.
                      Ready-more stops pre_deployed
                        (record { effect = exec host stop_old; reply = r }) h)
                    (λ host r h p. p) (λ host output h p. p)))))
        (bind
          (after_switch-Own world inputs safe has_stale plain_safe (λ host r h p. p)
            (λ host r h p. p))
          (λ _. succeed-Leads world safe safe (λ h p. p) plain_safe)))
      [] refl
  where
    fresh : History Effect → Type 0
    fresh = Fresh stops pre_deployed

    safe : History Effect → Type 0
    safe = Safe stops pre_deployed

    ready : History Effect → Type 0
    ready = Ready stops pre_deployed

    starts : (h : History Effect) → fresh h → safe h
    starts = Fresh-Safe stops pre_deployed

    plain_fresh : Plain fresh
    plain_fresh e h p =
        Fresh-more stops pre_deployed e h (is_plain-exec is_stop_old plain-stop e.effect p)

    plain_safe : Plain safe
    plain_safe e h p =
        Safe-more stops pre_deployed e h (is_plain-exec is_stop_old plain-stop e.effect p)

    plain_ready : Plain ready
    plain_ready e h p = Ready-more stops pre_deployed e h

-- The deployment is stored as successful.
abbrev pub succeeds : Event Effect → Bool
succeeds e = is_success e.effect

-- The new version is started, by `docker run` or the compose project, with exit code 0.
abbrev pub started : Event Effect → Bool
started e = is_exec_of is_start e.effect && is_zero e.reply

-- In any world a deployment is stored as successful only after the command that starts the new
-- version has exited with 0.
pub start_before_success :
    (world : World Effect) (has_stale : Text → Bool) (inputs : Inputs)
    → preceded succeeds started (deploy_application world has_stale inputs []).0 ≡ true
start_before_success world has_stale inputs =
    deploy_application_end world safe plain_safe (λ h p. p) fresh has_stale inputs plain_fresh
      starts
      (deploy_body-Leads world fresh ready safe safe has_stale inputs plain_fresh starts
        (λ built commit.
          branch (is_compose inputs.build_pack)
            (start_compose-Leads world fresh ready safe inputs plain_fresh plain_ready starts
              (λ h p. p.0) (λ test host r h p. p) (λ test host output h p. (starts h p, refl)))
            (bind
              (weaken (λ h p. p) (λ h p. p) starts
                (prepare_container-Own world inputs fresh built commit plain_fresh
                  (λ host r h p. p)))
              (λ _.
                switch_container-Leads world fresh ready safe plain_fresh plain_ready starts
                  (λ h p. p.0) (λ host r h p. p) (λ host r h p. p)
                  (λ host output h p. (starts h p, refl)))))
        (bind
          (weaken (λ h p. p) (λ h p. p) (λ h p. p.0)
            (after_switch-Own world inputs ready has_stale plain_ready (λ host r h p. p)
              (λ host r h p. p)))
          (λ _.
            succeed-Leads world ready safe
              (λ h p. (Ready-more succeeds started (event_of world (finish success) h) h p).0)
              plain_safe)))
      [] refl
  where
    fresh : History Effect → Type 0
    fresh = Fresh succeeds started

    safe : History Effect → Type 0
    safe = Safe succeeds started

    ready : History Effect → Type 0
    ready = Ready succeeds started

    starts : (h : History Effect) → fresh h → safe h
    starts = Fresh-Safe succeeds started

    plain_fresh : Plain fresh
    plain_fresh e h p = Fresh-more succeeds started e h (is_plain-success e.effect p)

    plain_safe : Plain safe
    plain_safe e h p = Safe-more succeeds started e h (is_plain-success e.effect p)

    plain_ready : Plain ready
    plain_ready e h p = Ready-more succeeds started e h

-- The health check is waited for and passes.
abbrev pub healthy : Event Effect → Bool
healthy e = is_exec_of is_health_wait e.effect && is_zero e.reply

-- A deployment with a health path that is not a compose project is stored as successful, in any
-- world, only after the health check has passed.
pub health_before_success :
    (world : World Effect) (has_stale : Text → Bool) (inputs : Inputs)
    → truthy inputs.health_path ≡ true
    → is_compose inputs.build_pack ≡ false
    → preceded succeeds healthy (deploy_application world has_stale inputs []).0 ≡ true
health_before_success world has_stale inputs path single =
    deploy_application_end world safe plain_safe (λ h p. p) fresh has_stale inputs plain_fresh
      starts
      (deploy_body-Leads world fresh fresh safe safe has_stale inputs plain_fresh starts
        (λ built commit.
          branch (is_compose inputs.build_pack)
            (start_compose-Leads world fresh fresh safe inputs plain_fresh plain_fresh starts starts
              (λ test host r h p. p) (λ test host output h p. p))
            (bind
              (weaken (λ h p. p) (λ h p. p) starts
                (prepare_container-Own world inputs fresh built commit plain_fresh
                  (λ host r h p. p)))
              (λ _.
                switch_container-Leads world fresh fresh safe plain_fresh plain_fresh starts starts
                  (λ host r h p. p) (λ host r h p. p) (λ host output h p. p))))
        (bind
          (after_switch-Leads world inputs fresh ready safe has_stale (rw (path, single) refl)
            plain_fresh plain_ready starts (λ h p. p.0) (λ host r h p. p)
            (λ host output h p. (starts h p, refl)) (λ host r h p. p))
          (λ _.
            succeed-Leads world ready safe
              (λ h p. (Ready-more succeeds healthy (event_of world (finish success) h) h p).0)
              plain_safe)))
      [] refl
  where
    fresh : History Effect → Type 0
    fresh = Fresh succeeds healthy

    safe : History Effect → Type 0
    safe = Safe succeeds healthy

    ready : History Effect → Type 0
    ready = Ready succeeds healthy

    starts : (h : History Effect) → fresh h → safe h
    starts = Fresh-Safe succeeds healthy

    plain_fresh : Plain fresh
    plain_fresh e h p = Fresh-more succeeds healthy e h (is_plain-success e.effect p)

    plain_safe : Plain safe
    plain_safe e h p = Safe-more succeeds healthy e h (is_plain-success e.effect p)

    plain_ready : Plain ready
    plain_ready e h p = Ready-more succeeds healthy e h
