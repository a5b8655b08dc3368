-- ===== src/Deploy/Rollback.antt =====
-- Rollbacks run no release command.
use yeah.Base.{Bool, true, false, ◌||◌, [], Text, ◌≡◌, refl, any, arith}
use yeah.Deploy.{Command, Inputs, is_rollback, is_compose, Effect}
use yeah.Program.{History, Event, World}
use yeah.Program.Logic.{bind, branch}
use yeah.Program.Order.{Fresh-more}
use yeah.Deploy.Prepare.{is_plain_command, is_exec_of, is_plain-exec, is_pre_deploy, is_post_deploy}
use yeah.Deploy.Exchange.{Plain, start_compose-Leads, switch_container-Leads, succeed-Leads}
use yeah.Deploy.Container.{prepare_container-Keeps, after_switch-Keeps}
use yeah.Deploy.Whole.{deploy_body-Leads, deploy_application_end}
use yeah.Deploy.Job.{deploy_application}

-- A release command is run.
abbrev pub releases : Event Effect → Bool
releases e = is_exec_of (λ c. is_pre_deploy c || is_post_deploy c) e.effect

plain-release :
    (c : Command) → is_plain_command c ≡ true → is_pre_deploy c || is_post_deploy c ≡ false
plain-release c e = ground arith

-- A rollback, to a commit or to a retained image and in any world, runs neither the pre-deploy nor
-- the post-deploy command.
pub rollback_skips_releases :
    (world : World Effect) (has_stale : Text → Bool) (inputs : Inputs)
    → is_rollback inputs ≡ true
    → any releases (deploy_application world has_stale inputs []).0 ≡ false
rollback_skips_releases world has_stale inputs rollback =
    deploy_application_end world quiet plain_quiet (λ h p. p) quiet has_stale inputs plain_quiet
      (λ h p. p)
      (deploy_body-Leads world quiet quiet quiet quiet has_stale inputs plain_quiet (λ h p. p)
        (λ built commit.
          branch (is_compose inputs.build_pack)
            (start_compose-Leads world quiet quiet quiet inputs plain_quiet plain_quiet (λ h p. p)
              (λ h p. p) (λ test host r h p. p) (λ test host output h p. p))
            (bind
              (prepare_container-Keeps world inputs quiet built commit (ground arith) plain_quiet)
              (λ _.
                switch_container-Leads world quiet quiet quiet plain_quiet plain_quiet (λ h p. p)
                  (λ h p. p) (λ host r h p. p) (λ host r h p. p) (λ host output h p. p))))
        (bind
          (after_switch-Keeps world inputs quiet has_stale (ground arith) plain_quiet
            (λ host r h p. p))
          (λ _. succeed-Leads world quiet quiet (λ h p. p) plain_quiet)))
      [] refl
  where
    quiet : History Effect → Type 0
    quiet h = any releases h ≡ false

    plain_quiet : Plain quiet
    plain_quiet e h p =
        Fresh-more releases releases e h
          (is_plain-exec (λ c. is_pre_deploy c || is_post_deploy c) plain-release e.effect p)
