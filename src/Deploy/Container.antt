-- ===== src/Deploy/Container.antt =====
-- The container's release commands and what follows the exchange, with and without them.
use yeah.Base.{truthy, Bool, true, false, ◌&&◌, not, Option, Text, ltb, ◌≡◌, refl, arith}
use yeah.Deploy.{
  DeployError, RegistryImage, pre_deploy, health_wait, post_deploy, Job, Inputs, is_rollback,
  is_compose, is_image, Effect,
}
use yeah.Program.{History, World, attempt, only_if}
use yeah.Program.Logic.{Leads, Keeps, bind, give, weaken, only}
use yeah.Deploy.Prepare.{run_step-Keeps, attempt-Keeps}
use yeah.Deploy.Stages.{write_app_routing-Keeps, trim_rollback_images-Keeps, make_image-Keeps}
use yeah.Deploy.Exchange.{Plain, Own, Passes, run_step-Own, step-Passes}
use yeah.Deploy.Pipeline.{prepare_container, after_switch, trim_rollback_images}

only-done :
    {P Q E : History Effect → Type 0} (b : Bool) {m : Job Unit}
    → b ≡ true
    → Leads P Q E m
    → Leads P Q E (only_if b m)
only-done true e inner = inner
only-done false e inner = absurd (ground arith)

only-skipped :
    {P E : History Effect → Type 0} (b : Bool) (m : Job Unit)
    → b ≡ false
    → Leads P P E (only_if b m)
only-skipped true m e = absurd (ground arith)
only-skipped false m e = give

module _ (world : World Effect) (inputs : Inputs) where
  -- With a pre-deploy command that runs.
  pub prepare_container-Leads :
      (P Q E : History Effect → Type 0) (built : Option RegistryImage) (commit : Option Text)
      → truthy inputs.pre_deploy_command && not (is_rollback inputs) ≡ true
      → Plain P
      → ((h : History Effect) → P h → E h)
      → Own pre_deploy E
      → Passes pre_deploy P Q
      → Leads P Q E (prepare_container world inputs built commit)
  unfolding prepare_container
  prepare_container-Leads P Q E built commit release plain fails own passes =
      bind (weaken (λ h p. p) (λ h p. p) fails (make_image-Keeps world P plain inputs built commit))
        (λ _.
          bind
            (weaken (λ h p. p) (λ h p. p) fails
              (only (ltb 0 inputs.rollback_images && not (is_image inputs.build_pack))
                (run_step-Keeps world P plain _ _ _ refl)))
            (λ _. only-done _ release (step-Passes world P Q E _ _ plain fails own passes)))

  -- Without one.
  pub prepare_container-Keeps :
      (P : History Effect → Type 0) (built : Option RegistryImage) (commit : Option Text)
      → truthy inputs.pre_deploy_command && not (is_rollback inputs) ≡ false
      → Plain P
      → Keeps {F = DeployError} P (prepare_container world inputs built commit)
  unfolding prepare_container
  prepare_container-Keeps P built commit skipped plain =
      bind (make_image-Keeps world P plain inputs built commit) (λ _.
        bind
          (only (ltb 0 inputs.rollback_images && not (is_image inputs.build_pack))
            (run_step-Keeps world P plain _ _ _ refl))
          (λ _. only-skipped _ _ skipped))

  pub prepare_container-Own :
      (P : History Effect → Type 0) (built : Option RegistryImage) (commit : Option Text)
      → Plain P
      → Own pre_deploy P
      → Keeps {F = DeployError} P (prepare_container world inputs built commit)
  unfolding prepare_container
  prepare_container-Own P built commit plain own =
      bind (make_image-Keeps world P plain inputs built commit) (λ _.
        bind
          (only (ltb 0 inputs.rollback_images && not (is_image inputs.build_pack))
            (run_step-Keeps world P plain _ _ _ refl))
          (λ _.
            only (truthy inputs.pre_deploy_command && not (is_rollback inputs))
              (run_step-Own world P _ _ _ plain own)))

  trimmed :
      (P : History Effect → Type 0) (has_stale : Text → Bool)
      → Plain P
      → Keeps {F = DeployError} P (
          only_if
            (ltb 0 inputs.rollback_images
              && not (is_image inputs.build_pack)
              && not (is_compose inputs.build_pack))
            (attempt (trim_rollback_images world has_stale)))
  trimmed P has_stale plain =
      only
        (ltb 0 inputs.rollback_images
          && not (is_image inputs.build_pack)
          && not (is_compose inputs.build_pack))
        (attempt-Keeps world P plain _ (trim_rollback_images-Keeps world P plain has_stale))

  abbrev post_deploy_runs : Bool
  post_deploy_runs =
      truthy inputs.post_deploy_command
      && not (is_compose inputs.build_pack)
      && not (is_rollback inputs)

  pub after_switch-Own :
      (P : History Effect → Type 0) (has_stale : Text → Bool)
      → Plain P
      → Own health_wait P
      → Own post_deploy P
      → Keeps {F = DeployError} P (after_switch world has_stale inputs)
  unfolding after_switch
  after_switch-Own P has_stale plain health post =
      bind
        (only (not (is_compose inputs.build_pack)) (write_app_routing-Keeps world P plain inputs))
        (λ _.
          bind
            (only (truthy inputs.health_path && not (is_compose inputs.build_pack))
              (run_step-Own world P _ _ _ plain health))
            (λ _.
              bind (only post_deploy_runs (run_step-Own world P _ _ _ plain post))
                (λ _. trimmed P has_stale plain)))

  -- Where no post-deploy command runs.
  pub after_switch-Keeps :
      (P : History Effect → Type 0) (has_stale : Text → Bool)
      → post_deploy_runs ≡ false
      → Plain P
      → Own health_wait P
      → Keeps {F = DeployError} P (after_switch world has_stale inputs)
  unfolding after_switch
  after_switch-Keeps P has_stale skipped plain health =
      bind
        (only (not (is_compose inputs.build_pack)) (write_app_routing-Keeps world P plain inputs))
        (λ _.
          bind
            (only (truthy inputs.health_path && not (is_compose inputs.build_pack))
              (run_step-Own world P _ _ _ plain health))
            (λ _. bind (only-skipped _ _ skipped) (λ _. trimmed P has_stale plain)))

  -- Where a health check is waited for.
  pub after_switch-Leads :
      (P Q E : History Effect → Type 0) (has_stale : Text → Bool)
      → truthy inputs.health_path && not (is_compose inputs.build_pack) ≡ true
      → Plain P
      → Plain Q
      → ((h : History Effect) → P h → E h)
      → ((h : History Effect) → Q h → E h)
      → Own health_wait E
      → Passes health_wait P Q
      → Own post_deploy Q
      → Leads P Q E (after_switch world has_stale inputs)
  unfolding after_switch
  after_switch-Leads P Q E has_stale healthy plain plain_after fails fails_after own passes post =
      bind
        (weaken (λ h p. p) (λ h p. p) fails
          (only (not (is_compose inputs.build_pack))
            (write_app_routing-Keeps world P plain inputs)))
        (λ _. bind (only-done _ healthy (step-Passes world P Q E _ _ plain fails own passes)) (λ _.
          weaken (λ h q. q) (λ h q. q) fails_after
            (bind (only post_deploy_runs (run_step-Own world Q _ _ _ plain_after post))
              (λ _. trimmed Q has_stale plain_after))))
