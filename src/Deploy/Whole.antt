-- ===== src/Deploy/Whole.antt =====
-- The job as a whole: what its body keeps, the catch and the finally keep too.
use yeah.Base.{Bool, Option, ◌∷◌, Text, if◌then◌else◌, refl}
use yeah.Deploy.{
  deploy_host, build_host, finish, failed, Host, RegistryImage, Job, Inputs, is_compose, Effect,
  DeployError,
}
use yeah.Program.{History, World, ◌>>◌}
use yeah.Program.Steps.{when-Leads, end_open-Keeps}
use yeah.Program.Logic.{finally_done, catching, Leads, Keeps, bind, weaken, outcome, event_of}
use yeah.Deploy.Prepare.{act-Keeps, quietly-Keeps, attempt-Keeps}
use yeah.Deploy.Stages.{build_part-Keeps, prepare_server-Keeps}
use yeah.Deploy.Exchange.{Plain, fail-Keeps}
use yeah.Deploy.Pipeline.{
  start_compose, switch_container, prepare_container, after_switch, succeed, deploy_body,
}
use yeah.Deploy.Job.{connects_to, disconnects, leave, log_out, end_connection, deploy_application}

module _ (world : World Effect) (X : History Effect → Type 0) (plain : Plain X) where
  log_out-Keeps :
      (has_registry : Bool) (host : Host)
      → Keeps {F = DeployError} X (log_out world has_registry host)
  log_out-Keeps has_registry host =
      when-Leads _ _ (attempt-Keeps world X plain _ (quietly-Keeps world X plain _ _ refl))

  end_connection-Keeps : (host : Host) → Keeps {F = DeployError} X (end_connection world host)
  end_connection-Keeps host =
      end_open-Keeps (connects_to host) (disconnects host) _ (λ h. plain _ h refl)

  pub leave-Keeps : (has_registry : Bool) → Keeps {F = DeployError} X (leave world has_registry)
  unfolding leave
  leave-Keeps has_registry = bind (log_out-Keeps has_registry deploy_host) (λ _.
      bind (log_out-Keeps has_registry build_host)
        (λ _. bind (end_connection-Keeps deploy_host) (λ _. end_connection-Keeps build_host)))

module _ (world : World Effect) (E : History Effect → Type 0) (plain : Plain E)
    (failing : (h : History Effect) → E h → E (event_of world (finish failed) h ∷ h)) where
  -- What the body leads to holds at the end of the job.
  pub deploy_application_end :
      (P : History Effect → Type 0) (has_stale : Text → Bool) (inputs : Inputs)
      → Plain P
      → ((h : History Effect) → P h → E h)
      → Leads P E E (deploy_body world has_stale inputs)
      → (h : History Effect) → P h
      → E (deploy_application world has_stale inputs h).0
  unfolding deploy_application
  deploy_application_end P has_stale inputs plain_before fails body = outcome (
      bind (early (act-Keeps world P plain_before _ refl)) (λ _.
        bind (early (act-Keeps world P plain_before _ refl)) (λ _.
          bind (early (act-Keeps world P plain_before _ refl)) (λ _.
            bind (early (act-Keeps world P plain_before _ refl)) (λ _.
              bind (early (act-Keeps world P plain_before _ refl)) (λ _.
                finally_done (catching body (fail-Keeps world E failing plain))
                  (leave-Keeps world E plain inputs.has_registry)
                  (leave-Keeps world E plain inputs.has_registry)))))))
    where
      early : {m : Job Unit} → Keeps {F = DeployError} P m → Leads P P E m
      early = weaken (λ h p. p) (λ h p. p) fails

-- The body, by its exchange of the containers and what follows.
pub deploy_body-Leads :
    (world : World Effect) (P Q R E : History Effect → Type 0) (has_stale : Text → Bool)
    (inputs : Inputs)
    → Plain P
    → ((h : History Effect) → P h → E h)
    → ((built : Option RegistryImage) (commit : Option Text)
        → Leads P Q E (
            if is_compose inputs.build_pack
            then start_compose world inputs
            else (do prepare_container world inputs built commit; switch_container world)))
    → Leads Q R E (after_switch world has_stale inputs >> succeed world)
    → Leads P R E (deploy_body world has_stale inputs)
unfolding deploy_body
deploy_body-Leads world P Q R E has_stale inputs plain fails exchange later =
    bind (weaken (λ h p. p) (λ h p. p) fails (build_part-Keeps world P plain inputs)) (λ built.
      bind (weaken (λ h p. p) (λ h p. p) fails (prepare_server-Keeps world P plain inputs built))
        (λ commit. bind (exchange built commit) (λ _. later)))
