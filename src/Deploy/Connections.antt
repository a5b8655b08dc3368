-- ===== src/Deploy/Connections.antt =====
-- The connections that a deployment opens.
use yeah.Base.{Bool, false, [], ◌∷◌, Text, ◌≡◌, refl, Bool-cases, inl, inr}
use yeah.Deploy.{Host, deploy_host, build_host, Effect, Inputs, DeployError}
use yeah.Program.{History, World, act, note}
use yeah.Program.Steps.{when-Leads, is_open, end_open, end_open-closes}
use yeah.Program.Logic.{
  anyhow, attempted, finally_done, Leads, Keeps, bind, give, calls, event_of, outcome,
}
use yeah.Deploy.Job.{
  connects_to, disconnects, is_connected, leave, end_connection, deploy_application,
}

abbrev Anything : History Effect → Type 0
Anything h = Unit

abbrev Closed : Host → History Effect → Type 0
Closed host h = is_connected host h ≡ false

abbrev Both : History Effect → Type 0
Both h = Closed deploy_host h × Closed build_host h

module _ (world : World Effect) where
  end_build : Leads (Closed deploy_host) Both Both (end_connection world build_host)
  unfolding is_open end_open note
  end_build = record {
    runs = λ h held. elim (Bool-cases (is_connected build_host h)) [
      | inl here ↦ rw here (held, refl)
      | inr gone ↦ rw gone (held, gone)
    ];
  }

  leave-Both : (has_registry : Bool) → Leads Anything Both Both (leave world has_registry)
  unfolding leave
  leave-Both has_registry = bind (when-Leads _ _ (attempted (anyhow _ _))) (λ _.
      bind (when-Leads _ _ (attempted (anyhow _ _))) (λ _.
        bind (end_open-closes (connects_to deploy_host) (disconnects deploy_host) _ refl refl)
          (λ _. end_build)))

  early :
      (effect : Effect)
      → ((h : History Effect) → Both h → Both (event_of world effect h ∷ h))
      → Keeps {F = DeployError} Both (act world effect)
  early effect keeps = bind (calls world effect keeps keeps) (λ _. give)

  -- Whatever is answered or thrown, no connection is left open when the job is over.
  pub deploy_application_closes :
      (has_stale : Text → Bool) (inputs : Inputs) (host : Host)
      → is_connected host (deploy_application world has_stale inputs []).0 ≡ false
  unfolding deploy_application is_open
  deploy_application_closes has_stale inputs host = both_of host (
      outcome
        (bind (early _ (λ h p. p)) (λ _. bind (early _ (λ h p. p)) (λ _.
          bind (early _ (λ h p. p)) (λ _. bind (early _ (λ h p. p)) (λ _.
            bind (early _ (λ h p. p)) (λ _.
              finally_done (anyhow _ _) (leave-Both inputs.has_registry)
                (leave-Both inputs.has_registry)))))))
        [] (refl, refl))
    where
      both_of :
          (host : Host)
          → Both (deploy_application world has_stale inputs []).0
          → Closed host (deploy_application world has_stale inputs []).0
      both_of deploy_host b = b.0
      both_of build_host b = b.1
