-- ===== src/Deploy/Job.antt =====
-- deployApplication.ts: the job around its body: the lookups, the catch and the finally.
use yeah.Base.{Bool, true, false, ◌&&◌, Text}
use yeah.Deploy.{
  finish, set_running, set_config, set_application, publish_application, publish_deployment,
  running, failed, deploying, Host, deploy_host, build_host, docker_logout, connect, disconnect,
  Job, Inputs, Effect,
}
use yeah.Program.{History, World, ◌>>◌, pure, attempt, act, catch, finally}
use yeah.Program.Steps.{when, is_open, end_open}
use yeah.Deploy.Phases.{quietly}
use yeah.Deploy.Pipeline.{deploy_body, fail}

-- The rows that the job looks up first.
pub data Lookup : Type 0 where
  deployment_missing application_missing server_missing : Lookup
  found : Inputs → Lookup

abbrev pub same_host : Host → Host → Bool
same_host deploy_host deploy_host = true
same_host build_host build_host = true
same_host _ _ = false

abbrev pub connects_to : Host → Effect → Bool
connects_to host (connect h) = same_host host h
connects_to host _ = false

abbrev pub disconnects : Host → Effect → Bool
disconnects host (disconnect h) = same_host host h
disconnects host _ = false

-- Whether the job holds a connection to the host: `conn` or `buildConn` is set.
abbrev pub is_connected : Host → History Effect → Bool
is_connected host = is_open (connects_to host) (disconnects host)

module _ (world : World Effect) where
  abbrev pub log_out : Bool → Host → Job Unit
  log_out has_registry host =
      when (λ h. is_connected host h && has_registry) (attempt (quietly world host docker_logout))

  abbrev pub end_connection : Host → Job Unit
  end_connection host = end_open (connects_to host) (disconnects host) (disconnect host)

  -- The `finally`.
  unfoldable pub leave : Bool → Job Unit
  leave has_registry = do
    log_out has_registry deploy_host
    log_out has_registry build_host
    end_connection deploy_host
    end_connection build_host

  -- The job, once its rows are found. `comment` stands for `commentOnPreview`, which catches its errors.
  unfoldable pub deploy_application : (Text → Bool) → Inputs → Job Unit
  deploy_application has_stale inputs = do
    act world set_running
    act world (set_application deploying)
    act world (publish_application deploying)
    act world (publish_deployment running)
    act world set_config
    finally (catch (deploy_body world has_stale inputs) (fail world)) (leave inputs.has_registry)

  -- The job, with the lookups of its rows.
  pub deploy_job : (Text → Bool) → Lookup → Job Unit
  deploy_job has_stale deployment_missing = pure tt
  deploy_job has_stale application_missing = act world (finish failed)
  deploy_job has_stale server_missing = act world (finish failed)
  deploy_job has_stale (found inputs) = deploy_application has_stale inputs
