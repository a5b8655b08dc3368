-- ===== src/Deploy/Pipeline.antt =====
-- deployApplication.ts: the parts of the job on the application's server, and the job.
use yeah.Base.{
  truthy, Bool, true, ◌&&◌, ◌||◌, not, Option, none, some, List, [], ◌∷◌, Text, ◌==◌, if◌then◌else◌,
  ltb,
}
use yeah.Deploy.{
  finish, set_application, publish_application, publish_deployment, comment, notify, forward_log,
  success, failed, app_running, app_error, deploy_failed, deploy_host, RegistryImage, image_of,
  make_app_dir, prepare_volume_file, registry_exists, pull_built, tag_built, compose_up,
  join_stack_network, reuse_retained, tag_deployment, pre_deploy, stop_old, run_container,
  join_network, health_wait, post_deploy, list_images, remove_stale, drop_route, prepare_waker,
  ensure_waker, drop_wake_config, env_file, repo_env_file, override_file, volume_file, waker_script,
  wake_config, route_file, writing_env, heading, routing_service, no_service, removing_images,
  writing_file, connect, exec, write, exited, no_build_server, no_image_rollback, Job, Inputs,
  is_rollback, is_compose, is_image, Effect,
}
use yeah.Program.{World, ◌>>=◌, ◌>>◌, pure, raise, attempt, only_if, call, act}
use yeah.Program.Steps.{checked}
use yeah.Deploy.Phases.{
  say, run_step, step, quietly, fetch_source, check_missing, log_in, build_image_steps, run_steps,
  build_and_push, build_elsewhere,
}

module _ (world : World Effect) where
  unfoldable pub write_volume_files : List Text → Job Unit
  write_volume_files [] = pure tt
  write_volume_files (id ∷ ids) = do
    say world (writing_file id)
    quietly world deploy_host (prepare_volume_file id)
    act world (write deploy_host (volume_file id))
    write_volume_files ids

  -- The image where nothing was built elsewhere and none is reused.
  unfoldable pub build_here : Inputs → Option Text → Job Unit
  build_here inputs commit = do
    only_if inputs.has_registry (log_in world deploy_host)
    (if inputs.has_registry && truthy inputs.registry_image && not (is_image inputs.build_pack)
        then (do
          cached ← call world (exec deploy_host (registry_exists (image_of commit)))
          (if cached.0 == 0
              then step world deploy_host (tag_built (image_of commit))
              else build_and_push world deploy_host inputs.build_pack (image_of commit)))
        else run_steps world deploy_host (build_image_steps inputs.build_pack))

  unfoldable pub pull_image_built : Inputs → RegistryImage → Job Unit
  pull_image_built inputs ref = do
    only_if inputs.has_registry (log_in world deploy_host)
    step world deploy_host (pull_built ref)
    step world deploy_host (tag_built ref)

  unfoldable pub make_image : Inputs → Option RegistryImage → Option Text → Job Unit
  make_image inputs none commit =
      if truthy inputs.rollback_image
      then step world deploy_host reuse_retained
      else build_here inputs commit
  make_image inputs (some ref) commit =
      if truthy inputs.rollback_image
      then step world deploy_host reuse_retained
      else pull_image_built inputs ref

  -- The compose project, from its env files to the environment network.
  unfoldable pub start_compose : Inputs → Job Unit
  start_compose inputs = do
    act world (write deploy_host repo_env_file)
    act world (write deploy_host env_file)
    only_if (truthy inputs.domain && truthy inputs.compose_service)
        (do say world routing_service; act world (write deploy_host override_file))
    only_if (truthy inputs.domain && not (truthy inputs.compose_service)) (say world no_service)
    step world deploy_host (compose_up (truthy inputs.domain && truthy inputs.compose_service))
    step world deploy_host join_stack_network

  -- The single container: the image, the pre-deploy command, and the exchange of the containers.
  unfoldable pub prepare_container : Inputs → Option RegistryImage → Option Text → Job Unit
  prepare_container inputs built commit = do
    make_image inputs built commit
    only_if (ltb 0 inputs.rollback_images && not (is_image inputs.build_pack))
        (step world deploy_host tag_deployment)
    only_if (truthy inputs.pre_deploy_command && not (is_rollback inputs))
        (step world deploy_host pre_deploy)

  unfoldable pub switch_container : Job Unit
  switch_container = do
    run_step world deploy_host stop_old true
    step world deploy_host run_container
    step world deploy_host join_network

  -- `writeAppRouting`
  unfoldable pub write_app_routing : Inputs → Job Unit
  write_app_routing inputs =
      if not (truthy inputs.domain)
      then quietly world deploy_host drop_route
      else if ltb 0 inputs.sleep_after_minutes || inputs.maintenance_mode
      then (do
        checked world (exec deploy_host prepare_waker) (λ result. exited prepare_waker result.0)
        act world (write deploy_host waker_script)
        checked world (exec deploy_host ensure_waker) (λ result. exited ensure_waker result.0)
        act world (write deploy_host wake_config)
        act world (write deploy_host route_file))
      else (do act world (write deploy_host route_file); quietly world deploy_host drop_wake_config)

  -- `trimRollbackImages`; `has_stale` says of the listed images that there is one to remove.
  unfoldable pub trim_rollback_images : (Text → Bool) → Job Unit
  trim_rollback_images has_stale = do
    listed ← call world (exec deploy_host list_images)
    only_if (has_stale listed.1)
        (do say world removing_images; quietly world deploy_host remove_stale)

  -- What follows the exchange of the containers, up to the job's end.
  unfoldable pub after_switch : (Text → Bool) → Inputs → Job Unit
  after_switch has_stale inputs = do
    only_if (not (is_compose inputs.build_pack)) (write_app_routing inputs)
    only_if (truthy inputs.health_path && not (is_compose inputs.build_pack))
        (step world deploy_host health_wait)
    only_if
        (truthy inputs.post_deploy_command
          && not (is_compose inputs.build_pack)
          && not (is_rollback inputs))
        (run_step world deploy_host post_deploy true)
    only_if
        (ltb 0 inputs.rollback_images
          && not (is_image inputs.build_pack)
          && not (is_compose inputs.build_pack))
        (attempt (trim_rollback_images has_stale))

  -- What is written and sent when the deployment is done.
  unfoldable pub succeed : Job Unit
  succeed = do
    act world (finish success)
    act world (set_application app_running)
    act world (publish_application app_running)
    act world (publish_deployment success)
    attempt (act world comment)
    act world notify
    act world forward_log

  -- The build on the build server, where there is one.
  unfoldable pub build_part : Inputs → Job (Option RegistryImage)
  build_part inputs =
      if truthy inputs.build_server_id && not inputs.has_build_server
      then raise no_build_server
      else if truthy inputs.rollback_image
          && (is_compose inputs.build_pack || is_image inputs.build_pack)
      then raise no_image_rollback
      else if truthy inputs.build_server_id && not (truthy inputs.rollback_image)
      then (do ref ← build_elsewhere world inputs; pure (some ref))
      else pure none

  -- The sources on the application's server; the result is the commit that is resolved.
  unfoldable pub fetch_here : Inputs → Option RegistryImage → Job (Option Text)
  fetch_here inputs (some ref) = pure none
  fetch_here inputs none =
      if truthy inputs.rollback_image then pure none else fetch_source world deploy_host inputs

  unfoldable pub prepare_server : Inputs → Option RegistryImage → Job (Option Text)
  prepare_server inputs built = do
    act world (connect deploy_host)
    say world heading
    step world deploy_host make_app_dir
    say world writing_env
    check_missing inputs.missing
    act world (write deploy_host env_file)
    commit ← fetch_here inputs built
    write_volume_files (if is_compose inputs.build_pack then [] else inputs.file_volumes)
    pure commit

  -- The body of the `try`.
  unfoldable pub deploy_body : (Text → Bool) → Inputs → Job Unit
  deploy_body has_stale inputs = do
    built ← build_part inputs
    commit ← prepare_server inputs built
    (if is_compose inputs.build_pack
        then start_compose inputs
        else (do prepare_container inputs built commit; switch_container))
    after_switch has_stale inputs
    succeed

  -- The `catch`.
  unfoldable pub fail : Job Unit
  fail = do
    say world deploy_failed
    act world (finish failed)
    act world (set_application app_error)
    act world (publish_application app_error)
    act world (publish_deployment failed)
    attempt (act world comment)
    act world notify
    act world forward_log
