-- ===== src/Deploy/Tests.antt =====
-- Runs of a deployment, and the theorems at concrete inputs.
use yeah.Base.{Bool, true, false, none, some, [], ◌∷◌, Text, codes, any, trim, ◌≡◌, refl}
use yeah.Deploy.{
  dockerfile, Inputs, Effect, exec, health_wait, is_rollback, deploy_host, build_pack_uses_git,
}
use yeah.Program.{World, answered, Reply, attempt, call, note, catch, finally}
use yeah.Program.Steps.{when, checked, is_open, end_open}
use yeah.Deploy.Phases.{run_step, clone_on, fetch_source, clone_url, build_image_steps, run_steps}
use yeah.Program.Order.{count_of, preceded}
use yeah.Deploy.Release.{
  stops, pre_deployed, succeeds, started, healthy, pre_deploy_before_stop, start_before_success,
  health_before_success,
}
use yeah.Deploy.Rollback.{releases, rollback_skips_releases}
use yeah.Deploy.Connections.{deploy_application_closes}
use yeah.Deploy.Finish.{finishes, deploy_application-finishes}
use yeah.Deploy.Pipeline.{
  write_volume_files, build_here, make_image, prepare_container, switch_container,
  write_app_routing, trim_rollback_images, after_switch, succeed, build_part, fetch_here,
  prepare_server, deploy_body, fail,
}
use yeah.Deploy.Job.{is_connected, leave, deploy_application}

-- Every call answers with exit code 0 and no output.
abbrev calm : World Effect
calm h effect = answered 0 []

abbrev fails_health : Effect → Reply
fails_health (exec host health_wait) = answered 1 []
fails_health effect = answered 0 []

-- Every command exits with 1.
abbrev refused : World Effect
refused h effect = answered 1 []

-- The health check fails.
abbrev sick : World Effect
sick h effect = fails_health effect

abbrev nothing_stale : Text → Bool
nothing_stale output = false

abbrev web : Inputs
web = record {
  build_pack = dockerfile;
  git_source_id = none;
  git_repo = none;
  github_installation_id = some (codes "12");
  github_repo = some (codes "a/b");
  deploy_key = none;
  registry_image = none;
  compose_service = none;
  pre_deploy_command = some (codes "migrate");
  post_deploy_command = some (codes "warm");
  health_path = some (codes "/up");
  rollback_images = 3;
  sleep_after_minutes = 0;
  maintenance_mode = false;
  domain = some (codes "a.dev");
  commit_sha = none;
  rollback_image = none;
  build_server_id = none;
  has_build_server = false;
  has_registry = false;
  has_git_source = false;
  has_github_config = true;
  missing = [];
  file_volumes = codes "v1" ∷ [];
}

abbrev web_rollback : Inputs
web_rollback = record web { rollback_image = some (codes "yeah-app-1:dep-0") }

calm_run : any succeeds (deploy_application calm nothing_stale web []).0 ≡ true
unfolding deploy_application deploy_body build_part prepare_server fetch_here fetch_source
    build_pack_uses_git clone_on clone_url run_step call write_volume_files prepare_container
    make_image build_here run_steps build_image_steps switch_container after_switch
    write_app_routing trim_rollback_images attempt succeed fail leave is_open end_open note catch
    finally checked is_rollback trim when
calm_run = refl

sick_run : any succeeds (deploy_application sick nothing_stale web []).0 ≡ false
unfolding deploy_application deploy_body build_part prepare_server fetch_here fetch_source
    build_pack_uses_git clone_on clone_url run_step call write_volume_files prepare_container
    make_image build_here run_steps build_image_steps switch_container after_switch
    write_app_routing trim_rollback_images attempt succeed fail leave is_open end_open note catch
    finally checked is_rollback trim when
sick_run = refl

pre_deploy_before_stop_example :
    preceded stops pre_deployed (deploy_application calm nothing_stale web []).0 ≡ true
unfolding is_rollback
pre_deploy_before_stop_example = pre_deploy_before_stop calm nothing_stale web refl refl

rollback_skips_releases_example :
    any releases (deploy_application calm nothing_stale web_rollback []).0 ≡ false
unfolding is_rollback
rollback_skips_releases_example = rollback_skips_releases calm nothing_stale web_rollback refl

start_before_success_example :
    preceded succeeds started (deploy_application calm nothing_stale web []).0 ≡ true
start_before_success_example = start_before_success calm nothing_stale web

health_before_success_example :
    preceded succeeds healthy (deploy_application sick nothing_stale web []).0 ≡ true
health_before_success_example = health_before_success sick nothing_stale web refl refl

deploy_application_closes_example :
    is_connected deploy_host (deploy_application sick nothing_stale web []).0 ≡ false
deploy_application_closes_example = deploy_application_closes sick nothing_stale web deploy_host

deploy_application-finishes_example :
    count_of finishes (deploy_application refused nothing_stale web []).0 ≡ 1
deploy_application-finishes_example =
    deploy_application-finishes refused (λ h effect mine. refl) nothing_stale web
