-- ===== src/Deploy.antt =====
-- apps/worker/src/jobs/deployApplication.ts: what a deployment job does to the servers, the database
-- and the event channel. An effect is one awaited call; a history lists the calls with their
-- answers, the latest first. A job is a program over the answers that `world` gives.
pub mod Phases
pub mod Pipeline
pub mod Job
pub mod Prepare
pub mod Stages
pub mod Exchange
pub mod Whole
pub mod Container
pub mod Release
pub mod Rollback
pub mod Connections
pub mod Finish
mod Tests
use yeah.Program.{Program}
use yeah.Base.{
  ℕ, Bool, true, false, ◌&&◌, ◌||◌, not, Option, none, some, List, [], ◌∷◌, Text, ◌==◌, equal,
  if◌then◌else◌, truthy,
}

pub data BuildPack : Type 0 where
  dockerfile dockerfile_inline static_site nixpacks railpack docker_compose image : BuildPack

pub build_pack_uses_git : BuildPack → Bool
build_pack_uses_git dockerfile_inline = false
build_pack_uses_git image = false
build_pack_uses_git _ = true

pub data Host : Type 0 where
  deploy_host build_host : Host

-- The URL that git is given: the stored one, one with a Git source's token, or one with a token of
-- the GitHub App.
pub data CloneUrl : Type 0 where
  stored_url source_url github_url : CloneUrl

-- The image of a build in the registry, by the commit that it was built from.
pub data RegistryImage : Type 0 where
  image_of : Option Text → RegistryImage

-- The commands, one constructor for each builder of the source.
pub data Command : Type 0 where
  make_app_dir chmod_deploy_key scrub_remote rev_parse make_inline_dir chmod_password : Command
  clone_or_pull : CloneUrl → Option Text → Command
  prepare_volume_file : Text → Command
  docker_login docker_logout : Command
  registry_exists push_image pull_built tag_built : RegistryImage → Command
  pull_image build_inline build_static ensure_nixpacks build_nixpacks : Command
  ensure_railpack ensure_buildkit build_railpack build_dockerfile : Command
  compose_up : Bool → Command
  join_stack_network reuse_retained tag_deployment : Command
  pre_deploy stop_old run_container join_network health_wait post_deploy : Command
  list_images remove_stale : Command
  drop_route prepare_waker ensure_waker drop_wake_config : Command

pub data File : Type 0 where
  deploy_key_file env_file password_file inline_dockerfile repo_env_file override_file : File
  volume_file : Text → File
  waker_script wake_config route_file : File

pub data DeploymentStatus : Type 0 where
  queued running success failed : DeploymentStatus

pub data ApplicationStatus : Type 0 where
  deploying app_running app_error : ApplicationStatus

-- The lines of the log.
pub data Line : Type 0 where
  step_line : Command → Line
  writing_deploy_key writing_dockerfile writing_env logging_in already_built : Line
  building_on_server heading routing_service no_service removing_images : Line
  commit_line writing_file : Text → Line
  completed deploy_failed : Line

pub data Effect : Type 0 where
  connect disconnect : Host → Effect
  exec : Host → Command → Effect
  write : Host → File → Effect
  set_running set_config : Effect
  set_commit : Text → Effect
  finish : DeploymentStatus → Effect
  set_application publish_application : ApplicationStatus → Effect
  publish_deployment : DeploymentStatus → Effect
  publish_line : Line → Effect
  mint_token comment notify forward_log : Effect

-- The errors that the job throws.
pub data DeployError : Type 0 where
  exited : Command → ℕ → DeployError
  source_removed no_github_config no_build_server no_image_rollback no_registry : DeployError
  missing_variables : List Text → DeployError

abbrev pub Job : Type 0 → Type 0
Job = Program Effect DeployError

-- The rows that the job reads, and what it computes from them without a call.
pub record Inputs : Type 0 where
  pub build_pack : BuildPack
  pub git_source_id : Option Text
  pub git_repo : Option Text
  pub github_installation_id : Option Text
  pub github_repo : Option Text
  pub deploy_key : Option Text
  pub registry_image : Option Text
  pub compose_service : Option Text
  pub pre_deploy_command : Option Text
  pub post_deploy_command : Option Text
  pub health_path : Option Text
  pub rollback_images : ℕ
  pub sleep_after_minutes : ℕ
  pub maintenance_mode : Bool
  pub domain : Option Text
  pub commit_sha : Option Text
  pub rollback_image : Option Text
  pub build_server_id : Option Text
  pub has_build_server : Bool
  pub has_registry : Bool
  pub has_git_source : Bool
  pub has_github_config : Bool
  pub missing : List Text
  pub file_volumes : List Text

unfoldable pub is_rollback : Inputs → Bool
is_rollback inputs = truthy inputs.commit_sha || truthy inputs.rollback_image

abbrev pub is_compose : BuildPack → Bool
is_compose docker_compose = true
is_compose _ = false

abbrev pub is_image : BuildPack → Bool
is_image image = true
is_image _ = false

abbrev pub is_inline : BuildPack → Bool
is_inline dockerfile_inline = true
is_inline _ = false
