-- ===== src/Deploy/Phases.antt =====
-- deployApplication.ts: the parts of the job, in the order in which they run.
use yeah.Base.{
  truthy, Bool, false, ◌&&◌, ◌||◌, Option, none, some, List, [], ◌∷◌, Text, ◌==◌, trim,
  if◌then◌else◌,
}
use yeah.Deploy.{
  BuildPack, dockerfile_inline, static_site, nixpacks, railpack, image, build_pack_uses_git, Host,
  build_host, CloneUrl, stored_url, source_url, github_url, RegistryImage, image_of, Command,
  make_app_dir, chmod_deploy_key, scrub_remote, rev_parse, make_inline_dir, chmod_password,
  clone_or_pull, docker_login, docker_logout, registry_exists, push_image, pull_image, build_inline,
  build_static, ensure_nixpacks, build_nixpacks, ensure_railpack, ensure_buildkit, build_railpack,
  build_dockerfile, deploy_key_file, password_file, inline_dockerfile, step_line,
  writing_deploy_key, writing_dockerfile, logging_in, already_built, building_on_server,
  commit_line, Line, Effect, connect, disconnect, exec, write, set_commit, publish_line, mint_token,
  exited, source_removed, no_github_config, no_registry, missing_variables, Job, Inputs, is_inline,
}
use yeah.Program.{World, ◌>>=◌, ◌>>◌, pure, raise, attempt, only_if, call, act, note}

abbrev pub check_missing : List Text → Job Unit
check_missing [] = pure tt
check_missing (key ∷ keys) = raise (missing_variables (key ∷ keys))

-- `end()` is no call that is waited for: it neither throws nor answers.
abbrev pub close : Host → Job Unit
close host = note (disconnect host)

-- `buildImageSteps`
unfoldable pub build_image_steps : BuildPack → List Command
build_image_steps image = pull_image ∷ []
build_image_steps dockerfile_inline = build_inline ∷ []
build_image_steps static_site = build_static ∷ []
build_image_steps nixpacks = ensure_nixpacks ∷ build_nixpacks ∷ []
build_image_steps railpack = ensure_railpack ∷ ensure_buildkit ∷ build_railpack ∷ []
build_image_steps _ = build_dockerfile ∷ []

module _ (world : World Effect) where
  -- `appendAndPublish`
  abbrev pub say : Line → Job Unit
  say line = act world (publish_line line)

  unfoldable pub run_step : Host → Command → Bool → Job Unit
  run_step host command allow_failure = do
    say (step_line command)
    result ← call world (exec host command)
    if (result.0 == 0) || allow_failure then pure tt else raise (exited command result.0)

  abbrev pub step : Host → Command → Job Unit
  step host command = run_step host command false

  -- The command alone, whatever its exit code.
  abbrev pub quietly : Host → Command → Job Unit
  quietly host command = act world (exec host command)

  -- What `makeCloneOrPullStep` puts in the command.
  unfoldable pub clone_url : Inputs → Job CloneUrl
  clone_url inputs =
      if truthy inputs.git_source_id && truthy inputs.git_repo
      then if inputs.has_git_source then pure source_url else raise source_removed
      else if truthy inputs.github_installation_id && truthy inputs.github_repo
      then if inputs.has_github_config
        then (do act world mint_token; pure github_url)
        else raise no_github_config
      else pure stored_url

  -- A resolved commit that is not empty is logged and stored.
  abbrev pub keep_commit : Text → Job (Option Text)
  keep_commit [] = pure none
  keep_commit (c ∷ commit) = do
    say (commit_line (c ∷ commit))
    act world (set_commit (c ∷ commit))
    pure (some (c ∷ commit))

  -- The clone on a host, up to the commit that it has checked out.
  unfoldable pub clone_on : Host → Inputs → Job (Option Text)
  clone_on host inputs = do
    only_if (truthy inputs.deploy_key) (do
      say writing_deploy_key
      act world (write host deploy_key_file)
      quietly host chmod_deploy_key)
    url ← clone_url inputs
    step host (clone_or_pull url inputs.commit_sha)
    only_if (truthy inputs.git_source_id || truthy inputs.github_installation_id)
        (quietly host scrub_remote)
    head ← call world (exec host rev_parse)
    keep_commit (trim head.1)

  -- The sources of the image on a host: a clone, the pasted Dockerfile, or nothing.
  unfoldable pub fetch_source : Host → Inputs → Job (Option Text)
  fetch_source host inputs =
      if build_pack_uses_git inputs.build_pack
      then clone_on host inputs
      else if is_inline inputs.build_pack
      then (do
        say writing_dockerfile
        quietly host make_inline_dir
        act world (write host inline_dockerfile)
        pure none)
      else pure none

  unfoldable pub log_in : Host → Job Unit
  log_in host = do
    say logging_in
    act world (write host password_file)
    quietly host chmod_password
    step host docker_login

  unfoldable pub run_steps : Host → List Command → Job Unit
  run_steps host [] = pure tt
  run_steps host (command ∷ commands) = do step host command; run_steps host commands

  unfoldable pub build_and_push : Host → BuildPack → RegistryImage → Job Unit
  build_and_push host pack ref = do
    run_steps host (build_image_steps pack)
    step host (push_image ref)

  -- The part on the build server; its result is `builtRef`.
  unfoldable pub build_elsewhere : Inputs → Job RegistryImage
  build_elsewhere inputs = do
    (if inputs.has_registry && truthy inputs.registry_image then pure tt else raise no_registry)
    act world (connect build_host)
    say building_on_server
    step build_host make_app_dir
    commit ← fetch_source build_host inputs
    check_missing inputs.missing
    log_in build_host
    cached ← call world (exec build_host (registry_exists (image_of commit)))
    (if cached.0 == 0
        then say already_built
        else build_and_push build_host inputs.build_pack (image_of commit))
    attempt (quietly build_host docker_logout)
    close build_host
    pure (image_of commit)
