-- ===== src/Deploy/Stages.antt =====
-- The stages of the deployment up to the exchange of the containers, and behind it: what each
-- keeps, by the parts that it is made of.
use yeah.Base.{
  truthy, Bool, true, false, ◌&&◌, ◌||◌, not, Option, none, some, List, [], ◌∷◌, Text, ◌==◌, ltb,
  ◌≡◌, refl, all, arith,
}
use yeah.Deploy.{
  DeployError, BuildPack, dockerfile, dockerfile_inline, static_site, nixpacks, railpack,
  docker_compose, image, Host, RegistryImage, image_of, Command, Inputs, is_compose, is_image,
  Effect,
}
use yeah.Program.{History, Event, World}
use yeah.Program.Steps.{checked-Keeps as checked-maintains}
use yeah.Deploy.Phases.{build_image_steps, run_steps, build_and_push, build_elsewhere}
use yeah.Program.Logic.{Keeps, bind, give, branch, only, throws}
use yeah.Deploy.Prepare.{
  is_plain, is_plain_command, call-Keeps, act-Keeps, say-Keeps, run_step-Keeps, quietly-Keeps,
  write-Keeps, attempt-Keeps, close-Keeps, fetch_source-Keeps, check_missing-Keeps, log_in-Keeps,
}
use yeah.Deploy.Pipeline.{
  write_volume_files, build_here, pull_image_built, make_image, write_app_routing,
  trim_rollback_images, build_part, fetch_here, prepare_server,
}

build_image_steps-plain : (pack : BuildPack) → all is_plain_command (build_image_steps pack) ≡ true
unfolding build_image_steps
build_image_steps-plain dockerfile = refl
build_image_steps-plain dockerfile_inline = refl
build_image_steps-plain static_site = refl
build_image_steps-plain nixpacks = refl
build_image_steps-plain railpack = refl
build_image_steps-plain docker_compose = refl
build_image_steps-plain image = refl

both : (a b : Bool) → a && b ≡ true → (a ≡ true) × (b ≡ true)
both true b e = (refl, e)
both false b e = ground arith

module _ (world : World Effect) (P : History Effect → Type 0)
    (plain : (e : Event Effect) (h : History Effect)
      → is_plain e.effect ≡ true
      → P h
      → P (e ∷ h)) where
  run_steps-Keeps :
      (host : Host) (commands : List Command)
      → all is_plain_command commands ≡ true
      → Keeps {F = DeployError} P (run_steps world host commands)
  unfolding run_steps
  run_steps-Keeps host [] e = give
  run_steps-Keeps host (command ∷ commands) e =
      bind (run_step-Keeps world P plain _ _ _ (both (is_plain_command command) _ e).0)
        (λ _. run_steps-Keeps host commands (both (is_plain_command command) _ e).1)

  build_and_push-Keeps :
      (host : Host) (pack : BuildPack) (ref : RegistryImage)
      → Keeps {F = DeployError} P (build_and_push world host pack ref)
  unfolding build_and_push
  build_and_push-Keeps host pack ref =
      bind (run_steps-Keeps host _ (build_image_steps-plain pack))
        (λ _. run_step-Keeps world P plain _ _ _ refl)

  build_elsewhere-Keeps :
      (inputs : Inputs) → Keeps {F = DeployError} P (build_elsewhere world inputs)
  unfolding build_elsewhere
  build_elsewhere-Keeps inputs =
      bind (branch (inputs.has_registry && truthy inputs.registry_image) give (throws (λ h p. p)))
        (λ _. bind (act-Keeps world P plain _ refl) (λ _. bind (say-Keeps world P plain _) (λ _.
          bind (run_step-Keeps world P plain _ _ _ refl) (λ _.
            bind (fetch_source-Keeps world P plain _ _) (λ commit.
              bind (check_missing-Keeps world P plain _) (λ _.
                bind (log_in-Keeps world P plain _) (λ _.
                  bind (call-Keeps world P plain _ refl) (λ cached.
                    bind
                      (branch (cached.0 == 0) (say-Keeps world P plain _)
                        (build_and_push-Keeps _ _ _))
                      (λ _.
                        bind (attempt-Keeps world P plain _ (quietly-Keeps world P plain _ _ refl))
                          (λ _.
                            bind (close-Keeps world P plain _)
                              (λ _. give {a = image_of commit})))))))))))

  pub build_part-Keeps : (inputs : Inputs) → Keeps {F = DeployError} P (build_part world inputs)
  unfolding build_part
  build_part-Keeps inputs =
      branch (truthy inputs.build_server_id && not inputs.has_build_server) (throws (λ h p. p)) (
        branch
          (truthy inputs.rollback_image
            && (is_compose inputs.build_pack || is_image inputs.build_pack))
          (throws (λ h p. p))
          (branch (truthy inputs.build_server_id && not (truthy inputs.rollback_image))
            (bind (build_elsewhere-Keeps inputs) (λ _. give)) give))

  write_volume_files-Keeps :
      (ids : List Text) → Keeps {F = DeployError} P (write_volume_files world ids)
  unfolding write_volume_files
  write_volume_files-Keeps [] = give
  write_volume_files-Keeps (id ∷ ids) = bind (say-Keeps world P plain _) (λ _.
      bind (quietly-Keeps world P plain _ _ refl)
        (λ _. bind (write-Keeps world P plain _ _) (λ _. write_volume_files-Keeps ids)))

  fetch_here-Keeps :
      (inputs : Inputs) (built : Option RegistryImage)
      → Keeps {F = DeployError} P (fetch_here world inputs built)
  unfolding fetch_here
  fetch_here-Keeps inputs (some ref) = give
  fetch_here-Keeps inputs none =
      branch (truthy inputs.rollback_image) give (fetch_source-Keeps world P plain _ _)

  pub prepare_server-Keeps :
      (inputs : Inputs) (built : Option RegistryImage)
      → Keeps {F = DeployError} P (prepare_server world inputs built)
  unfolding prepare_server
  prepare_server-Keeps inputs built = bind (act-Keeps world P plain _ refl) (λ _.
      bind (say-Keeps world P plain _) (λ _. bind (run_step-Keeps world P plain _ _ _ refl) (λ _.
        bind (say-Keeps world P plain _) (λ _. bind (check_missing-Keeps world P plain _) (λ _.
          bind (write-Keeps world P plain _ _) (λ _.
            bind (fetch_here-Keeps _ built)
              (λ commit. bind (write_volume_files-Keeps _) (λ _. give))))))))

  build_here-Keeps :
      (inputs : Inputs) (commit : Option Text)
      → Keeps {F = DeployError} P (build_here world inputs commit)
  unfolding build_here
  build_here-Keeps inputs commit =
      bind (only inputs.has_registry (log_in-Keeps world P plain _)) (λ _.
        branch
          (inputs.has_registry && truthy inputs.registry_image && not (is_image inputs.build_pack))
          (bind (call-Keeps world P plain _ refl) (λ cached.
            branch (cached.0 == 0) (run_step-Keeps world P plain _ _ _ refl)
              (build_and_push-Keeps _ _ _)))
          (run_steps-Keeps _ _ (build_image_steps-plain inputs.build_pack)))

  pull_image_built-Keeps :
      (inputs : Inputs) (ref : RegistryImage)
      → Keeps {F = DeployError} P (pull_image_built world inputs ref)
  unfolding pull_image_built
  pull_image_built-Keeps inputs ref =
      bind (only inputs.has_registry (log_in-Keeps world P plain _)) (λ _.
        bind (run_step-Keeps world P plain _ _ _ refl)
          (λ _. run_step-Keeps world P plain _ _ _ refl))

  pub make_image-Keeps :
      (inputs : Inputs) (built : Option RegistryImage) (commit : Option Text)
      → Keeps {F = DeployError} P (make_image world inputs built commit)
  unfolding make_image
  make_image-Keeps inputs none commit =
      branch (truthy inputs.rollback_image) (run_step-Keeps world P plain _ _ _ refl)
        (build_here-Keeps inputs commit)
  make_image-Keeps inputs (some ref) commit =
      branch (truthy inputs.rollback_image) (run_step-Keeps world P plain _ _ _ refl)
        (pull_image_built-Keeps inputs ref)

  pub write_app_routing-Keeps :
      (inputs : Inputs) → Keeps {F = DeployError} P (write_app_routing world inputs)
  unfolding write_app_routing
  write_app_routing-Keeps inputs =
      branch (not (truthy inputs.domain)) (quietly-Keeps world P plain _ _ refl) (
        branch (ltb 0 inputs.sleep_after_minutes || inputs.maintenance_mode)
          (bind (checked-maintains world _ _ (λ h. plain _ h refl)) (λ _.
            bind (write-Keeps world P plain _ _) (λ _.
              bind (checked-maintains world _ _ (λ h. plain _ h refl))
                (λ _. bind (write-Keeps world P plain _ _) (λ _. write-Keeps world P plain _ _)))))
          (bind (write-Keeps world P plain _ _) (λ _. quietly-Keeps world P plain _ _ refl)))

  pub trim_rollback_images-Keeps :
      (has_stale : Text → Bool) → Keeps {F = DeployError} P (trim_rollback_images world has_stale)
  unfolding trim_rollback_images
  trim_rollback_images-Keeps has_stale = bind (call-Keeps world P plain _ refl) (λ listed.
      only (has_stale listed.1)
        (bind (say-Keeps world P plain _) (λ _. quietly-Keeps world P plain _ _ refl)))
