-- ===== src/Deploy/Prepare.antt =====
-- The parts of the deployment that neither exchange the containers nor run a release command: they
-- keep every assertion that such events cannot break.
use yeah.Base.{
  truthy, Bool, true, false, ◌&&◌, ◌||◌, not, Option, none, some, List, [], ◌∷◌, Text, ◌==◌, trim,
  ◌≡◌, refl, Option-cases, is_some, inl, inr, subst, arith,
}
use yeah.Deploy.{
  DeployError, finish, DeploymentStatus, success, build_pack_uses_git, Host, File, Command,
  compose_up, pre_deploy, stop_old, run_container, health_wait, post_deploy, Line, Effect, exec,
  write, Job, Inputs, is_inline,
}
use yeah.Program.{History, Event, World, attempt, call, act}
use yeah.Deploy.Phases.{
  say, run_step, quietly, close, fetch_source, check_missing, log_in, clone_url, clone_on,
  keep_commit,
}
use yeah.Program.Logic.{attempted, noted, Keeps, bind, give, branch, only, throws, calls}

abbrev pub is_pre_deploy : Command → Bool
is_pre_deploy pre_deploy = true
is_pre_deploy _ = false

abbrev pub is_post_deploy : Command → Bool
is_post_deploy post_deploy = true
is_post_deploy _ = false

abbrev pub is_stop_old : Command → Bool
is_stop_old stop_old = true
is_stop_old _ = false

-- The commands that start the new version.
abbrev pub is_start : Command → Bool
is_start run_container = true
is_start (compose_up test) = true
is_start _ = false

abbrev pub is_health_wait : Command → Bool
is_health_wait health_wait = true
is_health_wait _ = false

-- The commands that are not part of a release or of the exchange of the containers.
abbrev pub is_plain_command : Command → Bool
is_plain_command c =
    not (is_pre_deploy c || is_post_deploy c || is_stop_old c || is_start c || is_health_wait c)

abbrev pub command_of : Effect → Option Command
command_of (exec host command) = some command
command_of _ = none

abbrev pub is_exec_of : (Command → Bool) → Effect → Bool
is_exec_of test effect = elim (command_of effect) [ none ↦ false | some c ↦ test c ]

abbrev pub finish_of : Effect → Option DeploymentStatus
finish_of (finish status) = some status
finish_of _ = none

abbrev pub is_finish : Effect → Bool
is_finish effect = is_some (finish_of effect)

abbrev is_success_status : DeploymentStatus → Bool
is_success_status success = true
is_success_status _ = false

abbrev pub is_success : Effect → Bool
is_success effect = elim (finish_of effect) [
  | none ↦ false
  | some status ↦ is_success_status status
]

abbrev pub is_plain : Effect → Bool
is_plain effect =
    not (is_finish effect) && elim (command_of effect) [ none ↦ true | some c ↦ is_plain_command c ]

&&-right : (a : Bool) {b : Bool} → a && b ≡ true → b ≡ true
&&-right true e = e
&&-right false e = ground arith

-- A plain effect is none of the commands that are not plain.
pub is_plain-exec :
    (test : Command → Bool)
    → ((c : Command) → is_plain_command c ≡ true → test c ≡ false)
    → (effect : Effect) → is_plain effect ≡ true
    → is_exec_of test effect ≡ false
is_plain-exec test apart effect e = elim (Option-cases (command_of effect)) [
  | inl nothing ↦ rw (nothing, is_exec_of) refl
  | inr (c, found) ↦
      rw (found, is_exec_of)
        (apart c (
          &&-right (not (is_finish effect)) (
            subst
              (λ o.
                not (is_finish effect) && elim o [ none ↦ true | some c ↦ is_plain_command c ]
                ≡ true)
              found e)))
]

pub is_plain-success : (effect : Effect) → is_plain effect ≡ true → is_success effect ≡ false
is_plain-success effect e = elim (Option-cases (finish_of effect)) [
  | inl nothing ↦ rw (nothing, is_success) refl
  | inr (status, found) ↦ absurd (unfinished (is_finish effect) _ (rw (found, is_finish) refl) e)
]
  where
    unfinished : (b c : Bool) → b ≡ true → not b && c ≡ true → ⊥
    unfinished true c f g = ground arith
    unfinished false c f g = ground arith

module _ (world : World Effect) (P : History Effect → Type 0)
    (plain : (e : Event Effect) (h : History Effect)
      → is_plain e.effect ≡ true
      → P h
      → P (e ∷ h)) where
  pub call-Keeps :
      (effect : Effect) → is_plain effect ≡ true → Keeps {F = DeployError} P (call world effect)
  call-Keeps effect e = calls world effect (λ h. plain _ h e) (λ h. plain _ h e)

  pub act-Keeps :
      (effect : Effect) → is_plain effect ≡ true → Keeps {F = DeployError} P (act world effect)
  act-Keeps effect e = bind (call-Keeps _ e) (λ _. give)

  pub say-Keeps : (line : Line) → Keeps {F = DeployError} P (say world line)
  say-Keeps line = act-Keeps _ refl

  pub run_step-Keeps :
      (host : Host) (command : Command) (allow : Bool)
      → is_plain_command command ≡ true
      → Keeps {F = DeployError} P (run_step world host command allow)
  unfolding run_step
  run_step-Keeps host command allow e = bind (say-Keeps _) (λ _.
      bind (call-Keeps _ e) (λ result. branch ((result.0 == 0) || allow) give (throws (λ h p. p))))

  pub quietly-Keeps :
      (host : Host) (command : Command)
      → is_plain_command command ≡ true
      → Keeps {F = DeployError} P (quietly world host command)
  quietly-Keeps host command e = act-Keeps _ e

  pub write-Keeps :
      (host : Host) (file : File) → Keeps {F = DeployError} P (act world (write host file))
  write-Keeps host file = act-Keeps _ refl

  pub attempt-Keeps :
      (job : Job Unit) → Keeps {F = DeployError} P job → Keeps {F = DeployError} P (attempt job)
  attempt-Keeps job keeps = attempted keeps

  pub close-Keeps : (host : Host) → Keeps {F = DeployError} P (close host)
  close-Keeps host = noted _ (λ h p. plain _ h refl p)

  pub clone_url-Keeps : (inputs : Inputs) → Keeps {F = DeployError} P (clone_url world inputs)
  unfolding clone_url
  clone_url-Keeps inputs =
      branch (truthy inputs.git_source_id && truthy inputs.git_repo)
        (branch inputs.has_git_source give (throws (λ h p. p)))
        (branch (truthy inputs.github_installation_id && truthy inputs.github_repo)
          (branch inputs.has_github_config (bind (act-Keeps _ refl) (λ _. give))
            (throws (λ h p. p)))
          give)

  keep_commit-Keeps : (commit : Text) → Keeps {F = DeployError} P (keep_commit world commit)
  keep_commit-Keeps [] = give
  keep_commit-Keeps (c ∷ commit) = bind (say-Keeps _) (λ _. bind (act-Keeps _ refl) (λ _. give))

  pub clone_on-Keeps :
      (host : Host) (inputs : Inputs) → Keeps {F = DeployError} P (clone_on world host inputs)
  unfolding clone_on
  clone_on-Keeps host inputs =
      bind
        (only (truthy inputs.deploy_key)
          (bind (say-Keeps _) (λ _. bind (write-Keeps _ _) (λ _. quietly-Keeps _ _ refl))))
        (λ _. bind (clone_url-Keeps _) (λ url. bind (run_step-Keeps _ _ _ refl) (λ _.
          bind
            (only (truthy inputs.git_source_id || truthy inputs.github_installation_id)
              (quietly-Keeps _ _ refl))
            (λ _. bind (call-Keeps _ refl) (λ head. keep_commit-Keeps (trim head.1))))))

  pub fetch_source-Keeps :
      (host : Host) (inputs : Inputs) → Keeps {F = DeployError} P (fetch_source world host inputs)
  unfolding fetch_source
  fetch_source-Keeps host inputs =
      branch (build_pack_uses_git inputs.build_pack) (clone_on-Keeps _ _) (
        branch (is_inline inputs.build_pack)
          (bind (say-Keeps _)
            (λ _. bind (quietly-Keeps _ _ refl) (λ _. bind (write-Keeps _ _) (λ _. give))))
          give)

  pub check_missing-Keeps :
      (missing : List Text) → Keeps {F = DeployError} P (check_missing missing)
  check_missing-Keeps [] = give
  check_missing-Keeps (key ∷ keys) = throws (λ h p. p)

  pub log_in-Keeps : (host : Host) → Keeps {F = DeployError} P (log_in world host)
  unfolding log_in
  log_in-Keeps host = bind (say-Keeps _) (λ _.
      bind (write-Keeps _ _) (λ _. bind (quietly-Keeps _ _ refl) (λ _. run_step-Keeps _ _ _ refl)))
