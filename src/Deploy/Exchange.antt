-- ===== src/Deploy/Exchange.antt =====
-- The parts of the deployment that exchange the containers, run a release command or end the job,
-- by what their own events do to an assertion.
use yeah.Base.{
  truthy, ==_iff, Bool-cases, inl, inr, sym, subst, if◌then◌else◌, Text, Bool, true, false, ◌&&◌,
  ◌||◌, not, ◌∷◌, ◌==◌, ◌≡◌, refl,
}
use yeah.Deploy.{
  DeployError, publish_line, step_line, exited, finish, success, failed, Host, Command, compose_up,
  stop_old, run_container, exec, Job, Inputs, Effect,
}
use yeah.Program.{
  threw, replied, next, pure, raise, History, Event, Reply, answered, World, call, note,
}
use yeah.Deploy.Phases.{run_step}
use yeah.Program.Logic.{
  After, give, calls, Leads, Keeps, bind, weaken, branch, only, throws, event_of,
}
use yeah.Deploy.Prepare.{is_plain, act-Keeps, say-Keeps, run_step-Keeps, write-Keeps, attempt-Keeps}
use yeah.Deploy.Pipeline.{start_compose, switch_container, succeed, fail}

-- Plain events keep the assertion.
abbrev pub Plain : (History Effect → Type 0) → Type 0
Plain P = (e : Event Effect) (h : History Effect) → is_plain e.effect ≡ true → P h → P (e ∷ h)

-- The events of the command keep the assertion, whatever their answer.
abbrev pub Own : Command → (History Effect → Type 0) → Type 0
Own command P =
    (host : Host) (reply : Reply) (h : History Effect)
    → P h
    → P (record { effect = exec host command; reply = reply } ∷ h)

-- The command's success leads from one assertion to the next.
abbrev pub Passes : Command → (History Effect → Type 0) → (History Effect → Type 0) → Type 0
Passes command P Q =
    (host : Host) (output : Text) (h : History Effect)
    → P h
    → Q (record { effect = exec host command; reply = answered 0 output } ∷ h)

module _ (world : World Effect) where
  ran-After :
      (P Q E : History Effect → Type 0) (host : Host) (command : Command) (h : History Effect)
      (r : Reply)
      → r ≡ world h (exec host command)
      → ((output : Text) → Q (record { effect = exec host command; reply = answered 0 output } ∷ h))
      → E (event_of world (exec host command) h ∷ h)
      → After Q E (
          next
            (event_of world (exec host command) h ∷ h, replied r)
            (λ result.
              if (result.0 == 0) || false then pure tt else raise (exited command result.0)))
  ran-After P Q E host command h threw e ok bad = bad
  ran-After P Q E host command h (answered code output) e ok bad = elim (Bool-cases (code == 0)) [
    | inl zero_code ↦ rw zero_code (
        rw (sym e) (
          subst (λ c. Q (record { effect = exec host command; reply = answered c output } ∷ h))
            (sym ((==_iff code 0).0 zero_code)) (ok output)))
    | inr other ↦ rw other bad
  ]

  -- A step that may not fail, by its two events.
  pub step-Leads :
      {P Q E : History Effect → Type 0} (host : Host) (command : Command)
      → ((e : Event Effect) (h : History Effect)
          → e.effect ≡ publish_line (step_line command)
          → P h
          → P (e ∷ h))
      → ((h : History Effect) → P h → E h)
      → ((h : History Effect) (output : Text)
          → P h
          → Q (record { effect = exec host command; reply = answered 0 output } ∷ h))
      → ((h : History Effect) → P h → E (event_of world (exec host command) h ∷ h))
      → Leads P Q E (run_step world host command false)
  unfolding run_step call
  step-Leads {P} {Q} {E} host command note fails ok bad =
      bind
        (bind (calls world _ (λ h. note _ h refl) (λ h held. fails _ (note _ h refl held)))
          (λ _. give))
        (λ _. record {
          runs = λ h p.
              ran-After P Q E host command h (world h (exec host command)) refl
                (λ output. ok h output p) (bad h p);
        })

  -- A step whose own event keeps the assertion.
  pub run_step-Own :
      (P : History Effect → Type 0) (host : Host) (command : Command) (allow : Bool)
      → Plain P
      → Own command P
      → Keeps {F = DeployError} P (run_step world host command allow)
  unfolding run_step
  run_step-Own P host command allow plain own = bind (say-Keeps world P plain _) (λ _.
      bind (calls world _ (λ h. own host _ h) (λ h. own host _ h))
        (λ result. branch ((result.0 == 0) || allow) give (throws (λ h p. p))))

  -- A step that may not fail.
  pub step-Passes :
      (P Q E : History Effect → Type 0) (host : Host) (command : Command)
      → Plain P
      → ((h : History Effect) → P h → E h)
      → Own command E
      → Passes command P Q
      → Leads P Q E (run_step world host command false)
  step-Passes P Q E host command plain fails own passes =
      step-Leads host command (λ e h note. plain e h (rw note refl)) fails
        (λ h output. passes host output h) (λ h held. own host _ h (fails h held))

  pub start_compose-Leads :
      (P Q E : History Effect → Type 0) (inputs : Inputs)
      → Plain P
      → Plain Q
      → ((h : History Effect) → P h → E h)
      → ((h : History Effect) → Q h → E h)
      → ((test : Bool) → Own (compose_up test) E)
      → ((test : Bool) → Passes (compose_up test) P Q)
      → Leads P Q E (start_compose world inputs)
  unfolding start_compose
  start_compose-Leads P Q E inputs plain plain_after fails fails_after own passes =
      bind (weak (write-Keeps world P plain _ _)) (λ _.
        bind (weak (write-Keeps world P plain _ _)) (λ _.
          bind
            (only (truthy inputs.domain && truthy inputs.compose_service)
              (weak (bind (say-Keeps world P plain _) (λ _. write-Keeps world P plain _ _))))
            (λ _.
              bind
                (only (truthy inputs.domain && not (truthy inputs.compose_service))
                  (weak (say-Keeps world P plain _)))
                (λ _. bind (step-Passes P Q E _ _ plain fails (own _) (passes _)) (λ _.
                  weaken (λ h q. q) (λ h q. q) fails_after
                    (run_step-Keeps world Q plain_after _ _ _ refl))))))
    where
      weak : {m : Job Unit} → Keeps {F = DeployError} P m → Leads P P E m
      weak = weaken (λ h p. p) (λ h p. p) fails

  pub switch_container-Leads :
      (P Q E : History Effect → Type 0)
      → Plain P
      → Plain Q
      → ((h : History Effect) → P h → E h)
      → ((h : History Effect) → Q h → E h)
      → Own stop_old P
      → Own run_container E
      → Passes run_container P Q
      → Leads P Q E (switch_container world)
  unfolding switch_container
  switch_container-Leads P Q E plain plain_after fails fails_after stop own passes =
      bind (weaken (λ h p. p) (λ h p. p) fails (run_step-Own P _ _ _ plain stop)) (λ _.
        bind (step-Passes P Q E _ _ plain fails own passes) (λ _.
          weaken (λ h q. q) (λ h q. q) fails_after (run_step-Keeps world Q plain_after _ _ _ refl)))

  pub succeed-Leads :
      (P E : History Effect → Type 0)
      → ((h : History Effect) → P h → E (event_of world (finish success) h ∷ h))
      → Plain E
      → Leads P E E (succeed world)
  unfolding succeed
  succeed-Leads P E done plain = bind (bind (calls world _ done done) (λ _. give)) (λ _.
      bind (act-Keeps world E plain _ refl) (λ _. bind (act-Keeps world E plain _ refl) (λ _.
        bind (act-Keeps world E plain _ refl) (λ _.
          bind (attempt-Keeps world E plain _ (act-Keeps world E plain _ refl))
            (λ _. bind (act-Keeps world E plain _ refl) (λ _. act-Keeps world E plain _ refl))))))

  pub fail-Keeps :
      (E : History Effect → Type 0)
      → ((h : History Effect) → E h → E (event_of world (finish failed) h ∷ h))
      → Plain E
      → Keeps {F = DeployError} E (fail world)
  unfolding fail
  fail-Keeps E failing plain = bind (say-Keeps world E plain _) (λ _.
      bind (bind (calls world _ failing failing) (λ _. give)) (λ _.
        bind (act-Keeps world E plain _ refl) (λ _. bind (act-Keeps world E plain _ refl) (λ _.
          bind (act-Keeps world E plain _ refl) (λ _.
            bind (attempt-Keeps world E plain _ (act-Keeps world E plain _ refl)) (λ _.
              bind (act-Keeps world E plain _ refl) (λ _. act-Keeps world E plain _ refl)))))))
