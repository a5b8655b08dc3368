-- ===== src/Deploy/Finish.antt =====
-- How a deployment ends: the one status that is stored at its end.
use yeah.Base.{Bool, true, false, ◌&&◌, not, [], ◌∷◌, Text, ◌≡◌, refl, ℕ, arith, arith}
use yeah.Deploy.{
  comment, Effect, connect, disconnect, exec, write, mint_token, Inputs, is_compose, DeployError,
}
use yeah.Program.{History, Event, World, attempt, act, is_answered}
use yeah.Program.Order.{Count, count_of}
use yeah.Program.Logic.{
  answers, attempted, finally_done, catching, Leads, bind, branch, outcome, event_of,
}
use yeah.Deploy.Prepare.{is_finish, act-Keeps}
use yeah.Deploy.Exchange.{Plain, start_compose-Leads, switch_container-Leads}
use yeah.Deploy.Container.{prepare_container-Own, after_switch-Own}
use yeah.Deploy.Whole.{deploy_body-Leads, leave-Keeps}
use yeah.Deploy.Pipeline.{succeed, fail, deploy_body}
use yeah.Deploy.Job.{deploy_application}

-- The calls of the panel itself: its database, its event channel and its notifications.
abbrev pub is_panel : Effect → Bool
is_panel (connect host) = false
is_panel (disconnect host) = false
is_panel (exec host command) = false
is_panel (write host file) = false
is_panel mint_token = false
is_panel comment = false
is_panel _ = true

abbrev pub finishes : Event Effect → Bool
finishes e = is_finish e.effect

Count-plain : (n : ℕ) → Plain (Count finishes n)
Count-plain n e h p held = rw (unfinished (is_finish e.effect) _ p) held
  where
    unfinished : (b c : Bool) → not b && c ≡ true → b ≡ false
    unfinished true c f = ground arith
    unfinished false c f = refl

module _ (world : World Effect)
    (answering : (h : History Effect) (effect : Effect)
      → is_panel effect ≡ true
      → is_answered (world h effect) ≡ true) where
  -- A call of the panel does not throw.
  panel :
      (P Q X : History Effect → Type 0) (effect : Effect)
      → is_panel effect ≡ true
      → ((h : History Effect) → P h → Q (event_of world effect h ∷ h))
      → Leads {F = DeployError} P Q X (act world effect)
  panel P Q X effect mine q = answers world effect (λ h. answering h effect mine) q

  abbrev One : History Effect → Type 0
  One = Count finishes 1

  abbrev NoneYet : History Effect → Type 0
  NoneYet = Count finishes 0

  -- The comment on the pull request does not throw.
  commented :
      (E : History Effect → Type 0)
      → Leads {F = DeployError} One One E (attempt (act world comment))
  commented E = attempted (act-Keeps world One (Count-plain 1) comment refl)

  succeed-One : Leads NoneYet One NoneYet (succeed world)
  unfolding succeed
  succeed-One = bind (panel NoneYet One NoneYet _ refl (λ h p. rw p refl)) (λ _.
      bind (panel One One NoneYet _ refl (λ h p. p)) (λ _.
        bind (panel One One NoneYet _ refl (λ h p. p)) (λ _.
          bind (panel One One NoneYet _ refl (λ h p. p)) (λ _. bind (commented NoneYet) (λ _.
            bind (panel One One NoneYet _ refl (λ h p. p))
              (λ _. panel One One NoneYet _ refl (λ h p. p)))))))

  fail-One : Leads NoneYet One One (fail world)
  unfolding fail
  fail-One = bind (panel NoneYet NoneYet One _ refl (λ h p. p)) (λ _.
      bind (panel NoneYet One One _ refl (λ h p. rw p refl)) (λ _.
        bind (panel One One One _ refl (λ h p. p)) (λ _.
          bind (panel One One One _ refl (λ h p. p)) (λ _.
            bind (panel One One One _ refl (λ h p. p)) (λ _. bind (commented One) (λ _.
              bind (panel One One One _ refl (λ h p. p))
                (λ _. panel One One One _ refl (λ h p. p))))))))

  body-One :
      (has_stale : Text → Bool) (inputs : Inputs)
      → Leads NoneYet One NoneYet (deploy_body world has_stale inputs)
  body-One has_stale inputs =
      deploy_body-Leads world NoneYet NoneYet One NoneYet has_stale inputs plain (λ h p. p)
        (λ built commit.
          branch (is_compose inputs.build_pack)
            (start_compose-Leads world NoneYet NoneYet NoneYet inputs plain plain (λ h p. p)
              (λ h p. p) (λ test host r h p. p) (λ test host output h p. p))
            (bind (prepare_container-Own world inputs NoneYet built commit plain (λ host r h p. p))
              (λ _.
                switch_container-Leads world NoneYet NoneYet NoneYet plain plain (λ h p. p)
                  (λ h p. p) (λ host r h p. p) (λ host r h p. p) (λ host output h p. p))))
        (bind
          (after_switch-Own world inputs NoneYet has_stale plain (λ host r h p. p)
            (λ host r h p. p))
          (λ _. succeed-One))
    where
      plain : Plain NoneYet
      plain = Count-plain 0

  -- Where the panel's own calls (its database, its event channel and its notifications) do not throw,
  -- exactly one end status of the deployment is stored, success or failed, whatever the servers
  -- answer or throw.
  pub deploy_application-finishes :
      (has_stale : Text → Bool) (inputs : Inputs)
      → count_of finishes (deploy_application world has_stale inputs []).0 ≡ 1
  unfolding deploy_application
  deploy_application-finishes has_stale inputs =
      outcome
        (bind (panel NoneYet NoneYet One _ refl (λ h p. p)) (λ _.
          bind (panel NoneYet NoneYet One _ refl (λ h p. p)) (λ _.
            bind (panel NoneYet NoneYet One _ refl (λ h p. p)) (λ _.
              bind (panel NoneYet NoneYet One _ refl (λ h p. p)) (λ _.
                bind (panel NoneYet NoneYet One _ refl (λ h p. p)) (λ _.
                  finally_done (catching (body-One has_stale inputs) fail-One)
                    (leave-Keeps world One (Count-plain 1) inputs.has_registry)
                    (leave-Keeps world One (Count-plain 1) inputs.has_registry)))))))
        [] refl
