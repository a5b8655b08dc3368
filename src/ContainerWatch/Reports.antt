-- ===== src/ContainerWatch/Reports.antt =====
-- The polls of one container over time: what is reported, and when.
use yeah.Base.{
  ℕ, suc, ◌+◌, ◌≤◌, ◌≡◌, ◌≢◌, refl, sym, inl, inr, false, Option, none, some, List, [], ◌∷◌, ◌++◌,
  ◌⊎◌, Text, All, length, equal, equal_iff, equal_refl, subst, arith, if◌then◌else◌,
}
use yeah.ContainerWatch.{
  TrackedState, TrackerOptions, ContainerStatusChange, follow, observe_entry, is_candidate,
  too_soon,
}

-- A poll that sees the container, at a time and in a state.
pub record Poll : Type 0 where
  pub at : ℕ
  pub state : Text

-- How many of the latest polls in a row saw the state; the latest poll comes first.
abbrev pub latest : Text → List Poll → ℕ
latest state [] = 0
latest state (p ∷ past) = if equal p.state state then 1 + latest state past else 0

module _ (options : TrackerOptions) (name : Text) where
  abbrev pub answer : Option TrackedState → Poll → TrackedState × Option ContainerStatusChange
  answer o p = observe_entry options p.at name o p.state

  -- The entry after polls that all saw the container, the latest poll first.
  abbrev pub entry_after : List Poll → Option TrackedState
  entry_after [] = none
  entry_after (p ∷ past) = some (answer (entry_after past) p).0

  -- The time and the change of the latest report among the polls.
  abbrev note :
      ℕ
      → Option ContainerStatusChange
      → Option (ℕ × ContainerStatusChange)
      → Option (ℕ × ContainerStatusChange)
  note t none earlier = earlier
  note t (some change) earlier = some (t, change)

  abbrev pub latest_report : List Poll → Option (ℕ × ContainerStatusChange)
  latest_report [] = none
  latest_report (p ∷ past) = note p.at (answer (entry_after past) p).1 (latest_report past)

  -- The candidate was seen in at least `polls` of the latest polls.
  abbrev CandidateSeen : Option Text → ℕ → List Poll → Type 0
  CandidateSeen none polls past = Unit
  CandidateSeen (some s) polls past = polls ≤ latest s past

  abbrev EntrySeen : Option TrackedState → List Poll → Type 0
  EntrySeen none past = Unit
  EntrySeen (some tr) past = CandidateSeen tr.candidate tr.candidate_polls past

  count_candidate :
      (c : Option Text) (polls : ℕ) (p : Poll) (past : List Poll)
      → CandidateSeen c polls past
      → (if is_candidate p.state c then polls + 1 else 1) ≤ latest p.state (p ∷ past)
  count_candidate none polls p past h = ground (arith, equal_refl p.state)
  count_candidate (some s) polls p past h = ground (arith, equal_refl p.state, equal_iff p.state s)

  answer-EntrySeen :
      (o : Option TrackedState) (p : Poll) (past : List Poll)
      → EntrySeen o past
      → EntrySeen (some (answer o p).0) (p ∷ past)
  unfolding observe_entry follow
  answer-EntrySeen none p past h = tt
  answer-EntrySeen (some tr) p past h =
      ground (arith, count_candidate tr.candidate tr.candidate_polls p past h)

  entry_after-EntrySeen : (past : List Poll) → EntrySeen (entry_after past) past
  entry_after-EntrySeen [] = tt
  entry_after-EntrySeen (p ∷ past) =
      answer-EntrySeen (entry_after past) p past (entry_after-EntrySeen past)

  answer-report :
      (o : Option TrackedState) (p : Poll) (past : List Poll) (change : ContainerStatusChange)
      → EntrySeen o past
      → (answer o p).1 ≡ some change
      → (options.confirm_polls ≤ latest p.state (p ∷ past))
        × (change.to ≡ p.state)
        × (change.from ≢ change.to)
        × (change.name ≡ name)
  unfolding observe_entry follow
  answer-report none p past change h e = cc
  answer-report (some tr) p past change h e = ground (
    arith,
    count_candidate tr.candidate tr.candidate_polls p past h,
    equal_iff p.state tr.reported,
  )

  -- After any polls of a container, a change is reported only if at least the `confirm_polls` latest
  -- polls in a row saw the state that is reported; it is the state of this poll, and another than
  -- the one it is said to come from.
  pub reports_confirmed :
      (past : List Poll) (p : Poll) (change : ContainerStatusChange)
      → (answer (entry_after past) p).1 ≡ some change
      → (options.confirm_polls ≤ latest p.state (p ∷ past))
        × (change.to ≡ p.state)
        × (change.from ≢ change.to)
        × (change.name ≡ name)
  reports_confirmed past p change e =
      answer-report (entry_after past) p past change (entry_after-EntrySeen past) e

  -- The entry knows the latest report, if there was one.
  abbrev Remembers : Option TrackedState → Option (ℕ × ContainerStatusChange) → Type 0
  Remembers o none = Unit
  Remembers none (some report) = ⊥
  Remembers (some tr) (some (t, change)) =
      (tr.last_reported_at ≡ some t) × (tr.reported ≡ change.to)

  -- The entry reports `s` already, or has it as a candidate for at least `n` polls.
  abbrev Settling : Text → ℕ → Option TrackedState → Type 0
  Settling s n none = n ≡ 0
  Settling s n (some tr) =
      (tr.reported ≡ s) ⊎ (n ≤ (if is_candidate s tr.candidate then tr.candidate_polls else 0))

  answer-Settling :
      (o : Option TrackedState) (p : Poll) (n : ℕ)
      → Settling p.state n o
      → Settling p.state (suc n) (some (answer o p).0)
  unfolding observe_entry follow
  answer-Settling none p n h = inl refl
  answer-Settling (some tr) p n h =
      ground (arith, equal_iff p.state tr.reported, equal_refl p.state)

  Settling-zero : (s : Text) (o : Option TrackedState) → Settling s 0 o
  Settling-zero s none = refl
  Settling-zero s (some tr) = inr (omega arith)

  entry_after-Settling :
      (s : Text) (ps past : List Poll)
      → All (λ q. q.state ≡ s) ps
      → Settling s (length ps) (entry_after (ps ++ past))
  entry_after-Settling s [] past h = Settling-zero s (entry_after past)
  entry_after-Settling s (q ∷ ps) past (e, h) =
      let o = entry_after (ps ++ past) in
      subst (λ t. Settling t (suc (length ps)) (some (answer o q).0)) e
        (answer-Settling o q (length ps)
          (subst (λ t. Settling t (length ps) o) (sym e) (entry_after-Settling s ps past h)))

  answer-settled :
      (tr : TrackedState) (p : Poll) (n : ℕ)
      → Settling p.state n (some tr)
      → options.confirm_polls ≤ n + 1
      → too_soon p.at tr.last_reported_at options.min_interval_ms ≡ false
      → (answer (some tr) p).0.reported ≡ p.state
  unfolding observe_entry follow
  answer-settled tr p n h enough soon =
      ground (arith, equal_iff p.state tr.reported, equal_refl p.state)

  -- A container that is seen in one state in so many polls in a row that, with the next, they are
  -- at least `confirm_polls`, and in the same state in the next poll, at a time at least
  -- `min_interval_ms` after its last report if there was one, is known to be in this state then: it
  -- was so already, or it is reported in one of these polls.
  pub settled_state_known :
      (ps past : List Poll) (p : Poll) (tr : TrackedState)
      → entry_after (ps ++ past) ≡ some tr
      → All (λ q. q.state ≡ p.state) ps
      → options.confirm_polls ≤ length ps + 1
      → too_soon p.at tr.last_reported_at options.min_interval_ms ≡ false
      → (answer (entry_after (ps ++ past)) p).0.reported ≡ p.state
  settled_state_known ps past p tr e same enough soon = rw e (
      answer-settled tr p (length ps)
        (subst (Settling p.state (length ps)) e (entry_after-Settling p.state ps past same)) enough
        soon)
