-- ===== src/ContainerWatch/Problems.antt =====
-- Which containers a pass complains about.
use yeah.Base.{
  ℕ, ◌+◌, ◌≤◌, ◌<◌, ◌≡◌, ◌≢◌, ◌↔◌, refl, ◌⊎◌, inl, inr, false, Option, none, some, List, [], ◌∷◌,
  Text, codes, Dict, insert, equal, equal_iff, includes, All, arith, Bool-cases,
}
use yeah.ContainerWatch.{
  WatchedContainer, ContainerProblem, judge, problem_of, detect_container_problems, cons_some,
}

-- Before the pass none of the rows was known, and no name stands in two rows.
abbrev pub AllNew : Dict ℕ → List WatchedContainer → Type 0
AllNew previous [] = Unit
AllNew previous (c ∷ rows) =
    (previous c.name ≡ none) × All (λ d. equal c.name d.name ≡ false) rows × AllNew previous rows

AllNew-insert :
    (previous : Dict ℕ) (name : Text) (count : ℕ) (rows : List WatchedContainer)
    → All (λ d. equal name d.name ≡ false) rows
    → AllNew previous rows
    → AllNew (insert name count previous) rows
AllNew-insert previous name count [] other new = tt
AllNew-insert previous name count (c ∷ rows) (o, other) (n, apart, new) =
    (rw o n, apart, AllNew-insert previous name count rows other new)

-- A pass over containers that were not known before, each in one row, reports nothing.
pub first_pass_quiet :
    (previous : Dict ℕ) (rows : List WatchedContainer) (ignore : List Text)
    → AllNew previous rows
    → (detect_container_problems previous rows ignore).1 ≡ []
unfolding detect_container_problems problem_of
first_pass_quiet previous [] ignore new = refl
first_pass_quiet previous (c ∷ rows) ignore (n, apart, new) =
    rw (n, problem_of)
      (first_pass_quiet (insert c.name c.restart_count previous) rows ignore
        (AllNew-insert previous c.name c.restart_count rows apart new))

judge-name :
    (c : WatchedContainer) (before : ℕ) (problem : ContainerProblem)
    → judge c before ≡ some problem
    → problem.name ≡ c.name
unfolding judge
judge-name c before problem e = ground arith

problem_of-name :
    (ignore : List Text) (before : Option ℕ) (c : WatchedContainer) (problem : ContainerProblem)
    → problem_of ignore before c ≡ some problem
    → includes ignore problem.name ≡ false
unfolding problem_of
problem_of-name ignore none c problem e = cc
problem_of-name ignore (some before) c problem e = elim (Bool-cases (includes ignore c.name)) [
  | inl skipped ↦ cc (rw skipped at e)
  | inr judged ↦ rw (judge-name c before problem (rw judged at e)) judged
]

All-cons_some :
    {A : Type 0} {P : A → Type 0} (o : Option A) (l : List A)
    → ((a : A) → o ≡ some a → P a)
    → All P l
    → All P (cons_some o l)
All-cons_some none l one h = h
All-cons_some (some a) l one h = (one a refl, h)

-- No pass reports a container that is to be ignored.
pub problems_not_ignored :
    (rows : List WatchedContainer) (previous : Dict ℕ) (ignore : List Text)
    → All
        (λ problem. includes ignore problem.name ≡ false)
        (detect_container_problems previous rows ignore).1
unfolding detect_container_problems
problems_not_ignored [] previous ignore = tt
problems_not_ignored (c ∷ rows) previous ignore =
    All-cons_some (problem_of ignore (previous c.name) c)
      (detect_container_problems (insert c.name c.restart_count previous) rows ignore).1
      (problem_of-name ignore (previous c.name) c)
      (problems_not_ignored rows (insert c.name c.restart_count previous) ignore)

-- A known container that is not ignored is reported exactly if it is in the state "restarting", or
-- was killed for memory and restarted since, or restarted at least three times since.
pub problem_of-none_iff :
    (ignore : List Text) (before : ℕ) (c : WatchedContainer)
    → includes ignore c.name ≡ false
    → (problem_of ignore (some before) c ≡ none) ↔ (
        (c.status ≢ codes "restarting")
        × ((c.oom_killed ≡ false) ⊎ (c.restart_count ≤ before))
        × (c.restart_count < before + 3))
unfolding problem_of judge
problem_of-none_iff ignore before c known = ground (arith, equal_iff c.status (codes "restarting"))
