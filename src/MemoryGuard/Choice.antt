-- ===== src/MemoryGuard/Choice.antt =====
-- Which resource the guard chooses.
use Prim.Native.Nat.{Ordering}
use yeah.Base.{
  ◌≤◌, ◌<◌, ◌≢◌, ◌⊎◌, All-Among, ◌≡◌, ◌↔◌, refl, ℕ, inl, inr, Bool-cases, Option-cases, Bool, true,
  false, Option, some, none, List, [], ◌∷◌, select, All, Among, Among-select, All-select, Text,
  at_most, IsComparison, first-sort_by, first-sort_by-none, arith,
}
use yeah.MemoryGuard.{
  GuardCandidate, may_shed, may_restore, shed_order, restore_order, pick_to_shed, pick_to_restore,
  tier, mem_key, running, stopped, critical, low, normal, GuardPriority, is_running, is_critical,
}

-- A resource that the guard must leave alone: it does not run, is critical, or was stopped by the guard.
abbrev pub Untouchable : GuardCandidate → Type 0
Untouchable d = (d.status ≢ running) ⊎ (d.priority ≡ critical) ⊎ (d.shed_by_guard ≡ true)

-- `a` is at most `b`, where a measurement that is missing is less than any.
abbrev pub UsesNoMore : Option ℕ → Option ℕ → Type 0
UsesNoMore none b = Unit
UsesNoMore (some m) none = ⊥
UsesNoMore (some m) (some n) = m ≤ n

-- `d` is not to be stopped before `c`.
abbrev pub NotAhead : GuardCandidate → GuardCandidate → Type 0
NotAhead c d =
    Untouchable d
    ⊎ ((c.priority ≡ low) × (d.priority ≡ normal))
    ⊎ ((c.priority ≡ d.priority) × UsesNoMore d.mem_bytes c.mem_bytes)

-- What the guard may answer for the candidates: nothing if it must leave all of them alone.
abbrev pub IsShedChoice : List GuardCandidate → Option GuardCandidate → Type 0
IsShedChoice candidates none = All Untouchable candidates
IsShedChoice candidates (some c) =
    Among c candidates
    × (c.status ≡ running)
    × (c.priority ≢ critical)
    × (c.shed_by_guard ≡ false)
    × All (NotAhead c) candidates

may_shed-Untouchable : (d : GuardCandidate) → may_shed d ≡ false → Untouchable d
may_shed-Untouchable d h = elim (Bool-cases (is_running d.status)) [
  | inl runs ↦ elim (Bool-cases (is_critical d.priority)) [
    | inl always ↦ inr (inl (ground arith))
    | inr optional ↦ inr (inr (ground arith))
  ]
  | inr rests ↦ inl (λ e. ground arith)
]

select_empty :
    (p : GuardCandidate → Bool) (cs : List GuardCandidate)
    → (select p cs ≡ []) ↔ All (λ c. p c ≡ false) cs
select_empty p [] = (λ _. tt, λ _. refl)
select_empty p (c ∷ cs) = ground (arith, select_empty p cs)

All-Untouchable : (ds : List GuardCandidate) → All (λ d. may_shed d ≡ false) ds → All Untouchable ds
All-Untouchable [] h = tt
All-Untouchable (d ∷ ds) (here, later) = (may_shed-Untouchable d here, All-Untouchable ds later)

mem_key-UsesNoMore : (m n : Option ℕ) → mem_key n ≤ mem_key m → UsesNoMore n m
mem_key-UsesNoMore m none h = tt
mem_key-UsesNoMore none (some k) h = absurd (omega arith)
mem_key-UsesNoMore (some l) (some k) h = omega arith

-- The first two comparisons of the order, for a candidate that is not critical.
order_NotAhead :
    (p q : GuardPriority) (m n : Option ℕ)
    → is_critical p ≡ false
    → is_critical q ≡ false
    → (tier p < tier q) ⊎ ((tier p ≡ tier q) × (mem_key n ≤ mem_key m))
    → ((p ≡ low) × (q ≡ normal)) ⊎ ((p ≡ q) × UsesNoMore n m)
order_NotAhead low normal m n hp hq k = inl (refl, refl)
order_NotAhead low low m n hp hq k = inr (refl, mem_key-UsesNoMore m n (ground arith))
order_NotAhead normal normal m n hp hq k = inr (refl, mem_key-UsesNoMore m n (ground arith))
order_NotAhead p q m n hp hq k = absurd (ground arith)

module _ (locale_compare : Text → Text → Ordering) (names : IsComparison locale_compare) where
  shed_order-IsComparison : IsComparison (shed_order locale_compare)
  shed_order-IsComparison = record {
    total = λ a b h. ground (arith, names.total a.name b.name);
    trans = λ a b c h k. ground (arith, names.trans a.name b.name c.name);
  }

  restore_order-IsComparison : IsComparison (restore_order locale_compare)
  restore_order-IsComparison = record {
    total = λ a b h. ground (arith, names.total a.name b.name);
    trans = λ a b c h k. ground (arith, names.trans a.name b.name c.name);
  }

  shed_order-NotAhead :
      (c d : GuardCandidate)
      → may_shed c ≡ true
      → (may_shed d ≡ true → at_most (shed_order locale_compare c d) ≡ true)
      → NotAhead c d
  shed_order-NotAhead c d h k = elim (Bool-cases (may_shed d)) [
    | inl eligible ↦ inr (
        order_NotAhead c.priority d.priority c.mem_bytes d.mem_bytes (ground arith) (ground arith)
          (let least = k eligible in ground arith))
    | inr left_alone ↦ inl (may_shed-Untouchable d left_alone)
  ]

  All-NotAhead :
      (c : GuardCandidate) (ds : List GuardCandidate)
      → may_shed c ≡ true
      → All (λ d. may_shed d ≡ true → at_most (shed_order locale_compare c d) ≡ true) ds
      → All (NotAhead c) ds
  All-NotAhead c [] h k = tt
  All-NotAhead c (d ∷ ds) h (here, later) =
      (shed_order-NotAhead c d h here, All-NotAhead c ds h later)

  restore_order-le :
      (c d : GuardCandidate)
      → at_most (restore_order locale_compare c d) ≡ true
      → tier d.priority ≤ tier c.priority
  restore_order-le c d h = ground arith

  pub pick_to_shed-Among :
      (candidates : List GuardCandidate) (c : GuardCandidate)
      → pick_to_shed locale_compare candidates ≡ some c
      → Among c candidates × (may_shed c ≡ true)
  unfolding pick_to_shed
  pick_to_shed-Among candidates c e =
      Among-select may_shed candidates
        (first-sort_by (shed_order locale_compare) (select may_shed candidates) c
          shed_order-IsComparison e).0

  -- Given a locale order that is total and transitive: where nothing is picked to be stopped, every
  -- candidate does not run, is critical or was stopped by the guard. A resource that is picked is one of the
  -- candidates, runs, is not critical and was not stopped by the guard; and every candidate does not run, is
  -- critical, was stopped by the guard, or comes no earlier than the picked one: it has normal
  -- priority and the picked one low, or the same priority and no more memory in use, where a missing
  -- measurement counts as less than any.
  pub pick_to_shed_lem :
      (candidates : List GuardCandidate)
      → IsShedChoice candidates (pick_to_shed locale_compare candidates)
  unfolding pick_to_shed
  pick_to_shed_lem candidates = elim (Option-cases (pick_to_shed locale_compare candidates)) [
    | inl e ↦ rw e (
        All-Untouchable candidates (
          (select_empty may_shed candidates).0
            ((first-sort_by-none (shed_order locale_compare) (select may_shed candidates)).0 e)))
    | inr (c, e) ↦ rw e (
        let (among, least) =
          first-sort_by (shed_order locale_compare) (select may_shed candidates) c
            shed_order-IsComparison e in
        let (listed, eligible) = Among-select may_shed candidates among in
        (
          listed,
          ground arith,
          ground arith,
          ground arith,
          All-NotAhead c candidates eligible (All-select may_shed _ candidates least),
        ))
  ]

  -- Given a locale order that is total and transitive: a resource picked to be started again is one of the candidates, is
  -- stopped, and was stopped by the guard; and no candidate `d` of this kind has a higher priority.
  pub pick_to_restore_lem :
      (candidates : List GuardCandidate) (c d : GuardCandidate)
      → pick_to_restore locale_compare candidates ≡ some c
      → Among d candidates
      → may_restore d ≡ true
      → Among c candidates
        × (c.status ≡ stopped)
        × (c.shed_by_guard ≡ true)
        × (tier d.priority ≤ tier c.priority)
  unfolding pick_to_restore
  pick_to_restore_lem candidates c d e listed_d eligible_d =
      let (among, least) =
        first-sort_by (restore_order locale_compare) (select may_restore candidates) c
          restore_order-IsComparison e in
      let (listed, eligible) = Among-select may_restore candidates among in
      let below =
        All-Among (λ x. may_restore x ≡ true → at_most (restore_order locale_compare c x) ≡ true)
          candidates (All-select may_restore _ candidates least) listed_d in
      (listed, ground arith, ground arith, restore_order-le c d (below eligible_d))

-- Whatever the locale order: nothing is picked exactly if no candidate qualifies.
pub pick-none_iff :
    (locale_compare : Text → Text → Ordering) (candidates : List GuardCandidate)
    → ((pick_to_shed locale_compare candidates ≡ none) ↔ All (λ c. may_shed c ≡ false) candidates)
      × ((pick_to_restore locale_compare candidates ≡ none)
          ↔ All (λ c. may_restore c ≡ false) candidates)
unfolding pick_to_shed pick_to_restore
pick-none_iff locale_compare candidates =
    let shed = first-sort_by-none (shed_order locale_compare) (select may_shed candidates) in
    let restore =
      first-sort_by-none (restore_order locale_compare) (select may_restore candidates) in
    let (no_shed, shed_back) = select_empty may_shed candidates in
    let (no_restore, restore_back) = select_empty may_restore candidates in
    (
      (λ e. no_shed (shed.0 e), λ a. shed.1 (shed_back a)),
      (λ e. no_restore (restore.0 e), λ a. restore.1 (restore_back a)),
    )
