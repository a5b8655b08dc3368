-- ===== src/GuardJob/Flags.antt =====
-- memoryGuard.ts: a stop or a start is queued only behind the write of the resource's flag, and the
-- tick never throws.
use Prim.Native.Nat.{Ordering}
use yeah.Base.{
  ℕ, Bool, true, false, ◌&&◌, not, Option, none, some, List, [], ◌∷◌, Text, Dict, equal, Bool-cases,
  inl, inr, ◌≡◌, refl,
}
use yeah.Program.{
  World, Event, History, Outcome, returned, thrown, Reply, answered, is_answered, ◌>>=◌, pure, act,
}
use yeah.Program.Order.{preceded, Safe, Ready, Safe-more}
use yeah.Program.Logic.{
  Assertion, After, Leads, Keeps, bind, give, branch, catching, outcome, weaken, bind_call, anyhow,
}
use yeah.Program.Success.{sound, backed}
use yeah.MemoryGuard.{Kind, application, service, GuardCandidate, GuardState}
use yeah.GuardJob.{
  GuardCall, read_resources, flag, queue, insert_event, notify_guard, GuardServer,
  build_guard_candidates, stale_shed_flags,
}
use yeah.GuardJob.Job.{
  clear_flags, gather, carry_out, deed_of, step_of, take_step, run_memory_guard,
}

abbrev pub same_kind : Kind → Kind → Bool
same_kind application application = true
same_kind service service = true
same_kind _ _ = false

abbrev same : Bool → Bool → Bool
same true b = b
same false b = not b

module _ (kind : Kind) (id : Text) (stopping : Bool) where
  abbrev pub is_about : Kind → Text → Bool → Bool
  is_about k i b = same_kind kind k && equal id i && same stopping b

  abbrev pub is_queue : GuardCall → Bool
  is_queue (queue k i b) = is_about k i b
  is_queue _ = false

  abbrev pub is_flag : GuardCall → Bool
  is_flag (flag k i b) = is_about k i b
  is_flag _ = false

  -- A stop or a start of the resource is added to the queue.
  abbrev pub queues_guard : Event GuardCall → Bool
  queues_guard e = is_queue e.effect

  -- The resource's flag was written for that stop or start.
  abbrev pub flags_guard : Event GuardCall → Bool
  flags_guard e = is_flag e.effect && is_answered e.reply

  abbrev Sound : Assertion GuardCall
  Sound = Safe queues_guard flags_guard

  abbrev Flagged : Assertion GuardCall
  Flagged = Ready queues_guard flags_guard

  module _ (locale_compare : Text → Text → Ordering) (world : World GuardCall) where
    goes :
        (effect : GuardCall) → is_queue effect ≡ false → Keeps {F = Unit} Sound (act world effect)
    goes effect other = sound queues_guard flags_guard world effect (λ h. other)

    clear_flags-Keeps :
        (cs : List GuardCandidate) → Keeps Sound (clear_flags locale_compare world cs)
    unfolding clear_flags
    clear_flags-Keeps [] = give
    clear_flags-Keeps (c ∷ rest) =
        bind (goes (flag c.kind c.id false) refl) (λ _. clear_flags-Keeps rest)

    gather-Keeps : (server : GuardServer) → Keeps Sound (gather locale_compare world server)
    unfolding gather
    gather-Keeps server = bind (goes read_resources refl) (λ _.
        bind
          (clear_flags-Keeps (
            stale_shed_flags
              (build_guard_candidates server.apps server.services server.containers)))
          (λ _. give))

    -- What is done to a resource, whether or not it is the one that is asked about.
    deed-Keeps :
        (target : GuardCandidate) (b : Bool)
        → Keeps Sound (carry_out locale_compare world (some (target, b)))
    unfolding carry_out
    deed-Keeps target b = elim (Bool-cases (is_about target.kind target.id b)) [
      | inl mine ↦
          bind
            (bind_call world (λ code output. Flagged) (flag target.kind target.id b) _
              (λ h r s. kept h r s)
              (λ h code output s. (kept h (answered code output) s, rw mine refl))
              (λ code output. flagged))
            (λ _. bind (backed queues_guard flags_guard world (queue target.kind target.id b)) (λ _.
              bind (backed queues_guard flags_guard world (insert_event b)) (λ _.
                weaken (λ h p. p) (λ h p. p.0) (λ h s. s)
                  (backed queues_guard flags_guard world (notify_guard b)))))
      | inr other ↦ bind (goes (flag target.kind target.id b) refl) (λ _.
          bind (goes (queue target.kind target.id b) other)
            (λ _. bind (goes (insert_event b) refl) (λ _. goes (notify_guard b) refl)))
    ]
      where
        kept :
            (h : History GuardCall) (r : Reply)
            → Sound h
            → Sound (record { effect = flag target.kind target.id b; reply = r } ∷ h)
        kept h r s =
            Safe-more queues_guard flags_guard
              (record { effect = flag target.kind target.id b; reply = r }) h refl s

        flagged : Leads {E = GuardCall} {F = Unit} Flagged Flagged Sound (pure tt)
        flagged = give

    carry_out-Keeps :
        (deed : Option (GuardCandidate × Bool)) → Keeps Sound (carry_out locale_compare world deed)
    unfolding carry_out
    carry_out-Keeps none = give
    carry_out-Keeps (some (target, b)) = deed-Keeps target b

    take_step-Keeps :
        (states : Dict GuardState) (server : GuardServer) (mem_percent : ℕ)
        (gathered : Option (List GuardCandidate))
        → Keeps Sound (take_step locale_compare world states server mem_percent gathered)
    take_step-Keeps states server mem_percent none = give
    take_step-Keeps states server mem_percent (some candidates) =
        bind
          (catching
            (carry_out-Keeps
              (deed_of (step_of locale_compare world states server mem_percent candidates).1))
            give)
          (λ _. give)

    -- Whatever the calls answer or throw, a stop or a start of a resource is added to the queue only after the
    -- resource's flag was written for the same stop or start.
    pub run_memory_guard_flags_first :
        (states : Dict GuardState) (server : GuardServer) (mem_percent : ℕ)
        → preceded queues_guard flags_guard
            (run_memory_guard locale_compare world states server mem_percent []).0
          ≡ true
    unfolding run_memory_guard
    run_memory_guard_flags_first states server mem_percent =
        outcome
          (branch (not server.memory_guard_enabled) give (
            bind (catching (bind (gather-Keeps server) (λ candidates. give)) give)
              (λ gathered. take_step-Keeps states server mem_percent gathered)))
          [] refl

abbrev pub is_returned : {F A : Type 0} → Outcome F A → Bool
is_returned (returned a) = true
is_returned (thrown f) = false

abbrev Anything : Assertion GuardCall
Anything h = Unit

abbrev Never : Assertion GuardCall
Never h = ⊥

returned_when :
    {A : Type 0} (r : History GuardCall × Outcome Unit A)
    → After Anything Never r
    → is_returned r.1 ≡ true
returned_when (h, returned a) held = refl
returned_when (h, thrown f) held = absurd held

module _ (locale_compare : Text → Text → Ordering) (world : World GuardCall) where
  steps :
      (states : Dict GuardState) (server : GuardServer) (mem_percent : ℕ)
      (gathered : Option (List GuardCandidate))
      → Leads Anything Anything Never
          (take_step locale_compare world states server mem_percent gathered)
  steps states server mem_percent none = give
  steps states server mem_percent (some candidates) =
      bind
        (catching
          (anyhow Anything (
            carry_out locale_compare world
              (deed_of (step_of locale_compare world states server mem_percent candidates).1)))
          give)
        (λ _. give)

  -- Whatever the calls answer or throw, a tick of the guard returns the counters of the servers: it never throws.
  pub run_memory_guard_returns :
      (states : Dict GuardState) (server : GuardServer) (mem_percent : ℕ) (h : History GuardCall)
      → is_returned (run_memory_guard locale_compare world states server mem_percent h).1 ≡ true
  unfolding run_memory_guard
  run_memory_guard_returns states server mem_percent h =
      returned_when (run_memory_guard locale_compare world states server mem_percent h)
        (whole.runs h tt)
    where
      whole :
          Leads Anything Anything Never
            (run_memory_guard locale_compare world states server mem_percent)
      whole = branch (not server.memory_guard_enabled) give (
          bind
            (catching
              (anyhow Anything
                (gather locale_compare world server >>= (λ candidates. pure (some candidates))))
              give)
            (λ gathered. steps states server mem_percent gathered))
