-- ===== src/GuardJob/Critical.antt =====
-- memoryGuard.ts and the policy together: a critical resource is not stopped.
use Prim.Native.Nat.{Ordering}
use yeah.Base.{
  ℕ, Bool, true, false, ◌&&◌, ◌||◌, not, Option, none, some, List, [], ◌∷◌, map, Text, Dict, equal,
  any, all, Among, Bool-cases, inl, inr, IsComparison, or_else, ◌≡◌, refl, arith,
}
use yeah.Program.{World, act}
use yeah.Program.Order.{Fresh, Fresh-more}
use yeah.Program.Logic.{
  Assertion, Leads, Keeps, bind, give, branch, event_of, catching, outcome, acts,
}
use yeah.Program.Yields.{Yields, yield, bind_value, then_yield, yield_on, catch_yield}
use yeah.MemoryGuard.{
  Kind, GuardCandidate, GuardState, GuardAction, stop, start, idle, is_critical,
  initial_guard_state,
}
use yeah.MemoryGuard.Choice.{pick_to_shed-Among}
use yeah.MemoryGuard.Policy.{guard_step-acts, Sample}
use yeah.GuardJob.{
  GuardCall, read_resources, flag, queue, insert_event, notify_guard, GuardServer,
  build_guard_candidates, stale_shed_flags, is_stale,
}
use yeah.GuardJob.Job.{
  clear_flags, gather, carry_out, deed_of, cleared, step_of, take_step, run_memory_guard,
}
use yeah.GuardJob.Flags.{same_kind, is_about, is_queue, queues_guard, flags_guard}

-- The candidate is another resource, or critical.
abbrev pub is_spared : Kind → Text → GuardCandidate → Bool
is_spared kind id c = not (same_kind kind c.kind && equal id c.id) || is_critical c.priority

all-Among :
    (p : GuardCandidate → Bool) (cs : List GuardCandidate) (c : GuardCandidate)
    → all p cs ≡ true
    → Among c cs
    → p c ≡ true
all-Among p [] c every m = absurd m
all-Among p (x ∷ rest) c every (inl e) = rw e (ground arith)
all-Among p (x ∷ rest) c every (inr m) = all-Among p rest c (ground arith) m

is_spared-cleared :
    (kind : Kind) (id : Text) (c : GuardCandidate)
    → is_spared kind id (cleared c) ≡ is_spared kind id c
is_spared-cleared kind id c = elim (Bool-cases (is_stale c)) [
  | inl here ↦ rw here refl
  | inr gone ↦ rw gone refl
]

all-map :
    (kind : Kind) (id : Text) (cs : List GuardCandidate)
    → all (is_spared kind id) (map cleared cs) ≡ all (is_spared kind id) cs
all-map kind id [] = refl
all-map kind id (c ∷ rest) = rw (is_spared-cleared kind id c, all-map kind id rest) refl

module _ (kind : Kind) (id : Text) where
  abbrev Unqueued : Assertion GuardCall
  Unqueued = Fresh (queues_guard kind id true) (flags_guard kind id true)

  module _ (locale_compare : Text → Text → Ordering) (world : World GuardCall) where
    goes :
        (effect : GuardCall)
        → is_queue kind id true effect ≡ false
        → Keeps {F = Unit} Unqueued (act world effect)
    goes effect other =
        acts world effect
          (λ h f.
            Fresh-more (queues_guard kind id true) (flags_guard kind id true)
              (event_of world effect h) h other f)
          (λ h f.
            Fresh-more (queues_guard kind id true) (flags_guard kind id true)
              (event_of world effect h) h other f)

    clear_flags-Keeps :
        (cs : List GuardCandidate) → Keeps Unqueued (clear_flags locale_compare world cs)
    unfolding clear_flags
    clear_flags-Keeps [] = give
    clear_flags-Keeps (c ∷ rest) =
        bind (goes (flag c.kind c.id false) refl) (λ _. clear_flags-Keeps rest)

    deed-Keeps :
        (target : GuardCandidate) (b : Bool)
        → is_about kind id true target.kind target.id b ≡ false
        → Keeps Unqueued (carry_out locale_compare world (some (target, b)))
    unfolding carry_out
    deed-Keeps target b other = bind (goes (flag target.kind target.id b) refl) (λ _.
        bind (goes (queue target.kind target.id b) other)
          (λ _. bind (goes (insert_event b) refl) (λ _. goes (notify_guard b) refl)))

    action-Keeps :
        (action : GuardAction)
        → ((c : GuardCandidate) → action ≡ stop c → is_about kind id true c.kind c.id true ≡ false)
        → Keeps Unqueued (carry_out locale_compare world (deed_of action))
    unfolding carry_out
    action-Keeps (stop target) other = deed-Keeps target true (other target refl)
    action-Keeps (start target) other = deed-Keeps target false (ground arith)
    action-Keeps idle other = give

    module _ (names : IsComparison locale_compare) where
      step_spares :
          (states : Dict GuardState) (server : GuardServer) (mem_percent : ℕ)
          (candidates : List GuardCandidate) (c : GuardCandidate)
          → all (is_spared kind id) candidates ≡ true
          → (step_of locale_compare world states server mem_percent candidates).1 ≡ stop c
          → is_about kind id true c.kind c.id true ≡ false
      step_spares states server mem_percent candidates c spared e =
          let sample : Sample = record {
            mem_percent = mem_percent;
            settings = record {
              enabled = true;
              threshold = server.threshold;
              recover = server.recover;
            };
            candidates = candidates;
          } in
          let (high, before, picked) =
            (guard_step-acts locale_compare (or_else (states server.id) initial_guard_state) sample
                c).0
              e in
          let (listed, eligible) = pick_to_shed-Among locale_compare names candidates c picked in
          let safe = all-Among (is_spared kind id) candidates c spared listed in ground arith

      take_step-Keeps :
          (states : Dict GuardState) (server : GuardServer) (mem_percent : ℕ)
          (candidates : List GuardCandidate)
          → all (is_spared kind id) candidates ≡ true
          → Keeps Unqueued
              (take_step locale_compare world states server mem_percent (some candidates))
      take_step-Keeps states server mem_percent candidates spared =
          bind
            (catching
              (action-Keeps (step_of locale_compare world states server mem_percent candidates).1
                (λ c e. step_spares states server mem_percent candidates c spared e))
              give)
            (λ _. give)

      -- The candidates of a tick are those that the rows give, with flags taken off.
      abbrev Spared : Option (List GuardCandidate) → Assertion GuardCall
      Spared none h = Unqueued h
      Spared (some candidates) h = (all (is_spared kind id) candidates ≡ true) × Unqueued h

      gather-Yields :
          (server : GuardServer)
          → all
              (is_spared kind id)
              (build_guard_candidates server.apps server.services server.containers)
            ≡ true
          → Yields Unqueued
              (λ candidates. Spared (some candidates))
              Unqueued
              (gather locale_compare world server)
      unfolding gather
      gather-Yields server spared = then_yield Unqueued _ (goes read_resources refl) (λ _.
          then_yield Unqueued _
            (clear_flags-Keeps (
              stale_shed_flags
                (build_guard_candidates server.apps server.services server.containers)))
            (λ _.
              yield (λ candidates. Spared (some candidates)) _
                (λ h f. (
                  rw
                      (all-map kind id
                        (build_guard_candidates server.apps server.services server.containers))
                      spared,
                  f,
                ))))

      step-Leads :
          (states : Dict GuardState) (server : GuardServer) (mem_percent : ℕ)
          (gathered : Option (List GuardCandidate))
          → Leads
              (Spared gathered)
              Unqueued
              Unqueued
              (take_step locale_compare world states server mem_percent gathered)
      step-Leads states server mem_percent none = give
      step-Leads states server mem_percent (some candidates) = record {
        runs =
            λ h held. (take_step-Keeps states server mem_percent candidates held.0).runs h held.1;
      }

      -- Given a locale order that is total and transitive: where every candidate that the rows and the
      -- running containers give for a resource is critical, no tick of the guard adds a stop of the
      -- resource to the queue, whatever the memory, the counters and the answers of the calls.
      pub run_memory_guard_spares :
          (states : Dict GuardState) (server : GuardServer) (mem_percent : ℕ)
          → all
              (is_spared kind id)
              (build_guard_candidates server.apps server.services server.containers)
            ≡ true
          → any
              (queues_guard kind id true)
              (run_memory_guard locale_compare world states server mem_percent []).0
            ≡ false
      unfolding run_memory_guard
      run_memory_guard_spares states server mem_percent spared =
          outcome
            (branch (not server.memory_guard_enabled) give (
              bind_value Spared
                (catch_yield Unqueued Spared
                  (yield_on (λ candidates. Spared (some candidates)) Spared
                    (gather-Yields server spared)
                    (λ candidates. yield Spared (some candidates) (λ h held. held)))
                  (yield Spared none (λ h f. f)))
                (λ gathered. step-Leads states server mem_percent gathered)))
            [] refl
