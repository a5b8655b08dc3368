-- ===== src/GuardJob/Tests.antt =====
-- Ticks of the guard, and the theorems at concrete inputs.
use Prim.Native.Nat.{Ordering}
use yeah.Base.{
  IsComparison, sort_by, true, false, [], ◌∷◌, Text, codes, Dict, empty, insert, any, equal, ◌≡◌,
  refl,
}
use yeah.Program.{World, Reply, threw, answered, call, catch}
use yeah.Program.Order.{preceded}
use yeah.MemoryGuard.{application, low, critical, GuardState, guard_step, pick_to_shed}
use yeah.GuardJob.{GuardCall, queue, GuardRow, GuardServer, build_guard_candidates}
use yeah.GuardJob.Job.{run_memory_guard, gather, clear_flags, carry_out}
use yeah.GuardJob.Critical.{run_memory_guard_spares}
use yeah.GuardJob.Flags.{
  queues_guard, flags_guard, is_returned, run_memory_guard_flags_first, run_memory_guard_returns,
}

abbrev locale : Text → Text → Ordering
locale a b = Ordering.eq

abbrev blog : GuardRow
blog = record {
  id = codes "a1";
  name = codes "blog";
  priority = low;
  shed_by_guard = false;
  status = codes "running";
  has_many = true;
}

abbrev shop : GuardRow
shop = record blog { id = codes "a2"; priority = critical }

abbrev host : GuardServer
host = record {
  id = codes "s1";
  memory_guard_enabled = true;
  threshold = 90;
  recover = 80;
  apps = blog ∷ shop ∷ [];
  services = [];
  containers = [];
}

-- One high sample was seen before.
abbrev counted : Dict GuardState
counted = insert (codes "s1") (record { high = 1; low_count = 0 }) empty

abbrev calm : World GuardCall
calm h effect = answered 0 []

abbrev full : GuardCall → Reply
full (queue kind id stopping) = threw
full effect = answered 0 []

-- Nothing can be added to the queue.
abbrev broken : World GuardCall
broken h effect = full effect

high_tick :
    any
      (queues_guard application (codes "a1") true)
      (run_memory_guard locale calm counted host 95 []).0
    ≡ true
unfolding run_memory_guard gather clear_flags carry_out build_guard_candidates equal call catch
    guard_step pick_to_shed sort_by
high_tick = refl

run_memory_guard_flags_first_example :
    preceded
      (queues_guard application (codes "a1") true)
      (flags_guard application (codes "a1") true)
      (run_memory_guard locale calm counted host 95 []).0
    ≡ true
run_memory_guard_flags_first_example =
    run_memory_guard_flags_first application (codes "a1") true locale calm counted host 95

run_memory_guard_returns_example :
    is_returned (run_memory_guard locale broken counted host 95 []).1 ≡ true
run_memory_guard_returns_example = run_memory_guard_returns locale broken counted host 95 []

locale-IsComparison : IsComparison locale
locale-IsComparison = record { total = λ a b h. refl; trans = λ a b c h k. refl }

run_memory_guard_spares_example :
    any
      (queues_guard application (codes "a2") true)
      (run_memory_guard locale calm counted host 95 []).0
    ≡ false
unfolding build_guard_candidates equal
run_memory_guard_spares_example =
    run_memory_guard_spares application (codes "a2") locale calm locale-IsComparison counted host 95
      refl
