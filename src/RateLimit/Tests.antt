-- ===== src/RateLimit/Tests.antt =====
-- Runs of the limiter, and instances of its theorems.
use yeah.Base.{
  ℕ, ◌≡◌, refl, false, some, none, List, [], ◌∷◌, arith, ◌+◌, ◌-◌, empty, equal, codes, leb,
  ends_with,
}
use yeah.RateLimit.{
  RateLimiter, RateRule, hit, tick, sweep, bucket_id, rule_for, auth_rule, write_rule,
}
use yeah.RateLimit.Windows.{Request, serve_all, id_of, hits_of, window_admits}
use yeah.RateLimit.Sweep.{answers, plain_answers, answers-plain}

abbrev start : RateLimiter
start = record { buckets = empty; since_sweep = 498 }

abbrev small : RateRule
small = record { name = codes "auth"; limit = 2; window_ms = 1000 }

abbrev at : ℕ → Request
at now = record { key = codes "::1"; rule = small; now = now }

abbrev run : List Request
run = at 5 ∷ at 10 ∷ at 20 ∷ at 1100 ∷ []

over_limit :
    (hit (serve_all start (at 5 ∷ at 10 ∷ [])) (codes "::1") small 20).1
    ≡ record { allowed = false; remaining = 0; retry_after_sec = 1 }
unfolding hit tick sweep bucket_id equal
over_limit = refl

rules :
    (rule_for (codes "POST") (codes "/api/auth/login") ≡ some auth_rule)
    × (rule_for (codes "DELETE") (codes "/api/teams") ≡ some write_rule)
    × (rule_for (codes "GET") (codes "/api/auth/login") ≡ none)
unfolding rule_for equal ends_with
rules = (refl, refl, refl)

window_admits_example :
    ((hit (serve_all start (at 5 ∷ at 10 ∷ [])) (codes "::1") small 20).1.allowed
      ≡ leb (2 + hits_of (id_of (at 5)) (at 10 ∷ [])) 2)
    × ((hit (serve_all start (at 5 ∷ at 10 ∷ [])) (codes "::1") small 20).1.remaining
        ≡ 2 - (2 + hits_of (id_of (at 5)) (at 10 ∷ [])))
window_admits_example =
    window_admits start (at 5) (at 10 ∷ []) (at 20) refl (omega arith) (omega arith) refl

abbrev full : RateLimiter
full = record { buckets = λ _. some (record { count = 7; reset_at = 100 }); since_sweep = 3 }

full_refuses : (hit full (codes "::1") small 20).1.allowed ≡ false
unfolding hit tick
full_refuses = refl

answers-plain_example : answers start run ≡ plain_answers empty run
answers-plain_example = answers-plain start run 5 (omega arith)

login_rule : rule_for (codes "POST") (codes "/auth/login") ≡ some auth_rule
unfolding rule_for equal ends_with
login_rule = refl
