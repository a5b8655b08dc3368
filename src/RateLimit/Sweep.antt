-- ===== src/RateLimit/Sweep.antt =====
-- The sweep of expired buckets cannot be seen from outside.
use mathlib.Core.Path.{ap₂}
use yeah.Base.{
  ℕ, ◌+◌, ◌≤◌, ◌≡◌, refl, sym, ◌∙◌, ap, Option, none, some, List, [], ◌∷◌, Text, Dict, insert,
  equal, leb, arith, Bool-cases, inl, inr,
}
use yeah.RateLimit.{
  RateLimiter, RateResult, Bucket, bucket_id, hit, tick, sweep, keep_live, current, counted, answer,
}
use yeah.RateLimit.Windows.{Request, serve, current-tick, current-keep_live}

-- A limiter that never forgets a bucket.
abbrev plain_hit : Dict Bucket → Request → Dict Bucket × RateResult
plain_hit buckets r =
    let id = bucket_id r.rule r.key in
    let bucket = counted (current (buckets id) r.rule r.now) in
    (insert id bucket buckets, answer r.rule r.now bucket)

abbrev pub plain_answers : Dict Bucket → List Request → List RateResult
plain_answers buckets [] = []
plain_answers buckets (r ∷ rs) = (plain_hit buckets r).1 ∷ plain_answers (plain_hit buckets r).0 rs

abbrev pub answers : RateLimiter → List Request → List RateResult
answers limiter [] = []
answers limiter (r ∷ rs) = (hit limiter r.key r.rule r.now).1 ∷ answers (serve limiter r) rs

-- The clock does not go back, from the time `t` on.
abbrev pub InOrder : ℕ → List Request → Type 0
InOrder t [] = Unit
InOrder t (r ∷ rs) = (t ≤ r.now) × InOrder r.now rs

abbrev Agree : ℕ → Dict Bucket → Dict Bucket → Type 0
Agree t m n = (id : Text) → keep_live t (m id) ≡ keep_live t (n id)

keep_live_later :
    (o : Option Bucket) {t u : ℕ} → t ≤ u → keep_live u (keep_live t o) ≡ keep_live u o
keep_live_later none h = refl
keep_live_later (some b) h = ground arith

Agree-later : (m n : Dict Bucket) {t u : ℕ} → t ≤ u → Agree t m n → Agree u m n
Agree-later m n {t} {u} h a id =
    sym (keep_live_later (m id) h) ∙ ap (keep_live u) (a id) ∙ keep_live_later (n id) h

keep_live-tick :
    (limiter : RateLimiter) (now : ℕ) (id : Text)
    → keep_live now ((tick limiter now).buckets id) ≡ keep_live now (limiter.buckets id)
unfolding tick sweep
keep_live-tick limiter now id = elim (Bool-cases (leb 500 (limiter.since_sweep + 1))) [
  | inl due ↦ rw due (keep_live_later (limiter.buckets id) {t = now} (omega arith))
  | inr early ↦ rw early
]

Agree-current :
    (limiter : RateLimiter) (buckets : Dict Bucket) (r : Request) (id : Text)
    → Agree r.now limiter.buckets buckets
    → current ((tick limiter r.now).buckets id) r.rule r.now ≡ current (buckets id) r.rule r.now
Agree-current limiter buckets r id a =
    current-tick limiter id r.rule r.now
    ∙ sym (current-keep_live (limiter.buckets id) r.rule r.now)
    ∙ ap (λ o. current o r.rule r.now) (a id)
    ∙ current-keep_live (buckets id) r.rule r.now

Agree-serve :
    (limiter : RateLimiter) (buckets : Dict Bucket) (r : Request)
    → Agree r.now limiter.buckets buckets
    → Agree r.now (serve limiter r).buckets (plain_hit buckets r).0
unfolding hit
Agree-serve limiter buckets r a id = elim (Bool-cases (equal (bucket_id r.rule r.key) id)) [
  | inl same ↦ rw (same, Agree-current limiter buckets r (bucket_id r.rule r.key) a)
  | inr other ↦ rw other (keep_live-tick limiter r.now id ∙ a id)
]

answers-Agree :
    (rs : List Request) (t : ℕ) (limiter : RateLimiter) (buckets : Dict Bucket)
    → InOrder t rs
    → Agree t limiter.buckets buckets
    → answers limiter rs ≡ plain_answers buckets rs
unfolding hit
answers-Agree [] t limiter buckets o a = refl
answers-Agree (r ∷ rs) t limiter buckets (h, o) a =
    let now_agree : Agree r.now limiter.buckets buckets = Agree-later _ _ h a in
    let same =
      ap (λ c. answer r.rule r.now (counted c))
        (Agree-current limiter buckets r (bucket_id r.rule r.key) now_agree) in
    ap₂ ◌∷◌ same (
      answers-Agree rs r.now (serve limiter r) (plain_hit buckets r).0 o
        (Agree-serve limiter buckets r now_agree))

-- For every sequence of requests whose clock readings do not decrease, the limiter gives the same
-- answers as one that never sweeps.
pub answers-plain :
    (limiter : RateLimiter) (rs : List Request) (t : ℕ)
    → InOrder t rs
    → answers limiter rs ≡ plain_answers limiter.buckets rs
answers-plain limiter rs t o = answers-Agree rs t limiter limiter.buckets o (λ id. refl)
