-- ===== src/RateLimit/Windows.antt =====
-- How many hits a window admits.
use yeah.Base.{
  ℕ, ◌+◌, ◌-◌, ◌*◌, ◌<◌, ◌≤◌, ◌≡◌, refl, ◌∙◌, ap, Option, none, some, List, [], ◌∷◌, Text, equal,
  equal_iff, equal_refl, leb, if◌then◌else◌, arith, Bool-cases, inl, inr, All, false,
}
use yeah.RateLimit.{
  RateRule, RateLimiter, Bucket, bucket_id, hit, tick, sweep, keep_live, current, counted, fresh,
  answer,
}

pub record Request : Type 0 where
  pub key : Text
  pub rule : RateRule
  pub now : ℕ

abbrev pub id_of : Request → Text
id_of r = bucket_id r.rule r.key

abbrev pub serve : RateLimiter → Request → RateLimiter
serve limiter r = (hit limiter r.key r.rule r.now).0

abbrev pub serve_all : RateLimiter → List Request → RateLimiter
serve_all limiter [] = limiter
serve_all limiter (r ∷ rs) = serve_all (serve limiter r) rs

-- The number of the requests that count in the bucket `id`.
abbrev pub hits_of : Text → List Request → ℕ
hits_of id [] = 0
hits_of id (r ∷ rs) = (if equal (id_of r) id then 1 else 0) + hits_of id rs

keep_live_before : (b : Bucket) (now : ℕ) → now < b.reset_at → keep_live now (some b) ≡ some b
keep_live_before b now h = ground arith

tick-live :
    (limiter : RateLimiter) (id : Text) (b : Bucket) (now : ℕ)
    → limiter.buckets id ≡ some b
    → now < b.reset_at
    → (tick limiter now).buckets id ≡ some b
unfolding tick sweep
tick-live limiter id b now e h = elim (Bool-cases (leb 500 (limiter.since_sweep + 1))) [
  | inl due ↦ rw due (rw e (keep_live_before b now h))
  | inr early ↦ rw early e
]

-- A request in a bucket's window counts in it, and leaves it alone if it is of another bucket.
serve-live :
    (limiter : RateLimiter) (id : Text) (b : Bucket) (r : Request)
    → limiter.buckets id ≡ some b
    → r.now < b.reset_at
    → (serve limiter r).buckets id
      ≡ some (record b { count = b.count + (if equal (id_of r) id then 1 else 0) })
unfolding hit
serve-live limiter id b r e h = elim (Bool-cases (equal (id_of r) id)) [
  | inl same ↦
      rw (same, (equal_iff (id_of r) id).0 same, tick-live limiter id b r.now e h) (ground arith)
  | inr other ↦ rw (other, tick-live limiter id b r.now e h) (ground arith)
]

serve_all-live :
    (id : Text) (rs : List Request) (b : Bucket) (limiter : RateLimiter)
    → limiter.buckets id ≡ some b
    → All (λ r. r.now < b.reset_at) rs
    → (serve_all limiter rs).buckets id ≡ some (record b { count = b.count + hits_of id rs })
serve_all-live id [] b limiter e h = e ∙ ground arith
serve_all-live id (r ∷ rs) b limiter e (h, hs) =
    serve_all-live id rs (record b { count = b.count + (if equal (id_of r) id then 1 else 0) })
      (serve limiter r) (serve-live limiter id b r e h) hs
    ∙ ap some (ground (arith))

pub current-keep_live :
    (o : Option Bucket) (rule : RateRule) (now : ℕ)
    → current (keep_live now o) rule now ≡ current o rule now
current-keep_live none rule now = refl
current-keep_live (some b) rule now = ground arith

-- The sweep that a hit may start does not change the bucket that the hit counts in.
pub current-tick :
    (limiter : RateLimiter) (id : Text) (rule : RateRule) (now : ℕ)
    → current ((tick limiter now).buckets id) rule now ≡ current (limiter.buckets id) rule now
unfolding tick sweep
current-tick limiter id rule now = elim (Bool-cases (leb 500 (limiter.since_sweep + 1))) [
  | inl due ↦ rw due (current-keep_live (limiter.buckets id) rule now)
  | inr early ↦ rw early
]

current-live :
    (b : Bucket) (rule : RateRule) (now : ℕ) → now < b.reset_at → current (some b) rule now ≡ b
current-live b rule now h = ground arith

current-fresh :
    (o : Option Bucket) (rule : RateRule) (now : ℕ)
    → keep_live now o ≡ none
    → current o rule now ≡ fresh rule now
current-fresh none rule now e = refl
current-fresh (some b) rule now e = ground arith

serve-fresh :
    (limiter : RateLimiter) (r : Request)
    → keep_live r.now (limiter.buckets (id_of r)) ≡ none
    → (serve limiter r).buckets (id_of r) ≡ some (counted (fresh r.rule r.now))
unfolding hit
serve-fresh limiter r e =
    rw (equal_refl (id_of r), current-tick limiter (id_of r) r.rule r.now)
      (ap (λ b. some (counted b)) (current-fresh (limiter.buckets (id_of r)) r.rule r.now e))

-- Let a request `first` find no live bucket, so that it opens a window of `window_ms`, and let all
-- later requests, of any key and rule, come before that window ends. Then a next request that
-- counts in the same bucket is allowed exactly if `first`, those between that count in the bucket,
-- and it are at most `limit` requests; the answer's `remaining` is what they leave of `limit`.
-- Sweeps and the requests of other buckets make no difference.
pub window_admits :
    (limiter : RateLimiter) (first : Request) (rs : List Request) (last : Request)
    → keep_live first.now (limiter.buckets (id_of first)) ≡ none
    → All (λ r. r.now < first.now + first.rule.window_ms) rs
    → last.now < first.now + first.rule.window_ms
    → id_of last ≡ id_of first
    → let served = serve_all limiter (first ∷ rs) in
      let result = (hit served last.key last.rule last.now).1 in
      let hits = 2 + hits_of (id_of first) rs in
      (result.allowed ≡ leb hits last.rule.limit) × (result.remaining ≡ last.rule.limit - hits)
unfolding hit
window_admits limiter first rs last opens between within same =
    let served = serve_all limiter (first ∷ rs) in
    let b : Bucket = counted (fresh first.rule first.now) in
    let held =
      serve_all-live (id_of first) rs b (serve limiter first) (serve-fresh limiter first opens)
        between in
    rw (current-tick served (id_of last) last.rule last.now, same, held)
      (rw
        (current-live (record b { count = b.count + hits_of (id_of first) rs }) last.rule last.now
          within)
        (ground arith, ground arith))

retry_after-covers :
    (b : Bucket) (rule : RateRule) (now : ℕ)
    → (answer rule now b).allowed ≡ false
    → b.reset_at ≤ now + (answer rule now b).retry_after_sec * 1000
retry_after-covers b rule now h = ground arith

current-late :
    (b : Bucket) (rule : RateRule) (now : ℕ)
    → b.reset_at ≤ now
    → current (some b) rule now ≡ fresh rule now
current-late b rule now h = ground arith

-- A client that is refused and comes back after the `retry_after_sec` seconds that it was told,
-- with no request to the same limiter in between, finds a new window: it is allowed exactly if the
-- rule allows any request at all.
pub retry_after-enough :
    (limiter : RateLimiter) (key : Text) (rule : RateRule) (now : ℕ)
    → (hit limiter key rule now).1.allowed ≡ false
    → let first = hit limiter key rule now in
      (hit first.0 key rule (now + first.1.retry_after_sec * 1000)).1.allowed ≡ leb 1 rule.limit
unfolding hit
retry_after-enough limiter key rule now refused =
    let id = bucket_id rule key in
    let b : Bucket = counted (current ((tick limiter now).buckets id) rule now) in
    let first = hit limiter key rule now in
    let later = now + first.1.retry_after_sec * 1000 in
    rw (current-tick first.0 id rule later, equal_refl id)
      (rw (current-late b rule later (retry_after-covers b rule now refused)) (ground arith))
