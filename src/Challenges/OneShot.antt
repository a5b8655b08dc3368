-- ===== src/Challenges/OneShot.antt =====
-- Histories of the challenge store: a challenge is given out once, and is there until it expires.
use yeah.Base.{
  ℕ, ◌+◌, ◌≡◌, refl, inl, inr, Bool, true, false, ◌&&◌, not, none, some, List, [], ◌∷◌, all, Text,
  Dict, equal, equal_refl, ltb, leb, arith, Bool-cases,
}
use yeah.Challenges.{Entry, ttl_ms, put, take_challenge}

-- A call of one of the two methods, with its clock readings.
pub data Call : Type 0 where
  puts : Text → Text → ℕ → ℕ → Call
  takes : Text → ℕ → Call

abbrev pub apply : Dict Entry → Call → Dict Entry
apply map (puts key challenge swept_at now) = put map key challenge swept_at now
apply map (takes key now) = (take_challenge map key now).0

-- The store after the calls, the first call first.
abbrev pub after : Dict Entry → List Call → Dict Entry
after map [] = map
after map (call ∷ calls) = after (apply map call) calls

-- The call stores no challenge under the key.
abbrev pub is_no_put : Text → Call → Bool
is_no_put key (puts k challenge swept_at now) = not (equal k key)
is_no_put key (takes k now) = true

-- The call is one for another key, and its sweep reads a clock that has not passed `limit`.
abbrev pub is_apart : Text → ℕ → Call → Bool
is_apart key limit (puts k challenge swept_at now) = not (equal k key) && leb swept_at limit
is_apart key limit (takes k now) = not (equal k key)

gone-apply :
    (map : Dict Entry) (key : Text) (call : Call)
    → map key ≡ none
    → is_no_put key call ≡ true
    → apply map call key ≡ none
unfolding put take_challenge
gone-apply map key (puts k challenge swept_at now) gone other = elim (Bool-cases (equal k key)) [
  | inl same ↦ absurd (ground arith)
  | inr apart ↦ rw (apart, gone) refl
]
gone-apply map key (takes k now) gone other = elim (Bool-cases (equal k key)) [
  | inl same ↦ rw same refl
  | inr apart ↦ rw (apart, gone) refl
]

gone-after :
    (map : Dict Entry) (key : Text) (calls : List Call)
    → map key ≡ none
    → all (is_no_put key) calls ≡ true
    → after map calls key ≡ none
gone-after map key [] gone other = gone
gone-after map key (call ∷ calls) gone other =
    gone-after (apply map call) key calls (gone-apply map key call gone (ground arith))
      (ground arith)

-- Once a key has been taken it gives nothing more, whatever is called in between, until a challenge
-- is put under it again.
pub take_challenge_once :
    (map : Dict Entry) (key : Text) (first second : ℕ) (calls : List Call)
    → all (is_no_put key) calls ≡ true
    → (take_challenge (after (take_challenge map key first).0 calls) key second).1 ≡ none
unfolding take_challenge
take_challenge_once map key first second calls other =
    rw (gone-after (take_challenge map key first).0 key calls (rw (equal_refl key) refl) other) refl

kept-apply :
    (map : Dict Entry) (key : Text) (entry : Entry) (call : Call)
    → map key ≡ some entry
    → is_apart key entry.expires call ≡ true
    → apply map call key ≡ some entry
unfolding put take_challenge
kept-apply map key entry (puts k challenge swept_at now) kept other =
    elim (Bool-cases (equal k key)) [
      | inl same ↦ absurd (ground arith)
      | inr apart ↦
          (let fresh : ltb entry.expires swept_at ≡ false = ground arith in
            rw (apart, kept, fresh) refl)
    ]
kept-apply map key entry (takes k now) kept other = elim (Bool-cases (equal k key)) [
  | inl same ↦ absurd (ground arith)
  | inr apart ↦ rw (apart, kept) refl
]

kept-after :
    (map : Dict Entry) (key : Text) (entry : Entry) (calls : List Call)
    → map key ≡ some entry
    → all (is_apart key entry.expires) calls ≡ true
    → after map calls key ≡ some entry
kept-after map key entry [] kept other = kept
kept-after map key entry (call ∷ calls) kept other =
    kept-after (apply map call) key entry calls (kept-apply map key entry call kept (ground arith))
      (ground arith)

-- A challenge that was put at `now` is what a take of its key gives up to five minutes later,
-- whatever calls for other keys come in between whose sweeps read no later clock.
pub take_challenge-put :
    (map : Dict Entry) (key challenge : Text) (swept_at now later : ℕ) (calls : List Call)
    → all (is_apart key (now + ttl_ms)) calls ≡ true
    → leb later (now + ttl_ms) ≡ true
    → (take_challenge (after (put map key challenge swept_at now) calls) key later).1
      ≡ some challenge
unfolding take_challenge put
take_challenge-put map key challenge swept_at now later calls other soon =
    (let fresh : ltb (now + ttl_ms) later ≡ false = ground arith in
      rw
        (
          kept-after (put map key challenge swept_at now) key
              (record { challenge = challenge; expires = now + ttl_ms }) calls
              (rw (equal_refl key) refl) other,
          fresh,
        )
        refl)
