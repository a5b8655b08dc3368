-- ===== src/Program/Steps.antt =====
-- Steps that a job takes only if a command exits with 0, and connections that it closes at its end.
use yeah.Base.{
  ℕ, Bool, true, false, ◌&&◌, [], ◌∷◌, Text, ◌==◌, ==_iff, if◌then◌else◌, ◌≡◌, refl, Bool-cases,
  inl, inr,
}
use yeah.Program.{
  World, Event, History, Program, Reply, threw, answered, is_answered, replied, returned, next,
  ◌>>=◌, pure, raise, call, note,
}
use yeah.Program.Logic.{Assertion, After, Leads, give, throws, event_of}

module _ {E F : Type 0} where
  -- `if (result.exitCode !== 0) throw error(result)`
  unfoldable pub checked : World E → E → (ℕ × Text → F) → Program E F (ℕ × Text)
  checked world effect error = do
    result ← call world effect
    if result.0 == 0 then pure result else raise (error result)

  checked-After :
      (Q X : Assertion E) (effect : E) (error : ℕ × Text → F) (h : History E) (r : Reply)
      → ((output : Text) → r ≡ answered 0 output → Q (record { effect = effect; reply = r } ∷ h))
      → X (record { effect = effect; reply = r } ∷ h)
      → After Q X (
          next
            (record { effect = effect; reply = r } ∷ h, replied r)
            (λ result. if result.0 == 0 then pure result else raise (error result)))
  checked-After Q X effect error h threw ok bad = bad
  checked-After Q X effect error h (answered code output) ok bad = elim (Bool-cases (code == 0)) [
    | inl zero_code ↦ rw zero_code (ok output (rw ((==_iff code 0).0 zero_code) refl))
    | inr other ↦ rw other bad
  ]

  -- What the command's success leads to, and what any other end does.
  pub checked-Leads :
      {P Q X : Assertion E} (world : World E) (effect : E) (error : ℕ × Text → F)
      → ((h : History E) (output : Text)
          → P h
          → world h effect ≡ answered 0 output
          → Q (event_of world effect h ∷ h))
      → ((h : History E) → P h → X (event_of world effect h ∷ h))
      → Leads P Q X (checked world effect error)
  unfolding checked call
  checked-Leads {Q = Q} {X = X} world effect error ok bad = record {
    runs = λ h p.
        checked-After Q X effect error h (world h effect) (λ output e. ok h output p e) (bad h p);
  }

  -- One whose event keeps an assertion.
  pub checked-Keeps :
      {P : Assertion E} (world : World E) (effect : E) (error : ℕ × Text → F)
      → ((h : History E) → P h → P (event_of world effect h ∷ h))
      → Leads P P P (checked world effect error)
  checked-Keeps world effect error keeps =
      checked-Leads world effect error (λ h output p e. keeps h p) keeps

-- Whether a connection is open: it was made, and has not been ended since.
abbrev pub opened_by : {E : Type 0} → (E → Bool) → (E → Bool) → Event E → Bool → Bool
opened_by connects ends e before =
    if connects e.effect && is_answered e.reply
    then true
    else if ends e.effect
    then false
    else before

unfoldable pub is_open : {E : Type 0} → (E → Bool) → (E → Bool) → History E → Bool
is_open connects ends [] = false
is_open connects ends (e ∷ h) = opened_by connects ends e (is_open connects ends h)

module _ {E F : Type 0} (connects ends : E → Bool) where
  -- `conn?.end()`
  unfoldable pub end_open : E → Program E F Unit
  end_open effect h = if is_open connects ends h then note effect h else (h, returned tt)

  pub end_open-Keeps :
      {P X : Assertion E} (effect : E)
      → ((h : History E) → P h → P (record { effect = effect; reply = answered 0 [] } ∷ h))
      → Leads P P X (end_open effect)
  unfolding end_open note
  end_open-Keeps {P} {X} effect keeps = record {
    runs = λ h p. elim (Bool-cases (is_open connects ends h)) [
      | inl here ↦ rw here (keeps h p)
      | inr gone ↦ rw gone p
    ];
  }

  pub end_open-closes :
      {P X : Assertion E} (effect : E)
      → connects effect ≡ false
      → ends effect ≡ true
      → Leads P (λ h. is_open connects ends h ≡ false) X (end_open effect)
  unfolding end_open note is_open
  end_open-closes effect other ending = record {
    runs = λ h p. elim (Bool-cases (is_open connects ends h)) [
      | inl here ↦ rw here (rw (other, ending) refl)
      | inr gone ↦ rw gone gone
    ];
  }

module _ {E F : Type 0} where
  -- `if (test) await job`, where the test reads what the calls have set.
  unfoldable pub when : (History E → Bool) → Program E F Unit → Program E F Unit
  when test job h = if test h then job h else (h, returned tt)

  pub when-Leads :
      {P X : Assertion E} (test : History E → Bool) (job : Program E F Unit)
      → Leads P P X job
      → Leads P P X (when test job)
  unfolding when
  when-Leads test job leads = record {
    runs = λ h p. elim (Bool-cases (test h)) [
      | inl here ↦ rw here (leads.runs h p)
      | inr gone ↦ rw gone p
    ];
  }

  -- `if (!test) throw error`
  unfoldable pub ensure : Bool → F → Program E F Unit
  ensure test error = if test then pure tt else raise error

  pub ensure-Keeps : {P : Assertion E} (test : Bool) (error : F) → Leads P P P (ensure test error)
  unfolding ensure
  ensure-Keeps true error = give
  ensure-Keeps false error = throws (λ h p. p)

  pub ensure_false : {P Q : Assertion E} (error : F) → Leads P Q P (ensure false error)
  unfolding ensure
  ensure_false error = throws (λ h p. p)
