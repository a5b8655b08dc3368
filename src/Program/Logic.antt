-- ===== src/Program/Logic.antt =====
-- Reasoning on programs: assertions on the history before a program and behind it, whether it
-- returns or throws.
use yeah.Base.{ℕ, Text, Bool, true, false, [], ◌∷◌, if◌then◌else◌, ◌≡◌, arith}
use yeah.Program.{
  is_answered, World, Event, History, Program, Outcome, Failure, Reply, threw, answered, replied,
  returned, thrown, next, ◌>>=◌, pure, raise, only_if, attempt, caught, catch, finished, finally,
  call, act, note,
}

abbrev pub Assertion : Type 0 → Type 1
Assertion E = History E → Type 0

-- What holds behind a program that returned (`Q`) or threw (`X`).
abbrev pub After : {E F A : Type 0} → Assertion E → Assertion E → History E × Outcome F A → Type 0
After Q X (h, returned a) = Q h
After Q X (h, thrown f) = X h

pub record Leads {E F A : Type 0} (P Q X : Assertion E) (job : Program E F A) : Type 0 where
  pub runs : (h : History E) → P h → After Q X (job h)

abbrev pub Keeps : {E F A : Type 0} → Assertion E → Program E F A → Type 0
Keeps P = Leads P P P

-- The events of a kind keep the assertion.
abbrev pub Plain : {E : Type 0} → (E → Bool) → Assertion E → Type 0
Plain {E} kind P = (e : Event E) (h : History E) → kind e.effect ≡ true → P h → P (e ∷ h)

abbrev pub event_of : {E : Type 0} → World E → E → History E → Event E
event_of world effect h = record { effect = effect; reply = world h effect }

After-replied :
    (E F : Type 0) (Q X : Assertion E) (h : History E) (r : Reply)
    → Q h
    → X h
    → After {F = F} Q X (h, replied r)
After-replied E F Q X h threw q x = x
After-replied E F Q X h (answered code output) q x = q

After-answered :
    (E F : Type 0) (Q X : Assertion E) (h : History E) (r : Reply)
    → is_answered r ≡ true
    → Q h
    → After {F = F} Q X (h, replied r)
After-answered E F Q X h threw a q = absurd (ground arith)
After-answered E F Q X h (answered code output) a q = q

module _ {E F : Type 0} where
  next-After :
      {A B : Type 0} (R Q X : Assertion E) (r : History E × Outcome F A) (k : A → Program E F B)
      → After R X r
      → ((a : A) → Leads R Q X (k a))
      → After Q X (next r k)
  next-After R Q X (h, returned a) k held leads = (leads a).runs h held
  next-After R Q X (h, thrown f) k held leads = held

  pub bind :
      {A B : Type 0} {P R Q X : Assertion E} {m : Program E F A} {k : A → Program E F B}
      → Leads P R X m
      → ((a : A) → Leads R Q X (k a))
      → Leads P Q X (m >>= k)
  bind {R = R} {Q = Q} {X = X} {m = m} {k = k} first later = record {
    runs = λ h p. next-After R Q X (m h) k (first.runs h p) later;
  }

  pub give : {A : Type 0} {P X : Assertion E} {a : A} → Leads {F = F} P P X (pure a)
  give = record { runs = λ h p. p }

  After-weaken :
      {A : Type 0} (Q Q' X X' : Assertion E) (r : History E × Outcome F A)
      → ((h : History E) → Q h → Q' h)
      → ((h : History E) → X h → X' h)
      → After Q X r
      → After Q' X' r
  After-weaken Q Q' X X' (h, returned a) q x held = q h held
  After-weaken Q Q' X X' (h, thrown f) q x held = x h held

  pub weaken :
      {A : Type 0} {P P' Q Q' X X' : Assertion E} {m : Program E F A}
      → ((h : History E) → P' h → P h)
      → ((h : History E) → Q h → Q' h)
      → ((h : History E) → X h → X' h)
      → Leads P Q X m
      → Leads P' Q' X' m
  weaken {Q = Q} {Q' = Q'} {X = X} {X' = X'} {m = m} p q x leads = record {
    runs = λ h p'. After-weaken Q Q' X X' (m h) q x (leads.runs h (p h p'));
  }

  pub branch :
      {A : Type 0} {P Q X : Assertion E} (b : Bool) {m n : Program E F A}
      → Leads P Q X m
      → Leads P Q X n
      → Leads P Q X (if b then m else n)
  branch true left right = left
  branch false left right = right

  pub taken :
      {A : Type 0} {P Q X : Assertion E} {b : Bool} {m : Program E F A} (n : Program E F A)
      → b ≡ true
      → Leads P Q X m
      → Leads P Q X (if b then m else n)
  taken n here leads = rw here leads

  pub skipped :
      {A : Type 0} {P Q X : Assertion E} {b : Bool} (m : Program E F A) {n : Program E F A}
      → b ≡ false
      → Leads P Q X n
      → Leads P Q X (if b then m else n)
  skipped m gone leads = rw gone leads

  pub only :
      {P X : Assertion E} (b : Bool) {m : Program E F Unit}
      → Leads P P X m
      → Leads P P X (only_if b m)
  only true inner = inner
  only false inner = give

  pub throws :
      {A : Type 0} {P Q X : Assertion E} {f : F}
      → ((h : History E) → P h → X h)
      → Leads {A = A} P Q X (raise f)
  throws x = record { runs = x }

  After-forget : {A : Type 0} (P : Assertion E) (r : History E × Outcome F A) → After P P r → P r.0
  After-forget P (h, returned a) held = held
  After-forget P (h, thrown f) held = held

  pub outcome :
      {A : Type 0} {P Q : Assertion E} {m : Program E F A}
      → Leads P Q Q m
      → (h : History E) → P h
      → Q (m h).0
  outcome {Q = Q} {m = m} leads h p = After-forget Q (m h) (leads.runs h p)

  pub attempted :
      {P Q X : Assertion E} {m : Program E F Unit} → Leads P Q Q m → Leads P Q X (attempt m)
  unfolding attempt
  attempted leads = record { runs = λ h p. outcome leads h p }

  caught-After :
      {A : Type 0} (R Q X : Assertion E) (handler : Program E F A) (r : History E × Outcome F A)
      → After Q R r
      → Leads R Q X handler
      → After Q X (caught handler r)
  caught-After R Q X handler (h, returned a) held leads = held
  caught-After R Q X handler (h, thrown f) held leads = leads.runs h held

  pub catching :
      {A : Type 0} {P R Q X : Assertion E} {m handler : Program E F A}
      → Leads P Q R m
      → Leads R Q X handler
      → Leads P Q X (catch m handler)
  unfolding catch
  catching {R = R} {Q = Q} {X = X} {m = m} {handler = handler} body leads = record {
    runs = λ h p. caught-After R Q X handler (m h) (body.runs h p) leads;
  }

  finished-returned :
      {A : Type 0} (Q X : Assertion E) (a : A) (r : History E × Outcome F Unit)
      → After Q X r
      → After Q X (finished r (returned a))
  finished-returned Q X a (h, returned done) held = held
  finished-returned Q X a (h, thrown f) held = held

  finished-thrown :
      (A : Type 0) (Q X : Assertion E) (f : Failure F) (r : History E × Outcome F Unit)
      → After X X r
      → After {A = A} Q X (finished r (thrown f))
  finished-thrown A Q X f (h, returned done) held = held
  finished-thrown A Q X f (h, thrown f') held = held

  finished-After :
      {A : Type 0} (R Y Q X : Assertion E) (last : Program E F Unit) (r : History E × Outcome F A)
      → After R Y r
      → Leads R Q X last
      → Leads Y X X last
      → After Q X (finished (last r.0) r.1)
  finished-After R Y Q X last (h, returned a) held after_return after_throw =
      finished-returned Q X a (last h) (after_return.runs h held)
  finished-After {A = A} R Y Q X last (h, thrown f) held after_return after_throw =
      finished-thrown A Q X f (last h) (after_throw.runs h held)

  -- `Y` is what holds where the body throws.
  pub finally_done :
      {A : Type 0} {P R Y Q X : Assertion E} {m : Program E F A} {last : Program E F Unit}
      → Leads P R Y m
      → Leads R Q X last
      → Leads Y X X last
      → Leads P Q X (finally m last)
  unfolding finally
  finally_done {R = R} {Y = Y} {Q = Q} {X = X} {m = m} {last = last} body after_return after_throw =
      record {
        runs = λ h p. finished-After R Y Q X last (m h) (body.runs h p) after_return after_throw;
      }

  anyhow-After : {A : Type 0} (r : History E × Outcome F A) → After (λ h. Unit) (λ h. Unit) r
  anyhow-After (h, returned a) = tt
  anyhow-After (h, thrown f) = tt

  pub anyhow :
      {A : Type 0} (P : Assertion E) (m : Program E F A) → Leads P (λ h. Unit) (λ h. Unit) m
  anyhow P m = record { runs = λ h p. anyhow-After (m h) }

  pub noted :
      {P Q X : Assertion E} (effect : E)
      → ((h : History E) → P h → Q (record { effect = effect; reply = answered 0 [] } ∷ h))
      → Leads {F = F} P Q X (note effect)
  unfolding note
  noted effect q = record { runs = q }

  module _ (world : World E) where
    -- A call whose event leads from `P` to `Q`, whatever the answer.
    pub calls :
        {P Q X : Assertion E} (effect : E)
        → ((h : History E) → P h → Q (event_of world effect h ∷ h))
        → ((h : History E) → P h → X (event_of world effect h ∷ h))
        → Leads {F = F} P Q X (call world effect)
    unfolding call
    calls {Q = Q} {X = X} effect q x = record {
      runs = λ h p.
          After-replied E F Q X (event_of world effect h ∷ h) (world h effect) (q h p) (x h p);
    }

    pub acts :
        {P Q X : Assertion E} (effect : E)
        → ((h : History E) → P h → Q (event_of world effect h ∷ h))
        → ((h : History E) → P h → X (event_of world effect h ∷ h))
        → Leads {F = F} P Q X (act world effect)
    acts effect q x = bind (calls effect q x) (λ _. give)

    -- A call that does not throw.
    pub answers_call :
        {P Q X : Assertion E} (effect : E)
        → ((h : History E) → is_answered (world h effect) ≡ true)
        → ((h : History E) → P h → Q (event_of world effect h ∷ h))
        → Leads {F = F} P Q X (call world effect)
    unfolding call
    answers_call {Q = Q} {X = X} effect answering q = record {
      runs = λ h p.
          After-answered E F Q X (event_of world effect h ∷ h) (world h effect) (answering h)
            (q h p);
    }

    pub answers :
        {P Q X : Assertion E} (effect : E)
        → ((h : History E) → is_answered (world h effect) ≡ true)
        → ((h : History E) → P h → Q (event_of world effect h ∷ h))
        → Leads {F = F} P Q X (act world effect)
    answers effect answering q = bind (answers_call effect answering q) (λ _. give)

    -- A call whose events keep the assertion.
    pub act-Keeps :
        (kind : E → Bool) (P : Assertion E)
        → Plain kind P
        → (effect : E) → kind effect ≡ true
        → Leads {F = F} P P P (act world effect)
    act-Keeps kind P plain effect mine =
        acts effect (λ h p. plain _ h mine p) (λ h p. plain _ h mine p)

    -- A call whose answer is used: `R` may say what it means.
    pub bind_call :
        {B : Type 0} {P Q X : Assertion E} (R : ℕ → Text → Assertion E) (effect : E)
        (k : ℕ × Text → Program E F B)
        → ((h : History E) (r : Reply) → P h → X (record { effect = effect; reply = r } ∷ h))
        → ((h : History E) (code : ℕ) (output : Text)
            → P h
            → R code output (record { effect = effect; reply = answered code output } ∷ h))
        → ((code : ℕ) (output : Text) → Leads (R code output) Q X (k (code, output)))
        → Leads P Q X (call world effect >>= k)
    unfolding call
    bind_call {P = P} {Q = Q} {X = X} R effect k bad good later = record {
      runs = λ h p. answered_by h (world h effect) p;
    }
      where
        answered_by :
            (h : History E) (r : Reply)
            → P h
            → After Q X (next (record { effect = effect; reply = r } ∷ h, replied r) k)
        answered_by h threw p = bad h threw p
        answered_by h (answered code output) p = (later code output).runs _ (good h code output p)
