-- ===== src/Program/Yields.antt =====
-- Programs whose result matters: assertions on the history that depend on the value returned.
use yeah.Program.{
  History, Program, Outcome, returned, thrown, next, ◌>>=◌, pure, caught, catch, finished, finally,
  Failure,
}
use yeah.Program.Logic.{Assertion, After, Leads}

abbrev pub AfterValue :
    {E F A : Type 0} → (A → Assertion E) → Assertion E → History E × Outcome F A → Type 0
AfterValue R X (h, returned a) = R a h
AfterValue R X (h, thrown f) = X h

pub record Yields {E F A : Type 0} (P : Assertion E) (R : A → Assertion E) (X : Assertion E)
    (job : Program E F A) : Type 0 where
  pub gives : (h : History E) → P h → AfterValue R X (job h)

module _ {E F : Type 0} where
  pub yield :
      {A : Type 0} {P X : Assertion E} (R : A → Assertion E) (a : A)
      → ((h : History E) → P h → R a h)
      → Yields {F = F} P R X (pure a)
  yield R a r = record { gives = r }

  next-After :
      {A B : Type 0} (R : A → Assertion E) (Q X : Assertion E) (r : History E × Outcome F A)
      (k : A → Program E F B)
      → AfterValue R X r
      → ((a : A) → Leads (R a) Q X (k a))
      → After Q X (next r k)
  next-After R Q X (h, returned a) k held leads = (leads a).runs h held
  next-After R Q X (h, thrown f) k held leads = held

  pub bind_value :
      {A B : Type 0} {P Q X : Assertion E} (R : A → Assertion E) {m : Program E F A}
      {k : A → Program E F B}
      → Yields P R X m
      → ((a : A) → Leads (R a) Q X (k a))
      → Leads P Q X (m >>= k)
  bind_value {Q = Q} {X = X} R {m = m} {k = k} first later = record {
    runs = λ h p. next-After R Q X (m h) k (first.gives h p) later;
  }

  next-AfterValue :
      {A B : Type 0} (Q X : Assertion E) (R : B → Assertion E) (r : History E × Outcome F A)
      (k : A → Program E F B)
      → After Q X r
      → ((a : A) → Yields Q R X (k a))
      → AfterValue R X (next r k)
  next-AfterValue Q X R (h, returned a) k held yields = (yields a).gives h held
  next-AfterValue Q X R (h, thrown f) k held yields = held

  pub then_yield :
      {A B : Type 0} {P X : Assertion E} (Q : Assertion E) (R : B → Assertion E) {m : Program E F A}
      {k : A → Program E F B}
      → Leads P Q X m
      → ((a : A) → Yields Q R X (k a))
      → Yields P R X (m >>= k)
  then_yield {X = X} Q R {m = m} {k = k} first later = record {
    gives = λ h p. next-AfterValue Q X R (m h) k (first.runs h p) later;
  }

  value-next :
      {A B : Type 0} (R : A → Assertion E) (X : Assertion E) (R' : B → Assertion E)
      (r : History E × Outcome F A) (k : A → Program E F B)
      → AfterValue R X r
      → ((a : A) → Yields (R a) R' X (k a))
      → AfterValue R' X (next r k)
  value-next R X R' (h, returned a) k held yields = (yields a).gives h held
  value-next R X R' (h, thrown f) k held yields = held

  pub yield_on :
      {A B : Type 0} {P X : Assertion E} (R : A → Assertion E) (R' : B → Assertion E)
      {m : Program E F A} {k : A → Program E F B}
      → Yields P R X m
      → ((a : A) → Yields (R a) R' X (k a))
      → Yields P R' X (m >>= k)
  yield_on {X = X} R R' {m = m} {k = k} first later = record {
    gives = λ h p. value-next R X R' (m h) k (first.gives h p) later;
  }

  caught-AfterValue :
      {A : Type 0} (Y X : Assertion E) (R : A → Assertion E) (handler : Program E F A)
      (r : History E × Outcome F A)
      → AfterValue R Y r
      → Yields Y R X handler
      → AfterValue R X (caught handler r)
  caught-AfterValue Y X R handler (h, returned a) held yields = held
  caught-AfterValue Y X R handler (h, thrown f) held yields = yields.gives h held

  pub catch_yield :
      {A : Type 0} {P X : Assertion E} (Y : Assertion E) (R : A → Assertion E)
      {m handler : Program E F A}
      → Yields P R Y m
      → Yields Y R X handler
      → Yields P R X (catch m handler)
  unfolding catch
  catch_yield {X = X} Y R {m = m} {handler = handler} body yields = record {
    gives = λ h p. caught-AfterValue Y X R handler (m h) (body.gives h p) yields;
  }

  finished-value :
      {A : Type 0} (R : A → Assertion E) (X : Assertion E) (a : A) (r : History E × Outcome F Unit)
      → After (R a) X r
      → AfterValue R X (finished r (returned a))
  finished-value R X a (h, returned done) held = held
  finished-value R X a (h, thrown f) held = held

  finished-AfterValue :
      {A : Type 0} (R : A → Assertion E) (Y X : Assertion E) (last : Program E F Unit)
      (r : History E × Outcome F A)
      → AfterValue R Y r
      → ((a : A) → Leads (R a) (R a) X last)
      → Leads Y X X last
      → AfterValue R X (finished (last r.0) r.1)
  finished-AfterValue R Y X last (h, returned a) held after_return after_throw =
      finished-value R X a (last h) ((after_return a).runs h held)
  finished-AfterValue R Y X last (h, thrown f) held after_return after_throw =
      thrown-AfterValue R X f (last h) (after_throw.runs h held)
    where
      thrown-AfterValue :
          {A : Type 0} (R : A → Assertion E) (X : Assertion E) (f : Failure F)
          (r : History E × Outcome F Unit)
          → After X X r
          → AfterValue R X (finished r (thrown f))
      thrown-AfterValue R X f (h, returned done) held = held
      thrown-AfterValue R X f (h, thrown f') held = held

  pub finally_yield :
      {A : Type 0} {P X : Assertion E} (Y : Assertion E) (R : A → Assertion E) {m : Program E F A}
      {last : Program E F Unit}
      → Yields P R Y m
      → ((a : A) → Leads (R a) (R a) X last)
      → Leads Y X X last
      → Yields P R X (finally m last)
  unfolding finally
  finally_yield {X = X} Y R {m = m} {last = last} body after_return after_throw = record {
    gives = λ h p. finished-AfterValue R Y X last (m h) (body.gives h p) after_return after_throw;
  }
