-- ===== src/Program.antt =====
-- The worker's jobs as programs. A job awaits calls (to a server over SSH, to the database, to the
-- event channel), each of which throws or answers; `world` decides, from the calls made so far. `E`
-- is a job's type of calls and `F` that of the errors that it throws itself.
pub mod Logic
pub mod Order
pub mod Steps
pub mod Success
pub mod Yields
use yeah.Base.{ℕ, Bool, false, true, ◌&&◌, List, [], ◌∷◌, Text, ◌==◌, if◌then◌else◌}

-- What a call gives: it throws, or it answers with an exit code and the text of its output (which
-- are zero and empty for a call that has none). The exit code of a command is the one that execStream
-- of packages/ssh/src/index.ts reports, which is 0 for a channel that closes without a code.
pub data Reply : Type 0 where
  threw : Reply
  answered : ℕ → Text → Reply

abbrev pub is_answered : Reply → Bool
is_answered threw = false
is_answered (answered code output) = true

abbrev pub is_zero : Reply → Bool
is_zero threw = false
is_zero (answered code output) = code == 0

pub record Event (E : Type 0) : Type 0 where
  pub effect : E
  pub reply : Reply

-- The calls with their answers, the latest first.
abbrev pub History : Type 0 → Type 0
History E = List (Event E)

abbrev pub World : Type 0 → Type 0
World E = History E → E → Reply

-- The error of a call, or one of the job's own.
pub data Failure (F : Type 0) : Type 0 where
  call_failed : Failure F
  raised : F → Failure F

pub data Outcome (F A : Type 0) : Type 0 where
  returned : A → Outcome F A
  thrown : Failure F → Outcome F A

abbrev pub Program : Type 0 → Type 0 → Type 0 → Type 0
Program E F A = History E → History E × Outcome F A

abbrev pub replied : {F : Type 0} → Reply → Outcome F (ℕ × Text)
replied threw = thrown call_failed
replied (answered code output) = returned (code, output)

module _ {E F : Type 0} where
  infixr 1 ◌>>=◌ ◌>>◌
  abbrev pub next :
      {A B : Type 0} → History E × Outcome F A → (A → Program E F B) → History E × Outcome F B
  next (h, returned a) k = k a h
  next (h, thrown f) k = (h, thrown f)

  abbrev pub ◌>>=◌ : {A B : Type 0} → Program E F A → (A → Program E F B) → Program E F B
  ◌>>=◌ m k = λ h. next (m h) k

  abbrev pub ◌>>◌ : {A B : Type 0} → Program E F A → Program E F B → Program E F B
  ◌>>◌ m k = m >>= (λ _. k)

  abbrev pub pure : {A : Type 0} → A → Program E F A
  pure a = λ h. (h, returned a)

  abbrev pub raise : {A : Type 0} → F → Program E F A
  raise f = λ h. (h, thrown (raised f))

  -- `if (test) await job`
  abbrev pub only_if : Bool → Program E F Unit → Program E F Unit
  only_if test job = if test then job else pure tt

  -- `.catch(() => undefined)`
  unfoldable pub attempt : Program E F Unit → Program E F Unit
  attempt job h = ((job h).0, returned tt)

  abbrev pub caught :
      {A : Type 0} → Program E F A → History E × Outcome F A → History E × Outcome F A
  caught handler (h, returned a) = (h, returned a)
  caught handler (h, thrown f) = handler h

  -- `try { job } catch { handler }`
  unfoldable pub catch : {A : Type 0} → Program E F A → Program E F A → Program E F A
  catch job handler h = caught handler (job h)

  abbrev pub finished :
      {A : Type 0} → History E × Outcome F Unit → Outcome F A → History E × Outcome F A
  finished (h, returned done) outcome = (h, outcome)
  finished (h, thrown f) outcome = (h, thrown f)

  -- `try { job } finally { last }`: an error of `last` takes the place of the outcome.
  unfoldable pub finally : {A : Type 0} → Program E F A → Program E F Unit → Program E F A
  finally job last h = finished (last (job h).0) (job h).1

  module _ (world : World E) where
    unfoldable pub call : E → Program E F (ℕ × Text)
    call effect h =
        (record { effect = effect; reply = world h effect } ∷ h, replied (world h effect))

    abbrev pub act : E → Program E F Unit
    act effect = call effect >> pure tt

  -- A call that is not waited for and cannot fail, as `end()` of a connection.
  unfoldable pub note : E → Program E F Unit
  note effect h = (record { effect = effect; reply = answered 0 [] } ∷ h, returned tt)
