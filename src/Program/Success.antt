-- ===== src/Program/Success.antt =====
-- Jobs that store a success (events of the kind `p`) only after a decisive event (of the kind `q`):
-- `Fresh` before it, `Ready` behind it, `Safe` whatever happens.
use yeah.Base.{Bool, true, false, [], ◌∷◌, ◌≡◌}
use yeah.Program.{World, History, Event, Program, only_if, act, call, answered}
use yeah.Program.Logic.{Leads, Keeps, weaken, give, acts, calls, event_of}
use yeah.Program.Order.{Fresh, Safe, Ready, Fresh-more, Safe-more, Ready-more, Fresh-Safe}
use yeah.Program.Steps.{end_open, end_open-Keeps}

module _ {E F : Type 0} (p q : Event E → Bool) where
  -- A part of the job before the decisive event, and one behind it.
  pub early :
      {A : Type 0} {m : Program E F A}
      → Keeps (Fresh p q) m
      → Leads (Fresh p q) (Fresh p q) (Safe p q) m
  early = weaken (λ h f. f) (λ h f. f) (Fresh-Safe p q)

  pub late :
      {A : Type 0} {m : Program E F A}
      → Keeps (Ready p q) m
      → Leads (Ready p q) (Ready p q) (Safe p q) m
  late = weaken (λ h r. r) (λ h r. r) (λ h r. r.0)

  -- A whole part of the job that is not always run.
  pub perhaps :
      (test : Bool) {m : Program E F Unit}
      → Leads (Fresh p q) (Safe p q) (Safe p q) m
      → Leads (Fresh p q) (Safe p q) (Safe p q) (only_if test m)
  perhaps true leads = leads
  perhaps false leads = weaken (λ h f. f) (Fresh-Safe p q) (λ h s. s) give

  pub closing :
      (connects ends : E → Bool) (effect : E)
      → p (record { effect = effect; reply = answered 0 [] }) ≡ false
      → Keeps {F = F} (Safe p q) (end_open connects ends effect)
  closing connects ends effect other =
      end_open-Keeps connects ends effect
        (λ h s. Safe-more p q (record { effect = effect; reply = answered 0 [] }) h other s)

  module _ (world : World E) where
    -- A call that stores no success.
    pub before :
        (effect : E)
        → ((h : History E) → p (event_of world effect h) ≡ false)
        → Leads {F = F} (Fresh p q) (Fresh p q) (Safe p q) (act world effect)
    before effect other =
        acts world effect (λ h f. Fresh-more p q (event_of world effect h) h (other h) f)
          (λ h f.
            Fresh-Safe p q (event_of world effect h ∷ h)
              (Fresh-more p q (event_of world effect h) h (other h) f))

    pub sound :
        (effect : E)
        → ((h : History E) → p (event_of world effect h) ≡ false)
        → Keeps {F = F} (Safe p q) (act world effect)
    sound effect other =
        acts world effect (λ h s. Safe-more p q (event_of world effect h) h (other h) s)
          (λ h s. Safe-more p q (event_of world effect h) h (other h) s)

    -- Any call behind the decisive event.
    pub backed : (effect : E) → Leads {F = F} (Ready p q) (Ready p q) (Safe p q) (act world effect)
    backed effect =
        acts world effect (λ h r. Ready-more p q (event_of world effect h) h r)
          (λ h r. (Ready-more p q (event_of world effect h) h r).0)

    pub asked : (effect : E) → Leads {F = F} (Ready p q) (Ready p q) (Safe p q) (call world effect)
    asked effect =
        calls world effect (λ h r. Ready-more p q (event_of world effect h) h r)
          (λ h r. (Ready-more p q (event_of world effect h) h r).0)
