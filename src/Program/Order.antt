-- ===== src/Program/Order.antt =====
-- The order of events in a history: no event of one kind without an earlier one of another kind, and
-- how many there are of a kind.
use yeah.Base.{
  ℕ, Bool, true, false, ◌&&◌, ◌||◌, not, [], ◌∷◌, any, length, select, ◌≡◌, refl, Bool-cases, inl,
  inr, arith,
}
use yeah.Program.{Event, History}
use yeah.Program.Logic.{Assertion}

module _ {E : Type 0} where
  -- Every event of the kind `p` has an earlier one of the kind `q`.
  abbrev pub preceded : (Event E → Bool) → (Event E → Bool) → History E → Bool
  preceded p q [] = true
  preceded p q (e ∷ h) = (not (p e) || any q h) && preceded p q h

  abbrev pub count_of : (Event E → Bool) → History E → ℕ
  count_of p h = length (select p h)

  -- There are `n` events of the kind.
  abbrev pub Count : (Event E → Bool) → ℕ → Assertion E
  Count p n h = count_of p h ≡ n

  pub Count-more :
      (p : Event E → Bool) (n : ℕ) (e : Event E) (h : History E)
      → p e ≡ false
      → Count p n h
      → Count p n (e ∷ h)
  Count-more p n e h other held = rw other held

module _ {E : Type 0} (p q : Event E → Bool) where
  abbrev pub Fresh : Assertion E
  Fresh h = any p h ≡ false

  abbrev pub Safe : Assertion E
  Safe h = preceded p q h ≡ true

  abbrev pub Ready : Assertion E
  Ready h = Safe h × (any q h ≡ true)

  pub Fresh-more : (e : Event E) (h : History E) → p e ≡ false → Fresh h → Fresh (e ∷ h)
  Fresh-more e h other fresh = rw (other, fresh) refl

  pub Safe-more : (e : Event E) (h : History E) → p e ≡ false → Safe h → Safe (e ∷ h)
  Safe-more e h other safe = rw (other, safe) refl

  pub Ready-more : (e : Event E) (h : History E) → Ready h → Ready (e ∷ h)
  Ready-more e h (safe, found) = (ground arith, ground arith)

  pub Fresh-Safe : (h : History E) → Fresh h → Safe h
  Fresh-Safe [] fresh = refl
  Fresh-Safe (e ∷ h) fresh = elim (Bool-cases (p e)) [
    | inl here ↦ ground arith
    | inr other ↦ (let rest = Fresh-Safe h (ground arith) in ground arith)
  ]

module _ {E : Type 0} where
  -- The latest event of the first kind has no later one of the second.
  abbrev pub pending : (Event E → Bool) → (Event E → Bool) → History E → Bool
  pending p q [] = false
  pending p q (e ∷ h) = p e || (not (q e) && pending p q h)
