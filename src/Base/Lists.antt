-- ===== src/Base/Lists.antt =====
-- Lists measured by native numbers, and the array methods that the source uses.
use Prim.Native.Nat.{ℕ, zero, suc, ◌+◌}
use mathlib.Core.Path.{◌≡◌, refl}
use mathlib.Core.Option.{Option, none, some}
use mathlib.Core.Logic.{◌⊎◌, inl, inr}
use mathlib.Core.List.{List, [], ◌∷◌, ◌++◌}
use mathlib.Core.Bool.{Bool, true, false, ◌&&◌, ◌||◌}
use native.Mathlib.Omega.{arith}
use yeah.Base.Tests.{if◌then◌else◌, Bool-cases}

module _ {ℓ} {A : Type ℓ} where
  abbrev pub length : List A → ℕ
  length [] = 0
  length (x ∷ xs) = suc (length xs)

  abbrev pub take : ℕ → List A → List A
  take zero xs = []
  take (suc n) [] = []
  take (suc n) (x ∷ xs) = x ∷ take n xs

  abbrev pub drop : ℕ → List A → List A
  drop zero xs = xs
  drop (suc n) [] = []
  drop (suc n) (x ∷ xs) = drop n xs

  abbrev pub replicate : ℕ → A → List A
  replicate zero a = []
  replicate (suc n) a = a ∷ replicate n a

  pub take-append-drop : (n : ℕ) (xs : List A) → take n xs ++ drop n xs ≡ xs
  take-append-drop zero xs = refl
  take-append-drop (suc n) [] = refl
  take-append-drop (suc n) (x ∷ xs) = rw (take-append-drop n xs)

  -- `list.pop()`, as far as its result goes.
  abbrev pub last : List A → Option A
  last [] = none
  last (x ∷ []) = some x
  last (x ∷ y ∷ xs) = last (y ∷ xs)

  pub length-append : (xs ys : List A) → length (xs ++ ys) ≡ length xs + length ys
  length-append [] ys = omega arith
  length-append (x ∷ xs) ys = omega (arith, length-append xs ys)

  -- `some` and `every` of an array.
  abbrev pub any : (A → Bool) → List A → Bool
  any p [] = false
  any p (x ∷ xs) = p x || any p xs

  abbrev pub all : (A → Bool) → List A → Bool
  all p [] = true
  all p (x ∷ xs) = p x && all p xs

  -- `filter` of an array.
  abbrev pub select : (A → Bool) → List A → List A
  select p [] = []
  select p (x ∷ xs) = let rest = select p xs in if p x then x ∷ rest else rest

-- Membership, by recursion.
abbrev pub Among : {A : Type 0} → A → List A → Type 0
Among a [] = ⊥
Among a (x ∷ xs) = (a ≡ x) ⊎ Among a xs

module _ {κ} {A : Type 0} (P : A → Type κ) where
  abbrev pub All : List A → Type κ
  All [] = Unit
  All (x ∷ xs) = P x × All xs

  pub All-append : (xs ys : List A) → All xs → All ys → All (xs ++ ys)
  All-append [] ys h k = k
  All-append (x ∷ xs) ys (p, h) k = (p, All-append xs ys h k)

  pub All-Among : {a : A} (xs : List A) → All xs → Among a xs → P a
  All-Among [] h m = absurd m
  All-Among (x ∷ xs) (p, h) (inl e) = rw e p
  All-Among (x ∷ xs) (p, h) (inr m) = All-Among xs h m

module _ {A : Type 0} (p : A → Bool) where
  pub Among-select : {a : A} (xs : List A) → Among a (select p xs) → Among a xs × (p a ≡ true)
  Among-select [] m = absurd m
  Among-select (x ∷ xs) m = elim (Bool-cases (p x)) [
    | inl kept ↦ elim (rw kept at m) [
      | inl e ↦ (inl e, rw e kept)
      | inr later ↦ let (among, holds) = Among-select xs later in (inr among, holds)
    ]
    | inr dropped ↦ let (among, holds) = Among-select xs (rw dropped at m) in (inr among, holds)
  ]

  pub All-select {κ} :
      (P : A → Type κ) (xs : List A) → All P (select p xs) → All (λ x. p x ≡ true → P x) xs
  All-select P [] h = tt
  All-select P (x ∷ xs) h = elim (Bool-cases (p x)) [
    | inl kept ↦
        let both : All P (x ∷ select p xs) = rw kept at h in ((λ _. both.0), All-select P xs both.1)
    | inr dropped ↦ ((λ e. cc), All-select P xs (rw dropped at h))
  ]
