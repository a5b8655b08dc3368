-- ===== src/Base/Sort.antt =====
-- `Array.prototype.sort` with a comparator, of which only the sign is read; it is stable.
use Prim.Native.Nat.{Ordering}
use mathlib.Core.Path.{◌≡◌, refl, sym, subst}
use mathlib.Core.Logic.{inl, inr, ◌≢◌, ◌↔◌}
use mathlib.Core.Bool.{Bool, true, false}
use mathlib.Core.Option.{Option, none, some}
use mathlib.Core.List.{List, [], ◌∷◌}
use native.Mathlib.Omega.{arith}
use yeah.Base.Tests.{if◌then◌else◌, Bool-cases}
use yeah.Base.Lists.{Among, All}

-- `a || b` on comparator results: the first that is not 0.
abbrev pub then_by : Ordering → Ordering → Ordering
then_by Ordering.lt next = Ordering.lt
then_by Ordering.eq next = next
then_by Ordering.gt next = Ordering.gt

-- The comparator's result is at most 0.
abbrev pub at_most : Ordering → Bool
at_most Ordering.lt = true
at_most Ordering.eq = true
at_most Ordering.gt = false

-- `list[0] ?? null`
abbrev pub first {ℓ} : {A : Type ℓ} → List A → Option A
first [] = none
first (x ∷ xs) = some x

-- A comparator whose order is total and transitive.
pub record IsComparison {A : Type 0} (cmp : A → A → Ordering) : Type 0 where
  pub total : (a b : A) → at_most (cmp a b) ≡ false → at_most (cmp b a) ≡ true
  pub trans :
      (a b c : A) → at_most (cmp a b) ≡ true → at_most (cmp b c) ≡ true → at_most (cmp a c) ≡ true

module _ {A : Type 0} (cmp : A → A → Ordering) where
  unfoldable pub put_in : A → List A → List A
  put_in x [] = x ∷ []
  put_in x (y ∷ ys) = if at_most (cmp x y) then x ∷ y ∷ ys else y ∷ put_in x ys

  unfoldable pub sort_by : List A → List A
  unfolding put_in
  sort_by [] = []
  sort_by (x ∷ xs) = put_in x (sort_by xs)

  first-put_in :
      (x : A) (ys : List A)
      → first (put_in x ys)
        ≡ elim (first ys) [ none ↦ some x | some y ↦ if at_most (cmp x y) then some x else some y ]
  unfolding put_in
  first-put_in x [] = refl
  first-put_in x (y ∷ ys) = ground arith

  -- `h` is in the list, and no entry of the list comes before it.
  abbrev pub Least : A → List A → Type 0
  Least h xs = Among h xs × All (λ x. at_most (cmp h x) ≡ true) xs

  comparison_refl : IsComparison cmp → (a : A) → at_most (cmp a a) ≡ true
  comparison_refl order a = elim (Bool-cases (at_most (cmp a a))) [
    | inl below ↦ below
    | inr above ↦ order.total a a above
  ]

  All-trans :
      (a b : A) (xs : List A)
      → IsComparison cmp
      → at_most (cmp a b) ≡ true
      → All (λ x. at_most (cmp b x) ≡ true) xs
      → All (λ x. at_most (cmp a x) ≡ true) xs
  All-trans a b [] order le h = tt
  All-trans a b (x ∷ xs) order le (p, h) = (order.trans a b x le p, All-trans a b xs order le h)

  first_nonempty : (x : A) (xs : List A) → first (sort_by (x ∷ xs)) ≢ none
  unfolding sort_by
  first_nonempty x xs = ground (arith, first-put_in x (sort_by xs))

  Least-put_in :
      (x : A) (ys xs : List A) (o : Option A) (h : A)
      → IsComparison cmp
      → first ys ≡ o
      → ((y : A) → o ≡ some y → Least y xs)
      → (o ≡ none → xs ≡ [])
      → first (put_in x ys) ≡ some h
      → Least h (x ∷ xs)
  Least-put_in x ys xs none h order rest least is_empty e =
      let same : x ≡ h = ground (arith, first-put_in x ys) in
      subst (λ z. Least z (x ∷ xs)) same
        (subst (λ l. Least x (x ∷ l)) (sym (is_empty refl))
          (inl refl, (comparison_refl order x, tt)))
  Least-put_in x ys xs (some y) h order rest least is_empty e =
      elim (Bool-cases (at_most (cmp x y))) [
        | inl before ↦
            let same : x ≡ h = ground (arith, first-put_in x ys) in
            subst (λ z. Least z (x ∷ xs)) same
              (inl refl, (comparison_refl order x, All-trans x y xs order before (least y refl).1))
        | inr behind ↦
            let same : y ≡ h = ground (arith, first-put_in x ys) in
            subst (λ z. Least z (x ∷ xs)) same
              (inr (least y refl).0, (order.total x y behind, (least y refl).1))
      ]

  sorted_empty : (xs : List A) → first (sort_by xs) ≡ none → xs ≡ []
  sorted_empty [] e = refl
  sorted_empty (x ∷ xs) e = absurd (first_nonempty x xs e)

  -- The first entry after sorting is a least one.
  pub first-sort_by :
      (xs : List A) (h : A) → IsComparison cmp → first (sort_by xs) ≡ some h → Least h xs
  unfolding sort_by
  first-sort_by [] h order e = cc
  first-sort_by (x ∷ xs) h order e =
      Least-put_in x (sort_by xs) xs (first (sort_by xs)) h order refl
        (λ y f. first-sort_by xs y order f) (λ f. sorted_empty xs f) e

  pub first-sort_by-none : (xs : List A) → (first (sort_by xs) ≡ none) ↔ (xs ≡ [])
  unfolding sort_by
  first-sort_by-none xs = (sorted_empty xs, λ e. rw e)
