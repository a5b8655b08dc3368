-- ===== src/Shell/Slug.antt =====
-- The shape of resource slugs.
use yeah.Base.{
  ℕ, ◌≡◌, ◌≢◌, sym, ap, subst, ◌∙◌, ◌⊎◌, Bool, true, false, ◌||◌, [], ◌∷◌, ◌++◌, reverse, Text,
  within, All, All-append, arith,
}
use mathlib.Core.List.{reverse-cons, reverse-append, reverse-reverse}
use yeah.Shell.{dash_runs, drop_dashes, resource_slug}

-- A lower-case letter, a digit or a dash.
abbrev pub IsSlugChar : ℕ → Type 0
IsSlugChar c = ((within b'a' b'z' c || within b'0' b'9' c) ≡ true) ⊎ (c ≡ b'-')

dash_runs-IsSlugChar : (s : Text) (inside : Bool) → All IsSlugChar (dash_runs inside s)
unfolding dash_runs
dash_runs-IsSlugChar [] inside = tt
dash_runs-IsSlugChar (c ∷ s) inside =
    ground (arith, dash_runs-IsSlugChar s false, dash_runs-IsSlugChar s true)

drop_dashes-IsSlugChar : (s : Text) → All IsSlugChar s → All IsSlugChar (drop_dashes s)
unfolding drop_dashes
drop_dashes-IsSlugChar [] h = tt
drop_dashes-IsSlugChar (c ∷ s) h = ground (arith, drop_dashes-IsSlugChar s h.1)

reverse-All : (s : Text) → All IsSlugChar s → All IsSlugChar (reverse s)
reverse-All [] h = tt
reverse-All (c ∷ s) (p, h) =
    subst (All IsSlugChar) (sym (reverse-cons c s))
      (All-append IsSlugChar (reverse s) (c ∷ []) (reverse-All s h) (p, tt))

-- Not a dash, where there is a character at all.
abbrev pub NotDash : Text → Type 0
NotDash [] = Unit
NotDash (c ∷ s) = c ≢ b'-'

drop_dashes-NotDash : (s : Text) → NotDash (drop_dashes s)
unfolding drop_dashes
drop_dashes-NotDash [] = tt
drop_dashes-NotDash (c ∷ s) = ground (arith, drop_dashes-NotDash s)

drop_dashes-last :
    (s : Text) (c : ℕ) → c ≢ b'-' → drop_dashes (s ++ c ∷ []) ≡ drop_dashes s ++ c ∷ []
unfolding drop_dashes
drop_dashes-last [] c h = ground arith
drop_dashes-last (d ∷ s) c h = ground (arith, drop_dashes-last s c h)

trim_end-NotDash : (u : Text) → NotDash u → NotDash (reverse (drop_dashes (reverse u)))
unfolding drop_dashes
trim_end-NotDash [] h = tt
trim_end-NotDash (c ∷ u) h =
    subst NotDash
      (sym (
        ap (λ t. reverse (drop_dashes t)) (reverse-cons c u)
        ∙ ap reverse (drop_dashes-last (reverse u) c h)
        ∙ reverse-append (drop_dashes (reverse u)) (c ∷ [])))
      h

-- Whatever the name and the runtime's `toLowerCase`: every character of the slug is a lower-case
-- ASCII letter, a digit or a dash, and it neither starts nor ends with a dash.
pub resource_slug-IsSlug :
    (to_lower : Text → Text) (name : Text)
    → All IsSlugChar (resource_slug to_lower name)
      × NotDash (resource_slug to_lower name)
      × NotDash (reverse (resource_slug to_lower name))
unfolding resource_slug
resource_slug-IsSlug to_lower name =
    let runs = dash_runs false (to_lower name) in
    let front = drop_dashes runs in
    let back = drop_dashes (reverse front) in
    let chars = drop_dashes-IsSlugChar runs (dash_runs-IsSlugChar (to_lower name) false) in
    (
      reverse-All back (drop_dashes-IsSlugChar (reverse front) (reverse-All front chars)),
      trim_end-NotDash front (drop_dashes-NotDash runs),
      subst NotDash (sym (reverse-reverse back)) (drop_dashes-NotDash (reverse front)),
    )
