-- ===== src/Base/Strings.antt =====
-- Strings of the source: lists of UTF-16 code units, with the methods of `String` that it uses.
use Prim.Native.Nat.{ℕ}
use Prim.Native.Char.{code}
use Prim.Native.String.{String}
use mathlib.Core.Path.{◌≡◌, refl, ap, ◌∙◌}
use mathlib.Core.Logic.{◌↔◌, ◌≢◌, inl, inr}
use mathlib.Core.Option.{Option, none, some}
use mathlib.Core.List.{List, [], ◌∷◌, ◌++◌, reverse}
use mathlib.Core.Bool.{Bool, true, false, ◌&&◌, ◌||◌}
use native.Mathlib.Omega.{arith}
use yeah.Base.Tests.{◌==◌, ==_iff, leb, if◌then◌else◌, Bool-cases}
use yeah.Base.Lists.{any, drop, length}

abbrev pub Text : Type 0
Text = List ℕ

-- The code units of a literal without characters above U+FFFF.
abbrev pub codes : String → Text
codes String.[] = []
codes (String.◌∷◌ c s) = code c ∷ codes s

-- A text is truthy when it is there and not empty.
abbrev pub truthy : Option Text → Bool
truthy none = false
truthy (some []) = false
truthy (some _) = true

-- `===` on strings.
unfoldable pub equal : Text → Text → Bool
equal [] [] = true
equal (x ∷ xs) (y ∷ ys) = x == y && equal xs ys
equal _ _ = false

pub equal_iff : (a b : Text) → (equal a b ≡ true) ↔ (a ≡ b)
unfolding equal
equal_iff (x ∷ a) (y ∷ b) = ground (arith, equal_iff a b)
equal_iff _ _ = ground arith

pub equal_refl : (a : Text) → equal a a ≡ true
equal_refl a = (equal_iff a a).1 refl

-- `\s` of a regular expression, and what `trim` strips.
unfoldable pub is_space : ℕ → Bool
is_space c =
    (leb 9 c && leb c 13)
    || c == 32
    || c == 160
    || c == 0x1680
    || (leb 0x2000 c && leb c 0x200a)
    || c == 0x2028
    || c == 0x2029
    || c == 0x202f
    || c == 0x205f
    || c == 0x3000
    || c == 0xfeff

abbrev pub within : ℕ → ℕ → ℕ → Bool
within lo hi c = leb lo c && leb c hi

abbrev pub is_digit : ℕ → Bool
is_digit = within b'0' b'9'

abbrev pub is_alnum : ℕ → Bool
is_alnum c = within b'a' b'z' c || within b'A' b'Z' c || within b'0' b'9' c

-- `text.includes(c)` for one code unit.
abbrev pub has_char : ℕ → Text → Bool
has_char c = any (λ x. x == c)

abbrev pub one_of : Text → ℕ → Bool
one_of set c = any (λ x. x == c) set

unfoldable pub starts_with : Text → Text → Bool
starts_with [] s = true
starts_with (p ∷ ps) [] = false
starts_with (p ∷ ps) (c ∷ s) = p == c && starts_with ps s

-- `text.includes(part)`
unfoldable pub contains : Text → Text → Bool
unfolding starts_with
contains part [] = starts_with part []
contains part (c ∷ s) = starts_with part (c ∷ s) || contains part s

abbrev pub attach : ℕ → List Text → List Text
attach c [] = (c ∷ []) ∷ []
attach c (w ∷ ws) = (c ∷ w) ∷ ws

-- `text.split(sep)` for a separator of one code unit.
unfoldable pub split_on : ℕ → Text → List Text
split_on sep [] = [] ∷ []
split_on sep (c ∷ s) = let rest = split_on sep s in if c == sep then [] ∷ rest else attach c rest

unfoldable pub join : Text → List Text → Text
join sep [] = []
join sep (w ∷ []) = w
join sep (w ∷ v ∷ ws) = w ++ (sep ++ join sep (v ∷ ws))

unfoldable pub trim_start : Text → Text
unfolding is_space
trim_start [] = []
trim_start (c ∷ s) = let rest = trim_start s in if is_space c then rest else c ∷ s

unfoldable pub trim : Text → Text
unfolding trim_start
trim s = reverse (trim_start (reverse (trim_start s)))

-- `list.includes(text)`
abbrev pub includes : List Text → Text → Bool
includes ts t = any (λ x. equal x t) ts

-- `text.endsWith(suffix)`
unfoldable pub ends_with : Text → Text → Bool
unfolding starts_with
ends_with s suffix = starts_with (reverse suffix) (reverse s)

attach-join : (c sep : ℕ) (ws : List Text) → join (sep ∷ []) (attach c ws) ≡ c ∷ join (sep ∷ []) ws
unfolding join
attach-join c sep [] = refl
attach-join c sep (w ∷ []) = refl
attach-join c sep (w ∷ v ∷ ws) = refl

pub split_on-shape :
    (sep : ℕ) (s : Text) → (w : Text) × (ws : List Text) × (split_on sep s ≡ w ∷ ws)
unfolding split_on
split_on-shape sep [] = ([], [], refl)
split_on-shape sep (c ∷ s) =
    let (w, ws, e) = split_on-shape sep s in
    elim (Bool-cases (c == sep)) [
      | inl same ↦ ([], w ∷ ws, rw (same, e))
      | inr other ↦ (c ∷ w, ws, rw (other, e))
    ]

join-nil :
    (sep : ℕ) (ws : List Text) → ws ≢ [] → join (sep ∷ []) ([] ∷ ws) ≡ sep ∷ join (sep ∷ []) ws
unfolding join
join-nil sep [] h = absurd (h refl)
join-nil sep (w ∷ ws) h = refl

-- Joining the parts of a split with the separator gives the text back.
pub join-split_on : (sep : ℕ) (s : Text) → join (sep ∷ []) (split_on sep s) ≡ s
unfolding split_on join
join-split_on sep [] = refl
join-split_on sep (c ∷ s) = elim (Bool-cases (c == sep)) [
  | inl same ↦
      let (w, ws, e) = split_on-shape sep s in
      rw (same, (==_iff c sep).0 same)
        (join-nil sep (split_on sep s) (λ none_left. cc) ∙ ap (◌∷◌ sep) (join-split_on sep s))
  | inr other ↦ rw other (attach-join c sep (split_on sep s) ∙ ap (◌∷◌ c) (join-split_on sep s))
]

pub starts_with-append_drop : (p s : Text) → starts_with p s ≡ true → s ≡ p ++ drop (length p) s
unfolding starts_with
starts_with-append_drop [] s h = refl
starts_with-append_drop (c ∷ p) [] h = cc
starts_with-append_drop (c ∷ p) (d ∷ s) h =
    let same : d ≡ c = ground arith in
    let rest : starts_with p s ≡ true = ground arith in
    rw same (ap (◌∷◌ c) (starts_with-append_drop p s rest))
