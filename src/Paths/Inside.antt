-- ===== src/Paths/Inside.antt =====
-- Accepted relative paths name something inside the directory that they are joined to.
use yeah.Base.{
  ◌≡◌, refl, sym, ◌∙◌, ap, ◌⊎◌, inl, inr, true, false, ◌&&◌, ◌||◌, not, List, [], ◌∷◌, ◌++◌, Text,
  codes, starts_with, reverse, append_assoc, equal, equal_iff, includes, all, split_on,
  join-split_on, join, arith, Bool-cases, if◌then◌else◌,
}
use mathlib.Core.List.{reverse-cons, reverse-reverse, append_cancel_right}
use yeah.Paths.{is_safe_publish_directory, is_safe_compose_file, is_safe_stack_path}

-- The parent of a directory, the root's being the root; a directory is the list of its names, the
-- innermost first.
abbrev pub parent : List Text → List Text
parent [] = []
parent (name ∷ names) = names

-- Path resolution of POSIX without symbolic links, from a directory, by one name and by a list.
abbrev pub enter : List Text → Text → List Text
enter at part =
    if equal part (codes "") || equal part (codes ".")
    then at
    else if equal part (codes "..")
    then parent at
    else part ∷ at

abbrev pub resolve : List Text → List Text → List Text
resolve at [] = at
resolve at (part ∷ parts) = resolve (enter at part) parts

-- A path that begins with a slash is resolved from the root directory, any other one from `base`.
abbrev pub resolve_path : List Text → Text → List Text
resolve_path base path =
    resolve (if starts_with (codes "/") path then [] else base) (split_on b'/' path)

-- `at` is `base` or lies below it.
abbrev pub Below : List Text → List Text → Type 0
Below base at = (more : List Text) × (at ≡ more ++ base)

enter-Below :
    (base at : List Text) (part : Text)
    → equal part (codes "..") ≡ false
    → Below base at
    → Below base (enter at part)
enter-Below base at part h (more, e) =
    elim (Bool-cases (equal part (codes "") || equal part (codes "."))) [
      | inl skipped ↦ rw skipped (more, e)
      | inr named ↦ rw (named, h) (part ∷ more, ap (◌∷◌ part) e)
    ]

resolve-Below :
    (base : List Text) (parts at : List Text)
    → includes parts (codes "..") ≡ false
    → Below base at
    → Below base (resolve at parts)
resolve-Below base [] at h below = below
resolve-Below base (part ∷ parts) at h below =
    resolve-Below base parts (enter at part) (ground arith)
      (enter-Below base at part (ground arith) below)

abbrev Accepted : Text → Type 0
Accepted path =
    (is_safe_publish_directory path ≡ true)
    ⊎ (is_safe_compose_file path ≡ true)
    ⊎ (is_safe_stack_path path ≡ true)

no_dot_dot :
    (segments : List Text)
    → all
        (λ s. not (equal s (codes "")) && not (equal s (codes ".")) && not (equal s (codes "..")))
        segments
      ≡ true
    → includes segments (codes "..") ≡ false
no_dot_dot [] h = refl
no_dot_dot (s ∷ segments) h = ground (arith, no_dot_dot segments)

dot-segments :
    (path : Text)
    → (equal path (codes ".") || equal path (codes "")) ≡ true
    → includes (split_on b'/' path) (codes "..") ≡ false
unfolding split_on equal
dot-segments path h = elim (Bool-cases (equal path (codes "."))) [
  | inl dot ↦ rw ((equal_iff path (codes ".")).0 dot)
  | inr other ↦ rw ((equal_iff path (codes "")).0 (ground arith))
]

Accepted-segments :
    (path : Text) → Accepted path → includes (split_on b'/' path) (codes "..") ≡ false
unfolding is_safe_publish_directory is_safe_compose_file is_safe_stack_path
Accepted-segments path (inl h) =
    elim (Bool-cases (equal path (codes ".") || equal path (codes ""))) [
      | inl whole ↦ dot-segments path whole
      | inr other ↦ ground arith
    ]
Accepted-segments path (inr (inl h)) = ground arith
Accepted-segments path (inr (inr h)) = no_dot_dot (split_on b'/' path) (ground arith)

Accepted-relative : (path : Text) → Accepted path → starts_with (codes "/") path ≡ false
unfolding is_safe_publish_directory is_safe_compose_file is_safe_stack_path starts_with
Accepted-relative path (inl h) = elim (Bool-cases (equal path (codes "."))) [
  | inl dot ↦ rw ((equal_iff path (codes ".")).0 dot)
  | inr other ↦ elim (Bool-cases (equal path (codes ""))) [
    | inl none_given ↦ rw ((equal_iff path (codes "")).0 none_given)
    | inr given ↦ ground arith
  ]
]
Accepted-relative path (inr (inl h)) = ground arith
Accepted-relative path (inr (inr h)) = ground arith

-- A path accepted as a publish directory, a compose file or a stack file, resolved from any
-- directory (without symbolic links, and from the root where it begins with a slash), names that
-- directory or something below it.
pub accepted-inside :
    (base : List Text) (path : Text)
    → (is_safe_publish_directory path ≡ true)
      ⊎ (is_safe_compose_file path ≡ true)
      ⊎ (is_safe_stack_path path ≡ true)
    → Below base (resolve_path base path)
accepted-inside base path h =
    rw (Accepted-relative path h)
      (resolve-Below base (split_on b'/' path) base (Accepted-segments path h) ([], refl))

resolve-plain :
    (segments at : List Text)
    → all
        (λ s. not (equal s (codes "")) && not (equal s (codes ".")) && not (equal s (codes "..")))
        segments
      ≡ true
    → resolve at segments ≡ reverse segments ++ at
resolve-plain [] at h = refl
resolve-plain (s ∷ segments) at h =
    let plain : enter at s ≡ s ∷ at = ground arith in
    ap (λ d. resolve d segments) plain
    ∙ resolve-plain segments (s ∷ at) (ground arith)
    ∙ sym (append_assoc (reverse segments) (s ∷ []) at)
    ∙ ap (λ l. l ++ at) (sym (reverse-cons s segments))

is_safe_stack_path-resolve :
    (at : List Text) (path : Text)
    → is_safe_stack_path path ≡ true
    → resolve at (split_on b'/' path) ≡ reverse (split_on b'/' path) ++ at
unfolding is_safe_stack_path
is_safe_stack_path-resolve at path h = resolve-plain (split_on b'/' path) at (ground arith)

-- Two stack files with accepted paths that differ are two files: resolved from one directory, they
-- name the same place only if the paths are the same text.
pub is_safe_stack_path-injective :
    (at : List Text) (path other : Text)
    → is_safe_stack_path path ≡ true
    → is_safe_stack_path other ≡ true
    → resolve at (split_on b'/' path) ≡ resolve at (split_on b'/' other)
    → path ≡ other
is_safe_stack_path-injective at path other h k e =
    let appended =
      sym (is_safe_stack_path-resolve at path h) ∙ e ∙ is_safe_stack_path-resolve at other k in
    let reversed = append_cancel_right _ _ at appended in
    sym (join-split_on b'/' path)
    ∙ ap (join (b'/' ∷ [])) (
        sym (reverse-reverse (split_on b'/' path))
        ∙ ap reverse reversed
        ∙ reverse-reverse (split_on b'/' other))
    ∙ join-split_on b'/' other
