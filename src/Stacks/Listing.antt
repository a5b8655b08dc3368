-- ===== src/Stacks/Listing.antt =====
-- provisionService.ts: the list of a stack's containers (everyContainerUp), read line by line.
use yeah.Base.{
  Bool, true, false, ◌&&◌, ◌||◌, List, [], ◌∷◌, Text, codes, equal, trim, split_on, select, map,
  all, ◌==◌, if◌then◌else◌, ◌≡◌, refl, arith, Bool-cases, inl, inr,
}
use yeah.Stacks.Job.{second, state_of, is_filled, is_up, some_line, every_container_up}

-- What precedes the first vertical bar, and what follows it; nothing follows where there is none.
abbrev before_bar : Text → Text
before_bar [] = []
before_bar (c ∷ s) = let rest = before_bar s in if c == b'|' then [] else c ∷ rest

abbrev behind_bar : Text → Text
behind_bar [] = []
behind_bar (c ∷ s) = let rest = behind_bar s in if c == b'|' then s else rest

-- The state of the container on a line `name|state`, blanks around the line apart.
abbrev listed_state : Text → Text
listed_state line = before_bar (behind_bar (trim line))

-- Every line that names a state names "running" or "restarting", and one line does or did before.
abbrev all_run : Bool → List Text → Bool
all_run found [] = found
all_run found (line ∷ lines) =
    let here = listed_state line in
    let others = all_run true lines in
    let skipped = all_run found lines in
    if equal here []
    then skipped
    else if equal here (codes "running") || equal here (codes "restarting")
    then others
    else false

-- The list names the state of a container, and every state that it names is "running" or "restarting".
abbrev pub lists_running : Text → Bool
lists_running output = all_run false (split_on b'\n' output)

before_bar-shape : (s : Text) → (ws : List Text) × (split_on b'|' s ≡ before_bar s ∷ ws)
unfolding split_on
before_bar-shape [] = ([], refl)
before_bar-shape (c ∷ s) =
    let (ws, e) = before_bar-shape s in
    elim (Bool-cases (c == b'|')) [
      | inl bar ↦ (split_on b'|' s, rw bar refl)
      | inr other ↦ (ws, rw (other, e) refl)
    ]

second-split_on : (s : Text) → second (split_on b'|' s) ≡ before_bar (behind_bar s)
unfolding split_on
second-split_on [] = refl
second-split_on (c ∷ s) =
    let (ws, e) = before_bar-shape s in
    elim (Bool-cases (c == b'|')) [
      | inl bar ↦ rw (bar, e) refl
      | inr other ↦ rw (other, e) (let known = second-split_on s in rw e at known)
    ]

abbrev shown : Bool → List Text → Bool
shown found states = (found || some_line states) && all is_up states

shown-cons :
    (found skipped others : Bool) (state : Text) (states : List Text)
    → shown found states ≡ skipped
    → shown true states ≡ others
    → shown found (if is_filled state then state ∷ states else states) ≡ (
        if equal state []
        then skipped
        else if equal state (codes "running") || equal state (codes "restarting")
        then others
        else false)
unfolding equal
shown-cons found skipped others [] states e k = e
shown-cons found skipped others (c ∷ state) states e k = ground arith

-- The list, where a line has been found before or not.
all_run-select :
    (found : Bool) (lines : List Text)
    → shown found (select is_filled (map state_of lines)) ≡ all_run found lines
all_run-select false [] = refl
all_run-select true [] = refl
all_run-select found (line ∷ lines) = rw (← second-split_on (trim line)) (
    shown-cons found (all_run found lines) (all_run true lines) (state_of line)
      (select is_filled (map state_of lines)) (all_run-select found lines)
      (all_run-select true lines))

pub every_container_up_lem : (output : Text) → every_container_up output ≡ lists_running output
unfolding every_container_up
every_container_up_lem output = all_run-select false (split_on b'\n' output)
