-- ===== src/Shell.antt =====
-- packages/shared/src/shell.ts: quoting of values for a POSIX shell, and the tokenizer of the extra
-- `docker run` options. Texts are UTF-16 code units; the syntax characters are all ASCII.
pub mod Posix
pub mod Quoting
pub mod Tokens
pub mod Reserved
pub mod Slug
mod Tests
use yeah.Base.{
  ℕ, Bool, true, false, ◌&&◌, ◌||◌, Option, none, some, List, [], ◌∷◌, ◌++◌, Text, codes, includes,
  one_of, split_on, is_space, ◌==◌, if◌then◌else◌, first, or_else, within, reverse,
}

-- `value.replace(/'/g, "'\\''")`
pub escape_quotes : Text → Text
escape_quotes [] = []
escape_quotes (c ∷ s) =
    let rest = escape_quotes s in if c == b'\'' then codes "'\\''" ++ rest else c ∷ rest

pub shell_quote : Text → Text
shell_quote value = b'\'' ∷ (escape_quotes value ++ b'\'' ∷ [])

abbrev pub reserved_docker_flags : List Text
reserved_docker_flags =
    codes "--name"
    ∷ codes "-d"
    ∷ codes "--detach"
    ∷ codes "--rm"
    ∷ codes "--env-file"
    ∷ codes "--restart"
    ∷ []

-- The local `quote`: null, "'" or '"'.
pub data Quote : Type 0 where
  unquoted single double : Quote

-- The locals of the loop.
pub record Scan : Type 0 where
  pub args : List Text
  pub current : Text
  pub in_word : Bool
  pub quote : Quote

abbrev pub append_char : Scan → ℕ → Scan
append_char st c = record st { current = st.current ++ c ∷ [] }

-- `i + 1 < input.length && test(input[i + 1])`
abbrev pub next_is : (ℕ → Bool) → Option ℕ → Bool
next_is test none = false
next_is test (some d) = test d

abbrev pub is_double_escapable : ℕ → Bool
is_double_escapable = one_of (codes "\"$`")

abbrev pub step_unquoted : Scan → ℕ → Option ℕ → Scan × Bool
step_unquoted st c next =
    if c == b'\''
    then (record st { quote = single; in_word = true }, false)
    else if c == b'"'
    then (record st { quote = double; in_word = true }, false)
    else if c == b'\\' && next_is (λ _. true) next
    then (record (append_char st (or_else next 0)) { in_word = true }, true)
    else if is_space c
    then (
      if st.in_word
          then record st { args = st.args ++ st.current ∷ []; current = []; in_word = false }
          else st,
      false,
    )
    else (record (append_char st c) { in_word = true }, false)

-- One round of the loop at the character `c`, with the character behind it; the flag says that the
-- round also took that one (`++i`).
abbrev pub step_in : Quote → Scan → ℕ → Option ℕ → Scan × Bool
step_in single st c next =
    (if c == b'\'' then record st { quote = unquoted } else append_char st c, false)
step_in double st c next =
    if c == b'"'
    then (record st { quote = unquoted }, false)
    else if c == b'\\' && next_is is_double_escapable next
    then (append_char st (or_else next 0), true)
    else (append_char st c, false)
step_in unquoted st c next = step_unquoted st c next

pub step : Scan → ℕ → Option ℕ → Scan × Bool
step st = step_in st.quote st

pub scan : Scan → Text → Scan
scan st [] = st
scan st (c ∷ []) = (step st c none).0
scan st (c ∷ d ∷ s) =
    let taken = step st c (some d) in
    let one = scan taken.0 (d ∷ s) in let two = scan taken.0 s in if taken.1 then two else one

pub data DockerOptionsResult : Type 0 where
  ok : List Text → DockerOptionsResult
  error : Text → DockerOptionsResult

abbrev pub unclosed_quote : Text
unclosed_quote = codes "unclosed quote in the docker options"

-- `arg.split("=")[0]`
pub flag_of : Text → Text
unfolding split_on
flag_of arg = or_else (first (split_on b'=' arg)) []

abbrev pub managed : Text → Text
managed flag =
    codes "the " ++ (flag ++ codes " option is managed by yeah and cannot be overridden here")

-- The loop over the arguments; `all` is what is returned at its end.
pub check_flags : List Text → List Text → DockerOptionsResult
check_flags whole [] = ok whole
check_flags whole (arg ∷ args) =
    let rest = check_flags whole args in
    if includes reserved_docker_flags (flag_of arg) then error (managed (flag_of arg)) else rest

abbrev pub start : Scan
start = record { args = []; current = []; in_word = false; quote = unquoted }

abbrev pub is_open : Quote → Bool
is_open unquoted = false
is_open _ = true

-- What follows the loop.
pub finish : Scan → DockerOptionsResult
finish st =
    let args = if st.in_word then st.args ++ st.current ∷ [] else st.args in
    if is_open st.quote then error unclosed_quote else check_flags args args

pub parse_docker_options : Text → DockerOptionsResult
parse_docker_options input = finish (scan start input)

abbrev is_slug_char : ℕ → Bool
is_slug_char c = within b'a' b'z' c || within b'0' b'9' c

-- `.replace(/[^a-z0-9]+/g, "-")`; the flag says that the character before belongs to the same run.
pub dash_runs : Bool → Text → Text
dash_runs inside [] = []
dash_runs inside (c ∷ s) =
    let kept = c ∷ dash_runs false s in
    let run = dash_runs true s in
    if is_slug_char c then kept else if inside then run else b'-' ∷ run

pub drop_dashes : Text → Text
drop_dashes [] = []
drop_dashes (c ∷ s) = let rest = drop_dashes s in if c == b'-' then rest else c ∷ s

-- `to_lower` is the runtime's `toLowerCase`.
pub resource_slug : (Text → Text) → Text → Text
resource_slug to_lower name =
    reverse (drop_dashes (reverse (drop_dashes (dash_runs false (to_lower name)))))
