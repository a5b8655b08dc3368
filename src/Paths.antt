-- ===== src/Paths.antt =====
-- The path and name validators: packages/shared/src/shell.ts, compose.ts, fileBrowser.ts and
-- stackFiles.ts. Each regular expression is written out as tests of its characters.
pub mod Inside
pub mod Image
pub mod Root
mod Tests
use yeah.Base.{
  ℕ, ◌+◌, ◌-◌, Bool, true, false, ◌&&◌, ◌||◌, not, Option, none, some, List, [], ◌∷◌, ◌++◌, Text,
  codes, any, all, equal, includes, one_of, has_char, split_on, starts_with, ends_with, is_space,
  is_alnum, is_digit, within, ◌==◌, ltb, leb, if◌then◌else◌, length, drop, take, contains, last,
  or_else,
}

-- `/["'`$;&|<>\s]/`
abbrev pub is_shell_or_space : ℕ → Bool
is_shell_or_space c = one_of (codes "\"'`$;&|<>") c || is_space c

-- `/["'`$;&|<>\\]/`
abbrev pub is_shell_or_backslash : ℕ → Bool
is_shell_or_backslash = one_of (codes "\"'`$;&|<>\\")

abbrev pub dot_dot : Text
dot_dot = codes ".."

pub is_safe_publish_directory : Text → Bool
unfolding starts_with split_on equal is_space
is_safe_publish_directory dir =
    if equal dir (codes ".") || equal dir (codes "")
    then true
    else if starts_with (codes "/") dir || has_char b'\\' dir || any is_shell_or_space dir
    then false
    else not (includes (split_on b'/' dir) dot_dot)

pub is_safe_compose_file : Text → Bool
unfolding starts_with split_on equal is_space
is_safe_compose_file path =
    if equal path (codes "") || equal path (codes ".")
    then false
    else if starts_with (codes "/") path || has_char b'\\' path || any is_shell_or_space path
    then false
    else not (includes (split_on b'/' path) dot_dot)

pub is_safe_host_path : Text → Bool
unfolding starts_with split_on equal is_space
is_safe_host_path path =
    if not (starts_with (codes "/") path) || equal path (codes "/") || ltb 512 (length path)
    then false
    else if any (λ c. is_shell_or_space c || c == b'\\') path || any (λ c. leb c 0x1f) path
    then false
    else not (includes (split_on b'/' path) dot_dot)

pub is_safe_mount_path : Text → Bool
unfolding starts_with
is_safe_mount_path path =
    starts_with (codes "/") path
    && leb (length path) 512
    && not (any is_shell_or_backslash path)
    && not (any (λ c. leb c 0x1f) path)

-- `MAX_BROWSER_PATH` is 1024.
pub is_safe_browser_path : Text → Bool
unfolding starts_with split_on equal
is_safe_browser_path path =
    if length path == 0 || ltb 1024 (length path) || not (starts_with (codes "/") path)
    then false
    else if any (λ c. leb c 0x1f || c == 0x7f) path
    then false
    else not (includes (split_on b'/' path) dot_dot)

pub is_safe_stack_path : Text → Bool
unfolding starts_with split_on equal
is_safe_stack_path path =
    if length path == 0 || ltb 200 (length path) || starts_with (codes "/") path
    then false
    else if not (all (λ c. is_alnum c || one_of (codes "._-/") c) path)
    then false
    else all
        (λ segment.
          not (equal segment (codes ""))
          && not (equal segment (codes "."))
          && not (equal segment dot_dot))
        (split_on b'/' path)

-- `/^[a-zA-Z0-9][a-zA-Z0-9._-]{0,63}$/`
pub is_valid_compose_service : Text → Bool
is_valid_compose_service [] = false
is_valid_compose_service (c ∷ s) =
    is_alnum c && all (λ d. is_alnum d || one_of (codes "._-") d) s && leb (length s) 63

abbrev is_hex : ℕ → Bool
is_hex c = within b'a' b'f' c || is_digit c

abbrev digest_mark : Text
digest_mark = codes "@sha256:"

-- `/@sha256:[a-f0-9]{64}$/` on the last 72 characters.
pub is_digest : Text → Bool
unfolding starts_with
is_digest s = length s == 72 && starts_with digest_mark s && all is_hex (drop 8 s)

-- `/^[a-zA-Z0-9][a-zA-Z0-9._/:-]*$/`
pub is_image_ref : Text → Bool
is_image_ref [] = false
is_image_ref (c ∷ s) = is_alnum c && all (λ d. is_alnum d || one_of (codes "._/:-") d) s

abbrev count_char : ℕ → Text → ℕ
count_char c [] = 0
count_char c (d ∷ s) = (if d == c then 1 else 0) + count_char c s

-- The image without its digest.
pub image_ref : Text → Text
unfolding is_digest
image_ref image =
    let cut = length image - 72 in
    if leb 72 (length image) && is_digest (drop cut image) then take cut image else image

pub is_valid_docker_image : Text → Bool
unfolding is_image_ref split_on ends_with contains
is_valid_docker_image image =
    if length image == 0 || ltb 512 (length image)
    then false
    else if not (is_image_ref (image_ref image))
    then false
    else (let last_segment = or_else (last (split_on b'/' (image_ref image))) [] in
        leb (count_char b':' last_segment) 1
        && not (ends_with last_segment (codes ":"))
        && not (contains (codes "//") (image_ref image)))
