-- ===== src/Shell/Reserved.antt =====
-- parseDockerOptions lets no reserved flag pass.
use yeah.Base.{
  ℕ, ◌≡◌, ◌≢◌, refl, ◌∙◌, ap, inl, inr, true, false, List, [], ◌∷◌, ◌++◌, map, append_assoc, Text,
  codes, join, includes, ◌==◌, arith, Bool-cases, All, has_char, starts_with,
  starts_with-append_drop, drop, length, split_on, split_on-shape, equal,
}
use yeah.Shell.{shell_quote, scan, start, parse_docker_options, ok, reserved_docker_flags, flag_of}
use yeah.Shell.Tokens.{IsFree, finish-ok, parse_docker_options-join}

flag_of-cons : (c : ℕ) (s : Text) → (c == b'=') ≡ false → flag_of (c ∷ s) ≡ c ∷ flag_of s
unfolding flag_of split_on
flag_of-cons c s h = let (w, ws, e) = split_on-shape b'=' s in rw (h, e) refl

-- What precedes the first "=" of a text that starts with a flag and "=", or is the flag alone.
flag_of-named :
    (flag v : Text)
    → has_char b'=' flag ≡ false
    → (flag_of flag ≡ flag) × (flag_of (flag ++ b'=' ∷ v) ≡ flag)
unfolding flag_of split_on
flag_of-named [] v h = (refl, refl)
flag_of-named (c ∷ flag) v h =
    let (alone, valued) = flag_of-named flag v (ground arith) in
    (
      flag_of-cons c flag (ground arith) ∙ ap (◌∷◌ c) alone,
      flag_of-cons c (flag ++ b'=' ∷ v) (ground arith) ∙ ap (◌∷◌ c) valued,
    )

-- The argument is not the flag, and does not begin with the flag and "=".
abbrev pub DoesNotSet : Text → Text → Type 0
DoesNotSet flag arg = (arg ≢ flag) × (starts_with (flag ++ codes "=") arg ≡ false)

abbrev pub SetsNoReserved : Text → Type 0
SetsNoReserved arg =
    DoesNotSet (codes "--name") arg
    × DoesNotSet (codes "-d") arg
    × DoesNotSet (codes "--detach") arg
    × DoesNotSet (codes "--rm") arg
    × DoesNotSet (codes "--env-file") arg
    × DoesNotSet (codes "--restart") arg

IsFree-DoesNotSet :
    (flag arg : Text)
    → has_char b'=' flag ≡ false
    → includes reserved_docker_flags flag ≡ true
    → IsFree arg
    → DoesNotSet flag arg
IsFree-DoesNotSet flag arg h reserved free = (
  λ e. cc (rw (e, (flag_of-named flag [] h).0, reserved) at free),
  elim (Bool-cases (starts_with (flag ++ codes "=") arg)) [
    | inl begins ↦
        let v = drop (length (flag ++ codes "=")) arg in
        let e =
          starts_with-append_drop (flag ++ codes "=") arg begins
          ∙ append_assoc flag (codes "=") v in
        cc (rw (e, (flag_of-named flag v h).1, reserved) at free)
    | inr other ↦ other
  ],
)

IsFree-SetsNoReserved : (arg : Text) → IsFree arg → SetsNoReserved arg
unfolding equal
IsFree-SetsNoReserved arg free = (
  IsFree-DoesNotSet (codes "--name") arg refl refl free,
  IsFree-DoesNotSet (codes "-d") arg refl refl free,
  IsFree-DoesNotSet (codes "--detach") arg refl refl free,
  IsFree-DoesNotSet (codes "--rm") arg refl refl free,
  IsFree-DoesNotSet (codes "--env-file") arg refl refl free,
  IsFree-DoesNotSet (codes "--restart") arg refl refl free,
)

All-SetsNoReserved : (args : List Text) → All IsFree args → All SetsNoReserved args
All-SetsNoReserved [] h = tt
All-SetsNoReserved (arg ∷ args) (free, h) =
    (IsFree-SetsNoReserved arg free, All-SetsNoReserved args h)

-- No argument that the tokenizer accepts, from any input, is one of --name, -d, --detach, --rm,
-- --env-file and --restart, or begins with one of them and "="; and when the accepted arguments are
-- shell-quoted again, the tokenizer reads the same arguments.
pub parse_docker_options-SetsNoReserved :
    (input : Text) (args : List Text)
    → parse_docker_options input ≡ ok args
    → All SetsNoReserved args
      × (parse_docker_options (join (codes " ") (map shell_quote args)) ≡ ok args)
unfolding parse_docker_options
parse_docker_options-SetsNoReserved input args e =
    let free = finish-ok (scan start input) args e in
    (All-SetsNoReserved args free, parse_docker_options-join args free)
