-- ===== src/Shell/Posix.antt =====
-- How a POSIX shell reads the words of a simple command (Shell Command Language, 2.2 Quoting), as
-- far as single quotes and backslashes go; anything else that it would interpret is refused.
use yeah.Base.{
  ℕ, Bool, ◌||◌, Option, none, some, List, [], ◌∷◌, ◌++◌, Text, codes, one_of, ◌==◌, if◌then◌else◌,
}

pub data Mode : Type 0 where
  blank bare single escaped : Mode

-- Characters that the shell interprets outside quotes, other than blanks, "'" and "\".
abbrev pub is_special : ℕ → Bool
is_special = one_of (codes "|&;<>()$`\"*?[]#~=%!{}\n\r")

abbrev pub is_blank : ℕ → Bool
is_blank c = c == b' ' || c == b'\t'

-- The words of the text, behind the words `out` and the part `word` of a word; `none` where the
-- text is interpreted or a quote is left open.
unfoldable pub read : Mode → List Text → Text → Text → Option (List Text)
read blank out word [] = some out
read bare out word [] = some (out ++ word ∷ [])
read single out word [] = none
read escaped out word [] = none
read single out word (c ∷ s) =
    let close = read bare out word s in
    let more = read single out (word ++ c ∷ []) s in if c == b'\'' then close else more
read escaped out word (c ∷ s) = read bare out (word ++ c ∷ []) s
read bare out word (c ∷ s) =
    let quoted = read single out word s in
    let literal = read escaped out word s in
    let next = read blank (out ++ word ∷ []) [] s in
    let more = read bare out (word ++ c ∷ []) s in
    if c == b'\''
    then quoted
    else if c == b'\\'
    then literal
    else if is_blank c
    then next
    else if is_special c
    then none
    else more
read blank out word (c ∷ s) =
    let quoted = read single out [] s in
    let literal = read escaped out [] s in
    let next = read blank out [] s in
    let more = read bare out (c ∷ []) s in
    if c == b'\''
    then quoted
    else if c == b'\\'
    then literal
    else if is_blank c
    then next
    else if is_special c
    then none
    else more

abbrev pub words : Text → Option (List Text)
words = read blank [] []
