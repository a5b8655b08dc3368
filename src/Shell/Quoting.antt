-- ===== src/Shell/Quoting.antt =====
-- What a shell makes of quoted values.
use yeah.Base.{
  ◌≡◌, refl, sym, ◌∙◌, ap, inl, inr, some, List, [], ◌∷◌, ◌++◌, map, append_assoc, append-nil, Text,
  codes, join, ◌==◌, ==_iff, Bool-cases,
}
use yeah.Shell.{escape_quotes, shell_quote}
use yeah.Shell.Posix.{blank, bare, single, read, words}

-- Inside single quotes the escaped value reads as the value.
read-escape_quotes :
    (v rest : Text) (out : List Text) (word : Text)
    → read single out word (escape_quotes v ++ rest) ≡ read single out (word ++ v) rest
unfolding escape_quotes read
read-escape_quotes [] rest out word = rw append-nil
read-escape_quotes (c ∷ v) rest out word = elim (Bool-cases (c == b'\'')) [
  | inl quote ↦
      rw (quote, (==_iff c b'\'').0 quote)
        (read-escape_quotes v rest out (word ++ b'\'' ∷ []) ∙ rw append_assoc)
  | inr other ↦
      rw other (rw other (read-escape_quotes v rest out (word ++ c ∷ []) ∙ rw append_assoc))
]

pub quoted-append :
    (v rest : Text) → shell_quote v ++ rest ≡ b'\'' ∷ (escape_quotes v ++ b'\'' ∷ rest)
unfolding shell_quote
quoted-append v rest = ap (◌∷◌ b'\'') (append_assoc (escape_quotes v) (b'\'' ∷ []) rest)

-- Where a word may start or go on, a quoted value adds exactly the value to the word, whatever the
-- value holds and whatever text follows: nothing of it is interpreted, and it cannot end the quote.
pub read-shell_quote :
    (v rest : Text) (out : List Text) (word : Text)
    → (read blank out [] (shell_quote v ++ rest) ≡ read bare out v rest)
      × (read bare out word (shell_quote v ++ rest) ≡ read bare out (word ++ v) rest)
unfolding read
read-shell_quote v rest out word = (
  rw (quoted-append v rest) (read-escape_quotes v (b'\'' ∷ rest) out []),
  rw (quoted-append v rest) (read-escape_quotes v (b'\'' ∷ rest) out word),
)

read-join :
    (v : Text) (vs : List Text) (out : List Text)
    → read blank out [] (join (codes " ") (map shell_quote (v ∷ vs))) ≡ some (out ++ v ∷ vs)
unfolding join read
read-join v [] out =
    sym (ap (read blank out []) (append-nil (shell_quote v))) ∙ (read-shell_quote v [] out []).0
read-join v (w ∷ vs) out =
    (read-shell_quote v (b' ' ∷ join (codes " ") (map shell_quote (w ∷ vs))) out []).0
    ∙ read-join w vs (out ++ v ∷ [])
    ∙ ap some (append_assoc out (v ∷ []) (w ∷ vs))

-- A shell reads a command made of quoted values, with a space between them, as exactly these words.
pub words-join : (args : List Text) → words (join (codes " ") (map shell_quote args)) ≡ some args
unfolding join read
words-join [] = refl
words-join (v ∷ vs) = read-join v vs []
