-- ===== src/Shell/Tokens.antt =====
-- The tokenizer of docker options reads back what `shellQuote` writes.
use yeah.Base.{
  ℕ, ◌≡◌, ◌≢◌, refl, sym, subst, ◌∙◌, ap, inl, inr, true, false, some, List, [], ◌∷◌, ◌++◌, map,
  append_assoc, append-nil, Text, codes, join, includes, ◌==◌, ==_iff, arith, Bool-cases,
  if◌then◌else◌, first, All, is_space,
}
use yeah.Shell.{
  escape_quotes, shell_quote, Scan, unquoted, single, double, step, scan, start, finish,
  check_flags, parse_docker_options, ok, error, reserved_docker_flags, flag_of, unclosed_quote,
}
use yeah.Shell.Quoting.{quoted-append}

-- A round that takes one character.
scan-one :
    (st : Scan) (c : ℕ) (s : Text)
    → (step st c (first s)).1 ≡ false
    → scan st (c ∷ s) ≡ scan (step st c (first s)).0 s
unfolding scan
scan-one st c [] h = refl
scan-one st c (d ∷ s) h = rw h

-- A round that takes two.
scan-two :
    (st : Scan) (c d : ℕ) (s : Text)
    → (step st c (some d)).1 ≡ true
    → scan st (c ∷ d ∷ s) ≡ scan (step st c (some d)).0 s
unfolding scan
scan-two st c d s h = rw h

abbrev within_single : List Text → Text → Scan
within_single args word = record { args = args; current = word; in_word = true; quote = single }

abbrev within_word : List Text → Text → Scan
within_word args word = record { args = args; current = word; in_word = true; quote = unquoted }

abbrev between : List Text → Scan
between args = record { args = args; current = []; in_word = false; quote = unquoted }

scan-escape_quotes :
    (v rest : Text) (args : List Text) (word : Text)
    → scan (within_single args word) (escape_quotes v ++ rest)
      ≡ scan (within_single args (word ++ v)) rest
unfolding escape_quotes scan step
scan-escape_quotes [] rest args word = rw append-nil
scan-escape_quotes (c ∷ v) rest args word = elim (Bool-cases (c == b'\'')) [
  | inl quote ↦
      rw (quote, (==_iff c b'\'').0 quote)
        (scan-one (within_word args (word ++ b'\'' ∷ [])) b'\'' (escape_quotes v ++ rest) refl
          ∙ scan-escape_quotes v rest args (word ++ b'\'' ∷ [])
          ∙ ap (λ w. scan (within_single args w) rest) (append_assoc word (b'\'' ∷ []) v))
  | inr other ↦ rw other (
      scan-one (within_single args word) c (escape_quotes v ++ rest) refl
      ∙ rw other (
          scan-escape_quotes v rest args (word ++ c ∷ [])
          ∙ ap (λ w. scan (within_single args w) rest) (append_assoc word (c ∷ []) v)))
]

scan-shell_quote :
    (v rest : Text) (args : List Text)
    → scan (between args) (shell_quote v ++ rest) ≡ scan (within_word args v) rest
unfolding step
scan-shell_quote v rest args =
    ap (scan (between args)) (quoted-append v rest)
    ∙ scan-one (between args) b'\'' (escape_quotes v ++ b'\'' ∷ rest) refl
    ∙ scan-escape_quotes v (b'\'' ∷ rest) args []
    ∙ scan-one (within_single args v) b'\'' rest refl

finish-join :
    (v : Text) (vs : List Text) (args : List Text)
    → finish (scan (between args) (join (codes " ") (map shell_quote (v ∷ vs))))
      ≡ check_flags (args ++ v ∷ vs) (args ++ v ∷ vs)
unfolding join finish scan step is_space
finish-join v [] args =
    ap (λ t. finish (scan (between args) t)) (sym (append-nil (shell_quote v)))
    ∙ ap finish (scan-shell_quote v [] args)
finish-join v (w ∷ vs) args =
    let rest = join (codes " ") (map shell_quote (w ∷ vs)) in
    ap finish (scan-shell_quote v (b' ' ∷ rest) args ∙ scan-one (within_word args v) b' ' rest refl)
    ∙ finish-join w vs (args ++ v ∷ [])
    ∙ ap (λ l. check_flags l l) (append_assoc args (v ∷ []) (w ∷ vs))

abbrev pub IsFree : Text → Type 0
IsFree arg = includes reserved_docker_flags (flag_of arg) ≡ false

check_flags-ok :
    (whole args result : List Text)
    → check_flags whole args ≡ ok result
    → (whole ≡ result) × All IsFree args
unfolding check_flags
check_flags-ok whole [] result e = (cc, tt)
check_flags-ok whole (arg ∷ args) result e =
    elim (Bool-cases (includes reserved_docker_flags (flag_of arg))) [
      | inl taken ↦ cc (rw taken at e)
      | inr free ↦
          let (same, rest) = check_flags-ok whole args result (rw free at e) in (same, (free, rest))
    ]

check_flags-free : (whole args : List Text) → All IsFree args → check_flags whole args ≡ ok whole
unfolding check_flags
check_flags-free whole [] h = refl
check_flags-free whole (arg ∷ args) (p, h) = rw p (check_flags-free whole args h)

-- Whatever the arguments hold, the tokenizer reads them back from their shell-quoted forms with a
-- space between, as long as none of them is a managed flag.
pub parse_docker_options-join :
    (args : List Text)
    → All IsFree args
    → parse_docker_options (join (codes " ") (map shell_quote args)) ≡ ok args
unfolding parse_docker_options scan finish check_flags join
parse_docker_options-join [] h = refl
parse_docker_options-join (v ∷ vs) h = finish-join v vs [] ∙ check_flags-free (v ∷ vs) (v ∷ vs) h

pub finish-ok : (st : Scan) (args : List Text) → finish st ≡ ok args → All IsFree args
unfolding finish
finish-ok st args e =
    let whole = if st.in_word then st.args ++ st.current ∷ [] else st.args in
    let checked : check_flags whole whole ≡ ok args = ground arith in
    let (same, free) = check_flags-ok whole whole args checked in subst (All IsFree) same free

abbrev within_double : Text → Scan
within_double word = record { args = []; current = word; in_word = true; quote = double }

scan-double :
    (v rest : Text) (word : Text)
    → All (λ c. (c ≢ b'"') × (c ≢ b'\\')) v
    → scan (within_double word) (v ++ rest) ≡ scan (within_double (word ++ v)) rest
unfolding step
scan-double [] rest word h = rw append-nil
scan-double (c ∷ v) rest word ((p, q), h) =
    let taken : step (within_double word) c (first (v ++ rest))
        ≡ (within_double (word ++ c ∷ []), false) =
      ground arith in
    scan-one (within_double word) c (v ++ rest) (ap (λ t. t.1) taken)
    ∙ ap (λ t. scan t.0 (v ++ rest)) taken
    ∙ scan-double v rest (word ++ c ∷ []) h
    ∙ ap (λ w. scan (within_double w) rest) (append_assoc word (c ∷ []) v)

-- A double-quoted word that ends in an escaped backslash (`"v\\"` in the text), which a shell reads
-- as `v\`, is refused as an unclosed quote, for every `v` free of double quotes and backslashes.
pub parse_docker_options-backslash :
    (v : Text)
    → All (λ c. (c ≢ b'"') × (c ≢ b'\\')) v
    → parse_docker_options (b'"' ∷ (v ++ codes "\\\\\"")) ≡ error unclosed_quote
unfolding parse_docker_options finish scan step
parse_docker_options-backslash v h =
    ap finish (scan-one start b'"' (v ++ codes "\\\\\"") refl ∙ scan-double v (codes "\\\\\"") [] h)
