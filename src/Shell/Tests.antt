-- ===== src/Shell/Tests.antt =====
-- Runs of the quoting and the tokenizer, and instances of their theorems.
use yeah.Base.{
  ◌≡◌, refl, some, List, [], ◌∷◌, ◌++◌, Text, codes, join, map, All, arith, is_space, equal,
}
use yeah.Shell.{
  escape_quotes, shell_quote, parse_docker_options, ok, error, scan, step, finish, check_flags,
  flag_of, managed, unclosed_quote, resource_slug, dash_runs, drop_dashes,
}
use yeah.Shell.Posix.{words, read, blank, bare}
use yeah.Shell.Quoting.{read-shell_quote, words-join}
use yeah.Shell.Tokens.{parse_docker_options-join, parse_docker_options-backslash}
use yeah.Shell.Reserved.{SetsNoReserved, parse_docker_options-SetsNoReserved}

quotes : shell_quote (codes "it's $HOME") ≡ codes "'it'\\''s $HOME'"
unfolding shell_quote escape_quotes
quotes = refl

reads : words (codes "'it'\\''s' \\$x y") ≡ some (codes "it's" ∷ codes "$x" ∷ codes "y" ∷ [])
unfolding read
reads = refl

abbrev options : Text
options = codes "--memory 512m -e \"A=b c\" 'x'y\\ z"

abbrev option_list : List Text
option_list = codes "--memory" ∷ codes "512m" ∷ codes "-e" ∷ codes "A=b c" ∷ codes "xy z" ∷ []

parsed : parse_docker_options options ≡ ok option_list
unfolding parse_docker_options scan step finish check_flags flag_of is_space equal
parsed = refl

refused :
    (parse_docker_options (codes "--name=x") ≡ error (managed (codes "--name")))
    × (parse_docker_options (codes "'a") ≡ error unclosed_quote)
unfolding parse_docker_options scan step finish check_flags flag_of is_space equal
refused = (refl, refl)

slug : resource_slug (λ s. s) (codes " my app!! 2 ") ≡ codes "my-app-2"
unfolding resource_slug dash_runs drop_dashes
slug = refl

parse_docker_options-join_example :
    parse_docker_options (join (codes " ") (map shell_quote option_list)) ≡ ok option_list
unfolding flag_of equal
parse_docker_options-join_example =
    parse_docker_options-join option_list (refl, (refl, (refl, (refl, (refl, tt)))))

parse_docker_options-SetsNoReserved_example :
    All SetsNoReserved option_list
    × (parse_docker_options (join (codes " ") (map shell_quote option_list)) ≡ ok option_list)
parse_docker_options-SetsNoReserved_example =
    parse_docker_options-SetsNoReserved options option_list parsed

parse_docker_options-backslash_example :
    parse_docker_options (b'"' ∷ (codes "C:" ++ codes "\\\\\"")) ≡ error unclosed_quote
parse_docker_options-backslash_example = parse_docker_options-backslash (codes "C:") (omega arith)

read-shell_quote_example :
    (read blank [] [] (shell_quote (codes "$(rm)") ++ codes "b")
      ≡ read bare [] (codes "$(rm)") (codes "b"))
    × (read bare [] (codes "a") (shell_quote (codes "$(rm)") ++ codes "b")
        ≡ read bare [] (codes "a$(rm)") (codes "b"))
read-shell_quote_example = read-shell_quote (codes "$(rm)") (codes "b") [] (codes "a")

words-join_example :
    words (join (codes " ") (map shell_quote (codes "a'b" ∷ codes "; c" ∷ [])))
    ≡ some (codes "a'b" ∷ codes "; c" ∷ [])
words-join_example = words-join (codes "a'b" ∷ codes "; c" ∷ [])
