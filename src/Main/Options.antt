-- ===== src/Main/Options.antt =====
-- The options of the command line, read back from the words that spell them (src/main.c).
use command_stats.Common.{
  ◌+◌, ◌≡◌, refl, ap, ◌∙◌, Bool, true, false, List, [], ◌∷◌, ◌++◌, some, length, arith,
  append_assoc, length-append,
}
use command_stats.Common.Text.{Text, codes}
use command_stats.Regex.Split.{join}
use command_stats.Main.{
  Arguments, default_arguments, word, keyword, concat_strings_with_spaces, size_of_concat,
  parse_loop, parse_arguments,
}

-- One option, with the next argument where it has one.
pub data Setting : Type 0 where
  ask_help ask_stop ask_verbose : Setting
  set_log_file set_options set_format : Text → Setting

-- The words of an option, in its short and its long spelling.
unfoldable pub spell : Bool → Setting → List Text
spell true ask_help = codes "-h" ∷ []
spell _ ask_help = codes "--help" ∷ []
spell true ask_stop = codes "-s" ∷ []
spell _ ask_stop = codes "--stop-daemon" ∷ []
spell true ask_verbose = codes "-v" ∷ []
spell _ ask_verbose = codes "--verbose" ∷ []
spell true (set_log_file t) = codes "-l" ∷ t ∷ []
spell _ (set_log_file t) = codes "--log-file" ∷ t ∷ []
spell true (set_options t) = codes "-o" ∷ t ∷ []
spell _ (set_options t) = codes "--options" ∷ t ∷ []
spell true (set_format t) = codes "-f" ∷ t ∷ []
spell _ (set_format t) = codes "--format" ∷ t ∷ []

unfoldable pub spell_all : List (Bool × Setting) → List Text
unfolding spell
spell_all [] = []
spell_all ((short, setting) ∷ settings) = spell short setting ++ spell_all settings

-- What an option changes.
unfoldable pub apply : Arguments → Setting → Arguments
apply arguments ask_help = record arguments { print_help = true }
apply arguments ask_stop = record arguments { stop_daemon = true }
apply arguments ask_verbose = record arguments { log_enabled = true }
apply arguments (set_log_file t) = record arguments { log_file_path = t }
apply arguments (set_options t) = record arguments { log_options = t }
apply arguments (set_format t) = record arguments { format = t }

unfoldable pub apply_all : Arguments → List (Bool × Setting) → Arguments
unfolding apply
apply_all arguments [] = arguments
apply_all arguments ((short, setting) ∷ settings) = apply_all (apply arguments setting) settings

concat-join : (strings : List Text) → concat_strings_with_spaces strings ≡ join (codes " ") strings
unfolding concat_strings_with_spaces join
concat-join [] = refl
concat-join (s ∷ []) = refl
concat-join (s ∷ t ∷ strings) =
    append_assoc s (codes " ") (concat_strings_with_spaces (t ∷ strings))
    ∙ ap (λ x. s ++ (codes " " ++ x)) (concat-join (t ∷ strings))

-- concat_strings_with_spaces of one string or more joins them with single spaces, and what it
-- writes, with the zero at the end, is exactly as long as what it allocates.
concat_strings_with_spaces-fits :
    (s : Text) (strings : List Text)
    → (concat_strings_with_spaces (s ∷ strings) ≡ join (codes " ") (s ∷ strings))
      × (length (concat_strings_with_spaces (s ∷ strings)) + 1 ≡ size_of_concat (s ∷ strings))
unfolding concat_strings_with_spaces size_of_concat
concat_strings_with_spaces-fits s [] = (concat-join (s ∷ []), omega arith)
concat_strings_with_spaces-fits s (t ∷ strings) = (
  concat-join (s ∷ t ∷ strings),
  omega (
    arith,
    length-append (s ++ codes " ") (concat_strings_with_spaces (t ∷ strings)),
    length-append s (codes " "),
    (concat_strings_with_spaces-fits t strings).1,
  ),
)

parse_loop-spell :
    (short : Bool) (setting : Setting) (a : Arguments) (rest : List Text)
    → parse_loop a (spell short setting ++ rest) ≡ parse_loop (apply a setting) rest
unfolding parse_loop keyword spell apply
parse_loop-spell true ask_help a [] = refl
parse_loop-spell true ask_help a (t ∷ rest) = refl
parse_loop-spell false ask_help a [] = refl
parse_loop-spell false ask_help a (t ∷ rest) = refl
parse_loop-spell true ask_stop a [] = refl
parse_loop-spell true ask_stop a (t ∷ rest) = refl
parse_loop-spell false ask_stop a [] = refl
parse_loop-spell false ask_stop a (t ∷ rest) = refl
parse_loop-spell true ask_verbose a [] = refl
parse_loop-spell true ask_verbose a (t ∷ rest) = refl
parse_loop-spell false ask_verbose a [] = refl
parse_loop-spell false ask_verbose a (t ∷ rest) = refl
parse_loop-spell true (set_log_file t) a rest = refl
parse_loop-spell false (set_log_file t) a rest = refl
parse_loop-spell true (set_options t) a rest = refl
parse_loop-spell false (set_options t) a rest = refl
parse_loop-spell true (set_format t) a rest = refl
parse_loop-spell false (set_format t) a rest = refl

parse_loop-word :
    (a : Arguments) (s : Text) (strings : List Text)
    → keyword s ≡ word
    → parse_loop a (s ∷ strings)
      ≡ record a { command = some (concat_strings_with_spaces (s ∷ strings)) }
unfolding parse_loop
parse_loop-word a s [] h = rw (h, parse_loop) refl
parse_loop-word a s (t ∷ strings) h = rw (h, parse_loop) refl

parse_loop-spell_all :
    (settings : List (Bool × Setting)) (a : Arguments) (s : Text) (strings : List Text)
    → keyword s ≡ word
    → parse_loop a (spell_all settings ++ (s ∷ strings))
      ≡ record (apply_all a settings) { command = some (concat_strings_with_spaces (s ∷ strings)) }
unfolding spell_all apply_all
parse_loop-spell_all [] a s strings h = parse_loop-word a s strings h
parse_loop-spell_all ((short, setting) ∷ settings) a s strings h =
    ap (parse_loop a) (append_assoc (spell short setting) (spell_all settings) (s ∷ strings))
    ∙ parse_loop-spell short setting a (spell_all settings ++ (s ∷ strings))
    ∙ parse_loop-spell_all settings (apply a setting) s strings h

-- Any sequence of options in either spelling, followed by words of which the first spells no
-- option, is read as these options, a later one replacing an earlier one of its kind, and as the
-- command that joins all the words with spaces, those that look like options too.
pub parse_arguments-spell_all :
    (settings : List (Bool × Setting)) (s : Text) (strings : List Text)
    → keyword s ≡ word
    → parse_arguments (spell_all settings ++ (s ∷ strings))
      ≡ record (apply_all default_arguments settings) {
        command = some (join (codes " ") (s ∷ strings));
      }
unfolding parse_arguments
parse_arguments-spell_all settings s strings h =
    parse_loop-spell_all settings default_arguments s strings h
    ∙ ap (λ x. record (apply_all default_arguments settings) { command = some x })
        (concat-join (s ∷ strings))
