-- ===== src/Parse/Tree/Ends.antt =====
-- The parser ends: fuel above the length of the command is enough.
use mathlib.Core.Path.{subst}
use command_stats.Common.{
  ℕ, zero, suc, ◌+◌, ◌-◌, ◌≤◌, ◌<◌, ◌≡◌, Bool, true, false, List, [], ◌∷◌, Option, none, some,
  arith, length, drop, ltb, ltb→lt, All, Option-cases, Bool-cases, inl, inr, length-take,
  length-drop,
}
use command_stats.Common.Outcome.{
  Outcome, done, fault, ◌>>=◌, Ends, bind-Ends, bind-eq-done, done-injective,
}
use command_stats.Common.Int.{pos}
use command_stats.Common.Text.{Text}
use command_stats.Regex.{
  Regexec, Span, create_string_from_match, count_occurrences_of_regex, split_obfuscated_string,
}
use command_stats.Regex.PastTheEnd.{MatchesEnd}
use command_stats.Regex.Ends.{
  TakesBytes, GroupTakesBytes, count-Ends, extent, split_loop-Ends, split_loop-extent,
  piece_shorter,
}
use command_stats.Structs.Node.{Operator, operands}
use command_stats.Parse.Brackets.{
  keep_brackets, remove_brackets_if_alone, match_string_inside_brackets_if_alone, is_broken,
  obfuscate_brackets_in_string,
}
use command_stats.Parse.Brackets.Masking.{length-obfuscate}
use command_stats.Parse.Operators.{
  executable_separator, create_split_for_operator, create_split-executable,
}
use command_stats.Parse.Redirect.{create_split_command_from_redirect}
use command_stats.Parse.Redirect.Ends.{
  EndsBehindSign, create_split_command-Ends, create_split_command-shorter,
}
use command_stats.Parse.Executable.{clear_arguments, match_arguments, create_executable_from_string}
use command_stats.Parse.Executable.Ends.{create_executable-Ends}
use command_stats.Parse.Tree.{
  Environment, create_node, priority_map, Parsed, find_entry, parse_executable,
  create_nodes_from_strings, create_node_from_string,
}

-- What POSIX says of regexec for the expressions of the parser: those of the operators, of arguments
-- and of escapes do not match the empty text, and "($)" matches at the end.
pub record IsRegexec (regexec : Regexec) : Type 0 where
  pub operators :
      All
        (λ (op, separator). TakesBytes regexec separator × GroupTakesBytes regexec separator 1)
        priority_map
  pub executable : MatchesEnd regexec executable_separator
  pub arguments : TakesBytes regexec match_arguments
  pub escapes : TakesBytes regexec clear_arguments
  pub redirects : EndsBehindSign regexec

-- the pieces of an operator that is found, shorter than the text
abbrev AreShorter : ℕ → Option (Operator × List Text) → Type 0
AreShorter bound none = Unit
AreShorter bound (some (op, pieces)) = All (λ p. length p < bound) pieces

module _ (env : Environment) (next : ℕ) (string : Text) where
  split-Ends :
      (separator : Text)
      → TakesBytes env.regexec separator
      → GroupTakesBytes env.regexec separator 1
      → Ends (create_split_for_operator env.regexec string separator (env.behind next string))
  unfolding create_split_for_operator split_obfuscated_string
  split-Ends separator takes group_takes =
      let obs = obfuscate_brackets_in_string string in
      let beyond = env.behind next string in
      bind-Ends
        (count_occurrences_of_regex (suc (length string + length beyond + 1)) env.regexec separator
          obs beyond)
        _
        (count-Ends env.regexec separator takes (suc (length string + length beyond + 1)) obs beyond
          (omega (arith, length-obfuscate (pos 0) string)))
        (λ count h. split_loop-Ends env.regexec separator 1 group_takes (count + 1) obs string)

  split-extent :
      (separator : Text) (pieces : List Text)
      → GroupTakesBytes env.regexec separator 1
      → create_split_for_operator env.regexec string separator (env.behind next string)
        ≡ done pieces
      → extent pieces ≤ length string + 1
  unfolding create_split_for_operator split_obfuscated_string
  split-extent separator pieces group_takes h =
      let (count, e, k) =
        bind-eq-done
          (count_occurrences_of_regex (suc (length string + length (env.behind next string) + 1))
            env.regexec separator (obfuscate_brackets_in_string string) (env.behind next string))
          _ h in
      split_loop-extent env.regexec separator 1 group_takes (count + 1)
        (obfuscate_brackets_in_string string) string pieces (length-obfuscate (pos 0) string) k

  find_entry-Ends :
      (entries : List (Operator × Text))
      → All
          (λ (op, separator).
            TakesBytes env.regexec separator × GroupTakesBytes env.regexec separator 1)
          entries
      → Ends (find_entry env next string entries)
  unfolding find_entry
  find_entry-Ends [] all = tt
  find_entry-Ends ((op, separator) ∷ entries) all =
      bind-Ends (create_split_for_operator env.regexec string separator (env.behind next string)) _
        (split-Ends separator all.0.0 all.0.1)
        (λ pieces h. elim (Bool-cases (ltb 1 (length pieces))) [
          | inl e ↦ rw e tt
          | inr e ↦ rw e (find_entry-Ends entries all.1)
        ])

  find_entry-AreShorter :
      (entries : List (Operator × Text)) (r : Option (Operator × List Text))
      → All
          (λ (op, separator).
            TakesBytes env.regexec separator × GroupTakesBytes env.regexec separator 1)
          entries
      → find_entry env next string entries ≡ done r
      → AreShorter (length string) r
  unfolding find_entry
  find_entry-AreShorter [] r all h = subst (AreShorter (length string)) (done-injective h) tt
  find_entry-AreShorter ((op, separator) ∷ entries) r all h =
      let (pieces, e, k) =
        bind-eq-done
          (create_split_for_operator env.regexec string separator (env.behind next string)) _ h in
      elim (Bool-cases (ltb 1 (length pieces))) [
        | inl more ↦ subst (AreShorter (length string)) (done-injective (rw more at k)) (
            piece_shorter (length string) pieces (split-extent separator pieces all.0.1 e)
              (ltb→lt 1 (length pieces) more))
        | inr less ↦ find_entry-AreShorter entries r all.1 (rw less at k)
      ]

  parse_executable-Ends : IsRegexec env.regexec → Ends (parse_executable env next string)
  unfolding parse_executable
  parse_executable-Ends posix =
      let (rest, e) =
        create_split-executable env.regexec string (env.behind next string) posix.executable in
      rw (e, parse_executable)
        (bind-Ends (create_executable_from_string env.regexec string (env.behind next string)) _
          (create_executable-Ends env.regexec posix.escapes posix.arguments string
            (env.behind next string))
          (λ x h. tt))

keep_brackets-Ends : (again : Bool) (s : Text) → Ends (keep_brackets again s)
keep_brackets-Ends true s = tt
keep_brackets-Ends false s = tt

keep_brackets-shorter :
    (again : Bool) (s r : Text) → keep_brackets again s ≡ done r → length r ≤ length s
keep_brackets-shorter true s r h =
    subst (λ (t : Text). length t ≤ length s) (done-injective h) (omega arith)
keep_brackets-shorter false s r h = cc

module _ (regexec : Regexec) (again : Bool) (s : Text) where
  remove_brackets-Ends : Ends (remove_brackets_if_alone regexec again s)
  unfolding remove_brackets_if_alone
  remove_brackets-Ends = elim (Option-cases (regexec match_string_inside_brackets_if_alone s)) [
    | inl e ↦ rw (e, remove_brackets_if_alone) (keep_brackets-Ends again s)
    | inr (m, e) ↦ elim (Option-cases (m.sub 1)) [
      | inl e' ↦ rw (e, remove_brackets_if_alone) (rw e' tt)
      | inr (x, e') ↦
          rw (e, remove_brackets_if_alone)
            (rw e' (elim (Bool-cases (is_broken false 0 0 (create_string_from_match s x))) [
              | inl b ↦ rw b (keep_brackets-Ends again s)
              | inr b ↦ rw b tt
            ]))
    ]
  ]

  inside-shorter : (x : Span) → length (create_string_from_match s x) ≤ length s
  unfolding create_string_from_match
  inside-shorter x =
      omega (arith, length-take (x.rm_eo - x.rm_so) (drop x.rm_so s), length-drop x.rm_so s)

  remove_brackets-shorter :
      (r : Text) → remove_brackets_if_alone regexec again s ≡ done r → length r ≤ length s
  unfolding remove_brackets_if_alone
  remove_brackets-shorter r h =
      elim (Option-cases (regexec match_string_inside_brackets_if_alone s)) [
        | inl e ↦ keep_brackets-shorter again s r (rw (e, remove_brackets_if_alone) at h)
        | inr (m, e) ↦ elim (Option-cases (m.sub 1)) [
          | inl e' ↦
              let bad : fault ≡ done r = rw e' at (rw (e, remove_brackets_if_alone) at h) in cc
          | inr (x, e') ↦
              let k = rw e' at (rw (e, remove_brackets_if_alone) at h) in
              elim (Bool-cases (is_broken false 0 0 (create_string_from_match s x))) [
                | inl b ↦ keep_brackets-shorter again s r (rw b at k)
                | inr b ↦
                    subst (λ (t : Text). length t ≤ length s) (done-injective (rw b at k))
                      (inside-shorter x)
              ]
        ]
      ]

create_nodes-Ends :
    (create : ℕ → Text → Outcome Parsed) (pieces : List Text) (next bound : ℕ)
    → ((n : ℕ) (p : Text) → length p < bound → Ends (create n p))
    → All (λ p. length p < bound) pieces
    → Ends (create_nodes_from_strings create next pieces)
unfolding create_nodes_from_strings
create_nodes-Ends create [] next bound ends short = tt
create_nodes-Ends create (p ∷ ps) next bound ends short =
    bind-Ends (create next p) _ (ends next p short.0) (λ (n, next') h.
      bind-Ends (create_nodes_from_strings create next' ps) _
        (create_nodes-Ends create ps next' bound ends short.1) (λ r k. tt))

-- the node of the entry that is found
entry-Ends :
    (env : Environment) (next : ℕ) (string : Text) (k : ℕ) (entry : Option (Operator × List Text))
    → AreShorter (length string) entry
    → IsRegexec env.regexec
    → ((n : ℕ) (p : Text) → length p < length string → Ends (create_node_from_string k env n p))
    → Ends (elim entry as (λ _. Outcome Parsed) [
      | none ↦ parse_executable env next string
      | some (op, pieces) ↦
          create_nodes_from_strings (create_node_from_string k env) (next + 1) pieces
          >>= λ (ns, last). done (operands (create_node env next) op none ns, last)
    ])
entry-Ends env next string k none shorter posix ends = parse_executable-Ends env next string posix
entry-Ends env next string k (some (op, pieces)) shorter posix ends =
    bind-Ends (create_nodes_from_strings (create_node_from_string k env) (next + 1) pieces) _
      (create_nodes-Ends (create_node_from_string k env) pieces (next + 1) (length string) ends
        shorter)
      (λ r h. tt)

-- For a regexec as POSIX describes it, and with fuel above the length of the command, the parser does
-- not run out of fuel: it returns a tree, or exits, or touches memory that it must not.
pub create_node_from_string-Ends :
    (k : ℕ) (env : Environment) (next : ℕ) (raw_string : Text)
    → IsRegexec env.regexec
    → length raw_string < k
    → Ends (create_node_from_string k env next raw_string)
unfolding create_node_from_string
create_node_from_string-Ends zero env next raw_string posix room = omega (arith, room)
create_node_from_string-Ends (suc k) env next raw_string posix room =
    bind-Ends (create_split_command_from_redirect (length raw_string + 2) env.regexec raw_string) _
      (create_split_command-Ends env.regexec posix.redirects raw_string)
      (λ split h.
        bind-Ends (remove_brackets_if_alone env.regexec env.regfree_again split.command) _
          (remove_brackets-Ends env.regexec env.regfree_again split.command)
          (λ string h'.
            let short : length string ≤ k = omega (
              arith,
              room,
              remove_brackets-shorter env.regexec env.regfree_again split.command string h',
              create_split_command-shorter (length raw_string + 2) env.regexec raw_string split h,
            ) in
            bind-Ends (find_entry env next string priority_map) _
              (find_entry-Ends env next string priority_map posix.operators)
              (λ entry e.
                let shorter =
                  find_entry-AreShorter env next string priority_map entry posix.operators e in
                bind-Ends _ _
                  (entry-Ends env next string k entry shorter posix (λ n p lt.
                    create_node_from_string-Ends k env n p posix (omega (arith, short, lt))))
                  (λ r h''. tt))))
