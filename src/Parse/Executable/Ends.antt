-- ===== src/Parse/Executable/Ends.antt =====
-- The reading of arguments ends.
use command_stats.Common.{
  ℕ, zero, suc, ◌+◌, ◌<◌, List, [], ◌∷◌, arith, length, drop, ◌==◌, Option-cases, Bool-cases, inl,
  inr, length-drop,
}
use command_stats.Common.Outcome.{Outcome, done, fault, Ends, bind-Ends}
use command_stats.Common.Text.{Text}
use command_stats.Regex.{Regexec, create_string_from_match, count_occurrences_of_regex}
use command_stats.Regex.Ends.{TakesBytes, count-Ends}
use command_stats.Parse.Executable.{
  clear_arguments, contains_byte, clear_loop, clear_argument, match_arguments, Arguments,
  match_to_use, overflows, take_argument, arguments_loop, start_arguments,
  create_executable_from_string,
}

path-Ends :
    {B : Type 0} (argv : List Text) (f : Text → List Text → B)
    → Ends (elim argv as (λ _. Outcome B) [ [] ↦ fault | ◌∷◌ path rest ↦ done (f path rest) ])
path-Ends [] f = tt
path-Ends (path ∷ rest) f = tt

module _ (regexec : Regexec) (clears : TakesBytes regexec clear_arguments) where
  clear_loop-Ends : (k : ℕ) (t res : Text) → length t < k → Ends (clear_loop k regexec t res)
  unfolding clear_loop
  clear_loop-Ends zero t res room = omega (arith, room)
  clear_loop-Ends (suc k) t res room = elim (Option-cases (regexec clear_arguments t)) [
    | inl e ↦ rw (e, clear_loop) tt
    | inr (m, e) ↦
        let (some_bytes, inside) = clears t m e in
        rw (e, clear_loop)
          (clear_loop-Ends k (drop m.whole.rm_eo t) _
            (omega (arith, room, some_bytes, inside, length-drop m.whole.rm_eo t)))
  ]

  clear_argument-Ends : (t : Text) → Ends (clear_argument (length t + 1) regexec t)
  unfolding clear_argument
  clear_argument-Ends t = elim (Bool-cases (contains_byte b'\\' t)) [
    | inl e ↦ rw (e, clear_argument) (clear_loop-Ends (length t + 1) t [] (omega arith))
    | inr e ↦ rw (e, clear_argument) tt
  ]

  module _ (takes : TakesBytes regexec match_arguments) where
    arguments_loop-Ends :
        (k count : ℕ) (a : Arguments)
        → length a.string < k
        → Ends (arguments_loop k regexec count a)
    unfolding arguments_loop take_argument
    arguments_loop-Ends zero count a room = omega (arith, room)
    arguments_loop-Ends (suc k) count a room = elim (Bool-cases (length a.argv == count)) [
      | inl e ↦ rw (e, arguments_loop) tt
      | inr e ↦ elim (Option-cases (regexec match_arguments a.string)) [
        | inl e' ↦ rw (e, arguments_loop) (rw e' tt)
        | inr (m, e') ↦ elim (Option-cases (match_to_use m)) [
          | inl e'' ↦ rw (e, arguments_loop) (rw e' (rw e'' tt))
          | inr ((s, quoted), e'') ↦
              let (some_bytes, inside) = takes a.string m e' in
              let text = create_string_from_match a.string s in
              rw (e, arguments_loop)
                (rw e' (
                  rw e'' (
                    bind-Ends (clear_argument (length text + 1) regexec text) _
                      (clear_argument-Ends text)
                      (λ argument h. elim (Bool-cases (overflows a s quoted argument)) [
                        | inl full ↦ rw full tt
                        | inr fits ↦ rw fits (
                            arguments_loop-Ends k count (take_argument a m s quoted text argument) (
                              omega (
                                arith,
                                room,
                                some_bytes,
                                inside,
                                length-drop m.whole.rm_eo a.string,
                              )))
                      ]))))
        ]
      ]
    ]

    pub create_executable-Ends :
        (string : Text) (beyond : List Text)
        → Ends (create_executable_from_string regexec string beyond)
    unfolding create_executable_from_string
    create_executable-Ends string beyond =
        bind-Ends
          (count_occurrences_of_regex (length string + length beyond + 2) regexec match_arguments
            string beyond)
          _
          (count-Ends regexec match_arguments takes (length string + length beyond + 2) string
            beyond (omega arith))
          (λ count h. elim (Bool-cases (count == 0)) [
            | inl e ↦ rw e tt
            | inr e ↦ rw e (
                bind-Ends
                  (arguments_loop (length string + 2) regexec count (start_arguments string)) _
                  (arguments_loop-Ends (length string + 2) count (start_arguments string)
                    (omega arith))
                  (λ a k. path-Ends a.argv _))
          ])
