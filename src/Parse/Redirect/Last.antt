-- ===== src/Parse/Redirect/Last.antt =====
-- Which redirections of a command are kept.
use command_stats.Common.{ℕ, suc, ◌≡◌, refl, ap, ◌∙◌, [], ◌∷◌, none, some, length, drop}
use command_stats.Common.Outcome.{done}
use command_stats.Common.Text.{Text}
use command_stats.Regex.{Regexec, Match, Span, create_string_from_match}
use command_stats.Parse.Redirect.{
  match_redirect_and_file_name_if_last, create_redirect_with_command_from_string, set_redirect,
  fill_redirect_with_redirects_and_file_names, create_split_command_from_redirect,
}

drop-end : (s : Text) → drop (length s) s ≡ []
drop-end [] = refl
drop-end (c ∷ cs) = drop-end cs

-- Where the file name of the match ends the command, as the expression asks by its `$`, and nothing
-- matches behind it, the command keeps the one redirection that the groups of the match name: of
-- several at the end of a command the last, since these groups stand for the last repetition.
create_split_command-one :
    (k : ℕ) (regexec : Regexec) (str : Text) (m : Match) (redirect_type file_name : Span)
    → regexec match_redirect_and_file_name_if_last str ≡ some m
    → m.sub 2 ≡ some redirect_type
    → m.sub 3 ≡ some file_name
    → file_name.rm_eo ≡ length str
    → regexec match_redirect_and_file_name_if_last [] ≡ none
    → create_split_command_from_redirect (suc (suc k)) regexec str
      ≡ done (
          set_redirect
            (create_redirect_with_command_from_string regexec str)
            (create_string_from_match str redirect_type)
            (create_string_from_match str file_name))
unfolding create_split_command_from_redirect
create_split_command-one k regexec str m redirect_type file_name found type_is name_is at_end
      nothing =
    rw
      (found, fill_redirect_with_redirects_and_file_names, create_redirect_with_command_from_string)
      (rw type_is (
        rw name_is (
          rw (ap (λ (n : ℕ). drop n str) at_end ∙ drop-end str)
            (rw nothing (rw (found, create_redirect_with_command_from_string))))))
