-- ===== src/Parse/Redirect/Ends.antt =====
-- The reading of redirections ends, and the command without them is not longer.
use command_stats.Common.{
  ℕ, zero, suc, ◌+◌, ◌≤◌, ◌<◌, ◌≡◌, ◌∙◌, sym, ap, some, arith, length, drop, Option-cases,
  Bool-cases, inl, inr, length-take, length-drop,
}
use command_stats.Common.Outcome.{done, fault, Ends, done-injective}
use command_stats.Common.Text.{Text}
use command_stats.Regex.{Regexec, Match, Span, create_string_from_match}
use command_stats.Parse.Redirect.{
  RedirectSplit, match_redirect_and_file_name_if_last, create_redirect_with_command_from_string,
  set_redirect, fill_redirect_with_redirects_and_file_names, create_split_command_from_redirect,
}

-- What POSIX says of regexec for redirections at the end: a file name, which may be empty, ends
-- behind the sign in front of it, inside the text.
abbrev pub EndsBehindSign : Regexec → Type 0
EndsBehindSign regexec =
    (t : Text) (m : Match) (s : Span)
    → regexec match_redirect_and_file_name_if_last t ≡ some m
    → m.sub 3 ≡ some s
    → (0 < s.rm_eo) × (s.rm_eo ≤ length t)

module _ (regexec : Regexec) (behind : EndsBehindSign regexec) where
  fill-Ends :
      (k : ℕ) (split : RedirectSplit) (str : Text)
      → length str < k
      → Ends (fill_redirect_with_redirects_and_file_names k regexec split str)
  unfolding fill_redirect_with_redirects_and_file_names
  fill-Ends zero split str room = omega (arith, room)
  fill-Ends (suc k) split str room =
      elim (Option-cases (regexec match_redirect_and_file_name_if_last str)) [
        | inl e ↦ rw (e, fill_redirect_with_redirects_and_file_names) tt
        | inr (m, e) ↦ elim (Option-cases (m.sub 2)) [
          | inl e2 ↦ rw (e, fill_redirect_with_redirects_and_file_names) (rw e2 tt)
          | inr (redirect_type, e2) ↦ elim (Option-cases (m.sub 3)) [
            | inl e3 ↦ rw (e, fill_redirect_with_redirects_and_file_names) (rw e2 (rw e3 tt))
            | inr (file_name, e3) ↦
                let (some_bytes, inside) = behind str m file_name e e3 in
                rw (e, fill_redirect_with_redirects_and_file_names)
                  (rw e2 (
                    rw e3 (
                      fill-Ends k _ (drop file_name.rm_eo str) (
                        omega (arith, room, some_bytes, inside, length-drop file_name.rm_eo str)))))
          ]
        ]
      ]

  pub create_split_command-Ends :
      (str : Text) → Ends (create_split_command_from_redirect (length str + 2) regexec str)
  unfolding create_split_command_from_redirect
  create_split_command-Ends str =
      elim (Bool-cases (create_redirect_with_command_from_string regexec str).has_redirects) [
        | inl e ↦ rw e (fill-Ends (length str + 2) _ str (omega arith))
        | inr e ↦ rw e tt
      ]

set_redirect-command :
    (split : RedirectSplit) (t f : Text) → (set_redirect split t f).command ≡ split.command
unfolding set_redirect
set_redirect-command split t f = ground arith

fill-command :
    (k : ℕ) (regexec : Regexec) (split r : RedirectSplit) (str : Text)
    → fill_redirect_with_redirects_and_file_names k regexec split str ≡ done r
    → r.command ≡ split.command
unfolding fill_redirect_with_redirects_and_file_names
fill-command zero regexec split r str h = cc
fill-command (suc k) regexec split r str h =
    elim (Option-cases (regexec match_redirect_and_file_name_if_last str)) [
      | inl e ↦
          ap (λ (s : RedirectSplit). s.command)
            (sym (done-injective (rw (e, fill_redirect_with_redirects_and_file_names) at h)))
      | inr (m, e) ↦ elim (Option-cases (m.sub 2)) [
        | inl e2 ↦
            let bad : fault ≡ done r =
              rw e2 at (rw (e, fill_redirect_with_redirects_and_file_names) at h) in
            cc
        | inr (redirect_type, e2) ↦ elim (Option-cases (m.sub 3)) [
          | inl e3 ↦
              let bad : fault ≡ done r =
                rw e3 at (rw e2 at (rw (e, fill_redirect_with_redirects_and_file_names) at h)) in
              cc
          | inr (file_name, e3) ↦
              let next =
                set_redirect split (create_string_from_match str redirect_type)
                  (create_string_from_match str file_name) in
              fill-command k regexec next r (drop file_name.rm_eo str)
                (rw e3 at (rw e2 at (rw (e, fill_redirect_with_redirects_and_file_names) at h)))
              ∙ set_redirect-command split (create_string_from_match str redirect_type)
                  (create_string_from_match str file_name)
        ]
      ]
    ]

create_redirect-shorter :
    (regexec : Regexec) (str : Text)
    → length (create_redirect_with_command_from_string regexec str).command ≤ length str
unfolding create_redirect_with_command_from_string
create_redirect-shorter regexec str =
    elim (Option-cases (regexec match_redirect_and_file_name_if_last str)) [
      | inl e ↦ rw (e, create_redirect_with_command_from_string) (omega arith)
      | inr (m, e) ↦
          rw (e, create_redirect_with_command_from_string)
            (omega (arith, length-take m.whole.rm_so str))
    ]

pub create_split_command-shorter :
    (k : ℕ) (regexec : Regexec) (str : Text) (r : RedirectSplit)
    → create_split_command_from_redirect k regexec str ≡ done r
    → length r.command ≤ length str
unfolding create_split_command_from_redirect
create_split_command-shorter k regexec str r h =
    let split = create_redirect_with_command_from_string regexec str in
    let short = create_redirect-shorter regexec str in
    elim (Bool-cases split.has_redirects) [
      | inl e ↦
          omega (arith, short, ap (length {A = ℕ}) (fill-command k regexec split r str (rw e at h)))
      | inr e ↦
          omega (
            arith,
            short,
            ap (λ (s : RedirectSplit). length s.command) (done-injective (rw e at h)),
          )
    ]
