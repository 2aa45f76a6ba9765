-- ===== src/Execute/Child/Ends.antt =====
-- How the child of an executable ends, or goes on as the executable.
use command_stats.Common.{
  ℕ, Bool, ◌≡◌, ◌≢◌, refl, ◌∙◌, true, false, arith, List, [], ◌∷◌, Option, none, some, ◌⊎◌, inl,
  inr, Option-cases,
}
use command_stats.Common.Text.{Text}
use command_stats.Structs.Stream.{FileStream, Stream, file_stream}
use command_stats.Structs.Node.{ExecutableNode}
use command_stats.Execute.Child.{
  Process, ChildSystem, Child, going, ended, change_dir_if_needed, open_redirect_file, connect,
  run_execute_executable_child,
}
use command_stats.Execute.Child.Streams.{IsConnected, connect-IsConnected, connect-directory}

Child-cases {ℓ} :
    {A : Type ℓ} (r : Child A)
    → ((a : A) × (r ≡ going a)) ⊎ ((told : Bool) × (status : ℕ) × (r ≡ ended told status))
Child-cases (going a) = inl (a, refl)
Child-cases (ended told status) = inr (told, status, refl)

module _ {Dir File : Type 0} where
  -- the directory in which the `cd` commands end, where each of them succeeds
  unfoldable pub enter : ChildSystem Dir File → List Text → Dir → Option Dir
  enter sys [] directory = some directory
  enter sys (d ∷ cd) directory = elim (sys.chdir directory d) [
    | none ↦ none
    | some below ↦ enter sys cd below
  ]

  change_dir_if_needed-enter :
      (sys : ChildSystem Dir File) (cd : List Text) (p : Process Dir File) (directory : Dir)
      → enter sys cd p.directory ≡ some directory
      → change_dir_if_needed sys cd p ≡ going (record p { directory = directory })
  unfolding enter change_dir_if_needed
  change_dir_if_needed-enter sys [] p directory h = ground arith
  change_dir_if_needed-enter sys (d ∷ cd) p directory h =
      elim (Option-cases (sys.chdir p.directory d)) [
        | inl e ↦ ground (arith, e)
        | inr (below, e) ↦
            rw (e, change_dir_if_needed)
              (change_dir_if_needed-enter sys cd (record p { directory = below }) directory
                (rw (e, enter) at h))
      ]

  change_dir_if_needed-told :
      (sys : ChildSystem Dir File) (cd : List Text) (p : Process Dir File) (status : ℕ)
      → change_dir_if_needed sys cd p ≢ ended false status
  unfolding change_dir_if_needed
  change_dir_if_needed-told sys [] p status h = cc
  change_dir_if_needed-told sys (d ∷ cd) p status h =
      elim (Option-cases (sys.chdir p.directory d)) [
        | inl e ↦ ground (arith, e, h)
        | inr (below, e) ↦
            change_dir_if_needed-told sys cd (record p { directory = below }) status
              (rw (e, change_dir_if_needed) at h)
      ]

  open_redirect_file-ended :
      (sys : ChildSystem Dir File) (s : Stream) (p : Process Dir File) {told : Bool} {status : ℕ}
      → open_redirect_file sys s p ≡ ended told status
      → (f : FileStream) × (s ≡ file_stream f) × (sys.open_file p f ≡ none) × (status ≡ 1)
  unfolding open_redirect_file
  open_redirect_file-ended sys (file_stream f) p {told} {status} h =
      elim (Option-cases (sys.open_file p f)) [
        | inl e ↦ (f, refl, e, ground (arith, e, h))
        | inr (file, e) ↦ ground (arith, e, h)
      ]
  open_redirect_file-ended sys _ p h = cc

  open_redirect_file-directory :
      (sys : ChildSystem Dir File) (s : Stream) (p : Process Dir File) {fd : ℕ}
      {q : Process Dir File}
      → open_redirect_file sys s p ≡ going (fd, q)
      → q.directory ≡ p.directory
  unfolding open_redirect_file
  open_redirect_file-directory sys (file_stream f) p {fd} {q} h =
      elim (Option-cases (sys.open_file p f)) [
        | inl e ↦ ground (arith, e, h)
        | inr (file, e) ↦ ground (arith, e, h)
      ]
  open_redirect_file-directory sys _ p h = ground (arith, h)

  -- Where every `cd` works, the streams have the descriptors `from` and `to`, which differ, and `to`
  -- is not 0, the child executes the program in the directory of the `cd`s, reading from and writing
  -- to the files of the two descriptors.
  pub run_execute_executable_child-IsConnected :
      (sys : ChildSystem Dir File) (e : ExecutableNode) (std_in std_out : Stream) (fds : List ℕ)
      (p p2 p3 : Process Dir File) (directory : Dir) (from to : ℕ)
      → enter sys e.cd p.directory ≡ some directory
      → open_redirect_file sys std_in (record p { directory = directory }) ≡ going (from, p2)
      → open_redirect_file sys std_out p2 ≡ going (to, p3)
      → from ≢ to
      → to ≢ 0
      → ((q : Process Dir File) → sys.execvp q e ≡ true)
      → (q : Process Dir File) × (run_execute_executable_child sys e std_in std_out fds p ≡ going q)
        × (q.directory ≡ directory)
        × IsConnected from to fds p3 q
  unfolding run_execute_executable_child
  run_execute_executable_child-IsConnected sys e std_in std_out fds p p2 p3 directory from to cd
        opens_in opens_out ne nz runs =
      let q = connect from to fds p3 in
      (
        q,
        rw
            (
              run_execute_executable_child,
              change_dir_if_needed-enter sys e.cd p directory cd,
              opens_in,
              opens_out,
              runs q,
            )
            refl,
        connect-directory from to fds p3
            ∙ open_redirect_file-directory sys std_out p2 opens_out
            ∙ open_redirect_file-directory sys std_in (record p { directory = directory }) opens_in,
        connect-IsConnected from to fds p3 ne nz,
      )

  -- A child that ends without having told the father has not been able to open the file of a redirect.
  pub run_execute_executable_child-ended :
      (sys : ChildSystem Dir File) (e : ExecutableNode) (std_in std_out : Stream) (fds : List ℕ)
      (p : Process Dir File) (status : ℕ)
      → run_execute_executable_child sys e std_in std_out fds p ≡ ended false status
      → (f : FileStream) × (q : Process Dir File) × ((std_in ≡ file_stream f)
          ⊎ (std_out ≡ file_stream f))
        × (sys.open_file q f ≡ none)
        × (status ≡ 1)
  unfolding run_execute_executable_child
  run_execute_executable_child-ended sys e std_in std_out fds p status h =
      elim (Child-cases (change_dir_if_needed sys e.cd p)) [
        | inr (told, st, c) ↦ ground (arith, c, change_dir_if_needed-told sys e.cd p status, h)
        | inl (p1, c) ↦ elim (Child-cases (open_redirect_file sys std_in p1)) [
          | inr (told, st, o) ↦
              let (f, s, no_file, one) = open_redirect_file-ended sys std_in p1 o in
              (f, p1, inl s, no_file, ground (arith, c, o, h, one))
          | inl ((from, p2), o) ↦ elim (Child-cases (open_redirect_file sys std_out p2)) [
            | inr (told, st, w) ↦
                let (f, s, no_file, one) = open_redirect_file-ended sys std_out p2 w in
                (f, p2, inr s, no_file, ground (arith, c, o, w, h, one))
            | inl ((to, p3), w) ↦ ground (arith, c, o, w, h)
          ]
        ]
      ]
