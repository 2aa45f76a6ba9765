-- ===== src/Execute/Child.antt =====
-- The child process of an executable (run_execute_executable_child of src/execute/execute.c): its
-- directory, its table of file descriptors, and how it ends. What a directory and an open file are
-- is up to the system.
pub mod Streams
pub mod Ends
use command_stats.Common.{
  ℕ, Bool, true, false, List, [], ◌∷◌, Option, none, some, ◌==◌, ◌||◌, if◌then◌else◌,
}
use command_stats.Common.Text.{Text}
use command_stats.Structs.Stream.{
  Direction, FileStream, Stream, file_descriptor_stream, file_stream, pipe_stream, PipeStream,
}
use command_stats.Structs.Node.{ExecutableNode}

-- `entry fd` is the open file of a descriptor.
pub record Process (Dir File : Type 0) : Type 0 where
  pub directory : Dir
  pub entry : ℕ → Option File

-- chdir, open with the flag and the mode 0666, whether execvp replaces the process, and the
-- descriptors of the pipes that the father has opened.
pub record ChildSystem (Dir File : Type 0) : Type 0 where
  pub chdir : Dir → Text → Option Dir
  pub open_file : Process Dir File → FileStream → Option (ℕ × File)
  pub execvp : Process Dir File → ExecutableNode → Bool
  pub descriptors : PipeStream → Direction → ℕ

-- The child goes on, or exits with a status, having sent SIGUSR1 to the father or not.
pub data Child {ℓ} (A : Type ℓ) : Type ℓ where
  going : A → Child A
  ended : Bool → ℕ → Child A

infixl 5 ◌>>=◌
abbrev pub ◌>>=◌ {ℓ κ} : {A : Type ℓ} {B : Type κ} → Child A → (A → Child B) → Child B
going a >>= f = f a
ended told status >>= f = ended told status

abbrev pub set_entry {ℓ} : {A : Type ℓ} → ℕ → A → (ℕ → A) → ℕ → A
set_entry fd file entry k = if fd == k then file else entry k

module _ {Dir File : Type 0} where
  unfoldable pub close : ℕ → Process Dir File → Process Dir File
  close fd p = record p { entry = set_entry fd none p.entry }

  -- dup2 (from, to), where `from` is open
  unfoldable pub dup2 : ℕ → ℕ → Process Dir File → Process Dir File
  dup2 from to p = record p { entry = set_entry to (p.entry from) p.entry }

  unfoldable pub change_dir_if_needed :
      ChildSystem Dir File → List Text → Process Dir File → Child (Process Dir File)
  change_dir_if_needed sys [] p = going p
  change_dir_if_needed sys (d ∷ cd) p = elim (sys.chdir p.directory d) [
    | none ↦ ended true 1
    | some directory ↦ change_dir_if_needed sys cd (record p { directory = directory })
  ]

  -- open_redirect_file_if_needed: the descriptor of the stream, and the process
  unfoldable pub open_redirect_file :
      ChildSystem Dir File → Stream → Process Dir File → Child (ℕ × Process Dir File)
  open_redirect_file sys (file_descriptor_stream fd) p = going (fd, p)
  open_redirect_file sys (pipe_stream pipe direction) p = going (sys.descriptors pipe direction, p)
  open_redirect_file sys (file_stream f) p = elim (sys.open_file p f) [
    | none ↦ ended false 1
    | some (fd, file) ↦ going (fd, record p { entry = set_entry fd (some file) p.entry })
  ]

  -- open_redirects_files_if_needed: the descriptors of the two streams, and the process
  abbrev pub open_redirects_files :
      ChildSystem Dir File → Stream → Stream → Process Dir File → Child ((ℕ × ℕ) × Process Dir File)
  open_redirects_files sys std_in std_out p = open_redirect_file sys std_in p >>= λ (from, p1).
      open_redirect_file sys std_out p1 >>= λ (to, p2). going ((from, to), p2)

  -- if (from != to) { close (to); dup2 (from, to); close (from); }
  unfoldable pub redirect : ℕ → ℕ → Process Dir File → Process Dir File
  unfolding close dup2
  redirect from to p = if from == to then p else close from (dup2 from to (close to p))

  -- the descriptors of `open_appender_fds` that are not among the two
  unfoldable pub close_appender_fds_except : ℕ → ℕ → List ℕ → Process Dir File → Process Dir File
  unfolding close
  close_appender_fds_except std_in std_out [] p = p
  close_appender_fds_except std_in std_out (fd ∷ fds) p =
      close_appender_fds_except std_in std_out fds
        (if fd == std_out || fd == std_in then p else close fd p)

  -- What run_execute_executable_child does between opening the files and execvp.
  unfoldable pub connect : ℕ → ℕ → List ℕ → Process Dir File → Process Dir File
  unfolding redirect close_appender_fds_except
  connect std_in std_out open_appender_fds p =
      close_appender_fds_except 0 1 open_appender_fds (redirect std_out 1 (redirect std_in 0 p))

  -- The process that runs the executable. exit (-1) gives the status 255.
  unfoldable pub run_execute_executable_child :
      ChildSystem Dir File
      → ExecutableNode
      → Stream
      → Stream
      → List ℕ
      → Process Dir File
      → Child (Process Dir File)
  unfolding change_dir_if_needed open_redirect_file connect
  run_execute_executable_child sys e std_in std_out open_appender_fds p =
      change_dir_if_needed sys e.cd p >>= λ p1.
      open_redirects_files sys std_in std_out p1 >>= λ ((from, to), p3).
      let p4 = connect from to open_appender_fds p3 in
      if sys.execvp p4 e then going p4 else ended true 255
