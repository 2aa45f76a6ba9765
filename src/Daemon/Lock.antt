-- ===== src/Daemon/Lock.antt =====
-- How a run of the tool finds the daemon: the lock that the daemon holds on its lock file
-- (src/daemon/daemon_socket.c), with the start of a daemon (src/daemon/daemonize.c and start_daemon
-- of src/daemon/daemon.c).
pub mod Attempts
use command_stats.Common.{ℕ, zero, suc, ◌+◌, Bool, true, false, Option, none, some, if◌then◌else◌}
use command_stats.Syscalls.{my_kill}
use command_stats.Common.Outcome.{Outcome, done, exited, ◌>>=◌}

-- the l_type of a struct flock
pub data LockType : Type 0 where
  write_lock unlocked : LockType

-- struct flock; `none` in l_pid is -1
pub record Flock : Type 0 where
  pub l_type : LockType
  pub l_pid : Option ℕ

abbrev pub get_flock_for_lock : Flock
get_flock_for_lock = record { l_type = write_lock; l_pid = none }

-- The system at the n-th time that the lock file is opened: whether that succeeds, and what fcntl
-- with F_GETLK makes of a struct.
pub record LockFile : Type 0 where
  pub opens : ℕ → Bool
  pub getlk : ℕ → Flock → Flock

-- The loop of try_to_read_daemon_pid, by the attempts left; the struct is one for all rounds. The
-- second number counts how often the file has been opened.
unfoldable pub try_loop : ℕ → LockFile → Flock → ℕ → Option ℕ × ℕ
try_loop zero file lock asked = (none, asked)
try_loop (suc k) file lock asked = elim (file.opens asked) [
  | false ↦ try_loop k file lock (asked + 1)
  | true ↦
      let lock' = file.getlk asked (record lock { l_pid = none }) in
      elim lock'.l_pid [
        | some pid ↦ (some pid, asked + 1)
        | none ↦ try_loop k file lock' (asked + 1)
      ]
]

abbrev pub max_attempts : ℕ
max_attempts = 3

-- try_to_read_daemon_pid, `none` being FALSE
unfoldable pub try_to_read_daemon_pid : LockFile → ℕ → Option ℕ × ℕ
unfolding try_loop
try_to_read_daemon_pid file asked = try_loop max_attempts file get_flock_for_lock asked

-- what fork returns, in the process that goes on here
pub data ForkView : Type 0 where
  fork_failed in_parent in_child : ForkView

pub data DaemonizeResult : Type 0 where
  not_started success_parent success_daemon : DaemonizeResult

-- The system's answers in daemonize: getppid () == 1, the two forks, setsid and chdir.
pub record Session : Type 0 where
  pub father_is_init : Bool
  pub first_fork : ForkView
  pub setsid_fails : Bool
  pub chdir_fails : Bool
  pub second_fork : ForkView

-- the part of daemonize in the child of the first fork
unfoldable pub detach : Session → Outcome DaemonizeResult
detach s =
    if s.setsid_fails then exited 1 else if s.chdir_fails then exited 1 else (elim s.second_fork [
      | fork_failed ↦ exited 1
      | in_parent ↦ exited 0
      | in_child ↦ done success_daemon
    ])

-- `not_started` is FAILED; the descriptors and the file mask are not modelled.
unfoldable pub daemonize : Session → Outcome DaemonizeResult
unfolding detach
daemonize s = if s.father_is_init then done not_started else (elim s.first_fork [
  | fork_failed ↦ exited 1
  | in_parent ↦ done success_parent
  | in_child ↦ detach s
])

-- start_daemon: whether the daemon's main function is to be run.
unfoldable pub start_daemon : Session → Outcome Bool
unfolding daemonize
start_daemon s = daemonize s >>= λ result. elim result [
  | not_started ↦ exited 1
  | success_parent ↦ done false
  | success_daemon ↦ done true
]

-- The loop of read_daemon_pid, by the attempts left; the sessions are those of the daemons that it
-- starts, and the last attempt starts none. A process that has become the daemon runs
-- run_daemon_main, which ends with exit (0).
unfoldable pub read_loop : ℕ → LockFile → (ℕ → Session) → ℕ → Outcome (ℕ × ℕ)
unfolding try_to_read_daemon_pid start_daemon
read_loop zero file sessions asked = exited 1
read_loop (suc zero) file sessions asked =
    let (found, asked') = try_to_read_daemon_pid file asked in
    elim found [ some pid ↦ done (pid, asked') | none ↦ exited 1 ]
read_loop (suc (suc k)) file sessions asked =
    let (found, asked') = try_to_read_daemon_pid file asked in
    elim found [
      | some pid ↦ done (pid, asked')
      | none ↦ start_daemon (sessions asked') >>= λ is_daemon. (elim is_daemon [
        | true ↦ exited 0
        | false ↦ read_loop (suc k) file sessions asked'
      ])
    ]

unfoldable pub read_daemon_pid : LockFile → (ℕ → Session) → ℕ → Outcome (ℕ × ℕ)
unfolding read_loop
read_daemon_pid file sessions asked = read_loop max_attempts file sessions asked

-- stop_daemon: the pid to which SIGINT is sent, which is looked for a second time; `kill` is by the pid
unfoldable pub stop_daemon : (ℕ → Option ℕ) → LockFile → (ℕ → Session) → ℕ → Outcome ℕ
unfolding try_to_read_daemon_pid read_daemon_pid
stop_daemon kill file sessions asked =
    let (found, asked') = try_to_read_daemon_pid file asked in
    elim found [
      | none ↦ exited 1
      | some _ ↦
          read_daemon_pid file sessions asked' >>= λ (pid, _). my_kill (kill pid) >>= λ _. done pid
    ]
