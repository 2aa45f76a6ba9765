-- ===== src/Daemon/Life.antt =====
-- What a daemon makes when it begins and removes when it ends: initialize_daemon,
-- acquire_lock_or_exit and finalize_daemon of src/daemon/daemon.c.
pub mod History
use command_stats.Common.{
  ℕ, Bool, true, false, List, [], ◌∷◌, Option, none, some, if◌then◌else◌, ◌==◌,
}

-- What processes share: the lock file by its inode, who holds the lock, whether the named pipe
-- exists, and the message queues by their keys. `message_queue_id` is the variable of
-- run_daemon_main in the process that holds the lock.
pub record Shared : Type 0 where
  pub lock_file : Option ℕ
  pub holder : Option ℕ
  pub fifo : Bool
  pub queues : List ℕ
  pub message_queue_id : ℕ

-- ftok is the C library's: the key for a file, by its inode, and a number.
abbrev pub Ftok : Type 0
Ftok = ℕ → ℕ → ℕ

abbrev pub has : ℕ → List ℕ → Bool
has k [] = false
has k (x ∷ xs) = if k == x then true else has k xs

abbrev pub without : ℕ → List ℕ → List ℕ
without k [] = []
without k (x ∷ xs) = let rest = without k xs in if k == x then rest else x ∷ rest

-- msgget with IPC_CREAT
abbrev pub create_queue : ℕ → List ℕ → List ℕ
create_queue k ks = if has k ks then ks else k ∷ ks

-- The inode that a new lock file is given, and whether the lock file can be opened, the queue
-- obtained and the pipe made.
pub record Begin : Type 0 where
  pub new_inode : ℕ
  pub lock_opens : Bool
  pub queue_opens : Bool
  pub fifo_made : Bool

-- A process goes on, or exits with a status; its exit releases its lock.
pub data Step : Type 0 where
  goes : Shared → Step
  exits : ℕ → Shared → Step

infixl 5 ◌>>=◌
abbrev pub ◌>>=◌ : Step → (Shared → Step) → Step
goes s >>= f = f s
exits status s >>= f = exits status s

abbrev pub release : Shared → Shared
release s = record s { holder = none }

-- open with O_CREAT
abbrev pub opened : Begin → Option ℕ → ℕ
opened b none = b.new_inode
opened b (some inode) = inode

-- acquire_lock_or_exit of process `pid`
unfoldable pub acquire_lock_or_exit : Begin → ℕ → Shared → Step
acquire_lock_or_exit b pid s =
    let file = some (opened b s.lock_file) in
    if b.lock_opens
    then (elim s.holder [
      | some other ↦ exits 0 (record s { lock_file = file })
      | none ↦ goes (record s { lock_file = file; holder = some pid })
    ])
    else exits 1 s

-- get_message_queue_id (getpid ()), which initialize_daemon returns
unfoldable pub make_queue : Ftok → Begin → ℕ → Shared → Step
make_queue ftok b pid s = elim s.lock_file [
  | none ↦ exits 1 (release s)
  | some inode ↦
      let key = ftok inode pid in
      if b.queue_opens
      then goes (record s { queues = create_queue key s.queues; message_queue_id = key })
      else exits 1 (release s)
]

-- unlink and my_mkfifo
unfoldable pub make_fifo : Begin → Shared → Step
make_fifo b s =
    if b.fifo_made
    then goes (record s { fifo = true })
    else exits 1 (release (record s { fifo = false }))

unfoldable pub initialize_daemon : Ftok → Begin → ℕ → Shared → Step
unfolding acquire_lock_or_exit make_queue make_fifo
initialize_daemon ftok b pid s =
    acquire_lock_or_exit b pid s >>= λ s1. make_queue ftok b pid s1 >>= λ s2. make_fifo b s2

-- my_msgctl or my_unlink of something that may be gone
abbrev pub remove : Bool → Shared → Shared → Step
remove present before after = if present then goes after else exits 1 (release before)

abbrev pub exists : Option ℕ → Bool
exists none = false
exists (some inode) = true

-- finalize_daemon, and exit (0) of run_daemon_main behind it
unfoldable pub finalize_daemon : ℕ → Shared → Step
finalize_daemon message_queue_id s =
    remove (has message_queue_id s.queues) s
      (record s { queues = without message_queue_id s.queues })
    >>= λ s1. remove s1.fifo s1 (record s1 { fifo = false }) >>= λ s2.
        remove (exists s2.lock_file) s2 (record s2 { lock_file = none }) >>= λ s3.
        exits 0 (release s3)

-- What becomes of daemons: one begins, the one that runs is stopped, or it is killed.
pub data Event : Type 0 where
  begins : Begin → ℕ → Event
  stopped : Event
  killed : Event

abbrev pub after : Step → Shared
after (goes s) = s
after (exits status s) = s

unfoldable pub happen : Ftok → Event → Shared → Shared
unfolding initialize_daemon finalize_daemon
happen ftok (begins b pid) s = after (initialize_daemon ftok b pid s)
happen ftok stopped s = elim s.holder [
  | none ↦ s
  | some pid ↦ after (finalize_daemon s.message_queue_id s)
]
happen ftok killed s = release s

unfoldable pub history : Ftok → List Event → Shared → Shared
unfolding happen
history ftok [] s = s
history ftok (e ∷ es) s = history ftok es (happen ftok e s)
