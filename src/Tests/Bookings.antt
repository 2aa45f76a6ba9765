-- ===== src/Tests/Bookings.antt =====
-- A run of the tool books its log with a daemon.
use command_stats.Common.{
  ◌*◌, ℕ, zero, suc, ◌+◌, ◌≡◌, refl, ap, Bool, true, false, List, [], ◌∷◌, Option, none, some,
  arith, length, if◌then◌else◌, ◌==◌, ◌++◌, ◌∙◌,
}
use command_stats.Common.Outcome.{done, fault, bind-eq-done, done-injective}
use command_stats.Common.Text.{Text, codes}
use command_stats.Copy.{bytes, Write, my_write, copy_stream}
use command_stats.Copy.Whole.{received, TakesAll}
use command_stats.Daemon.Message.{BookingInfo, max_log_path, strcpy, create_booking, read_booking}
use command_stats.Daemon.Message.Layout.{
  IsText, Writes, read_booking-create_booking, create_booking-overflow,
}
use command_stats.Daemon.Lock.{
  write_lock, unlocked, LockFile, max_attempts, try_to_read_daemon_pid, in_parent,
}
use command_stats.Daemon.Lock.Attempts.{
  IsGetlk, holder_at_first_open, try_to_read_daemon_pid-first_open,
}
use command_stats.Daemon.Serve.{
  Response, ok_new_file, Disk, DaemonState, write_log, handle_message, Received, message,
  interrupted, run_daemon_main,
}
use command_stats.Daemon.Serve.Answers.{booked, answered, senders, run_daemon_main-senders}
use command_stats.Daemon.Client.{Client, book_and_obtain_log_fd}
use command_stats.Daemon.Client.Booked.{arrives, book_and_obtain_log_fd-booked}
use command_stats.Daemon.Life.{Shared, Ftok, Begin, Event, begins, killed, history}

-- getcwd in a directory, into a buffer in which it fits
abbrev write_text : Text → List ℕ → List ℕ
write_text t [] = []
write_text [] (b ∷ buffer) = 0 ∷ buffer
write_text (c ∷ t) (b ∷ buffer) = c ∷ write_text t buffer

write_text-Writes : (t : Text) → Writes (write_text t) t
unfolding strcpy
write_text-Writes t [] h = ground arith
write_text-Writes [] (b ∷ buffer) h = refl
write_text-Writes (c ∷ t) (b ∷ buffer) h = rw (write_text-Writes t buffer (omega arith)) refl

abbrev home : Text
home = codes "/home"

abbrev log : Text
log = codes "a.log"

home-IsText : IsText home
home-IsText = omega arith

log-IsText : IsText log
log-IsText = omega arith

read_booking-create_booking_example :
    (info : BookingInfo) × (create_booking 5 (write_text home) log ≡ done info)
    × (read_booking info ≡ done (home, log))
    × (info.pid ≡ 5)
    × (length info.log_path ≡ max_log_path)
read_booking-create_booking_example =
    read_booking-create_booking 5 (write_text home) home log (write_text-Writes home) home-IsText
      log-IsText (omega arith)

-- a name of n letters
unfoldable letters : ℕ → Text
letters zero = []
letters (suc n) = 97 ∷ letters n

length-letters : (n : ℕ) → length (letters n) ≡ n
unfolding letters
length-letters zero = refl
length-letters (suc n) = omega (arith, length-letters n)

create_booking-overflow_example : create_booking 5 (write_text home) (letters 4100) ≡ fault
create_booking-overflow_example =
    create_booking-overflow 5 (write_text home) home (letters 4100) (write_text-Writes home)
      home-IsText (omega arith) (omega (arith, length-letters 4100))

-- a lock file that can be opened, whose lock these processes hold
abbrev locked_by : (ℕ → Option ℕ) → LockFile
locked_by holder = record {
  opens = λ n. true;
  getlk = λ n lock. elim lock.l_type [
    | write_lock ↦ elim (holder n) [
      | some pid ↦ record lock { l_pid = some pid }
      | none ↦ record lock { l_type = unlocked }
    ]
    | unlocked ↦ lock
  ];
}

locked_by-IsGetlk : (holder : ℕ → Option ℕ) → IsGetlk (locked_by holder) holder
locked_by-IsGetlk holder = record {
  held = λ n pid l h. rw h refl;
  free = λ n l h. rw h refl;
  refuses = λ n l. refl;
}

-- the daemon takes the lock after the first attempt
abbrev late : ℕ → Option ℕ
late n = if n == 0 then none else some 77

try_to_read_daemon_pid-first_open_example :
    (try_to_read_daemon_pid (locked_by late) 0).0
    ≡ holder_at_first_open max_attempts (locked_by late) late 0
try_to_read_daemon_pid-first_open_example =
    try_to_read_daemon_pid-first_open (locked_by late) late (locked_by-IsGetlk late) 0

-- that holder
nobody_found : holder_at_first_open max_attempts (locked_by late) late 0 ≡ none
unfolding holder_at_first_open
nobody_found = refl

abbrev takes_all : Write
takes_all out buffer = some (length buffer)

takes_all-TakesAll : TakesAll takes_all
takes_all-TakesAll out buffer = refl

abbrev disk : Disk
disk = record {
  chdir = λ n before there. there;
  exists = λ n there path. false;
  opens = λ n there path. true;
  fifo = λ n. some (bytes (codes "one") ∷ bytes (codes "two") ∷ []);
  write = λ n. takes_all;
}

abbrev fresh : DaemonState
fresh = record { cwd = codes "/"; handled = 0; signals = []; logs = [] }

abbrev first_booking : BookingInfo
first_booking = record {
  pid = 5;
  log_path = write_text home (47 ∷ 47 ∷ 47 ∷ 47 ∷ 47 ∷ 0 ∷ 97 ∷ 0 ∷ []);
}

abbrev second_booking : BookingInfo
second_booking = record { pid = 6; log_path = 47 ∷ 0 ∷ 98 ∷ 0 ∷ [] }

abbrev events : List (Received × Bool)
events = (message first_booking, false) ∷ (interrupted, false) ∷ (message second_booking, true) ∷ []

abbrev served : DaemonState
served = record {
  cwd = codes "/";
  handled = 2;
  signals = (5, ok_new_file) ∷ (6, ok_new_file) ∷ [];
  logs = ((home, codes "a"), codes "onetwo") ∷ ((codes "/", codes "b"), codes "onetwo") ∷ [];
}

events_served : run_daemon_main disk events fresh ≡ done served
unfolding run_daemon_main
events_served = refl

run_daemon_main-senders_example : answered served ≡ answered fresh ++ senders events
run_daemon_main-senders_example = run_daemon_main-senders disk events fresh served events_served

-- Its daemon is process 77, and the signal comes after two seconds.
abbrev client : Client
client = record {
  lock_file = locked_by (λ n. some 77);
  sessions = λ n. record {
    father_is_init = false;
    first_fork = in_parent;
    setsid_fails = false;
    chdir_fails = false;
    second_fork = in_parent;
  };
  pid = 5;
  getcwd = write_text home;
  ftok = λ daemon_pid. some (daemon_pid + 1000);
  msgget = λ key. some 1;
  msgsnd = λ id info. some 0;
  daemon_response = λ info. arrives 2 ok_new_file;
  open_fifo = some 8;
  kill = λ pid. some 0;
}

abbrev response_of : List (ℕ × Response) → Response
response_of [] = ok_new_file
response_of ((pid, response) ∷ later) = response

-- what the daemon sends of this disk
disk_answers :
    (info : BookingInfo) (st' : DaemonState) (r : Response)
    → handle_message disk info fresh ≡ done st'
    → st'.signals ≡ (5, r) ∷ []
    → client.daemon_response info ≡ arrives 2 r
unfolding handle_message write_log copy_stream my_write
disk_answers info st' r h e =
    let (texts, p, k) = bind-eq-done (read_booking info) _ h in
    let sent : (info.pid, ok_new_file) ∷ [] ≡ st'.signals =
      ap (λ st. st.signals) (done-injective k) in
    ap (arrives 2) (ap response_of (sent ∙ e))

book_and_obtain_log_fd-booked_example :
    (info : BookingInfo) × (handle_message disk info fresh
      ≡ done (booked disk fresh 5 home log (codes "onetwo")))
    × (book_and_obtain_log_fd 9 client log 0 ≡ done info)
unfolding received
book_and_obtain_log_fd-booked_example =
    book_and_obtain_log_fd-booked client (λ n. some 77) disk fresh home log
      (bytes (codes "one") ∷ bytes (codes "two") ∷ []) 0 77 1077 1 0 8 9 2
      (locked_by-IsGetlk (λ n. some 77)) refl refl refl refl (λ info. refl) (write_text-Writes home)
      home-IsText log-IsText (omega arith) refl takes_all-TakesAll disk_answers (omega arith) refl

abbrev works : Begin
works = record { new_inode = 5; lock_opens = true; queue_opens = true; fifo_made = true }

abbrev nothing_shared : Shared
nothing_shared = record {
  lock_file = none;
  holder = none;
  fifo = false;
  queues = [];
  message_queue_id = 0;
}

abbrev key_of : Ftok
key_of inode number = inode * 1000 + number

-- A daemon is killed, and another begins. The queue of the one that was killed is still there.
abbrev past : List Event
past = begins works 70 ∷ killed ∷ begins works 71 ∷ begins works 72 ∷ []

abbrev present : Shared
present = history key_of past nothing_shared
