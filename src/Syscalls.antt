-- ===== src/Syscalls.antt =====
-- The wrappers of src/common/syscalls_wrappers.c around calls of the system. The argument is what
-- the call returned, `none` for -1; its own arguments stand where the system is asked.
use command_stats.Common.{Option, none, some}
use command_stats.Common.Outcome.{Outcome, done, exited}

-- syscall_fail and program_fail print a message and call exit (1).
abbrev pub syscall_fail {ℓ} : {A : Type ℓ} → Outcome A
syscall_fail = exited 1

abbrev pub my_open {ℓ} : {A : Type ℓ} → Option A → Outcome A
my_open none = syscall_fail
my_open (some fd) = done fd

abbrev pub my_kill {ℓ} : {A : Type ℓ} → Option A → Outcome A
my_kill none = syscall_fail
my_kill (some res) = done res

abbrev pub my_ftok {ℓ} : {A : Type ℓ} → Option A → Outcome A
my_ftok none = syscall_fail
my_ftok (some message_queue_key) = done message_queue_key

abbrev pub my_msgget {ℓ} : {A : Type ℓ} → Option A → Outcome A
my_msgget none = syscall_fail
my_msgget (some message_queue_id) = done message_queue_id

abbrev pub my_msgsnd {ℓ} : {A : Type ℓ} → Option A → Outcome A
my_msgsnd none = syscall_fail
my_msgsnd (some res) = done res
