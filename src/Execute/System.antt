-- ===== src/Execute/System.antt =====
-- The state of the running process, and the operating system's answers. Calls of the system that
-- answer nothing the process reads are kept as a record of calls.
use command_stats.Common.{
  ℕ, ◌+◌, Bool, false, ◌&&◌, List, [], ◌∷◌, ◌++◌, Option, none, some, ◌==◌, if◌then◌else◌,
}
use command_stats.Common.Distinct.{has}
use command_stats.Common.Outcome.{Outcome, done, exited}
use command_stats.Structs.Stream.{
  Direction, FileStream, Stream, file_descriptor_stream, file_stream, pipe_stream, PipeStream,
}
use command_stats.Structs.Node.{Timespec, Timeval, ExecutionResult}

-- fork: the child's branch is the child's own run, so the parent sees a failure or a pid.
pub data ForkResult : Type 0 where
  failed : ForkResult
  child : ℕ → ForkResult

-- What wait3 writes: the pid it returns (the bit pattern of the int, so also that of -1), the
-- status, and the fields of struct rusage that are read.
pub record WaitResult : Type 0 where
  pub pid : ℕ
  pub status : ℕ
  pub ru_utime : Timeval
  pub ru_stime : Timeval
  pub ru_maxrss : ℕ

-- The system, asked for the n-th time; and the macros of sys/wait.h.
pub record System : Type 0 where
  pub fork_result : ℕ → ForkResult
  pub clock : ℕ → Timespec
  pub open_file : ℕ → FileStream → Option ℕ
  pub wait3 : ℕ → WaitResult
  pub wifexited : ℕ → Bool
  pub wexitstatus : ℕ → ℕ

-- A file descriptor: a number, or an end of a pipe.
pub data Descriptor : Type 0 where
  numbered : ℕ → Descriptor
  pipe_end : PipeStream → Direction → Descriptor

pub data Call : Type 0 where
  pipe_call : PipeStream → Call
  close_call : Descriptor → Call
  fork_child : ℕ → Call
  fork_appender : Call

-- The process: the static variables of execute.c, the pipes whose `initialized` is set, how often
-- the system has been asked, and the calls made.
pub record Machine : Type 0 where
  pub to_wait : ℕ
  pub open_appender_fds : List PipeStream
  pub initialized : List PipeStream
  pub asked : ℕ
  pub calls : List Call

abbrev pub call : Call → Machine → Machine
call c m = record m { calls = m.calls ++ c ∷ [] }

abbrev pub ask : Machine → Machine
ask m = record m { asked = m.asked + 1 }

-- open_pipe_if_needed; the `file_descriptor` that it writes is the end of the pipe that the stream is
-- for (Structs.Stream).
unfoldable pub open_pipe_if_needed : Stream → Machine → Machine
open_pipe_if_needed (pipe_stream p direction) m =
    if has p m.initialized
    then m
    else call (pipe_call p) (record m { initialized = p ∷ m.initialized })
open_pipe_if_needed (file_descriptor_stream fd) m = m
open_pipe_if_needed (file_stream f) m = m

-- The descriptor of a stream in the parent, after open_pipe_if_needed and open_redirect_file_if_needed;
-- opening a file may fail, and then the program exits.
unfoldable pub open_redirect_file_if_needed :
    System → Stream → Machine → Outcome (Descriptor × Machine)
open_redirect_file_if_needed sys (file_stream f) m = elim (sys.open_file m.asked f) [
  | none ↦ exited 1
  | some fd ↦ done (numbered fd, ask m)
]
open_redirect_file_if_needed sys (file_descriptor_stream fd) m = done (numbered fd, m)
open_redirect_file_if_needed sys (pipe_stream p direction) m = done (pipe_end p direction, m)

-- create_execution_result
unfoldable pub create_execution_result : System → Machine → ExecutionResult × Machine
create_execution_result sys m = (
  record {
    invocation_failed = false;
    exit_code = none;
    start_time = sys.clock m.asked;
    end_time = none;
    user_cpu_time_used = none;
    system_cpu_time_used = none;
    maximum_resident_set_size = none;
  },
  ask m,
)

-- WIFEXITED (status) && WEXITSTATUS (status) == 0
abbrev pub exited_correctly : System → ℕ → Bool
exited_correctly sys status = sys.wifexited status && sys.wexitstatus status == 0
