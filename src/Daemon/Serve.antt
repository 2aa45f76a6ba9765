-- ===== src/Daemon/Serve.antt =====
-- What the daemon does with a message, its main loop (src/daemon/daemon.c), and what the tool does
-- with the answer (src/daemon/daemon_socket.c).
pub mod Answers
use command_stats.Common.{
  ℕ, zero, suc, ◌+◌, Bool, true, false, List, [], ◌∷◌, ◌++◌, Option, none, some, if◌then◌else◌,
}
use command_stats.Syscalls.{my_open}
use command_stats.Common.Outcome.{Outcome, done, exited, out_of_fuel, ◌>>=◌}
use command_stats.Common.Text.{Text}
use command_stats.Copy.{ReadResult, Write, copy_stream}
use command_stats.Daemon.Message.{BookingInfo, read_booking}

-- the signals of src/daemon/daemon_socket.h
pub data Response : Type 0 where
  ok_new_file ok_file_exists error_cant_write : Response

-- The system's answers when the n-th message is handled: the directory after chdir, which stays the
-- one before if that fails; access and open in a directory; the pipe (`none` if it cannot be opened);
-- and the writes to the log. The closes are of open files, and succeed.
pub record Disk : Type 0 where
  pub chdir : ℕ → Text → Text → Text
  pub exists : ℕ → Text → Text → Bool
  pub opens : ℕ → Text → Text → Bool
  pub fifo : ℕ → Option (List ReadResult)
  pub write : ℕ → Write

-- What the daemon has done: its directory, the number of messages, the signals sent, and what has
-- been appended to which file, by directory and path.
pub record DaemonState : Type 0 where
  pub cwd : Text
  pub handled : ℕ
  pub signals : List (ℕ × Response)
  pub logs : List ((Text × Text) × Text)

-- kill (pid, response)
abbrev pub send : ℕ → Response → DaemonState → DaemonState
send pid response st = record st { signals = st.signals ++ (pid, response) ∷ [] }

-- handle_message after the directory has been changed
unfoldable pub write_log : Disk → ℕ → Text → DaemonState → Outcome DaemonState
unfolding copy_stream
write_log disk pid path st =
    let n = st.handled in
    let next = record st { handled = n + 1 } in
    elim (disk.opens n st.cwd path) [
      | false ↦ done (send pid error_cant_write next)
      | true ↦
          let answered =
            send pid (if disk.exists n st.cwd path then ok_file_exists else ok_new_file) next in
          my_open (disk.fifo n) >>= λ reads. copy_stream (disk.write n) reads [] >>= λ out.
          done (record answered { logs = answered.logs ++ ((st.cwd, path), out) ∷ [] })
    ]

unfoldable pub handle_message : Disk → BookingInfo → DaemonState → Outcome DaemonState
unfolding read_booking write_log
handle_message disk info st = read_booking info >>= λ (tool_wd, log_path).
    write_log disk info.pid log_path (record st { cwd = disk.chdir st.handled st.cwd tool_wd })

-- One return of msgrcv: a message, an interruption by a signal, or another error.
pub data Received : Type 0 where
  message : BookingInfo → Received
  interrupted : Received
  receive_failed : Received

unfoldable pub handle_received : Disk → Received → DaemonState → Outcome DaemonState
unfolding handle_message
handle_received disk (message info) st = handle_message disk info st
handle_received disk interrupted st = done st
handle_received disk receive_failed st = exited 1

-- The loop of run_daemon_main, by the returns of msgrcv, each with whether interrupt_signal is set
-- when it has been handled; after the last one the daemon still waits.
unfoldable pub run_daemon_main : Disk → List (Received × Bool) → DaemonState → Outcome DaemonState
unfolding handle_received
run_daemon_main disk [] st = out_of_fuel
run_daemon_main disk ((received, interrupt_signal) ∷ later) st =
    handle_received disk received st >>= λ st'. (elim interrupt_signal [
      | true ↦ done st'
      | false ↦ run_daemon_main disk later st'
    ])

-- wait_booking_confirmation: daemon_response after each second, for as many seconds as the fuel
unfoldable pub wait_booking_confirmation : ℕ → (ℕ → Option Response) → ℕ → Outcome Response
wait_booking_confirmation zero daemon_response second = out_of_fuel
wait_booking_confirmation (suc k) daemon_response second = elim (daemon_response second) [
  | some response ↦ done response
  | none ↦ wait_booking_confirmation k daemon_response (second + 1)
]

unfoldable pub handle_booking_confirmation : Response → Outcome (Unit {0})
handle_booking_confirmation ok_new_file = done tt
handle_booking_confirmation ok_file_exists = done tt
handle_booking_confirmation error_cant_write = exited 1
