-- ===== src/Daemon/Client.antt =====
-- How a run of the tool books its log: book_and_obtain_log_fd of src/daemon/daemon_socket.c.
pub mod Booked
use command_stats.Common.{ℕ, Bool, true, false, Option, none, some, if◌then◌else◌}
use command_stats.Common.Outcome.{Outcome, done, exited, ◌>>=◌}
use command_stats.Common.Text.{Text}
use command_stats.Syscalls.{my_open, my_ftok, my_msgget, my_msgsnd}
use command_stats.Daemon.Message.{BookingInfo, Getcwd, create_booking}
use command_stats.Daemon.Lock.{LockFile, Session, read_daemon_pid}
use command_stats.Daemon.Serve.{Response, wait_booking_confirmation, handle_booking_confirmation}

-- The system as the run sees it: its pid, ftok by the daemon's pid, msgget by the key, msgsnd, what
-- the handler has stored each second after the message, the named pipe when it is opened, and kill.
pub record Client : Type 0 where
  pub lock_file : LockFile
  pub sessions : ℕ → Session
  pub pid : ℕ
  pub getcwd : Getcwd
  pub ftok : ℕ → Option ℕ
  pub msgget : ℕ → Option ℕ
  pub msgsnd : ℕ → BookingInfo → Option ℕ
  pub daemon_response : BookingInfo → ℕ → Option Response
  pub open_fifo : Option ℕ
  pub kill : ℕ → Option ℕ

-- get_message_queue_id
unfoldable pub get_message_queue_id : Client → ℕ → Outcome ℕ
get_message_queue_id c daemon_pid = my_ftok (c.ftok daemon_pid) >>= λ key. my_msgget (c.msgget key)

unfoldable pub send_booking : Client → Text → ℕ → Outcome BookingInfo
unfolding read_daemon_pid get_message_queue_id create_booking
send_booking c log_path asked = read_daemon_pid c.lock_file c.sessions asked >>= λ (daemon_pid, _).
    get_message_queue_id c daemon_pid >>= λ id. create_booking c.pid c.getcwd log_path >>= λ info.
    my_msgsnd (c.msgsnd id info) >>= λ _. done info

unfoldable pub open_booked_pipe : Client → Outcome ℕ
open_booked_pipe c = my_open c.open_fifo

-- The message for which the pipe is open, after at most `seconds` seconds.
unfoldable pub book_and_obtain_log_fd : ℕ → Client → Text → ℕ → Outcome BookingInfo
unfolding send_booking wait_booking_confirmation handle_booking_confirmation open_booked_pipe
book_and_obtain_log_fd seconds c log_path asked = send_booking c log_path asked >>= λ info.
    wait_booking_confirmation seconds (c.daemon_response info) 0 >>= λ response.
    handle_booking_confirmation response >>= λ _. open_booked_pipe c >>= λ _. done info
