-- ===== src/Daemon/Client/Booked.antt =====
-- A booking from the run's first step to the daemon's answer.
use command_stats.Common.{
  ℕ, zero, suc, ◌+◌, ◌≤◌, ◌<◌, ◌≡◌, refl, ◌∙◌, Bool, true, false, List, [], ◌∷◌, ◌++◌, Option, none,
  some, arith, if◌then◌else◌, leb, length,
}
use command_stats.Common.Outcome.{Outcome, done, exited, ◌>>=◌}
use command_stats.Common.Text.{Text}
use command_stats.Copy.{ReadResult}
use command_stats.Copy.Whole.{received, TakesAll}
use command_stats.Daemon.Message.{BookingInfo, max_log_path}
use command_stats.Daemon.Message.Layout.{IsText, Writes}
use command_stats.Daemon.Lock.{
  LockFile, Session, try_to_read_daemon_pid, read_loop, read_daemon_pid,
}
use command_stats.Daemon.Lock.Attempts.{
  IsGetlk, holder_at_first_open, try_to_read_daemon_pid-first_open,
}
use command_stats.Daemon.Serve.{
  Response, Disk, DaemonState, handle_message, wait_booking_confirmation,
  handle_booking_confirmation,
}
use command_stats.Daemon.Serve.Answers.{answer, booked, handle_message-create_booking}
use command_stats.Daemon.Client.{
  Client, get_message_queue_id, send_booking, open_booked_pipe, book_and_obtain_log_fd,
}

-- the pid of a daemon that holds the lock when the file is first opened
read_daemon_pid-held :
    (file : LockFile) (holder : ℕ → Option ℕ) (sessions : ℕ → Session) (n pid : ℕ)
    → IsGetlk file holder
    → file.opens n ≡ true
    → holder n ≡ some pid
    → (m : ℕ) × (read_daemon_pid file sessions n ≡ done (pid, m))
unfolding read_daemon_pid read_loop holder_at_first_open
read_daemon_pid-held file holder sessions n pid getlk opens held =
    let e : (try_to_read_daemon_pid file n).0 ≡ some pid =
      try_to_read_daemon_pid-first_open file holder getlk n
      ∙ rw (holder_at_first_open, opens) held in
    ((try_to_read_daemon_pid file n).1, ground (arith, e))

-- daemon_response, where the signal comes after `delay` seconds
abbrev pub arrives : ℕ → Response → ℕ → Option Response
arrives delay response second = if leb delay second then some response else none

wait_booking_confirmation-arrives :
    (k delay second : ℕ) (response : Response)
    → delay < k + second
    → 0 < k
    → wait_booking_confirmation k (arrives delay response) second ≡ done response
unfolding wait_booking_confirmation
wait_booking_confirmation-arrives zero delay second response room some_left = ground arith
wait_booking_confirmation-arrives (suc zero) delay second response room some_left = ground arith
wait_booking_confirmation-arrives (suc (suc k)) delay second response room some_left = ground (
  arith,
  wait_booking_confirmation-arrives (suc k) delay (second + 1) response (omega arith) (omega arith),
)

-- the run goes on, or ends with status 1
abbrev pub confirmed {ℓ} : {A : Type ℓ} → Bool → A → Outcome A
confirmed opened a = if opened then done a else exited 1

handle_booking_confirmation-answer :
    (c : Client) (info : BookingInfo) (opened existed : Bool) {fd : ℕ}
    → c.open_fifo ≡ some fd
    → (handle_booking_confirmation (answer opened existed) >>= λ _.
        open_booked_pipe c >>= λ _. done info)
      ≡ confirmed opened info
unfolding handle_booking_confirmation open_booked_pipe
handle_booking_confirmation-answer c info true true opens = ground arith
handle_booking_confirmation-answer c info true false opens = ground arith
handle_booking_confirmation-answer c info false existed opens = ground arith

-- Where the daemon holds the lock when the run first opens the lock file, the queue's key and the
-- queue are obtained, the message is sent, the paths fit into it, the named pipe opens on both sides,
-- and all that is copied to the log is written, and the signal that handle_message sends for it arrives within the seconds
-- that the run waits: the daemon handles the booking as it was meant, and the run goes on with the
-- pipe open if the daemon could open the log, and ends with status 1 if not.
pub book_and_obtain_log_fd-booked :
    (c : Client) (holder : ℕ → Option ℕ) (disk : Disk) (st : DaemonState) (cwd path : Text)
    (reads : List ReadResult) (asked daemon_pid key id sent fd seconds delay : ℕ)
    → IsGetlk c.lock_file holder
    → c.lock_file.opens asked ≡ true
    → holder asked ≡ some daemon_pid
    → c.ftok daemon_pid ≡ some key
    → c.msgget key ≡ some id
    → ((info : BookingInfo) → c.msgsnd id info ≡ some sent)
    → Writes c.getcwd cwd
    → IsText cwd
    → IsText path
    → length cwd + length path + 2 ≤ max_log_path
    → disk.fifo st.handled ≡ some reads
    → TakesAll (disk.write st.handled)
    → ((info : BookingInfo) (st' : DaemonState) (r : Response)
        → handle_message disk info st ≡ done st'
        → st'.signals ≡ st.signals ++ (c.pid, r) ∷ []
        → c.daemon_response info ≡ arrives delay r)
    → delay < seconds
    → c.open_fifo ≡ some fd
    → (info : BookingInfo) × (handle_message disk info st
        ≡ done (booked disk st c.pid (disk.chdir st.handled st.cwd cwd) path (received reads)))
      × (book_and_obtain_log_fd seconds c path asked
          ≡ confirmed (disk.opens st.handled (disk.chdir st.handled st.cwd cwd) path) info)
unfolding book_and_obtain_log_fd send_booking get_message_queue_id
book_and_obtain_log_fd-booked c holder disk st cwd path reads asked daemon_pid key id sent fd
      seconds delay getlk opens held made queue sends writes text text' room fifo all arrive in_time
      pipe =
    let (info, e, h) =
      handle_message-create_booking disk st c.pid c.getcwd cwd path reads writes text text' room
        fifo all in
    let (m, found) =
      read_daemon_pid-held c.lock_file holder c.sessions asked daemon_pid getlk opens held in
    let there = disk.chdir st.handled st.cwd cwd in
    let opened = disk.opens st.handled there path in
    let existed = disk.exists st.handled there path in
    (
      info,
      h,
      rw (found, book_and_obtain_log_fd, send_booking)
          (rw (made, queue, get_message_queue_id)
            (rw (e) (
              rw (sends info) (
                rw (arrive info _ (answer opened existed) h refl) (
                  rw
                    (wait_booking_confirmation-arrives seconds delay 0 (answer opened existed)
                      (omega arith) (omega arith))
                    (handle_booking_confirmation-answer c info opened existed pipe)))))),
    )
