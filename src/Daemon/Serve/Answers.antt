-- ===== src/Daemon/Serve/Answers.antt =====
-- How the daemon answers a booking, and that it answers each.
use command_stats.Common.{
  ℕ, ◌+◌, ◌≤◌, ◌≡◌, ap, ◌∙◌, Bool, true, false, List, [], ◌∷◌, ◌++◌, some, arith, if◌then◌else◌,
  length, map, map-append, append-nil, append_assoc,
}
use command_stats.Common.Outcome.{done, bind-eq-done}
use command_stats.Common.Text.{Text}
use command_stats.Copy.{ReadResult}
use command_stats.Copy.Whole.{received, TakesAll, copy_stream-received}
use command_stats.Daemon.Message.{BookingInfo, Getcwd, max_log_path, create_booking, read_booking}
use command_stats.Daemon.Message.Layout.{IsText, Writes, read_booking-create_booking}
use command_stats.Daemon.Serve.{
  Response, ok_new_file, ok_file_exists, error_cant_write, Disk, DaemonState, write_log,
  handle_message, Received, message, interrupted, receive_failed, handle_received, run_daemon_main,
}

-- the answer for a file that can be opened or not, and that existed or not
abbrev pub answer : Bool → Bool → Response
answer true true = ok_file_exists
answer true false = ok_new_file
answer false existed = error_cant_write

-- What is to be after a booking of `path` in the directory `there` by `pid`, whose output is `text`.
abbrev pub booked : Disk → DaemonState → ℕ → Text → Text → Text → DaemonState
booked disk st pid there path text =
    let opened = disk.opens st.handled there path in
    record {
      cwd = there;
      handled = st.handled + 1;
      signals = st.signals ++ (pid, answer opened (disk.exists st.handled there path)) ∷ [];
      logs = if opened then st.logs ++ ((there, path), text) ∷ [] else st.logs;
    }

write_log-booked :
    (disk : Disk) (st : DaemonState) (pid : ℕ) (path : Text) (reads : List ReadResult)
    → disk.fifo st.handled ≡ some reads
    → TakesAll (disk.write st.handled)
    → write_log disk pid path st ≡ done (booked disk st pid st.cwd path (received reads))
unfolding write_log
write_log-booked disk st pid path reads fifo all =
    ground (arith, fifo, copy_stream-received (disk.write st.handled) reads [] all)

-- A booking that fits into the message is handled as it was meant: the daemon goes to the directory
-- of the tool, sends exactly one signal, to the tool, which says whether the log can be written and
-- whether it is new, and appends to the log what the tool writes, or nothing if it cannot be opened.
pub handle_message-create_booking :
    (disk : Disk) (st : DaemonState) (pid : ℕ) (getcwd : Getcwd) (cwd path : Text)
    (reads : List ReadResult)
    → Writes getcwd cwd
    → IsText cwd
    → IsText path
    → length cwd + length path + 2 ≤ max_log_path
    → disk.fifo st.handled ≡ some reads
    → TakesAll (disk.write st.handled)
    → (info : BookingInfo) × (create_booking pid getcwd path ≡ done info)
      × (handle_message disk info st
          ≡ done (booked disk st pid (disk.chdir st.handled st.cwd cwd) path (received reads)))
unfolding handle_message
handle_message-create_booking disk st pid getcwd cwd path reads writes text text' room fifo all =
    let (info, e, r, p, n) =
      read_booking-create_booking pid getcwd cwd path writes text text' room in
    (
      info,
      e,
      rw (r, handle_message)
          (rw p (
            write_log-booked disk (record st { cwd = disk.chdir st.handled st.cwd cwd }) pid path
              reads fifo all)),
    )

abbrev pub first : ℕ × Response → ℕ
first (pid, response) = pid

-- the processes that were sent a signal, in order
abbrev pub answered : DaemonState → List ℕ
answered st = map first st.signals

-- the senders of the messages that are received before the daemon is interrupted
unfoldable pub senders : List (Received × Bool) → List ℕ
senders [] = []
senders ((message info, true) ∷ later) = info.pid ∷ []
senders ((message info, false) ∷ later) = info.pid ∷ senders later
senders ((_, true) ∷ later) = []
senders ((_, false) ∷ later) = senders later

write_log-answered :
    (disk : Disk) (pid : ℕ) (path : Text) (st st' : DaemonState)
    → write_log disk pid path st ≡ done st'
    → answered st' ≡ answered st ++ pid ∷ []
unfolding write_log
write_log-answered disk pid path st st' h =
    let sends : (r : Response)
        → map first (st.signals ++ (pid, r) ∷ []) ≡ map first st.signals ++ pid ∷ [] =
      λ r. map-append first st.signals ((pid, r) ∷ []) in
    ground (arith, sends ok_new_file, sends ok_file_exists, sends error_cant_write)

handle_received-answered :
    (disk : Disk) (info : BookingInfo) (st st' : DaemonState)
    → handle_received disk (message info) st ≡ done st'
    → answered st' ≡ answered st ++ info.pid ∷ []
unfolding handle_received handle_message
handle_received-answered disk info st st' h =
    let (texts, e, k) = bind-eq-done (read_booking info) _ h in
    write_log-answered disk info.pid texts.1
      (record st { cwd = disk.chdir st.handled st.cwd texts.0 }) st' k

-- When the daemon ends because it was interrupted, it has sent one signal to the sender of each
-- message that it received until then, in the order of the messages, and no other signal.
pub run_daemon_main-senders :
    (disk : Disk) (events : List (Received × Bool)) (st st' : DaemonState)
    → run_daemon_main disk events st ≡ done st'
    → answered st' ≡ answered st ++ senders events
unfolding run_daemon_main senders
run_daemon_main-senders disk [] st st' h = cc
run_daemon_main-senders disk ((message info, true) ∷ later) st st' h =
    let (next, e, k) = bind-eq-done (handle_received disk (message info) st) _ h in
    ground (arith, handle_received-answered disk info st next e)
run_daemon_main-senders disk ((message info, false) ∷ later) st st' h =
    let (next, e, k) = bind-eq-done (handle_received disk (message info) st) _ h in
    run_daemon_main-senders disk later next st' k
    ∙ ap (λ x. x ++ senders later) (handle_received-answered disk info st next e)
    ∙ append_assoc (answered st) (info.pid ∷ []) (senders later)
run_daemon_main-senders disk ((interrupted, true) ∷ later) st st' h =
    unfold handle_received in ground (arith, append-nil (answered st))
run_daemon_main-senders disk ((interrupted, false) ∷ later) st st' h =
    run_daemon_main-senders disk later st st' (unfold handle_received in h)
run_daemon_main-senders disk ((receive_failed, true) ∷ later) st st' h =
    unfold handle_received in cc
run_daemon_main-senders disk ((receive_failed, false) ∷ later) st st' h =
    unfold handle_received in cc
