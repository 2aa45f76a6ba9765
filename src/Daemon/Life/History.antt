-- ===== src/Daemon/Life/History.antt =====
-- One daemon at a time, and what daemons leave behind.
use command_stats.Common.{ℕ, ◌≡◌, true, some}
use command_stats.Daemon.Life.{Shared, Ftok, has}

-- A daemon that holds the lock has its three files, the queue among them by the key of its pid.
abbrev pub IsServed : Ftok → Shared → Type 0
IsServed ftok s =
    (pid : ℕ)
    → s.holder ≡ some pid
    → (inode : ℕ) × (s.lock_file ≡ some inode)
      × (s.message_queue_id ≡ ftok inode pid)
      × (s.fifo ≡ true)
      × (has s.message_queue_id s.queues ≡ true)
