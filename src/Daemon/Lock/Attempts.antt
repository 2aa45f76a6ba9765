-- ===== src/Daemon/Lock/Attempts.antt =====
-- What the attempts to read the daemon's pid find.
use command_stats.Common.{
  ℕ, zero, suc, ◌+◌, ◌≡◌, refl, Option, none, some, arith, if◌then◌else◌, Option-cases, inl, inr,
}
use command_stats.Daemon.Lock.{
  write_lock, unlocked, LockFile, try_loop, max_attempts, try_to_read_daemon_pid,
}

-- What POSIX says of fcntl with F_GETLK, where `holder n` is the process that holds the lock when
-- the file is opened for the n-th time: it writes the holder of a lock that would be refused, or
-- that the lock is free, and it takes no request of type F_UNLCK.
pub record IsGetlk (file : LockFile) (holder : ℕ → Option ℕ) : Type 0 where
  pub held :
      (n pid : ℕ) (l : Option ℕ)
      → holder n ≡ some pid
      → (file.getlk n (record { l_type = write_lock; l_pid = l })).l_pid ≡ some pid
  pub free :
      (n : ℕ) (l : Option ℕ)
      → holder n ≡ none
      → file.getlk n (record { l_type = write_lock; l_pid = l })
        ≡ record { l_type = unlocked; l_pid = l }
  pub refuses :
      (n : ℕ) (l : Option ℕ)
      → file.getlk n (record { l_type = unlocked; l_pid = l })
        ≡ record { l_type = unlocked; l_pid = l }

-- The holder at the first of `k` times at which the file can be opened.
unfoldable pub holder_at_first_open : ℕ → LockFile → (ℕ → Option ℕ) → ℕ → Option ℕ
holder_at_first_open zero file holder n = none
holder_at_first_open (suc k) file holder n =
    let later = holder_at_first_open k file holder (n + 1) in
    if file.opens n then holder n else later

module _ (file : LockFile) (holder : ℕ → Option ℕ) (getlk : IsGetlk file holder) where
  -- once the struct has the type F_UNLCK nothing is found any more
  try_loop-unlocked :
      (k n : ℕ) (l : Option ℕ)
      → (try_loop k file (record { l_type = unlocked; l_pid = l }) n).0 ≡ none
  unfolding try_loop
  try_loop-unlocked zero n l = refl
  try_loop-unlocked (suc k) n l =
      ground (
        arith,
        getlk.refuses n none,
        try_loop-unlocked k (n + 1) none,
        try_loop-unlocked k (n + 1) l,
      )

  try_loop-first_open :
      (k n : ℕ) (l : Option ℕ)
      → (try_loop k file (record { l_type = write_lock; l_pid = l }) n).0
        ≡ holder_at_first_open k file holder n
  unfolding try_loop holder_at_first_open
  try_loop-first_open zero n l = refl
  try_loop-first_open (suc k) n l = elim (Option-cases (holder n)) [
    | inl nobody ↦ ground (
      arith,
      getlk.free n none nobody,
      try_loop-unlocked k (n + 1) none,
      try_loop-first_open k (n + 1) l,
    )
    | inr (pid, somebody) ↦
        ground (arith, getlk.held n pid none somebody, try_loop-first_open k (n + 1) l)
  ]

  -- Of the three attempts of try_to_read_daemon_pid only the first that can open the lock file
  -- counts: the result is the process that holds the lock then, and nothing if nobody does, also
  -- where a daemon takes the lock before the next attempt.
  pub try_to_read_daemon_pid-first_open :
      (n : ℕ) → (try_to_read_daemon_pid file n).0 ≡ holder_at_first_open max_attempts file holder n
  unfolding try_to_read_daemon_pid
  try_to_read_daemon_pid-first_open n = try_loop-first_open max_attempts n none
