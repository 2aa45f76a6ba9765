-- ===== src/Execute/Child/Streams.antt =====
-- What the child has made of its descriptors when it invokes the executable.
use command_stats.Common.{ℕ, ◌≡◌, ◌≢◌, ◌<◌, arith, ◌==◌, List, [], ◌∷◌, none, ◌||◌, if◌then◌else◌}
use command_stats.Common.Distinct.{has}
use command_stats.Execute.Child.{Process, close, dup2, redirect, close_appender_fds_except, connect}

module _ {Dir File : Type 0} where
  close_appender_fds_except_lem :
      (fds : List ℕ) (p : Process Dir File) (k : ℕ)
      → (close_appender_fds_except 0 1 fds p).entry k
        ≡ (if k == 0 || k == 1 then p.entry k else if has k fds then none else p.entry k)
  unfolding close_appender_fds_except close
  close_appender_fds_except_lem [] p k = ground arith
  close_appender_fds_except_lem (fd ∷ fds) p k =
      ground
        (arith, close_appender_fds_except_lem fds (if fd == 1 || fd == 0 then p else close fd p) k)

  redirect_lem :
      (from to : ℕ) (p : Process Dir File) (k : ℕ)
      → (redirect from to p).entry k ≡ (
          if from == to
          then p.entry k
          else if k == to
          then p.entry from
          else if k == from
          then none
          else p.entry k)
  unfolding redirect close dup2
  redirect_lem from to p k = ground arith

  -- The executable reads from and writes to the files of its streams, and has no other descriptor of
  -- them nor of an appender.
  abbrev pub IsConnected : ℕ → ℕ → List ℕ → Process Dir File → Process Dir File → Type 0
  IsConnected std_in std_out fds p q =
      (q.entry 0 ≡ p.entry std_in)
      × (q.entry 1 ≡ p.entry std_out)
      × ((k : ℕ)
          → 1 < k
          → q.entry k ≡ (if k == std_in || k == std_out || has k fds then none else p.entry k))

  connect_lem :
      (std_in std_out : ℕ) (fds : List ℕ) (p : Process Dir File) (k : ℕ)
      → (connect std_in std_out fds p).entry k ≡ (
          if k == 0 || k == 1
          then (redirect std_out 1 (redirect std_in 0 p)).entry k
          else if has k fds
          then none
          else (redirect std_out 1 (redirect std_in 0 p)).entry k)
  unfolding connect
  connect_lem std_in std_out fds p k =
      close_appender_fds_except_lem fds (redirect std_out 1 (redirect std_in 0 p)) k

  pub connect-IsConnected :
      (std_in std_out : ℕ) (fds : List ℕ) (p : Process Dir File)
      → std_in ≢ std_out
      → std_out ≢ 0
      → IsConnected std_in std_out fds p (connect std_in std_out fds p)
  connect-IsConnected std_in std_out fds p ne nz =
      let q = redirect std_in 0 p in
      let outer = redirect_lem std_out 1 q in
      let inner = redirect_lem std_in 0 p in
      (
        ground (arith, connect_lem std_in std_out fds p 0, outer 0, inner 0),
        ground (arith, connect_lem std_in std_out fds p 1, outer 1, inner 1, inner std_out),
        λ k lt. ground (arith, connect_lem std_in std_out fds p k, outer k, inner k),
      )

  close_appender_fds_except-directory :
      (fds : List ℕ) (p : Process Dir File)
      → (close_appender_fds_except 0 1 fds p).directory ≡ p.directory
  unfolding close_appender_fds_except close
  close_appender_fds_except-directory [] p = ground arith
  close_appender_fds_except-directory (fd ∷ fds) p = ground (
    arith,
    close_appender_fds_except-directory fds (if fd == 1 || fd == 0 then p else close fd p),
  )

  pub connect-directory :
      (std_in std_out : ℕ) (fds : List ℕ) (p : Process Dir File)
      → (connect std_in std_out fds p).directory ≡ p.directory
  unfolding connect redirect close dup2
  connect-directory std_in std_out fds p =
      ground
        (arith, close_appender_fds_except-directory fds (redirect std_out 1 (redirect std_in 0 p)))
