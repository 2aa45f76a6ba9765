-- ===== src/Copy.antt =====
-- copy_stream of src/common/common.c, with my_write of src/common/syscalls_wrappers.c.
pub mod Whole
use command_stats.Common.{ℕ, List, [], ◌∷◌, ◌++◌, Option, none, some, take}
use command_stats.Common.Outcome.{Outcome, done, exited, ◌>>=◌}
use command_stats.Common.Text.{Text}

-- One answer of read: the bytes, none of them at the end of the stream, or -1. A stream is the list
-- of the answers that are still to come, and then its end.
pub data ReadResult : Type 0 where
  bytes : Text → ReadResult
  read_failed : ReadResult

-- write (fd, buffer, count), by what has been written before: how many bytes it takes, or -1
abbrev pub Write : Type 0
Write = Text → Text → Option ℕ

-- my_write: what has been written after it; its caller does not look at how much that is.
unfoldable pub my_write : Write → Text → Text → Outcome Text
my_write write buffer out = elim (write out buffer) [
  | none ↦ exited 1
  | some n ↦ done (out ++ take n buffer)
]

unfoldable pub copy_stream : Write → List ReadResult → Text → Outcome Text
unfolding my_write
copy_stream write [] out = done out
copy_stream write (read_failed ∷ reads) out = done out
copy_stream write (bytes [] ∷ reads) out = done out
copy_stream write (bytes (c ∷ buffer) ∷ reads) out =
    my_write write (c ∷ buffer) out >>= λ out'. copy_stream write reads out'
