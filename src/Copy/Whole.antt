-- ===== src/Copy/Whole.antt =====
-- What copy_stream copies where every write takes all it is given.
use command_stats.Common.{
  ◌≡◌, refl, sym, ap, ◌∙◌, List, [], ◌∷◌, ◌++◌, some, length, take, append_assoc, append-nil,
}
use command_stats.Common.Outcome.{done}
use command_stats.Common.Text.{Text}
use command_stats.Copy.{ReadResult, bytes, read_failed, Write, my_write, copy_stream}

-- the bytes of a stream before its end or the first failure
unfoldable pub received : List ReadResult → Text
received [] = []
received (read_failed ∷ reads) = []
received (bytes [] ∷ reads) = []
received (bytes (c ∷ buffer) ∷ reads) = (c ∷ buffer) ++ received reads

abbrev pub TakesAll : Write → Type 0
TakesAll write = (out buffer : Text) → write out buffer ≡ some (length buffer)

take-all : (t : Text) → take (length t) t ≡ t
take-all [] = refl
take-all (c ∷ t) = ap (λ (r : Text). c ∷ r) (take-all t)

pub copy_stream-received :
    (write : Write) (reads : List ReadResult) (out : Text)
    → TakesAll write
    → copy_stream write reads out ≡ done (out ++ received reads)
unfolding copy_stream received
copy_stream-received write [] out all = ap done (sym (append-nil out))
copy_stream-received write (read_failed ∷ reads) out all = ap done (sym (append-nil out))
copy_stream-received write (bytes [] ∷ reads) out all = ap done (sym (append-nil out))
copy_stream-received write (bytes (c ∷ buffer) ∷ reads) out all =
    rw (all out (c ∷ buffer), my_write)
      (rw (take-all buffer) (
        copy_stream-received write reads (out ++ c ∷ buffer) all
        ∙ ap done (append_assoc out (c ∷ buffer) (received reads))))
