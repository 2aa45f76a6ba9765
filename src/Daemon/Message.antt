-- ===== src/Daemon/Message.antt =====
-- The message that books the log (BookingInfo of src/daemon/daemon_common.h): how send_booking of
-- src/daemon/daemon_socket.c writes it and handle_message of src/daemon/daemon.c reads it. The
-- buffer is a list of its bytes; a read or a write past its end is a fault.
pub mod Layout
use command_stats.Common.{ℕ, zero, suc, ◌+◌, true, false, List, [], ◌∷◌, ◌==◌}
use command_stats.Common.Outcome.{Outcome, done, fault, ◌>>=◌}
use command_stats.Common.Text.{Text}

abbrev pub max_log_path : ℕ
max_log_path = 4098

-- MESSAGE_TYPE is the same for all messages.
pub record BookingInfo : Type 0 where
  pub pid : ℕ
  pub log_path : List ℕ

-- strcpy (buffer, t)
unfoldable pub strcpy : Text → List ℕ → Outcome (List ℕ)
strcpy t [] = fault
strcpy [] (b ∷ buffer) = done (0 ∷ buffer)
strcpy (c ∷ t) (b ∷ buffer) = strcpy t buffer >>= λ rest. done (c ∷ rest)

-- strcpy (&buffer[i], t)
unfoldable pub strcpy_at : ℕ → Text → List ℕ → Outcome (List ℕ)
unfolding strcpy
strcpy_at zero t buffer = strcpy t buffer
strcpy_at (suc i) t [] = fault
strcpy_at (suc i) t (b ∷ buffer) = strcpy_at i t buffer >>= λ rest. done (b ∷ rest)

unfoldable pub strlen : List ℕ → Outcome ℕ
strlen [] = fault
strlen (b ∷ buffer) = elim (b == 0) [ true ↦ done 0 | false ↦ strlen buffer >>= λ n. done (suc n) ]

-- the text at &buffer[i]
unfoldable pub text_at : ℕ → List ℕ → Outcome Text
text_at (suc i) [] = fault
text_at (suc i) (b ∷ buffer) = text_at i buffer
text_at zero [] = fault
text_at zero (b ∷ buffer) = elim (b == 0) [
  | true ↦ done []
  | false ↦ text_at zero buffer >>= λ t. done (b ∷ t)
]

-- what the designated initialiser leaves in the bytes of log_path
unfoldable pub zeros : ℕ → List ℕ
zeros zero = []
zeros (suc n) = 0 ∷ zeros n

-- getcwd (buffer, MAX_LOG_PATH), by the buffer before and after
abbrev pub Getcwd : Type 0
Getcwd = List ℕ → List ℕ

-- the message of send_booking, in a buffer that is given
unfoldable pub fill_booking : ℕ → Getcwd → Text → List ℕ → Outcome BookingInfo
unfolding strlen strcpy_at
fill_booking pid getcwd log_path buffer = strlen (getcwd buffer) >>= λ end.
    strcpy_at (end + 1) log_path (getcwd buffer) >>= λ filled.
    done (record { pid = pid; log_path = filled })

unfoldable pub create_booking : ℕ → Getcwd → Text → Outcome BookingInfo
unfolding fill_booking zeros
create_booking pid getcwd log_path = fill_booking pid getcwd log_path (zeros max_log_path)

-- tool_wd and log_path of handle_message
unfoldable pub read_booking : BookingInfo → Outcome (Text × Text)
unfolding strlen text_at
read_booking info = strlen info.log_path >>= λ end. text_at 0 info.log_path >>= λ tool_wd.
    text_at (end + 1) info.log_path >>= λ log_path. done (tool_wd, log_path)
