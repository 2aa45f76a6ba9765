-- ===== src/Execute/Appender.antt =====
-- The process that gathers what the operands of an and, an or or a semicolon node write
-- (run_appender_main of src/execute/execute.c). `reads p` is what read answers on pipe `p`, and
-- `write` what the output's write answers.
pub mod Gather
use command_stats.Common.{List, [], ◌∷◌, ◌++◌}
use command_stats.Common.Outcome.{Outcome, done, fault, ◌>>=◌}
use command_stats.Common.Text.{Text}
use command_stats.Structs.Stream.{
  Direction, read_from_pipe, write_into_pipe, Stream, file_descriptor_stream, file_stream,
  pipe_stream, PipeStream, Appender,
}
use command_stats.Execute.System.{Descriptor, pipe_end}
use command_stats.Copy.{ReadResult, Write, copy_stream}

-- What the appender does to the outside, in order.
pub data Event : Type 0 where
  closed : Descriptor → Event
  copied : PipeStream → Event

pub record Appending : Type 0 where
  pub out : Text
  pub events : List Event

abbrev pub event : Event → Appending → Appending
event e a = record a { events = a.events ++ e ∷ [] }

-- The end that the appender does not use of the pipe it writes to.
abbrev pub close_read_end : Stream → Appending → Appending
close_read_end (pipe_stream p direction) a = event (closed (pipe_end p read_from_pipe)) a
close_read_end (file_descriptor_stream fd) a = a
close_read_end (file_stream f) a = a

-- A stream that is no pipe has no `options.pipe`.
unfoldable pub close_write_ends : List Stream → Appending → Outcome Appending
close_write_ends [] a = done a
close_write_ends (pipe_stream p direction ∷ from) a =
    close_write_ends from (event (closed (pipe_end p write_into_pipe)) a)
close_write_ends (file_descriptor_stream fd ∷ from) a = fault
close_write_ends (file_stream f ∷ from) a = fault

-- The second loop, which reads from each `file_descriptor`.
unfoldable pub append_all :
    Write → (PipeStream → List ReadResult) → List Stream → Appending → Outcome Appending
append_all write reads [] a = done a
append_all write reads (pipe_stream p direction ∷ from) a =
    copy_stream write (reads p) a.out >>= λ out.
    append_all write reads from
      (event (closed (pipe_end p direction)) (event (copied p) (record a { out = out })))
append_all write reads (file_descriptor_stream fd ∷ from) a = fault
append_all write reads (file_stream f ∷ from) a = fault

-- `to` is the descriptor of `appender->to`, and `out` what has been written to it before.
unfoldable pub run_appender_main :
    Write → (PipeStream → List ReadResult) → Appender → Descriptor → Text → Outcome Appending
unfolding close_write_ends append_all
run_appender_main write reads appender to out =
    close_write_ends appender.from (close_read_end appender.to (record { out = out; events = [] }))
    >>= λ a. append_all write reads appender.from a >>= λ b. done (event (closed to) b)
