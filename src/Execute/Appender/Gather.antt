-- ===== src/Execute/Appender/Gather.antt =====
-- The appender gathers the operands' outputs in their order.
use command_stats.Common.{◌≡◌, refl, List, [], ◌∷◌, ◌++◌, append_assoc, append-nil, ◌∙◌}
use command_stats.Common.Outcome.{done}
use command_stats.Common.Text.{Text}
use command_stats.Structs.Stream.{
  read_from_pipe, write_into_pipe, Stream, pipe_stream, file_descriptor_stream, file_stream,
  PipeStream,
}
use command_stats.Execute.System.{Descriptor, pipe_end}
use command_stats.Copy.{ReadResult, Write}
use command_stats.Copy.Whole.{received, TakesAll, copy_stream-received}
use command_stats.Execute.Appender.{
  Event, closed, copied, Appending, event, close_read_end, close_write_ends, append_all,
  run_appender_main,
}

-- the streams from which the appender of these pipes reads
abbrev pub reading : List PipeStream → List Stream
reading [] = []
reading (p ∷ ps) = pipe_stream p read_from_pipe ∷ reading ps

-- what is written into these pipes, in their order
unfoldable pub gathered : (PipeStream → List ReadResult) → List PipeStream → Text
gathered reads [] = []
gathered reads (p ∷ ps) = received (reads p) ++ gathered reads ps

abbrev pub write_ends : List PipeStream → List Event
write_ends [] = []
write_ends (p ∷ ps) = closed (pipe_end p write_into_pipe) ∷ write_ends ps

abbrev pub read_ends : List PipeStream → List Event
read_ends [] = []
read_ends (p ∷ ps) = copied p ∷ closed (pipe_end p read_from_pipe) ∷ read_ends ps

close_read_end-out : (s : Stream) (a : Appending) → (close_read_end s a).out ≡ a.out
close_read_end-out (pipe_stream p direction) a = refl
close_read_end-out (file_descriptor_stream fd) a = refl
close_read_end-out (file_stream f) a = refl

close_write_ends-reading :
    (ps : List PipeStream) (a : Appending)
    → close_write_ends (reading ps) a ≡ done (record a { events = a.events ++ write_ends ps })
unfolding close_write_ends
close_write_ends-reading [] a = rw (append-nil a.events) refl
close_write_ends-reading (p ∷ ps) a =
    close_write_ends-reading ps (event (closed (pipe_end p write_into_pipe)) a)
    ∙ rw (append_assoc a.events (closed (pipe_end p write_into_pipe) ∷ []) (write_ends ps)) refl

append_all-reading :
    (write : Write) (reads : PipeStream → List ReadResult) (ps : List PipeStream) (a : Appending)
    → TakesAll write
    → append_all write reads (reading ps) a
      ≡ done (record { out = a.out ++ gathered reads ps; events = a.events ++ read_ends ps })
unfolding append_all gathered
append_all-reading write reads [] a all = rw (append-nil a.out, append-nil a.events) refl
append_all-reading write reads (p ∷ ps) a all =
    rw (copy_stream-received write (reads p) a.out all)
      (append_all-reading write reads ps _ all ∙ simp append_assoc refl)

-- Where every write takes all it is given and the appender reads from pipes, it adds to its output
-- what the operands have written, in the order of the operands; it first closes the ends into which
-- they write, then reads each pipe to its end and closes it, and last closes its output.
pub run_appender_main-gathered :
    (write : Write) (reads : PipeStream → List ReadResult) (ps : List PipeStream) (target : Stream)
    (to : Descriptor) (out : Text)
    → TakesAll write
    → run_appender_main write reads (record { from = reading ps; to = target }) to out
      ≡ done (record {
        out = out ++ gathered reads ps;
        events =
            (close_read_end target (record { out = out; events = [] })).events
            ++ (write_ends ps ++ (read_ends ps ++ closed to ∷ []));
      })
unfolding run_appender_main
run_appender_main-gathered write reads ps target to out all =
    rw (close_write_ends-reading ps (close_read_end target (record { out = out; events = [] }))) (
      rw (append_all-reading write reads ps _ all)
        (simp (append_assoc, close_read_end-out target (record { out = out; events = [] })) refl))
