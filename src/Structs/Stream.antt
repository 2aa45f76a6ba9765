-- ===== src/Structs/Stream.antt =====
-- src/structs/stream.h and src/structs/stream.c. A `PipeStream` is shared by the two streams of its
-- ends: it is the number under which the wiring allocates it. The field `file_descriptor` of a
-- pipe's stream is read from the pipe's `descriptors`, so the stream keeps the end it is for.
use command_stats.Common.{ℕ, List}
use command_stats.Common.Text.{Text}

-- READ_FROM_PIPE and WRITE_INTO_PIPE of src/common/common.h
pub data Direction : Type 0 where
  read_from_pipe write_into_pipe : Direction

-- The values that the parser gives to `open_flag`: O_RDONLY, O_CREAT | O_WRONLY | O_TRUNC and
-- O_CREAT | O_WRONLY | O_APPEND.
pub data OpenFlag : Type 0 where
  read_only create_truncate create_append : OpenFlag

pub record FileStream : Type 0 where
  pub name : Text
  pub open_flag : OpenFlag

abbrev pub PipeStream : Type 0
PipeStream = ℕ

pub data Stream : Type 0 where
  file_descriptor_stream : ℕ → Stream
  file_stream : FileStream → Stream
  pipe_stream : PipeStream → Direction → Stream

-- `from_count` is the length of `from`.
pub record Appender : Type 0 where
  pub from : List Stream
  pub to : Stream

-- wrap_pipe_into_stream
abbrev pub wrap_pipe_into_stream : PipeStream → Direction → Stream
wrap_pipe_into_stream pipe direction = pipe_stream pipe direction
