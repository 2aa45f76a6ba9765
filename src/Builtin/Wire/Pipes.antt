-- ===== src/Builtin/Wire/Pipes.antt =====
-- The processes at the ends of the pipes of a wired tree (wire_redirects of src/parse/builtin.c).
pub mod Unshared
use mathlib.Core.Path.{subst}
use mathlib.Core.Option.{some-injective}
use command_stats.Common.{
  ℕ, zero, suc, ◌+◌, ◌≤◌, ◌<◌, ◌≡◌, refl, ap, List, [], ◌∷◌, ◌++◌, Option, none, some, arith, ◌==◌,
  ltb, leb, ◌&&◌, if◌then◌else◌, length,
}
use command_stats.Structs.Stream.{
  Direction, read_from_pipe, write_into_pipe, Stream, file_descriptor_stream, file_stream,
  pipe_stream, PipeStream, Appender, wrap_pipe_into_stream,
}
use command_stats.Structs.Node.{
  NodeFields, Operator, pipe_node, and_node, or_node, semicolon_node, Node, executable, operands,
  Nodes, nil, cons, fields, to_list,
}
use command_stats.Builtin.Wire.{
  set_streams, wire_node, wire_pipe_nodes, wire_right_nodes, wire_operand_nodes, wire_redirects,
  ◌>>=◌, redirect_first, or_else, create_std_stream, stdin_fileno, stdout_fileno, center_to_right,
}
use command_stats.Builtin.Wire.Complete.{
  wire_redirects-IsWired, TwoOrMore, two_or_more, HasPipes, HavePipes,
}

module _ (x : PipeStream) where
  -- how often a stream reads from pipe `x`
  abbrev pub reads : Stream → ℕ
  reads (pipe_stream p read_from_pipe) = if p == x then 1 else 0
  reads (pipe_stream p write_into_pipe) = 0
  reads (file_descriptor_stream fd) = 0
  reads (file_stream f) = 0

  abbrev pub writes : Stream → ℕ
  writes (pipe_stream p read_from_pipe) = 0
  writes (pipe_stream p write_into_pipe) = if p == x then 1 else 0
  writes (file_descriptor_stream fd) = 0
  writes (file_stream f) = 0

  abbrev pub of_stream : (Stream → ℕ) → Option Stream → ℕ
  of_stream ends none = 0
  of_stream ends (some s) = ends s

  abbrev pub of_streams : List Stream → ℕ
  of_streams [] = 0
  of_streams (s ∷ ss) = reads s + of_streams ss

  -- The executables and the appenders are processes; the other nodes are none.
  abbrev pub appender_reads : Option Appender → ℕ
  appender_reads none = 0
  appender_reads (some a) = of_streams a.from

  abbrev pub appender_writes : Option Appender → ℕ
  appender_writes none = 0
  appender_writes (some a) = writes a.to

  -- how many processes of a tree read from the pipe, and how many write into it
  unfoldable mutual
    pub readers : Node → ℕ
    readers (executable f e) = of_stream reads f.std_in
    readers (operands f op a ns) = appender_reads a + readers_of_nodes ns

    pub readers_of_nodes : Nodes → ℕ
    readers_of_nodes nil = 0
    readers_of_nodes (cons n ns) = readers n + readers_of_nodes ns

  unfoldable mutual
    pub writers : Node → ℕ
    writers (executable f e) = of_stream writes f.std_out
    writers (operands f op a ns) = appender_writes a + writers_of_nodes ns

    pub writers_of_nodes : Nodes → ℕ
    writers_of_nodes nil = 0
    writers_of_nodes (cons n ns) = writers n + writers_of_nodes ns

  -- 1 for a pipe among those from `a` up to `b`
  unfoldable pub within : ℕ → ℕ → ℕ
  within a b = if leb a x && ltb x b then 1 else 0

  pub within_join : (a b c : ℕ) → a ≤ b → b ≤ c → within a b + within b c ≡ within a c
  unfolding within
  within_join a b c h k = ground arith

  pub reads_one : (p : ℕ) → reads (wrap_pipe_into_stream p read_from_pipe) ≡ within p (p + 1)
  unfolding within
  reads_one p = ground arith

  pub writes_one : (p : ℕ) → writes (wrap_pipe_into_stream p write_into_pipe) ≡ within p (p + 1)
  unfolding within
  writes_one p = ground arith

-- the stream of a field, which is no pipe before the wiring
abbrev pub IsPlain : Option Stream → Type 0
IsPlain none = Unit
IsPlain (some (pipe_stream p d)) = ⊥
IsPlain (some (file_descriptor_stream fd)) = Unit
IsPlain (some (file_stream f)) = Unit

-- No node of the tree has a pipe or an appender.
unfoldable mutual
  pub IsUnwired : Node → Type 0
  IsUnwired (executable f e) = IsPlain f.std_in × IsPlain f.std_out
  IsUnwired (operands f op a ns) = IsPlain f.std_in × IsPlain f.std_out × AreUnwired ns × (a ≡ none)

  pub AreUnwired : Nodes → Type 0
  AreUnwired nil = Unit
  AreUnwired (cons n ns) = IsUnwired n × AreUnwired ns
