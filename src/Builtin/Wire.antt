-- ===== src/Builtin/Wire.antt =====
-- The streams of a tree (wire_redirects of src/parse/builtin.c). `create_pipe` allocates the next
-- number. `none` is an access past the array of pipes, for a pipe node of fewer than two operands.
pub mod Complete
pub mod Redirects
pub mod Pipes
use command_stats.Common.{ℕ, zero, suc, ◌+◌, List, [], ◌∷◌, Option, none, some, length}
use command_stats.Structs.Stream.{
  Direction, read_from_pipe, write_into_pipe, Stream, file_descriptor_stream, Appender, PipeStream,
  wrap_pipe_into_stream,
}
use command_stats.Structs.Node.{
  NodeFields, Operator, pipe_node, and_node, or_node, semicolon_node, Node, executable, operands,
  Nodes, nil, cons, fields, to_list,
}

infixl 5 ◌>>=◌
abbrev pub ◌>>=◌ :
    {A B : Type 0}
    → Option (A × PipeStream)
    → (A → PipeStream → Option (B × PipeStream))
    → Option (B × PipeStream)
none >>= f = none
some (a, next) >>= f = f a next

-- STDIN_FILENO and STDOUT_FILENO
abbrev pub stdin_fileno : ℕ
stdin_fileno = 0

abbrev pub stdout_fileno : ℕ
stdout_fileno = 1

abbrev pub create_std_stream : ℕ → Stream
create_std_stream direction = file_descriptor_stream direction

-- the stream that a field holds, or the one given where it is NULL
abbrev pub or_else : Option Stream → Stream → Stream
or_else none s = s
or_else (some t) s = t

-- the two assignments at the start of wire_redirects_r
unfoldable pub set_streams : NodeFields → Stream → Stream → NodeFields
set_streams f in_stream out_stream = record f {
  std_in = some (or_else f.std_in in_stream);
  std_out = some (or_else f.std_out out_stream);
}

-- operands->nodes[0]->std_in = in, for the operand that is first
abbrev pub redirect_first : Option Stream → NodeFields → NodeFields
redirect_first none f = f
redirect_first (some in_stream) f = record f { std_in = some in_stream }

-- the stream to which the operand in front of `rest` writes: the next pipe, or `out` if it is last
abbrev pub center_to_right : Nodes → PipeStream → Stream → Stream
center_to_right nil pipe out_stream = out_stream
center_to_right (cons m ns) pipe out_stream = wrap_pipe_into_stream pipe write_into_pipe

-- The functions recur on the tree as parsed; `g` are the fields that the node has when
-- wire_redirects_r is called of it.
unfoldable mutual
  unfolding set_streams

  pub wire_node : Node → NodeFields → Stream → Stream → PipeStream → Option (Node × PipeStream)
  wire_node (executable f e) g i o next = some (executable (set_streams g i o) e, next)
  wire_node (operands f pipe_node a ns) g i o next =
      wire_pipe_nodes ns i o next >>= λ ms k. some (operands (set_streams g i o) pipe_node a ms, k)
  wire_node (operands f and_node a ns) g i o next =
      wire_operand_nodes ns (some i) next >>= λ (ms, from) k.
      some (operands (set_streams g i o) and_node (some (record { from = from; to = o })) ms, k)
  wire_node (operands f or_node a ns) g i o next =
      wire_operand_nodes ns (some i) next >>= λ (ms, from) k.
      some (operands (set_streams g i o) or_node (some (record { from = from; to = o })) ms, k)
  wire_node (operands f semicolon_node a ns) g i o next =
      wire_operand_nodes ns (some i) next >>= λ (ms, from) k.
      some
        (operands (set_streams g i o) semicolon_node (some (record { from = from; to = o })) ms, k)

  -- All pipes are created before the first node is wired: they are `next`, `next + 1`, ….
  pub wire_pipe_nodes : Nodes → Stream → Stream → PipeStream → Option (Nodes × PipeStream)
  wire_pipe_nodes nil i o next = none
  wire_pipe_nodes (cons n rest) i o next =
      wire_node n (fields n) i (wrap_pipe_into_stream next write_into_pipe)
        (next + length (to_list rest))
      >>= λ m k. wire_right_nodes rest next o k >>= λ ms l. (elim rest [
        | nil ↦ none
        | cons _ _ ↦ some (cons m ms, l)
      ])

  -- The middle nodes and the last; `left` is the pipe to the first of them.
  pub wire_right_nodes : Nodes → PipeStream → Stream → PipeStream → Option (Nodes × PipeStream)
  wire_right_nodes nil left o next = some (nil, next)
  wire_right_nodes (cons n rest) left o next =
      wire_node n (fields n) (wrap_pipe_into_stream left read_from_pipe)
        (center_to_right rest (left + 1) o) next
      >>= λ m k. wire_right_nodes rest (left + 1) o k >>= λ ms l. some (cons m ms, l)

  -- The loop of wire_operand_nodes: the operands wired, and the appender's `from`. The assignment
  -- to `nodes[0]` stands before the loop; where all operands are gone it writes a removed node.
  pub wire_operand_nodes :
      Nodes → Option Stream → PipeStream → Option ((Nodes × List Stream) × PipeStream)
  wire_operand_nodes nil first_in next = some ((nil, []), next)
  wire_operand_nodes (cons n ns) first_in next =
      let g = redirect_first first_in (fields n) in
      wire_node n g (or_else g.std_in (create_std_stream stdin_fileno))
        (wrap_pipe_into_stream next write_into_pipe) (next + 1)
      >>= λ m k. wire_operand_nodes ns none k >>= λ (ms, from) l.
          some ((cons m ms, wrap_pipe_into_stream next read_from_pipe ∷ from), l)

abbrev pub wire_redirects_r : Node → Stream → Stream → PipeStream → Option (Node × PipeStream)
wire_redirects_r n = wire_node n (fields n)

unfoldable pub wire_redirects : Node → Option Node
unfolding wire_node
wire_redirects root =
    let std_out = or_else (fields root).std_out (create_std_stream stdout_fileno) in
    let std_in = or_else (fields root).std_in (create_std_stream stdin_fileno) in
    elim (wire_redirects_r root std_in std_out 0) [ none ↦ none | some (t, k) ↦ some t ]
