-- ===== src/Builtin/Wire/Redirects.antt =====
-- What becomes of the redirections to files that the parser has set, where the wiring meets them.
use command_stats.Common.{
  ◌+◌, ap, ◌∙◌, refl, length, false, List, Option, none, some, ◌≡◌, arith, Option-cases, inl, inr,
}
use command_stats.Structs.Stream.{
  Stream, Appender, PipeStream, wrap_pipe_into_stream, write_into_pipe, read_from_pipe,
}
use command_stats.Structs.Node.{
  NodeFields, Operator, pipe_node, and_node, or_node, semicolon_node, Node, executable, operands,
  Nodes, nil, cons, fields, to_list,
}
use command_stats.Builtin.Cd.{is_pipe}
use command_stats.Builtin.Wire.{
  set_streams, wire_node, wire_operand_nodes, wire_redirects, or_else, create_std_stream,
  stdin_fileno, stdout_fileno, center_to_right,
}
use command_stats.Builtin.Wire.Complete.{
  HasPipes, HavePipes, wire_node-IsWired, wire_operand-IsAppended, wire_right-IsPiped,
}

-- the stream to which the appender of a node writes
abbrev pub appender_target : Node → Option Stream
appender_target (executable f e) = none
appender_target (operands f op none ns) = none
appender_target (operands f op (some a) ns) = some a.to

abbrev first_std_in : Nodes → Option Stream
first_std_in nil = none
first_std_in (cons n ns) = (fields n).std_in

-- the input of a node's first operand
abbrev pub operand_std_in : Node → Option Stream
operand_std_in (executable f e) = none
operand_std_in (operands f op a ns) = first_std_in ns

-- Whatever is wired keeps its own streams, and has the given ones where it has none.
pub wire_node-fields :
    (n : Node) (g : NodeFields) (i o : Stream) (next : PipeStream) {m : Node} {k : PipeStream}
    → wire_node n g i o next ≡ some (m, k)
    → fields m ≡ set_streams g i o
unfolding wire_node
wire_node-fields (executable f e) g i o next h = ground arith
wire_node-fields (operands f pipe_node a ns) g i o next h = ground arith
wire_node-fields (operands f and_node a ns) g i o next h = ground arith
wire_node-fields (operands f or_node a ns) g i o next h = ground arith
wire_node-fields (operands f semicolon_node a ns) g i o next h = ground arith

wire_operand_nodes-first_std_in :
    (n : Node) (ns : Nodes) (i : Stream) (next : PipeStream) {ms : Nodes} {from : List Stream}
    {k : PipeStream}
    → wire_operand_nodes (cons n ns) (some i) next ≡ some ((ms, from), k)
    → first_std_in ms ≡ some i
unfolding wire_node
wire_operand_nodes-first_std_in n ns i next h =
    elim (Option-cases (
      wire_node n (record (fields n) { std_in = some i }) i
        (wrap_pipe_into_stream next write_into_pipe) (next + 1))) [
          | inl e ↦ ground arith
          | inr ((m, k), e) ↦
              unfold set_streams in
              ground (
                arith,
                wire_node-fields n (record (fields n) { std_in = some i }) i
                    (wrap_pipe_into_stream next write_into_pipe) (next + 1) e,
              )
        ]

-- The same for what wiring returns, where the pipes below have two operands or more.
wired-fields :
    (n : Node) (g : NodeFields) (i o : Stream) (next : PipeStream)
    → HasPipes n
    → (m : Node) × (k : PipeStream) × (wire_node n g i o next ≡ some (m, k))
      × (fields m ≡ set_streams g i o)
wired-fields n g i o next h =
    let (m, k, e, le, w) = wire_node-IsWired n g i o next h in
    (m, k, e, wire_node-fields n g i o next e)

-- An operator node with redirections of its own is given other streams to read and write.
module _ (f : NodeFields) (a : Option Appender) (n : Node) (ns : Nodes) (i o s t : Stream)
    (next : PipeStream) (std_in : f.std_in ≡ some s) (std_out : f.std_out ≡ some t) where
  -- It keeps them, and neither its first operand nor its appender is given them.
  abbrev Passes : Operator → Type 0
  Passes op =
      (m : Node) × (k : PipeStream) × (wire_node (operands f op a (cons n ns)) f i o next
        ≡ some (m, k))
      × ((fields m).std_in ≡ some s)
      × ((fields m).std_out ≡ some t)
      × (operand_std_in m ≡ some i)
      × (appender_target m ≡ some o)

  wired-Passes :
      (op : Operator) (ms : Nodes) (from : List Stream) (k : PipeStream)
      → wire_node (operands f op a (cons n ns)) f i o next
        ≡ some (operands (set_streams f i o) op (some (record { from = from; to = o })) ms, k)
      → first_std_in ms ≡ some i
      → Passes op
  unfolding set_streams
  wired-Passes op ms from k e first = (_, k, e, rw std_in refl, rw std_out refl, first, refl)

  wire_operator-Passes : (op : Operator) → is_pipe op ≡ false → HavePipes (cons n ns) → Passes op
  unfolding wire_node is_pipe
  wire_operator-Passes op p h =
      let (ms, from, k, e, le, w) =
        wire_operand-IsAppended 0 (cons n ns) (some i) next h (omega arith) in
      let first = wire_operand_nodes-first_std_in n ns i next e in
      (elim op as (λ op'. is_pipe op' ≡ false → Passes op') [
        | pipe_node ↦ λ q. cc
        | and_node ↦ λ q. wired-Passes and_node ms from k (rw e refl) first
        | or_node ↦ λ q. wired-Passes or_node ms from k (rw e refl) first
        | semicolon_node ↦ λ q. wired-Passes semicolon_node ms from k (rw e refl) first
      ])
        p

-- In a pipe at the root, the first operand is `x`, and the second an And, Or or Semicolon node with
-- redirections `s` of its input and `t` of its output, and the third is `y`; `x` has no redirection of
-- its output and `y` none of its input, and all pipe nodes inside the operands have two operands or
-- more. Then wiring ends, and the redirections are set aside: the node keeps them, but its first
-- operand reads from the pipe into which `x` writes, whatever redirection of its input it had, and
-- its appender writes into the pipe that `y` reads from.
pub wire_redirects-own_ignored :
    (root f : NodeFields) (b a : Option Appender) (op : Operator) (x n y : Node) (ns rest : Nodes)
    (s t : Stream)
    → is_pipe op ≡ false
    → f.std_in ≡ some s
    → f.std_out ≡ some t
    → (fields x).std_out ≡ none
    → (fields y).std_in ≡ none
    → HavePipes (cons x (cons y (cons n ns)))
    → HavePipes rest
    → let q = operands f op a (cons n ns) in
      (x' q' y' : Node) × (rest' : Nodes) × (g : NodeFields) × (wire_redirects
          (operands root pipe_node b (cons x (cons q (cons y rest))))
        ≡ some (operands g pipe_node b (cons x' (cons q' (cons y' rest')))))
      × ((fields x').std_out ≡ some (wrap_pipe_into_stream 0 write_into_pipe))
      × ((fields q').std_in ≡ some s)
      × (operand_std_in q' ≡ some (wrap_pipe_into_stream 0 read_from_pipe))
      × ((fields q').std_out ≡ some t)
      × (appender_target q' ≡ some (wrap_pipe_into_stream 1 write_into_pipe))
      × ((fields y').std_in ≡ some (wrap_pipe_into_stream 1 read_from_pipe))
unfolding wire_redirects HasPipes set_streams
wire_redirects-own_ignored root f b a op x n y ns rest s t p std_in std_out no_out no_in
      (hx, (hy, (hn, hns))) hrest =
    let i = or_else root.std_in (create_std_stream stdin_fileno) in
    let o = or_else root.std_out (create_std_stream stdout_fileno) in
    let q = operands f op a (cons n ns) in
    let (x', k, ex, fx) =
      wired-fields x (fields x) i (wrap_pipe_into_stream 0 write_into_pipe)
        (0 + length (to_list (cons q (cons y rest)))) hx in
    let (q', l, eq, own_in, own_out, first, target) =
      wire_operator-Passes f a n ns (wrap_pipe_into_stream 0 read_from_pipe)
        (wrap_pipe_into_stream 1 write_into_pipe) s t k std_in std_out op p (hn, hns) in
    let (y', j, ey, fy) =
      wired-fields y (fields y) (wrap_pipe_into_stream 1 read_from_pipe) (center_to_right rest 2 o)
        l hy in
    let (rest', last, er, le, w) = wire_right-IsPiped rest 2 o j hrest in
    let fx' : (fields x').std_out ≡ some (wrap_pipe_into_stream 0 write_into_pipe) =
      ap (λ (g : NodeFields). g.std_out) fx ∙ rw no_out refl in
    let fy' : (fields y').std_in ≡ some (wrap_pipe_into_stream 1 read_from_pipe) =
      ap (λ (g : NodeFields). g.std_in) fy ∙ rw no_in refl in
    (
      x',
      q',
      y',
      rest',
      set_streams root i o,
      rw (ex, eq, ey, er, wire_redirects) refl,
      fx',
      own_in,
      first,
      own_out,
      target,
      fy',
    )
