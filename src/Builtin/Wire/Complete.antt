-- ===== src/Builtin/Wire/Complete.antt =====
-- Wiring ends, and gives every node of a tree its two streams.
use command_stats.Common.{ℕ, ◌+◌, ◌≤◌, arith, ◌≡◌, refl, List, [], ◌∷◌, Option, none, some, length}
use command_stats.Structs.Stream.{
  read_from_pipe, write_into_pipe, Stream, PipeStream, wrap_pipe_into_stream,
}
use command_stats.Structs.Node.{
  NodeFields, pipe_node, and_node, or_node, semicolon_node, Node, executable, operands, Nodes, nil,
  cons, fields, to_list,
}
use command_stats.Builtin.Wire.{
  set_streams, wire_node, wire_pipe_nodes, wire_right_nodes, wire_operand_nodes, wire_redirects,
  redirect_first, or_else, create_std_stream, stdin_fileno, stdout_fileno, center_to_right,
}

abbrev pub TwoOrMore : Nodes → Type 0
TwoOrMore nil = ⊥
TwoOrMore (cons n nil) = ⊥
TwoOrMore (cons n (cons m ns)) = Unit

-- Every pipe node has two operands or more.
unfoldable mutual
  pub HasPipes : Node → Type 0
  HasPipes (executable f e) = Unit
  HasPipes (operands f pipe_node a ns) = TwoOrMore ns × HavePipes ns
  HasPipes (operands f and_node a ns) = HavePipes ns
  HasPipes (operands f or_node a ns) = HavePipes ns
  HasPipes (operands f semicolon_node a ns) = HavePipes ns

  pub HavePipes : Nodes → Type 0
  HavePipes nil = Unit
  HavePipes (cons n ns) = HasPipes n × HavePipes ns

-- The first type for an empty list of operands, else the second.
abbrev pub Link : Nodes → Type 0 → Type 0 → Type 0
Link nil A B = A
Link (cons n ns) A B = B

-- How a tree is to be wired: the node with fields `g`, reading `i` and writing `o`, becomes the last
-- argument. A redirection in `g` stands before `i` and `o`. A pipe may have any number, but the
-- pipes of one operator have rising numbers, from `low` on, so they are different pipes.
mutual
  pub IsWired : Node → NodeFields → Stream → Stream → Node → Type 0
  IsWired (executable f e) g i o m = m ≡ executable (set_streams g i o) e
  IsWired (operands f pipe_node a ns) g i o m =
      (ms : Nodes) × (m ≡ operands (set_streams g i o) pipe_node a ms) × IsPiped 0 ns i o ms
  IsWired (operands f and_node a ns) g i o m =
      (ms : Nodes) × (from : List Stream) × (m
        ≡ operands (set_streams g i o) and_node (some (record { from = from; to = o })) ms)
      × IsAppended 0 ns (some i) from ms
  IsWired (operands f or_node a ns) g i o m =
      (ms : Nodes) × (from : List Stream) × (m
        ≡ operands (set_streams g i o) or_node (some (record { from = from; to = o })) ms)
      × IsAppended 0 ns (some i) from ms
  IsWired (operands f semicolon_node a ns) g i o m =
      (ms : Nodes) × (from : List Stream) × (m
        ≡ operands (set_streams g i o) semicolon_node (some (record { from = from; to = o })) ms)
      × IsAppended 0 ns (some i) from ms

  -- Neighbours share a pipe: the left one writes into it and the right one reads from it.
  pub IsPiped : ℕ → Nodes → Stream → Stream → Nodes → Type 0
  IsPiped low nil i o ms = ms ≡ nil
  IsPiped low (cons n rest) i o nil = ⊥
  IsPiped low (cons n rest) i o (cons m ms) = Link rest (IsWired n (fields n) i o m × (ms ≡ nil)) (
      (p : PipeStream) × (low ≤ p)
      × IsWired n (fields n) i (wrap_pipe_into_stream p write_into_pipe) m
      × IsPiped (p + 1) rest (wrap_pipe_into_stream p read_from_pipe) o ms)

  -- Each operand writes into a pipe of its own that the appender reads, in the operands' order, if
  -- it has no redirection. The first operand reads what the operator node is given to read, whatever
  -- redirection of its input it had; another its own input or the standard input.
  pub IsAppended : ℕ → Nodes → Option Stream → List Stream → Nodes → Type 0
  IsAppended low nil first_in from ms = (from ≡ []) × (ms ≡ nil)
  IsAppended low (cons n rest) first_in from nil = ⊥
  IsAppended low (cons n rest) first_in [] (cons m ms) = ⊥
  IsAppended low (cons n rest) first_in (source ∷ from) (cons m ms) =
      (p : PipeStream) × (low ≤ p)
      × (source ≡ wrap_pipe_into_stream p read_from_pipe)
      × IsWired n (redirect_first first_in (fields n))
          (or_else (redirect_first first_in (fields n)).std_in (create_std_stream stdin_fileno))
          (wrap_pipe_into_stream p write_into_pipe) m
      × IsAppended (p + 1) rest none from ms

join_left :
    (low : ℕ) (rest ms : Nodes) (o : Stream) (p : ℕ) (W : Stream → Type 0)
    → low ≤ p
    → W (center_to_right rest p o)
    → IsPiped (p + 1) rest (wrap_pipe_into_stream p read_from_pipe) o ms
    → Link rest (W o × (ms ≡ nil)) (
        (x : PipeStream) × (low ≤ x)
        × W (wrap_pipe_into_stream x write_into_pipe)
        × IsPiped (x + 1) rest (wrap_pipe_into_stream x read_from_pipe) o ms)
unfolding IsPiped
join_left low nil ms o p W le w q = (w, q)
join_left low (cons n rest) ms o p W le w q = (p, le, w, q)

join_first :
    (n : Node) (rest ms : Nodes) (o : Stream) (p : ℕ) (W : Stream → Type 0)
    → TwoOrMore (cons n rest)
    → W (wrap_pipe_into_stream p write_into_pipe)
    → IsPiped (p + 1) rest (wrap_pipe_into_stream p read_from_pipe) o ms
    → Link rest (W o × (ms ≡ nil)) (
        (x : PipeStream) × (0 ≤ x)
        × W (wrap_pipe_into_stream x write_into_pipe)
        × IsPiped (x + 1) rest (wrap_pipe_into_stream x read_from_pipe) o ms)
join_first n nil ms o p W t w q = absurd t
join_first n (cons r rest) ms o p W t w q = (p, omega arith, w, q)

pub two_or_more :
    (n : Node) (rest : Nodes) (x : Nodes × PipeStream)
    → TwoOrMore (cons n rest)
    → (elim rest as (λ _. Option (Nodes × PipeStream)) [ nil ↦ none | cons _ _ ↦ some x ]) ≡ some x
two_or_more n nil x t = absurd t
two_or_more n (cons r rest) x t = refl

mutual
  unfolding wire_node HasPipes IsWired

  pub wire_node-IsWired :
      (n : Node) (g : NodeFields) (i o : Stream) (next : ℕ)
      → HasPipes n
      → (m : Node) × (k : ℕ) × (wire_node n g i o next ≡ some (m, k))
        × (next ≤ k)
        × IsWired n g i o m
  wire_node-IsWired (executable f e) g i o next h =
      (executable (set_streams g i o) e, next, refl, omega arith, refl)
  wire_node-IsWired (operands f pipe_node a ns) g i o next h =
      let (ms, k, e, le, w) = wire_pipe-IsPiped ns i o next h.0 h.1 in
      (operands (set_streams g i o) pipe_node a ms, k, rw e, le, (ms, refl, w))
  wire_node-IsWired (operands f and_node a ns) g i o next h =
      let (ms, from, k, e, le, w) = wire_operand-IsAppended 0 ns (some i) next h (omega arith) in
      (
        operands (set_streams g i o) and_node (some (record { from = from; to = o })) ms,
        k,
        rw e,
        le,
        (ms, from, refl, w),
      )
  wire_node-IsWired (operands f or_node a ns) g i o next h =
      let (ms, from, k, e, le, w) = wire_operand-IsAppended 0 ns (some i) next h (omega arith) in
      (
        operands (set_streams g i o) or_node (some (record { from = from; to = o })) ms,
        k,
        rw e,
        le,
        (ms, from, refl, w),
      )
  wire_node-IsWired (operands f semicolon_node a ns) g i o next h =
      let (ms, from, k, e, le, w) = wire_operand-IsAppended 0 ns (some i) next h (omega arith) in
      (
        operands (set_streams g i o) semicolon_node (some (record { from = from; to = o })) ms,
        k,
        rw e,
        le,
        (ms, from, refl, w),
      )

  wire_pipe-IsPiped :
      (ns : Nodes) (i o : Stream) (next : ℕ)
      → TwoOrMore ns
      → HavePipes ns
      → (ms : Nodes) × (k : ℕ) × (wire_pipe_nodes ns i o next ≡ some (ms, k))
        × (next ≤ k)
        × IsPiped 0 ns i o ms
  wire_pipe-IsPiped nil i o next t h = absurd t
  wire_pipe-IsPiped (cons n rest) i o next t h =
      let (m, k, e, le, w) =
        wire_node-IsWired n (fields n) i (wrap_pipe_into_stream next write_into_pipe)
          (next + length (to_list rest)) h.0 in
      let (ms, l, e', le', w') = wire_right-IsPiped rest next o k h.1 in
      (
        cons m ms,
        l,
        rw (e, e') (two_or_more n rest (cons m ms, l) t),
        omega (arith, le, le'),
        join_first n rest ms o next (λ s. IsWired n (fields n) i s m) t w w',
      )

  pub wire_right-IsPiped :
      (ns : Nodes) (left : ℕ) (o : Stream) (next : ℕ)
      → HavePipes ns
      → (ms : Nodes) × (k : ℕ) × (wire_right_nodes ns left o next ≡ some (ms, k))
        × (next ≤ k)
        × IsPiped (left + 1) ns (wrap_pipe_into_stream left read_from_pipe) o ms
  wire_right-IsPiped nil left o next h = (nil, next, refl, omega arith, refl)
  wire_right-IsPiped (cons n rest) left o next h =
      let (m, k, e, le, w) =
        wire_node-IsWired n (fields n) (wrap_pipe_into_stream left read_from_pipe)
          (center_to_right rest (left + 1) o) next h.0 in
      let (ms, l, e', le', w') = wire_right-IsPiped rest (left + 1) o k h.1 in
      (
        cons m ms,
        l,
        rw (e, e'),
        omega (arith, le, le'),
        join_left (left + 1) rest ms o (left + 1)
            (λ s. IsWired n (fields n) (wrap_pipe_into_stream left read_from_pipe) s m)
            (omega arith) w w',
      )

  pub wire_operand-IsAppended :
      (low : ℕ) (ns : Nodes) (first_in : Option Stream) (next : ℕ)
      → HavePipes ns
      → low ≤ next
      → (ms : Nodes) × (from : List Stream) × (k : ℕ) × (wire_operand_nodes ns first_in next
          ≡ some ((ms, from), k))
        × (next ≤ k)
        × IsAppended low ns first_in from ms
  wire_operand-IsAppended low nil first_in next h r =
      (nil, [], next, refl, omega arith, (refl, refl))
  wire_operand-IsAppended low (cons n rest) first_in next h r =
      let g = redirect_first first_in (fields n) in
      let (m, k, e, le, w) =
        wire_node-IsWired n g (or_else g.std_in (create_std_stream stdin_fileno))
          (wrap_pipe_into_stream next write_into_pipe) (next + 1) h.0 in
      let (ms, from, l, e', le', w') = wire_operand-IsAppended (next + 1) rest none k h.1 le in
      (
        cons m ms,
        wrap_pipe_into_stream next read_from_pipe ∷ from,
        l,
        rw (e, e'),
        omega (arith, le, le'),
        (next, r, refl, w, w'),
      )

-- wire_redirects of a tree whose pipe nodes have two operands or more ends with a tree that is wired
-- as `IsWired` says: the root reads its own input or the standard input and writes its own output or
-- the standard output; neighbours in a pipe are given a pipe, and each operand of another operator
-- a pipe to its appender, no two pipes of one operator being the same. A redirection of a node's own
-- stands before what it is given, but for the input of the first operand of And, Or or Semicolon,
-- which is what the operator node is given to read.
pub wire_redirects-IsWired :
    (t : Node)
    → HasPipes t
    → (t' : Node) × (wire_redirects t ≡ some t')
      × IsWired t
          (fields t)
          (or_else (fields t).std_in (create_std_stream stdin_fileno))
          (or_else (fields t).std_out (create_std_stream stdout_fileno))
          t'
unfolding wire_redirects
wire_redirects-IsWired t h =
    let (m, k, e, le, w) =
      wire_node-IsWired t (fields t) (or_else (fields t).std_in (create_std_stream stdin_fileno))
        (or_else (fields t).std_out (create_std_stream stdout_fileno)) 0 h in
    (m, rw (e, wire_redirects), w)
