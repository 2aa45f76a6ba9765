-- ===== src/Builtin/Wire/Pipes/Unshared.antt =====
-- No pipe of a wired tree is shared (wire_redirects of src/parse/builtin.c).
use mathlib.Core.Path.{subst}
use mathlib.Core.Option.{some-injective}
use command_stats.Common.{
  ℕ, suc, ◌+◌, ◌≤◌, ◌≡◌, refl, ap, List, [], ◌∷◌, Option, none, some, arith, length,
}
use command_stats.Structs.Stream.{
  read_from_pipe, write_into_pipe, Stream, file_descriptor_stream, file_stream, pipe_stream,
  PipeStream, wrap_pipe_into_stream,
}
use command_stats.Structs.Node.{
  NodeFields, Operator, pipe_node, and_node, or_node, semicolon_node, Node, executable, operands,
  Nodes, nil, cons, fields, to_list,
}
use command_stats.Builtin.Wire.{
  set_streams, wire_node, wire_pipe_nodes, wire_right_nodes, wire_operand_nodes, wire_redirects,
  ◌>>=◌, redirect_first, or_else, create_std_stream, stdin_fileno, stdout_fileno, center_to_right,
}
use command_stats.Builtin.Wire.Complete.{
  wire_redirects-IsWired, TwoOrMore, two_or_more, HasPipes, HavePipes,
}
use command_stats.Builtin.Wire.Pipes.{
  reads, writes, of_stream, of_streams, readers, readers_of_nodes, writers, writers_of_nodes,
  within, within_join, reads_one, writes_one, IsPlain, IsUnwired, AreUnwired,
}

-- how often the operands after a pipe write to where their last one writes
abbrev last_writes : PipeStream → Nodes → Stream → ℕ
last_writes x nil o = 0
last_writes x (cons n ns) o = writes x o

module _ (x : PipeStream) where
  within_most : (a b : ℕ) → within x a b ≤ 1
  unfolding within
  within_most a b = ground arith

  reads-plain : (s : Option Stream) (t : Stream) → IsPlain s → reads x (or_else s t) ≤ reads x t
  reads-plain none t h = omega arith
  reads-plain (some (pipe_stream p d)) t h = absurd h
  reads-plain (some (file_descriptor_stream fd)) t h = omega arith
  reads-plain (some (file_stream f)) t h = omega arith

  writes-plain : (s : Option Stream) (t : Stream) → IsPlain s → writes x (or_else s t) ≤ writes x t
  writes-plain none t h = omega arith
  writes-plain (some (pipe_stream p d)) t h = absurd h
  writes-plain (some (file_descriptor_stream fd)) t h = omega arith
  writes-plain (some (file_stream f)) t h = omega arith

  last_most : (rest : Nodes) (o : Stream) → last_writes x rest o ≤ writes x o
  last_most nil o = omega arith
  last_most (cons n rest) o = omega arith

  center_writes :
      (rest : Nodes) (p : ℕ) (o : Stream)
      → writes x (center_to_right rest p o)
          + last_writes x rest o
          + within x (p + 1) (p + length (to_list rest))
        ≤ writes x o + within x p (p + length (to_list rest))
  unfolding within
  center_writes nil p o = ground arith
  center_writes (cons n rest) p o = ground arith

fields-IsPlain : (n : Node) → IsUnwired n → IsPlain (fields n).std_in × IsPlain (fields n).std_out
unfolding IsUnwired
fields-IsPlain (executable f e) h = h
fields-IsPlain (operands f op a ns) h = (h.0, h.1)

or_else_twice : (s : Option Stream) (t : Stream) → or_else s (or_else s t) ≡ or_else s t
or_else_twice none t = refl
or_else_twice (some s) t = refl

rest_length : (n : Node) (rest : Nodes) → TwoOrMore (cons n rest) → 1 ≤ length (to_list rest)
rest_length n nil t = absurd t
rest_length n (cons b ns) t = omega arith

one_more :
    (rest : Nodes) (left : ℕ)
    → left + 1 + length (to_list rest) ≡ left + suc (length (to_list rest))
one_more rest left = omega arith

module _ (x : PipeStream) where
  -- the streams given to a node count no more than those it is to have
  abbrev Fits : NodeFields → Stream → Stream → Type 0
  Fits g i o =
      (reads x (or_else g.std_in i) ≤ reads x i) × (writes x (or_else g.std_out o) ≤ writes x o)

  unwired-Fits : (n : Node) (i o : Stream) → IsUnwired n → Fits (fields n) i o
  unwired-Fits n i o h = (
    reads-plain x (fields n).std_in i (fields-IsPlain n h).0,
    writes-plain x (fields n).std_out o (fields-IsPlain n h).1,
  )

  root-Fits :
      (t : Node)
      → IsUnwired t
      → Fits
          (fields t)
          (or_else (fields t).std_in (create_std_stream stdin_fileno))
          (or_else (fields t).std_out (create_std_stream stdout_fileno))
  root-Fits t u = (
    omega (arith, ap (reads x) (or_else_twice (fields t).std_in (create_std_stream stdin_fileno))),
    omega
        (arith, ap (writes x) (or_else_twice (fields t).std_out (create_std_stream stdout_fileno))),
  )

  -- for the first operand, which reads what the operator node reads, and for another
  operand-Fits :
      (n : Node) (first_in : Option Stream) (o : Stream)
      → IsUnwired n
      → let g = redirect_first first_in (fields n) in
        let i = or_else g.std_in (create_std_stream stdin_fileno) in
        Fits g i o × (reads x i ≤ of_stream x (reads x) first_in)
  operand-Fits n none o h = (
    (
      omega
          (arith, ap (reads x) (or_else_twice (fields n).std_in (create_std_stream stdin_fileno))),
      writes-plain x (fields n).std_out o (fields-IsPlain n h).1,
    ),
    reads-plain x (fields n).std_in (create_std_stream stdin_fileno) (fields-IsPlain n h).0,
  )
  operand-Fits n (some s) o h =
      ((omega arith, writes-plain x (fields n).std_out o (fields-IsPlain n h).1), omega arith)

  -- the tree and the number after its pipes, when it is wired to read `i` and write `o`
  abbrev Counted : Option (Node × PipeStream) → Stream → Stream → PipeStream → Type 0
  Counted wired i o next =
      (m : Node) × (k : ℕ) × (wired ≡ some (m, k))
      × (next ≤ k)
      × (readers x m ≤ reads x i + within x next k)
      × (writers x m ≤ writes x o + within x next k)

  -- an operator whose operands write into pipes that its appender reads
  appended-Counted :
      (ns : Nodes) (g : NodeFields) (op : Operator) (i o : Stream) (next : ℕ)
      → ((ms : Nodes) × (from : List Stream) × (k : ℕ) × (wire_operand_nodes ns (some i) next
            ≡ some ((ms, from), k))
          × (next ≤ k)
          × (of_streams x from + readers_of_nodes x ms ≤ reads x i + within x next k)
          × (writers_of_nodes x ms ≤ within x next k))
      → Counted
          (wire_operand_nodes ns (some i) next >>= λ (ms, from) k.
            some (operands (set_streams g i o) op (some (record { from = from; to = o })) ms, k))
          i
          o
          next
  unfolding readers writers
  appended-Counted ns g op i o next (ms, from, k, e, le, r, w) = (
    operands (set_streams g i o) op (some (record { from = from; to = o })) ms,
    k,
    rw e,
    le,
    r,
    omega (arith, w),
  )

  mutual
    unfolding wire_node HasPipes IsUnwired readers writers

    wire_node-Counted :
        (n : Node) (g : NodeFields) (i o : Stream) (next : ℕ)
        → HasPipes n
        → IsUnwired n
        → Fits g i o
        → Counted (wire_node n g i o next) i o next
    wire_node-Counted (executable f e) g i o next h u fit = (
      executable (set_streams g i o) e,
      next,
      refl,
      omega arith,
      omega (arith, fit.0),
      omega (arith, fit.1),
    )
    wire_node-Counted (operands f pipe_node a ns) g i o next h u fit =
        let (ms, k, e, le, r, w) = wire_pipe-Counted ns i o next h.0 h.1 u.2 in
        (
          operands (set_streams g i o) pipe_node a ms,
          k,
          rw e,
          le,
          rw u.3 (omega (arith, r)),
          rw u.3 (omega (arith, w)),
        )
    wire_node-Counted (operands f and_node a ns) g i o next h u fit =
        appended-Counted ns g and_node i o next (wire_operand-Counted ns (some i) next h u.2)
    wire_node-Counted (operands f or_node a ns) g i o next h u fit =
        appended-Counted ns g or_node i o next (wire_operand-Counted ns (some i) next h u.2)
    wire_node-Counted (operands f semicolon_node a ns) g i o next h u fit =
        appended-Counted ns g semicolon_node i o next (wire_operand-Counted ns (some i) next h u.2)

    wire_pipe-Counted :
        (ns : Nodes) (i o : Stream) (next : ℕ)
        → TwoOrMore ns
        → HavePipes ns
        → AreUnwired ns
        → (ms : Nodes) × (k : ℕ) × (wire_pipe_nodes ns i o next ≡ some (ms, k))
          × (next ≤ k)
          × (readers_of_nodes x ms ≤ reads x i + within x next k)
          × (writers_of_nodes x ms ≤ writes x o + within x next k)
    wire_pipe-Counted nil i o next t h u = absurd t
    wire_pipe-Counted (cons n rest) i o next t h u =
        let pipe = wrap_pipe_into_stream next write_into_pipe in
        let (m, k, e, le, r, w) =
          wire_node-Counted n (fields n) i pipe (next + length (to_list rest)) h.0 u.0
            (unwired-Fits n i pipe u.0) in
        let (ms, l, e', le', r', w') = wire_right-Counted rest next o k h.1 u.1 in
        (
          cons m ms,
          l,
          rw (e, e') (two_or_more n rest (cons m ms, l) t),
          omega (arith, le, le'),
          omega (
            arith,
            r,
            r',
            within_join x next (next + length (to_list rest)) k,
            within_join x next k l,
            le,
            le',
          ),
          omega (
            arith,
            w,
            w',
            writes_one x next,
            within_join x next (next + 1) (next + length (to_list rest)),
            within_join x next (next + length (to_list rest)) k,
            within_join x next k l,
            le,
            le',
            rest_length n rest t,
            last_most x rest o,
          ),
        )

    wire_right-Counted :
        (ns : Nodes) (left : ℕ) (o : Stream) (next : ℕ)
        → HavePipes ns
        → AreUnwired ns
        → (ms : Nodes) × (k : ℕ) × (wire_right_nodes ns left o next ≡ some (ms, k))
          × (next ≤ k)
          × (readers_of_nodes x ms ≤ within x left (left + length (to_list ns)) + within x next k)
          × (writers_of_nodes x ms
              ≤ last_writes x ns o
                + within x (left + 1) (left + length (to_list ns))
                + within x next k)
    wire_right-Counted nil left o next h u =
        (nil, next, refl, omega arith, omega arith, omega arith)
    wire_right-Counted (cons n rest) left o next h u =
        let pipe = wrap_pipe_into_stream left read_from_pipe in
        let out = center_to_right rest (left + 1) o in
        let (m, k, e, le, r, w) =
          wire_node-Counted n (fields n) pipe out next h.0 u.0 (unwired-Fits n pipe out u.0) in
        let (ms, l, e', le', r', w') = wire_right-Counted rest (left + 1) o k h.1 u.1 in
        (
          cons m ms,
          l,
          rw (e, e'),
          omega (arith, le, le'),
          omega (
            arith,
            r,
            r',
            reads_one x left,
            within_join x left (left + 1) (left + 1 + length (to_list rest)),
            ap (within x left) (one_more rest left),
            within_join x next k l,
            le,
            le',
          ),
          omega (
            arith,
            w,
            w',
            center_writes x rest (left + 1) o,
            ap (within x (left + 1)) (one_more rest left),
            within_join x next k l,
            le,
            le',
          ),
        )

    wire_operand-Counted :
        (ns : Nodes) (first_in : Option Stream) (next : ℕ)
        → HavePipes ns
        → AreUnwired ns
        → (ms : Nodes) × (from : List Stream) × (k : ℕ) × (wire_operand_nodes ns first_in next
            ≡ some ((ms, from), k))
          × (next ≤ k)
          × (of_streams x from + readers_of_nodes x ms
              ≤ of_stream x (reads x) first_in + within x next k)
          × (writers_of_nodes x ms ≤ within x next k)
    wire_operand-Counted nil first_in next h u =
        (nil, [], next, refl, omega arith, omega arith, omega arith)
    wire_operand-Counted (cons n rest) first_in next h u =
        let g = redirect_first first_in (fields n) in
        let i = or_else g.std_in (create_std_stream stdin_fileno) in
        let pipe = wrap_pipe_into_stream next write_into_pipe in
        let (fit, first) = operand-Fits n first_in pipe u.0 in
        let (m, k, e, le, r, w) = wire_node-Counted n g i pipe (next + 1) h.0 u.0 fit in
        let (ms, from, l, e', le', r', w') = wire_operand-Counted rest none k h.1 u.1 in
        (
          cons m ms,
          wrap_pipe_into_stream next read_from_pipe ∷ from,
          l,
          rw (e, e'),
          omega (arith, le, le'),
          omega (
            arith,
            r,
            r',
            first,
            reads_one x next,
            within_join x next (next + 1) k,
            within_join x next k l,
            le,
            le',
          ),
          omega (
            arith,
            w,
            w',
            writes_one x next,
            within_join x next (next + 1) k,
            within_join x next k l,
            le,
            le',
          ),
        )

-- wire_redirects of a tree that has no pipes yet, and whose pipe nodes have two operands or more, ends
-- with a tree in which no two processes read from the same pipe and no two write into it. The
-- processes are the executables and the appenders.
pub wire_redirects-unshared :
    (t : Node)
    → HasPipes t
    → IsUnwired t
    → (t' : Node) × (wire_redirects t ≡ some t')
      × ((x : PipeStream) → (readers x t' ≤ 1) × (writers x t' ≤ 1))
unfolding wire_redirects
wire_redirects-unshared t h u =
    let (t', e, w) = wire_redirects-IsWired t h in
    (
      t',
      e,
      λ x.
          let i = or_else (fields t).std_in (create_std_stream stdin_fileno) in
          let o = or_else (fields t).std_out (create_std_stream stdout_fileno) in
          let (m, k, e', le, r, w) = wire_node-Counted x t (fields t) i o 0 h u (root-Fits x t u) in
          let same = some-injective m t' (rw (e', wire_redirects) at e) in
          subst (λ t'. (readers x t' ≤ 1) × (writers x t' ≤ 1)) same
            (
              omega (
                arith,
                r,
                within_most x 0 k,
                reads-plain x (fields t).std_in (create_std_stream stdin_fileno)
                    (fields-IsPlain t u).0,
              ),
              omega (
                arith,
                w,
                within_most x 0 k,
                writes-plain x (fields t).std_out (create_std_stream stdout_fileno)
                    (fields-IsPlain t u).1,
              ),
            ),
    )
