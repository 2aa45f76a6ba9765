-- ===== src/Tests/Trees.antt =====
-- The command tree: its functions, and its wiring.
use command_stats.Common.Text.{codes}
use command_stats.Common.{◌≡◌, refl, false, [], none, some, ◌≤◌}
use command_stats.Structs.Stream.{
  PipeStream, Stream, file_stream, create_truncate, read_only, pipe_stream, write_into_pipe,
  read_from_pipe,
}
use command_stats.Structs.Node.{
  Node, executable, operands, nil, cons, self, under, first, head, tail, and_node, pipe_node, Nodes,
  fields, NodeFields,
}
use command_stats.Structs.Walk.{find_father_of_node_in_tree, find_node_in_tree_with_pid}
use command_stats.Structs.Father.{find_father-IsOperand}
use command_stats.Structs.Found.{Answer, find_node-Answer}
use command_stats.Builtin.Cd.{is_pipe}
use command_stats.Builtin.Wire.{wire_redirects}
use command_stats.Builtin.Wire.Complete.{HasPipes, HavePipes, IsWired, wire_redirects-IsWired}
use command_stats.Builtin.Wire.Pipes.{readers, writers, IsUnwired}
use command_stats.Builtin.Wire.Pipes.Unshared.{wire_redirects-unshared}
use command_stats.Builtin.Wire.Redirects.{
  appender_target, operand_std_in, wire_redirects-own_ignored,
}
use command_stats.Tests.Samples.{
  command, make, fields_at, test, both, and_tree, tree, tree-Distinct, standard_in, standard_out,
}

find_father-IsOperand_example : find_father_of_node_in_tree 3 tree ≡ some and_tree
find_father-IsOperand_example =
    find_father-IsOperand (fields_at 1) and_node none both test tree (tail head)
      (under (first self)) tree-Distinct

find_node-Answer_example : Answer tree 100 (find_node_in_tree_with_pid tree 100)
find_node-Answer_example = find_node-Answer tree 100

tree-HasPipes : HasPipes tree
unfolding HasPipes
tree-HasPipes = (tt, ((tt, (tt, tt)), (tt, tt)))

wire_redirects-IsWired_example :
    (t' : Node) × (wire_redirects tree ≡ some t')
    × IsWired tree (fields tree) standard_in standard_out t'
wire_redirects-IsWired_example = wire_redirects-IsWired tree tree-HasPipes

tree-IsUnwired : IsUnwired tree
unfolding IsUnwired
tree-IsUnwired = (tt, tt, ((tt, tt, ((tt, tt), ((tt, tt), tt)), refl), ((tt, tt), tt)), refl)

wire_redirects-unshared_example :
    (t' : Node) × (wire_redirects tree ≡ some t')
    × ((x : PipeStream) → (readers x t' ≤ 1) × (writers x t' ≤ 1))
wire_redirects-unshared_example = wire_redirects-unshared tree tree-HasPipes tree-IsUnwired

-- cat | (make && test) < file > file | less
abbrev to_file : Stream
to_file = file_stream (record { name = []; open_flag = create_truncate })

abbrev from_file : Stream
from_file = file_stream (record { name = []; open_flag = read_only })

abbrev redirected : NodeFields
redirected = record (fields_at 1) { std_in = some from_file; std_out = some to_file }

abbrev cat : Node
cat = executable (fields_at 5) (command (codes "cat"))

abbrev less : Node
less = executable (fields_at 4) (command (codes "less"))

abbrev and_redirected : Node
and_redirected = operands redirected and_node none both

is_and : is_pipe and_node ≡ false
unfolding is_pipe
is_and = refl

pieces-HavePipes : HavePipes (cons cat (cons less both))
unfolding HasPipes
pieces-HavePipes = (tt, (tt, (tt, (tt, tt))))

none-HavePipes : HavePipes nil
unfolding HasPipes
none-HavePipes = tt

wire_redirects-own_ignored_example :
    (x' q' y' : Node) × (rest' : Nodes) × (g : NodeFields) × (wire_redirects
        (operands (fields_at 0) pipe_node none (cons cat (cons and_redirected (cons less nil))))
      ≡ some (operands g pipe_node none (cons x' (cons q' (cons y' rest')))))
    × ((fields x').std_out ≡ some (pipe_stream 0 write_into_pipe))
    × ((fields q').std_in ≡ some from_file)
    × (operand_std_in q' ≡ some (pipe_stream 0 read_from_pipe))
    × ((fields q').std_out ≡ some to_file)
    × (appender_target q' ≡ some (pipe_stream 1 write_into_pipe))
    × ((fields y').std_in ≡ some (pipe_stream 1 read_from_pipe))
wire_redirects-own_ignored_example =
    wire_redirects-own_ignored (fields_at 0) redirected none none and_node cat make less
      (cons test nil) nil from_file to_file is_and refl refl refl refl pieces-HavePipes
      none-HavePipes
