-- ===== src/Structs/Node.antt =====
-- src/structs/node.h: the command tree. The union of `Node` and its tag are the two constructors of
-- `Node`; the tags of the operator nodes are an `Operator`. A pointer to a node is its `address`.
use command_stats.Common.{ℕ, Bool, List, [], ◌∷◌, ◌++◌, Option}
use command_stats.Common.Int.{ℤ}
use command_stats.Common.Text.{Text}
use command_stats.Structs.Stream.{Stream, Appender}

-- The values of NodeType but ExecutableNode_T, which is the other constructor of `Node`.
pub data Operator : Type 0 where
  pipe_node and_node or_node semicolon_node : Operator

-- `argv` holds the entries that are written, `argc` is the source's count of them, and `null_index`
-- is the index at which the array's closing NULL stands. `cd_count` is the length of `cd`.
pub record ExecutableNode : Type 0 where
  pub path : Text
  pub argv : List Text
  pub argc : ℕ
  pub null_index : ℕ
  pub cd : List Text

-- struct timespec and struct timeval, the smaller unit behind the seconds
pub record Timespec : Type 0 where
  pub tv_sec : ℤ
  pub tv_nsec : ℤ

pub record Timeval : Type 0 where
  pub tv_sec : ℕ
  pub tv_usec : ℕ

-- `none` in a field says that it has not been written since `malloc`.
pub record ExecutionResult : Type 0 where
  pub invocation_failed : Bool
  pub exit_code : Option ℕ
  pub start_time : Timespec
  pub end_time : Option Timespec
  pub user_cpu_time_used : Option Timeval
  pub system_cpu_time_used : Option Timeval
  pub maximum_resident_set_size : Option ℕ

-- What every node has. `pid` holds whatever the memory held until the node is started.
pub record NodeFields : Type 0 where
  pub address : ℕ
  pub std_in : Option Stream
  pub std_out : Option Stream
  pub result : Option ExecutionResult
  pub pid : ℕ

-- `count` is the number of `nodes`.
mutual
  pub data Node : Type 0 where
    executable : NodeFields → ExecutableNode → Node
    operands : NodeFields → Operator → Option Appender → Nodes → Node

  pub data Nodes : Type 0 where
    nil : Nodes
    cons : Node → Nodes → Nodes

abbrev pub fields : Node → NodeFields
fields (executable f e) = f
fields (operands f op a ns) = f

abbrev pub address : Node → ℕ
address n = (fields n).address

abbrev pub to_list : Nodes → List Node
to_list nil = []
to_list (cons n ns) = n ∷ to_list ns

-- The addresses of a tree, its root's first.
unfoldable mutual
  pub addresses : Node → List ℕ
  addresses (executable f e) = f.address ∷ []
  addresses (operands f op a ns) = f.address ∷ addresses_of_nodes ns

  pub addresses_of_nodes : Nodes → List ℕ
  addresses_of_nodes nil = []
  addresses_of_nodes (cons n ns) = addresses n ++ addresses_of_nodes ns

-- A node of a tree, the root included.
mutual
  pub data IsIn (x : Node) : Node → Type 0 where
    self : IsIn x x
    under :
        {f : NodeFields} {op : Operator} {a : Option Appender} {ns : Nodes}
        → IsInNodes x ns
        → IsIn x (operands f op a ns)

  pub data IsInNodes (x : Node) : Nodes → Type 0 where
    first : {n : Node} {ns : Nodes} → IsIn x n → IsInNodes x (cons n ns)
    later : {n : Node} {ns : Nodes} → IsInNodes x ns → IsInNodes x (cons n ns)

-- A node among the operands of one operator.
pub data IsOperand (x : Node) : Nodes → Type 0 where
  head : {ns : Nodes} → IsOperand x (cons x ns)
  tail : {n : Node} {ns : Nodes} → IsOperand x ns → IsOperand x (cons n ns)
