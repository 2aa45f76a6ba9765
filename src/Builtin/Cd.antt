-- ===== src/Builtin/Cd.antt =====
-- The `cd` commands of a tree (apply_cd_builtin of src/parse/builtin.c). The loop over the operands
-- of a node runs on their array and an index, as in the source. A write of `value.executable` to an
-- operator node is a `fault`.
pub mod Commands
pub mod Sequence
use command_stats.Common.{
  ℕ, zero, suc, ◌+◌, Bool, true, false, ◌&&◌, [], ◌∷◌, ◌++◌, none, some, ◌==◌, if◌then◌else◌,
  get_elem?,
}
use command_stats.Common.Outcome.{Outcome, done, fault, out_of_fuel, ◌>>=◌}
use command_stats.Common.Text.{Text, codes, text_eq}
use command_stats.Structs.Node.{
  NodeFields, Operator, pipe_node, ExecutableNode, Node, executable, operands, Nodes, nil, cons,
  address, to_list,
}
use command_stats.Structs.Walk.{find_next_node_in_operands, remove_node_from_operands}

unfoldable pub add_cd : ExecutableNode → Text → ExecutableNode
add_cd e dir = record e { cd = e.cd ++ dir ∷ [] }

-- strcmp (executable->path, "cd") == 0 && executable->argc == 2
unfoldable pub is_cd : ExecutableNode → Bool
is_cd e = text_eq e.path (codes "cd") && e.argc == 2

-- father->type != PipeNode_T
unfoldable pub is_pipe : Operator → Bool
is_pipe pipe_node = true
is_pipe _ = false

-- add_cd (&brother->value.executable, dir), through the pointer `brother`
unfoldable pub add_cd_at : ℕ → Text → Nodes → Outcome Nodes
add_cd_at brother dir nil = fault
add_cd_at brother dir (cons (executable f e) ns) =
    if f.address == brother
    then done (cons (executable f (add_cd e dir)) ns)
    else add_cd_at brother dir ns >>= λ ms. done (cons (executable f e) ms)
add_cd_at brother dir (cons (operands f op a ms) ns) =
    if f.address == brother
    then fault
    else add_cd_at brother dir ns >>= λ rest. done (cons (operands f op a ms) rest)

-- executable->argv[1]
unfoldable pub second_argument : ExecutableNode → Outcome Text
second_argument e = elim (get_elem? e.argv 1) [ none ↦ fault | some dir ↦ done dir ]

-- the do-while loop over the brothers behind `brother`
unfoldable pub add_cd_to_brothers : ℕ → ExecutableNode → Nodes → ℕ → Outcome Nodes
add_cd_to_brothers zero e ns brother = out_of_fuel
add_cd_to_brothers (suc k) e ns brother = elim (find_next_node_in_operands ns brother) [
  | none ↦ done ns
  | some next ↦ second_argument e >>= λ dir.
      add_cd_at (address next) dir ns >>= λ ms. add_cd_to_brothers k e ms (address next)
]

-- operands->nodes[i] = node
unfoldable pub set_node : Nodes → ℕ → Node → Nodes
set_node nil i m = nil
set_node (cons n ns) zero m = cons m ns
set_node (cons n ns) (suc i) m = cons n (set_node ns i m)

-- What the executable at index `i` does to the operands of its father, and the next index: the
-- operands have lost one if and only if it is this one.
unfoldable pub apply_cd_to_executable :
    ℕ → Operator → Nodes → ℕ → NodeFields → ExecutableNode → Outcome (Nodes × ℕ)
unfolding is_cd is_pipe add_cd_to_brothers second_argument
apply_cd_to_executable k op ns i f e =
    if is_cd e
    then (if is_pipe op
        then (second_argument e >>= λ dir.
            done (set_node ns i (executable f (add_cd e dir)), i + 1))
        else (add_cd_to_brothers k e ns f.address >>= λ ms.
            done (remove_node_from_operands ms f.address, i)))
    else done (ns, i + 1)

-- The loop of apply_cd_builtin_r over the operands `ns` of a node, from index `i`.
unfoldable pub apply_cd_to_operands : ℕ → Operator → Nodes → ℕ → Outcome Nodes
unfolding apply_cd_to_executable
apply_cd_to_operands zero op ns i = out_of_fuel
apply_cd_to_operands (suc k) op ns i = elim (get_elem? (to_list ns) i) [
  | none ↦ done ns
  | some n ↦ elim n [
    | executable f e ↦
        apply_cd_to_executable k op ns i f e >>= λ (ms, j). apply_cd_to_operands k op ms j
    | operands f o a below ↦ apply_cd_to_operands k o below 0 >>= λ below'.
        apply_cd_to_operands k op (set_node ns i (operands f o a below')) (i + 1)
  ]
]

-- apply_cd_builtin: apply_cd_builtin_r of the root, whose father is NULL
unfoldable pub apply_cd_builtin : ℕ → Node → Outcome Node
unfolding apply_cd_to_operands
apply_cd_builtin k (executable f e) =
    if is_cd e
    then (second_argument e >>= λ dir. done (executable f (add_cd e dir)))
    else done (executable f e)
apply_cd_builtin k (operands f op a ns) =
    apply_cd_to_operands k op ns 0 >>= λ ms. done (operands f op a ms)
