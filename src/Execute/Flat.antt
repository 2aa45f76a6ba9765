-- ===== src/Execute/Flat.antt =====
-- An operator node whose operands are executables, in the state of an execution: what the search by
-- pid and the writes of src/execute/execute.c do to the operand that is running.
pub mod Collect
pub mod Reports
pub mod Next
pub mod Ended
pub mod Shell
pub mod Pipe
pub mod Reported
pub mod Piped
use command_stats.Common.{
  ℕ, ◌≡◌, ◌≢◌, refl, ap, ◌∙◌, Bool, true, false, List, [], ◌∷◌, ◌++◌, Option, none, some, arith,
  ◌==◌, ==_iff, All, map, ◌||◌,
}
use command_stats.Common.Distinct.{has, Distinct}
use command_stats.Structs.Stream.{Appender}
use command_stats.Structs.Node.{
  NodeFields, ExecutableNode, Operator, Node, executable, operands, Nodes, nil, cons,
  addresses_of_nodes, IsOperand, head, tail,
}
use command_stats.Execute.Single.{find_node-own}
use command_stats.Structs.Walk.{
  Found, set_father, find_node_in_tree_with_pid, find_in_operands_with_pid,
}
use command_stats.Execute.Manage.{write_node, write_among}
use command_stats.Execute.Root.{behind}

pub record Command : Type 0 where
  pub own : NodeFields
  pub value : ExecutableNode

abbrev pub to_node : Command → Node
to_node c = executable c.own c.value

abbrev pub to_nodes : List Command → Nodes
to_nodes [] = nil
to_nodes (c ∷ cs) = cons (to_node c) (to_nodes cs)

abbrev pub tree_of : NodeFields → Operator → Option Appender → List Command → Node
tree_of f op a cs = operands f op a (to_nodes cs)

abbrev pub keys : List Command → List ℕ
keys [] = []
keys (c ∷ cs) = c.own.address ∷ keys cs

-- the node of the first command
abbrev pub first : List Command → Option Node
first [] = none
first (c ∷ cs) = some (to_node c)

pub addresses-keys : (cs : List Command) → addresses_of_nodes (to_nodes cs) ≡ keys cs
unfolding addresses_of_nodes
addresses-keys [] = refl
addresses-keys (c ∷ cs) = ap (λ (ks : List ℕ). c.own.address ∷ ks) (addresses-keys cs)

pub keys-replaced :
    (pre : List Command) (c d : Command) (rest : List Command)
    → c.own.address ≡ d.own.address
    → keys (pre ++ c ∷ rest) ≡ keys (pre ++ d ∷ rest)
keys-replaced [] c d rest h = rw h refl
keys-replaced (p ∷ pre) c d rest h =
    ap (λ (ks : List ℕ). p.own.address ∷ ks) (keys-replaced pre c d rest h)

-- the operand behind `pre`
pub operand :
    (pre : List Command) (c : Command) (rest : List Command)
    → IsOperand (to_node c) (to_nodes (pre ++ c ∷ rest))
operand [] c rest = head
operand (p ∷ pre) c rest = tail (operand pre c rest)

pub behind-operand :
    (pre : List Command) (c : Command) (rest : List Command)
    → behind (operand pre c rest) ≡ first rest
unfolding behind operand
behind-operand [] c [] = refl
behind-operand [] c (d ∷ rest) = refl
behind-operand (p ∷ pre) c rest = behind-operand pre c rest

pub has-key :
    (pre : List Command) (c : Command) (rest : List Command) (a : ℕ)
    → has a (keys (pre ++ c ∷ rest)) ≡ false
    → (a == c.own.address) ≡ false
has-key [] c rest a h = ground arith
has-key (p ∷ pre) c rest a h = has-key pre c rest a (ground arith)

write-absent :
    (p : ℕ) (new : Node) (cs : List Command)
    → has p (keys cs) ≡ false
    → write_among p new (to_nodes cs) ≡ to_nodes cs
unfolding write_among
write-absent p new [] h = refl
write-absent p new (c ∷ cs) h = ground (arith, write-absent p new cs)

-- A write to the running operand changes this one.
pub write-operand :
    (pre : List Command) (c d : Command) (rest : List Command)
    → Distinct (keys (pre ++ c ∷ rest))
    → write_among c.own.address (to_node d) (to_nodes (pre ++ c ∷ rest))
      ≡ to_nodes (pre ++ d ∷ rest)
unfolding write_among
write-operand [] c d rest h = ground (arith, write-absent c.own.address (to_node d) rest)
write-operand (p ∷ pre) c d rest h =
    ground (arith, has-key pre c rest p.own.address h.0, write-operand pre c d rest h.1)

find_other :
    (tree : Node) (c : Command) (ns : Nodes) (pid : ℕ)
    → c.own.pid ≢ pid
    → find_in_operands_with_pid tree (cons (to_node c) ns) pid
      ≡ find_in_operands_with_pid tree ns pid
unfolding find_in_operands_with_pid
find_other tree c ns pid h = ground arith

find_own :
    (tree : Node) (n : Node) (ns : Nodes) (pid : ℕ) (r : Found)
    → find_node_in_tree_with_pid n pid ≡ some r
    → find_in_operands_with_pid tree (cons n ns) pid ≡ some (set_father tree r)
unfolding find_in_operands_with_pid
find_own tree n ns pid r h = ground (arith, h)

-- The search by pid finds the running operand, whose pid none in front of it has.
pub find_in_operands-running :
    (tree : Node) (pre : List Command) (c : Command) (rest : List Command) (pid : ℕ)
    → pid ≡ c.own.pid
    → All (λ p. p.own.pid ≢ pid) pre
    → find_in_operands_with_pid tree (to_nodes (pre ++ c ∷ rest)) pid
      ≡ some (record { result = to_node c; result_father = some tree })
unfolding set_father
find_in_operands-running tree [] c rest pid e h =
    find_own tree (to_node c) (to_nodes rest) pid
      (record { result = to_node c; result_father = none }) (find_node-own c.own c.value pid e)
find_in_operands-running tree (p ∷ pre) c rest pid e h =
    find_other tree p (to_nodes (pre ++ c ∷ rest)) pid h.0
    ∙ find_in_operands-running tree pre c rest pid e h.1

-- It finds no node for a pid that no operand has.
pub find_in_operands-stranger :
    (tree : Node) (cs : List Command) (pid : ℕ)
    → All (λ p. p.own.pid ≢ pid) cs
    → find_in_operands_with_pid tree (to_nodes cs) pid ≡ none
unfolding find_in_operands_with_pid
find_in_operands-stranger tree [] pid h = refl
find_in_operands-stranger tree (p ∷ cs) pid h =
    find_other tree p (to_nodes cs) pid h.0 ∙ find_in_operands-stranger tree cs pid h.1
