-- ===== src/Execute/Flat/Collect.antt =====
-- The running operand of an operator of executables is reported: the step of the loop over wait3.
use command_stats.Common.{
  ℕ, zero, suc, ◌+◌, ◌-◌, ◌<◌, ◌≡◌, refl, sym, ◌∙◌, List, ◌∷◌, ◌++◌, Option, none, some, arith,
  length,
}
use command_stats.Common.Distinct.{Distinct}
use command_stats.Common.Outcome.{Outcome, done}
use command_stats.Structs.Stream.{Appender}
use command_stats.Structs.Node.{
  ExecutionResult, NodeFields, Operator, Node, operands, address, addresses, addresses_of_nodes,
}
use command_stats.Structs.Walk.{Found, find_node_in_tree_with_pid}
use command_stats.Execute.System.{System, Machine, WaitResult, ask, exited_correctly}
use command_stats.Execute.Manage.{
  write_node, assign_results, action, is_some, collect, manage_running_nodes, handle_completed,
  read_exit_code,
}
use command_stats.Execute.Single.{reported}
use command_stats.Execute.Root.{after_action, behind, handle_completed-root}
use command_stats.Execute.Flat.{
  Command, tree_of, to_node, to_nodes, keys, first, addresses-keys, keys-replaced, operand,
  behind-operand, has-key, write-operand,
}

manage-stranger :
    (k : ℕ) (sys : System) (tree : Node) (m : Machine)
    → m.to_wait ≡ 1
    → find_node_in_tree_with_pid tree (sys.wait3 m.asked).pid ≡ none
    → manage_running_nodes (suc k) sys tree m ≡ manage_running_nodes k sys tree (ask m)
unfolding manage_running_nodes
manage-stranger k sys tree m one stranger = ground (arith, stranger)

-- While wait3 reports strangers, only the number of its calls changes.
pub manage-strangers :
    (d k : ℕ) (sys : System) (tree : Node) (m : Machine)
    → m.to_wait ≡ 1
    → ((i : ℕ) → i < d → find_node_in_tree_with_pid tree (sys.wait3 (m.asked + i)).pid ≡ none)
    → manage_running_nodes (d + k) sys tree m
      ≡ manage_running_nodes k sys tree (record m { asked = m.asked + d })
manage-strangers zero k sys tree m one strangers =
    let none_left : 0 + k ≡ k = omega arith in
    let same : m.asked + 0 ≡ m.asked = omega arith in rw (none_left, same) refl
manage-strangers (suc d) k sys tree m one strangers =
    let more : suc d + k ≡ suc (d + k) = omega arith in
    let sum : (i : ℕ) → m.asked + 1 + i ≡ m.asked + suc i = λ i. omega arith in
    let z : m.asked + 0 ≡ m.asked = omega arith in
    rw more (
      manage-stranger (d + k) sys tree m one (rw z at (strangers 0 (omega arith)))
      ∙ rw (sym (sum d)) (
          manage-strangers d k sys tree (ask m) one
            (λ i lt. rw (sum i) (strangers (suc i) (omega (arith, lt))))))

-- The report of a node that is found in the tree.
pub manage-found :
    {n : ℕ} (k : ℕ) (sys : System) (tree : Node) (m : Machine) (found : Found) (t' : Node)
    (m' : Machine)
    → m.to_wait ≡ suc n
    → find_node_in_tree_with_pid tree (sys.wait3 m.asked).pid ≡ some found
    → collect sys found (sys.wait3 m.asked) tree (ask m) ≡ done (t', m')
    → manage_running_nodes (suc k) sys tree m
      ≡ manage_running_nodes k sys t' (record m' { to_wait = m'.to_wait - 1 })
unfolding manage_running_nodes
manage-found {n} k sys tree m found t' m' one e h = ground (arith, e, h)

collect-father :
    (sys : System) (n father n' tree tree' : Node) (w : WaitResult) (m : Machine)
    (x : Outcome (Node × Machine))
    → assign_results sys m n w ≡ done n'
    → write_node (address n') n' tree ≡ tree'
    → handle_completed (length (addresses tree')) sys (address father) (address n') tree' (ask m)
      ≡ x
    → collect sys (record { result = n; result_father = some father }) w tree m ≡ x
unfolding collect
collect-father sys n father n' tree tree' w m x assigned written handled =
    rw (assigned, collect) (rw written handled)

-- the command with the result that assign_results gives it
abbrev pub completed : System → Machine → Command → ExecutionResult → WaitResult → Command
completed sys m c rc w = record c { own = record c.own { result = some (reported sys m rc w) } }

module _ (sys : System) (f : NodeFields) (op : Operator) (a : Option Appender)
    (r : ExecutionResult) where
  Distinct-replaced :
      (pre : List Command) (c d : Command) (rest : List Command)
      → c.own.address ≡ d.own.address
      → Distinct (f.address ∷ keys (pre ++ c ∷ rest))
      → Distinct (addresses (tree_of f op a (pre ++ d ∷ rest)))
  unfolding addresses
  Distinct-replaced pre c d rest h dist =
      rw (addresses-keys (pre ++ d ∷ rest), sym (keys-replaced pre c d rest h)) dist

  pub write-tree :
      (pre : List Command) (c d : Command) (rest : List Command)
      → Distinct (f.address ∷ keys (pre ++ c ∷ rest))
      → write_node c.own.address (to_node d) (tree_of f op a (pre ++ c ∷ rest))
        ≡ tree_of f op a (pre ++ d ∷ rest)
  unfolding write_node
  write-tree pre c d rest dist =
      ground (arith, has-key pre c rest f.address dist.0, write-operand pre c d rest dist.1)

  exit_code-completed :
      (m : Machine) (c : Command) (rc : ExecutionResult) (w : WaitResult)
      → read_exit_code (to_node (completed sys m c rc w)) ≡ done w.status
  unfolding read_exit_code
  exit_code-completed m c rc w = refl

  assign-running :
      (m : Machine) (c : Command) (rc : ExecutionResult) (w : WaitResult)
      → c.own.result ≡ some rc
      → assign_results sys m (to_node c) w ≡ done (to_node (completed sys m c rc w))
  unfolding assign_results
  assign-running m c rc w h = rw (h, assign_results) refl

  -- What becomes of the tree when wait3 reports the running operand.
  pub collect-running :
      (pre : List Command) (c : Command) (rest : List Command) (rc : ExecutionResult)
      (w : WaitResult) (m : Machine)
      → Distinct (f.address ∷ keys (pre ++ c ∷ rest))
      → f.result ≡ some r
      → c.own.result ≡ some rc
      → collect sys
          (record { result = to_node c; result_father = some (tree_of f op a (pre ++ c ∷ rest)) })
          w
          (tree_of f op a (pre ++ c ∷ rest))
          m
        ≡ after_action sys
            (tree_of f op a (pre ++ completed sys m c rc w ∷ rest))
            r
            (first rest)
            (ask m)
            (action op w.status (exited_correctly sys w.status) (is_some (first rest)))
  unfolding addresses
  collect-running pre c rest rc w m dist hr hc =
      let d = completed sys m c rc w in
      let ns = to_nodes (pre ++ d ∷ rest) in
      let step : handle_completed (suc (length (addresses_of_nodes ns))) sys f.address c.own.address
            (operands f op a ns) (ask m)
          ≡ after_action sys (operands f op a ns) r (behind (operand pre d rest)) (ask m) (
              action op w.status (exited_correctly sys w.status)
                (is_some (behind (operand pre d rest)))) =
        handle_completed-root (length (addresses_of_nodes ns)) sys f op a ns r (to_node d) w.status
          (ask m) (operand pre d rest) (Distinct-replaced pre c d rest refl dist) hr
          (exit_code-completed m c rc w) in
      collect-father sys (to_node c) (tree_of f op a (pre ++ c ∷ rest)) (to_node d)
        (tree_of f op a (pre ++ c ∷ rest)) (operands f op a ns) w m _ (assign-running m c rc w hc)
        (write-tree pre c d rest dist) (rw (sym (behind-operand pre d rest)) step)
