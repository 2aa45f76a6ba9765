-- ===== src/Execute/Failed.antt =====
-- The handler of SIGUSR1, by which a child reports that its execvp has failed (on_execution_failed
-- of src/execute/execute.c).
pub mod Marked
use mathlib.Core.Path.{ap₂}
use command_stats.Common.{
  ℕ, ◌≡◌, refl, sym, ap, ◌∙◌, true, false, List, [], ◌∷◌, ◌++◌, Option, none, some, arith, ◌==◌,
  ==_iff, if◌then◌else◌, Bool-cases, inl, inr,
}
use command_stats.Common.Distinct.{
  has, has-append, has-append_left, has-append_right, Distinct, Distinct-left, Distinct-right,
  Distinct-apart,
}
use command_stats.Common.Outcome.{done, ◌>>=◌}
use command_stats.Structs.Node.{
  ExecutionResult, NodeFields, ExecutableNode, Node, executable, operands, Nodes, nil, cons, fields,
  address, addresses, addresses_of_nodes, IsIn, self, under, IsInNodes, first, later,
}
use command_stats.Structs.Walk.{is_operand_node, Found, find_node_in_tree_with_pid}
use command_stats.Structs.Father.{has-address}
use command_stats.Structs.Found.{Answer, Absent, AbsentInNodes, find_node-Answer}
use command_stats.Execute.Root.{write_node_self}
use command_stats.Execute.Manage.{
  write_node, write_among, read_result, set_result, on_execution_failed,
}

-- the pids of the executables
unfoldable mutual
  pub pids : Node → List ℕ
  pids (executable f e) = f.pid ∷ []
  pids (operands f op a ns) = pids_of_nodes ns

  pub pids_of_nodes : Nodes → List ℕ
  pids_of_nodes nil = []
  pids_of_nodes (cons n ns) = pids n ++ pids_of_nodes ns

abbrev pub failed : Option ExecutionResult → Option ExecutionResult
failed none = none
failed (some r) = some (record r { invocation_failed = true })

-- The executables with the pid have failed; nothing else is changed.
unfoldable mutual
  pub mark : ℕ → Node → Node
  mark pid (executable f e) =
      if f.pid == pid then executable (record f { result = failed f.result }) e else executable f e
  mark pid (operands f op a ns) = operands f op a (mark_nodes pid ns)

  pub mark_nodes : ℕ → Nodes → Nodes
  mark_nodes pid nil = nil
  mark_nodes pid (cons n ns) = cons (mark pid n) (mark_nodes pid ns)

-- Every executable with the pid has a result, which it has from when it is forked.
unfoldable mutual
  pub HasResult : ℕ → Node → Type 0
  HasResult pid (executable f e) = f.pid ≡ pid → (r : ExecutionResult) × (f.result ≡ some r)
  HasResult pid (operands f op a ns) = HaveResults pid ns

  pub HaveResults : ℕ → Nodes → Type 0
  HaveResults pid nil = Unit
  HaveResults pid (cons n ns) = HasResult pid n × HaveResults pid ns

mutual
  unfolding mark Absent

  pub mark-Absent : (pid : ℕ) (n : Node) → Absent pid n → mark pid n ≡ n
  mark-Absent pid (executable f e) h = ground (arith, h)
  mark-Absent pid (operands f op a ns) h = ap (operands f op a) (mark_nodes-Absent pid ns h)

  pub mark_nodes-Absent : (pid : ℕ) (ns : Nodes) → AbsentInNodes pid ns → mark_nodes pid ns ≡ ns
  mark_nodes-Absent pid nil h = refl
  mark_nodes-Absent pid (cons n ns) h =
      rw (mark-Absent pid n h.0, mark_nodes-Absent pid ns h.1) refl

mutual
  unfolding pids Absent

  pub outside-Absent : (pid : ℕ) (n : Node) → has pid (pids n) ≡ false → Absent pid n
  outside-Absent pid (executable f e) h = λ e'. ground (arith, h, e')
  outside-Absent pid (operands f op a ns) h = outside-AbsentInNodes pid ns h

  pub outside-AbsentInNodes :
      (pid : ℕ) (ns : Nodes) → has pid (pids_of_nodes ns) ≡ false → AbsentInNodes pid ns
  outside-AbsentInNodes pid nil h = tt
  outside-AbsentInNodes pid (cons n ns) h = (
    outside-Absent pid n (ground (arith, h, has-append pid (pids n) (pids_of_nodes ns))),
    outside-AbsentInNodes pid ns (ground (arith, h, has-append pid (pids n) (pids_of_nodes ns))),
  )

mutual
  unfolding write_node addresses

  pub write_node-absent :
      (p : ℕ) (new n : Node) → has p (addresses n) ≡ false → write_node p new n ≡ n
  write_node-absent p new (executable f e) h = ground (arith, h)
  write_node-absent p new (operands f op a ns) h = ground (arith, h, write_among-absent p new ns)

  pub write_among-absent :
      (p : ℕ) (new : Node) (ns : Nodes)
      → has p (addresses_of_nodes ns) ≡ false
      → write_among p new ns ≡ ns
  write_among-absent p new nil h = refl
  write_among-absent p new (cons n ns) h = ground (
    arith,
    h,
    has-append p (addresses n) (addresses_of_nodes ns),
    write_node-absent p new n,
    write_among-absent p new ns,
  )
