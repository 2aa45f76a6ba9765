-- ===== src/Execute/Failed/Marked.antt =====
-- on_execution_failed of src/execute/execute.c marks the executable that has failed.
use mathlib.Core.Path.{ap₂}
use command_stats.Common.{
  ℕ, ◌≡◌, refl, sym, ap, ◌∙◌, true, false, List, ◌++◌, Option, none, some, arith, ==_iff,
  Bool-cases, inl, inr,
}
use command_stats.Common.Distinct.{
  has, has-append_left, has-append_right, Distinct, Distinct-left, Distinct-right, Distinct-apart,
}
use command_stats.Common.Outcome.{done, ◌>>=◌}
use command_stats.Structs.Node.{
  ExecutionResult, NodeFields, ExecutableNode, Node, executable, operands, Nodes, nil, cons, fields,
  address, addresses, addresses_of_nodes, IsIn, self, under, IsInNodes, first, later,
}
use command_stats.Structs.Walk.{is_operand_node, Found, find_node_in_tree_with_pid}
use command_stats.Structs.Father.{has-address}
use command_stats.Structs.Found.{Answer, find_node-Answer}
use command_stats.Execute.Root.{write_node_self}
use command_stats.Execute.Manage.{
  write_node, write_among, read_result, set_result, on_execution_failed,
}
use command_stats.Execute.Failed.{
  pids, pids_of_nodes, failed, mark, mark_nodes, HasResult, HaveResults, mark-Absent,
  mark_nodes-Absent, outside-Absent, outside-AbsentInNodes, write_node-absent, write_among-absent,
}

-- What stands on the left does not stand on the right.
right-absent : (a : ℕ) (xs ys : List ℕ) → Distinct (xs ++ ys) → has a xs ≡ true → has a ys ≡ false
right-absent a xs ys d h = elim (Bool-cases (has a ys)) [
  | inl e ↦ absurd (ground (arith, h, Distinct-apart a xs ys d e))
  | inr e ↦ e
]

module _ (f : NodeFields) (e : ExecutableNode) where
  mutual
    unfolding addresses

    has-address_in : (n : Node) → IsIn (executable f e) n → has f.address (addresses n) ≡ true
    has-address_in n self = has-address n
    has-address_in (operands g op a ns) (under i) = ground (arith, has-address_among ns i)

    has-address_among :
        (ns : Nodes) → IsInNodes (executable f e) ns → has f.address (addresses_of_nodes ns) ≡ true
    has-address_among nil i = elim i [ ]
    has-address_among (cons n ns) (first i) =
        has-append_left f.address (addresses n) (addresses_of_nodes ns) (has-address_in n i)
    has-address_among (cons n ns) (later i) =
        has-append_right f.address (addresses n) (addresses_of_nodes ns) (has-address_among ns i)

  mutual
    unfolding pids

    has-pid_in : (n : Node) → IsIn (executable f e) n → has f.pid (pids n) ≡ true
    has-pid_in n self = ground arith
    has-pid_in (operands g op a ns) (under i) = has-pid_among ns i

    has-pid_among :
        (ns : Nodes) → IsInNodes (executable f e) ns → has f.pid (pids_of_nodes ns) ≡ true
    has-pid_among nil i = elim i [ ]
    has-pid_among (cons n ns) (first i) =
        has-append_left f.pid (pids n) (pids_of_nodes ns) (has-pid_in n i)
    has-pid_among (cons n ns) (later i) =
        has-append_right f.pid (pids n) (pids_of_nodes ns) (has-pid_among ns i)

  mark_own : mark f.pid (executable f e) ≡ executable (record f { result = failed f.result }) e
  unfolding mark
  mark_own = rw ((==_iff f.pid f.pid).1 refl, mark) refl

  mutual
    unfolding write_node addresses pids mark

    write_node-mark :
        (n : Node)
        → IsIn (executable f e) n
        → Distinct (addresses n)
        → Distinct (pids n)
        → write_node f.address (mark f.pid (executable f e)) n ≡ mark f.pid n
    write_node-mark n self d d' = write_node_self (mark f.pid (executable f e)) (executable f e)
    write_node-mark (operands g op a ns) (under i) d d' = ground (
      arith,
      d.0,
      has-address_among ns i,
      ==_iff g.address f.address,
      write_among-mark ns i d.1 d',
    )

    write_among-mark :
        (ns : Nodes)
        → IsInNodes (executable f e) ns
        → Distinct (addresses_of_nodes ns)
        → Distinct (pids_of_nodes ns)
        → write_among f.address (mark f.pid (executable f e)) ns ≡ mark_nodes f.pid ns
    write_among-mark nil i d d' = elim i [ ]
    write_among-mark (cons n ns) (first i) d d' =
        let here =
          write_node-mark n i (Distinct-left (addresses n) (addresses_of_nodes ns) d)
            (Distinct-left (pids n) (pids_of_nodes ns) d') in
        let out =
          right-absent f.address (addresses n) (addresses_of_nodes ns) d (has-address_in n i) in
        let out' = right-absent f.pid (pids n) (pids_of_nodes ns) d' (has-pid_in n i) in
        let rest =
          write_among-absent f.address (mark f.pid (executable f e)) ns out
          ∙ sym (mark_nodes-Absent f.pid ns (outside-AbsentInNodes f.pid ns out')) in
        ap₂ cons here rest
    write_among-mark (cons n ns) (later i) d d' =
        let out =
          Distinct-apart f.address (addresses n) (addresses_of_nodes ns) d
            (has-address_among ns i) in
        let out' = Distinct-apart f.pid (pids n) (pids_of_nodes ns) d' (has-pid_among ns i) in
        let here =
          write_node-absent f.address (mark f.pid (executable f e)) n out
          ∙ sym (mark-Absent f.pid n (outside-Absent f.pid n out')) in
        let rest =
          write_among-mark ns i (Distinct-right (addresses n) (addresses_of_nodes ns) d)
            (Distinct-right (pids n) (pids_of_nodes ns) d') in
        ap₂ cons here rest

  mutual
    unfolding HasResult

    result_in :
        (pid : ℕ) (n : Node)
        → IsIn (executable f e) n
        → HasResult pid n
        → f.pid ≡ pid
        → (r : ExecutionResult) × (f.result ≡ some r)
    result_in pid n self h same = h same
    result_in pid (operands g op a ns) (under i) h same = result_among pid ns i h same

    result_among :
        (pid : ℕ) (ns : Nodes)
        → IsInNodes (executable f e) ns
        → HaveResults pid ns
        → f.pid ≡ pid
        → (r : ExecutionResult) × (f.result ≡ some r)
    result_among pid nil i h same = elim i [ ]
    result_among pid (cons n ns) (first i) h same = result_in pid n i h.0 same
    result_among pid (cons n ns) (later i) h same = result_among pid ns i h.1 same

-- what the handler does with the node that it has found
write-found :
    (pid : ℕ) (tree n : Node)
    → IsIn n tree
    → (fields n).pid ≡ pid
    → is_operand_node n ≡ false
    → Distinct (addresses tree)
    → Distinct (pids tree)
    → HasResult pid tree
    → (read_result n >>= λ r.
        done (write_node (address n) (set_result n (record r { invocation_failed = true })) tree))
      ≡ done (mark pid tree)
unfolding is_operand_node
write-found pid tree (operands f op a ns) i same single d d' results = cc
write-found pid tree (executable f e) i same single d d' results =
    let (r, hr) = result_in f e pid tree i results same in
    let own : mark f.pid (executable f e)
        ≡ executable (record f { result = some (record r { invocation_failed = true }) }) e =
      mark_own f e ∙ ap (λ x. executable (record f { result = failed x }) e) hr in
    rw hr (ap done (rw (sym same) (rw (sym own) (write_node-mark f e tree i d d'))))

failed-answer :
    (pid : ℕ) (tree : Node) (x : Option Found)
    → find_node_in_tree_with_pid tree pid ≡ x
    → Answer tree pid x
    → Distinct (addresses tree)
    → Distinct (pids tree)
    → HasResult pid tree
    → on_execution_failed pid tree ≡ done (mark pid tree)
unfolding on_execution_failed Answer
failed-answer pid tree none e absent d d' results =
    rw (e, on_execution_failed) (ap done (sym (mark-Absent pid tree absent)))
failed-answer pid tree (some found) e answer d d' results =
    rw (e, on_execution_failed)
      (write-found pid tree found.result answer.inside answer.has_pid answer.is_executable d d'
        results)

-- For a tree with distinct addresses and distinct pids, whose executable with the sender's pid has a
-- result: the handler marks this executable as failed and leaves all else as it is; for a pid that no
-- executable has it leaves the whole tree as it is.
pub on_execution_failed-mark :
    (pid : ℕ) (tree : Node)
    → Distinct (addresses tree)
    → Distinct (pids tree)
    → HasResult pid tree
    → on_execution_failed pid tree ≡ done (mark pid tree)
unfolding on_execution_failed
on_execution_failed-mark pid tree d d' results =
    failed-answer pid tree (find_node_in_tree_with_pid tree pid) refl (find_node-Answer tree pid) d
      d' results
