-- ===== src/Execute/Flat/Shell.antt =====
-- The execution of an And, Or or Semicolon node whose operands are executables, from its start to
-- the exit code that it stores.
use command_stats.Common.{
  ℕ, suc, ◌+◌, ◌-◌, ◌≡◌, refl, sym, ap, ◌∙◌, List, [], ◌∷◌, ◌++◌, Option, none, some, arith, All,
  inl, inr, true, false,
}
use command_stats.Common.Distinct.{Distinct}
use command_stats.Common.Outcome.{Outcome, done, ◌>>=◌}
use command_stats.Structs.Stream.{Appender}
use command_stats.Structs.Node.{
  ExecutionResult, NodeFields, Operator, Node, operands, Nodes, cons, pipe_node, and_node, or_node,
  semicolon_node,
}
use command_stats.Builtin.Cd.{is_pipe}
use command_stats.Execute.Counting.{init_appender-Grows}
use command_stats.Execute.System.{System, create_execution_result, Machine, ask, exited_correctly}
use command_stats.Execute.Start.{execute_async, execute_first_async, init_appender}
use command_stats.Execute.Manage.{
  is_some, start_next, action, start_node, manage_running_nodes, read_exit_code, start_machine,
  execute,
}
use command_stats.Execute.Single.{execute_async-forked, manage-no_child}
use command_stats.Execute.Verdict.{settle, shell_exit_code, settle-shell_exit_code}
use command_stats.Execute.Root.{after_action}
use command_stats.Execute.Flat.{Command, tree_of, to_node, to_nodes, keys, first}
use command_stats.Execute.Flat.Collect.{completed}
use command_stats.Execute.Flat.Reports.{
  fork_at, Answers, IsWaiting, started, IsRunning, reporting, report-running, status, statuses,
  rounds,
}
use command_stats.Execute.Flat.Next.{start_node-IsRunning}
use command_stats.Execute.Flat.Ended.{finish, settle-last, settle-more}

after-start :
    (sys : System) (tree : Node) (r : ExecutionResult) (next : Option Node) (m : Machine)
    → after_action sys tree r next m start_next ≡ start_node sys next tree m
unfolding after_action
after-start sys tree r next m = refl

module _ (sys : System) (start : ℕ) (delay pid : ℕ → ℕ) (answers : Answers sys start delay pid)
    (f : NodeFields) (op : Operator) (a : Option Appender) (r : ExecutionResult)
    (hr : f.result ≡ some r) where
  -- The running operand is reported, and the operator ends.
  manage-ended :
      (s k : ℕ) (pre : List Command) (c : Command) (rest : List Command) (rc : ExecutionResult)
      (m : Machine) (root : Node)
      → IsRunning sys start delay pid f.address s pre c rest rc m
      → let now = reporting m (delay s) in
        let w = sys.wait3 now.asked in
        after_action sys
            (tree_of f op a (pre ++ completed sys (ask now) c rc w ∷ rest))
            r
            (first rest)
            (ask (ask now))
            (action op w.status (exited_correctly sys w.status) (is_some (first rest)))
          ≡ done (root, ask (ask now))
        → (last : Machine) × (manage_running_nodes
              (delay s + suc k)
              sys
              (tree_of f op a (pre ++ c ∷ rest))
              m
            ≡ done (root, last))
  manage-ended s k pre c rest rc m root run e =
      let now = reporting m (delay s) in
      let last = record (ask (ask now)) { to_wait = m.to_wait - 1 } in
      (
        last,
        report-running sys start delay pid answers f op a s pre c rest rc m run r k root
              (ask (ask now)) hr e
            ∙ manage-no_child k sys root last (omega (arith, run.one)),
      )

  same_status :
      (s : ℕ) (m : Machine)
      → m.asked ≡ fork_at start delay s + 1
      → (sys.wait3 (m.asked + delay s)).status ≡ status sys start delay s
  same_status s m asked = ap (λ (n : ℕ). (sys.wait3 (n + delay s)).status) asked

  -- From the fork of the operand with the number `s` on, the loop returns, and the exit code of the
  -- operator is that of the switch.
  manage-settle :
      (s k : ℕ) (pre : List Command) (c : Command) (rest : List Command) (rc : ExecutionResult)
      (m : Machine) (code : ℕ)
      → IsRunning sys start delay pid f.address s pre c rest rc m
      → settle sys op (status sys start delay s) (statuses sys start delay (suc s) rest) ≡ some code
      → (root : Node) × (last : Machine) × (manage_running_nodes
            (rounds delay s (c ∷ rest) + k)
            sys
            (tree_of f op a (pre ++ c ∷ rest))
            m
          ≡ done (root, last))
        × (read_exit_code root ≡ done code)
  manage-settle s k pre c [] rc m code run settled =
      let now = reporting m (delay s) in
      let w = sys.wait3 now.asked in
      let fuel : delay s + 1 + 0 + k ≡ delay s + suc k = omega arith in
      elim (finish sys f op a r (action op w.status (exited_correctly sys w.status) false) none
        (pre ++ completed sys (ask now) c rc w ∷ []) none (ask (ask now)) code
        (sym (settle-last sys op w.status) ∙ rw (same_status s m run.asked) settled)) [
          | inl (root, e, x) ↦
              let (last, h) = manage-ended s k pre c [] rc m root run e in
              (root, last, rw fuel h, x)
          | inr (e, x) ↦ absurd (ground (arith, x))
        ]
  manage-settle s k pre c (n ∷ rest) rc m code run settled =
      let now = reporting m (delay s) in
      let w = sys.wait3 now.asked in
      let d = completed sys (ask now) c rc w in
      let left = rounds delay (suc s) (n ∷ rest) in
      let fuel : delay s + 1 + left + k ≡ delay s + suc (left + k) = omega arith in
      elim (finish sys f op a r (action op w.status (exited_correctly sys w.status) true)
        (settle sys op (status sys start delay (suc s))
          (statuses sys start delay (suc (suc s)) rest))
        (pre ++ d ∷ n ∷ rest) (some (to_node n)) (ask (ask now)) code
        (sym (settle-more sys op w.status _ _) ∙ rw (same_status s m run.asked) settled)) [
          | inl (root, e, x) ↦
              let (last, h) = manage-ended s (left + k) pre c (n ∷ rest) rc m root run e in
              (root, last, rw fuel h, x)
          | inr (e, x) ↦
              let (rn, m', h, next) =
                start_node-IsRunning sys start delay pid answers f op a r s pre c n rest rc m run in
              let (root, last, g, z) =
                manage-settle (suc s) k (pre ++ d ∷ []) (started n rn (pid (suc s))) rest rn
                  (record m' { to_wait = m'.to_wait - 1 }) code next x in
              (
                root,
                last,
                rw fuel (
                    report-running sys start delay pid answers f op a s pre c (n ∷ rest) rc m run r
                      (left + k)
                      (tree_of f op a ((pre ++ d ∷ []) ++ started n rn (pid (suc s)) ∷ rest)) m' hr
                      (rw e (
                        after-start sys (tree_of f op a (pre ++ d ∷ n ∷ rest)) r (some (to_node n))
                          (ask (ask now))
                        ∙ h))
                    ∙ g),
                z,
              )
        ]

abbrev with_nodes : (Nodes → Node) → Nodes × Machine → Outcome (Node × Machine)
with_nodes build (ns, m) = done (build ns, m)

-- An operator other than a pipe starts its appender and its first operand.
execute_async-first :
    (sys : System) (f : NodeFields) (op : Operator) (a : Option Appender) (ns : Nodes) (m : Machine)
    → is_pipe op ≡ false
    → execute_async sys (operands f op a ns) m ≡ (
        execute_first_async sys a ns (ask m)
        >>= with_nodes
            (operands (record f { result = some (create_execution_result sys m).0 }) op a))
unfolding execute_async is_pipe create_execution_result
execute_async-first sys f pipe_node a ns m h = cc
execute_async-first sys f and_node a ns m h = refl
execute_async-first sys f or_node a ns m h = refl
execute_async-first sys f semicolon_node a ns m h = refl

start-first :
    (sys : System) (ns : Nodes) (a : Appender) (n n' : Node) (ready m m' : Machine)
    (build : Nodes → Node)
    → init_appender sys a m ≡ done ready
    → execute_async sys n ready ≡ done (n', m')
    → (execute_first_async sys (some a) (cons n ns) m >>= with_nodes build)
      ≡ done (build (cons n' ns), m')
unfolding execute_first_async
start-first sys ns a n n' ready m m' build e h = ground (arith, e, h)

-- An And, Or or Semicolon node whose operands are commands with their streams is executed to its
-- end. Let the addresses be distinct, and let no operand have a pid that wait3 reports before it is
-- forked; let the appender start; let every fork of an operand succeed with a pid of its own; let
-- wait3 report `delay s` times processes that are no operands and then the operand `s` that has been
-- started; and let it be called that often, or `k` times more. Then the execution returns, and the
-- root's exit code is the one that a shell gives for the statuses that wait3 reports of the operands,
-- taken in order.
pub execute-shell_exit_code :
    (k : ℕ) (sys : System) (delay pid : ℕ → ℕ) (f : NodeFields) (op : Operator)
    (appender : Appender) (c : Command) (rest : List Command) (ready : Machine)
    → is_pipe op ≡ false
    → All (IsWaiting sys) (c ∷ rest)
    → Distinct (f.address ∷ keys (c ∷ rest))
    → init_appender sys appender (ask start_machine) ≡ done ready
    → Answers sys (ready.asked + 1) delay pid
    → (root : Node) × (m : Machine) × (execute
          (rounds delay 0 (c ∷ rest) + k)
          sys
          (tree_of f op (some appender) (c ∷ rest))
        ≡ done (root, m))
      × (read_exit_code root
          ≡ done (
              shell_exit_code
                (exited_correctly sys)
                op
                (status sys (ready.asked + 1) delay 0)
                (statuses sys (ready.asked + 1) delay 1 rest)))
unfolding execute fork_at
execute-shell_exit_code k sys delay pid f op appender c rest ready no_pipe waiting dist appended
      answers =
    let start = ready.asked + 1 in
    let (i, o, hi, ho, _) = waiting.0 in
    let (rc, m, h, one, later) =
      execute_async-forked sys c.own c.value i o (pid 0) ready hi ho (answers.forks 0) in
    let result = (create_execution_result sys start_machine).0 in
    let f' = record f { result = some result } in
    let d = started c rc (pid 0) in
    let grows = init_appender-Grows sys appender (ask start_machine) appended in
    let begun : execute_async sys (tree_of f op (some appender) (c ∷ rest)) start_machine
        ≡ done (tree_of f' op (some appender) (d ∷ rest), m) =
      execute_async-first sys f op (some appender) (to_nodes (c ∷ rest)) start_machine no_pipe
      ∙ start-first sys (to_nodes rest) appender (to_node c) (to_node d) ready (ask start_machine) m
          (operands f' op (some appender)) appended h in
    let (root, last, g, z) =
      manage-settle sys start delay pid answers f' op (some appender) result refl 0 k [] d rest rc m
        _
        (record {
          result = refl;
          own = refl;
          one = omega (arith, one, grows.waits);
          asked = omega (arith, later);
          before = tt;
          behind = waiting.1;
          distinct = dist;
        })
        (settle-shell_exit_code sys op (status sys start delay 0) (statuses sys start delay 1 rest)
          no_pipe) in
    (root, last, rw (begun, execute) g, z)
