-- ===== src/Execute/Flat/Reports.antt =====
-- The operands of an operator of executables: the state between the start of one and its report.
use command_stats.Common.{
  ℕ, zero, suc, ◌+◌, ◌-◌, ◌<◌, ◌≡◌, ◌≢◌, refl, sym, ap, ◌∙◌, List, [], ◌∷◌, ◌++◌, Option, none,
  some, arith, All, All-append,
}
use command_stats.Common.Distinct.{Distinct}
use command_stats.Common.Outcome.{done}
use command_stats.Structs.Stream.{Stream, Appender}
use command_stats.Structs.Node.{ExecutionResult, NodeFields, Operator, Node}
use command_stats.Structs.Walk.{find_node_in_tree_with_pid}
use command_stats.Execute.System.{System, Machine, child, ask, exited_correctly}
use command_stats.Execute.Manage.{is_some, action, manage_running_nodes}
use command_stats.Execute.Root.{after_action}
use command_stats.Execute.Flat.{
  Command, tree_of, to_node, keys, first, find_in_operands-running, find_in_operands-stranger,
}
use command_stats.Execute.Flat.Collect.{manage-found, manage-strangers, completed, collect-running}

-- A course of the system, in which wait3 reports other processes `delay s` times before it reports
-- the operand with the number `s`: when the operands are forked, if all are, in calls of the system.
module _ (start : ℕ) (delay : ℕ → ℕ) where
  unfoldable pub fork_at : ℕ → ℕ
  fork_at zero = start
  fork_at (suc s) = fork_at s + delay s + 4

  pub fork_at-suc : (s : ℕ) → fork_at (suc s) ≡ fork_at s + delay s + 4
  unfolding fork_at
  fork_at-suc s = refl

-- the calls of wait3 until all operands, with the numbers from `s` on, have been reported
abbrev pub rounds : (ℕ → ℕ) → ℕ → List Command → ℕ
rounds delay s [] = 0
rounds delay s (c ∷ cs) = delay s + 1 + rounds delay (suc s) cs

module _ (sys : System) (start : ℕ) (delay : ℕ → ℕ) where
  abbrev pub status : ℕ → ℕ
  status s = (sys.wait3 (fork_at start delay s + 1 + delay s)).status

  -- what the operands with the numbers from `s` on end with
  abbrev pub statuses : ℕ → List Command → List ℕ
  statuses s [] = []
  statuses s (c ∷ cs) = status s ∷ statuses (suc s) cs

  -- Every fork succeeds, with a pid of its own, and wait3 reports the operand that runs.
  pub record Answers (pid : ℕ → ℕ) : Type 0 where
    pub forks : (s : ℕ) → sys.fork_result (fork_at start delay s) ≡ child (pid s)
    pub different : (s t : ℕ) → s < t → pid s ≢ pid t
    pub strangers :
        (s i t : ℕ) → i < delay s → pid t ≢ (sys.wait3 (fork_at start delay s + 1 + i)).pid
    pub own : (s : ℕ) → (sys.wait3 (fork_at start delay s + 1 + delay s)).pid ≡ pid s

-- A command that has its streams, and in its `pid` none that wait3 reports.
abbrev pub IsWaiting : System → Command → Type 0
IsWaiting sys c =
    (i : Stream) × (o : Stream) × (c.own.std_in ≡ some i)
    × (c.own.std_out ≡ some o)
    × ((n : ℕ) → c.own.pid ≢ (sys.wait3 n).pid)

-- the command once it is started
abbrev pub started : Command → ExecutionResult → ℕ → Command
started n rn p = record n { own = record n.own { result = some rn; pid = p } }

-- a command that has been started before the one with a number
abbrev pub IsStarted : (ℕ → ℕ) → ℕ → Command → Type 0
IsStarted pid s c = (t : ℕ) × (t < s) × (c.own.pid ≡ pid t)

pub IsStarted-later :
    (pid : ℕ → ℕ) (s : ℕ) (cs : List Command)
    → All (IsStarted pid s) cs
    → All (IsStarted pid (suc s)) cs
IsStarted-later pid s [] h = tt
IsStarted-later pid s (c ∷ cs) h =
    ((h.0.0, omega (arith, h.0.1), h.0.2), IsStarted-later pid s cs h.1)

started-other :
    (pid : ℕ → ℕ) (s x : ℕ) (cs : List Command)
    → ((t : ℕ) → t < s → pid t ≢ x)
    → All (IsStarted pid s) cs
    → All (λ c. c.own.pid ≢ x) cs
started-other pid s x [] h all = tt
started-other pid s x (c ∷ cs) h all =
    ((λ e. h all.0.0 all.0.1 (sym all.0.2 ∙ e)), started-other pid s x cs h all.1)

waiting-other :
    (sys : System) (n : ℕ) (cs : List Command)
    → All (IsWaiting sys) cs
    → All (λ c. c.own.pid ≢ (sys.wait3 n).pid) cs
waiting-other sys n [] h = tt
waiting-other sys n (c ∷ cs) h = (h.0.4 n, waiting-other sys n cs h.1)

-- Under the operator node at `address` the operand `c` with the number `s` runs. Those in `pre` have
-- been started before it, and those in `rest` wait.
pub record IsRunning (sys : System) (start : ℕ) (delay pid : ℕ → ℕ) (address s : ℕ)
    (pre : List Command) (c : Command) (rest : List Command) (rc : ExecutionResult) (m : Machine)
    : Type 0 where
  pub result : c.own.result ≡ some rc
  pub own : c.own.pid ≡ pid s
  pub one : m.to_wait ≡ 1
  pub asked : m.asked ≡ fork_at start delay s + 1
  pub before : All (IsStarted pid s) pre
  pub behind : All (IsWaiting sys) rest
  pub distinct : Distinct (address ∷ keys (pre ++ c ∷ rest))

-- when wait3 reports the operand that runs
abbrev pub reporting : Machine → ℕ → Machine
reporting m delay = record m { asked = m.asked + delay }

module _ (sys : System) (start : ℕ) (delay pid : ℕ → ℕ) (answers : Answers sys start delay pid)
    (f : NodeFields) (op : Operator) (a : Option Appender) (s : ℕ) (pre : List Command)
    (c : Command) (rest : List Command) (rc : ExecutionResult) (m : Machine)
    (run : IsRunning sys start delay pid f.address s pre c rest rc m) where
  abbrev tree : Node
  tree = tree_of f op a (pre ++ c ∷ rest)

  -- Before the running operand is reported wait3 reports no operand.
  stranger :
      (i : ℕ) → i < delay s → find_node_in_tree_with_pid tree (sys.wait3 (m.asked + i)).pid ≡ none
  unfolding find_node_in_tree_with_pid
  stranger i room =
      let n = fork_at start delay s + 1 + i in
      rw run.asked (
        find_in_operands-stranger tree (pre ++ c ∷ rest) (sys.wait3 n).pid (
          All-append (λ (p : Command). p.own.pid ≢ (sys.wait3 n).pid) pre (c ∷ rest)
            (started-other pid s (sys.wait3 n).pid pre (λ t lt. answers.strangers s i t room)
              run.before)
            (
              (λ e. answers.strangers s i s room (sym run.own ∙ e)),
              waiting-other sys n rest run.behind,
            )))

  found :
      find_node_in_tree_with_pid tree (sys.wait3 (m.asked + delay s)).pid
      ≡ some (record { result = to_node c; result_father = some tree })
  unfolding find_node_in_tree_with_pid
  found =
      let reported = ap (λ (n : ℕ). (sys.wait3 (n + delay s)).pid) run.asked ∙ answers.own s in
      find_in_operands-running tree pre c rest _ (reported ∙ sym run.own)
        (started-other pid s _ pre (λ t lt e. answers.different t s lt (e ∙ reported)) run.before)

  -- The loop over wait3, up to the report of the running operand.
  pub report-running :
      (r : ExecutionResult) (k : ℕ) (t' : Node) (m' : Machine)
      → f.result ≡ some r
      → let now = reporting m (delay s) in
        let w = sys.wait3 now.asked in
        after_action sys
            (tree_of f op a (pre ++ completed sys (ask now) c rc w ∷ rest))
            r
            (first rest)
            (ask (ask now))
            (action op w.status (exited_correctly sys w.status) (is_some (first rest)))
          ≡ done (t', m')
        → manage_running_nodes (delay s + suc k) sys tree m
          ≡ manage_running_nodes k sys t' (record m' { to_wait = m'.to_wait - 1 })
  report-running r k t' m' hr after =
      let now = reporting m (delay s) in
      manage-strangers (delay s) (suc k) sys tree m run.one stranger
      ∙ manage-found k sys tree now (record { result = to_node c; result_father = some tree }) t' m'
          run.one found
          (collect-running sys f op a r pre c rest rc (sys.wait3 now.asked) (ask now) run.distinct
              hr run.result
            ∙ after)
