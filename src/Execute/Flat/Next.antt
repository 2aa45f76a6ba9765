-- ===== src/Execute/Flat/Next.antt =====
-- The next operand is started when the running one has been reported.
use command_stats.Common.{
  ℕ, suc, ◌+◌, ◌-◌, ◌≡◌, refl, sym, ap, ◌∙◌, List, [], ◌∷◌, ◌++◌, Option, some, arith, All-append,
  append_assoc,
}
use command_stats.Common.Distinct.{Distinct}
use command_stats.Common.Outcome.{done}
use command_stats.Structs.Stream.{Appender}
use command_stats.Structs.Node.{ExecutionResult, NodeFields, Operator}
use command_stats.Execute.System.{System, Machine, child, ask}
use command_stats.Execute.Manage.{start_node}
use command_stats.Execute.Single.{execute_async-forked}
use command_stats.Execute.Flat.{Command, tree_of, to_node, keys, keys-replaced}
use command_stats.Execute.Flat.Collect.{completed, write-tree}
use command_stats.Execute.Flat.Reports.{
  fork_at, fork_at-suc, Answers, IsWaiting, started, IsStarted, IsStarted-later, IsRunning,
  reporting,
}

start_node-behind :
    (sys : System) (f : NodeFields) (op : Operator) (a : Option Appender) (r : ExecutionResult)
    (pre : List Command) (d n : Command) (rest : List Command) (p : ℕ) (m : Machine)
    → IsWaiting sys n
    → sys.fork_result (m.asked + 1) ≡ child p
    → Distinct (f.address ∷ keys (pre ++ d ∷ n ∷ rest))
    → (rn : ExecutionResult) × (m' : Machine) × (start_node sys
          (some (to_node n))
          (tree_of f op a (pre ++ d ∷ n ∷ rest))
          m
        ≡ done (tree_of f op a ((pre ++ d ∷ []) ++ started n rn p ∷ rest), m'))
      × (m'.to_wait ≡ m.to_wait + 1)
      × (m'.asked ≡ m.asked + 2)
unfolding start_node
start_node-behind sys f op a r pre d n rest p m waiting forks dist =
    let (i, o, hi, ho, _) = waiting in
    let (rn, m', h, one, two) = execute_async-forked sys n.own n.value i o p m hi ho forks in
    let assoc : (x : Command) → (pre ++ d ∷ []) ++ x ∷ rest ≡ pre ++ d ∷ x ∷ rest =
      λ x. append_assoc pre (d ∷ []) (x ∷ rest) in
    let written =
      write-tree sys f op a r (pre ++ d ∷ []) n (started n rn p) rest (rw (assoc n) dist) in
    (rn, m', rw (h, start_node) (rw (sym (assoc n)) (rw written refl)), one, two)

-- The addresses stay distinct when the running command completes and the next one is started.
Distinct-next :
    (address : ℕ) (pre : List Command) (c d n n' : Command) (rest : List Command)
    → c.own.address ≡ d.own.address
    → n.own.address ≡ n'.own.address
    → Distinct (address ∷ keys (pre ++ c ∷ n ∷ rest))
    → Distinct (address ∷ keys ((pre ++ d ∷ []) ++ n' ∷ rest))
Distinct-next address pre c d n n' rest e e' dist =
    rw
      (
        sym (keys-replaced (pre ++ d ∷ []) n n' rest e'),
        append_assoc pre (d ∷ []) (n ∷ rest),
        sym (keys-replaced pre c d (n ∷ rest) e),
      )
      dist

module _ (sys : System) (start : ℕ) (delay pid : ℕ → ℕ) (answers : Answers sys start delay pid)
    (f : NodeFields) (op : Operator) (a : Option Appender) (r : ExecutionResult) where
  -- After the report of an operand behind which another stands, to start this one leads to the same
  -- state for the next number.
  pub start_node-IsRunning :
      (s : ℕ) (pre : List Command) (c n : Command) (rest : List Command) (rc : ExecutionResult)
      (m : Machine)
      → IsRunning sys start delay pid f.address s pre c (n ∷ rest) rc m
      → let now = reporting m (delay s) in
        let d = completed sys (ask now) c rc (sys.wait3 now.asked) in
        (rn : ExecutionResult) × (m' : Machine) × (start_node sys
            (some (to_node n))
            (tree_of f op a (pre ++ d ∷ n ∷ rest))
            (ask (ask now))
          ≡ done (tree_of f op a ((pre ++ d ∷ []) ++ started n rn (pid (suc s)) ∷ rest), m'))
        × IsRunning sys start delay pid f.address
            (suc s)
            (pre ++ d ∷ [])
            (started n rn (pid (suc s)))
            rest
            rn
            (record m' { to_wait = m'.to_wait - 1 })
  start_node-IsRunning s pre c n rest rc m run =
      let now = reporting m (delay s) in
      let d = completed sys (ask now) c rc (sys.wait3 now.asked) in
      let forked : (ask (ask now)).asked + 1 ≡ fork_at start delay (suc s) =
        omega (arith, run.asked, fork_at-suc start delay s) in
      let (rn, m', h, two, later) =
        start_node-behind sys f op a r pre d n rest (pid (suc s)) (ask (ask now)) run.behind.0
          (ap sys.fork_result forked ∙ answers.forks (suc s))
          (rw (keys-replaced pre d c (n ∷ rest) refl) run.distinct) in
      (
        rn,
        m',
        h,
        record {
          result = refl;
          own = refl;
          one = omega (arith, two, run.one);
          asked = omega (arith, later, run.asked, fork_at-suc start delay s);
          before =
              All-append (IsStarted pid (suc s)) pre (d ∷ []) (IsStarted-later pid s pre run.before)
                ((s, omega arith, run.own), tt);
          behind = run.behind.1;
          distinct =
              Distinct-next f.address pre c d n (started n rn (pid (suc s))) rest refl refl
                run.distinct;
        },
      )
