-- ===== src/Execute/Flat/Reported.antt =====
-- The commands of a started pipe are reported, in whatever order they complete.
use mathlib.Core.Path.{subst}
use command_stats.Common.{
  ℕ, zero, suc, ◌+◌, ◌*◌, ◌-◌, ◌<◌, ◌≡◌, ◌≢◌, refl, sym, ap, ◌∙◌, true, List, [], ◌∷◌, ◌++◌, Option,
  some, arith, All, All-append, append_assoc,
}
use command_stats.Common.Distinct.{has, Distinct}
use command_stats.Common.Outcome.{done}
use command_stats.Structs.Stream.{Appender}
use command_stats.Structs.Node.{ExecutionResult, NodeFields, pipe_node, Node}
use command_stats.Execute.System.{System, Machine, ask, exited_correctly}
use command_stats.Execute.Manage.{action, is_some, manage_running_nodes, read_exit_code}
use command_stats.Execute.Single.{manage-no_child}
use command_stats.Execute.Root.{after_action}
use command_stats.Execute.Flat.{Command, tree_of, to_node, keys, keys-replaced, first}
use command_stats.Execute.Flat.Collect.{completed, collect-running, manage-found}
use command_stats.Execute.Flat.Pipe.{
  pids, HasResult, holder, pids-replaced, HasResult-split, find_running, IsPiped, first-some,
  apart-replaced,
}

module _ (sys : System) (f : NodeFields) (a : Option Appender) (r : ExecutionResult)
    (hr : f.result ≡ some r) where
  -- The report of a command, by its place.
  report :
      (k : ℕ) (pre : List Command) (c : Command) (rest : List Command) (rc : ExecutionResult)
      (m : Machine) (n : ℕ) (t' : Node)
      → c.own.result ≡ some rc
      → m.to_wait ≡ suc n
      → (sys.wait3 m.asked).pid ≡ c.own.pid
      → All (λ d. d.own.pid ≢ (sys.wait3 m.asked).pid) pre
      → Distinct (f.address ∷ keys (pre ++ c ∷ rest))
      → let w = sys.wait3 m.asked in
        after_action sys
            (tree_of f pipe_node a (pre ++ completed sys (ask m) c rc w ∷ rest))
            r
            (first rest)
            (ask (ask m))
            (action pipe_node w.status (exited_correctly sys w.status) (is_some (first rest)))
          ≡ done (t', ask (ask m))
        → manage_running_nodes (suc k) sys (tree_of f pipe_node a (pre ++ c ∷ rest)) m
          ≡ manage_running_nodes k sys t' (record (ask (ask m)) { to_wait = n })
  report k pre c rest rc m n t' hc more own others dist after =
      let tree = tree_of f pipe_node a (pre ++ c ∷ rest) in
      let less : m.to_wait - 1 ≡ n = omega (arith, more) in
      rw (sym less) (
        manage-found k sys tree m (record { result = to_node c; result_father = some tree }) t'
          (ask (ask m)) more (find_running sys f a pre c rest (sys.wait3 m.asked).pid own others)
          (collect-running sys f pipe_node a r pre c rest rc (sys.wait3 m.asked) (ask m) dist hr hc
            ∙ after))

  report-at :
      (k : ℕ) (pre : List Command) (c : Command) (rest : List Command) (l : Command) (m : Machine)
      (n : ℕ)
      → IsPiped f.address (pre ++ c ∷ rest) l
      → m.to_wait ≡ suc n
      → (sys.wait3 m.asked).pid ≡ c.own.pid
      → All (λ d. d.own.pid ≢ (sys.wait3 m.asked).pid) pre
      → (front : List Command) × IsPiped f.address front l
        × (pids front ≡ pids (pre ++ c ∷ rest))
        × (manage_running_nodes (suc k) sys (tree_of f pipe_node a ((pre ++ c ∷ rest) ++ l ∷ [])) m
            ≡ manage_running_nodes k sys
                (tree_of f pipe_node a (front ++ l ∷ []))
                (record (ask (ask m)) { to_wait = n }))
  unfolding action after_action
  report-at k pre c rest l m n piped more own others =
      let (before, (rc, hc), later) = HasResult-split pre c rest piped.results in
      let w = sys.wait3 m.asked in
      let d = completed sys (ask m) c rc w in
      let assoc : (x : Command) → (pre ++ x ∷ rest) ++ l ∷ [] ≡ pre ++ x ∷ (rest ++ l ∷ []) =
        λ x. append_assoc pre (x ∷ rest) (l ∷ []) in
      (
        pre ++ d ∷ rest,
        record {
          results = All-append HasResult pre (d ∷ rest) before ((_, refl), later);
          last = piped.last;
          apart = apart-replaced pre c d l rest refl piped.apart;
          distinct =
              rw (assoc d, sym (keys-replaced pre c d (rest ++ l ∷ []) refl), sym (assoc c))
                piped.distinct;
        },
        sym (pids-replaced pre c d rest refl),
        rw (assoc c, assoc d)
            (report k pre c (rest ++ l ∷ []) rc m n
              (tree_of f pipe_node a (pre ++ d ∷ (rest ++ l ∷ []))) hc more own others
              (rw (assoc c) at piped.distinct) (rw (first-some rest l) refl)),
      )

  report-front :
      (k : ℕ) (front : List Command) (l : Command) (m : Machine) (n : ℕ)
      → IsPiped f.address front l
      → m.to_wait ≡ suc n
      → has (sys.wait3 m.asked).pid (pids front) ≡ true
      → (front' : List Command) × IsPiped f.address front' l
        × (pids front' ≡ pids front)
        × (manage_running_nodes (suc k) sys (tree_of f pipe_node a (front ++ l ∷ [])) m
            ≡ manage_running_nodes k sys
                (tree_of f pipe_node a (front' ++ l ∷ []))
                (record (ask (ask m)) { to_wait = n }))
  report-front k front l m n piped more there =
      let h = holder (sys.wait3 m.asked).pid front there in
      let (front', piped', same, e) =
        report-at k h.pre h.c h.rest l m n
          (subst (λ front. IsPiped f.address front l) h.split piped) more h.own h.others in
      (front', piped', same ∙ ap pids (sym h.split), rw h.split e)

  -- The exit code that the pipe has stays, whatever commands in front are reported.
  manage-after :
      (n k code : ℕ) (front : List Command) (l : Command) (m : Machine)
      → r.exit_code ≡ some code
      → IsPiped f.address front l
      → m.to_wait ≡ n
      → ((i : ℕ) → i < n → has (sys.wait3 (m.asked + 2 * i)).pid (pids front) ≡ true)
      → (root : Node) × (last : Machine) × (manage_running_nodes
            (n + k)
            sys
            (tree_of f pipe_node a (front ++ l ∷ []))
            m
          ≡ done (root, last))
        × (read_exit_code root ≡ done code)
  unfolding read_exit_code
  manage-after zero k code front l m he piped no_more there =
      let fuel : 0 + k ≡ k = omega arith in
      (
        tree_of f pipe_node a (front ++ l ∷ []),
        m,
        rw fuel (manage-no_child k sys (tree_of f pipe_node a (front ++ l ∷ [])) m no_more),
        rw (hr, he, read_exit_code) refl,
      )
  manage-after (suc n) k code front l m he piped more there =
      let fuel : suc n + k ≡ suc (n + k) = omega arith in
      let now : m.asked + 2 * 0 ≡ m.asked = omega arith in
      let later : (i : ℕ) → m.asked + 1 + 1 + 2 * i ≡ m.asked + 2 * suc i = λ i. omega arith in
      let (front', piped', same, e) =
        report-front (n + k) front l m n piped more (rw now at (there 0 (omega arith))) in
      let (root, last, g, x) =
        manage-after n k code front' l (record (ask (ask m)) { to_wait = n }) he piped' refl
          (λ i lt. rw (later i, same) (there (suc i) (omega (arith, lt)))) in
      (root, last, rw fuel (e ∙ g), x)

module _ (sys : System) (f : NodeFields) (a : Option Appender) (r : ExecutionResult)
    (hr : f.result ≡ some r) where
  -- The pipe after the report of its last command.
  abbrev ended : ℕ → NodeFields
  ended code = record f { result = some (record r { exit_code = some code }) }

  report-last :
      (k : ℕ) (front : List Command) (l : Command) (m : Machine) (n : ℕ)
      → IsPiped f.address front l
      → m.to_wait ≡ suc n
      → (sys.wait3 m.asked).pid ≡ l.own.pid
      → (l' : Command) × IsPiped f.address front l'
        × (manage_running_nodes (suc k) sys (tree_of f pipe_node a (front ++ l ∷ [])) m
            ≡ manage_running_nodes k sys
                (tree_of (ended (sys.wait3 m.asked).status) pipe_node a (front ++ l' ∷ []))
                (record (ask (ask m)) { to_wait = n }))
  unfolding action after_action
  report-last k front l m n piped more own =
      let (rl, hl) = piped.last in
      let l' = completed sys (ask m) l rl (sys.wait3 m.asked) in
      (
        l',
        record {
          results = piped.results;
          last = (_, refl);
          apart = piped.apart;
          distinct = rw (sym (keys-replaced front l l' [] refl)) piped.distinct;
        },
        report sys f a r hr k front l [] rl m n
            (tree_of (ended (sys.wait3 m.asked).status) pipe_node a (front ++ l' ∷ [])) hl more own
            (rw own piped.apart) piped.distinct refl,
      )

  -- All commands of a started pipe are reported, the last one after `j` others.
  pub manage-pipe :
      (j n k : ℕ) (front : List Command) (l : Command) (m : Machine)
      → IsPiped f.address front l
      → m.to_wait ≡ j + suc n
      → ((i : ℕ) → i < j → has (sys.wait3 (m.asked + 2 * i)).pid (pids front) ≡ true)
      → (sys.wait3 (m.asked + 2 * j)).pid ≡ l.own.pid
      → ((i : ℕ) → i < n → has (sys.wait3 (m.asked + 2 * (j + suc i))).pid (pids front) ≡ true)
      → (root : Node) × (last : Machine) × (manage_running_nodes
            (j + suc n + k)
            sys
            (tree_of f pipe_node a (front ++ l ∷ []))
            m
          ≡ done (root, last))
        × (read_exit_code root ≡ done (sys.wait3 (m.asked + 2 * j)).status)
  manage-pipe zero n k front l m piped more before own after =
      let fuel : 0 + suc n + k ≡ suc (n + k) = omega arith in
      let now : m.asked + 2 * 0 ≡ m.asked = omega arith in
      let later : (i : ℕ) → m.asked + 1 + 1 + 2 * i ≡ m.asked + 2 * (0 + suc i) =
        λ i. omega arith in
      let (l', piped', e) =
        report-last (n + k) front l m n piped (omega (arith, more)) (rw now at own) in
      let code = (sys.wait3 m.asked).status in
      let (root, last, g, x) =
        manage-after sys (ended code) a (record r { exit_code = some code }) refl n k code front l'
          (record (ask (ask m)) { to_wait = n }) refl piped' refl
          (λ i lt. rw (later i) (after i lt)) in
      (root, last, rw fuel (e ∙ g), rw now x)
  manage-pipe (suc j) n k front l m piped more before own after =
      let fuel : suc j + suc n + k ≡ suc (j + suc n + k) = omega arith in
      let now : m.asked + 2 * 0 ≡ m.asked = omega arith in
      let later : (i : ℕ) → m.asked + 1 + 1 + 2 * i ≡ m.asked + 2 * suc i = λ i. omega arith in
      let much : (i : ℕ) → m.asked + 1 + 1 + 2 * (j + suc i) ≡ m.asked + 2 * (suc j + suc i) =
        λ i. omega arith in
      let (front', piped', same, e) =
        report-front sys f a r hr (j + suc n + k) front l m (j + suc n) piped (omega (arith, more))
          (rw now at (before 0 (omega arith))) in
      let (root, last, g, x) =
        manage-pipe j n k front' l (record (ask (ask m)) { to_wait = j + suc n }) piped' refl
          (λ i lt. rw (later i, same) (before (suc i) (omega (arith, lt)))) (rw (later j) own)
          (λ i lt. rw (much i, same) (after i lt)) in
      (root, last, rw fuel (e ∙ g), rw (sym (later j)) x)
