-- ===== src/Tests/Shell.antt =====
-- Operators of commands, executed to their ends.
use command_stats.Common.{
  ℕ, zero, suc, ◌+◌, ◌*◌, ◌<◌, ◌≡◌, ◌≢◌, refl, ap, [], ◌∷◌, none, some, arith, ◌==◌, if◌then◌else◌,
}
use command_stats.Common.Outcome.{done}
use command_stats.Structs.Stream.{Appender, pipe_stream, read_from_pipe, write_into_pipe}
use command_stats.Structs.Node.{Node, and_node, pipe_node}
use command_stats.Builtin.Cd.{is_pipe}
use command_stats.Execute.Verdict.{shell_exit_code}
use command_stats.Execute.System.{System, Machine, child, ask}
use command_stats.Execute.Start.{init_appender}
use command_stats.Execute.Manage.{start_machine, execute, read_exit_code}
use command_stats.Execute.Flat.{Command, tree_of}
use command_stats.Execute.Flat.Reports.{fork_at, Answers}
use command_stats.Execute.Flat.Piped.{IsForked, execute-pipe}
use command_stats.Execute.Flat.Shell.{execute-shell_exit_code}
use command_stats.Tests.Samples.{fields_at, make_command, standard_in, standard_out, system, waited}

-- The n-th call of the system, where it is a fork, gives the pid 1000 + n, which the call of wait3
-- behind it reports. The first command succeeds and the others end with 3.
abbrev prompt : System
prompt = system (λ n. child (1000 + n)) (λ n. waited (999 + n) (if n == 4 then 0 else 3))

abbrev at_once : ℕ → ℕ
at_once s = 0

fork_at-regular : (start s : ℕ) → fork_at start at_once s ≡ start + 4 * s
unfolding fork_at
fork_at-regular start zero = omega arith
fork_at-regular start (suc s) = omega (arith, fork_at-regular start s)

abbrev pids : ℕ → ℕ → ℕ
pids start s = 1000 + (start + 4 * s)

prompt-Answers : (start : ℕ) → Answers prompt start at_once (pids start)
prompt-Answers start = record {
  forks = λ s. ap (λ n. child (1000 + n)) (fork_at-regular start s);
  different = λ s t lt e. omega (arith, lt, e);
  strangers = λ s i t lt e. omega (arith, lt);
  own = λ s. omega (arith, fork_at-regular start s);
}

abbrev command : ℕ → Command
command k = record {
  own = record (fields_at k) {
    std_in = some standard_in;
    std_out = some (pipe_stream k write_into_pipe);
  };
  value = make_command;
}

abbrev appender : Appender
appender = record {
  from = pipe_stream 2 read_from_pipe ∷ pipe_stream 3 read_from_pipe ∷ [];
  to = standard_out;
}

ready : (m : Machine) × (init_appender prompt appender (ask start_machine) ≡ done m)
unfolding init_appender
ready = (_, refl)

waiting : (n : ℕ) → 100 ≢ 999 + n
waiting n e = omega (arith, e)

execute-shell_exit_code_example :
    (root : Node) × (m : Machine) × (execute 7 prompt
        (tree_of (fields_at 1) and_node (some appender) (command 2 ∷ command 3 ∷ []))
      ≡ done (root, m))
    × (read_exit_code root ≡ done 3)
unfolding is_pipe shell_exit_code fork_at ready
execute-shell_exit_code_example =
    execute-shell_exit_code 5 prompt at_once (pids (ready.0.asked + 1)) (fields_at 1) and_node
      appender (command 2) (command 3 ∷ []) ready.0 refl
      ((_, _, refl, refl, waiting), ((_, _, refl, refl, waiting), tt)) (refl, (refl, (refl, tt)))
      ready.1 (prompt-Answers (ready.0.asked + 1))

-- A pipe of three commands, of which the second completes first, then the last, then the first.
abbrev mixed : System
mixed =
    system (λ n. child (100 + n))
      (λ n. waited (if n == 7 then 104 else if n == 9 then 106 else 102) (if n == 9 then 5 else 0))

abbrev pid_of : ℕ → ℕ
pid_of i = 100 + (2 + 2 * i)

only : (P : ℕ → Type 0) → P 0 → (i : ℕ) → i < 1 → P i
only P h zero lt = h
only P h (suc i) lt = absurd (omega (arith, lt))

execute-pipe_example :
    (root : Node) × (last : Machine) × (execute 4 mixed
        (tree_of (fields_at 1) pipe_node none (command 2 ∷ command 3 ∷ command 4 ∷ []))
      ≡ done (root, last))
    × (read_exit_code root ≡ done 5)
execute-pipe_example =
    execute-pipe 1 1 1 mixed pid_of (fields_at 1) none (command 2 ∷ command 3 ∷ []) (command 4)
      ((_, _, refl, refl), ((_, _, refl, refl), tt)) (_, _, refl, refl)
      (refl, (refl, (refl, (refl, tt)))) (λ i. refl) (λ t lt e. omega (arith, lt, e)) refl
      (only (λ i. IsForked pid_of 2 (mixed.wait3 (7 + 2 * i)).pid) (1, omega arith, refl)) refl
      (only (λ i. IsForked pid_of 2 (mixed.wait3 (7 + 2 * (1 + suc i))).pid) (0, omega arith, refl))
