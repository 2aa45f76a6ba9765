-- ===== src/Execute/Flat/Piped.antt =====
-- The execution of a pipe of commands, from its start to the exit code that it stores.
use command_stats.Common.{
  ℕ, zero, suc, ◌+◌, ◌*◌, ◌<◌, ◌≡◌, ◌≢◌, refl, sym, ap, ◌∙◌, true, List, [], ◌∷◌, ◌++◌, Option,
  some, arith, All, length,
}
use command_stats.Common.Distinct.{has, has-append_left, has-append_right, Distinct}
use command_stats.Common.Outcome.{done}
use command_stats.Structs.Stream.{Stream, Appender}
use command_stats.Structs.Node.{NodeFields, pipe_node, Node, Nodes, operands}
use command_stats.Execute.System.{System, Machine, child, ask, create_execution_result}
use command_stats.Execute.Start.{execute_async, execute_all_async}
use command_stats.Execute.Manage.{read_exit_code, start_machine, execute}
use command_stats.Execute.Single.{execute_async-forked}
use command_stats.Execute.Flat.{Command, tree_of, to_nodes, keys}
use command_stats.Execute.Flat.Reports.{started}
use command_stats.Execute.Flat.Pipe.{pids, HasResult}
use command_stats.Execute.Flat.Reported.{manage-pipe}

abbrev pub HasStreams : Command → Type 0
HasStreams c = (i : Stream) × (o : Stream) × (c.own.std_in ≡ some i) × (c.own.std_out ≡ some o)

-- the pids with the numbers from `s` on
abbrev pub numbered : (ℕ → ℕ) → ℕ → ℕ → List ℕ
numbered pid s zero = []
numbered pid s (suc n) = pid s ∷ numbered pid (suc s) n

has-numbered :
    (pid : ℕ → ℕ) (s n t x : ℕ) → t < n → x ≡ s + t → has (pid x) (numbered pid s n) ≡ true
has-numbered pid s zero t x lt e = absurd (omega (arith, lt))
has-numbered pid s (suc n) zero x lt e =
    let same : x ≡ s = omega (arith, e) in
    has-append_left (pid x) (pid s ∷ []) (numbered pid (suc s) n) (ground (arith, ap pid same))
has-numbered pid s (suc n) (suc t) x lt e =
    has-append_right (pid x) (pid s ∷ []) (numbered pid (suc s) n)
      (has-numbered pid (suc s) n t x (omega (arith, lt)) (omega (arith, e)))

-- The commands of a pipe once all have been started: `s` is the number of the first.
record AreStarted (pid : ℕ → ℕ) (s : ℕ) (front : List Command) (l : Command) (m : Machine)
    (front' : List Command) (l' : Command) (m' : Machine) : Type 0 where
  same : keys (front' ++ l' ∷ []) ≡ keys (front ++ l ∷ [])
  results : All HasResult front'
  last : HasResult l'
  pids_front : pids front' ≡ numbered pid s (length front)
  pid_last : l'.own.pid ≡ pid (s + length front)
  waits : m'.to_wait ≡ m.to_wait + length front + 1
  asks : m'.asked ≡ m.asked + 2 * (length front + 1)

module _ (sys : System) (base : ℕ) (pid : ℕ → ℕ)
    (forks : (i : ℕ) → sys.fork_result (base + 2 * i) ≡ child (pid i)) where
  start-pipe :
      (front : List Command) (l : Command) (s : ℕ) (m : Machine)
      → All HasStreams front
      → HasStreams l
      → m.asked + 1 ≡ base + 2 * s
      → (front' : List Command) × (l' : Command) × (m' : Machine) × (execute_all_async sys
            (to_nodes (front ++ l ∷ []))
            m
          ≡ done (to_nodes (front' ++ l' ∷ []), m'))
        × AreStarted pid s front l m front' l' m'
  unfolding execute_all_async
  start-pipe [] l s m streams (i, o, hi, ho) now =
      let (r, m', h, one, two) =
        execute_async-forked sys l.own l.value i o (pid s) m hi ho
          (ap sys.fork_result now ∙ forks s) in
      let zero_more : s + 0 ≡ s = omega arith in
      (
        [],
        started l r (pid s),
        m',
        rw (h, execute_all_async) refl,
        record {
          same = refl;
          results = tt;
          last = (r, refl);
          pids_front = refl;
          pid_last = rw zero_more refl;
          waits = omega (arith, one);
          asks = omega (arith, two);
        },
      )
  start-pipe (c ∷ front) l s m streams last now =
      let (i, o, hi, ho) = streams.0 in
      let (r, m1, h, one, two) =
        execute_async-forked sys c.own c.value i o (pid s) m hi ho
          (ap sys.fork_result now ∙ forks s) in
      let (front', l', m', h', st) =
        start-pipe front l (suc s) m1 streams.1 last (omega (arith, now, two)) in
      let more : s + suc (length front) ≡ suc s + length front = omega arith in
      (
        started c r (pid s) ∷ front',
        l',
        m',
        rw (h, execute_all_async) (rw h' refl),
        record {
          same = ap (λ ks. c.own.address ∷ ks) st.same;
          results = ((r, refl), st.results);
          last = st.last;
          pids_front = ap (λ ps. pid s ∷ ps) st.pids_front;
          pid_last = st.pid_last ∙ ap pid (sym more);
          waits = omega (arith, one, st.waits);
          asks = omega (arith, two, st.asks);
        },
      )

numbered-apart :
    (pid : ℕ → ℕ) (x s n : ℕ)
    → ((t : ℕ) → t < s + n → pid t ≢ x)
    → All (λ p. p ≢ x) (numbered pid s n)
numbered-apart pid x s zero h = tt
numbered-apart pid x s (suc n) h =
    (h s (omega arith), numbered-apart pid x (suc s) n (λ t lt. h t (omega (arith, lt))))

All-pids : (x : ℕ) (cs : List Command) → All (λ p. p ≢ x) (pids cs) → All (λ c. c.own.pid ≢ x) cs
All-pids x [] h = tt
All-pids x (c ∷ cs) h = (h.0, All-pids x cs h.1)

execute_async-pipe :
    (sys : System) (f : NodeFields) (a : Option Appender) (ns ns' : Nodes) (m m' : Machine)
    → execute_all_async sys ns (ask m) ≡ done (ns', m')
    → execute_async sys (operands f pipe_node a ns) m
      ≡ done (
        operands (record f { result = some (create_execution_result sys m).0 }) pipe_node a ns',
        m',
      )
unfolding execute_async create_execution_result
execute_async-pipe sys f a ns ns' m m' h = rw (h, execute_async) refl

-- the pid is that of one of the first `n` forks
abbrev pub IsForked : (ℕ → ℕ) → ℕ → ℕ → Type 0
IsForked pid n p = (t : ℕ) × (t < n) × (p ≡ pid t)

-- when wait3 is first called, in calls of the system
abbrev pub reports_at : List Command → ℕ
reports_at front = 3 + 2 * length front

-- A pipe of commands with their streams and distinct addresses, the last one `l`, is executed to its
-- end, in whatever order they complete. Let every fork succeed, with a pid that is not the last
-- command's for those in front; let wait3 report commands in front `j` times, then the last one, and
-- then commands in front `n` times, as many in all as the pipe has; and let it be called that often,
-- or `k` times more. Then the execution returns, and the root's exit code is the status that wait3
-- reports of the last command.
pub execute-pipe :
    (j n k : ℕ) (sys : System) (pid : ℕ → ℕ) (f : NodeFields) (a : Option Appender)
    (front : List Command) (l : Command)
    → All HasStreams front
    → HasStreams l
    → Distinct (f.address ∷ keys (front ++ l ∷ []))
    → ((i : ℕ) → sys.fork_result (2 + 2 * i) ≡ child (pid i))
    → ((t : ℕ) → t < length front → pid t ≢ pid (length front))
    → length front ≡ j + n
    → ((i : ℕ) → i < j → IsForked pid (length front) (sys.wait3 (reports_at front + 2 * i)).pid)
    → (sys.wait3 (reports_at front + 2 * j)).pid ≡ pid (length front)
    → ((i : ℕ)
        → i < n
        → IsForked pid (length front) (sys.wait3 (reports_at front + 2 * (j + suc i))).pid)
    → (root : Node) × (last : Machine) × (execute
          (j + suc n + k)
          sys
          (tree_of f pipe_node a (front ++ l ∷ []))
        ≡ done (root, last))
      × (read_exit_code root ≡ done (sys.wait3 (reports_at front + 2 * j)).status)
unfolding execute
execute-pipe j n k sys pid f a front l streams last_streams dist forks different all before own
      after =
    let (front', l', m, h, st) =
      start-pipe sys 2 pid forks front l 0 (ask start_machine) streams last_streams refl in
    let result = (create_execution_result sys start_machine).0 in
    let now : m.asked ≡ 3 + 2 * length front = omega (arith, st.asks) in
    let zero_more : 0 + length front ≡ length front = omega arith in
    let named = st.pid_last ∙ ap pid zero_more in
    let forked : (p : ℕ) → IsForked pid (length front) p → has p (pids front') ≡ true =
      λ p (t, lt, e).
        rw (e, st.pids_front) (has-numbered pid 0 (length front) t t lt (omega arith)) in
    let (root, last, g, x) =
      manage-pipe sys (record f { result = some result }) a result refl j n k front' l' m
        (record {
          results = st.results;
          last = st.last;
          apart = All-pids l'.own.pid front' (
              rw st.pids_front (
                numbered-apart pid l'.own.pid 0 (length front)
                  (λ t lt e. different t (omega (arith, lt)) (e ∙ named))));
          distinct = rw st.same dist;
        })
        (omega (arith, st.waits, all)) (λ i lt. rw now (forked _ (before i lt)))
        (rw now (own ∙ sym named)) (λ i lt. rw now (forked _ (after i lt))) in
    (root, last, rw (execute_async-pipe sys f a _ _ start_machine m h, execute) g, rw (sym now) x)
