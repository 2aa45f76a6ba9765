-- ===== src/Builtin/Cd/Sequence.antt =====
-- What the `cd` commands do among the commands of one operator node that is no pipe.
use command_stats.Common.{
  ℕ, zero, suc, ◌+◌, ◌<◌, ◌≡◌, refl, sym, ap, ◌∙◌, true, false, List, [], ◌∷◌, ◌++◌, Option, some,
  arith, length, get_elem?, All, append-nil, Bool-cases, inl, inr, length-append,
}
use command_stats.Common.Distinct.{Distinct}
use command_stats.Common.Outcome.{done}
use command_stats.Common.Text.{Text}
use command_stats.Structs.Stream.{Appender}
use command_stats.Structs.Node.{NodeFields, Operator, ExecutableNode, operands, Nodes}
use command_stats.Builtin.Cd.{
  add_cd, is_cd, is_pipe, second_argument, add_cd_to_brothers, apply_cd_to_executable,
  apply_cd_to_operands, apply_cd_builtin,
}
use command_stats.Builtin.Cd.Commands.{
  Command, commands, keys, IsCounted, argument, enter, add_all, keys-append, length-add_all,
  IsCounted-add_all, enter-add_all, find_next-after, add_cd_at-command, apart-before, next_command,
  get-command, remove_command, Distinct-add_all, Distinct-removed, get-end,
}

add_cd_to_brothers-add_all :
    (k : ℕ) (e : ExecutableNode) (dir : Text) (pre : List Command) (f : NodeFields)
    (b : ExecutableNode) (cs : List Command)
    → second_argument e ≡ done dir
    → length cs < k
    → Distinct (keys (pre ++ (f, b) ∷ cs))
    → add_cd_to_brothers k e (commands (pre ++ (f, b) ∷ cs)) f.address
      ≡ done (commands (pre ++ (f, b) ∷ add_all dir cs))
unfolding add_cd_to_brothers add_all
add_cd_to_brothers-add_all zero e dir pre f b cs arg room d = absurd (omega (arith, room))
add_cd_to_brothers-add_all (suc k) e dir pre f b [] arg room d =
    rw (add_cd_to_brothers, find_next-after pre f b [] (apart-before pre f b [] d)) refl
add_cd_to_brothers-add_all (suc k) e dir pre f b ((g, h) ∷ cs) arg room d =
    let pre' = pre ++ (f, b) ∷ [] in
    let d' : Distinct (keys (pre' ++ (g, h) ∷ cs)) = rw (next_command pre (f, b) ((g, h) ∷ cs)) d in
    let ih = add_cd_to_brothers-add_all k e dir pre' g (add_cd h dir) cs arg (omega arith) (
      rw (keys-append pre' ((g, add_cd h dir) ∷ cs)) (rw (keys-append pre' ((g, h) ∷ cs)) at d')) in
    let at = add_cd_at-command dir pre' g h cs (apart-before pre' g h cs d') in
    rw
      (
        find_next-after pre f b ((g, h) ∷ cs) (apart-before pre f b ((g, h) ∷ cs) d),
        add_cd_to_brothers,
      )
      (rw (arg) (
        rw (sym (next_command pre (f, b) ((g, h) ∷ cs)), at)
          (ih
            ∙ ap (λ (l : List Command). done (commands l))
                (next_command pre (f, b) ((g, add_cd h dir) ∷ add_all dir cs)))))

two_arguments : (argv : List Text) → length argv ≡ 2 → (d : Text) × (get_elem? argv 1 ≡ some d)
two_arguments [] h = absurd (omega (arith, h))
two_arguments (a ∷ []) h = absurd (omega (arith, h))
two_arguments (a ∷ b ∷ argv) h = (b, refl)

second_argument-argument :
    (f : NodeFields) (e : ExecutableNode)
    → IsCounted (f, e)
    → is_cd e ≡ true
    → second_argument e ≡ done (argument e)
unfolding second_argument is_cd
second_argument-argument f e counted cd =
    let (dir, at) = two_arguments e.argv (ground (arith, cd)) in ground (arith, at)

apply_cd_to_executable-other :
    (k : ℕ) (op : Operator) (ns : Nodes) (i : ℕ) (f : NodeFields) (e : ExecutableNode)
    → is_cd e ≡ false
    → apply_cd_to_executable k op ns i f e ≡ done (ns, i + 1)
unfolding apply_cd_to_executable
apply_cd_to_executable-other k op ns i f e other = rw (other, apply_cd_to_executable) refl

enter-cd :
    (f : NodeFields) (e : ExecutableNode) (cs : List Command)
    → is_cd e ≡ true
    → enter [] ((f, e) ∷ cs) ≡ enter [] (add_all (argument e) cs)
unfolding enter
enter-cd f e cs cd = rw (cd, enter) (sym (enter-add_all (argument e) [] cs))

enter-other :
    (f : NodeFields) (e : ExecutableNode) (cs : List Command)
    → is_cd e ≡ false
    → enter [] ((f, e) ∷ cs) ≡ (f, e) ∷ enter [] cs
unfolding enter
enter-other f e cs other = rw (other, enter, append-nil e.cd) refl

apply_cd_to_executable-cd :
    (k : ℕ) (op : Operator) (pre : List Command) (f : NodeFields) (e : ExecutableNode)
    (cs : List Command)
    → is_pipe op ≡ false
    → is_cd e ≡ true
    → IsCounted (f, e)
    → length cs < k
    → Distinct (keys (pre ++ (f, e) ∷ cs))
    → apply_cd_to_executable k op (commands (pre ++ (f, e) ∷ cs)) (length pre) f e
      ≡ done (commands (pre ++ add_all (argument e) cs), length pre)
unfolding apply_cd_to_executable
apply_cd_to_executable-cd k op pre f e cs no_pipe cd counted room d =
    let arg = second_argument-argument f e counted cd in
    let brothers = add_cd_to_brothers-add_all k e (argument e) pre f e cs arg room d in
    rw (cd, apply_cd_to_executable)
      (rw (no_pipe) (
        rw (brothers) (
          rw
            (remove_command pre f e (add_all (argument e) cs)
              (Distinct-add_all (argument e) pre (f, e) cs d))
            refl)))

apply_cd_to_operands-enter :
    (k : ℕ) (op : Operator) (pre cs : List Command)
    → is_pipe op ≡ false
    → length cs < k
    → Distinct (keys (pre ++ cs))
    → All IsCounted cs
    → apply_cd_to_operands k op (commands (pre ++ cs)) (length pre)
      ≡ done (commands (pre ++ enter [] cs))
unfolding apply_cd_to_operands
apply_cd_to_operands-enter zero op pre cs no_pipe room d counted = absurd (omega (arith, room))
apply_cd_to_operands-enter (suc k) op pre [] no_pipe room d counted =
    rw (get-end pre, apply_cd_to_operands) (unfold enter in refl)
apply_cd_to_operands-enter (suc k) op pre ((f, e) ∷ cs) no_pipe room d counted =
    elim (Bool-cases (is_cd e)) [
      | inl cd ↦
          let left = add_all (argument e) cs in
          let d' =
            Distinct-removed pre (f, e) left (Distinct-add_all (argument e) pre (f, e) cs d) in
          rw (get-command pre f e cs, apply_cd_to_operands)
            (rw
              (
                apply_cd_to_executable-cd k op pre f e cs no_pipe cd counted.0 (omega (arith, room))
                    d,
                enter-cd f e cs cd,
              )
              (apply_cd_to_operands-enter k op pre left no_pipe
                (omega (arith, room, length-add_all (argument e) cs)) d'
                (IsCounted-add_all (argument e) cs counted.1)))
      | inr other ↦
          let pre' = pre ++ (f, e) ∷ [] in
          let same = next_command pre (f, e) cs in
          let count : length pre + 1 ≡ length pre' =
            omega (arith, length-append pre ((f, e) ∷ [])) in
          let ih =
            apply_cd_to_operands-enter k op pre' cs no_pipe (omega (arith, room)) (rw same d)
              counted.1 in
          rw (get-command pre f e cs, apply_cd_to_operands)
            (rw
              (
                apply_cd_to_executable-other k op (commands (pre ++ (f, e) ∷ cs)) (length pre) f e
                    other,
                enter-other f e cs other,
              )
              (rw (sym same, sym (next_command pre (f, e) (enter [] cs)), count) ih))
    ]

-- Among the commands of an And, Or or Semicolon node at the root, with distinct addresses and as many
-- arguments as are counted, and with fuel above their number, a `cd` with one argument goes away and
-- exactly the commands behind it enter its directory, in the order of the `cd`s before them.
pub apply_cd_builtin-enter :
    (k : ℕ) (f : NodeFields) (op : Operator) (a : Option Appender) (cs : List Command)
    → is_pipe op ≡ false
    → length cs < k
    → Distinct (keys cs)
    → All IsCounted cs
    → apply_cd_builtin k (operands f op a (commands cs))
      ≡ done (operands f op a (commands (enter [] cs)))
unfolding apply_cd_builtin
apply_cd_builtin-enter k f op a cs no_pipe room d counted =
    rw (apply_cd_to_operands-enter k op [] cs no_pipe room d counted, apply_cd_builtin) refl
