-- ===== src/Execute/Flat/Ended.antt =====
-- What the actions of the switch lead to, and the exit code that follows from them.
use command_stats.Common.{
  ℕ, ◌≡◌, refl, List, [], ◌∷◌, Option, none, some, arith, ◌⊎◌, inl, inr, true, false,
}
use command_stats.Common.Outcome.{done}
use command_stats.Structs.Stream.{Appender}
use command_stats.Structs.Node.{ExecutionResult, NodeFields, Operator, Node}
use command_stats.Execute.System.{System, Machine, exited_correctly}
use command_stats.Execute.Manage.{
  Action, start_next, end_with, go_on, action, read_exit_code, set_result,
}
use command_stats.Execute.Verdict.{settle}
use command_stats.Execute.Root.{after_action}
use command_stats.Execute.Flat.{Command, tree_of}

-- the exit code of an action, where `y` is that of the operands behind
abbrev pub code_of : Action → Option ℕ → Option ℕ
code_of (end_with code) y = some code
code_of start_next y = y
code_of go_on y = none

pub finish :
    (sys : System) (f : NodeFields) (op : Operator) (a : Option Appender) (r : ExecutionResult)
    (x : Action) (y : Option ℕ) (cs : List Command) (next : Option Node) (m : Machine) (code : ℕ)
    → code_of x y ≡ some code
    → ((root : Node) × (after_action sys (tree_of f op a cs) r next m x ≡ done (root, m))
        × (read_exit_code root ≡ done code))
      ⊎ ((x ≡ start_next) × (y ≡ some code))
unfolding after_action read_exit_code
finish sys f op a r (end_with c) y cs next m code h =
    inl (set_result (tree_of f op a cs) (record r { exit_code = some c }), refl, ground (arith, h))
finish sys f op a r start_next y cs next m code h = inr (refl, h)
finish sys f op a r go_on y cs next m code h = cc

action-code_of :
    (x : Action) (y : Option ℕ)
    → (elim x [ end_with code ↦ some code | start_next ↦ y | go_on ↦ none ]) ≡ code_of x y
action-code_of (end_with code) y = refl
action-code_of start_next y = refl
action-code_of go_on y = refl

pub settle-last :
    (sys : System) (op : Operator) (e : ℕ)
    → settle sys op e [] ≡ code_of (action op e (exited_correctly sys e) false) none
unfolding settle
settle-last sys op e = action-code_of (action op e (exited_correctly sys e) false) none

pub settle-more :
    (sys : System) (op : Operator) (e next : ℕ) (es : List ℕ)
    → settle sys op e (next ∷ es)
      ≡ code_of (action op e (exited_correctly sys e) true) (settle sys op next es)
unfolding settle
settle-more sys op e next es =
    action-code_of (action op e (exited_correctly sys e) true) (settle sys op next es)
