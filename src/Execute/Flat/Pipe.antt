-- ===== src/Execute/Flat/Pipe.antt =====
-- A pipe of commands, all of which have been started.
use command_stats.Common.{
  ℕ, ◌≡◌, ◌≢◌, refl, sym, ap, ◌∙◌, true, List, [], ◌∷◌, ◌++◌, Option, some, arith, All, ◌==◌,
  ==_iff, Bool-cases, inl, inr,
}
use command_stats.Common.Distinct.{has, Distinct}
use command_stats.Structs.Stream.{Appender}
use command_stats.Structs.Node.{ExecutionResult, NodeFields, pipe_node}
use command_stats.Structs.Walk.{find_node_in_tree_with_pid}
use command_stats.Execute.System.{System}
use command_stats.Execute.Manage.{is_some}
use command_stats.Execute.Flat.{Command, tree_of, to_node, keys, first, find_in_operands-running}

abbrev pub pids : List Command → List ℕ
pids [] = []
pids (c ∷ cs) = c.own.pid ∷ pids cs

-- a command with a result, which it has from when it is forked
abbrev pub HasResult : Command → Type 0
HasResult c = (r : ExecutionResult) × (c.own.result ≡ some r)

-- the first command with a pid
pub record Holder (p : ℕ) (cs : List Command) : Type 0 where
  pub pre : List Command
  pub c : Command
  pub rest : List Command
  pub split : cs ≡ pre ++ c ∷ rest
  pub own : p ≡ c.own.pid
  pub others : All (λ d. d.own.pid ≢ p) pre

pub holder : (p : ℕ) (cs : List Command) → has p (pids cs) ≡ true → Holder p cs
holder p [] h = cc
holder p (c ∷ cs) h = elim (Bool-cases (c.own.pid == p)) [
  | inl e ↦ record {
    pre = [];
    c = c;
    rest = cs;
    split = refl;
    own = sym ((==_iff c.own.pid p).0 e);
    others = tt;
  }
  | inr e ↦
      let rest = holder p cs (ground (arith, h, e)) in
      record {
        pre = c ∷ rest.pre;
        c = rest.c;
        rest = rest.rest;
        split = ap (λ ds. c ∷ ds) rest.split;
        own = rest.own;
        others = ((λ same. ground (arith, e, ==_iff c.own.pid p, same)), rest.others);
      }
]

pub pids-replaced :
    (pre : List Command) (c d : Command) (rest : List Command)
    → c.own.pid ≡ d.own.pid
    → pids (pre ++ c ∷ rest) ≡ pids (pre ++ d ∷ rest)
pids-replaced [] c d rest h = rw h refl
pids-replaced (p ∷ pre) c d rest h = ap (λ ks. p.own.pid ∷ ks) (pids-replaced pre c d rest h)

pub HasResult-split :
    (pre : List Command) (c : Command) (rest : List Command)
    → All HasResult (pre ++ c ∷ rest)
    → All HasResult pre × HasResult c × All HasResult rest
HasResult-split [] c rest h = (tt, h.0, h.1)
HasResult-split (p ∷ pre) c rest h =
    let (a, b, d) = HasResult-split pre c rest h.1 in ((h.0, a), b, d)

pub find_running :
    (sys : System) (f : NodeFields) (a : Option Appender) (pre : List Command) (c : Command)
    (rest : List Command) (p : ℕ)
    → p ≡ c.own.pid
    → All (λ d. d.own.pid ≢ p) pre
    → find_node_in_tree_with_pid (tree_of f pipe_node a (pre ++ c ∷ rest)) p
      ≡ some (record {
        result = to_node c;
        result_father = some (tree_of f pipe_node a (pre ++ c ∷ rest));
      })
unfolding find_node_in_tree_with_pid
find_running sys f a pre c rest p own others =
    find_in_operands-running (tree_of f pipe_node a (pre ++ c ∷ rest)) pre c rest p own others

-- The commands in front of the last one, `l`, and this one run or have been reported.
pub record IsPiped (address : ℕ) (front : List Command) (l : Command) : Type 0 where
  pub results : All HasResult front
  pub last : HasResult l
  pub apart : All (λ d. d.own.pid ≢ l.own.pid) front
  pub distinct : Distinct (address ∷ keys (front ++ l ∷ []))

pub first-some : (rest : List Command) (l : Command) → is_some (first (rest ++ l ∷ [])) ≡ true
first-some [] l = refl
first-some (c ∷ rest) l = refl

pub apart-replaced :
    (pre : List Command) (c d l : Command) (rest : List Command)
    → c.own.pid ≡ d.own.pid
    → All (λ d. d.own.pid ≢ l.own.pid) (pre ++ c ∷ rest)
    → All (λ d. d.own.pid ≢ l.own.pid) (pre ++ d ∷ rest)
apart-replaced [] c d l rest e h = ((λ e'. h.0 (e ∙ e')), h.1)
apart-replaced (p ∷ pre) c d l rest e h = (h.0, apart-replaced pre c d l rest e h.1)
